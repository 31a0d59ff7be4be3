-- ===== src/Metrics/Static.antt =====
-- What `StaticSource` returns.
use text.Mathlib.Text.{◌==◌}
use text.Mathlib.TextEquality.{eq_iff}
use traficctl.Prelude.{
  ◌≡◌, refl, sym, ◌∙◌, ap, inl, inr, List, [], ◌∷◌, Option, none, some, Bool, true, false, String,
}
use traficctl.Prelude.Tests.{if◌then◌else◌, Bool-cases, Option-cases}
use traficctl.Prelude.Dict.{Dict, lookup, insert, lookup-insert}
use traficctl.Prelude.Results.{ok, fails}
use traficctl.Metrics.{StaticSource, requested, pick_values, sample_static}
use traficctl.Metrics.Vector.{prefer}

if-same : {A : Type 0} (b : Bool) (x : A) → (if b then x else x) ≡ x
if-same true x = refl
if-same false x = refl

pub prefer-none : {A : Type 0} (o : Option A) → prefer o none ≡ o
prefer-none none = refl
prefer-none (some v) = refl

module _ {F : Type 0} where
  pick_values-lookup :
      (values : Dict F) (bs : List String) (out : Dict F) (name : String)
      → lookup name (pick_values values bs out) ≡ (
          if requested name bs
          then prefer (lookup name values) (lookup name out)
          else lookup name out)
  unfolding pick_values
  pick_values-lookup values [] out name = refl
  pick_values-lookup values (b ∷ bs) out name = elim (Option-cases (lookup b values)) [
    | inl e ↦
        rw (e, pick_values, pick_values-lookup values bs out name)
          (elim (Bool-cases (b == name)) [
            | inl same ↦
                let missing : lookup name values ≡ none =
                  ap (λ n. lookup n values) (sym ((eq_iff b name).0 same)) ∙ e in
                rw (same, missing) (if-same (requested name bs) (lookup name out))
            | inr other ↦ rw other refl
          ])
    | inr (v, e) ↦
        rw (e, pick_values, pick_values-lookup values bs (insert b v out) name, lookup-insert)
          (elim (Bool-cases (b == name)) [
            | inl same ↦
                let there : lookup name values ≡ some v =
                  ap (λ n. lookup n values) (sym ((eq_iff b name).0 same)) ∙ e in
                rw (same, there) (if-same (requested name bs) (some v))
            | inr other ↦ rw other refl
          ])
  ]

  -- `StaticSource` returns its error if it has one, and else the values of the requested backends that
  -- it has, and no others.
  pub sample_static_lem :
      (s : StaticSource F) (backends : List String)
      → ((e : String) → s.err ≡ some e → sample_static s backends ≡ fails e)
        × (s.err ≡ none
            → (out : Dict F) × (sample_static s backends ≡ ok out)
              × ((name : String)
                  → lookup name out
                    ≡ (if requested name backends then lookup name s.values else none)))
  unfolding sample_static lookup
  sample_static_lem s backends = (
    λ e h. rw (h, sample_static) refl,
    λ h. (
      pick_values s.values backends [],
      rw (h, sample_static) refl,
      λ name. pick_values-lookup s.values backends [] name ∙ empty_start name,
    ),
  )
    where
      empty_start :
          (name : String)
          → (if requested name backends
              then prefer (lookup name s.values) (lookup name [])
              else lookup name [])
            ≡ (if requested name backends then lookup name s.values else none)
      empty_start name = rw (prefer-none (lookup name s.values)) refl
