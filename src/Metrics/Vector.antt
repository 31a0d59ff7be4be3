-- ===== src/Metrics/Vector.antt =====
-- What the loop over a Prometheus vector returns: for every requested backend its last sample.
use mathlib.Core.Option.{some-injective}
use text.Mathlib.Text.{◌==◌}
use text.Mathlib.TextEquality.{eq_iff}
use text.Mathlib.TextPositions.{eq_refl}
use traficctl.Prelude.{
  ◌≡◌, ◌↔◌, refl, sym, ◌∙◌, ap, inl, inr, List, [], ◌∷◌, Option, none, some, true, false, String,
}
use traficctl.Prelude.Tests.{if◌then◌else◌, Bool-cases, Option-cases, none-ne-some, true-ne-false}
use traficctl.Prelude.Dict.{Dict, lookup, insert, lookup-insert}
use traficctl.Prelude.Lists.{All}
use traficctl.Prelude.Results.{Result, ok, fails, ◌>>=◌, >>=-eq-ok, ok-injective}
use traficctl.Metrics.{requested}
use traficctl.Metrics.Prometheus.{VectorSample, Net, read_value, collect}

-- A later value replaces an earlier one.
abbrev pub prefer {ℓ} : {A : Type ℓ} → Option A → Option A → Option A
prefer (some v) old = some v
prefer none old = old

module _ {W F H B : Type 0} (net : Net W F H B) (label : String) where
  abbrev value_of : Result F → Option F
  value_of (ok v) = some v
  value_of (fails e) = none

  -- The value that one sample has for a backend.
  unfoldable pub reading : String → VectorSample → Option F
  reading name s = elim (lookup label s.metric) [
    | none ↦ none
    | some n ↦ if n == name then value_of (read_value net label n s.value) else none
  ]

  -- The value of the last sample that has one.
  unfoldable pub latest : String → List VectorSample → Option F
  unfolding reading
  latest name [] = none
  latest name (s ∷ ss) = prefer (latest name ss) (reading name s)

  module _ (backends : List String) where
    -- A sample of a requested backend has two elements, the second a string that is a number.
    pub record Readable (s : VectorSample) : Type 0 where
      pub readable :
          (name : String)
          → lookup label s.metric ≡ some name
          → requested name backends ≡ true
          → (v : F) × (read_value net label name s.value ≡ ok v)

    collect-none :
        (s : VectorSample) (ss : List VectorSample) (out : Dict F)
        → lookup label s.metric ≡ none
        → collect net label backends (s ∷ ss) out ≡ collect net label backends ss out
    unfolding collect
    collect-none s ss out h = rw (h, collect) refl

    collect-other :
        (s : VectorSample) (ss : List VectorSample) (out : Dict F) (name : String)
        → lookup label s.metric ≡ some name
        → requested name backends ≡ false
        → collect net label backends (s ∷ ss) out ≡ collect net label backends ss out
    unfolding collect
    collect-other s ss out name h k = rw (h, k, collect) refl

    collect-some :
        (s : VectorSample) (ss : List VectorSample) (out : Dict F) (name : String)
        → lookup label s.metric ≡ some name
        → requested name backends ≡ true
        → collect net label backends (s ∷ ss) out ≡ (
            read_value net label name s.value >>= λ v.
            collect net label backends ss (insert name v out))
    unfolding collect
    collect-some s ss out name h k = rw (h, k, collect) refl

    -- The loop succeeds exactly if every sample of a requested backend is readable.
    pub collect-Readable :
        (ss : List VectorSample) (out : Dict F)
        → ((out' : Dict F) × (collect net label backends ss out ≡ ok out')) ↔ All Readable ss
    collect-Readable [] out = unfold collect in (λ _. tt, λ _. (out, refl))
    collect-Readable (s ∷ ss) out = elim (Option-cases (lookup label s.metric)) [
      | inl e ↦
          let ih = collect-Readable ss out in
          rw (collect-none s ss out e) (
            λ h. (record { readable = λ n e' _. absurd (none-ne-some (sym e ∙ e')) }, ih.0 h),
            λ (_, h). ih.1 h,
          )
      | inr (name, e) ↦ elim (Bool-cases (requested name backends)) [
        | inr k ↦
            let ih = collect-Readable ss out in
            rw (collect-other s ss out name e k) (
              λ h. (
                record {
                  readable = λ n e' r.
                      let same = some-injective name n (sym e ∙ e') in
                      absurd
                        (true-ne-false (sym r ∙ (ap (λ m. requested m backends) (sym same) ∙ k)));
                },
                ih.0 h,
              ),
              λ (_, h). ih.1 h,
            )
        | inl k ↦ rw (collect-some s ss out name e k) (
          λ (out', h).
              let (v, r, rest) =
                >>=-eq-ok (read_value net label name s.value)
                  (λ v. collect net label backends ss (insert name v out)) out' h in
              (
                record { readable = λ n e' r'. (v, rw (← some-injective name n (sym e ∙ e')) r) },
                (collect-Readable ss (insert name v out)).0 (out', rest),
              ),
          λ (one, all).
              let (v, r) = one.readable name e k in
              let (out', rest) = (collect-Readable ss (insert name v out)).1 all in
              (out', rw r rest),
        )
      ]
    ]

    prefer_assoc : (a b c : Option F) → prefer (prefer a b) c ≡ prefer a (prefer b c)
    prefer_assoc none b c = refl
    prefer_assoc (some v) b c = refl

    -- What the map holds for a backend: the last of its samples if it is requested.
    abbrev held : String → List VectorSample → Dict F → Option F
    held name ss out =
        if requested name backends
        then prefer (latest name ss) (lookup name out)
        else lookup name out

    reading-none :
        (name : String) (s : VectorSample) → lookup label s.metric ≡ none → reading name s ≡ none
    unfolding reading
    reading-none name s e = rw (e, reading) refl

    reading_self :
        (name : String) (s : VectorSample) (v : F)
        → lookup label s.metric ≡ some name
        → read_value net label name s.value ≡ ok v
        → reading name s ≡ some v
    unfolding reading
    reading_self name s v e r = rw (e, eq_refl, r, reading) refl

    reading-other :
        (name n : String) (s : VectorSample)
        → lookup label s.metric ≡ some n
        → (n == name) ≡ false
        → reading name s ≡ none
    unfolding reading
    reading-other name n s e k = rw (e, k, reading) refl

    -- A sample that is passed over changes nothing.
    held-skip :
        (name : String) (s : VectorSample) (ss : List VectorSample) (out : Dict F)
        → (requested name backends ≡ true → reading name s ≡ none)
        → held name (s ∷ ss) out ≡ held name ss out
    unfolding latest
    held-skip name s ss out h = elim (Bool-cases (requested name backends)) [
      | inr k ↦ rw k refl
      | inl k ↦ rw (k, h k) (prefer_assoc (latest name ss) none (lookup name out))
    ]

    held-insert :
        (name n : String) (s : VectorSample) (ss : List VectorSample) (out : Dict F) (v : F)
        → lookup label s.metric ≡ some n
        → requested n backends ≡ true
        → read_value net label n s.value ≡ ok v
        → held name (s ∷ ss) out ≡ held name ss (insert n v out)
    unfolding latest
    held-insert name n s ss out v e k r = elim (Bool-cases (n == name)) [
      | inl same ↦
          let eq : n ≡ name = (eq_iff n name).0 same in
          let asked : requested name backends ≡ true =
            ap (λ m. requested m backends) (sym eq) ∙ k in
          let here : reading name s ≡ some v =
            reading_self name s v (e ∙ ap some eq)
              (ap (λ (m : String). read_value net label m s.value) (sym eq) ∙ r) in
          rw (asked, lookup-insert, same, here)
            (prefer_assoc (latest name ss) (some v) (lookup name out))
      | inr other ↦
          rw (lookup-insert, other) (held-skip name s ss out λ _. reading-other name n s e other)
    ]

    held-nil : (name : String) (out : Dict F) → held name [] out ≡ lookup name out
    unfolding latest
    held-nil name out = elim (Bool-cases (requested name backends)) [
      | inl k ↦ rw k refl
      | inr k ↦ rw k refl
    ]

    collect-nil : (out : Dict F) → collect net label backends [] out ≡ ok out
    unfolding collect
    collect-nil out = refl

    ne_of_requested :
        (n name : String)
        → requested n backends ≡ false
        → requested name backends ≡ true
        → (n == name) ≡ false
    ne_of_requested n name k r = elim (Bool-cases (n == name)) [
      | inl same ↦
          let eq : n ≡ name = (eq_iff n name).0 same in
          absurd (true-ne-false (sym r ∙ (ap (λ m. requested m backends) (sym eq) ∙ k)))
      | inr other ↦ other
    ]

    -- If the loop succeeds, the map holds for every requested backend the last of its samples, and is
    -- else as it was.
    pub collect-lookup :
        (ss : List VectorSample) (out out' : Dict F) (name : String)
        → collect net label backends ss out ≡ ok out'
        → lookup name out' ≡ held name ss out
    collect-lookup [] out out' name h =
        rw (held-nil name out, ok-injective (sym (collect-nil out) ∙ h)) refl
    collect-lookup (s ∷ ss) out out' name h = elim (Option-cases (lookup label s.metric)) [
      | inl e ↦
          collect-lookup ss out out' name (sym (collect-none s ss out e) ∙ h)
          ∙ sym (held-skip name s ss out λ _. reading-none name s e)
      | inr (n, e) ↦ elim (Bool-cases (requested n backends)) [
        | inr k ↦
            collect-lookup ss out out' name (sym (collect-other s ss out n e k) ∙ h)
            ∙ sym
                (held-skip name s ss out λ r. reading-other name n s e (ne_of_requested n name k r))
        | inl k ↦
            let (v, r, rest) =
              >>=-eq-ok (read_value net label n s.value)
                (λ v. collect net label backends ss (insert n v out)) out'
                (sym (collect-some s ss out n e k) ∙ h) in
            collect-lookup ss (insert n v out) out' name rest
            ∙ sym (held-insert name n s ss out v e k r)
      ]
    ]
