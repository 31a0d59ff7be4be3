-- ===== src/Router/Weights.antt =====
-- The weights that `Apply` writes into a route.
use traficctl.Prelude.{
  ◌≡◌, ◌≢◌, refl, List, [], ◌∷◌, Option, none, some, Bool, true, false, ◌||◌, not, inl, inr, arith,
  ap, ap₂, ◌∙◌, sym,
}
use mathlib.Core.Option.{some-injective}
use traficctl.Prelude.Tests.{Bool-cases, Option-cases}
use traficctl.Prelude.Int.{ℤ, eq_int}
use traficctl.Prelude.Dict.{Dict, lookup}
use traficctl.Router.{BackendRef, Rule, differs, set_ref, set_refs, set_rules}

pub eq_int→eq : (a b : ℤ) → eq_int a b ≡ true → a ≡ b
eq_int→eq a b h = ground arith

pub eq_int_refl : (a : ℤ) → eq_int a a ≡ true
eq_int_refl a = ground arith

not_differs : (o : Option ℤ) (w : ℤ) → differs o w ≡ false → o ≡ some w
not_differs none w h = cc
not_differs (some v) w h = ap some (eq_int→eq v w (ground arith))

-- The weight that the desired map gives a reference, or its own.
abbrev pub wanted : Option ℤ → Option ℤ → Option ℤ
wanted none own = own
wanted (some w) own = some w

differs_ne : (o : Option ℤ) (w : ℤ) → differs o w ≡ true → o ≢ some w
differs_ne none w h e = cc
differs_ne (some v) w h e =
    let same : v ≡ w = some-injective v w e in
    let clash : true ≡ false = sym h ∙ (ap (λ u. not (eq_int u w)) same ∙ ap not (eq_int_refl w)) in
    cc

-- What an update and its flag mean: the update is the target, and the flag tells whether the
-- target differs from what was there.
abbrev pub Updates : {A : Type 0} → A × Bool → A → A → Type 0
Updates r goal old = (r.0 ≡ goal) × (r.1 ≡ false → goal ≡ old) × (r.1 ≡ true → goal ≢ old)

-- The head's part and the tail's part of an update, and of its flag.
module _ {A : Type 0} (c cs : Bool) (x x' : A) (xs xs' : List A) (same : c ≡ false → x' ≡ x)
    (other : c ≡ true → x' ≢ x) (sames : cs ≡ false → xs' ≡ xs)
    (others : cs ≡ true → xs' ≢ xs) where
  head_eq : x' ∷ xs' ≡ x ∷ xs → x' ≡ x
  head_eq eq = cc

  tail_eq : x' ∷ xs' ≡ x ∷ xs → xs' ≡ xs
  tail_eq eq = cc

  or_same : (c || cs) ≡ false → x' ∷ xs' ≡ x ∷ xs
  or_same h = elim (Bool-cases c) [
    | inl e ↦ let clash : true ≡ false = rw e at h in cc
    | inr e ↦ ap₂ ◌∷◌ (same e) (sames (rw e at h))
  ]

  or_other : (c || cs) ≡ true → x' ∷ xs' ≢ x ∷ xs
  or_other h eq = elim (Bool-cases c) [
    | inl e ↦ other e (head_eq eq)
    | inr e ↦ others (rw e at h) (tail_eq eq)
  ]

module _ {X : Type 0} (desired : Dict ℤ) where
  -- A reference with the weight that is wanted for its name, and nothing else changed.
  abbrev pub target : BackendRef X → BackendRef X
  target ref = record ref { weight = wanted (lookup ref.name desired) ref.weight }

  abbrev pub target_refs : List (BackendRef X) → List (BackendRef X)
  target_refs [] = []
  target_refs (ref ∷ refs) = target ref ∷ target_refs refs

  abbrev pub target_rules : List (Rule X) → List (Rule X)
  target_rules [] = []
  target_rules (rule ∷ rules) =
      record rule { backend_refs = target_refs rule.backend_refs } ∷ target_rules rules

  set_ref-Updates : (ref : BackendRef X) → Updates (set_ref desired ref) (target ref) ref
  unfolding set_ref
  set_ref-Updates ref = elim (Option-cases (lookup ref.name desired)) [
    | inl e ↦ simp (e, set_ref) (refl, λ _. refl, λ h. cc)
    | inr (w, e) ↦ elim (Bool-cases (differs ref.weight w)) [
      | inl d ↦
          simp (e, d, set_ref)
            (
              refl,
              λ h. cc,
              λ _ same. differs_ne ref.weight w d (ap (λ (r : BackendRef X). r.weight) (sym same)),
            )
      | inr d ↦
          let same : record ref { weight = some w } ≡ ref =
            λ i. record ref { weight = sym (not_differs ref.weight w d) i } in
          simp (e, d, set_ref) (sym same, λ _. same, λ h. cc)
    ]
  ]

  set_refs-Updates :
      (refs : List (BackendRef X)) → Updates (set_refs desired refs) (target_refs refs) refs
  unfolding set_refs
  set_refs-Updates [] = (refl, λ _. refl, λ h. cc)
  set_refs-Updates (ref ∷ refs) =
      let (e, same, other) = set_ref-Updates ref in
      let (es, sames, others) = set_refs-Updates refs in
      let c = (set_ref desired ref).1 in
      let cs = (set_refs desired refs).1 in
      (
        ap₂ ◌∷◌ e es,
        or_same c cs ref (target ref) refs (target_refs refs) same other sames others,
        or_other c cs ref (target ref) refs (target_refs refs) same other sames others,
      )

  with_refs : Rule X → List (BackendRef X) → Rule X
  with_refs rule refs = record rule { backend_refs = refs }

  pub set_rules-Updates :
      (rules : List (Rule X)) → Updates (set_rules desired rules) (target_rules rules) rules
  unfolding set_rules with_refs
  set_rules-Updates [] = (refl, λ _. refl, λ h. cc)
  set_rules-Updates (rule ∷ rules) =
      let (e, same, other) = set_refs-Updates rule.backend_refs in
      let (es, sames, others) = set_rules-Updates rules in
      let c = (set_refs desired rule.backend_refs).1 in
      let cs = (set_rules desired rules).1 in
      let goal = with_refs rule (target_refs rule.backend_refs) in
      let kept : c ≡ false → goal ≡ rule = λ h. ap (with_refs rule) (same h) in
      let moved : c ≡ true → goal ≢ rule =
        λ h eq. other h (ap (λ (r : Rule X). r.backend_refs) eq) in
      (
        ap₂ ◌∷◌ (ap (with_refs rule) e) es,
        or_same c cs rule goal rules (target_rules rules) kept moved sames others,
        or_other c cs rule goal rules (target_rules rules) kept moved sames others,
      )

  target_idem : (ref : BackendRef X) → target (target ref) ≡ target ref
  target_idem ref = ground arith

  target_refs_idem :
      (refs : List (BackendRef X)) → target_refs (target_refs refs) ≡ target_refs refs
  target_refs_idem [] = refl
  target_refs_idem (ref ∷ refs) = ap₂ ◌∷◌ (target_idem ref) (target_refs_idem refs)

  pub target_rules_idem :
      (rules : List (Rule X)) → target_rules (target_rules rules) ≡ target_rules rules
  unfolding with_refs
  target_rules_idem [] = refl
  target_rules_idem (rule ∷ rules) =
      ap₂ ◌∷◌ (ap (with_refs rule) (target_refs_idem rule.backend_refs)) (target_rules_idem rules)
