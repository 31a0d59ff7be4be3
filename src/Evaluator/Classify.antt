-- ===== src/Evaluator/Classify.antt =====
-- The first loop of `Evaluate`: the pointers of each class are just those to the states of its role.
use mathlib.Core.Option.{some-injective}
use mathlib.Core.Path.{subst}
use traficctl.Prelude.{
  ℕ, zero, suc, ◌+◌, ◌≡◌, ◌↔◌, refl, List, [], ◌∷◌, ◌++◌, some, arith, ◌∙◌, ap, ◌≢◌,
}
use traficctl.Prelude.Lists.{get_elem?, All, All-append, All-append_inv}
use traficctl.Evaluator.{Classes, place, classify_from, classify}
use traficctl.Evaluator.State.{BackendState}
use traficctl.Evaluator.Role.{Role, role, Role-discrete, missing, unhealthy, healthy}

-- The pointers that the two slices hold.
abbrev pub members : Role → Classes → List ℕ
members missing c = []
members unhealthy c = c.unhealthy
members healthy c = c.healthy

module _ {F : Type 0} where
  place_same :
      (i : ℕ) (s : BackendState F) (c : Classes) (r : Role)
      → r ≢ missing
      → role s ≡ r
      → members r (place i s c) ≡ members r c ++ (i ∷ [])
  unfolding place
  place_same i s c missing n h = absurd (n refl)
  place_same i s c unhealthy n h = ground arith
  place_same i s c healthy n h = ground arith

  place_other :
      (i : ℕ) (s : BackendState F) (c : Classes) (r : Role)
      → role s ≢ r
      → members r (place i s c) ≡ members r c
  unfolding place
  place_other i s c missing h = refl
  place_other i s c unhealthy h = ground arith
  place_other i s c healthy h = ground arith

  -- Every state of the role that the rest of the loop meets is in `Q`.
  abbrev Covers {κ} : (ℕ → Type κ) → Role → ℕ → List (BackendState F) → Type κ
  Covers Q r i ss = (k : ℕ) (s : BackendState F) → get_elem? ss k ≡ some s → role s ≡ r → Q (i + k)

  module _ {κ} (Q : ℕ → Type κ) (r : Role) (solid : r ≢ missing) where
    Covers-cons :
        (i : ℕ) (s : BackendState F) (ss : List (BackendState F))
        → Covers Q r i (s ∷ ss) ↔ ((role s ≡ r → Q i) × Covers Q r (suc i) ss)
    Covers-cons i s ss = (
      λ h. (
        λ e. subst Q (omega arith) (h 0 s refl e),
        λ k t there e. subst Q (omega arith) (h (suc k) t there e),
      ),
      λ (here, rest) k. cover here rest k,
    )
      where
        cover :
            (role s ≡ r → Q i)
            → Covers Q r (suc i) ss
            → (k : ℕ) (t : BackendState F) → get_elem? (s ∷ ss) k ≡ some t
            → role t ≡ r
            → Q (i + k)
        cover here rest zero t there e =
            subst Q (omega arith) (here (ap role (some-injective s t there) ∙ e))
        cover here rest (suc k) t there e = subst Q (omega arith) (rest k t there e)

    place-All :
        (i : ℕ) (s : BackendState F) (c : Classes)
        → All Q (members r (place i s c)) ↔ (All Q (members r c) × (role s ≡ r → Q i))
    place-All i s c = elim (Role-discrete (role s) r) [
      | yes same ↦ rw (place_same i s c r solid same) (
        λ h. let (l, x) = All-append_inv Q _ _ h in (l, λ _. x.0),
        λ (l, q). All-append Q _ _ l (q same, tt),
      )
      | no other ↦ rw (place_other i s c r other) (λ h. (h, λ e. absurd (other e)), λ (h, _). h)
    ]

    classify_from-All :
        (i : ℕ) (ss : List (BackendState F)) (c : Classes)
        → All Q (members r (classify_from i ss c)) ↔ (All Q (members r c) × Covers Q r i ss)
    unfolding classify_from
    classify_from-All i [] c = (λ h. (h, λ k s e. cc), λ h. h.0)
    classify_from-All i (s ∷ ss) c =
        let ih = classify_from-All (suc i) ss (place i s c) in
        let here = place-All i s c in
        let cons = Covers-cons i s ss in
        (
          λ h. let (p, rest) = ih.0 h in let (l, q) = here.0 p in (l, cons.1 (q, rest)),
          λ (l, all). let (q, rest) = cons.0 all in ih.1 (here.1 (l, q), rest),
        )

    -- The slice of the unhealthy or of the healthy holds the pointers to the states of that role, and
    -- no others: a property holds of its members exactly if it holds of the places of that role.
    pub classify-All :
        (ss : List (BackendState F))
        → All Q (members r (classify ss))
          ↔ ((k : ℕ) (s : BackendState F) → get_elem? ss k ≡ some s → role s ≡ r → Q k)
    unfolding classify
    classify-All ss =
        let h = classify_from-All 0 ss (record { missing = 0; unhealthy = []; healthy = [] }) in
        (
          λ a k s e e'. subst Q (omega arith) ((h.0 a).1 k s e e'),
          λ all. h.1 (start, λ k s e e'. subst Q (omega arith) (all k s e e')),
        )
      where
        start : All Q (members r (record { missing = 0; unhealthy = []; healthy = [] }))
        start =
            elim r
              as (λ r. All Q (members r (record { missing = 0; unhealthy = []; healthy = [] }))) [
                | missing ↦ tt
                | unhealthy ↦ tt
                | healthy ↦ tt
              ]
