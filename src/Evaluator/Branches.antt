-- ===== src/Evaluator/Branches.antt =====
-- The branches of `Evaluate`: an early hold, for each of which it lacks a step, a donor or a recipient,
-- and the loop.
use mathlib.Core.Option.{some-injective}
use traficctl.Prelude.{
  ℕ, zero, suc, ◌+◌, ◌≡◌, ◌≢◌, ◌⊎◌, inl, inr, List, [], ◌∷◌, map, some, arith, ap, String,
}
use traficctl.Prelude.Tests.{Bool-cases, List-cases, eqb}
use traficctl.Prelude.Int.{ℤ, pos, le_int, ◌≤ℤ◌, ◌<ℤ◌}
use traficctl.Prelude.Lists.{length, get_elem?, length-append}
use traficctl.Prelude.Float.{Float}
use traficctl.Prelude.Sort.{stable_sort}
use traficctl.Api.Types.{Backend}
use traficctl.Evaluator.{
  Decision, Classes, place, classify_from, classify, worse, better, through, finish, move, decide,
  evaluate, hold_decision,
}
use traficctl.Evaluator.Classify.{members, classify-All}
use traficctl.Evaluator.State.{BackendState, Input, build_state, build_states}
use traficctl.Evaluator.Role.{Role, role, missing, unhealthy, healthy}
use traficctl.Evaluator.Shift.{shift_loop, budget}
use traficctl.Evaluator.Health.{build_state-role}

abbrev census : Classes → ℕ
census c = c.missing + length c.unhealthy + length c.healthy

module _ {F : Type 0} where
  -- No state has the role.
  abbrev pub Lacks : Role → List (BackendState F) → Type 0
  Lacks r states = (k : ℕ) (s : BackendState F) → get_elem? states k ≡ some s → role s ≢ r

  census-place : (i : ℕ) (s : BackendState F) (c : Classes) → census (place i s c) ≡ suc (census c)
  unfolding place
  census-place i s c =
      ground (arith, length-append c.healthy (i ∷ []), length-append c.unhealthy (i ∷ []))

  census-classify_from :
      (i : ℕ) (ss : List (BackendState F)) (c : Classes)
      → census (classify_from i ss c) ≡ census c + length ss
  unfolding classify_from
  census-classify_from i [] c = omega arith
  census-classify_from i (s ∷ ss) c =
      omega (arith, census-classify_from (suc i) ss (place i s c), census-place i s c)

  -- Every state is in one of the classes.
  census-classify :
      (ss : List (BackendState F))
      → (classify ss).missing + length (classify ss).unhealthy + length (classify ss).healthy
        ≡ length ss
  unfolding classify
  census-classify ss =
      omega
        (arith, census-classify_from 0 ss (record { missing = 0; unhealthy = []; healthy = [] }))

  empty-Lacks :
      (r : Role) (ss : List (BackendState F))
      → r ≢ missing
      → members r (classify ss) ≡ []
      → Lacks r ss
  empty-Lacks r ss solid e = (classify-All (λ _. ⊥) r solid ss).0 (rw e tt)

  all_missing :
      (ss : List (BackendState F))
      → (classify ss).missing ≡ length ss
      → (classify ss).unhealthy ≡ []
  all_missing ss e = elim (List-cases (classify ss).unhealthy) [
    | inl none ↦ none
    | inr (u, us, some_u) ↦
        let count = census-classify ss in
        let one : length (classify ss).unhealthy ≡ suc (length us) = ap length some_u in
        absurd (omega arith)
  ]

module _ {F : Type 0} ⦃fl : Float F⦄ where
  abbrev pub donors : Input F → List ℕ
  donors inp =
      let states = build_states inp in
      stable_sort (through worse states) (classify states).unhealthy

  abbrev pub recipients : Input F → List ℕ
  recipients inp =
      let states = build_states inp in stable_sort (through better states) (classify states).healthy

  abbrev pub run : Input F → List (BackendState F) × ℤ
  run inp =
      let states = build_states inp in
      shift_loop (donors inp) (recipients inp) (suc (budget states)) states (pos 0)

  built_from :
      (inp : Input F) (bs : List Backend) (k : ℕ) (s : BackendState F)
      → get_elem? (map (build_state inp) bs) k ≡ some s
      → (b : Backend) × (build_state inp b ≡ s)
  built_from inp [] k s e = cc
  built_from inp (b ∷ bs) zero s e = (b, some-injective _ _ e)
  built_from inp (b ∷ bs) (suc k) s e = built_from inp bs k s e

  no_signals-Lacks : (inp : Input F) → inp.signals ≡ [] → Lacks unhealthy (build_states inp)
  unfolding build_states
  no_signals-Lacks inp e k s there r =
      let (b, same) = built_from inp inp.backends k s there in
      let breached = ((build_state-role inp b).0).0 (rw (← same) at r) in rw e at breached

  -- Why `Evaluate` holds before its loop.
  abbrev pub Idle : Input F → Type 0
  Idle inp =
      (inp.max_step_percent ≤ℤ pos 0)
      ⊎ Lacks unhealthy (build_states inp)
      ⊎ Lacks healthy (build_states inp)

  -- What holds of an early hold, and of what follows the loop, holds of every decision.
  pub evaluate_cases {κ} :
      (inp : Input F) (P : Decision → Type κ)
      → (Idle inp → (reason : String) → P (hold_decision inp.current reason))
      → (pos 0 <ℤ inp.max_step_percent → P (finish inp (donors inp) (recipients inp) (run inp)))
      → P (evaluate inp)
  unfolding evaluate move
  evaluate_cases inp P held ran = elim (Bool-cases (le_int inp.max_step_percent (pos 0))) [
    | inl e ↦ rw (e, evaluate) (held (inl (ground arith)) _)
    | inr e ↦ elim (List-cases inp.signals) [
      | inl none_configured ↦
          simp (e, none_configured, evaluate)
            (held (inr (inl (no_signals-Lacks inp none_configured))) _)
      | inr (sig, sigs, configured) ↦ simp (e, configured, evaluate) (decided (ran (ground arith)))
    ]
  ]
    where
      decided :
          P (finish inp (donors inp) (recipients inp) (run inp))
          → P (decide inp (build_states inp) (classify (build_states inp)))
      decided moved =
          let states = build_states inp in
          let c = classify states in
          elim (Bool-cases (eqb c.missing (length states))) [
            | inl e ↦
                let none_unhealthy = all_missing states (ground (arith, e)) in
                rw (e, decide)
                  (held (inr (inl (empty-Lacks unhealthy states (λ h. cc) none_unhealthy))) _)
            | inr e ↦ elim (List-cases c.unhealthy) [
              | inl e₁ ↦
                  rw (e, e₁, decide)
                    (held (inr (inl (empty-Lacks unhealthy states (λ h. cc) e₁))) _)
              | inr (u, us, e₁) ↦ elim (List-cases c.healthy) [
                | inl e₂ ↦
                    rw (e, e₁, e₂, decide)
                      (held (inr (inr (empty-Lacks healthy states (λ h. cc) e₂))) _)
                | inr (h, hs, e₂) ↦ rw (e, e₁, e₂, decide) moved
              ]
            ]
          ]
