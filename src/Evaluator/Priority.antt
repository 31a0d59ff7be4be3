-- ===== src/Evaluator/Priority.antt =====
-- `Evaluate` serves the worst donors first.
pub mod Examples
use mathlib.Core.Option.{some-injective}
use traficctl.Prelude.{
  ℕ, zero, suc, ◌≡◌, ◌≢◌, refl, sym, ◌∙◌, ap, ◌⊎◌, inl, inr, List, [], ◌∷◌, map, some, none, Bool,
  true, false, String,
}
use traficctl.Prelude.Int.{pos, ◌≤ℤ◌, ◌+ℤ◌, eq_int}
use traficctl.Prelude.Tests.{Bool-cases}
use traficctl.Prelude.Lists.{get_elem?, All, All₂, All-mono, All₂-diag, get_elem?-All₂}
use traficctl.Prelude.Float.{Float}
use traficctl.Prelude.Sort.{stable_sort, All-stable_sort}
use traficctl.Prelude.Order.Sorting.{stable_sort-IsSorted}
use traficctl.Api.Types.{Backend, BackendWeight}
use traficctl.Evaluator.{
  Decision, evaluate, classify, worse, better, through, finish, weights_of, hold_decision,
}
use traficctl.Evaluator.State.{BackendState, Input, build_state, build_states}
use traficctl.Evaluator.Role.{role, unhealthy, healthy}
use traficctl.Evaluator.Classify.{classify-All}
use traficctl.Evaluator.Shift.{budget, can_give}
use traficctl.Evaluator.Shift.Relation.{IsWide, Shifted, Shifted-refl}
use traficctl.Evaluator.Shift.Priority.{Waits, shift_loop-Waits}
use traficctl.Evaluator.Shift.Total.{shift_loop-Shifted}
use traficctl.Evaluator.Numbers.{build_state-Numbers, current_of, build_states-IsWide}
use traficctl.Evaluator.Allocation.{current_of-Aligned, weight_of}
use traficctl.Evaluator.Branches.{donors, recipients, run, evaluate_cases}
use traficctl.Evaluator.Outcome.{classify-PointsTo}
use traficctl.Evaluator.Laws.{IsReady}
use traficctl.Evaluator.Progress.{Spent-of}
use traficctl.Evaluator.Worse.{OrdersNumbers, Scored, donors_weak, donors_irreflexive}

get_elem?-map :
    {A B : Type 0} (f : A → B) (xs : List A) (k : ℕ) (x : A)
    → get_elem? xs k ≡ some x
    → get_elem? (map f xs) k ≡ some (f x)
get_elem?-map f [] k x h = cc
get_elem?-map f (y ∷ ys) zero x h = ap (λ z. some (f z)) (some-injective y x h)
get_elem?-map f (y ∷ ys) (suc k) x h = get_elem?-map f ys k x h

mapped_from :
    {A B : Type 0} (f : A → B) (xs : List A) (k : ℕ) (y : B)
    → get_elem? (map f xs) k ≡ some y
    → (x : A) × (get_elem? xs k ≡ some x) × (f x ≡ y)
mapped_from f [] k y h = cc
mapped_from f (x ∷ xs) zero y h = (x, refl, some-injective _ _ h)
mapped_from f (x ∷ xs) (suc k) y h = mapped_from f xs k y h

module _ {F : Type 0} ⦃fl : Float F⦄ (inp : Input F) where
  -- An unhealthy backend with its weight, at a place of the input.
  pub record Donor (k : ℕ) : Type 0 where
    pub backend : Backend
    pub weight : BackendWeight
    pub declared : get_elem? inp.backends k ≡ some backend
    pub held : get_elem? inp.current k ≡ some weight
    pub unhealthy_now : role (build_state inp backend) ≡ unhealthy

  start_at :
      (bs : List Backend) (ws : List BackendWeight) (k : ℕ) (b : Backend) (w : BackendWeight)
      → All₂ (λ (b : Backend) (w : BackendWeight). w.name ≡ b.name) bs ws
      → All (λ w. current_of inp w.name ≡ w.weight) ws
      → get_elem? bs k ≡ some b
      → get_elem? ws k ≡ some w
      → (build_state inp b).current ≡ w.weight
  start_at [] ws k b w names cur eb ew = cc
  start_at (b' ∷ bs) [] k b w names cur eb ew = cc
  start_at (b' ∷ bs) (w' ∷ ws) zero b w (e, names) (c, cur) eb ew =
      let same_b = some-injective b' b eb in
      let same_w = some-injective w' w ew in
      (build_state-Numbers inp b).current
      ∙ (ap (λ (x : Backend). current_of inp x.name) (sym same_b)
          ∙ (ap (current_of inp) (sym e) ∙ (c ∙ ap (λ (x : BackendWeight). x.weight) same_w)))
  start_at (b' ∷ bs) (w' ∷ ws) (suc k) b w (e, names) (c, cur) eb ew =
      start_at bs ws k b w names cur eb ew

  state_at :
      (k : ℕ) → (x : Donor k) → get_elem? (build_states inp) k ≡ some (build_state inp x.backend)
  unfolding build_states
  state_at k x = get_elem?-map (build_state inp) inp.backends k x.backend x.declared

  -- The second donor keeps its weight, or the first is at its minimum or has given the whole step.
  abbrev pub Yields : {i j : ℕ} → Donor i → Donor j → BackendWeight → BackendWeight → Type 0
  Yields x y v v' =
      (v'.weight ≡ y.weight.weight)
      ⊎ (v.weight ≤ℤ x.backend.min_weight)
      ⊎ (x.weight.weight ≡ v.weight +ℤ inp.max_step_percent)

  abbrev pub WorstFirst : {i j : ℕ} → Donor i → Donor j → Decision → Type 0
  WorstFirst {i = i} {j = j} x y d =
      (v v' : BackendWeight)
      → get_elem? d.weights i ≡ some v
      → get_elem? d.weights j ≡ some v'
      → Yields x y v v'

  kept-WorstFirst :
      {i j : ℕ} (x : Donor i) (y : Donor j) (reason : String)
      → WorstFirst x y (hold_decision inp.current reason)
  unfolding hold_decision
  kept-WorstFirst x y reason v v' at_i at_j =
      inl (ap (λ (w : BackendWeight). w.weight) (some-injective v' y.weight (sym at_j ∙ y.held)))

  module _ (ready : IsReady inp) (N : F → Type 0) (law : OrdersNumbers N)
      (numbers : (k : ℕ) (s : BackendState F) → get_elem? (build_states inp) k ≡ some s → N s.score)
      (i j : ℕ) (x : Donor i) (y : Donor j)
      (before : worse (build_state inp x.backend) (build_state inp y.backend) ≡ true) where
    run_waits :
        (get_elem? (run inp).0 j ≡ get_elem? (build_states inp) j)
        ⊎ ((s : BackendState F) → get_elem? (run inp).0 i ≡ some s → can_give s ≡ false)
    unfolding through
    run_waits =
        let states = build_states inp in
        let less = through worse states in
        shift_loop-Waits less (donors_irreflexive N law states numbers) states (donors inp)
          (recipients inp) (classify-PointsTo unhealthy less states λ h. cc)
          (classify-PointsTo healthy (through better states) states λ h. cc)
          (stable_sort-IsSorted (Scored N law states) less (donors_weak N law states)
            (classify states).unhealthy
            ((classify-All _ unhealthy (λ h. cc) states).1
              λ k s there e. (s, there, numbers k s there)))
          i j
          (λ Q all.
            (classify-All Q unhealthy (λ h. cc) states).0
              ((All-stable_sort less Q (classify states).unhealthy).0 all) i _ (state_at i x)
              x.unhealthy_now)
          (λ k which. elim which [
            | inl e ↦ rw e (build_state inp x.backend, state_at i x, x.unhealthy_now)
            | inr e ↦ rw e (build_state inp y.backend, state_at j y, y.unhealthy_now)
          ])
          (rw (state_at i x, state_at j y, through) before) (suc (budget states)) (pos 0)

    run-Shifted : All₂ Shifted (build_states inp) (run inp).0
    run-Shifted =
        let states = build_states inp in
        (shift_loop-Shifted states (donors inp) (recipients inp)
          (classify-PointsTo unhealthy (through worse states) states λ h. cc)
          (classify-PointsTo healthy (through better states) states λ h. cc) (suc (budget states))
          (pos 0)
          (All₂-diag IsWide Shifted Shifted-refl states
            (build_states-IsWide inp ready.fits ready.step))).0

    -- A donor's state after the loop.
    Shifted-at :
        (k : ℕ)
        → (z : Donor k) → (s : BackendState F) → get_elem? (run inp).0 k ≡ some s
        → Shifted (build_state inp z.backend) s
    Shifted-at k z s there =
        elim (get_elem?-All₂ Shifted (build_states inp) (run inp).0 k run-Shifted) [
          | inl (e, e') ↦ let clash : none ≡ some s = sym e' ∙ there in cc
          | inr (a, b, e, e', sh) ↦
              let same_a = some-injective a (build_state inp z.backend) (sym e ∙ state_at k z) in
              let same_b = some-injective b s (sym e' ∙ there) in rw (same_a, same_b) at sh
        ]

    started : (k : ℕ) → (z : Donor k) → (build_state inp z.backend).current ≡ z.weight.weight
    started k z =
        start_at inp.backends inp.current k z.backend z.weight ready.aligned.names
          (current_of-Aligned inp ready.aligned) z.declared z.held

    moved-Yields :
        (v v' : BackendWeight)
        → get_elem? (weights_of (run inp).0) i ≡ some v
        → get_elem? (weights_of (run inp).0) j ≡ some v'
        → Yields x y v v'
    unfolding weights_of
    moved-Yields v v' at_i at_j =
        let (s, there, same) = mapped_from weight_of (run inp).0 i v at_i in
        let (s', there', same') = mapped_from weight_of (run inp).0 j v' at_j in
        elim run_waits [
          | inl kept ↦
              let unmoved : s' ≡ build_state inp y.backend =
                some-injective s' (build_state inp y.backend)
                  (sym there' ∙ (kept ∙ state_at j y)) in
              inl (
                ap (λ (w : BackendWeight). w.weight) (sym same')
                ∙ (ap (λ (t : BackendState F). t.current) unmoved ∙ started j y))
          | inr fails ↦
              let n = build_state-Numbers inp x.backend in
              inr (
                rw⁻¹ same (
                  Spent-of inp x.backend x.weight (build_state inp x.backend) s n (started i x)
                    (Shifted-at i x s there) (λ _. fails s there) x.unhealthy_now))
        ]

    -- Given the facts of IEEE 754 comparisons among numbers that are not NaN: for an aligned input whose
    -- numbers fit, with a step size that is not negative and scores that are not NaN, of two unhealthy
    -- backends of which one is worse (it has the higher score, or the same and the lesser name) the other
    -- keeps its weight in every decision, unless the worse one is at its minimum or below or has given the
    -- whole step.
    pub evaluate-WorstFirst : WorstFirst x y (evaluate inp)
    unfolding finish
    evaluate-WorstFirst =
        evaluate_cases inp (WorstFirst x y) (λ _ reason. kept-WorstFirst x y reason)
          (λ _. elim (Bool-cases (eq_int (run inp).1 (pos 0))) [
            | inl e ↦ rw e (kept-WorstFirst x y "no headroom to shift within declared bounds")
            | inr e ↦ rw e moved-Yields
          ])
