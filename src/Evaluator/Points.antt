-- ===== src/Evaluator/Points.antt =====
-- The points that `Evaluate` moves between the unhealthy and the healthy backends of an allocation.
use traficctl.Prelude.{
  ℕ, ◌≡◌, ◌<◌, refl, inl, inr, List, [], ◌∷◌, map, true, false, sym, ◌∙◌, ap, ap₂,
}
use Prim.Native.String.{◌++◌ as append}
use traficctl.Prelude.Format.{decimal, join}
use traficctl.Prelude.Int.{ℤ, pos, ◌+ℤ◌}
use traficctl.Prelude.Lists.{All, All₂}
use traficctl.Prelude.Float.{Float}
use traficctl.Api.Types.{Backend, BackendWeight}
use traficctl.Evaluator.{evaluate, weights_of, build_reason, donor_texts, names_of}
use traficctl.Evaluator.State.{BackendState, Input, build_state, build_states}
use traficctl.Evaluator.Role.{Role, role, unhealthy, healthy}
use traficctl.Evaluator.Shift.Relation.{Shifted}
use traficctl.Evaluator.Shift.Shares.{share_by, role_sum}
use traficctl.Evaluator.Numbers.{build_state-Numbers, current_of}
use traficctl.Evaluator.Allocation.{current_of-Aligned}
use traficctl.Evaluator.Branches.{donors, recipients}
use traficctl.Evaluator.Laws.{IsReady}
use traficctl.Evaluator.Account.{IsSmall, Went, evaluate-Verdict}

module _ {F : Type 0} ⦃fl : Float F⦄ where
  -- The weight that an allocation gives to the backends of a role.
  abbrev pub held_by : Input F → Role → List Backend → List BackendWeight → ℤ
  held_by inp r (b ∷ bs) (w ∷ ws) =
      share_by r (role (build_state inp b)) w.weight +ℤ held_by inp r bs ws
  held_by inp r _ _ = pos 0

  role_sum-build :
      (inp : Input F) (r : Role) (bs : List Backend) (ws : List BackendWeight)
      → All₂ (λ (b : Backend) (w : BackendWeight). w.name ≡ b.name) bs ws
      → All (λ w. current_of inp w.name ≡ w.weight) ws
      → role_sum r (map (build_state inp) bs) ≡ held_by inp r bs ws
  role_sum-build inp r [] [] names cur = refl
  role_sum-build inp r (b ∷ bs) (w ∷ ws) (e, names) (c, cur) =
      let start = (build_state-Numbers inp b).current ∙ (ap (current_of inp) (sym e) ∙ c) in
      ap₂ ◌+ℤ◌ (ap (share_by r (role (build_state inp b))) start)
        (role_sum-build inp r bs ws names cur)
  role_sum-build inp r [] (w ∷ ws) names cur = elim names [ ]
  role_sum-build inp r (b ∷ bs) [] names cur = elim names [ ]

  role_sum-weights_of :
      (inp : Input F) (r : Role) (bs : List Backend) (out : List (BackendState F))
      → All₂ Shifted (map (build_state inp) bs) out
      → role_sum r out ≡ held_by inp r bs (weights_of out)
  unfolding weights_of
  role_sum-weights_of inp r [] [] all = refl
  role_sum-weights_of inp r (b ∷ bs) (s ∷ out) (sh, all) =
      rw (sh.fixed.have_sample, sh.fixed.breaches)
        (ap (◌+ℤ◌ (share_by r (role (build_state inp b)) s.current))
          (role_sum-weights_of inp r bs out all))
  role_sum-weights_of inp r [] (s ∷ out) all = elim all [ ]
  role_sum-weights_of inp r (b ∷ bs) [] all = elim all [ ]

  -- Points that left the unhealthy backends and reached the healthy ones, as the reason tells.
  pub record Report (inp : Input F) : Type 0 where
    pub points : ℕ
    pub positive : 0 < points
    pub left :
        held_by inp unhealthy inp.backends (evaluate inp).weights +ℤ pos points
        ≡ held_by inp unhealthy inp.backends inp.current
    pub reached :
        held_by inp healthy inp.backends (evaluate inp).weights
        ≡ held_by inp healthy inp.backends inp.current +ℤ pos points
    pub reason :
        (evaluate inp).reason
        ≡ append "Shifted " (
            append (decimal (pos points)) (
              append " pp: " (
                append
                  (join "," (donor_texts (build_states inp) (donors inp)))
                  (append " -> " (join "," (names_of (build_states inp) (recipients inp)))))))

  pub Went-Report : (inp : Input F) → IsReady inp → Went inp (evaluate inp) → Report inp
  unfolding build_states build_reason
  Went-Report inp ready went =
      let cur = current_of-Aligned inp ready.aligned in
      let before =
        λ (r : Role). role_sum-build inp r inp.backends inp.current ready.aligned.names cur in
      let after =
        λ (r : Role). role_sum-weights_of inp r inp.backends went.out went.moves.shifted in
      record {
        points = went.points;
        positive = went.positive;
        left = rw (went.weights, ← after unhealthy, ← before unhealthy) went.moves.from;
        reached = rw (went.weights, ← after healthy, ← before healthy) went.moves.to;
        reason = went.reason;
      }

  -- For an aligned input whose numbers fit, with a step size that is not negative and fewer than 2^31
  -- points to move: a decision that changes the weights takes a positive number of points from the unhealthy
  -- backends and gives the same number to the healthy ones, and it is that number that the reason says,
  -- before the names of the donors and of the recipients in the order in which they are asked.
  pub evaluate-Report :
      (inp : Input F) → IsReady inp → IsSmall inp → (evaluate inp).changed ≡ true → Report inp
  evaluate-Report inp ready small moved = elim (evaluate-Verdict inp ready small) [
    | inl still ↦ let clash : true ≡ false = sym moved ∙ still.changed in cc
    | inr went ↦ Went-Report inp ready went
  ]
