-- ===== src/Evaluator/Allocation.antt =====
-- What a decision of `Evaluate` does to an allocation.
use traficctl.Prelude.{◌≡◌, refl, List, [], ◌∷◌, map, some, arith, sym, ◌∙◌, ap}
use traficctl.Prelude.Int.{ℤ, pos, ◌≤ℤ◌, ◌+ℤ◌, +ℤ_parts, pos_part, neg_part}
use traficctl.Prelude.Lists.{All, All-mono, All₂, All₃, Distinct}
use traficctl.Prelude.Dict.{lookup}
use traficctl.Prelude.Float.{Float}
use traficctl.Api.Types.{Backend, BackendWeight}
use traficctl.Api.WeightMap.{weight_map, or_zero, weight_map-Distinct}
use traficctl.Evaluator.{weights_of}
use traficctl.Evaluator.State.{BackendState, Input, build_state}
use traficctl.Evaluator.Role.{Role, role, missing, unhealthy, healthy}
use traficctl.Evaluator.Shift.Relation.{Shifted}
use traficctl.Evaluator.Numbers.{Numbers, build_state-Numbers, current_of}

module _ {F : Type 0} where
  -- The current weights are those of the declared backends, in their order, as the controller
  -- writes them.
  pub record Aligned (inp : Input F) : Type 0 where
    pub names : All₂ (λ (b : Backend) (w : BackendWeight). w.name ≡ b.name) inp.backends inp.current
    pub distinct : Distinct (λ w. w.name) inp.current

-- One backend's weight before and after a decision with steps of at most `step`, where the backend
-- has the role `r`.
pub record Step (step : ℤ) (r : Role) (b : Backend) (w w' : BackendWeight) : Type 0 where
  pub name : w'.name ≡ b.name
  pub above_min : b.min_weight ≤ℤ w.weight → b.min_weight ≤ℤ w'.weight
  pub below_max : w.weight ≤ℤ b.max_weight → w'.weight ≤ℤ b.max_weight
  pub falls : w.weight ≤ℤ w'.weight +ℤ step
  pub rises : w'.weight ≤ℤ w.weight +ℤ step
  pub donor : r ≡ unhealthy → w'.weight ≤ℤ w.weight
  pub recipient : r ≡ healthy → w.weight ≤ℤ w'.weight
  pub untouched : r ≡ missing → w'.weight ≡ w.weight

Step-refl :
    (step : ℤ) (r : Role) (b : Backend) (w : BackendWeight)
    → pos 0 ≤ℤ step
    → w.name ≡ b.name
    → Step step r b w w
Step-refl step r b w h e = record {
  name = e;
  above_min = λ k. k;
  below_max = λ k. k;
  falls = omega (arith, +ℤ_parts);
  rises = omega (arith, +ℤ_parts);
  donor = λ _. omega arith;
  recipient = λ _. omega arith;
  untouched = λ _. refl;
}

abbrev pub weight_of : {F : Type 0} → BackendState F → BackendWeight
weight_of s = record { name = s.name; weight = s.current }

module _ {F : Type 0} ⦃fl : Float F⦄ where
  Shifted-Step :
      (inp : Input F) (b : Backend) (w : BackendWeight) (s₀ s : BackendState F)
      → Numbers inp b s₀
      → s₀.current ≡ w.weight
      → Shifted s₀ s
      → Step inp.max_step_percent (role s₀) b w (weight_of s)
  Shifted-Step inp b w s₀ s n start sh =
      let cp = ap pos_part start in
      let cn = ap neg_part start in
      let bp = ap pos_part n.step_budget in
      let bn = ap neg_part n.step_budget in
      let left = sh.wide.budget_nonneg in
      record {
        name = sh.fixed.name ∙ n.name;
        above_min = rw (n.min, start) at sh.within.above_min;
        below_max = rw (n.max, start) at sh.within.below_max;
        falls = omega (arith, +ℤ_parts, cp, cn, bp, bn, left, sh.within.falls);
        rises = omega (arith, +ℤ_parts, cp, cn, bp, bn, left, sh.within.rises);
        donor = λ r. omega (arith, cp, cn, (sh.directed.donor r).0);
        recipient = λ r. omega (arith, cp, cn, (sh.directed.recipient r).0);
        untouched = λ r. sh.directed.untouched r ∙ start;
      }

  -- What a decision does to every backend.
  abbrev pub Steps : Input F → List Backend → List BackendWeight → List BackendWeight → Type 0
  Steps inp = All₃ λ b. Step inp.max_step_percent (role (build_state inp b)) b

  pub Steps-held :
      (inp : Input F) (bs : List Backend) (ws : List BackendWeight)
      → pos 0 ≤ℤ inp.max_step_percent
      → All₂ (λ (b : Backend) (w : BackendWeight). w.name ≡ b.name) bs ws
      → Steps inp bs ws ws
  Steps-held inp [] [] h names = tt
  Steps-held inp (b ∷ bs) (w ∷ ws) h (e, names) = (
    Step-refl inp.max_step_percent (role (build_state inp b)) b w h e,
    Steps-held inp bs ws h names,
  )
  Steps-held inp [] (w ∷ ws) h names = elim names [ ]
  Steps-held inp (b ∷ bs) [] h names = elim names [ ]

  pub Steps-moved :
      (inp : Input F) (bs : List Backend) (ws : List BackendWeight) (out : List (BackendState F))
      → All₂ (λ (b : Backend) (w : BackendWeight). w.name ≡ b.name) bs ws
      → All (λ w. current_of inp w.name ≡ w.weight) ws
      → All₂ Shifted (map (build_state inp) bs) out
      → Steps inp bs ws (weights_of out)
  unfolding weights_of
  Steps-moved inp [] [] [] names cur sh = tt
  Steps-moved inp (b ∷ bs) (w ∷ ws) (s ∷ out) (e, names) (c, cur) (h, sh) =
      let n = build_state-Numbers inp b in
      (
        Shifted-Step inp b w (build_state inp b) s n (n.current ∙ (ap (current_of inp) (sym e) ∙ c))
            h,
        Steps-moved inp bs ws out names cur sh,
      )
  Steps-moved inp [] [] (s ∷ out) names cur sh = elim sh [ ]
  Steps-moved inp (b ∷ bs) (w ∷ ws) [] names cur sh = elim sh [ ]
  Steps-moved inp [] (w ∷ ws) out names cur sh = elim names [ ]
  Steps-moved inp (b ∷ bs) [] out names cur sh = elim names [ ]

  pub current_of-Aligned :
      (inp : Input F) → Aligned inp → All (λ w. current_of inp w.name ≡ w.weight) inp.current
  current_of-Aligned inp a =
      All-mono (λ w. lookup w.name (weight_map [] inp.current) ≡ some w.weight)
        (λ w. current_of inp w.name ≡ w.weight) (λ w e. ap or_zero e) inp.current
        (weight_map-Distinct [] inp.current a.distinct)
