-- ===== src/Evaluator/Numbers.antt =====
-- What `buildStates` makes of a backend: its bounds, its current weight and the step, whatever the
-- signals say.
use traficctl.Prelude.{◌≡◌, List, [], ◌∷◌, map, arith, ◌∙◌, String}
use traficctl.Prelude.Int.{ℤ, pos, IsInt32, ◌≤ℤ◌}
use traficctl.Prelude.Lists.{All}
use traficctl.Prelude.Dict.{lookup}
use traficctl.Prelude.Float.{Float}
use traficctl.Api.Types.{Backend}
use traficctl.Api.WeightMap.{weight_map, or_zero, FitsAll, weight_map-FitsAll}
use traficctl.Evaluator.State.{
  BackendState, Signal, Input, apply_signal, apply_signals, initial_state, build_state,
  build_states,
}
use traficctl.Evaluator.Shift.Relation.{IsWide}

module _ {F : Type 0} where
  -- The numbers of an input are in the range of their Go type.
  pub record InputFits (inp : Input F) : Type 0 where
    pub backends : All (λ b. IsInt32 b.min_weight × IsInt32 b.max_weight) inp.backends
    pub current : All (λ w. IsInt32 w.weight) inp.current
    pub step : IsInt32 inp.max_step_percent

  -- What a signal leaves alone.
  pub record SameNumbers (s s' : BackendState F) : Type 0 where
    pub name : s'.name ≡ s.name
    pub current : s'.current ≡ s.current
    pub min : s'.min ≡ s.min
    pub max : s'.max ≡ s.max
    pub step_budget : s'.step_budget ≡ s.step_budget

  SameNumbers-trans : (a b c : BackendState F) → SameNumbers a b → SameNumbers b c → SameNumbers a c
  SameNumbers-trans a b c p q = record {
    name = q.name ∙ p.name;
    current = q.current ∙ p.current;
    min = q.min ∙ p.min;
    max = q.max ∙ p.max;
    step_budget = q.step_budget ∙ p.step_budget;
  }

module _ {F : Type 0} ⦃fl : Float F⦄ where
  apply_signal-SameNumbers :
      (s : BackendState F) (sig : Signal F) → SameNumbers s (apply_signal s sig)
  unfolding apply_signal
  apply_signal-SameNumbers s sig = ground arith

  apply_signals-SameNumbers :
      (s : BackendState F) (sigs : List (Signal F)) → SameNumbers s (apply_signals s sigs)
  unfolding apply_signals
  apply_signals-SameNumbers s [] = ground arith
  apply_signals-SameNumbers s (sig ∷ sigs) =
      SameNumbers-trans s (apply_signal s sig) (apply_signals (apply_signal s sig) sigs)
        (apply_signal-SameNumbers s sig) (apply_signals-SameNumbers (apply_signal s sig) sigs)

  -- The weight that the map `current` gives a backend.
  abbrev pub current_of : Input F → String → ℤ
  current_of inp name = or_zero (lookup name (weight_map [] inp.current))

  pub record Numbers (inp : Input F) (b : Backend) (s : BackendState F) : Type 0 where
    pub name : s.name ≡ b.name
    pub current : s.current ≡ current_of inp b.name
    pub min : s.min ≡ b.min_weight
    pub max : s.max ≡ b.max_weight
    pub step_budget : s.step_budget ≡ inp.max_step_percent

  pub build_state-Numbers : (inp : Input F) (b : Backend) → Numbers inp b (build_state inp b)
  unfolding build_state initial_state
  build_state-Numbers inp b =
      let start = initial_state inp.max_step_percent (weight_map [] inp.current) b in
      let same = apply_signals-SameNumbers start inp.signals in
      record {
        name = same.name;
        current = same.current;
        min = same.min;
        max = same.max;
        step_budget = same.step_budget;
      }

  pub build_state-IsWide :
      (inp : Input F) (b : Backend)
      → InputFits inp
      → IsInt32 b.min_weight × IsInt32 b.max_weight
      → pos 0 ≤ℤ inp.max_step_percent
      → IsWide (build_state inp b)
  build_state-IsWide inp b fits range step =
      let n = build_state-Numbers inp b in
      let none_yet : FitsAll [] = unfold lookup in λ k. (omega arith) in
      record {
        current = rw n.current (weight_map-FitsAll [] inp.current fits.current none_yet b.name);
        min = rw n.min range.0;
        max = rw n.max range.1;
        budget = rw n.step_budget fits.step;
        budget_nonneg = rw n.step_budget step;
      }

  map-build_state-IsWide :
      (inp : Input F) (bs : List Backend)
      → InputFits inp
      → All (λ b. IsInt32 b.min_weight × IsInt32 b.max_weight) bs
      → pos 0 ≤ℤ inp.max_step_percent
      → All IsWide (map (build_state inp) bs)
  map-build_state-IsWide inp [] fits all step = tt
  map-build_state-IsWide inp (b ∷ bs) fits (range, all) step =
      (build_state-IsWide inp b fits range step, map-build_state-IsWide inp bs fits all step)

  pub build_states-IsWide :
      (inp : Input F)
      → InputFits inp
      → pos 0 ≤ℤ inp.max_step_percent
      → All IsWide (build_states inp)
  unfolding build_states
  build_states-IsWide inp fits step =
      map-build_state-IsWide inp inp.backends fits fits.backends step
