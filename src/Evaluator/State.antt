-- ===== src/Evaluator/State.antt =====
-- internal/evaluator/evaluator.go: `Signal`, `Input`, `backendState` and `buildStates`.
use traficctl.Prelude.{List, [], ◌∷◌, ◌++◌, map, none, some, Bool, true, false, String}
use traficctl.Prelude.Tests.{if◌then◌else◌}
use traficctl.Prelude.Int.{ℤ}
use traficctl.Prelude.Dict.{Dict, lookup}
use traficctl.Prelude.Float.{Float}
use traficctl.Api.Types.{Backend, BackendWeight}
use traficctl.Api.WeightMap.{weight_map, or_zero}

pub record Signal (F : Type 0) : Type 0 where
  pub name : String
  pub samples : Dict F
  pub threshold : F

pub record Input (F : Type 0) : Type 0 where
  pub backends : List Backend
  pub current : List BackendWeight
  pub signals : List (Signal F)
  pub max_step_percent : ℤ

pub record BackendState (F : Type 0) : Type 0 where
  pub name : String
  pub current : ℤ
  pub min : ℤ
  pub max : ℤ
  pub score : F
  pub have_sample : Bool
  pub breaches : List String
  pub step_budget : ℤ

module _ {F : Type 0} ⦃fl : Float F⦄ where
  -- One signal's contribution, given the sample `v`.
  unfoldable pub observe : Signal F → F → BackendState F → BackendState F
  observe sig v st =
      let seen : BackendState F = record st { have_sample = true } in
      let ratio = fl.div v sig.threshold in
      if fl.lt fl.one ratio
      then record seen {
        score = fl.add st.score (fl.sub ratio fl.one);
        breaches = st.breaches ++ (sig.name ∷ []);
      }
      else seen

  -- The body of the inner loop of `buildStates`, its two `continue`s included.
  unfoldable pub apply_signal : BackendState F → Signal F → BackendState F
  unfolding observe
  apply_signal st sig =
      if fl.le sig.threshold fl.nought
      then st
      else elim (lookup st.name sig.samples) [ none ↦ st | some v ↦ observe sig v st ]

  unfoldable pub apply_signals : BackendState F → List (Signal F) → BackendState F
  unfolding apply_signal
  apply_signals st [] = st
  apply_signals st (sig ∷ sigs) = apply_signals (apply_signal st sig) sigs

  unfoldable pub initial_state : ℤ → Dict ℤ → Backend → BackendState F
  initial_state step current b = record {
    name = b.name;
    current = or_zero (lookup b.name current);
    min = b.min_weight;
    max = b.max_weight;
    score = fl.nought;
    have_sample = false;
    breaches = [];
    step_budget = step;
  }

  unfoldable pub build_state : Input F → Backend → BackendState F
  unfolding apply_signals initial_state weight_map
  build_state inp b =
      apply_signals (initial_state inp.max_step_percent (weight_map [] inp.current) b) inp.signals

  unfoldable pub build_states : Input F → List (BackendState F)
  unfolding build_state
  build_states inp = map (build_state inp) inp.backends
