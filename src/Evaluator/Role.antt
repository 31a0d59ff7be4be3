-- ===== src/Evaluator/Role.antt =====
-- The three classes into which the first loop of `Evaluate` puts a state.
use traficctl.Prelude.{List, [], ◌∷◌, Bool, true, false, String}
use traficctl.Evaluator.State.{BackendState}

pub data Role : Type 0 where
  missing unhealthy healthy : Role

abbrev pub role_by : Bool → List String → Role
role_by false _ = missing
role_by true [] = healthy
role_by true (_ ∷ _) = unhealthy

abbrev pub role : {F : Type 0} → BackendState F → Role
role s = role_by s.have_sample s.breaches

pub Role-discrete : Discrete Role
Role-discrete = hlevel
