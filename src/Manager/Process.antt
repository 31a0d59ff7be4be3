-- ===== src/Manager/Process.antt =====
-- cmd/main.go: the steps of `main` and its exit code. `S` is what the steps change, `M` a manager.
use traficctl.Prelude.{ℕ, Option, none, some, String}
use traficctl.Prelude.Float.{Float}
use traficctl.Prelude.Results.{Result, ok, fails}
use traficctl.Smoother.{Smoother}
use traficctl.Controller.Env.{Env}
use traficctl.Manager.{Flags, ManagerOptions, manager_options}
use traficctl.Manager.Wiring.{Kit, reconciler, first_smoother}

-- The calls of `main`, each with its error; `kit` is what a manager gives to the reconciler.
pub record Host (S M W F X H B : Type 0) : Type 0 where
  pub new_manager : S → ManagerOptions → S × Result M
  pub kit : M → Kit W F X H B
  pub set_up : S → M → Env W F → Option (Smoother F) → S × Option String
  pub add_healthz : S → M → S × Option String
  pub add_readyz : S → M → S × Option String
  pub start : S → M → S × Option String

module _ {S M W F X H B : Type 0} ⦃fl : Float F⦄ (host : Host S M W F X H B) where
  -- `if err != nil { os.Exit(1) }`, with the exit code.
  abbrev pub exit_or : S × Option String → (S → S × ℕ) → S × ℕ
  exit_or (s, some e) k = (s, 1)
  exit_or (s, none) k = k s

  abbrev pub finished : S → S × ℕ
  finished s = (s, 0)

  -- `SetupWithManager` of the reconciler that the flags ask for.
  abbrev pub set_up_controller : Flags → S → M → S × Option String
  set_up_controller f s m =
      host.set_up s m (reconciler (host.kit m) f) (first_smoother (host.kit m))

  -- What follows a manager.
  unfoldable pub run_manager : Flags → S × Result M → S × ℕ
  run_manager f (s, fails e) = (s, 1)
  run_manager f (s, ok m) = exit_or (set_up_controller f s m) λ s1.
      exit_or (host.add_healthz s1 m)
        λ s2. exit_or (host.add_readyz s2 m) λ s3. exit_or (host.start s3 m) finished

  unfoldable pub main : Flags → S → S × ℕ
  unfolding run_manager manager_options
  main f s = run_manager f (host.new_manager s (manager_options f))
