-- ===== src/Cli/Commands.antt =====
-- internal/cli/cli.go: the flags, the client that they ask for, and the four subcommands. The kubeconfig
-- loader and the constructor of the client are parameters.
use text.Mathlib.Text.{◌==◌}
use Prim.Native.String.{◌++◌ as append}
use traficctl.Prelude.{Option, none, some, Bool, true, false, not, String}
use traficctl.Prelude.Tests.{if◌then◌else◌}
use traficctl.Prelude.Results.{Result, ok, fails, ◌>>=◌, wrap_error}
use traficctl.Cli.Tables.{Toolbox}
use traficctl.Cli.{PolicyClient, run_list, run_status, toggle_paused}
use traficctl.Cli.Writes.{Output}

pub record Globals : Type 0 where
  pub kubeconfig : String
  pub namespace : String
  pub all_ns : Bool

-- The kubeconfig is read by the default rules, or from an explicit path; `K` is a configuration.
pub record Loader (K W : Type 0) : Type 0 where
  pub client_config : Option String → Result K
  pub context_namespace : Option String → Result String
  pub connect : K → Result (PolicyClient W)

-- `loader.ExplicitPath`
abbrev pub explicit_path : Globals → Option String
explicit_path g = if not (g.kubeconfig == "") then some g.kubeconfig else none

-- `if err != nil || ns == "" { ns = "default" }`
abbrev pub or_default : Result String → String
or_default (fails e) = "default"
or_default (ok ns) = if ns == "" then "default" else ns

module _ {K W : Type 0} (loader : Loader K W) where
  abbrev pub namespace_of : Globals → String
  namespace_of g =
      if g.namespace == ""
      then or_default (loader.context_namespace (explicit_path g))
      else g.namespace

  unfoldable pub build_client : Globals → Result (PolicyClient W × String)
  build_client g = do
    config ← wrap_error (λ e. append "load kubeconfig: " e) (loader.client_config (explicit_path g))
    client ← wrap_error (λ e. append "build client: " e) (loader.connect config)
    ok (client, namespace_of g)

module _ {K W O : Type 0} (loader : Loader K W) (tools : Toolbox) (out : Output O) where
  -- `c, ns, err := buildClient(g)`, with what follows it; a command leaves a world, an output and an
  -- error.
  abbrev pub with_client :
      Globals
      → (PolicyClient W → String → W → O → W × (O × Option String))
      → W
      → O
      → W × (O × Option String)
  with_client g run w o = elim (build_client loader g) [
    | fails e ↦ (w, (o, some e))
    | ok (client, ns) ↦ run client ns w o
  ]

  unfoldable pub list_command : Globals → W → O → W × (O × Option String)
  unfolding build_client run_list
  list_command g = with_client g λ client ns w o. (w, run_list client tools out w ns g.all_ns o)

  unfoldable pub status_command : Globals → String → W → O → W × (O × Option String)
  unfolding build_client run_status
  status_command g name =
      with_client g λ client ns w o. (w, run_status client tools out w ns name o)

  unfoldable pub freeze_command : Globals → String → W → O → W × (O × Option String)
  unfolding build_client toggle_paused
  freeze_command g name = with_client g λ client ns w o. toggle_paused client out w ns name true o

  unfoldable pub resume_command : Globals → String → W → O → W × (O × Option String)
  unfolding build_client toggle_paused
  resume_command g name = with_client g λ client ns w o. toggle_paused client out w ns name false o
