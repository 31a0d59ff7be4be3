-- ===== src/Manager.antt =====
-- cmd/main.go: what `main` makes of its flags. The servers, the manager and the parsing of the command
-- line are controller-runtime's and the `flag` package's.
pub mod Laws
pub mod Wiring
pub mod Process
pub mod Examples
use text.Mathlib.Text.{◌==◌}
use traficctl.Prelude.{List, [], ◌∷◌, Option, none, some, Bool, true, false, not, String}
use traficctl.Prelude.Tests.{if◌then◌else◌}
use traficctl.Prelude.Int.{ℤ, pos}
use traficctl.Metrics.Prometheus.{PromSource, new_prom_source, default_backend_label}

pub record Flags : Type 0 where
  pub metrics_addr : String
  pub metrics_cert_path : String
  pub metrics_cert_name : String
  pub metrics_cert_key : String
  pub webhook_cert_path : String
  pub webhook_cert_name : String
  pub webhook_cert_key : String
  pub enable_leader_election : Bool
  pub probe_addr : String
  pub secure_metrics : Bool
  pub enable_http2 : Bool
  pub prometheus_address : String
  pub prometheus_backend_label : String
  pub prometheus_timeout : ℤ

unfoldable pub default_flags : Flags
default_flags = record {
  metrics_addr = "0";
  metrics_cert_path = "";
  metrics_cert_name = "tls.crt";
  metrics_cert_key = "tls.key";
  webhook_cert_path = "";
  webhook_cert_name = "tls.crt";
  webhook_cert_key = "tls.key";
  enable_leader_election = false;
  probe_addr = ":8081";
  secure_metrics = true;
  enable_http2 = false;
  prometheus_address = "";
  prometheus_backend_label = default_backend_label;
  prometheus_timeout = pos 5000000000;
}

-- A `tls.Config`, by its protocols; an option changes it.
pub record TlsConfig : Type 0 where
  pub next_protos : List String

abbrev pub TlsOption : Type 0
TlsOption = TlsConfig → TlsConfig

unfoldable pub disable_http2 : TlsOption
disable_http2 c = record c { next_protos = "http/1.1" ∷ [] }

unfoldable pub tls_opts : Flags → List TlsOption
tls_opts f = if not f.enable_http2 then disable_http2 ∷ [] else []

-- The empty text is a field that is not set.
pub record Certificate : Type 0 where
  pub cert_dir : String
  pub cert_name : String
  pub key_name : String

abbrev pub no_certificate : Certificate
no_certificate = record { cert_dir = ""; cert_name = ""; key_name = "" }

-- `if len(path) > 0`
abbrev pub certificate_if : String → String → String → Certificate
certificate_if path name key =
    if not (path == "")
    then record { cert_dir = path; cert_name = name; key_name = key }
    else no_certificate

pub record WebhookOptions : Type 0 where
  pub tls_opts : List TlsOption
  pub certificate : Certificate

unfoldable pub webhook_server_options : Flags → WebhookOptions
unfolding tls_opts
webhook_server_options f = record {
  tls_opts = tls_opts f;
  certificate = certificate_if f.webhook_cert_path f.webhook_cert_name f.webhook_cert_key;
}

-- A filter is nil, or that of authentication and authorization.
pub data Filter : Type 0 where
  no_filter authenticated : Filter

pub record MetricsOptions : Type 0 where
  pub bind_address : String
  pub secure_serving : Bool
  pub tls_opts : List TlsOption
  pub filter_provider : Filter
  pub certificate : Certificate

unfoldable pub metrics_server_options : Flags → MetricsOptions
unfolding tls_opts
metrics_server_options f = record {
  bind_address = f.metrics_addr;
  secure_serving = f.secure_metrics;
  tls_opts = tls_opts f;
  filter_provider = if f.secure_metrics then authenticated else no_filter;
  certificate = certificate_if f.metrics_cert_path f.metrics_cert_name f.metrics_cert_key;
}

pub record ManagerOptions : Type 0 where
  pub metrics : MetricsOptions
  pub webhook : WebhookOptions
  pub health_probe_bind_address : String
  pub leader_election : Bool
  pub leader_election_id : String

unfoldable pub manager_options : Flags → ManagerOptions
unfolding webhook_server_options metrics_server_options
manager_options f = record {
  metrics = metrics_server_options f;
  webhook = webhook_server_options f;
  health_probe_bind_address = f.probe_addr;
  leader_election = f.enable_leader_election;
  leader_election_id = "0c763dc5.traffic.devops.io";
}

-- `http_client` makes a client with a timeout.
unfoldable pub metric_source : {H : Type 0} → (ℤ → H) → Flags → Option (PromSource H)
unfolding new_prom_source
metric_source http_client f =
    if not (f.prometheus_address == "")
    then some
        (record (new_prom_source f.prometheus_address (some (http_client f.prometheus_timeout))) {
          backend_label = f.prometheus_backend_label;
        })
    else none
