-- ===== src/Metrics/TestData.antt =====
-- A server that answers every query with the latencies of two backends, for the tests.
use text.Mathlib.Text.{◌==◌}
use traficctl.Prelude.{[], ◌∷◌, some, String}
use traficctl.Prelude.Int.{ℤ, pos}
use traficctl.Prelude.Tests.{if◌then◌else◌}
use traficctl.Prelude.Results.{Result, ok, fails}
use traficctl.Metrics.Prometheus.{
  Net, PromSource, QueryResponse, VectorSample, string_value, other_value,
}

abbrev pub sample : String → String → VectorSample
sample name raw = record {
  metric = ("backend", name) ∷ [];
  value = other_value "1.5" ∷ string_value raw ∷ [];
}

abbrev pub two_samples : QueryResponse
two_samples = record {
  status = "success";
  error_type = "";
  error = "";
  data_part = record { result_type = "vector"; result = sample "a" "300" ∷ sample "b" "50" ∷ [] };
}

abbrev pub number : String → Result ℤ
number raw =
    if raw == "300" then ok (pos 300) else if raw == "50" then ok (pos 50) else fails "syntax"

-- `W` is the world, which no answer depends on.
abbrev pub two_net : (W : Type 0) → Net W ℤ Unit QueryResponse
two_net W = record {
  default_client = tt;
  trim_space = λ s. s;
  trim_right_slash = λ s. s;
  parse_url = λ s. ok s;
  encode_form = λ form. "";
  new_request = λ r. ok r;
  call = λ h w r. ok (record { status_code = 200; body = ok two_samples });
  unmarshal = λ b. ok b;
  text_of = λ b. "";
  parse_float = number;
  show_values = λ vs. "";
}

abbrev pub source : PromSource Unit
source = record { address = "http://prometheus:9090"; http_client = some tt; backend_label = "" }
