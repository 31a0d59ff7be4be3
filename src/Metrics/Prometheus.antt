-- ===== src/Metrics/Prometheus.antt =====
-- internal/metrics/prometheus.go: `PromSource`. The HTTP client, the URL and JSON packages and
-- `strconv.ParseFloat` are the record `Net`; `H` is a client, `B` the bytes of a body.
use text.Mathlib.Text.{◌==◌}
use Prim.Native.String.{◌++◌ as append}
use traficctl.Prelude.{ℕ, List, [], ◌∷◌, Option, none, some, Bool, true, false, not, String, ◌||◌}
use traficctl.Prelude.Tests.{if◌then◌else◌, ltb, leb}
use traficctl.Prelude.Int.{pos}
use traficctl.Prelude.Dict.{Dict, lookup, insert}
use traficctl.Prelude.Format.{decimal}
use traficctl.Prelude.Quote.{quote}
use traficctl.Prelude.Results.{Result, ok, fails, ◌>>=◌, ◌>>◌, fail_if, wrap_error}
use traficctl.Metrics.{requested}

abbrev pub default_backend_label : String
default_backend_label = "backend"

pub record PromSource (H : Type 0) : Type 0 where
  pub address : String
  pub http_client : Option H
  pub backend_label : String

unfoldable pub new_prom_source : {H : Type 0} → String → Option H → PromSource H
new_prom_source address http_client = record {
  address = address;
  http_client = http_client;
  backend_label = default_backend_label;
}

-- A decoded JSON value: a string, or anything else with its `%v` text.
pub data Any : Type 0 where
  string_value : String → Any
  other_value : String → Any

pub record VectorSample : Type 0 where
  pub metric : Dict String
  pub value : List Any

pub record QueryData : Type 0 where
  pub result_type : String
  pub result : List VectorSample

pub record QueryResponse : Type 0 where
  pub status : String
  pub error_type : String
  pub error : String
  pub data_part : QueryData

pub record Request : Type 0 where
  pub method : String
  pub url : String
  pub body : String
  pub headers : List (String × String)

pub record Response (B : Type 0) : Type 0 where
  pub status_code : ℕ
  pub body : Result B

pub record Net (W F H B : Type 0) : Type 0 where
  pub default_client : H
  pub trim_space : String → String
  pub trim_right_slash : String → String
  pub parse_url : String → Result String
  pub encode_form : Dict String → String
  pub new_request : Request → Result Request
  pub call : H → W → Request → Result (Response B)
  pub unmarshal : B → Result QueryResponse
  pub text_of : B → String
  pub parse_float : String → Result F
  pub show_values : List Any → String

abbrev pub prom : String → String
prom s = append "prometheus: " s

abbrev pub labelled : String → String → String
labelled label name = append label (append "=" (quote name))

-- `resp.StatusCode < 200 || resp.StatusCode >= 300`
abbrev pub bad_status : ℕ → Bool
bad_status code = ltb code 200 || leb 300 code

abbrev pub label_or_default : String → String
label_or_default s = if s == "" then default_backend_label else s

module _ {W F H B : Type 0} (net : Net W F H B) where
  unfoldable pub extract_error_message : B → String
  extract_error_message body = elim (net.unmarshal body) [
    | fails e ↦ ""
    | ok parsed ↦ if not (parsed.error == "") then parsed.error else ""
  ]

  -- The text after the status code of an error.
  unfoldable pub failure_detail : B → String
  unfolding extract_error_message
  failure_detail body =
      let message = extract_error_message body in
      if not (message == "") then message else net.trim_space (net.text_of body)

  abbrev pub query_request : String → String → Request
  query_request endpoint query = record {
    method = "POST";
    url = endpoint;
    body = net.encode_form (("query", query) ∷ []);
    headers =
        ("Content-Type", "application/x-www-form-urlencoded") ∷ ("Accept", "application/json") ∷ [];
  }

  abbrev pub client_of : PromSource H → H
  client_of p = elim p.http_client [ none ↦ net.default_client | some c ↦ c ]

  -- The second element of a sample's value, as a number.
  unfoldable pub read_value : String → String → List Any → Result F
  read_value label name (_ ∷ string_value raw ∷ []) =
      wrap_error
        (λ e. prom (append "parse value for " (append (labelled label name) (append ": " e))))
        (net.parse_float raw)
  read_value label name (_ ∷ other_value _ ∷ []) =
      fails (prom (append "non-string value for " (labelled label name)))
  read_value label name values = fails (
      prom (
        append "unexpected value shape for "
          (append (labelled label name) (append ": " (net.show_values values)))))

  -- The loop over the vector.
  unfoldable pub collect : String → List String → List VectorSample → Dict F → Result (Dict F)
  unfolding read_value
  collect label backends [] out = ok out
  collect label backends (s ∷ ss) out = elim (lookup label s.metric) [
    | none ↦ collect label backends ss out
    | some name ↦ elim (requested name backends) [
      | false ↦ collect label backends ss out
      | true ↦ do v ← read_value label name s.value; collect label backends ss (insert name v out)
    ]
  ]

  -- What follows a decoded response.
  unfoldable pub read_vector : String → List String → QueryResponse → Result (Dict F)
  unfolding collect
  read_vector label backends parsed = do
    fail_if (not (parsed.status == "success"))
        (prom (append "query failed (" (append parsed.error_type (append "): " parsed.error))))
    fail_if (not (parsed.data_part.result_type == "vector"))
        (prom (append "expected vector result, got " (quote parsed.data_part.result_type)))
    collect (label_or_default label) backends parsed.data_part.result []

  -- What follows a response.
  unfoldable pub read_response : String → List String → Response B → Result (Dict F)
  unfolding read_vector failure_detail
  read_response label backends resp = do
    body ← wrap_error (λ e. prom (append "read response: " e)) resp.body
    fail_if (bad_status resp.status_code) (
        prom (
          append "http "
            (append (decimal (pos resp.status_code)) (append ": " (failure_detail body)))))
    parsed ← wrap_error (λ e. prom (append "decode response: " e)) (net.unmarshal body)
    read_vector label backends parsed

  unfoldable pub sample_prom : PromSource H → W → String → List String → Result (Dict F)
  unfolding read_response
  sample_prom p w query backends = do
    fail_if (net.trim_space p.address == "") (prom "Address is not configured")
    fail_if (net.trim_space query == "") (prom "query is empty")
    endpoint ←
        wrap_error
          (λ e. prom (append "invalid address " (append (quote p.address) (append ": " e))))
          (net.parse_url (append (net.trim_right_slash p.address) "/api/v1/query"))
    req ←
        wrap_error (λ e. prom (append "build request: " e))
          (net.new_request (query_request endpoint query))
    resp ← wrap_error (λ e. prom (append "query request: " e)) (net.call (client_of p) w req)
    read_response p.backend_label backends resp
