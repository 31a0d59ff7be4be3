-- ===== src/Metrics/Laws.antt =====
-- Both implementations of `Source.Sample` against its contract.
use text.Mathlib.Text.{◌==◌}
use Prim.Native.String.{◌++◌ as append}
use traficctl.Prelude.{ℕ, ◌≡◌, ◌↔◌, ◌≤◌, ◌<◌, List, [], none, true, false, not, String, arith}
use traficctl.Prelude.Tests.{if◌then◌else◌, not-false}
use traficctl.Prelude.Dict.{Dict, lookup}
use traficctl.Prelude.Lists.{All}
use traficctl.Prelude.Results.{ok, >>=-eq-ok, fail_if-eq-ok, wrap_error-eq-ok}
use traficctl.Metrics.{requested}
use traficctl.Metrics.Prometheus.{
  PromSource, Net, Response, QueryResponse, Request, query_request, client_of, bad_status,
  label_or_default, collect, read_vector, read_response, sample_prom,
}
use traficctl.Metrics.Vector.{Readable, latest, collect-Readable, collect-lookup}
use traficctl.Metrics.Static.{prefer-none}

in_range : (n : ℕ) → bad_status n ≡ false → (200 ≤ n) × (n < 300)
in_range n h = ground (arith, h)

out_of_range : (n : ℕ) → (200 ≤ n) × (n < 300) → bad_status n ≡ false
out_of_range n h = ground (arith, h)

module _ {W F H B : Type 0} (net : Net W F H B) where
  -- An answer of the server that the source accepts.
  pub record Answered (p : PromSource H) (w : W) (query : String) (parsed : QueryResponse)
      : Type 0 where
    pub address : (net.trim_space p.address == "") ≡ false
    pub query_text : (net.trim_space query == "") ≡ false
    pub endpoint : String
    pub url : net.parse_url (append (net.trim_right_slash p.address) "/api/v1/query") ≡ ok endpoint
    pub request : Request
    pub built : net.new_request (query_request net endpoint query) ≡ ok request
    pub response : Response B
    pub answered : net.call (client_of net p) w request ≡ ok response
    pub body : B
    pub read : response.body ≡ ok body
    pub code : (200 ≤ response.status_code) × (response.status_code < 300)
    pub decoded : net.unmarshal body ≡ ok parsed
    pub success : (parsed.status == "success") ≡ true
    pub vector : (parsed.data_part.result_type == "vector") ≡ true

  read_vector-ok :
      (label : String) (backends : List String) (parsed : QueryResponse) (out : Dict F)
      → (read_vector net label backends parsed ≡ ok out)
        ↔ ((parsed.status == "success") ≡ true)
          × ((parsed.data_part.result_type == "vector") ≡ true)
          × (collect net (label_or_default label) backends parsed.data_part.result [] ≡ ok out)
  unfolding read_vector
  read_vector-ok label backends parsed out = (
    λ h.
        let (status, rest) = fail_if-eq-ok (not (parsed.status == "success")) _ _ out h in
        let (kind, last) =
          fail_if-eq-ok (not (parsed.data_part.result_type == "vector")) _
            (collect net (label_or_default label) backends parsed.data_part.result []) out rest in
        (not-false _ status, not-false _ kind, last),
    λ (status, kind, last). rw (status, kind, read_vector) last,
  )

  -- `Sample` of the Prometheus source succeeds exactly if the address and the query are not blank, every
  -- call up to the decoding of a response with a status code from 200 to 299 succeeds, the response is
  -- a vector that reports success, and the loop over the vector succeeds; and then it returns what the
  -- loop returns.
  pub sample_prom-ok :
      (p : PromSource H) (w : W) (query : String) (backends : List String) (out : Dict F)
      → (sample_prom net p w query backends ≡ ok out) ↔ (
          (parsed : QueryResponse) × Answered p w query parsed
          × (collect net (label_or_default p.backend_label) backends parsed.data_part.result []
              ≡ ok out))
  unfolding sample_prom read_response
  sample_prom-ok p w query backends out = (
    λ h.
        let (address, h₁) = fail_if-eq-ok _ _ _ out h in
        let (query_text, h₂) = fail_if-eq-ok _ _ _ out h₁ in
        let (endpoint, url, h₃) = >>=-eq-ok _ _ out h₂ in
        let (request, built, h₄) = >>=-eq-ok _ _ out h₃ in
        let (response, answered, h₅) = >>=-eq-ok _ _ out h₄ in
        let (body, read, h₆) = >>=-eq-ok _ _ out h₅ in
        let (code, h₇) = fail_if-eq-ok (bad_status response.status_code) _ _ out h₆ in
        let (parsed, decoded, h₈) = >>=-eq-ok _ _ out h₇ in
        let (success, vector, loop) = (read_vector-ok p.backend_label backends parsed out).0 h₈ in
        (
          parsed,
          record {
            address = address;
            query_text = query_text;
            endpoint = endpoint;
            url = wrap_error-eq-ok _ _ endpoint url;
            request = request;
            built = wrap_error-eq-ok _ _ request built;
            response = response;
            answered = wrap_error-eq-ok _ _ response answered;
            body = body;
            read = wrap_error-eq-ok _ _ body read;
            code = in_range response.status_code code;
            decoded = wrap_error-eq-ok _ _ parsed decoded;
            success = success;
            vector = vector;
          },
          loop,
        ),
    λ (parsed, a, loop).
        let code : bad_status a.response.status_code ≡ false =
          out_of_range a.response.status_code a.code in
        rw
          (
            sample_prom, a.address, a.query_text, a.url, a.built, a.answered, read_response, a.read,
            code, a.decoded,
          )
          ((read_vector-ok p.backend_label backends parsed out).1 (a.success, a.vector, loop)),
  )

  -- If `Sample` of the Prometheus source succeeds, the server has answered with a vector in which every
  -- sample of a requested backend is readable, and the result holds for every requested backend its
  -- last sample, if it has one, and nothing else.
  pub sample_prom-lookup :
      (p : PromSource H) (w : W) (query : String) (backends : List String) (out : Dict F)
      → sample_prom net p w query backends ≡ ok out
      → (parsed : QueryResponse) × Answered p w query parsed
        × All (Readable net (label_or_default p.backend_label) backends) parsed.data_part.result
        × ((name : String)
            → lookup name out ≡ (
                if requested name backends
                then latest net (label_or_default p.backend_label) name parsed.data_part.result
                else none))
  unfolding lookup
  sample_prom-lookup p w query backends out h =
      let label = label_or_default p.backend_label in
      let (parsed, a, loop) = (sample_prom-ok p w query backends out).0 h in
      let ss = parsed.data_part.result in
      (
        parsed,
        a,
        (collect-Readable net label backends ss []).0 (out, loop),
        λ name.
            rw (← prefer-none (latest net label name ss))
              (collect-lookup net label backends ss [] out name loop),
      )
