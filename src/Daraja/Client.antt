-- ===== src/Daraja/Client.antt =====
-- `RealDarajaClient` of app/daraja/client.py: what its two calls share. The log lines are left
-- out; the settings of the timeouts too.
pub mod Silence
pub mod Blame
pub mod Refusal
pub mod Push
pub mod Status
use mpesa_mcp_server.Daraja.Credentials.{
  or_raise, filled, or_else_option, add_unless_slash, strip_slashes, resolve_base_url, or_resolved,
  client_base_url, required_credential, required_setting, validate_production_credentials,
}
use mpesa_mcp_server.Common.{
  ℕ, suc, String, Bool, true, false, Option, none, some, List, [], ◌∷◌, ◌==◌, keep, contains, not,
  eqb, leb, ◌&&◌, if◌then◌else◌,
}
use mpesa_mcp_server.Common.Dict.{Dict, lookup}
use mpesa_mcp_server.Common.Json.{Json, str, as_dict, as_str}
use mpesa_mcp_server.Common.Text.{concat}
use mpesa_mcp_server.Daraja.Calls.{
  Surroundings, Call, ClientError, HttpRequest, HttpResponse, http_status_error, value_error,
  attribute_error, circuit_breaker_open, Client, pure, raise, modify, ◌>>=◌, ◌>>◌,
}
use mpesa_mcp_server.Daraja.CircuitBreaker
use mpesa_mcp_server.Daraja.CircuitBreaker.{
  DarajaCircuitBreaker, CircuitState, waits_since, threshold, before_call, record_success,
  record_failure,
}
use mpesa_mcp_server.Daraja.Retries.{request_with_retries}
use Prim.Native.String as S
use Prim.Native.Char.{Char}

-- `response.raise_for_status()`
abbrev pub raise_for_status : HttpResponse → Call (Unit {0})
raise_for_status r = if r.is_success then pure tt else raise (http_status_error r)

-- `response.json()`
abbrev pub json_of : HttpResponse → Call Json
json_of r = or_raise (value_error "response is not JSON") r.json

-- The document's `get`
abbrev pub dict_of : Json → Call (Dict Json)
dict_of v = or_raise attribute_error (as_dict v)

abbrev pub filled_str : Option Json → Option String
filled_str none = none
filled_str (some v) = filled (as_str v)

-- `_error_category_for_status`
unfoldable pub error_category_for_status : ℕ → String
error_category_for_status code =
    if eqb code 400
    then "validation_error"
    else if eqb code 401
    then "auth_error"
    else if eqb code 403
    then "auth_error"
    else if eqb code 408
    then "timeout"
    else if eqb code 429
    then "rate_limited"
    else if eqb code 500
    then "provider_unavailable"
    else if eqb code 502
    then "provider_unavailable"
    else if eqb code 503
    then "provider_unavailable"
    else if eqb code 504
    then "provider_unavailable"
    else "unknown_error"

abbrev pub unsafe_keys : List String
unsafe_keys =
    "access_token" ∷ "Password" ∷ "SecurityCredential" ∷ "password" ∷ "securityCredential" ∷ []

-- `_safe_raw_response` of a document that is a dict
unfoldable pub safe_raw_response : Dict Json → Dict Json
safe_raw_response payload = keep (λ entry. not (contains unsafe_keys entry.0)) payload

module _ (env : Surroundings) where
  -- The breaker of the settings, on the client's clock: it is read where the breaker looks at it.
  abbrev pub reads : Bool → Option ℕ → ℕ → ℕ
  reads true (some opened_at) n = suc n
  reads _ _ n = n

  abbrev pub refuse : Bool → Call (Unit {0})
  refuse true = raise circuit_breaker_open
  refuse false = pure tt

  -- `self._circuit_breaker.before_call()`
  unfoldable pub check_circuit : Call (Unit {0})
  check_circuit s =
      let c = env.settings.circuit_breaker in
      let (open_now, b) = before_call c (env.clock s.clock_reads) s.circuit in
      refuse open_now (record s {
        circuit = b;
        clock_reads =
            reads c.enabled (waits_since s.circuit.state s.circuit.opened_at) s.clock_reads;
      })

  -- `self._circuit_breaker.record_success()`
  unfoldable pub note_success : Call (Unit {0})
  note_success =
      modify (λ s. record s { circuit = record_success env.settings.circuit_breaker s.circuit })

  -- Whether a failure opens the circuit, and so reads the clock.
  abbrev pub opens : DarajaCircuitBreaker → Bool
  opens b =
      let c = env.settings.circuit_breaker in c.enabled && leb (threshold c) (suc b.failure_count)

  -- `self._circuit_breaker.record_failure()`
  unfoldable pub note_failure : Call (Unit {0})
  unfolding threshold
  note_failure = modify (λ s. record s {
    circuit = record_failure env.settings.circuit_breaker (env.clock s.clock_reads) s.circuit;
    clock_reads = if opens s.circuit then suc s.clock_reads else s.clock_reads;
  })

  -- The request of `_get_oauth_token`
  abbrev pub oauth_request : String → String → HttpRequest
  oauth_request consumer_key consumer_secret = record {
    method = "GET";
    url = concat (client_base_url env ∷ "/oauth/v1/generate" ∷ []);
    headers = [];
    params = ("grant_type", "client_credentials") ∷ [];
    auth = some (consumer_key, consumer_secret);
    json = [];
  }

  -- The token in the answer.
  unfoldable pub read_token : HttpResponse → Call String
  read_token response = do
    raise_for_status response
    document ← json_of response
    payload ← dict_of document
    or_raise (value_error "Daraja OAuth response did not include an access token.")
        (filled_str (lookup "access_token" payload))

  -- `_get_oauth_token`
  unfoldable pub get_oauth_token : Call String
  unfolding required_credential read_token
  get_oauth_token = do
    consumer_key ← required_credential env "consumer_key"
    consumer_secret ← required_credential env "consumer_secret"
    response ← request_with_retries env (oauth_request consumer_key consumer_secret)
    read_token response

  -- What `_http_error_description` tells of an error's document.
  abbrev pub described : HttpResponse → Option String → String
  described r (some message) = message
  described r none = concat ("Daraja transaction status request failed: " ∷ r.error_text ∷ [])

  -- `_http_error_description`
  abbrev pub describe_document : HttpResponse → Option Json → Call String
  describe_document r none = pure (described r none)
  describe_document r (some document) = do
    payload ← dict_of document
    pure (described r (filled_str (lookup "errorMessage" payload)))

  unfoldable pub http_error_description : HttpResponse → Call String
  http_error_description r = describe_document r r.json
