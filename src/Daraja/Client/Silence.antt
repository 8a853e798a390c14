-- ===== src/Daraja/Client/Silence.antt =====
-- The parts of the calls of app/daraja/client.py that send nothing.
use mpesa_mcp_server.Common.{String, Bool, true, false, Option, none, some, ◌≡◌, refl, ap}
use mpesa_mcp_server.Common.Json.{Json, as_dict}
use mpesa_mcp_server.Daraja.Calls.{
  raised, Surroundings, Client, ClientError, HttpResponse, circuit_breaker_open, timestamp,
}
use mpesa_mcp_server.Daraja.Calls.Rules.{Silent, Silent-pure, Silent-raise, Silent-bind, Silent-if}
use mpesa_mcp_server.Daraja.CircuitBreaker.{before_call}
use mpesa_mcp_server.Daraja.Client.{
  raise_for_status, json_of, dict_of, check_circuit, refuse, note_success, note_failure,
  describe_document, http_error_description,
}
use mpesa_mcp_server.Daraja.Credentials.{or_raise, required_credential, required_setting}

pub Silent-or_raise : {A : Type 0} (e : ClientError) (o : Option A) → Silent (or_raise e o)
Silent-or_raise e none = Silent-raise e
Silent-or_raise e (some a) = Silent-pure a

pub Silent-raise_for_status : (r : HttpResponse) → Silent (raise_for_status r)
Silent-raise_for_status r = Silent-if r.is_success _ _ (Silent-pure _) (Silent-raise _)

pub Silent-json_of : (r : HttpResponse) → Silent (json_of r)
Silent-json_of r = Silent-or_raise _ r.json

pub Silent-dict_of : (v : Json) → Silent (dict_of v)
Silent-dict_of v = Silent-or_raise _ (as_dict v)

module _ (env : Surroundings) where
  pub Silent-required_credential : (name : String) → Silent (required_credential env name)
  unfolding required_credential
  Silent-required_credential name = Silent-or_raise _ _

  pub Silent-required_setting : (name : String) → Silent (required_setting env name)
  unfolding required_setting
  Silent-required_setting name = Silent-or_raise _ _

  refuse-Silent : (b : Bool) (s : Client) → (refuse env b s).1 ≡ s
  refuse-Silent true s = refl
  refuse-Silent false s = refl

  pub Silent-check_circuit : Silent (check_circuit env)
  unfolding check_circuit
  Silent-check_circuit = record { at = λ s. ap (λ t. t.requests) (refuse-Silent _ _) }

  pub Silent-note_success : Silent (note_success env)
  unfolding note_success
  Silent-note_success = record { at = λ s. refl }

  pub Silent-note_failure : Silent (note_failure env)
  unfolding note_failure
  Silent-note_failure = record { at = λ s. refl }

  pub Silent-timestamp : Silent (timestamp env)
  unfolding timestamp
  Silent-timestamp = record { at = λ s. refl }

  Silent-describe_document :
      (r : HttpResponse) (document : Option Json) → Silent (describe_document env r document)
  Silent-describe_document r none = Silent-pure _
  Silent-describe_document r (some document) =
      Silent-bind _ _ (Silent-or_raise _ (as_dict document)) (λ payload. Silent-pure _)

  pub Silent-http_error_description : (r : HttpResponse) → Silent (http_error_description env r)
  unfolding http_error_description
  Silent-http_error_description r = Silent-describe_document r r.json

  -- A call that the breaker refuses sends nothing.
  pub check_circuit_refused :
      (s : Client)
      → (before_call env.settings.circuit_breaker (env.clock s.clock_reads) s.circuit).0 ≡ true
      → (check_circuit env s).0 ≡ raised circuit_breaker_open
  unfolding check_circuit
  check_circuit_refused s refused = rw refused
