-- ===== src/Tests/Daraja.antt =====
-- Runs of the Daraja client of app/daraja/client.py, and of the services over it.
use mpesa_mcp_server.Common.{
  ℕ, ◌*◌, true, ◌≡◌, ◌⊎◌, refl, none, some, List, [], ◌∷◌, ◌==◌, arith, length, if◌then◌else◌,
}
use mpesa_mcp_server.Common.Int.{pos}
use mpesa_mcp_server.Common.Dict.{Dict, lookup}
use mpesa_mcp_server.Common.Json.{Json, Fields}
use mpesa_mcp_server.Common.Text.{concat}
use mpesa_mcp_server.Payments.Providers.{PaymentRequest}
use mpesa_mcp_server.Payments.Records.{payment_request}
use mpesa_mcp_server.Payments.Service as Service
use mpesa_mcp_server.Payments.Initiation.{IsWithinLimit, request_of}
use mpesa_mcp_server.Payments.Adapters.{daraja_payment_provider}
use mpesa_mcp_server.Payments.Adapters.Laws.{requests_after, initiate_stk_push_over_daraja}
use mpesa_mcp_server.Daraja.CircuitBreaker.{CircuitBreakerSettings, before_call, threshold}
use mpesa_mcp_server.Daraja.CircuitBreaker.Refinement.{
  Event, succeeded, failed, after, refuses, before_call_refines,
}
use mpesa_mcp_server.Daraja.Calls.{
  Surroundings, DarajaSettings, Client, new_client, HttpRequest, HttpAnswer, response, timeout,
  send, returned, raised, circuit_breaker_open,
}
use mpesa_mcp_server.Daraja.Retries.{request_with_retries}
use mpesa_mcp_server.Daraja.Retries.Laws.{Settles, request_with_retries-Settles}
use mpesa_mcp_server.Daraja.Credentials.{client_base_url}
use mpesa_mcp_server.Daraja.Client.Refusal.{calls_refused}
use mpesa_mcp_server.Daraja.Client.Push.{initiate_stk_push}
use mpesa_mcp_server.Daraja.Client.Push.Laws.{PushedOnce, initiate_stk_push-PushedOnce}
use mpesa_mcp_server.Daraja.Client.Status.{
  check_transaction_status, transaction_status_payload, status_body,
  failed_transaction_status_response,
}
use mpesa_mcp_server.Daraja.Client.Status.Laws.{Answers, check_transaction_status-Answers}
use mpesa_mcp_server.Tests.Samples as Samples
use mpesa_mcp_server.World.{World, start}

abbrev pub breaker : CircuitBreakerSettings
breaker = record { enabled = true; failure_threshold = pos 2; recovery = 60 }

abbrev pub daraja_settings : DarajaSettings
daraja_settings = record {
  daraja_mode = "sandbox";
  daraja_sandbox_base_url = "https://sandbox/";
  daraja_production_base_url = "https://production";
  attribute = λ name. some name;
  daraja_identifier_type = pos 4;
  daraja_transaction_status_remarks = "query";
  daraja_transaction_status_occasion = "check";
  daraja_max_retries = pos 2;
  daraja_retry_backoff = pos 5;
  circuit_breaker = breaker;
}

abbrev pub answered : Fields → HttpAnswer
answered fields = response (record {
  status_code = 200;
  is_success = true;
  error_text = "";
  json = some (Json.dict fields);
})

abbrev pub token_fields : Fields
token_fields = Fields.field "access_token" (Json.str "t") Fields.end

abbrev pub accepted_fields : Fields
accepted_fields =
    Fields.field "ResponseCode" (Json.str "0")
      (Fields.field "CheckoutRequestID" (Json.str "ws_1") Fields.end)

-- Tokens are given and requests accepted.
abbrev pub daraja : Surroundings
daraja = record {
  settings = daraja_settings;
  base_url = none;
  send = λ requests request.
      if request.method == "GET" then answered token_fields else answered accepted_fields;
  clock = λ n. n * 10;
  timestamp = λ n. "20260101000000";
  b64encode = λ text. text;
  upper = λ text. text;
  builtins = record { repr = λ v. ""; int_of_text = λ text. none; is_digit = λ c. true };
}

-- Nothing ever answers.
abbrev silent : Surroundings
silent = record daraja { send = λ requests request. timeout "no answer" }

abbrev get : HttpRequest
get = record {
  method = "GET";
  url = "https://sandbox/oauth";
  headers = [];
  params = [];
  auth = none;
  json = [];
}

abbrev payment : PaymentRequest
payment = payment_request "254700000000" (pos 500) "INV-1" "Invoice"

-- Three attempts at most, with two waits between them.
silence_is_asked_three_times : (request_with_retries silent get new_client).1.slept ≡ 10
unfolding request_with_retries send
silence_is_asked_three_times = refl

request_with_retries-Settles_example :
    (k : ℕ) × Settles silent get 2 k new_client (request_with_retries silent get new_client)
request_with_retries-Settles_example = request_with_retries-Settles silent get new_client

abbrev failures_in_a_row : List Event
failures_in_a_row = failed 5 ∷ failed 3 ∷ succeeded ∷ failed 1 ∷ []

before_call_refines_example : (before_call breaker 10 (after breaker failures_in_a_row)).0 ≡ true
unfolding threshold
before_call_refines_example =
    before_call_refines breaker 10 failures_in_a_row (omega arith, (omega arith, (omega arith, tt)))

abbrev tripped : Client
tripped = record new_client { circuit = after breaker failures_in_a_row; clock_reads = 1 }

status_payload : Dict Json
status_payload =
    status_body daraja "ws_1" "daraja_initiator_name" "daraja_security_credential"
      "daraja_sandbox_shortcode" "daraja_transaction_status_result_url"
      "daraja_transaction_status_timeout_url"

settings_in_place :
    (s : Client) → transaction_status_payload daraja "ws_1" s ≡ (returned status_payload, s)
unfolding transaction_status_payload concat status_payload
settings_in_place s = refl

still_waiting : refuses breaker 10 failures_in_a_row ≡ true
unfolding threshold
still_waiting = refl

calls_refused_example :
    let (pushed, t) = initiate_stk_push daraja payment tripped in
    let (queried, u) = check_transaction_status daraja "ws_1" tripped in
    ((pushed ≡ raised circuit_breaker_open) × (t.requests ≡ []))
    × (queried
        ≡ returned (
            failed_transaction_status_response "ws_1" "Daraja provider circuit breaker is open."
              "provider_unavailable"))
    × (u.requests ≡ [])
calls_refused_example =
    calls_refused daraja failures_in_a_row tripped refl
      (omega arith, (omega arith, (omega arith, tt))) still_waiting payment "ws_1" status_payload
      (settings_in_place tripped)

check_transaction_status-Answers_example :
    let (outcome, t) = check_transaction_status daraja "ws_1" new_client in
    Answers daraja "ws_1" outcome t.requests
check_transaction_status-Answers_example =
    check_transaction_status-Answers daraja "ws_1" new_client status_payload
      (settings_in_place new_client)

initiate_stk_push-PushedOnce_example :
    PushedOnce daraja payment [] (initiate_stk_push daraja payment new_client).1.requests
initiate_stk_push-PushedOnce_example = initiate_stk_push-PushedOnce daraja payment new_client

-- A token, and the push.
two_requests : length (initiate_stk_push daraja payment new_client).1.requests ≡ 2
unfolding initiate_stk_push before_call request_with_retries send client_base_url concat lookup
two_requests = refl

over_daraja : World
over_daraja =
    (Service.initiate_stk_push
      (record Samples.env { payment_provider = daraja_payment_provider daraja }) Samples.settings
      (Samples.push 500) start).1

initiate_stk_push_over_daraja_example :
    let env = record Samples.env { payment_provider = daraja_payment_provider daraja } in
    let v = (Service.initiate_stk_push env Samples.settings (Samples.push 500) start).1 in
    (requests_after daraja v.provider_calls ≡ requests_after daraja [])
    ⊎ ((within : IsWithinLimit env Samples.settings (some (pos 500)) (some "254700000000"))
        × PushedOnce daraja
            (request_of (Samples.push 500) within.1 within.0)
            (requests_after daraja [])
            (requests_after daraja v.provider_calls))
initiate_stk_push_over_daraja_example =
    initiate_stk_push_over_daraja daraja Samples.env Samples.settings (Samples.push 500) start
