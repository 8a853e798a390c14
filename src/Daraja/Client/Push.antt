-- ===== src/Daraja/Client/Push.antt =====
-- `initiate_stk_push` of `RealDarajaClient` in app/daraja/client.py.
pub mod Laws
use mpesa_mcp_server.Common.{
  String, Bool, true, false, Option, none, some, [], ◌∷◌, ◌==◌, if◌then◌else◌,
}
use mpesa_mcp_server.Common.Dict.{Dict, lookup}
use mpesa_mcp_server.Common.Json.{Json, str, int}
use mpesa_mcp_server.Common.Text.{concat}
use mpesa_mcp_server.Callbacks.Payload.{to_str}
use mpesa_mcp_server.Payments.Providers.{PaymentRequest}
use mpesa_mcp_server.Daraja.Calls.{
  Surroundings, Call, ClientError, HttpRequest, HttpResponse, HttpAnswer, response, timeout,
  connect_error, http_error, http_status_error, timeout_exception, connect_exception,
  http_exception, circuit_breaker_open, provider_error, value_error, attribute_error, pure, raise,
  try, send, timestamp, ◌>>=◌, ◌>>◌,
}
use mpesa_mcp_server.Daraja.Client.{
  raise_for_status, json_of, dict_of, error_category_for_status, safe_raw_response, check_circuit,
  note_success, note_failure, get_oauth_token, http_error_description,
}
use mpesa_mcp_server.Daraja.Credentials.{required_credential, client_base_url}

pub record StkPushResponse : Type 0 where
  pub checkout_request_id : String
  pub merchant_request_id : String
  pub provider_transaction_id : Option String
  pub provider_reference : Option String
  pub response_code : String
  pub response_description : String
  pub status : String
  pub error_category : Option String
  pub raw_response : Option (Dict Json)

module _ (env : Surroundings) where
  abbrev pub str_or : String → Option Json → String
  str_or default none = default
  str_or default (some v) = to_str env.builtins v

  -- `str(payload.get(name, ""))`
  abbrev pub text_of : Dict Json → String → String
  text_of payload name = str_or "" (lookup name payload)

  -- The handlers of both requests: `timed_out` is the text of a timeout, `failed` starts that of
  -- another error of httpx.
  abbrev pub fail_push : {A : Type 0} → String → String → ClientError → Call A
  fail_push timed_out failed (http_status_error r) = do
    note_failure env
    description ← http_error_description env r
    raise (provider_error description (error_category_for_status r.status_code))
  fail_push timed_out failed (timeout_exception text) = do
    note_failure env
    raise (provider_error timed_out "timeout")
  fail_push timed_out failed (connect_exception text) = do
    note_failure env
    raise (provider_error (concat (failed ∷ text ∷ [])) "provider_unavailable")
  fail_push timed_out failed (http_exception text) = do
    note_failure env
    raise (provider_error (concat (failed ∷ text ∷ [])) "provider_unavailable")
  fail_push timed_out failed e = raise e

  -- The same with the handler of ValueError, which only the second request has.
  abbrev pub fail_post : ClientError → Call Json
  fail_post (value_error text) = do
    note_failure env
    raise (provider_error "Daraja STK push response was not valid JSON." "unknown_error")
  fail_post e = fail_push "Daraja STK push request timed out." "Daraja STK push request failed: " e

  -- `_build_stk_password`
  unfoldable pub build_stk_password : String → Call String
  unfolding required_credential
  build_stk_password timestamp = do
    shortcode ← required_credential env "shortcode"
    passkey ← required_credential env "passkey"
    pure (env.b64encode (concat (shortcode ∷ passkey ∷ timestamp ∷ [])))

  abbrev pub push_request :
      String → PaymentRequest → String → String → String → String → HttpRequest
  push_request token r shortcode password timestamp callback_url = record {
    method = "POST";
    url = concat (client_base_url env ∷ "/mpesa/stkpush/v1/processrequest" ∷ []);
    headers = ("Authorization", concat ("Bearer " ∷ token ∷ [])) ∷ [];
    params = [];
    auth = none;
    json =
        ("BusinessShortCode", str shortcode)
        ∷ ("Password", str password)
        ∷ ("Timestamp", str timestamp)
        ∷ ("TransactionType", str "CustomerPayBillOnline")
        ∷ ("Amount", int r.amount)
        ∷ ("PartyA", str r.phone_number)
        ∷ ("PartyB", str shortcode)
        ∷ ("PhoneNumber", str r.phone_number)
        ∷ ("CallBackURL", str callback_url)
        ∷ ("AccountReference", str r.account_reference)
        ∷ ("TransactionDesc", str r.description)
        ∷ [];
  }

  -- How `http_client.post` ends: it is not tried again.
  abbrev pub of_answer : HttpAnswer → Call HttpResponse
  of_answer (response r) = pure r
  of_answer (timeout text) = raise (timeout_exception text)
  of_answer (connect_error text) = raise (connect_exception text)
  of_answer (http_error text) = raise (http_exception text)

  -- The document that answers the push.
  unfoldable pub post_push : HttpRequest → Call Json
  unfolding send
  post_push request = do
    answer ← send env request
    answered ← of_answer answer
    raise_for_status answered
    json_of answered

  abbrev pub accepted_or : {A : Type 0} → String → A → A → A
  accepted_or code accepted refused = if code == "0" then accepted else refused

  abbrev pub push_response : Dict Json → StkPushResponse
  push_response payload = record {
    checkout_request_id = text_of payload "CheckoutRequestID";
    merchant_request_id = text_of payload "MerchantRequestID";
    provider_transaction_id = some (text_of payload "CheckoutRequestID");
    provider_reference = some (text_of payload "MerchantRequestID");
    response_code = text_of payload "ResponseCode";
    response_description = text_of payload "ResponseDescription";
    status = accepted_or (text_of payload "ResponseCode") "pending" "failed";
    error_category = accepted_or (text_of payload "ResponseCode") none (some "unknown_error");
    raw_response = some (safe_raw_response payload);
  }

  -- The token, with its handlers.
  unfoldable pub push_token : Call String
  unfolding get_oauth_token note_failure http_error_description
  push_token =
      try (get_oauth_token env)
        (fail_push "Daraja OAuth token request timed out." "Daraja OAuth token request failed: ")

  -- What is sent, once there is a token.
  unfoldable pub prepare_push : String → PaymentRequest → Call HttpRequest
  unfolding build_stk_password required_credential timestamp
  prepare_push token r = do
    timestamp ← timestamp env
    shortcode ← required_credential env "shortcode"
    password ← build_stk_password timestamp
    callback_url ← required_credential env "callback_url"
    pure (push_request token r shortcode password timestamp callback_url)

  -- The push itself, and what is read of its answer.
  unfoldable pub perform_push : HttpRequest → Call StkPushResponse
  unfolding post_push note_failure note_success http_error_description
  perform_push request = do
    document ← try (post_push request) fail_post
    note_success env
    payload ← dict_of document
    pure (push_response payload)

  -- `initiate_stk_push`
  unfoldable pub initiate_stk_push : PaymentRequest → Call StkPushResponse
  unfolding check_circuit push_token prepare_push perform_push
  initiate_stk_push r = do
    check_circuit env
    token ← push_token
    request ← prepare_push token r
    perform_push request
