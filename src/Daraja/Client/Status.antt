-- ===== src/Daraja/Client/Status.antt =====
-- `check_transaction_status` of `RealDarajaClient` in app/daraja/client.py.
pub mod Laws
use mpesa_mcp_server.Common.{
  String, Bool, true, false, not, ◌&&◌, ◌||◌, Option, none, some, [], ◌∷◌, ◌==◌, if◌then◌else◌, eqb,
}
use mpesa_mcp_server.Common.Int.{ℤ, pos, eqb_ℤ}
use mpesa_mcp_server.Common.Dict.{Dict, lookup}
use mpesa_mcp_server.Common.Json.{
  Json, Float, finite, Items, Fields, null, bool, int, float, str, list, dict,
}
use mpesa_mcp_server.Common.Text.{concat}
use mpesa_mcp_server.Callbacks.Payload.{to_str}
use mpesa_mcp_server.Daraja.Calls.{
  Surroundings, Call, ClientError, HttpRequest, http_status_error, timeout_exception,
  connect_exception, http_exception, circuit_breaker_open, provider_error, value_error,
  attribute_error, Outcome, returned, raised, Client, pure, raise, ◌>>=◌, ◌>>◌,
}
use mpesa_mcp_server.Daraja.Retries.{request_with_retries}
use mpesa_mcp_server.Daraja.Client.{
  raise_for_status, json_of, dict_of, error_category_for_status, safe_raw_response, check_circuit,
  note_success, note_failure, get_oauth_token, http_error_description,
}
use mpesa_mcp_server.Daraja.Credentials.{required_credential, required_setting, client_base_url}

pub record TransactionStatusResponse : Type 0 where
  pub checkout_request_id : String
  pub provider_transaction_id : Option String
  pub provider_reference : Option String
  pub result_code : String
  pub result_description : String
  pub status : String
  pub error_category : Option String
  pub raw_response : Option (Dict Json)

-- `_failed_transaction_status_response`
abbrev pub failed_transaction_status_response : String → String → String → TransactionStatusResponse
failed_transaction_status_response checkout_request_id reason error_category = record {
  checkout_request_id = checkout_request_id;
  provider_transaction_id = some checkout_request_id;
  provider_reference = some checkout_request_id;
  result_code = "FAILED";
  result_description = reason;
  status = "failed";
  error_category = some error_category;
  raw_response = none;
}

-- Whether a value counts in `a or b`; the float zeros are written "0.0" and "-0.0".
abbrev pub is_truthy : Json → Bool
is_truthy null = false
is_truthy (bool b) = b
is_truthy (int n) = not (eqb_ℤ n (pos 0))
is_truthy (float (finite n text)) = not (text == "0.0" || text == "-0.0")
is_truthy (float x) = true
is_truthy (str s) = not (s == "")
is_truthy (list Items.nil) = false
is_truthy (list (Items.cons v vs)) = true
is_truthy (dict Fields.end) = false
is_truthy (dict (Fields.field k v fields)) = true

-- `value or other`, of an entry that may be absent
abbrev pub or_value : Option Json → Json → Json
or_value none other = other
or_value (some v) other = if is_truthy v then v else other

module _ (env : Surroundings) where
  abbrev pub code_of : Option Json → String
  code_of none = ""
  code_of (some v) = to_str env.builtins v

  abbrev pub status_body : String → String → String → String → String → String → Dict Json
  status_body id initiator credential shortcode result_url timeout_url =
      ("Initiator", str initiator)
      ∷ ("SecurityCredential", str credential)
      ∷ ("CommandID", str "TransactionStatusQuery")
      ∷ ("TransactionID", str id)
      ∷ ("PartyA", str shortcode)
      ∷ ("IdentifierType", int env.settings.daraja_identifier_type)
      ∷ ("ResultURL", str result_url)
      ∷ ("QueueTimeOutURL", str timeout_url)
      ∷ ("Remarks", str env.settings.daraja_transaction_status_remarks)
      ∷ ("Occasion", str env.settings.daraja_transaction_status_occasion)
      ∷ []

  -- `_transaction_status_payload`
  unfoldable pub transaction_status_payload : String → Call (Dict Json)
  unfolding required_credential required_setting
  transaction_status_payload id = do
    initiator ← required_setting env "daraja_initiator_name"
    credential ← required_setting env "daraja_security_credential"
    shortcode ← required_credential env "shortcode"
    result_url ← required_setting env "daraja_transaction_status_result_url"
    timeout_url ← required_setting env "daraja_transaction_status_timeout_url"
    pure (status_body id initiator credential shortcode result_url timeout_url)

  abbrev pub status_request : String → Dict Json → HttpRequest
  status_request token payload = record {
    method = "POST";
    url = concat (client_base_url env ∷ "/mpesa/transactionstatus/v1/query" ∷ []);
    headers = ("Authorization", concat ("Bearer " ∷ token ∷ [])) ∷ [];
    params = [];
    auth = none;
    json = payload;
  }

  -- The body of the `try`.
  unfoldable pub query_status : Dict Json → Call Json
  unfolding check_circuit get_oauth_token note_success
  query_status payload = do
    check_circuit env
    token ← get_oauth_token env
    response ← request_with_retries env (status_request token payload)
    raise_for_status response
    document ← json_of response
    note_success env
    pure document

  -- The handlers.
  unfoldable pub fail_status : String → ClientError → Call TransactionStatusResponse
  unfolding note_failure http_error_description
  fail_status id (http_status_error r) = do
    note_failure env
    description ← http_error_description env r
    pure (
        failed_transaction_status_response id description (error_category_for_status r.status_code))
  fail_status id circuit_breaker_open = pure (
      failed_transaction_status_response id "Daraja provider circuit breaker is open."
        "provider_unavailable")
  fail_status id (timeout_exception text) = do
    note_failure env
    pure (
        failed_transaction_status_response id
          (concat ("Daraja transaction status request timed out: " ∷ text ∷ [])) "timeout")
  fail_status id (connect_exception text) = do
    note_failure env
    pure (
        failed_transaction_status_response id
          (concat ("Daraja transaction status request failed: " ∷ text ∷ []))
          "provider_unavailable")
  fail_status id (http_exception text) = do
    note_failure env
    pure (
        failed_transaction_status_response id
          (concat ("Daraja transaction status request failed: " ∷ text ∷ []))
          "provider_unavailable")
  fail_status id (value_error text) = do
    note_failure env
    pure (
        failed_transaction_status_response id
          "Daraja transaction status response was not valid JSON." "unknown_error")
  fail_status id (provider_error message category) = raise (provider_error message category)
  fail_status id attribute_error = raise attribute_error

  abbrev pub description_of : Dict Json → String
  description_of payload = to_str env.builtins (
      or_value (lookup "ResponseDescription" payload)
        (or_value (lookup "errorMessage" payload) (str "Daraja transaction status query failed.")))

  abbrev pub status_response : String → Dict Json → TransactionStatusResponse
  status_response id payload =
      let code = code_of (lookup "ResponseCode" payload) in
      record {
        checkout_request_id = id;
        provider_transaction_id = some id;
        provider_reference = some id;
        result_code = code;
        result_description = description_of payload;
        status = if code == "0" then "query_accepted" else "failed";
        error_category = if code == "0" then none else some "unknown_error";
        raw_response = some (safe_raw_response payload);
      }

  -- What follows the `try`: a handler has answered, or there is a document to read.
  unfoldable pub read_status : String → Json → Call TransactionStatusResponse
  read_status id document = do payload ← dict_of document; pure (status_response id payload)

  abbrev pub or_fail : String → Outcome Json → Call TransactionStatusResponse
  or_fail id (returned document) = read_status id document
  or_fail id (raised e) = fail_status id e

  abbrev pub read_or_fail : String → Call Json → Call TransactionStatusResponse
  read_or_fail id query s = let (outcome, s') = query s in or_fail id outcome s'

  -- `check_transaction_status`
  unfoldable pub check_transaction_status : String → Call TransactionStatusResponse
  unfolding transaction_status_payload query_status read_status fail_status
  check_transaction_status id = do
    payload ← transaction_status_payload id
    read_or_fail id (query_status payload)
