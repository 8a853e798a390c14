-- ===== src/Callbacks/Handler.antt =====
-- `StkCallbackHandler` of app/callbacks/handlers.py.
pub mod Effects
pub mod Settlement
use mpesa_mcp_server.Callbacks.Results.{
  CallbackProcessingResult, dump, refusal, transaction_id_of, status_of, amount_differs,
  transition_reason,
}
use mpesa_mcp_server.Common.{
  String, Bool, true, false, not, Option, none, some, List, [], ◌∷◌, ◌++◌, ◌==◌, if◌then◌else◌,
}
use mpesa_mcp_server.Common.Int.{ℤ, pos, eqb_ℤ}
use mpesa_mcp_server.Common.Dict.{Dict}
use mpesa_mcp_server.Common.Exec.{
  Exec, Result, Error, ok, err, transition_error, infrastructure_unavailable, exception, pure,
  raise, lift, gets, ◌>>=◌, ◌>>◌,
}
use mpesa_mcp_server.Common.Json.{Json, str, bool, str_field, int_field}
use mpesa_mcp_server.Common.Text.{concat}
use mpesa_mcp_server.Transactions.StateMachine.{validate_transition}
use mpesa_mcp_server.Storage.Records.{PendingTransaction, StatusUpdate}
use mpesa_mcp_server.Storage.Repository.{find_by_checkout_request_id, update_transaction_status}
use mpesa_mcp_server.Audit.Logger.{log_event}
use mpesa_mcp_server.Observability.Metrics.{Counter}
use mpesa_mcp_server.Callbacks.Payload.{
  Builtins, extract_callback, extract_metadata, get_string, get_int, has_success_metadata,
  normalize_phone_number,
}
use mpesa_mcp_server.World.{Env, World, increment}

module _ (env : Env) (builtins : Builtins) where
  abbrev pub phone_differs : Option String → String → Bool
  phone_differs none expected = false
  phone_differs (some phone_number) expected =
      not (normalize_phone_number builtins phone_number == normalize_phone_number builtins expected)

  unfoldable pub log_result :
      String → Option String → CallbackProcessingResult → Exec World CallbackProcessingResult
  log_result event_type actor r = do log_event env event_type (dump r) actor none none; pure r

  -- `_invalid_payload_result`
  unfoldable pub invalid_payload_result : Option String → Exec World CallbackProcessingResult
  unfolding log_result
  invalid_payload_result checkout_request_id =
      log_result "stk_callback_invalid_payload" (some "mpesa_callback")
        (refusal "invalid_callback" "Malformed callback payload." checkout_request_id)

  -- `_unknown_transaction_result`
  unfoldable pub unknown_transaction_result : String → Exec World CallbackProcessingResult
  unfolding log_result
  unknown_transaction_result checkout_request_id =
      log_result "stk_callback_unknown_transaction" (some "mpesa_callback") (
        refusal "unknown_transaction" "Callback does not match a known transaction."
          (some checkout_request_id))

  module _ (callback : Dict Json) (id : String) (code : ℤ) (description : String) where
    -- `_mismatch_result`
    unfoldable pub mismatch_result :
        String
        → String
        → String
        → Option ℤ
        → Option String
        → String
        → Exec World CallbackProcessingResult
    unfolding log_result
    mismatch_result event_type status reason amount phone_number transaction_id =
        log_result event_type (some "mpesa_callback") (record (refusal status reason (some id)) {
          result_code = some code;
          result_description = some description;
          amount = amount;
          phone_number = phone_number;
          transaction_id = some transaction_id;
        })

    -- `_invalid_transition_result`
    unfoldable pub invalid_transition_result :
        String → String → Dict Json → Exec World CallbackProcessingResult
    unfolding log_result
    invalid_transition_result from_status to_status metadata = do
      amount ← lift (get_int builtins metadata "Amount")
      log_result "stk_callback_invalid_transition" none
          (record (refusal "invalid_transition" (transition_reason from_status to_status)
            (some id)) {
              result_code = some code;
              result_description = some description;
              mpesa_receipt_number = get_string builtins metadata "MpesaReceiptNumber";
              phone_number = get_string builtins metadata "PhoneNumber";
              amount = amount;
            })

    -- What `except TransactionStateTransitionError` does with an error.
    unfoldable pub recover : Dict Json → Error → Exec World CallbackProcessingResult
    unfolding invalid_transition_result
    recover metadata (transition_error from_status to_status) =
        invalid_transition_result from_status to_status metadata
    recover metadata (infrastructure_unavailable reason) = raise (infrastructure_unavailable reason)
    recover metadata (exception text) = raise (exception text)

    -- The update's outcome, told and logged.
    unfoldable pub finish :
        Dict Json → Result (Option PendingTransaction) → Exec World CallbackProcessingResult
    unfolding recover log_result
    finish metadata (err e) = recover metadata e
    finish metadata (ok updated_transaction) = do
      amount ← lift (get_int builtins metadata "Amount")
      log_result "stk_callback_processed" none (record {
        status = status_of code;
        success = eqb_ℤ code (pos 0);
        reason = description;
        checkout_request_id = some id;
        result_code = some code;
        result_description = some description;
        mpesa_receipt_number = get_string builtins metadata "MpesaReceiptNumber";
        phone_number = get_string builtins metadata "PhoneNumber";
        amount = amount;
        transaction_id = transaction_id_of updated_transaction;
      })

    abbrev pub status_update : Dict Json → StatusUpdate
    status_update metadata = record {
      checkout_request_id = id;
      status = status_of code;
      result_code = code;
      result_description = description;
      mpesa_receipt_number = get_string builtins metadata "MpesaReceiptNumber";
    }

    -- The update itself, after all the tests.
    unfoldable pub apply_update : Dict Json → Exec World CallbackProcessingResult
    unfolding finish
    apply_update metadata w =
        let (result, w') = update_transaction_status env (status_update metadata) w in
        finish metadata result w'

    -- The tests of the amount and of the phone number, in this order.
    unfoldable pub match_amount :
        Dict Json → PendingTransaction → Option ℤ → Exec World CallbackProcessingResult
    unfolding mismatch_result apply_update
    match_amount metadata t amount =
        let phone_number = get_string builtins metadata "PhoneNumber" in
        if amount_differs amount t.amount
        then mismatch_result "stk_callback_amount_mismatch" "amount_mismatch"
            "Callback amount does not match expected transaction amount." amount none
            t.transaction_id
        else if phone_differs phone_number t.phone_number
        then mismatch_result "stk_callback_phone_mismatch" "phone_mismatch"
            "Callback phone number does not match expected transaction phone." none phone_number
            t.transaction_id
        else apply_update metadata

    unfoldable pub process_transition :
        Dict Json → PendingTransaction → Result (Unit {0}) → Exec World CallbackProcessingResult
    unfolding recover match_amount
    process_transition metadata t (err e) = recover metadata e
    process_transition metadata t (ok u) = do
      amount ← lift (get_int builtins metadata "Amount")
      match_amount metadata t amount

    unfoldable pub process_complete :
        Dict Json → PendingTransaction → Bool → Exec World CallbackProcessingResult
    unfolding invalid_payload_result process_transition
    process_complete metadata t complete =
        if not complete
        then invalid_payload_result (some id)
        else process_transition metadata t (validate_transition t.status (status_of code))

    -- `result_code != 0 or has_success_metadata(metadata)`
    abbrev pub is_complete : Dict Json → Result Bool
    is_complete metadata =
        if eqb_ℤ code (pos 0) then has_success_metadata builtins metadata else ok true

    unfoldable pub process_found : Option PendingTransaction → Exec World CallbackProcessingResult
    unfolding unknown_transaction_result process_complete
    process_found none = unknown_transaction_result id
    process_found (some t) =
        let metadata = extract_metadata callback in
        do complete ← lift (is_complete metadata); process_complete metadata t complete

  unfoldable pub process_fields :
      Dict Json → Option String → Option ℤ → Option String → Exec World CallbackProcessingResult
  unfolding invalid_payload_result process_found
  process_fields callback (some id) (some code) (some description) = do
    found ← gets (find_by_checkout_request_id id)
    process_found callback id code description found
  process_fields callback id code description = invalid_payload_result id

  unfoldable pub process_callback : Option (Dict Json) → Exec World CallbackProcessingResult
  unfolding invalid_payload_result process_fields
  process_callback none = invalid_payload_result none
  process_callback (some callback) = do
    result_code ← lift (get_int builtins callback "ResultCode")
    process_fields callback (get_string builtins callback "CheckoutRequestID") result_code
        (get_string builtins callback "ResultDesc")

  -- `process`
  unfoldable pub process : Dict Json → Exec World CallbackProcessingResult
  unfolding process_callback
  process payload = do
    increment Counter.callback_received_count
    process_callback (extract_callback payload)
