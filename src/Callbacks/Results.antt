-- ===== src/Callbacks/Results.antt =====
-- The results of app/callbacks/handlers.py and the tests on what a callback tells.
use mpesa_mcp_server.Common.{
  String, Bool, false, not, Option, none, some, [], ◌∷◌, ◌++◌, if◌then◌else◌,
}
use mpesa_mcp_server.Common.Int.{ℤ, pos, eqb_ℤ}
use mpesa_mcp_server.Common.Dict.{Dict}
use mpesa_mcp_server.Common.Json.{Json, str, bool, str_field, int_field}
use mpesa_mcp_server.Common.Text.{concat}
use mpesa_mcp_server.Storage.Records.{PendingTransaction}

pub record CallbackProcessingResult : Type 0 where
  pub status : String
  pub success : Bool
  pub reason : String
  pub checkout_request_id : Option String
  pub result_code : Option ℤ
  pub result_description : Option String
  pub mpesa_receipt_number : Option String
  pub phone_number : Option String
  pub amount : Option ℤ
  pub transaction_id : Option String

-- `result.model_dump(exclude_none=True)`
abbrev pub dump : CallbackProcessingResult → Dict Json
dump r =
    ("status", str r.status)
      ∷ ("success", bool r.success)
      ∷ ("reason", str r.reason)
      ∷ str_field "checkout_request_id" r.checkout_request_id
    ++ int_field "result_code" r.result_code
    ++ str_field "result_description" r.result_description
    ++ str_field "mpesa_receipt_number" r.mpesa_receipt_number
    ++ str_field "phone_number" r.phone_number
    ++ int_field "amount" r.amount
    ++ str_field "transaction_id" r.transaction_id

-- A result that only names what was refused.
abbrev pub refusal : String → String → Option String → CallbackProcessingResult
refusal status reason checkout_request_id = record {
  status = status;
  success = false;
  reason = reason;
  checkout_request_id = checkout_request_id;
  result_code = none;
  result_description = none;
  mpesa_receipt_number = none;
  phone_number = none;
  amount = none;
  transaction_id = none;
}

-- `_transaction_id`
abbrev pub transaction_id_of : Option PendingTransaction → Option String
transaction_id_of none = none
transaction_id_of (some t) = some t.transaction_id

abbrev pub status_of : ℤ → String
status_of result_code = if eqb_ℤ result_code (pos 0) then "completed" else "failed"

-- `is not None and != expected`
abbrev pub amount_differs : Option ℤ → ℤ → Bool
amount_differs none expected = false
amount_differs (some n) expected = not (eqb_ℤ n expected)

-- `str(exc)` of a TransactionStateTransitionError
abbrev pub transition_reason : String → String → String
transition_reason from_status to_status =
    concat ("Invalid transaction state transition: " ∷ from_status ∷ " -> " ∷ to_status ∷ "." ∷ [])
