-- ===== src/Payments/Records.antt =====
-- The responses of app/services/payment_service.py, and what its methods build from a request.
use mpesa_mcp_server.Common.{String, Bool, true, false, Option, none, some, [], ◌∷◌}
use mpesa_mcp_server.Common.Int.{ℤ}
use mpesa_mcp_server.Common.Dict.{Dict, lookup}
use mpesa_mcp_server.Common.Exec.{Error, transition_error, infrastructure_unavailable, exception}
use mpesa_mcp_server.Common.Json.{Json, str, int, as_int, as_str}
use mpesa_mcp_server.Common.Text.{concat, join, show_ℤ}
use mpesa_mcp_server.Storage.Records.{PendingTransaction, NewTransaction}
use mpesa_mcp_server.Approvals.Models.{ApprovalRequest}
use mpesa_mcp_server.Approvals.Answers.{ApprovalSettings}
use mpesa_mcp_server.Payments.Providers.{PaymentRequest, PaymentInitiationResponse}

pub record PaymentResponse : Type 0 where
  pub status : String
  pub allowed : Bool
  pub reason : String
  pub requires_approval : Bool
  pub approval_id : Option String
  pub transaction_id : Option String
  pub checkout_request_id : Option String
  pub merchant_request_id : Option String
  pub idempotency_key : Option String
  pub response_code : Option String
  pub response_description : Option String

pub record ApprovalExecutionResponse : Type 0 where
  pub status : String
  pub allowed : Bool
  pub reason : String
  pub approval : Option ApprovalRequest
  pub payment : Option PaymentResponse

-- The keyword arguments of `initiate_stk_push`.
pub record StkPush : Type 0 where
  pub phone_number : Option String
  pub amount : Option ℤ
  pub account_reference : String
  pub description : String
  pub idempotency_key : Option String

-- The limit of the policy, and the settings of the approval service.
pub record PaymentSettings : Type 0 where
  pub max_stk_amount : ℤ
  pub approvals : ApprovalSettings

-- A response with the defaults of its optional fields.
abbrev pub plain_response : String → Bool → String → PaymentResponse
plain_response status allowed reason = record {
  status = status;
  allowed = allowed;
  reason = reason;
  requires_approval = false;
  approval_id = none;
  transaction_id = none;
  checkout_request_id = none;
  merchant_request_id = none;
  idempotency_key = none;
  response_code = none;
  response_description = none;
}

abbrev pub missing_response : PaymentResponse
missing_response = plain_response "blocked" false "STK push requires phone number and amount."

abbrev pub payment_request : String → ℤ → String → String → PaymentRequest
payment_request phone_number amount account_reference description = record {
  phone_number = phone_number;
  amount = amount;
  account_reference = account_reference;
  description = description;
}

-- The text that `_derive_idempotency_key` hashes.
unfoldable pub raw_key : PaymentRequest → String
raw_key r = join "|" (r.phone_number ∷ show_ℤ r.amount ∷ r.account_reference ∷ r.description ∷ [])

-- `_response_from_existing_transaction`
abbrev pub response_from_existing_transaction : PendingTransaction → PaymentResponse
response_from_existing_transaction t =
    record (plain_response t.status true "Existing transaction returned for idempotency key.") {
      transaction_id = some t.transaction_id;
      checkout_request_id = some t.checkout_request_id;
      merchant_request_id = some t.merchant_request_id;
      idempotency_key = t.idempotency_key;
    }

-- `str(exc)`
abbrev pub error_text : Error → String
error_text (transition_error from_status to_status) =
    concat ("Invalid transaction state transition: " ∷ from_status ∷ " -> " ∷ to_status ∷ "." ∷ [])
error_text (infrastructure_unavailable reason) = reason
error_text (exception text) = text

abbrev pub failed_response : Error → PaymentResponse
failed_response exc =
    plain_response "failed" false
      (concat ("Payment provider initiation failed: " ∷ error_text exc ∷ []))

abbrev pub new_transaction : PaymentRequest → String → PaymentInitiationResponse → NewTransaction
new_transaction r key response = record {
  phone_number = r.phone_number;
  amount = r.amount;
  account_reference = r.account_reference;
  description = r.description;
  checkout_request_id = response.checkout_request_id;
  merchant_request_id = response.merchant_request_id;
  idempotency_key = some key;
  provider = response.provider;
  rail = response.rail;
  provider_transaction_id = response.provider_transaction_id;
  provider_reference = response.provider_reference;
}

abbrev pub approval_payload : PaymentRequest → String → Dict Json
approval_payload r key =
    ("phone_number", str r.phone_number)
    ∷ ("amount", int r.amount)
    ∷ ("account_reference", str r.account_reference)
    ∷ ("description", str r.description)
    ∷ ("idempotency_key", str key)
    ∷ []

abbrev pub str_or_none : Option String → Json
str_or_none none = Json.null
str_or_none (some s) = str s

abbrev pub success_payload : PendingTransaction → PaymentInitiationResponse → Dict Json
success_payload t response =
    ("transaction_id", str t.transaction_id)
    ∷ ("amount", int t.amount)
    ∷ ("phone_number", str t.phone_number)
    ∷ ("idempotency_key", str_or_none t.idempotency_key)
    ∷ ("checkout_request_id", str response.checkout_request_id)
    ∷ ("merchant_request_id", str response.merchant_request_id)
    ∷ []

abbrev pub pending_response :
    PendingTransaction → PaymentInitiationResponse → String → PaymentResponse
pending_response t response key =
    record (plain_response "pending" true "STK push initiated successfully.") {
      transaction_id = some t.transaction_id;
      checkout_request_id = some response.checkout_request_id;
      merchant_request_id = some response.merchant_request_id;
      idempotency_key = some key;
      response_code = some response.response_code;
      response_description = some response.response_description;
    }

-- `isinstance(payload.get(name), str)`
abbrev pub str_entry : Option Json → Option String
str_entry none = none
str_entry (some v) = as_str v

abbrev pub int_entry : Option Json → Option ℤ
int_entry none = none
int_entry (some v) = as_int v

abbrev pub all_there :
    Option String
    → Option ℤ
    → Option String
    → Option String
    → Option String
    → Option (PaymentRequest × String)
all_there (some p) (some n) (some a) (some d) (some k) = some (payment_request p n a d, k)
all_there _ _ _ _ _ = none

-- The request and the key in an approval's payload, if all five entries have their types.
unfoldable pub executable : Dict Json → Option (PaymentRequest × String)
executable payload =
    all_there (str_entry (lookup "phone_number" payload)) (int_entry (lookup "amount" payload))
      (str_entry (lookup "account_reference" payload)) (str_entry (lookup "description" payload))
      (str_entry (lookup "idempotency_key" payload))
