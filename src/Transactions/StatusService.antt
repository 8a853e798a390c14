-- ===== src/Transactions/StatusService.antt =====
-- `TransactionService` of app/services/transaction_service.py. The local transaction is given as
-- its record, where the program gives the dict of its fields.
pub mod Laws
use mpesa_mcp_server.Common.{
  String, Bool, true, false, not, Option, none, some, List, [], ◌∷◌, ◌==◌, if◌then◌else◌,
}
use mpesa_mcp_server.Common.Int.{ℤ}
use mpesa_mcp_server.Common.Exec.{Exec, pure, gets, ◌>>=◌, ◌>>◌}
use mpesa_mcp_server.Common.Json.{Json, str, str_or_null}
use mpesa_mcp_server.Safety.Policy.{PaymentActionRequest, PolicyDecision, evaluate}
use mpesa_mcp_server.Storage.Records.{PendingTransaction}
use mpesa_mcp_server.Storage.Repository.{find_by_checkout_request_id}
use mpesa_mcp_server.Audit.Logger.{log_event}
use mpesa_mcp_server.Observability.Metrics.{Counter}
use mpesa_mcp_server.Payments.Providers.{PaymentStatusResponse}
use mpesa_mcp_server.World
use mpesa_mcp_server.World.{Env, World, increment}

pub record TransactionStatusServiceResponse : Type 0 where
  pub status : String
  pub allowed : Bool
  pub reason : String
  pub checkout_request_id : Option String
  pub provider : Option String
  pub rail : Option String
  pub provider_transaction_id : Option String
  pub provider_reference : Option String
  pub result_code : Option String
  pub result_description : Option String
  pub local_transaction : Option PendingTransaction
  pub errors : List String

-- A response that tells of no query.
abbrev pub status_refused : String → String → TransactionStatusServiceResponse
status_refused status reason = record {
  status = status;
  allowed = false;
  reason = reason;
  checkout_request_id = none;
  provider = none;
  rail = none;
  provider_transaction_id = none;
  provider_reference = none;
  result_code = none;
  result_description = none;
  local_transaction = none;
  errors = [];
}

abbrev pub status_told :
    PaymentStatusResponse → Option PendingTransaction → TransactionStatusServiceResponse
status_told response local_transaction = record {
  status = response.status;
  allowed = true;
  reason = response.result_description;
  checkout_request_id = some response.checkout_request_id;
  provider = some response.provider;
  rail = some response.rail;
  provider_transaction_id = response.provider_transaction_id;
  provider_reference = response.provider_reference;
  result_code = some response.result_code;
  result_description = some response.result_description;
  local_transaction = local_transaction;
  errors = [];
}

abbrev pub status_request : PaymentActionRequest
status_request = record {
  action = "check_transaction_status";
  amount = none;
  phone_number = none;
  recipient = none;
}

abbrev pub transaction_id_of : Option PendingTransaction → Option String
transaction_id_of none = none
transaction_id_of (some t) = some t.transaction_id

module _ (env : Env) (max_stk_amount : ℤ) where
  -- What follows the policy: the provider is asked, and the answer goes to the audit trail.
  unfoldable pub query_provider : String → Exec World TransactionStatusServiceResponse
  query_provider checkout_request_id = do
    local_transaction ← gets (find_by_checkout_request_id checkout_request_id)
    response ← World.check_transaction_status env checkout_request_id
    log_event env "transaction_status_checked"
        (("checkout_request_id", str checkout_request_id)
          ∷ ("status", str response.status)
          ∷ ("local_transaction_id", str_or_null (transaction_id_of local_transaction))
          ∷ [])
        none none none
    pure (status_told response local_transaction)

  unfoldable pub query_if_allowed :
      String → PolicyDecision → Exec World TransactionStatusServiceResponse
  unfolding query_provider
  query_if_allowed checkout_request_id decision =
      if not decision.allowed
      then pure (status_refused decision.status decision.reason)
      else query_provider checkout_request_id

  -- `check_transaction_status`
  unfoldable pub check_transaction_status : String → Exec World TransactionStatusServiceResponse
  unfolding query_if_allowed evaluate
  check_transaction_status checkout_request_id = do
    increment Counter.tool_call_count
    if checkout_request_id == ""
        then pure (status_refused "blocked" "Checkout request ID is required.")
        else query_if_allowed checkout_request_id (evaluate max_stk_amount status_request)
