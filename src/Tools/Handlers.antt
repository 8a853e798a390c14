-- ===== src/Tools/Handlers.antt =====
-- `create_tool_handlers` of app/mcp/server.py: the tools with the container's services, limiter and
-- settings.
use mpesa_mcp_server.Common.{ℕ, String, Bool, true, Option, some, [], ◌∷◌}
use mpesa_mcp_server.Common.Int.{ℤ}
use mpesa_mcp_server.Common.Dict.{Dict}
use mpesa_mcp_server.Common.Json.{Json, str, int, str_or_null}
use mpesa_mcp_server.Common.Exec.{Exec}
use mpesa_mcp_server.Payments.Records.{PaymentSettings}
use mpesa_mcp_server.Policy.ToolPolicy.{ToolPolicyEngine}
use mpesa_mcp_server.Tools.Schemas.{McpToolResponse, Validators, raw}
use mpesa_mcp_server.Tools.Checks.{RateLimiter, RateLimitSettings, Host}
use mpesa_mcp_server.Tools.Payments.{
  initiate_stk_push_tool, initiate_payment_tool, approve_payment_request_tool,
  reject_payment_request_tool,
}
use mpesa_mcp_server.Tools.Queries.{
  check_transaction_status_tool, check_payment_status_tool, generate_receipt_tool,
  get_today_summary_tool, get_failed_transactions_tool, run_reconciliation_tool,
}
use mpesa_mcp_server.World.{Env}

-- A call of a tool, with the arguments of its handler.
pub data ToolCall : Type 0 where
  initiate_stk_push initiate_payment : String → ℤ → String → String → Option String → ToolCall
  check_transaction_status check_payment_status generate_receipt : String → ToolCall
  get_today_summary get_failed_transactions run_reconciliation : ToolCall
  approve_payment_request reject_payment_request : String → ToolCall

-- The name under which a handler is registered.
abbrev pub tool_name : ToolCall → String
tool_name (initiate_stk_push p n a d k) = "initiate_stk_push"
tool_name (initiate_payment p n a d k) = "initiate_payment"
tool_name (check_transaction_status id) = "check_transaction_status"
tool_name (check_payment_status id) = "check_payment_status"
tool_name (generate_receipt id) = "generate_receipt"
tool_name get_today_summary = "get_today_summary"
tool_name get_failed_transactions = "get_failed_transactions"
tool_name (approve_payment_request id) = "approve_payment_request"
tool_name (reject_payment_request id) = "reject_payment_request"
tool_name run_reconciliation = "run_reconciliation"

-- What the handlers take from the container; `date` takes a time to the number of its day.
pub record Container : Type 0 where
  pub payments : PaymentSettings
  pub validators : Validators
  pub tool_policy : ToolPolicyEngine
  pub date : ℕ → ℕ
  pub reconciliation_stale_pending_minutes : ℕ
  pub rate_limit_enabled : Bool
  pub rate_limit_window_seconds : ℕ
  pub rate_limit_max_stk_push : ℕ
  pub rate_limit_max_approval_actions : ℕ
  pub rate_limit_max_status_checks : ℕ

abbrev pub limits_of : Container → ℕ → RateLimitSettings
limits_of container max_requests = record {
  enabled = container.rate_limit_enabled;
  window_seconds = container.rate_limit_window_seconds;
  max_requests = max_requests;
}

abbrev pub payment_fields : String → ℤ → String → String → Option String → Dict Json
payment_fields phone_number amount account_reference description idempotency_key =
    ("phone_number", str phone_number)
    ∷ ("amount", int amount)
    ∷ ("account_reference", str account_reference)
    ∷ ("description", str description)
    ∷ ("idempotency_key", str_or_null idempotency_key)
    ∷ []

module _ (limiter : RateLimiter) (env : Env) (container : Container) where
  -- The handler of a tool.
  unfoldable pub handle : ToolCall → Exec (Host limiter) McpToolResponse
  handle (initiate_stk_push p n a d k) =
      initiate_stk_push_tool limiter env container.payments container.validators
        (some container.tool_policy) true (limits_of container container.rate_limit_max_stk_push)
        (raw (payment_fields p n a d k))
  handle (initiate_payment p n a d k) =
      initiate_payment_tool limiter env container.payments container.validators
        (some container.tool_policy) true (limits_of container container.rate_limit_max_stk_push)
        (raw (payment_fields p n a d k))
  handle (check_transaction_status id) =
      check_transaction_status_tool limiter env container.payments container.validators
        (some container.tool_policy) true
        (limits_of container container.rate_limit_max_status_checks)
        (raw (("checkout_request_id", str id) ∷ []))
  handle (check_payment_status id) =
      check_payment_status_tool limiter env container.payments container.validators
        (some container.tool_policy) true
        (limits_of container container.rate_limit_max_status_checks)
        (raw (("provider_transaction_id", str id) ∷ []))
  handle (generate_receipt id) =
      generate_receipt_tool limiter env container.payments container.validators
        (some container.tool_policy) (raw (("checkout_request_id", str id) ∷ []))
  handle get_today_summary =
      get_today_summary_tool limiter env container.payments container.validators
        (some container.tool_policy) container.date (raw [])
  handle get_failed_transactions =
      get_failed_transactions_tool limiter env container.payments container.validators
        (some container.tool_policy) (raw [])
  handle (approve_payment_request id) =
      approve_payment_request_tool limiter env container.payments container.validators
        (some container.tool_policy) true
        (limits_of container container.rate_limit_max_approval_actions)
        (raw (("approval_id", str id) ∷ []))
  handle (reject_payment_request id) =
      reject_payment_request_tool limiter env container.payments container.validators
        (some container.tool_policy) true
        (limits_of container container.rate_limit_max_approval_actions)
        (raw (("approval_id", str id) ∷ []))
  handle run_reconciliation =
      run_reconciliation_tool limiter env container.payments container.validators
        (some container.tool_policy) container.reconciliation_stale_pending_minutes (raw [])
