-- ===== src/Tools/Safety.antt =====
-- What the checks of app/mcp/tools.py keep from the services, and what the handlers of
-- app/mcp/server.py do to the shared state.
use mpesa_mcp_server.Common.{String, false, ◌≡◌, some}
use mpesa_mcp_server.Common.Exec.{Exec, ok}
use mpesa_mcp_server.Policy.ToolPolicy.{ToolPolicyEngine, evaluate}
use mpesa_mcp_server.Tools.Schemas.{McpToolResponse}
use mpesa_mcp_server.Tools.Checks.{RateLimiter, Host, check_tool_policy, denied, unless_refused}
use mpesa_mcp_server.Tools.Payments.{
  initiate_stk_push_tool, initiate_payment_tool, approve_payment_request_tool,
  reject_payment_request_tool,
}
use mpesa_mcp_server.Tools.Queries.{
  check_transaction_status_tool, check_payment_status_tool, generate_receipt_tool,
  get_today_summary_tool, get_failed_transactions_tool, run_reconciliation_tool,
}
use mpesa_mcp_server.Tools.Handlers.{ToolCall, tool_name, Container, handle}
use mpesa_mcp_server.World.{Env}

module _ (limiter : RateLimiter) where
  refused_by_policy :
      (tool : String) (policy : ToolPolicyEngine) (call : Exec (Host limiter) McpToolResponse)
      (h : Host limiter)
      → (evaluate policy tool).allowed ≡ false
      → unless_refused limiter (check_tool_policy tool (some policy)) call h
        ≡ (ok (denied (evaluate policy tool)), h)
  unfolding check_tool_policy
  refused_by_policy tool policy call h no_right = rw no_right

  -- A tool that the policy does not allow answers with the policy's decision and changes nothing:
  -- no store, no audit trail, no counter and not the limiter.
  pub handle-denied :
      (env : Env) (container : Container) (call : ToolCall) (h : Host limiter)
      → (evaluate container.tool_policy (tool_name call)).allowed ≡ false
      → handle limiter env container call h
        ≡ (ok (denied (evaluate container.tool_policy (tool_name call))), h)
  unfolding handle initiate_stk_push_tool initiate_payment_tool approve_payment_request_tool
      reject_payment_request_tool check_transaction_status_tool check_payment_status_tool
      generate_receipt_tool get_today_summary_tool get_failed_transactions_tool
      run_reconciliation_tool
  handle-denied env container (ToolCall.initiate_stk_push p n a d k) h no_right =
      refused_by_policy _ _ _ h no_right
  handle-denied env container (ToolCall.initiate_payment p n a d k) h no_right =
      refused_by_policy _ _ _ h no_right
  handle-denied env container (ToolCall.check_transaction_status id) h no_right =
      refused_by_policy _ _ _ h no_right
  handle-denied env container (ToolCall.check_payment_status id) h no_right =
      refused_by_policy _ _ _ h no_right
  handle-denied env container (ToolCall.generate_receipt id) h no_right =
      refused_by_policy _ _ _ h no_right
  handle-denied env container ToolCall.get_today_summary h no_right =
      refused_by_policy _ _ _ h no_right
  handle-denied env container ToolCall.get_failed_transactions h no_right =
      refused_by_policy _ _ _ h no_right
  handle-denied env container (ToolCall.approve_payment_request id) h no_right =
      refused_by_policy _ _ _ h no_right
  handle-denied env container (ToolCall.reject_payment_request id) h no_right =
      refused_by_policy _ _ _ h no_right
  handle-denied env container ToolCall.run_reconciliation h no_right =
      refused_by_policy _ _ _ h no_right
