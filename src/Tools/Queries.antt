-- ===== src/Tools/Queries.antt =====
-- The tools of app/mcp/tools.py that look things up, and the reconciliation.
use mpesa_mcp_server.Common.{ℕ, String, Bool, true, List, Option, [], ◌∷◌}
use mpesa_mcp_server.Common.Text.{concat}
use mpesa_mcp_server.Common.Exec.{Exec, ◌>>=◌, ok}
use mpesa_mcp_server.Storage.Records.{PendingTransaction}
use mpesa_mcp_server.Policy.ToolPolicy.{ToolPolicyEngine}
use mpesa_mcp_server.Payments.Records.{PaymentSettings}
use mpesa_mcp_server.Transactions.StatusService.{
  TransactionStatusServiceResponse, check_transaction_status,
}
use mpesa_mcp_server.Receipts.Service.{ReceiptServiceResponse, generate_receipt}
use mpesa_mcp_server.Analytics.Service.{
  DailyAnalyticsSummary, get_today_summary, get_failed_transactions,
}
use mpesa_mcp_server.Reconciliation.Service.{ReconciliationSummary, run_reconciliation}
use mpesa_mcp_server.Tools.Schemas.{
  McpToolResponse, InputData, Validators, validate, CheckTransactionStatusInput,
  CheckPaymentStatusInput, GenerateReceiptInput, GetTodaySummaryInput, GetFailedTransactionsInput,
  RunReconciliationInput, transaction, receipt, summary, transactions, reconciliation,
}
use mpesa_mcp_server.Tools.Checks.{
  RateLimiter, RateLimitSettings, Host, on_world, tool_answer, check_tool_policy, check_rate_limit,
  unless_refused, when_valid,
}
use mpesa_mcp_server.World.{Env}

abbrev pub transaction_answer : TransactionStatusServiceResponse → McpToolResponse
transaction_answer response =
    record (tool_answer response.status response.allowed response.reason) {
      tool_data = transaction response;
      errors = response.errors;
    }

abbrev pub receipt_answer : ReceiptServiceResponse → McpToolResponse
receipt_answer response = record (tool_answer response.status response.allowed response.reason) {
  tool_data = receipt response;
}

abbrev pub reconciliation_answer : ReconciliationSummary → McpToolResponse
reconciliation_answer found =
    record (tool_answer found.status true "Reconciliation completed successfully.") {
      tool_data = reconciliation found;
    }

abbrev pub summary_answer : DailyAnalyticsSummary → McpToolResponse
summary_answer found = record (tool_answer "ok" true "Today's summary retrieved successfully.") {
  tool_data = summary found;
}

abbrev pub failed_answer : List PendingTransaction → McpToolResponse
failed_answer found = record (tool_answer "ok" true "Failed transactions retrieved successfully.") {
  tool_data = transactions found;
}

module _ (limiter : RateLimiter) (env : Env) (settings : PaymentSettings) (validators : Validators)
    (tool_policy : Option ToolPolicyEngine) where
  module _ (has_limiter : Bool) (limits : RateLimitSettings) where
    unfoldable pub delegate_status : String → Exec (Host limiter) McpToolResponse
    delegate_status id = do
      response ← on_world limiter (check_transaction_status env settings.max_stk_amount id)
      λ h. (ok (transaction_answer response), h)

    unfoldable pub check_transaction_status_tool :
        InputData CheckTransactionStatusInput → Exec (Host limiter) McpToolResponse
    unfolding delegate_status
    check_transaction_status_tool input_data =
        unless_refused limiter (check_tool_policy "check_transaction_status" tool_policy) (
          when_valid limiter "Invalid check_transaction_status input."
            (validate validators.check_transaction_status input_data)
            (λ input. do
              refusal ←
                  check_rate_limit limiter has_limiter limits
                    (concat ("check_transaction_status:" ∷ input.checkout_request_id ∷ []))
              unless_refused limiter refusal (delegate_status input.checkout_request_id)))

    unfoldable pub check_payment_status_tool :
        InputData CheckPaymentStatusInput → Exec (Host limiter) McpToolResponse
    unfolding delegate_status
    check_payment_status_tool input_data =
        unless_refused limiter (check_tool_policy "check_payment_status" tool_policy) (
          when_valid limiter "Invalid check_payment_status input."
            (validate validators.check_payment_status input_data)
            (λ input. do
              refusal ←
                  check_rate_limit limiter has_limiter limits
                    (concat ("check_payment_status:" ∷ input.provider_transaction_id ∷ []))
              unless_refused limiter refusal (delegate_status input.provider_transaction_id)))

  unfoldable pub delegate_receipt : String → Exec (Host limiter) McpToolResponse
  delegate_receipt id = do
    response ← on_world limiter (generate_receipt env id)
    λ h. (ok (receipt_answer response), h)

  unfoldable pub generate_receipt_tool :
      InputData GenerateReceiptInput → Exec (Host limiter) McpToolResponse
  unfolding delegate_receipt
  generate_receipt_tool input_data =
      unless_refused limiter (check_tool_policy "generate_receipt" tool_policy) (
        when_valid limiter "Invalid generate_receipt input."
          (validate validators.generate_receipt input_data)
          (λ input. delegate_receipt input.checkout_request_id))

  -- `date` takes a time to the number of its day.
  unfoldable pub delegate_summary : (ℕ → ℕ) → Exec (Host limiter) McpToolResponse
  delegate_summary date = do
    found ← on_world limiter (get_today_summary env date)
    λ h. (ok (summary_answer found), h)

  unfoldable pub get_today_summary_tool :
      (ℕ → ℕ) → InputData GetTodaySummaryInput → Exec (Host limiter) McpToolResponse
  unfolding delegate_summary
  get_today_summary_tool date input_data =
      unless_refused limiter (check_tool_policy "get_today_summary" tool_policy) (
        when_valid limiter "Invalid get_today_summary input."
          (validate validators.get_today_summary input_data) (λ input. delegate_summary date))

  unfoldable pub delegate_failed : Exec (Host limiter) McpToolResponse
  delegate_failed = do
    found ← on_world limiter get_failed_transactions
    λ h. (ok (failed_answer found), h)

  unfoldable pub get_failed_transactions_tool :
      InputData GetFailedTransactionsInput → Exec (Host limiter) McpToolResponse
  unfolding delegate_failed
  get_failed_transactions_tool input_data =
      unless_refused limiter (check_tool_policy "get_failed_transactions" tool_policy) (
        when_valid limiter "Invalid get_failed_transactions input."
          (validate validators.get_failed_transactions input_data) (λ input. delegate_failed))

  -- The service is made with the minutes after which a pending transaction is stale.
  unfoldable pub delegate_reconciliation : ℕ → Exec (Host limiter) McpToolResponse
  delegate_reconciliation stale_pending_minutes = do
    found ← on_world limiter (run_reconciliation env stale_pending_minutes)
    λ h. (ok (reconciliation_answer found), h)

  unfoldable pub run_reconciliation_tool :
      ℕ → InputData RunReconciliationInput → Exec (Host limiter) McpToolResponse
  unfolding delegate_reconciliation
  run_reconciliation_tool stale_pending_minutes input_data =
      unless_refused limiter (check_tool_policy "run_reconciliation" tool_policy) (
        when_valid limiter "Invalid run_reconciliation input."
          (validate validators.run_reconciliation input_data)
          (λ input. delegate_reconciliation stale_pending_minutes))
