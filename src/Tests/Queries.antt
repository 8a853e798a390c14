-- ===== src/Tests/Queries.antt =====
-- Runs of the receipts, the reconciliation, the analytics and the policies.
use mpesa_mcp_server.Common.{
  suc, String, ◌≡◌, ◌↔◌, ◌⊎◌, refl, true, false, Option, none, some, List, [], ◌≤◌, ◌∷◌, ◌++◌,
  length, contains,
}
use mathlib.Core.List.{Perm}
use mpesa_mcp_server.Common.Int.{ℤ, pos, ◌≤ℤ◌, ◌<ℤ◌}
use mpesa_mcp_server.Common.Dict.{values}
use mpesa_mcp_server.Common.Exec.{ok}
use mpesa_mcp_server.World.{World}
use mpesa_mcp_server.Storage.Records.{PendingTransaction}
use mpesa_mcp_server.Storage.Repository.Recent.{list_recent_transactions_lem}
use mpesa_mcp_server.Common.Recent.{IsDescending}
use mpesa_mcp_server.Storage.Repository.{
  list_recent_transactions, find_by_checkout_request_id, pending_transaction,
}
use mpesa_mcp_server.Payments.Records.{new_transaction}
use mpesa_mcp_server.Payments.Providers.{PaymentStatusResponse}
use mpesa_mcp_server.Transactions.StateMachine.{can_transition}
use mpesa_mcp_server.Transactions.StateMachine.Laws.{IsTerminal, can_transition_iff}
use mpesa_mcp_server.Safety.Policy.{evaluate}
use mpesa_mcp_server.Safety.Policy.Laws.{stk_push, evaluate_allowed_iff}
use mpesa_mcp_server.Policy.ToolPolicy as Tools
use mpesa_mcp_server.Policy.ToolPolicy.{ToolPolicyEngine, engine, approval_flow_tools}
use mpesa_mcp_server.Policy.ToolPolicy.Laws.{evaluate_runs_iff}
use mpesa_mcp_server.Receipts.Generator.{Receipt, receipt_of}
use mpesa_mcp_server.Receipts.Service.{ReceiptServiceResponse, generate_receipt}
use mpesa_mcp_server.Receipts.Service.Laws.{IsReady, IsReceiptFor, generate_receipt_only}
use mpesa_mcp_server.Reconciliation.Service.{
  ReconciliationSummary, final_provider_statuses, mismatch_findings, run_reconciliation,
}
use mpesa_mcp_server.Reconciliation.Service.Counts.{counted}
use mpesa_mcp_server.Reconciliation.Service.Mismatch.{mismatch_findings_iff}
use mpesa_mcp_server.Reconciliation.Service.ReadOnly.{
  reconcilable, questions, run_reconciliation_reads, run_reconciliation_summary,
}
use mpesa_mcp_server.Tests.Samples.{env, accepted, queried}
use mpesa_mcp_server.Tests.Payments.{stored, payment, key}

abbrev pending_one : PendingTransaction
pending_one = pending_transaction (new_transaction (payment 500) key accepted) "-" 0 0

abbrev done : PendingTransaction
done = record pending_one { status = "completed"; mpesa_receipt_number = some "R1" }

abbrev settled : World
settled = record stored { transactions = ("-", done) ∷ [] }

done_there : find_by_checkout_request_id "ws_1" settled ≡ some done
unfolding find_by_checkout_request_id values
done_there = refl

abbrev receipt : Receipt
receipt = receipt_of done "R1" (env.new_id settled.ids_issued) (env.clock settled.clock_reads)

generate_receipt_only_example :
    (resp : ReceiptServiceResponse) × ((generate_receipt env "ws_1" settled).0 ≡ ok resp)
    × (((resp.receipt ≡ none) × ¬ IsReady env "ws_1" settled)
        ⊎ ((r : Receipt) × (resp.receipt ≡ some r) × IsReceiptFor env "ws_1" settled r))
generate_receipt_only_example = generate_receipt_only env "ws_1" settled

run_reconciliation_reads_example : (run_reconciliation env 30 settled).1 ≡ record settled {
  clock_reads = suc settled.clock_reads;
  provider_calls =
      settled.provider_calls ++ questions env 30 (reconcilable (values settled.transactions));
}
run_reconciliation_reads_example = run_reconciliation_reads env 30 settled

run_reconciliation_summary_example :
    (s : ReconciliationSummary) × ((run_reconciliation env 30 settled).0 ≡ ok s)
    × (s.checked_transactions ≡ length (reconcilable (values settled.transactions)))
    × (s.finding_count ≡ length s.findings)
    × (counted s ≡ s.finding_count)
run_reconciliation_summary_example = run_reconciliation_summary env 30 settled

mismatch_findings_iff_example : (mismatch_findings done (some queried) ≡ []) ↔ (
    (r : PaymentStatusResponse) × (some queried ≡ some r)
    × (contains final_provider_statuses r.status ≡ true)
    × (r.status ≡ done.status))
mismatch_findings_iff_example = mismatch_findings_iff done (some queried) refl

can_transition_iff_example :
    (can_transition "pending" "failed" ≡ true)
    ↔ ((◌≡◌ {A = String} "pending" "pending") × IsTerminal "failed")
can_transition_iff_example = can_transition_iff "pending" "failed"

evaluate_allowed_iff_example :
    ((evaluate (pos 100) (stk_push (some (pos 50)) (some "254"))).allowed ≡ true) ↔ (
      (n : ℤ) × (p : String) × (some (pos 50) ≡ some n)
      × (◌≡◌ {A = Option String} (some "254") (some p))
      × (pos 0 <ℤ n)
      × (n ≤ℤ pos 100))
evaluate_allowed_iff_example = evaluate_allowed_iff (pos 100) (some (pos 50)) (some "254")

abbrev tools : ToolPolicyEngine
tools = record {
  enabled_tools = "generate_receipt" ∷ "run_reconciliation" ∷ [];
  blocked_tools = "run_reconciliation" ∷ [];
  approval_required_tools = [];
}

evaluate_runs_iff_example : ((Tools.evaluate tools "generate_receipt").allowed ≡ true) ↔ (
    (contains tools.enabled_tools "generate_receipt" ≡ true)
    × (contains tools.blocked_tools "generate_receipt" ≡ false)
    × ((contains tools.approval_required_tools "generate_receipt" ≡ false)
        ⊎ (contains approval_flow_tools "generate_receipt" ≡ true)))
evaluate_runs_iff_example = evaluate_runs_iff tools "generate_receipt"

list_recent_transactions_lem_example :
    (others : List PendingTransaction) × Perm
      (list_recent_transactions 1 settled ++ others)
      (values settled.transactions)
    × IsDescending (λ t. t.created_at) (list_recent_transactions 1 settled ++ others)
    × ((length (list_recent_transactions 1 settled) ≡ 1)
        ⊎ ((length (list_recent_transactions 1 settled) ≤ 1) × (others ≡ [])))
list_recent_transactions_lem_example = list_recent_transactions_lem 1 settled
