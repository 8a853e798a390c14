-- ===== src/Reconciliation/Service/Mismatch.antt =====
-- When the comparison of app/reconciliation/service.py finds something.
use mpesa_mcp_server.Common.{
  ℕ, ◌+◌, ◌*◌, ◌≤◌, String, true, ◌≡◌, ◌↔◌, refl, ap, ◌∙◌, subst, Option, none, some, [], arith,
  eq_iff, contains,
}
use mpesa_mcp_server.Transactions.StateMachine.Laws.{statuses_differ}
use mpesa_mcp_server.Storage.Records.{PendingTransaction}
use mpesa_mcp_server.Payments.Providers.{PaymentStatusResponse}
use mpesa_mcp_server.Reconciliation.Service.{
  reconcilable_statuses, final_provider_statuses, mismatch_findings, stale_pending_findings,
}

abbrev status_or : String → Option PaymentStatusResponse → String
status_or s none = s
status_or s (some r) = r.status

-- For a transaction that is looked at, the comparison is silent exactly if the provider answers
-- with a final status and it is the local one.
pub mismatch_findings_iff :
    (t : PendingTransaction) (answer : Option PaymentStatusResponse)
    → contains reconcilable_statuses t.status ≡ true
    → (mismatch_findings t answer ≡ []) ↔ (
        (r : PaymentStatusResponse) × (answer ≡ some r)
        × (contains final_provider_statuses r.status ≡ true)
        × (r.status ≡ t.status))
unfolding mismatch_findings
mismatch_findings_iff t none h = (λ e. absurd (ground arith), λ (r, e, _, _). absurd (ground arith))
mismatch_findings_iff t (some answer) h = (
  λ e. (
    answer,
    refl,
    ground arith,
    ground (
      arith,
      eq_iff answer.status "completed",
      eq_iff "completed" answer.status,
      eq_iff answer.status "failed",
      eq_iff "failed" answer.status,
      eq_iff t.status "pending",
      eq_iff "pending" t.status,
      eq_iff t.status "completed",
      eq_iff "completed" t.status,
      eq_iff t.status "failed",
      eq_iff "failed" t.status,
    ),
  ),
  λ (r, e, final, same).
      let here : answer.status ≡ t.status = ap (λ o. status_or t.status o) e ∙ same in
      rw here (
        ground (
          arith,
          subst (λ s. contains final_provider_statuses s ≡ true) same final,
          statuses_differ t.status,
        )),
)

-- A pending transaction is reported as stale exactly from the given number of minutes on.
pub stale_pending_findings_iff :
    (minutes time : ℕ) (t : PendingTransaction)
    → (stale_pending_findings minutes t time ≡ [])
      ↔ (t.status ≡ "pending" → time + 1 ≤ t.created_at + minutes * 60000000)
unfolding stale_pending_findings
stale_pending_findings_iff minutes time t = (
  λ e pending. ground (arith, eq_iff t.status "pending"),
  λ h. ground (arith, eq_iff t.status "pending"),
)
