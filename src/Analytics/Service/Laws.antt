-- ===== src/Analytics/Service/Laws.antt =====
-- How the numbers of app/analytics/service.py hang together.
use mpesa_mcp_server.Common.{ℕ, suc, ◌+◌, ◌≡◌, List, [], ◌∷◌, ◌==◌, arith, if◌then◌else◌}
use mpesa_mcp_server.Transactions.StateMachine.Laws.{statuses_differ}
use mpesa_mcp_server.Storage.Records.{PendingTransaction}
use mpesa_mcp_server.Analytics.Service.{summarize}

-- The number of transactions in neither of the three statuses that are counted.
abbrev pub others : List PendingTransaction → ℕ
others [] = 0
others (t ∷ ts) =
    let rest = others ts in
    if t.status == "completed"
    then rest
    else if t.status == "failed"
    then rest
    else if t.status == "pending"
    then rest
    else suc rest

-- The completed, the failed and the pending ones are told apart: with the transactions in other
-- statuses they make up the total.
pub summarize_total :
    (today : ℕ) (ts : List PendingTransaction)
    → let s = summarize today ts in
      s.total_transactions
      ≡ s.completed_transactions + s.failed_transactions + s.pending_transactions + others ts
unfolding summarize
summarize_total today [] = omega arith
summarize_total today (t ∷ ts) = ground (arith, summarize_total today ts, statuses_differ t.status)
