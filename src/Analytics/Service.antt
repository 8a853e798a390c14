-- ===== src/Analytics/Service.antt =====
-- `AnalyticsService` of app/analytics/service.py. `date` takes a time to the number of its day.
pub mod Laws
use mpesa_mcp_server.Common.{ℕ, String, Bool, List, [], ◌∷◌, ◌==◌, keep, length}
use mpesa_mcp_server.Common.Int.{ℤ, pos, ◌+ℤ◌}
use mpesa_mcp_server.Common.Exec.{Exec, pure, gets, ◌>>=◌}
use mpesa_mcp_server.Storage.Records.{PendingTransaction}
use mpesa_mcp_server.Storage.Repository.{list_transactions_for_date, list_transactions_by_status}
use mpesa_mcp_server.World.{Env, World, now}

pub record DailyAnalyticsSummary : Type 0 where
  pub date : ℕ
  pub total_transactions : ℕ
  pub completed_transactions : ℕ
  pub failed_transactions : ℕ
  pub pending_transactions : ℕ
  pub total_revenue : ℤ

abbrev pub with_status : String → List PendingTransaction → List PendingTransaction
with_status status = keep (λ t. t.status == status)

-- `sum(transaction.amount for transaction in transactions)`
unfoldable pub total_amount : List PendingTransaction → ℤ
total_amount [] = pos 0
total_amount (t ∷ ts) = t.amount +ℤ total_amount ts

unfoldable pub summarize : ℕ → List PendingTransaction → DailyAnalyticsSummary
summarize today transactions = record {
  date = today;
  total_transactions = length transactions;
  completed_transactions = length (with_status "completed" transactions);
  failed_transactions = length (with_status "failed" transactions);
  pending_transactions = length (with_status "pending" transactions);
  total_revenue = total_amount (with_status "completed" transactions);
}

-- `get_today_summary`
unfoldable pub get_today_summary : Env → (ℕ → ℕ) → Exec World DailyAnalyticsSummary
unfolding summarize
get_today_summary env date = do
  time ← now env
  transactions ← gets (list_transactions_for_date date (date time))
  pure (summarize (date time) transactions)

-- `get_failed_transactions`
unfoldable pub get_failed_transactions : Exec World (List PendingTransaction)
get_failed_transactions = gets (list_transactions_by_status "failed")
