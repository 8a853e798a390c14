-- ===== src/System/Readings.antt =====
-- The status query of app/services/transaction_service.py and the summary of
-- app/analytics/service.py, against the invariants of both stores.
use mpesa_mcp_server.Common.{ℕ, String, refl, Option, arith}
use mpesa_mcp_server.Common.Int.{ℤ}
use mpesa_mcp_server.Common.Json.{Json}
use mpesa_mcp_server.Common.Dict.{Dict}
use mpesa_mcp_server.Common.Exec.{Exec}
use mpesa_mcp_server.Common.Exec.Respects.{Respects, Respects-weaken, respects_rules}
use mpesa_mcp_server.World
use mpesa_mcp_server.World.{Env, World, increment, now}
use mpesa_mcp_server.World.Quiet.{Reading, Reading-Preorder, Reading-Quiet, increment-Quiet}
use mpesa_mcp_server.Observability.Metrics.{Counter}
use mpesa_mcp_server.Auth.Identity.{OperatorIdentity}
use mpesa_mcp_server.Audit.Logger.{log_event}
use mpesa_mcp_server.Audit.Quiet.{log_event-Quiet}
use mpesa_mcp_server.Safety.Policy.{PolicyDecision}
use mpesa_mcp_server.Storage.Progress as Transactions
use mpesa_mcp_server.Approvals.Progress as Approvals
use mpesa_mcp_server.Transactions.StatusService.{
  check_transaction_status, query_provider, query_if_allowed,
}
use mpesa_mcp_server.Analytics.Service.{get_today_summary}
use mpesa_mcp_server.System.Both.{Both}

module _ (env : Env) where
  log_event-Reading :
      (event_type : String) (payload : Dict Json) (actor correlation_id : Option String)
      (identity : Option OperatorIdentity)
      → Respects Reading (log_event env event_type payload actor correlation_id identity)
  log_event-Reading event_type payload actor correlation_id identity =
      Respects-weaken _ Reading-Quiet
        (log_event-Quiet env event_type payload actor correlation_id identity)

  asked-Reading : (id : String) → Respects Reading (World.check_transaction_status env id)
  unfolding World.check_transaction_status
  asked-Reading id = record {
    at = λ w. record { ids = omega arith; transactions = refl; approvals = refl };
  }

  query_provider-Reading :
      (max_stk_amount : ℤ) (id : String) → Respects Reading (query_provider env max_stk_amount id)
  unfolding query_provider
  query_provider-Reading max_stk_amount id =
      search (respects_rules, asked-Reading, log_event-Reading)

  query_if_allowed-Reading :
      (max_stk_amount : ℤ) (id : String) (decision : PolicyDecision)
      → Respects Reading (query_if_allowed env max_stk_amount id decision)
  unfolding query_if_allowed
  query_if_allowed-Reading max_stk_amount id decision =
      search (respects_rules, query_provider-Reading)

  increment-Reading : (c : Counter) → Respects Reading (increment c)
  increment-Reading c = Respects-weaken _ Reading-Quiet (increment-Quiet c)

  check_transaction_status-Reading :
      (max_stk_amount : ℤ) (id : String)
      → Respects Reading (check_transaction_status env max_stk_amount id)
  unfolding check_transaction_status
  check_transaction_status-Reading max_stk_amount id =
      search (respects_rules, increment-Reading, query_if_allowed-Reading)

  get_today_summary-Reading : (date : ℕ → ℕ) → Respects Reading (get_today_summary env date)
  unfolding get_today_summary now
  get_today_summary-Reading date = record {
    at = λ w. record { ids = omega arith; transactions = refl; approvals = refl };
  }

  reading : {A : Type 0} (m : Exec World A) → Respects Reading m → Respects (Both env) m
  reading m = Respects-weaken m (λ w v r. record {
    transactions = Transactions.Progress-idle env w v r.ids r.transactions;
    approvals = Approvals.Progress-idle env w v r.ids r.approvals;
  })

  pub check_transaction_status-Both :
      (max_stk_amount : ℤ) (id : String)
      → Respects (Both env) (check_transaction_status env max_stk_amount id)
  check_transaction_status-Both max_stk_amount id =
      reading _ (check_transaction_status-Reading max_stk_amount id)

  pub get_today_summary-Both : (date : ℕ → ℕ) → Respects (Both env) (get_today_summary env date)
  get_today_summary-Both date = reading _ (get_today_summary-Reading date)
