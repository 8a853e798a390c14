-- ===== src/Operator/Routes.antt =====
-- The routes of app/operator/routes.py. Each takes what `require_viewer` or `require_admin` makes of
-- the request. FastAPI checks that a limit is between 1 and 200. Times are given as they are stored;
-- the log lines are left out.
pub mod Laws
use mpesa_mcp_server.Common.{
  ℕ, String, Bool, true, false, ◌&&◌, Option, none, some, List, [], ◌∷◌, map, ◌==◌, if◌then◌else◌,
}
use mpesa_mcp_server.Common.Int.{ℤ}
use mpesa_mcp_server.Common.Exec.{Exec, pure, gets, ◌>>=◌}
use mpesa_mcp_server.Analytics.Service.{DailyAnalyticsSummary, get_today_summary}
use mpesa_mcp_server.Audit.Events.{AuditEvent}
use mpesa_mcp_server.Audit.Logger.{list_recent_events}
use mpesa_mcp_server.Auth.Identity.{OperatorIdentity}
use mpesa_mcp_server.Auth.Security.{Access, require_viewer, require_admin}
use mpesa_mcp_server.Auth.Routes.{RouteAnswer, answered, with_status, not_found, guarded}
use mpesa_mcp_server.Config.Settings.{Settings}
use mpesa_mcp_server.Receipts.Service.{ReceiptServiceResponse, generate_receipt_by_reference}
use mpesa_mcp_server.Reconciliation.Service.{ReconciliationSummary}
use mpesa_mcp_server.Reconciliation.Service as Reconciliation
use mpesa_mcp_server.Storage.Records.{PendingTransaction}
use mpesa_mcp_server.Storage.Repository.{list_recent_transactions}
use mpesa_mcp_server.Storage.Repository as Repository
use mpesa_mcp_server.World.{Env, World}
use Prim.Native.Char.{Char}

pub record OperatorTransactionSummary : Type 0 where
  pub transaction_id : String
  pub provider : String
  pub rail : String
  pub status : String
  pub amount : ℤ
  pub phone_number : String
  pub created_at : ℕ
  pub provider_transaction_id : Option String
  pub provider_reference : Option String

pub record OperatorSystemStatus : Type 0 where
  pub status : String
  pub ready : Bool
  pub payment_provider : String
  pub storage_mode : String
  pub rate_limit_mode : String
  pub auth_mode : String

pub record OperatorAuditEventSummary : Type 0 where
  pub event_id : String
  pub event_type : String
  pub created_at : ℕ
  pub actor : Option String
  pub correlation_id : Option String

-- The contents of the answers.
pub data OperatorAnswer : Type 0 where
  transactions : List OperatorTransactionSummary → OperatorAnswer
  transaction : PendingTransaction → OperatorAnswer
  audit_events : List OperatorAuditEventSummary → OperatorAnswer
  analytics : DailyAnalyticsSummary → OperatorAnswer
  system : OperatorSystemStatus → OperatorAnswer
  receipt : ReceiptServiceResponse → OperatorAnswer
  reconciliation : ReconciliationSummary → OperatorAnswer

-- A request to one of the routes.
pub data OperatorCall : Type 0 where
  list_transactions : ℕ → OperatorCall
  get_transaction : String → OperatorCall
  list_audit_events : ℕ → OperatorCall
  get_today_analytics : OperatorCall
  get_system_status : OperatorCall
  get_receipt : String → OperatorCall
  run_reconciliation : OperatorCall

abbrev pub transaction_summary : PendingTransaction → OperatorTransactionSummary
transaction_summary t = record {
  transaction_id = t.transaction_id;
  provider = t.provider;
  rail = t.rail;
  status = t.status;
  amount = t.amount;
  phone_number = t.phone_number;
  created_at = t.created_at;
  provider_transaction_id = t.provider_transaction_id;
  provider_reference = t.provider_reference;
}

abbrev pub event_summary : AuditEvent → OperatorAuditEventSummary
event_summary e = record {
  event_id = e.event_id;
  event_type = e.event_type;
  created_at = e.created_at;
  actor = e.actor;
  correlation_id = e.correlation_id;
}

abbrev pub transaction_or_not_found : Option PendingTransaction → RouteAnswer OperatorAnswer
transaction_or_not_found none = not_found "Transaction was not found."
transaction_or_not_found (some t) = answered (transaction t)

abbrev pub receipt_by_status : ReceiptServiceResponse → RouteAnswer OperatorAnswer
receipt_by_status response =
    if response.status == "not_found"
    then with_status 404 (receipt response)
    else answered (receipt response)

-- `all(dependency is not None for dependency in ...)`
abbrev pub all_there : List Bool → Bool
all_there [] = true
all_there (there ∷ dependencies) = there && all_there dependencies

abbrev pub system_status : Settings → List Bool → OperatorSystemStatus
system_status s dependencies =
    let ready = all_there dependencies in
    record {
      status = if ready then "ready" else "not_ready";
      ready = ready;
      payment_provider = s.payment_provider;
      storage_mode = s.storage_mode;
      rate_limit_mode = s.rate_limit_mode;
      auth_mode = if s.operator_auth_enabled then "enabled" else "disabled";
    }

-- `date` takes a time to the number of its day, `minutes` is the setting of the reconciliation;
-- `dependencies` says which dependencies of the container are there.
module _ (env : Env) (date : ℕ → ℕ) (minutes : ℕ) (s : Settings) (dependencies : List Bool) where
  unfoldable pub list_transactions_route : ℕ → Access → Exec World (RouteAnswer OperatorAnswer)
  list_transactions_route limit principal = guarded principal (λ p. do
    found ← gets (list_recent_transactions limit)
    pure (answered (transactions (map transaction_summary found))))

  unfoldable pub get_transaction_route : String → Access → Exec World (RouteAnswer OperatorAnswer)
  get_transaction_route transaction_id principal = guarded principal (λ p. do
    found ← gets (Repository.get_transaction transaction_id)
    pure (transaction_or_not_found found))

  unfoldable pub list_audit_events_route : ℕ → Access → Exec World (RouteAnswer OperatorAnswer)
  list_audit_events_route limit principal = guarded principal (λ p. do
    events ← gets (list_recent_events limit)
    pure (answered (audit_events (map event_summary events))))

  unfoldable pub get_today_analytics_route : Access → Exec World (RouteAnswer OperatorAnswer)
  get_today_analytics_route principal =
      guarded principal
        (λ p. do summary ← get_today_summary env date; pure (answered (analytics summary)))

  unfoldable pub get_system_status_route : Access → Exec World (RouteAnswer OperatorAnswer)
  get_system_status_route principal =
      guarded principal (λ p. pure (answered (system (system_status s dependencies))))

  unfoldable pub get_receipt_route : String → Access → Exec World (RouteAnswer OperatorAnswer)
  get_receipt_route reference principal = guarded principal (λ p. do
    response ← generate_receipt_by_reference env reference
    pure (receipt_by_status response))

  unfoldable pub run_reconciliation_route : Access → Exec World (RouteAnswer OperatorAnswer)
  run_reconciliation_route principal = guarded principal (λ p. do
    summary ← Reconciliation.run_reconciliation env minutes
    pure (answered (reconciliation summary)))

  module _ (is_space : Char → Bool) (lower : String → String)
      (jwks : Settings → Option String → Option OperatorIdentity) where
    -- The routes of the router with their dependencies, for a request with this header.
    unfoldable pub serve_operator :
        OperatorCall → Option String → Exec World (RouteAnswer OperatorAnswer)
    unfolding list_transactions_route get_transaction_route list_audit_events_route
        get_today_analytics_route get_system_status_route get_receipt_route run_reconciliation_route
    serve_operator (list_transactions limit) authorization =
        list_transactions_route limit (require_viewer is_space lower jwks s authorization)
    serve_operator (get_transaction transaction_id) authorization =
        get_transaction_route transaction_id (require_viewer is_space lower jwks s authorization)
    serve_operator (list_audit_events limit) authorization =
        list_audit_events_route limit (require_viewer is_space lower jwks s authorization)
    serve_operator get_today_analytics authorization =
        get_today_analytics_route (require_viewer is_space lower jwks s authorization)
    serve_operator get_system_status authorization =
        get_system_status_route (require_viewer is_space lower jwks s authorization)
    serve_operator (get_receipt reference) authorization =
        get_receipt_route reference (require_viewer is_space lower jwks s authorization)
    serve_operator run_reconciliation authorization =
        run_reconciliation_route (require_admin is_space lower jwks s authorization)
