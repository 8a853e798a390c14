-- ===== src/Operator/Routes/Laws.antt =====
-- What the operator's routes of app/operator/routes.py may change, and for whom.
use mpesa_mcp_server.Common.{
  ℕ, String, ◌≡◌, refl, Bool, ◌⊎◌, inl, inr, Option, some, none, List, arith,
}
use mpesa_mcp_server.Common.Exec.{Exec, continue-pure}
use mpesa_mcp_server.Common.Exec.Respects.{Respects, respects_rules}
use mpesa_mcp_server.Analytics.Service.{get_today_summary}
use mpesa_mcp_server.Auth.Identity.{OperatorIdentity, admin}
use mpesa_mcp_server.Auth.Security.{
  Access, granted, http_exception, failure, require_viewer, require_admin,
}
use mpesa_mcp_server.Auth.Security.Grants.{ByRole, ByRole-granted}
use mpesa_mcp_server.Auth.Routes.{RouteAnswer, answered, guarded}
use mpesa_mcp_server.Config.Settings.{Settings}
use mpesa_mcp_server.Operator.Routes.{
  OperatorCall, OperatorAnswer, reconciliation, serve_operator, list_transactions, get_transaction,
  list_audit_events, get_today_analytics, get_system_status, get_receipt, run_reconciliation,
  list_transactions_route, get_transaction_route, list_audit_events_route,
  get_today_analytics_route, get_system_status_route, get_receipt_route, run_reconciliation_route,
}
use mpesa_mcp_server.Receipts.Service.{generate_receipt_by_reference, generate_referenced}
use mpesa_mcp_server.Reconciliation.Service as Reconciliation
use mpesa_mcp_server.Reconciliation.Service.ReadOnly.{run_reconciliation_reads}
use mpesa_mcp_server.Storage.Records.{PendingTransaction}
use mpesa_mcp_server.System.Others.{generate_receipt-Quiet}
use mpesa_mcp_server.World.{Env, World, now}
use mpesa_mcp_server.World.Quiet.{Quiet, Quiet-Preorder}
use Prim.Native.Char.{Char}

guarded-Quiet :
    {A : Type 0} (access : Access) (route : OperatorIdentity → Exec World (RouteAnswer A))
    → ((p : OperatorIdentity) → Respects Quiet (route p))
    → Respects Quiet (guarded access route)
guarded-Quiet (granted p) route quiet = quiet p
guarded-Quiet (http_exception code detail) route quiet = search respects_rules
guarded-Quiet (failure e) route quiet = search respects_rules

module _ (env : Env) where
  generate_referenced-Quiet :
      (found : Option PendingTransaction) → Respects Quiet (generate_referenced env found)
  unfolding generate_referenced
  generate_referenced-Quiet none = search respects_rules
  generate_referenced-Quiet (some t) = generate_receipt-Quiet env t.checkout_request_id

  pub generate_receipt_by_reference-Quiet :
      (reference : String) → Respects Quiet (generate_receipt_by_reference env reference)
  unfolding generate_receipt_by_reference
  generate_receipt_by_reference-Quiet reference = search (respects_rules, generate_referenced-Quiet)

  get_today_summary-Quiet : (date : ℕ → ℕ) → Respects Quiet (get_today_summary env date)
  unfolding get_today_summary now
  get_today_summary-Quiet date = record { at = λ w. ground arith }

  module _ (date : ℕ → ℕ) (minutes : ℕ) (s : Settings) (dependencies : List Bool) where
    -- Only an access that is granted lets the reconciliation ask the provider.
    run_reconciliation-Guarded :
        (access : Access) (w : World)
        → let v = (run_reconciliation_route env date minutes s dependencies access w).1 in
          (v.transactions ≡ w.transactions)
          × (v.approvals ≡ w.approvals)
          × ((v.provider_calls ≡ w.provider_calls)
              ⊎ ((p : OperatorIdentity) × (access ≡ granted p)))
    unfolding run_reconciliation_route
    run_reconciliation-Guarded (granted p) w =
        let (r, v) = Reconciliation.run_reconciliation env minutes w in
        let same = continue-pure r (λ summary. answered (reconciliation summary)) v in
        rw (same, run_reconciliation_reads env minutes w) (refl, refl, inr (p, refl))
    run_reconciliation-Guarded (http_exception code detail) w = (refl, refl, inl refl)
    run_reconciliation-Guarded (failure e) w = (refl, refl, inl refl)

    module _ (is_space : Char → Bool) (lower : String → String)
        (jwks : Settings → Option String → Option OperatorIdentity) where
      abbrev serve : OperatorCall → Option String → Exec World (RouteAnswer OperatorAnswer)
      serve = serve_operator env date minutes s dependencies is_space lower jwks

      abbrev seen_by : Option String → Access
      seen_by authorization = require_viewer is_space lower jwks s authorization

      abbrev pub Reads : Option String → World → World → Type 0
      Reads authorization w v =
          (v.transactions ≡ w.transactions)
          × (v.approvals ≡ w.approvals)
          × ((v.provider_calls ≡ w.provider_calls)
              ⊎ ((p : OperatorIdentity) × ByRole is_space lower jwks s admin authorization p))

      Reads-Quiet :
          (call : OperatorCall) (authorization : Option String) (w : World)
          → Respects Quiet (serve call authorization)
          → Reads authorization w (serve call authorization w).1
      Reads-Quiet call authorization w quiet =
          let q = quiet.at w in (q.transactions, q.approvals, inl q.provider_calls)

      -- Whatever the operator's routes are asked, the stored transactions and approvals stay as they
      -- are, and the provider is asked only for an operator who is known and is an admin.
      pub serve_operator-Reads :
          (call : OperatorCall) (authorization : Option String) (w : World)
          → Reads authorization w
              (serve_operator env date minutes s dependencies is_space lower jwks call authorization
                w).1
      unfolding serve_operator list_transactions_route get_transaction_route list_audit_events_route
          get_today_analytics_route get_system_status_route get_receipt_route
      serve_operator-Reads (list_transactions limit) authorization w =
          Reads-Quiet (list_transactions limit) authorization w
            (guarded-Quiet (seen_by authorization) _ (λ p. search respects_rules))
      serve_operator-Reads (get_transaction id) authorization w =
          Reads-Quiet (get_transaction id) authorization w
            (guarded-Quiet (seen_by authorization) _ (λ p. search respects_rules))
      serve_operator-Reads (list_audit_events limit) authorization w =
          Reads-Quiet (list_audit_events limit) authorization w
            (guarded-Quiet (seen_by authorization) _ (λ p. search respects_rules))
      serve_operator-Reads get_today_analytics authorization w =
          Reads-Quiet get_today_analytics authorization w (
            guarded-Quiet (seen_by authorization) _
              (λ p. search (respects_rules, get_today_summary-Quiet)))
      serve_operator-Reads get_system_status authorization w =
          Reads-Quiet get_system_status authorization w
            (guarded-Quiet (seen_by authorization) _ (λ p. search respects_rules))
      serve_operator-Reads (get_receipt reference) authorization w =
          Reads-Quiet (get_receipt reference) authorization w (
            guarded-Quiet (seen_by authorization) _
              (λ p. search (respects_rules, generate_receipt_by_reference-Quiet)))
      serve_operator-Reads run_reconciliation authorization w =
          let access = require_admin is_space lower jwks s authorization in
          let (kept, kept_too, asked) = run_reconciliation-Guarded access w in
          (
            kept,
            kept_too,
            elim asked [
              | inl e ↦ inl e
              | inr (p, known) ↦
                  inr (p, ByRole-granted is_space lower jwks s admin authorization p known)
            ],
          )
