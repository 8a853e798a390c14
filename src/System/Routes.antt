-- ===== src/System/Routes.antt =====
-- The routes of app/callbacks, app/approvals and app/operator, against the invariants of both
-- stores.
use mpesa_mcp_server.Common.{
  ℕ, String, Bool, true, false, Option, List, [], ◌∷◌, ◌≡◌, inl, inr, Bool-cases,
}
use mpesa_mcp_server.Common.Dict.{Dict}
use mpesa_mcp_server.Common.Json.{Json, str}
use mpesa_mcp_server.Common.Exec.{
  Exec, Result, ok, err, transition_error, infrastructure_unavailable, exception,
}
use mpesa_mcp_server.Common.Exec.Respects.{Preorder, Respects, Respects-if, respects_rules}
use mpesa_mcp_server.Approvals.Aside.{reject_request-Aside, list_pending_requests-Aside}
use mpesa_mcp_server.Approvals.Calls.{reject_request-Progress, list_pending_requests-Progress}
use mpesa_mcp_server.Approvals.Service.{reject_request, list_pending_requests}
use mpesa_mcp_server.Approvals.Routes.{
  ApprovalCall, serve_approval, list_pending, expire_stale, get_one, approve, reject,
  list_pending_approvals, expire_stale_route, get_approval, approve_payment_request,
  reject_payment_request,
}
use mpesa_mcp_server.Audit.Quiet.{log_event-Quiet}
use mpesa_mcp_server.Auth.Identity.{OperatorIdentity}
use mpesa_mcp_server.Auth.Routes.{RouteAnswer, guarded}
use mpesa_mcp_server.Auth.Security.{Access, granted, failure, require_viewer, require_admin}
use mpesa_mcp_server.Auth.Security as Security
use mpesa_mcp_server.Callbacks.Payload.{Builtins}
use mpesa_mcp_server.Callbacks.Results.{CallbackProcessingResult}
use mpesa_mcp_server.Callbacks.Replay.{ReplayDecision, check_and_store}
use mpesa_mcp_server.Callbacks.SourceVerifier.{CallbackSourceVerificationDecision, verify}
use mpesa_mcp_server.Callbacks.Routes.{
  CallbackSettings, CallbackResponse, http_exception, refused, build_callback_replay_key, Site,
  log_refusal, answer_of, run_handler, after_replay_check, check_replay, check_source, check_secret,
  handle_stk_callback,
}
use mpesa_mcp_server.Config.Settings.{Settings}
use mpesa_mcp_server.Payments.Records.{PaymentSettings}
use mpesa_mcp_server.System.Both.{Both, Both-Preorder, quiet, aside}
use mpesa_mcp_server.System.Payments.{execute_approved_payment-Both, expire_stale_approvals-Both}
use mpesa_mcp_server.Receipts.Service.{generate_receipt_by_reference}
use mpesa_mcp_server.Operator.Routes.{
  OperatorCall, serve_operator, list_transactions, get_transaction, list_audit_events,
  get_today_analytics, get_system_status, get_receipt, run_reconciliation, list_transactions_route,
  get_transaction_route, list_audit_events_route, get_today_analytics_route,
  get_system_status_route, get_receipt_route, run_reconciliation_route,
}
use mpesa_mcp_server.System.Readings.{get_today_summary-Both}
use mpesa_mcp_server.System.Others.{run_reconciliation-Both}
use Prim.Native.Char.{Char}
use mpesa_mcp_server.Operator.Routes.Laws.{generate_receipt_by_reference-Quiet}
use mpesa_mcp_server.World.{Env, World}

module _ (env : Env) where
  instance both : Preorder (Both env)
  both = Both-Preorder env

  -- The state of a callback's route, by the shared state in it.
  abbrev SiteBoth : Site → Site → Type 0
  SiteBoth site v = Both env site.world v.world

  instance site_both : Preorder SiteBoth
  site_both = record {
    reflexive = λ site. both.reflexive site.world;
    transitive = λ s t u. both.transitive s.world t.world u.world;
  }

  guarded-Both :
      {A : Type 0} (access : Access) (route : OperatorIdentity → Exec World (RouteAnswer A))
      → ((p : OperatorIdentity) → Respects (Both env) (route p))
      → Respects (Both env) (guarded access route)
  guarded-Both (granted p) route h = h p
  guarded-Both (Security.http_exception code detail) route h = search respects_rules
  guarded-Both (failure e) route h = search respects_rules

  module _ (builtins : Builtins) (quote : String → String) where
    log_refusal-Both :
        (event_type : String) (payload : Dict Json) (response : CallbackResponse)
        → Respects SiteBoth (log_refusal env builtins quote event_type payload response)
    unfolding log_refusal
    log_refusal-Both event_type payload response = record {
      at = λ site. (quiet env _ (log_event-Quiet env event_type payload _ _ _)).at site.world;
    }

    answer_of-Both :
        (result : Result CallbackProcessingResult)
        → Respects SiteBoth (answer_of env builtins quote result)
    answer_of-Both (ok result) = record { at = λ site. both.reflexive site.world }
    answer_of-Both (err (infrastructure_unavailable reason)) = log_refusal-Both _ _ _
    answer_of-Both (err (transition_error f t)) = record { at = λ site. both.reflexive site.world }
    answer_of-Both (err (exception text)) = record { at = λ site. both.reflexive site.world }

    module _ (settings : CallbackSettings)
        (process : Dict Json → Exec World CallbackProcessingResult)
        (kept : (payload : Dict Json) → Respects (Both env) (process payload)) where
      run_handler-Both :
          (payload : Dict Json)
          → Respects SiteBoth (run_handler env builtins quote settings process payload)
      run_handler-Both payload = record {
        at = λ site.
            let (result, w) = process payload site.world in
            both.transitive site.world w _ ((kept payload).at site.world)
              ((answer_of-Both result).at (record site { world = w }));
      }

      after_replay_check-Both :
          (payload : Dict Json) (d : ReplayDecision)
          → Respects SiteBoth (after_replay_check env builtins quote settings process payload d)
      unfolding after_replay_check
      after_replay_check-Both payload d =
          Respects-if d.allowed _ _ (λ e. run_handler-Both payload) (λ e. log_refusal-Both _ _ _)

      check_replay-Both :
          (now : ℕ) (payload : Dict Json)
          → Respects SiteBoth (check_replay env builtins quote settings process now payload)
      unfolding check_replay
      check_replay-Both now payload = record {
        at = λ site. elim (Bool-cases settings.callback_replay_protection_enabled) [
          | inr off ↦ rw off ((run_handler-Both payload).at site)
          | inl on ↦
              let (d, seen) =
                check_and_store (build_callback_replay_key env builtins quote payload)
                  settings.callback_replay_window_seconds now site.seen in
              rw on ((after_replay_check-Both payload d).at (record site { seen = seen }))
        ];
      }

      check_source-Both :
          (now : ℕ) (payload : Dict Json) (verified : Result CallbackSourceVerificationDecision)
          → Respects SiteBoth
              (check_source env builtins quote settings process now payload verified)
      unfolding check_source
      check_source-Both now payload (err e) = record { at = λ site. both.reflexive site.world }
      check_source-Both now payload (ok d) = record {
        at = λ site. elim (Bool-cases d.allowed) [
          | inl trusted ↦ rw trusted ((check_replay-Both now payload).at site)
          | inr untrusted ↦ rw untrusted (
              (log_refusal-Both "stk_callback_source_rejected" (("reason", str d.reason) ∷ [])
                  (refused 403 "callback_source_rejected" d.reason)).at
                site)
        ];
      }

      check_secret-Both :
          (now : ℕ) (headers : Dict String) (payload : Dict Json) (matching : Result Bool)
          (reason : String)
          → Respects SiteBoth
              (check_secret env builtins quote settings process now headers payload matching reason)
      unfolding check_secret
      check_secret-Both now headers payload (err e) reason = record {
        at = λ site. both.reflexive site.world;
      }
      check_secret-Both now headers payload (ok true) reason = record {
        at = λ site.
            (check_source-Both now payload (verify settings.callback_source_verifier headers)).at
              site;
      }
      check_secret-Both now headers payload (ok false) reason = record {
        at = λ site.
            (log_refusal-Both "stk_callback_rejected" (("reason", str reason) ∷ [])
                (http_exception 401 "Invalid callback credentials.")).at
              site;
      }

      pub handle_stk_callback-Both :
          (now : ℕ) (callback_secret : Option String) (headers : Dict String) (payload : Dict Json)
          (site : Site)
          → Both env site.world
              (handle_stk_callback env builtins quote settings process now callback_secret headers
                payload site).1.world
      unfolding handle_stk_callback
      handle_stk_callback-Both now callback_secret headers payload site =
          (check_secret-Both now headers payload _ _).at site

  module _ (issue_once : (i j : ℕ) → env.new_id i ≡ env.new_id j → i ≡ j)
      (settings : PaymentSettings) where
    rejecting-Both : (id : String) → Respects (Both env) (reject_request env settings.approvals id)
    rejecting-Both id =
        aside env _ (reject_request-Aside env settings.approvals id)
          (reject_request-Progress env settings.approvals id)

    listing-Both : Respects (Both env) (list_pending_requests env settings.approvals)
    listing-Both =
        aside env _ (list_pending_requests-Aside env settings.approvals)
          (list_pending_requests-Progress env settings.approvals)

    pub serve_approval-Both :
        (call : ApprovalCall) (access : Access)
        → Respects (Both env) (serve_approval env settings call access)
    unfolding serve_approval list_pending_approvals expire_stale_route get_approval
        approve_payment_request reject_payment_request
    serve_approval-Both list_pending access =
        guarded-Both access _ (λ p. search (respects_rules, listing-Both))
    serve_approval-Both expire_stale access =
        guarded-Both access _
          (λ p. search (respects_rules, expire_stale_approvals-Both env issue_once settings))
    serve_approval-Both (get_one id) access = guarded-Both access _ (λ p. search respects_rules)
    serve_approval-Both (approve id) access =
        guarded-Both access _
          (λ p. search (respects_rules, execute_approved_payment-Both env issue_once settings))
    serve_approval-Both (reject id) access =
        guarded-Both access _ (λ p. search (respects_rules, rejecting-Both))

  pub generate_receipt_by_reference-Both :
      (reference : String) → Respects (Both env) (generate_receipt_by_reference env reference)
  generate_receipt_by_reference-Both reference =
      quiet env _ (generate_receipt_by_reference-Quiet env reference)

  module _ (date : ℕ → ℕ) (minutes : ℕ) (s : Settings) (dependencies : List Bool)
      (is_space : Char → Bool) (lower : String → String)
      (jwks : Settings → Option String → Option OperatorIdentity) where
    abbrev seen_by : Option String → Access
    seen_by authorization = require_viewer is_space lower jwks s authorization

    pub serve_operator-Both :
        (call : OperatorCall) (authorization : Option String)
        → Respects
            (Both env)
            (serve_operator env date minutes s dependencies is_space lower jwks call authorization)
    unfolding serve_operator list_transactions_route get_transaction_route list_audit_events_route
        get_today_analytics_route get_system_status_route get_receipt_route run_reconciliation_route
    serve_operator-Both (list_transactions limit) authorization =
        guarded-Both (seen_by authorization) _ (λ p. search respects_rules)
    serve_operator-Both (get_transaction id) authorization =
        guarded-Both (seen_by authorization) _ (λ p. search respects_rules)
    serve_operator-Both (list_audit_events limit) authorization =
        guarded-Both (seen_by authorization) _ (λ p. search respects_rules)
    serve_operator-Both get_today_analytics authorization =
        guarded-Both (seen_by authorization) _
          (λ p. search (respects_rules, get_today_summary-Both env))
    serve_operator-Both get_system_status authorization =
        guarded-Both (seen_by authorization) _ (λ p. search respects_rules)
    serve_operator-Both (get_receipt reference) authorization =
        guarded-Both (seen_by authorization) _
          (λ p. search (respects_rules, generate_receipt_by_reference-Both))
    serve_operator-Both run_reconciliation authorization =
        guarded-Both (require_admin is_space lower jwks s authorization) _
          (λ p. search (respects_rules, run_reconciliation-Both env))
