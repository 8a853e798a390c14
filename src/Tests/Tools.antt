-- ===== src/Tests/Tools.antt =====
-- Runs of the tools of app/mcp, of the status query and of the start's checks.
use mpesa_mcp_server.Common.{
  ◌*◌, ◌≤◌, String, true, false, ◌≡◌, ◌≢◌, ◌⊎◌, refl, none, some, List, [], ◌∷◌, arith, eq_iff,
}
use mpesa_mcp_server.Common.Int.{pos}
use mpesa_mcp_server.Common.Dict.{lookup}
use mpesa_mcp_server.Common.Text.{concat}
use mpesa_mcp_server.Common.Exec.{ok, err, Error}
use mpesa_mcp_server.Callbacks.Payload.{Builtins}
use mpesa_mcp_server.Payments.Providers.{PaymentStatusResponse, check_status}
use mpesa_mcp_server.Policy.ToolPolicy.{evaluate, current_mcp_tools, strip}
use mpesa_mcp_server.Storage.Repository.{find_by_checkout_request_id}
use mpesa_mcp_server.System.{Reach, ServiceStep}
use mpesa_mcp_server.Transactions.StatusService.{check_transaction_status}
use mpesa_mcp_server.Transactions.StatusService.Laws.{told, check_transaction_status_lem}
use mpesa_mcp_server.Audit.Events.{AuditEvent}
use mathlib.Core.List.{◌++◌}
use mpesa_mcp_server.Tools.Schemas.{Validators, InitiateStkPushInput, invalid, valid}
use mpesa_mcp_server.Tools.Checks.{RateLimiter, RateLimitSettings, Host, in_memory_limiter, denied}
use mpesa_mcp_server.Tools.Handlers.{ToolCall, Container, handle}
use mpesa_mcp_server.Tools.Safety.{handle-denied}
use mpesa_mcp_server.Tools.Reach.{serve, serve-Reach}
use mpesa_mcp_server.Tools.Limits.{calls_of, pushes, pushes_limited}
use mpesa_mcp_server.Config.Settings.{Settings, credential_of}
use mpesa_mcp_server.Config.Validation.{
  validate_startup_settings, startup_issues, validate_daraja_production_settings, missing,
  has_value, validate_identity_settings, validate_operator_auth_settings,
  validate_callback_secret_settings, validate_callback_source_verification_settings,
  validate_redis_settings, validate_postgres_settings,
}
use mpesa_mcp_server.Config.Validation.Laws.{validated_production}
use mpesa_mcp_server.Daraja.Calls.{Surroundings, new_client, returned}
use mpesa_mcp_server.Daraja.Credentials.{validate_production_credentials}
use mpesa_mcp_server.Tests.Samples.{env, settings}
use mpesa_mcp_server.Tests.Daraja.{daraja, daraja_settings}
use mpesa_mcp_server.World.{start}

ws_not_empty : ◌≢◌ {A = String} "ws_1" ""
ws_not_empty e = ground (arith, (eq_iff "ws_1" "").1 e)

check_transaction_status_lem_example :
    let (answer, v) = check_transaction_status env (pos 10000) "ws_1" start in
    ((v.transactions ≡ []) × (v.approvals ≡ []) × (v.provider_calls ≡ check_status "ws_1" ∷ []))
    × (((response : PaymentStatusResponse) × (env.payment_provider.check_transaction_status []
              "ws_1"
            ≡ ok response)
          × (answer ≡ ok (told response (find_by_checkout_request_id "ws_1" start)))
          × ((event : AuditEvent) × (v.audit_events ≡ [] ++ event ∷ [])
              × (event.event_type ≡ "transaction_status_checked")))
        ⊎ ((e : Error) × (env.payment_provider.check_transaction_status [] "ws_1" ≡ err e)
            × (answer ≡ err e)
            × (v.audit_events ≡ [])))
check_transaction_status_lem_example =
    check_transaction_status_lem env (pos 10000) "ws_1" start ws_not_empty

-- Every input is taken for this push.
abbrev a_push : InitiateStkPushInput
a_push = record {
  phone_number = "254700000000";
  amount = pos 500;
  account_reference = "INV-1";
  description = "Invoice";
  idempotency_key = none;
}

abbrev validators : Validators
validators = record {
  initiate_stk_push = λ fields. valid a_push;
  initiate_payment = λ fields. invalid [];
  check_transaction_status = λ fields. valid (record { checkout_request_id = "ws_1" });
  check_payment_status = λ fields. invalid [];
  generate_receipt = λ fields. invalid [];
  get_today_summary = λ fields. invalid [];
  get_failed_transactions = λ fields. invalid [];
  approve_payment_request = λ fields. invalid [];
  reject_payment_request = λ fields. invalid [];
  run_reconciliation = λ fields. invalid [];
}

abbrev container : Container
container = record {
  payments = settings;
  validators = validators;
  tool_policy = record {
    enabled_tools = current_mcp_tools;
    blocked_tools = "initiate_payment" ∷ [];
    approval_required_tools = [];
  };
  date = λ time. 0;
  reconciliation_stale_pending_minutes = 15;
  rate_limit_enabled = true;
  rate_limit_window_seconds = 60;
  rate_limit_max_stk_push = 5;
  rate_limit_max_approval_actions = 10;
  rate_limit_max_status_checks = 30;
}

-- The limiter's clock moves on by a second with each reading.
abbrev limiter : RateLimiter
limiter = in_memory_limiter (λ n. n * 1000000)

abbrev host : Host limiter
host = record { world = start; limits = record { windows = []; reads = 0 } }

handle-denied_example :
    handle limiter env container
      (ToolCall.initiate_payment "254700000000" (pos 500) "a" "b" none)
      host
    ≡ (ok (denied (evaluate container.tool_policy "initiate_payment")), host)
unfolding evaluate
handle-denied_example =
    handle-denied limiter env container
      (ToolCall.initiate_payment "254700000000" (pos 500) "a" "b" none) host refl

abbrev calls : List ToolCall
calls =
    ToolCall.initiate_stk_push "254700000000" (pos 500) "INV-1" "Invoice" none
    ∷ ToolCall.check_transaction_status "ws_1"
    ∷ ToolCall.get_today_summary
    ∷ []

abbrev builtins : Builtins
builtins = record { repr = λ v. ""; int_of_text = λ text. none; is_digit = λ c. true }

serve-Reach_example :
    Reach
      (ServiceStep env settings builtins)
      start
      (serve limiter env container builtins calls host).world
serve-Reach_example = serve-Reach limiter env container builtins calls host

-- A window in which all but one call are used up.
abbrev busy : Host limiter
busy = record {
  world = start;
  limits = record { windows = ("initiate_stk_push:254700000000", (0, 4)) ∷ []; reads = 1 };
}

abbrev limits : RateLimitSettings
limits = record { enabled = true; window_seconds = 60; max_requests = 5 }

pushes_limited_example :
    calls_of
      (λ n. n * 1000000)
      env
      settings
      validators
      none
      limits
      (pushes
        (λ n. n * 1000000)
        env
        settings
        validators
        none
        limits
        "254700000000"
        (a_push ∷ a_push ∷ [])
        busy)
    ≤ 1
unfolding concat lookup
pushes_limited_example =
    pushes_limited (λ n. n * 1000000) env settings validators none limits "254700000000"
      (a_push ∷ a_push ∷ []) 0 4 busy refl refl
      ((omega arith, omega arith), ((omega arith, omega arith), tt))

abbrev pub production : Settings
production = record {
  app_env = "production";
  database_url = "postgresql://db";
  storage_mode = "postgres";
  daraja_mode = "production";
  daraja_consumer_key = none;
  daraja_consumer_secret = none;
  daraja_passkey = none;
  daraja_shortcode = none;
  daraja_callback_url = none;
  daraja_production_consumer_key = some "key";
  daraja_production_consumer_secret = some "secret";
  daraja_production_passkey = some "pass";
  daraja_production_shortcode = some "174379";
  daraja_production_callback_url = some "https://callback";
  callback_shared_secret = some "shared";
  callback_source_verification_mode = "strict_block";
  trusted_proxy_shared_secret = none;
  callback_replay_mode = "redis";
  rate_limit_mode = "redis";
  payment_provider = "daraja";
  redis_url = "redis://cache";
  auth_mode = "token";
  operator_auth_enabled = true;
  operator_viewer_token = some "viewer";
  operator_approver_token = none;
  operator_admin_token = none;
  oidc_issuer = none;
  oidc_audience = none;
  oidc_provider_mode = "development";
  oidc_development_subject = "operator";
  oidc_development_email = none;
  oidc_development_display_name = "Operator";
  oidc_development_groups = "payments";
  oidc_viewer_groups = "";
  oidc_approver_groups = "payments";
  oidc_admin_groups = "";
}

abbrev production_client : Surroundings
production_client = record daraja {
  settings = record daraja_settings {
    daraja_mode = "production";
    attribute = credential_of production;
  };
}

production_starts : validate_startup_settings (λ c. false) production ≡ ok tt
unfolding validate_startup_settings startup_issues validate_daraja_production_settings
    validate_identity_settings validate_operator_auth_settings validate_callback_secret_settings
    validate_callback_source_verification_settings validate_redis_settings
    validate_postgres_settings missing has_value strip
production_starts = refl

validated_production_example :
    (validate_production_credentials production_client new_client ≡ (returned tt, new_client))
    × (production.callback_source_verification_mode ≢ "development")
validated_production_example =
    validated_production (λ c. false) production production_client new_client production_starts refl
      refl refl
