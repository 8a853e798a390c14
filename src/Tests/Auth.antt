-- ===== src/Tests/Auth.antt =====
-- Runs of app/auth and of the approval routes.
use mpesa_mcp_server.Common.{
  String, Bool, ◌≡◌, ◌≢◌, refl, ◌↔◌, ◌⊎◌, Option, none, some, [], ◌∷◌, ◌==◌, if◌then◌else◌,
}
use mpesa_mcp_server.Auth.Identity.{OperatorIdentity, viewer, approver, role}
use mpesa_mcp_server.Auth.Mapping.{
  from_settings, normalize_groups, parse_csv, map_groups, map_each, add_group_mappings, role_mapper,
}
use mpesa_mcp_server.Auth.Mapping.Laws.{Covers}
use mpesa_mcp_server.Auth.Security.{
  granted, require_role, require_approver, get_operator_principal, development_identity,
  extract_bearer_token, partition, authenticate, token_authenticate, find_token, token_identity,
}
use mpesa_mcp_server.Auth.Security.Grants.{ByRole}
use mpesa_mcp_server.Auth.Security.Laws.{development_identity_iff}
use mpesa_mcp_server.Operator.Routes.{serve_operator, run_reconciliation}
use mpesa_mcp_server.Operator.Routes.Laws.{Reads, serve_operator-Reads}
use mpesa_mcp_server.Approvals.Routes.{serve_approval, approve, approve_payment_request}
use mpesa_mcp_server.Approvals.Routes.Laws.{approve_payment_request_sends, serve_approval-Borne}
use mpesa_mcp_server.Callbacks.SourceVerifier.{compare_digest}
use mpesa_mcp_server.Common.Dict.{lookup, insert}
use mpesa_mcp_server.Config.Settings.{Settings}
use mpesa_mcp_server.Policy.ToolPolicy.{split_commas, strip_all, strip}
use mpesa_mcp_server.Payments.Execution.{Sent}
use mpesa_mcp_server.Tests.Samples.{env, settings}
use mpesa_mcp_server.Tests.Tools.{production}
use mpesa_mcp_server.Tests.Payments.{asked, request, request_there}
use Prim.Native.Char.{Char}
use Prim.Native.String as S

abbrev is_space : Char → Bool
is_space c = S.◌∷◌ c S.[] == " "

abbrev lower : String → String
lower text = if text == "Bearer" then "bearer" else text

abbrev jwks : Settings → Option String → Option OperatorIdentity
jwks s credential = none

abbrev guarded_settings : Settings
guarded_settings = record production { operator_approver_token = some "secret" }

abbrev developed : OperatorIdentity
developed = record {
  subject = "operator";
  email = none;
  display_name = "Operator";
  first_role = viewer;
  more_roles = approver ∷ [];
  groups = "payments" ∷ [];
}

developed_there : development_identity is_space production ≡ some developed
unfolding development_identity map_groups map_each add_group_mappings role_mapper lookup insert
    split_commas strip_all strip
developed_there = refl

development_identity_iff_example :
    (require_role approver developed ≡ granted developed)
    ↔ Covers
        (from_settings is_space production)
        (normalize_groups is_space (parse_csv is_space production.oidc_development_groups))
        approver
development_identity_iff_example =
    development_identity_iff is_space production approver developed developed_there

-- The approver's token lets the request through.
let_through :
    require_approver is_space lower jwks guarded_settings (some "Bearer secret")
    ≡ granted (token_identity "operator-approver" "Operator Approver" approver)
unfolding get_operator_principal extract_bearer_token partition authenticate token_authenticate
    find_token compare_digest require_role role
let_through = refl

approve_payment_request_sends_example :
    let access = require_approver is_space lower jwks guarded_settings (some "Bearer secret") in
    let v = (approve_payment_request env settings "-" access asked).1 in
    (v.provider_calls ≡ asked.provider_calls)
    ⊎ ((p : OperatorIdentity) × ByRole is_space lower jwks guarded_settings approver
          (some "Bearer secret")
          p
        × Sent env settings "-" p.subject request asked v)
approve_payment_request_sends_example =
    approve_payment_request_sends env settings is_space lower jwks guarded_settings "-"
      (some "Bearer secret") request asked request_there refl

serve_approval-Borne_example :
    let access = require_approver is_space lower jwks guarded_settings (some "Bearer secret") in
    ((serve_approval env settings (approve "-") access asked).1 ≡ asked)
    ⊎ ((token : String) × (extract_bearer_token is_space lower jwks (some "Bearer secret")
          ≡ some token)
        × (token ≢ "")
        × ((guarded_settings.operator_approver_token ≡ some token)
            ⊎ (guarded_settings.operator_admin_token ≡ some token)))
serve_approval-Borne_example =
    serve_approval-Borne env settings is_space lower jwks guarded_settings (approve "-")
      (some "Bearer secret") asked refl refl

serve_operator-Reads_example :
    Reads env
      (λ t. 0)
      30
      guarded_settings
      []
      is_space
      lower
      jwks
      (some "Bearer secret")
      asked
      (serve_operator env
        (λ t. 0)
        30
        guarded_settings
        []
        is_space
        lower
        jwks
        run_reconciliation
        (some "Bearer secret")
        asked).1
serve_operator-Reads_example =
    serve_operator-Reads env (λ t. 0) 30 guarded_settings [] is_space lower jwks run_reconciliation
      (some "Bearer secret") asked
