-- ===== src/Auth/Security.antt =====
-- The authentication of operators, app/auth/security.py and the development provider of
-- app/auth/oidc.py. The log lines are left out. `lower` is `str.lower`, `is_space` is `str.isspace`
-- of a character, and `jwks` is what the provider with signed tokens makes of a credential.
pub mod Laws
pub mod Grants
use mpesa_mcp_server.Common.{
  ℕ, String, Bool, true, false, not, ◌||◌, Option, none, some, List, [], ◌∷◌, ◌==◌, leb,
  if◌then◌else◌,
}
use mpesa_mcp_server.Common.Exec.{Result, Error, ok, err, exception}
use mpesa_mcp_server.Config.Settings.{Settings}
use mpesa_mcp_server.Policy.ToolPolicy.{strip}
use mpesa_mcp_server.Callbacks.SourceVerifier.{compare_digest}
use mpesa_mcp_server.Auth.Identity.{
  OperatorRole, OperatorIdentity, viewer, approver, admin, role_level, role,
}
use mpesa_mcp_server.Auth.Mapping.{from_settings, map_groups, parse_csv}
use Prim.Native.String as S
use Prim.Native.Char.{Char}

-- How a dependency of a route ends: an `HTTPException` has a status code and a detail.
pub data Access : Type 0 where
  granted : OperatorIdentity → Access
  http_exception : ℕ → String → Access
  failure : Error → Access

abbrev pub unauthorized : Access
unauthorized = http_exception 401 "Invalid operator credentials."

abbrev pub local_admin : OperatorIdentity
local_admin = record {
  subject = "local-admin";
  email = none;
  display_name = "Local Administrator";
  first_role = admin;
  more_roles = [];
  groups = [];
}

-- `text.partition(" ")` where there is a space: what stands before and after it.
abbrev pub add_to_scheme : Char → Option (String × String) → Option (String × String)
add_to_scheme c none = none
add_to_scheme c (some (scheme, token)) = some (S.◌∷◌ c scheme, token)

unfoldable pub partition : String → Option (String × String)
partition S.[] = none
partition (S.◌∷◌ c rest) =
    let further = partition rest in
    if S.◌∷◌ c S.[] == " " then some (S.[], rest) else add_to_scheme c further

abbrev pub token_identity : String → String → OperatorRole → OperatorIdentity
token_identity subject display_name role = record {
  subject = subject;
  email = none;
  display_name = display_name;
  first_role = role;
  more_roles = [];
  groups = [];
}

abbrev pub token_map : Settings → List (Option String × OperatorIdentity)
token_map s =
    (s.operator_viewer_token, token_identity "operator-viewer" "Operator Viewer" viewer)
    ∷ (s.operator_approver_token, token_identity "operator-approver" "Operator Approver" approver)
    ∷ (s.operator_admin_token, token_identity "operator-admin" "Operator Administrator" admin)
    ∷ []

abbrev pub on_match :
    Result Bool
    → OperatorIdentity
    → Result (Option OperatorIdentity)
    → Result (Option OperatorIdentity)
on_match (err e) identity rest = err e
on_match (ok same) identity rest = if same then ok (some identity) else rest

-- The loop of `TokenIdentityProvider.authenticate`.
unfoldable pub find_token :
    String → List (Option String × OperatorIdentity) → Result (Option OperatorIdentity)
find_token credential [] = ok none
find_token credential ((none, identity) ∷ tokens) = find_token credential tokens
find_token credential ((some configured_token, identity) ∷ tokens) =
    let rest = find_token credential tokens in
    if configured_token == ""
    then rest
    else on_match (compare_digest credential configured_token) identity rest

-- `TokenIdentityProvider.authenticate`
unfoldable pub token_authenticate : Settings → Option String → Result (Option OperatorIdentity)
token_authenticate s none = ok none
token_authenticate s (some credential) = find_token credential (token_map s)

-- `_require_role`
unfoldable pub require_role : OperatorRole → OperatorIdentity → Access
require_role minimum_role principal =
    if leb (role_level minimum_role) (role_level (role principal))
    then granted principal
    else http_exception 403 "Operator is not authorized for this action."

-- A role check that depends on the principal.
abbrev pub require : OperatorRole → Access → Access
require minimum_role (granted principal) = require_role minimum_role principal
require minimum_role (http_exception code detail) = http_exception code detail
require minimum_role (failure e) = failure e

module _ (is_space : Char → Bool) where
  abbrev pub identity_with_roles :
      Settings → List String → List OperatorRole → Option OperatorIdentity
  identity_with_roles s groups [] = none
  identity_with_roles s groups (r ∷ rs) = some (record {
    subject = s.oidc_development_subject;
    email = s.oidc_development_email;
    display_name = s.oidc_development_display_name;
    first_role = r;
    more_roles = rs;
    groups = groups;
  })

  -- `DevelopmentOIDCIdentityProvider.__init__`
  unfoldable pub development_identity : Settings → Option OperatorIdentity
  development_identity s =
      let groups = parse_csv is_space s.oidc_development_groups in
      identity_with_roles s groups (map_groups is_space (from_settings is_space s) groups).roles

  -- `DevelopmentOIDCIdentityProvider.authenticate`
  unfoldable pub development_authenticate : Settings → Option String → Option OperatorIdentity
  development_authenticate s none = none
  development_authenticate s (some credential) =
      if strip is_space credential == "" then none else development_identity s

  module _ (lower : String → String)
      (jwks : Settings → Option String → Option OperatorIdentity) where
    abbrev pub bearer : Option (String × String) → Option String
    bearer none = none
    bearer (some (scheme, token)) =
        if not (lower scheme == "bearer") || (token == "") then none else some token

    -- `_extract_bearer_token`
    unfoldable pub extract_bearer_token : Option String → Option String
    extract_bearer_token none = none
    extract_bearer_token (some authorization) = bearer (partition authorization)

    -- `_identity_provider(container).authenticate(token)`
    unfoldable pub authenticate : Settings → Option String → Result (Option OperatorIdentity)
    authenticate s credential =
        if s.auth_mode == "token"
        then token_authenticate s credential
        else if s.auth_mode == "oidc"
        then (if s.oidc_provider_mode == "development"
            then ok (development_authenticate s credential)
            else if s.oidc_provider_mode == "jwks"
            then ok (jwks s credential)
            else err (exception "AUTH_MODE must be one of: token, oidc."))
        else err (exception "AUTH_MODE must be one of: token, oidc.")

    abbrev pub access_of : Result (Option OperatorIdentity) → Access
    access_of (err e) = failure e
    access_of (ok none) = unauthorized
    access_of (ok (some identity)) = granted identity

    abbrev pub with_token : Settings → Option String → Access
    with_token s none = unauthorized
    with_token s (some token) = access_of (authenticate s (some token))

    -- `get_operator_principal`
    unfoldable pub get_operator_principal : Settings → Option String → Access
    get_operator_principal s authorization =
        if not s.operator_auth_enabled
        then granted local_admin
        else with_token s (extract_bearer_token authorization)

    -- `require_viewer`
    abbrev pub require_viewer : Settings → Option String → Access
    require_viewer s authorization = require viewer (get_operator_principal s authorization)

    -- `require_approver`
    abbrev pub require_approver : Settings → Option String → Access
    require_approver s authorization = require approver (get_operator_principal s authorization)

    -- `require_admin`
    abbrev pub require_admin : Settings → Option String → Access
    require_admin s authorization = require admin (get_operator_principal s authorization)
