-- ===== src/Config/Validation.antt =====
-- app/config_validation.py. `is_space` is `str.isspace` of a character.
pub mod Laws
use mpesa_mcp_server.Common.{
  String, Bool, true, false, not, ◌&&◌, ◌||◌, Option, none, some, List, [], ◌∷◌, ◌++◌, map, ◌==◌,
  contains, if◌then◌else◌,
}
use mpesa_mcp_server.Common.Text.{concat, join}
use mpesa_mcp_server.Common.Exec.{Result, ok, err, exception}
use mpesa_mcp_server.Policy.ToolPolicy.{strip}
use mpesa_mcp_server.Config.Settings.{Settings}
use Prim.Native.String as S
use Prim.Native.Char.{Char}

pub record ConfigValidationIssue : Type 0 where
  pub setting : String
  pub reason : String

abbrev pub issue : String → String → ConfigValidationIssue
issue setting reason = record { setting = setting; reason = reason }

-- `text.startswith(prefix)`
abbrev pub starts_with : String → String → Bool
starts_with S.[] text = true
starts_with (S.◌∷◌ c prefix) S.[] = false
starts_with (S.◌∷◌ c prefix) (S.◌∷◌ d text) =
    let rest = starts_with prefix text in if S.◌∷◌ c S.[] == S.◌∷◌ d S.[] then rest else false

-- `text.startswith(prefixes)`
abbrev pub starts_with_any : List String → String → Bool
starts_with_any [] text = false
starts_with_any (prefix ∷ prefixes) text =
    let rest = starts_with_any prefixes text in if starts_with prefix text then true else rest

module _ (is_space : Char → Bool) where
  -- `_has_value`
  unfoldable pub has_value : Option String → Bool
  has_value none = false
  has_value (some value) = not (strip is_space value == "")

  -- An issue for each required setting without a value.
  unfoldable pub missing : String → List (String × Option String) → List ConfigValidationIssue
  missing reason [] = []
  missing reason ((name, value) ∷ required) =
      let rest = missing reason required in
      if has_value value then rest else issue name reason ∷ rest

  -- `_validate_daraja_production_settings`
  unfoldable pub validate_daraja_production_settings : Settings → List ConfigValidationIssue
  validate_daraja_production_settings s =
      if not (s.daraja_mode == "production")
      then []
      else missing "required when DARAJA_MODE=production" (
          ("DARAJA_PRODUCTION_CONSUMER_KEY", s.daraja_production_consumer_key)
          ∷ ("DARAJA_PRODUCTION_CONSUMER_SECRET", s.daraja_production_consumer_secret)
          ∷ ("DARAJA_PRODUCTION_PASSKEY", s.daraja_production_passkey)
          ∷ ("DARAJA_PRODUCTION_SHORTCODE", s.daraja_production_shortcode)
          ∷ ("DARAJA_PRODUCTION_CALLBACK_URL", s.daraja_production_callback_url)
          ∷ [])

  -- `_validate_operator_auth_settings`
  unfoldable pub validate_operator_auth_settings : Settings → List ConfigValidationIssue
  unfolding has_value
  validate_operator_auth_settings s =
      if not s.operator_auth_enabled || not (s.auth_mode == "token")
      then []
      else if has_value s.operator_viewer_token
          || has_value s.operator_approver_token
          || has_value s.operator_admin_token
      then []
      else issue "OPERATOR_AUTH_ENABLED" "at least one operator token is required when enabled" ∷ []

  -- `_validate_identity_settings`
  unfoldable pub validate_identity_settings : Settings → List ConfigValidationIssue
  unfolding missing
  validate_identity_settings s =
      if not (contains ("token" ∷ "oidc" ∷ []) s.auth_mode)
      then issue "AUTH_MODE" "must be one of token or oidc" ∷ []
      else if not (s.auth_mode == "oidc")
      then []
      else (if contains ("development" ∷ "jwks" ∷ []) s.oidc_provider_mode
          then []
          else issue "OIDC_PROVIDER_MODE" "must be one of development or jwks" ∷ [])
        ++ missing "required when AUTH_MODE=oidc"
            (("OIDC_ISSUER", s.oidc_issuer) ∷ ("OIDC_AUDIENCE", s.oidc_audience) ∷ [])

  -- `_validate_callback_secret_settings`
  unfoldable pub validate_callback_secret_settings : Settings → List ConfigValidationIssue
  unfolding has_value
  validate_callback_secret_settings s =
      if contains ("development" ∷ "dev" ∷ "local" ∷ "test" ∷ []) s.app_env
      then []
      else if has_value s.callback_shared_secret
      then []
      else issue "CALLBACK_SHARED_SECRET" "required outside development environments" ∷ []

  -- `_validate_callback_source_verification_settings`
  unfoldable pub validate_callback_source_verification_settings :
      Settings → List ConfigValidationIssue
  unfolding has_value
  validate_callback_source_verification_settings s =
      let mode = s.callback_source_verification_mode in
      if not (contains ("development" ∷ "trusted_proxy" ∷ "strict_block" ∷ []) mode)
      then issue "CALLBACK_SOURCE_VERIFICATION_MODE"
          "must be one of development, trusted_proxy, strict_block"
        ∷ []
      else (if s.daraja_mode == "production" && mode == "development"
          then issue "CALLBACK_SOURCE_VERIFICATION_MODE"
              "development mode is not allowed when DARAJA_MODE=production"
            ∷ []
          else [])
        ++ (if mode == "trusted_proxy" && not (has_value s.trusted_proxy_shared_secret)
            then issue "TRUSTED_PROXY_SHARED_SECRET"
                "required when CALLBACK_SOURCE_VERIFICATION_MODE=trusted_proxy"
              ∷ []
            else [])

  -- `_validate_redis_settings`
  unfoldable pub validate_redis_settings : Settings → List ConfigValidationIssue
  unfolding has_value
  validate_redis_settings s =
      if not (s.rate_limit_mode == "redis" || s.callback_replay_mode == "redis")
      then []
      else if has_value (some s.redis_url)
          && starts_with_any ("redis://" ∷ "rediss://" ∷ []) s.redis_url
      then []
      else issue "REDIS_URL"
          "must be a redis:// or rediss:// URL when Redis-backed modes are enabled"
        ∷ []

  -- `_validate_postgres_settings`
  unfoldable pub validate_postgres_settings : Settings → List ConfigValidationIssue
  unfolding has_value
  validate_postgres_settings s =
      if not (s.storage_mode == "postgres")
      then []
      else if has_value (some s.database_url)
          && starts_with_any ("postgresql://" ∷ "postgresql+" ∷ "postgres://" ∷ []) s.database_url
      then []
      else issue "DATABASE_URL" "must be a PostgreSQL URL when STORAGE_MODE=postgres" ∷ []

  unfoldable pub startup_issues : Settings → List ConfigValidationIssue
  startup_issues s =
      validate_daraja_production_settings s
      ++ (validate_identity_settings s
          ++ (validate_operator_auth_settings s
              ++ (validate_callback_secret_settings s
                  ++ (validate_callback_source_verification_settings s
                      ++ (validate_redis_settings s ++ validate_postgres_settings s)))))

  abbrev pub issue_text : ConfigValidationIssue → String
  issue_text i = concat (i.setting ∷ ": " ∷ i.reason ∷ [])

  abbrev pub raise_issues : List ConfigValidationIssue → Result (Unit {0})
  raise_issues [] = ok tt
  raise_issues (i ∷ issues) = err (
      exception
        (concat ("Invalid startup configuration: " ∷ join "; " (map issue_text (i ∷ issues)) ∷ [])))

  -- `validate_startup_settings`
  unfoldable pub validate_startup_settings : Settings → Result (Unit {0})
  validate_startup_settings s = raise_issues (startup_issues s)
