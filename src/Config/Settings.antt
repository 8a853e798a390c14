-- ===== src/Config/Settings.antt =====
-- The settings of app/config.py that app/config_validation.py, app/auth, app/operator and the credentials of the
-- Daraja client read.
use mpesa_mcp_server.Common.{String, Bool, Option, none, ◌==◌, if◌then◌else◌}

pub record Settings : Type 0 where
  pub app_env : String
  pub database_url : String
  pub storage_mode : String
  pub daraja_mode : String
  pub daraja_consumer_key : Option String
  pub daraja_consumer_secret : Option String
  pub daraja_passkey : Option String
  pub daraja_shortcode : Option String
  pub daraja_callback_url : Option String
  pub daraja_production_consumer_key : Option String
  pub daraja_production_consumer_secret : Option String
  pub daraja_production_passkey : Option String
  pub daraja_production_shortcode : Option String
  pub daraja_production_callback_url : Option String
  pub callback_shared_secret : Option String
  pub callback_source_verification_mode : String
  pub trusted_proxy_shared_secret : Option String
  pub callback_replay_mode : String
  pub rate_limit_mode : String
  pub payment_provider : String
  pub redis_url : String
  pub auth_mode : String
  pub operator_auth_enabled : Bool
  pub operator_viewer_token : Option String
  pub operator_approver_token : Option String
  pub operator_admin_token : Option String
  pub oidc_issuer : Option String
  pub oidc_audience : Option String
  pub oidc_provider_mode : String
  pub oidc_development_subject : String
  pub oidc_development_email : Option String
  pub oidc_development_display_name : String
  pub oidc_development_groups : String
  pub oidc_viewer_groups : String
  pub oidc_approver_groups : String
  pub oidc_admin_groups : String

-- `getattr(settings, name)` for the credentials of the production mode and those of any mode.
abbrev pub credential_of : Settings → String → Option String
credential_of s name =
    if name == "daraja_production_consumer_key"
    then s.daraja_production_consumer_key
    else if name == "daraja_production_consumer_secret"
    then s.daraja_production_consumer_secret
    else if name == "daraja_production_passkey"
    then s.daraja_production_passkey
    else if name == "daraja_production_shortcode"
    then s.daraja_production_shortcode
    else if name == "daraja_production_callback_url"
    then s.daraja_production_callback_url
    else if name == "daraja_consumer_key"
    then s.daraja_consumer_key
    else if name == "daraja_consumer_secret"
    then s.daraja_consumer_secret
    else if name == "daraja_passkey"
    then s.daraja_passkey
    else if name == "daraja_shortcode"
    then s.daraja_shortcode
    else if name == "daraja_callback_url"
    then s.daraja_callback_url
    else none
