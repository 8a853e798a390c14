-- ===== src/Daraja/Credentials.antt =====
-- The address and the credentials of `RealDarajaClient`, app/daraja/client.py.
use mpesa_mcp_server.Common.{String, Option, none, some, [], ◌∷◌, ◌==◌, if◌then◌else◌}
use mpesa_mcp_server.Common.Text.{concat}
use mpesa_mcp_server.Daraja.Calls.{Surroundings, Call, ClientError, value_error, pure, raise, ◌>>◌}
use Prim.Native.String as S
use Prim.Native.Char.{Char}

-- A value that must be there.
abbrev pub or_raise : {A : Type 0} → ClientError → Option A → Call A
or_raise e none = raise e
or_raise e (some a) = pure a

-- A text that is not empty: `isinstance(value, str) and value != ""`
abbrev pub filled : Option String → Option String
filled none = none
filled (some s) = if s == "" then none else some s

abbrev pub or_else_option : Option String → Option String → Option String
or_else_option none other = other
or_else_option (some s) other = some s

abbrev pub add_unless_slash : Char → String → String
add_unless_slash c S.[] = if S.◌∷◌ c S.[] == "/" then S.[] else S.◌∷◌ c S.[]
add_unless_slash c (S.◌∷◌ d s) = S.◌∷◌ c (S.◌∷◌ d s)

-- `url.rstrip("/")`
abbrev pub strip_slashes : String → String
strip_slashes S.[] = S.[]
strip_slashes (S.◌∷◌ c s) = add_unless_slash c (strip_slashes s)

module _ (env : Surroundings) where
  -- `_resolve_base_url`
  unfoldable pub resolve_base_url : String
  resolve_base_url =
      if env.settings.daraja_mode == "sandbox"
      then env.settings.daraja_sandbox_base_url
      else if env.settings.daraja_mode == "production"
      then env.settings.daraja_production_base_url
      else "https://sandbox.safaricom.co.ke"

  abbrev pub or_resolved : Option String → String
  or_resolved none = resolve_base_url
  or_resolved (some url) = if url == "" then resolve_base_url else url

  -- `self._base_url` of `__init__`
  unfoldable pub client_base_url : String
  client_base_url = strip_slashes (or_resolved env.base_url)

  -- `_required_credential`
  unfoldable pub required_credential : String → Call String
  required_credential credential_name =
      let mode = env.settings.daraja_mode in
      let setting_name = concat ("daraja_" ∷ credential_name ∷ []) in
      let mode_setting_name = concat ("daraja_" ∷ mode ∷ "_" ∷ credential_name ∷ []) in
      or_raise
        (value_error (
          concat (
            env.upper mode_setting_name
            ∷ " or "
            ∷ env.upper setting_name
            ∷ " is required for Daraja "
            ∷ mode
            ∷ " mode."
            ∷ [])))
        (or_else_option (filled (env.settings.attribute mode_setting_name))
          (filled (env.settings.attribute setting_name)))

  -- `_required_setting`
  unfoldable pub required_setting : String → Call String
  required_setting name =
      or_raise
        (value_error (
          concat (
            env.upper name
            ∷ " is required for Daraja "
            ∷ env.settings.daraja_mode
            ∷ " mode."
            ∷ [])))
        (filled (env.settings.attribute name))

  -- `_validate_production_credentials`
  unfoldable pub validate_production_credentials : Call (Unit {0})
  unfolding required_credential
  validate_production_credentials = do
    required_credential "consumer_key"
    required_credential "consumer_secret"
    required_credential "passkey"
    required_credential "shortcode"
    required_credential "callback_url"
    pure tt
