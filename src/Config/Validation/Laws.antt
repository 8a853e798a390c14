-- ===== src/Config/Validation/Laws.antt =====
-- What a start in the production mode may rely on, by app/config_validation.py.
use mpesa_mcp_server.Common.{
  String, Bool, true, ◌≡◌, ◌≢◌, refl, sym, ◌∙◌, ap, Option, none, some, List, [], ◌∷◌, ◌++◌, inl,
  inr, arith, ◌==◌, eq_iff, eq_of_test, Bool-cases, subst,
}
use mpesa_mcp_server.Common.Text.{concat}
use mpesa_mcp_server.Common.Exec.{ok}
use mpesa_mcp_server.Policy.ToolPolicy.{strip}
use mpesa_mcp_server.Config.Settings.{Settings, credential_of}
use mpesa_mcp_server.Config.Validation.{
  ConfigValidationIssue, has_value, missing, validate_daraja_production_settings,
  validate_callback_source_verification_settings, startup_issues, raise_issues,
  validate_startup_settings, validate_identity_settings, validate_operator_auth_settings,
  validate_callback_secret_settings, validate_redis_settings, validate_postgres_settings,
}
use mpesa_mcp_server.Daraja.Calls.{Surroundings, Client, returned}
use mpesa_mcp_server.Daraja.Credentials.{
  required_credential, validate_production_credentials, filled,
}
use Prim.Native.Char.{Char}

append_nil : {A : Type 0} (xs ys : List A) → xs ++ ys ≡ [] → (xs ≡ []) × (ys ≡ [])
append_nil [] ys h = (refl, h)
append_nil (x ∷ xs) ys h = absurd (cc)

module _ (is_space : Char → Bool) where
  no_issues :
      (issues : List ConfigValidationIssue) → raise_issues is_space issues ≡ ok tt → issues ≡ []
  no_issues [] h = refl
  no_issues (i ∷ issues) h = absurd (cc)

  has_value-filled :
      (value : Option String)
      → has_value is_space value ≡ true
      → (v : String) × (filled value ≡ some v)
  unfolding has_value strip
  has_value-filled none h = absurd (cc)
  has_value-filled (some v) h = elim (Bool-cases (v == "")) [
    | inl empty ↦ absurd (blank v (eq_of_test v "" empty) h)
    | inr given ↦ (v, rw given)
  ]
    where
      blank : (v : String) → v ≡ "" → has_value is_space (some v) ≡ true → ⊥
      blank v e h =
          let none_there : has_value is_space (some "") ≡ true =
            subst (λ w. has_value is_space (some w) ≡ true) e h in
          cc

  missing-cons :
      (reason name : String) (value : Option String) (required : List (String × Option String))
      → missing is_space reason ((name, value) ∷ required) ≡ []
      → (has_value is_space value ≡ true) × (missing is_space reason required ≡ [])
  unfolding missing
  missing-cons reason name value required h = elim (Bool-cases (has_value is_space value)) [
    | inl given ↦ (given, rw given at h)
    | inr absent ↦ absurd (ground arith)
  ]

  validated_parts :
      (s : Settings)
      → validate_startup_settings is_space s ≡ ok tt
      → (validate_daraja_production_settings is_space s ≡ [])
        × (validate_callback_source_verification_settings is_space s ≡ [])
  unfolding validate_startup_settings startup_issues
  validated_parts s h =
      let (production, a) = append_nil _ _ (no_issues _ h) in
      let (identity, b) = append_nil (validate_identity_settings is_space s) _ a in
      let (operators, c) = append_nil (validate_operator_auth_settings is_space s) _ b in
      let (secret, d) = append_nil (validate_callback_secret_settings is_space s) _ c in
      let (source, e) =
        append_nil (validate_callback_source_verification_settings is_space s)
          (validate_redis_settings is_space s ++ validate_postgres_settings is_space s) d in
      (production, source)

  -- The production credentials, when there is no issue with them.
  production_given :
      (s : Settings)
      → s.daraja_mode ≡ "production"
      → validate_daraja_production_settings is_space s ≡ []
      → (has_value is_space s.daraja_production_consumer_key ≡ true)
        × (has_value is_space s.daraja_production_consumer_secret ≡ true)
        × (has_value is_space s.daraja_production_passkey ≡ true)
        × (has_value is_space s.daraja_production_shortcode ≡ true)
        × (has_value is_space s.daraja_production_callback_url ≡ true)
  unfolding validate_daraja_production_settings
  production_given s mode h =
      let on : (s.daraja_mode == "production") ≡ true = (eq_iff _ _).1 mode in
      let (key, a) = missing-cons _ _ _ _ (rw on at h) in
      let (secret, b) = missing-cons _ _ _ _ a in
      let (passkey, c) = missing-cons _ _ _ _ b in
      let (shortcode, d) = missing-cons _ _ _ _ c in
      (key, secret, passkey, shortcode, (missing-cons _ _ _ _ d).0)

  verified_source :
      (s : Settings)
      → s.daraja_mode ≡ "production"
      → validate_callback_source_verification_settings is_space s ≡ []
      → s.callback_source_verification_mode ≢ "development"
  unfolding validate_callback_source_verification_settings
  verified_source s mode h development =
      let on : (s.daraja_mode == "production") ≡ true = (eq_iff _ _).1 mode in
      let known : ("development" == s.callback_source_verification_mode) ≡ true =
        (eq_iff _ _).1 (sym development) in
      let open_mode : (s.callback_source_verification_mode == "development") ≡ true =
        (eq_iff _ _).1 development in
      absurd (ground arith)

  -- A credential of the mode that is given.
  credential :
      (env : Surroundings) (name : String) (value : Option String) (c : Client)
      → env.settings.attribute (concat ("daraja_" ∷ env.settings.daraja_mode ∷ "_" ∷ name ∷ []))
        ≡ value
      → has_value is_space value ≡ true
      → (v : String) × (required_credential env name c ≡ (returned v, c))
  unfolding required_credential
  credential env name value c there given =
      let (v, full) = has_value-filled value given in (v, rw (there, full))

  -- In the production mode a validated configuration has the credentials that the Daraja client of
  -- these settings requires, so that making the client does not raise, and its callbacks are
  -- verified: the development mode of the source verification is off.
  pub validated_production :
      (s : Settings) (env : Surroundings) (c : Client)
      → validate_startup_settings is_space s ≡ ok tt
      → s.daraja_mode ≡ "production"
      → env.settings.daraja_mode ≡ s.daraja_mode
      → env.settings.attribute ≡ credential_of s
      → (validate_production_credentials env c ≡ (returned tt, c))
        × (s.callback_source_verification_mode ≢ "development")
  unfolding validate_production_credentials concat
  validated_production s env c valid mode same attributes =
      let (production, source) = validated_parts s valid in
      let (key, secret, passkey, shortcode, url) = production_given s mode production in
      let attribute = λ (name : String).
        ap (λ m. env.settings.attribute (concat ("daraja_" ∷ m ∷ "_" ∷ name ∷ []))) (same ∙ mode)
        ∙ ap (λ f. f (concat ("daraja_" ∷ "production" ∷ "_" ∷ name ∷ []))) attributes in
      let (_, first) = credential env "consumer_key" _ c (attribute "consumer_key") key in
      let (_, second) = credential env "consumer_secret" _ c (attribute "consumer_secret") secret in
      let (_, third) = credential env "passkey" _ c (attribute "passkey") passkey in
      let (_, fourth) = credential env "shortcode" _ c (attribute "shortcode") shortcode in
      let (_, fifth) = credential env "callback_url" _ c (attribute "callback_url") url in
      (rw (first, second, third, fourth, fifth), verified_source s mode source)
