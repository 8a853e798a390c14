-- ===== src/Callbacks/Routes/Once.antt =====
-- What the callback route of app/callbacks/routes.py lets through to the handler, and how often.
use mpesa_mcp_server.Common.{
  ℕ, ◌+◌, ◌<◌, String, Bool, true, false, ◌≡◌, refl, sym, ap, ◌∙◌, subst, ◌⊎◌, inl, inr, Option,
  none, some, List, [], ◌∷◌, All, Bool-cases,
}
use mpesa_mcp_server.Common.Dict.{Dict, IsDict}
use mpesa_mcp_server.Common.Json.{Json, str}
use mpesa_mcp_server.Common.Exec.{
  Exec, Result, ok, err, transition_error, infrastructure_unavailable, exception,
}
use mpesa_mcp_server.Audit.Quiet.{log_event-Quiet}
use mpesa_mcp_server.Callbacks.Payload.{Builtins}
use mpesa_mcp_server.Callbacks.Results.{CallbackProcessingResult}
use mpesa_mcp_server.Callbacks.Replay.{check_and_store, seconds}
use mpesa_mcp_server.Callbacks.Replay.Laws.{Check, after_checks, accepted_once}
use mpesa_mcp_server.Callbacks.SourceVerifier.{CallbackSourceVerificationDecision, verify}
use mpesa_mcp_server.Callbacks.Routes.{
  CallbackSettings, CallbackResponse, refused, http_exception, Site, build_callback_replay_key,
  log_refusal, answer_of, run_handler, after_replay_check, check_replay, check_source, check_secret,
  secret_matches, refusal_reason, handle_stk_callback,
}
use mpesa_mcp_server.World.{Env, World}

module _ (env : Env) (builtins : Builtins) (quote : String → String) where
  log_refusal-keeps :
      (event_type : String) (payload : Dict Json) (response : CallbackResponse) (site : Site)
      → let (answer, v) = log_refusal env builtins quote event_type payload response site in
        (answer ≡ ok response)
        × ((v.seen ≡ site.seen) × (v.world.transactions ≡ site.world.transactions))
  unfolding log_refusal
  log_refusal-keeps event_type payload response site = (
    refl,
    (
      refl,
      ((log_event-Quiet env event_type payload (some "mpesa_callback") none none).at
          site.world).transactions,
    ),
  )

  module _ (settings : CallbackSettings)
      (process : Dict Json → Exec World CallbackProcessingResult) where
    answer_of-seen :
        (result : Result CallbackProcessingResult) (site : Site)
        → (answer_of env builtins quote result site).1.seen ≡ site.seen
    answer_of-seen (ok result) site = refl
    answer_of-seen (err (infrastructure_unavailable reason)) site =
        (log_refusal-keeps "stk_callback_infrastructure_unavailable" (("reason", str reason) ∷ [])
          (refused 503 "infrastructure_unavailable" reason) site).1.0
    answer_of-seen (err (transition_error f t)) site = refl
    answer_of-seen (err (exception text)) site = refl

    run_handler-seen :
        (payload : Dict Json) (site : Site)
        → (run_handler env builtins quote settings process payload site).1.seen ≡ site.seen
    run_handler-seen payload site = answer_of-seen (process payload site.world).0 _

    -- What a callback must have passed to be checked for a replay and processed.
    abbrev pub Trusted : Option String → Dict String → Type 0
    Trusted callback_secret headers =
        (secret_matches env builtins quote settings process settings.callback_shared_secret
            callback_secret
          ≡ ok true)
        × ((d : CallbackSourceVerificationDecision) × (verify settings.callback_source_verifier
                headers
              ≡ ok d)
            × (d.allowed ≡ true))

    abbrev Untouched : Site → Site → Type 0
    Untouched site v = (v.seen ≡ site.seen) × (v.world.transactions ≡ site.world.transactions)

    check_source-gate :
        (now : ℕ) (payload : Dict Json) (verified : Result CallbackSourceVerificationDecision)
        (site : Site)
        → Untouched site
            (check_source env builtins quote settings process now payload verified site).1
          ⊎ ((d : CallbackSourceVerificationDecision) × (verified ≡ ok d) × (d.allowed ≡ true))
    unfolding check_source
    check_source-gate now payload (err e) site = inl (refl, refl)
    check_source-gate now payload (ok d) site = elim (Bool-cases d.allowed) [
      | inl trusted ↦ inr (d, refl, trusted)
      | inr untrusted ↦ inl (
          rw untrusted
            (log_refusal-keeps "stk_callback_source_rejected" (("reason", str d.reason) ∷ [])
              (refused 403 "callback_source_rejected" d.reason) site).1)
    ]

    check_secret-gate :
        (now : ℕ) (headers : Dict String) (payload : Dict Json) (matching : Result Bool)
        (reason : String) (site : Site)
        → Untouched site
            (check_secret env builtins quote settings process now headers payload matching reason
              site).1
          ⊎ ((matching ≡ ok true)
              × ((d : CallbackSourceVerificationDecision) × (verify
                      settings.callback_source_verifier headers
                    ≡ ok d)
                  × (d.allowed ≡ true)))
    unfolding check_secret
    check_secret-gate now headers payload (err e) reason site = inl (refl, refl)
    check_secret-gate now headers payload (ok false) reason site =
        inl
          (log_refusal-keeps "stk_callback_rejected" (("reason", str reason) ∷ [])
            (http_exception 401 "Invalid callback credentials.") site).1
    check_secret-gate now headers payload (ok true) reason site =
        elim (check_source-gate now payload (verify settings.callback_source_verifier headers)
          site) [ inl same ↦ inl same | inr trusted ↦ inr (refl, trusted) ]

    -- A callback whose secret or whose source is not accepted changes no transaction and uses up no
    -- replay key.
    pub handle_stk_callback-Trusted :
        (now : ℕ) (callback_secret : Option String) (headers : Dict String) (payload : Dict Json)
        (site : Site)
        → let v =
            (handle_stk_callback env builtins quote settings process now callback_secret headers
              payload site).1 in
          ((v.seen ≡ site.seen) × (v.world.transactions ≡ site.world.transactions))
          ⊎ Trusted callback_secret headers
    unfolding handle_stk_callback
    handle_stk_callback-Trusted now callback_secret headers payload site =
        check_secret-gate now headers payload
          (secret_matches env builtins quote settings process settings.callback_shared_secret
            callback_secret)
          (refusal_reason env builtins quote settings process callback_secret) site

    check_replay-refuses :
        (again : ℕ) (payload : Dict Json) (u : Site)
        → settings.callback_replay_protection_enabled ≡ true
        → let (d, seen) =
            check_and_store
              (build_callback_replay_key env builtins quote payload)
              settings.callback_replay_window_seconds
              again
              u.seen in
          (d.allowed ≡ false)
          → (seen ≡ u.seen)
          → let (answer, v) = check_replay env builtins quote settings process again payload u in
            (answer ≡ ok (refused 409 "duplicate_callback" d.reason))
            × ((v.seen ≡ u.seen) × (v.world.transactions ≡ u.world.transactions))
    unfolding check_replay after_replay_check
    check_replay-refuses again payload u enabled duplicate same =
        let (d, seen) =
          check_and_store (build_callback_replay_key env builtins quote payload)
            settings.callback_replay_window_seconds again u.seen in
        let kept =
          log_refusal-keeps "stk_callback_duplicate"
            (("reason", str d.reason) ∷ ("replay_key", str d.key) ∷ [])
            (refused 409 "duplicate_callback" d.reason) (record u { seen = seen }) in
        rw (enabled, duplicate) (kept.0, (kept.1.0 ∙ same, kept.1.1))

    check_replay-seen :
        (now : ℕ) (payload : Dict Json) (site : Site)
        → settings.callback_replay_protection_enabled ≡ true
        → let (d, seen) =
            check_and_store
              (build_callback_replay_key env builtins quote payload)
              settings.callback_replay_window_seconds
              now
              site.seen in
          d.allowed ≡ true
          → (check_replay env builtins quote settings process now payload site).1.seen ≡ seen
    unfolding check_replay after_replay_check
    check_replay-seen now payload site enabled accepted =
        rw (enabled, accepted) (run_handler-seen payload _)

    -- With replay protection on: when a callback is accepted, then to the end of its window every
    -- callback with the same key is refused as a duplicate and changes no transaction, after
    -- whatever other checks, and whatever the handler made of the first one, a failure for want of
    -- infrastructure included.
    pub check_replay_once :
        (now again : ℕ) (first again_payload : Dict Json) (checks : List Check) (site u : Site)
        → settings.callback_replay_protection_enabled ≡ true
        → 0 < settings.callback_replay_window_seconds
        → IsDict site.seen
        → build_callback_replay_key env builtins quote again_payload
          ≡ build_callback_replay_key env builtins quote first
        → (check_and_store
            (build_callback_replay_key env builtins quote first)
            settings.callback_replay_window_seconds
            now
            site.seen).0.allowed
          ≡ true
        → u.seen
          ≡ after_checks checks
              (check_replay env builtins quote settings process now first site).1.seen
        → All (λ c. c.now < now + seconds settings.callback_replay_window_seconds) checks
        → again < now + seconds settings.callback_replay_window_seconds
        → let (answer, v) =
            check_replay env builtins quote settings process again again_payload u in
          ((reason : String) × (answer ≡ ok (refused 409 "duplicate_callback" reason)))
          × (v.seen ≡ u.seen)
          × (v.world.transactions ≡ u.world.transactions)
    check_replay_once now again first again_payload checks site u enabled window dict same accepted
          later early soon =
        let key = build_callback_replay_key env builtins quote first in
        let key' = build_callback_replay_key env builtins quote again_payload in
        let w = settings.callback_replay_window_seconds in
        let d : u.seen ≡ after_checks checks (check_and_store key w now site.seen).1 =
          later ∙ ap (after_checks checks) (check_replay-seen now first site enabled accepted) in
        let once =
          accepted_once key w now again w checks site.seen dict window accepted early soon in
        let once' =
          subst
            (λ k.
              ((check_and_store k w again u.seen).0.allowed ≡ false)
              × ((check_and_store k w again u.seen).1 ≡ u.seen))
            (sym same)
            (subst
              (λ s.
                ((check_and_store key w again s).0.allowed ≡ false)
                × ((check_and_store key w again s).1 ≡ s))
              (sym d) once) in
        let refusal = check_replay-refuses again again_payload u enabled once'.0 once'.1 in
        ((_, refusal.0), refusal.1.0, refusal.1.1)
