-- ===== src/Callbacks/Routes.antt =====
-- The callback route of app/callbacks/routes.py, with the replay key of app/callbacks/replay.py.
-- The handler is the one that the route is given; `quote` is `json.dumps` of a text.
pub mod Once
use mpesa_mcp_server.Common.{
  ℕ, String, Bool, true, false, not, ◌||◌, Option, none, some, List, [], ◌∷◌, ◌==◌, if◌then◌else◌,
}
use mpesa_mcp_server.Common.Dict.{Dict, lookup}
use mpesa_mcp_server.Common.Json.{Json, str}
use mpesa_mcp_server.Common.Text.{concat}
use mpesa_mcp_server.Common.Exec.{
  Exec, Result, Error, ok, err, transition_error, infrastructure_unavailable, exception,
}
use mpesa_mcp_server.Audit.Logger.{log_event}
use mpesa_mcp_server.Callbacks.Payload.{
  Builtins, as_dict_option, callback_of_body, extract_metadata, to_str_option,
}
use mpesa_mcp_server.Callbacks.Results.{CallbackProcessingResult}
use mpesa_mcp_server.Callbacks.Replay.{ReplayDecision, check_and_store}
use mpesa_mcp_server.Callbacks.SourceVerifier.{
  CallbackSourceVerifier, CallbackSourceVerificationDecision, compare_digest, verify,
}
use mpesa_mcp_server.World.{Env, World}

pub record CallbackSettings : Type 0 where
  pub callback_shared_secret : Option String
  pub callback_source_verifier : CallbackSourceVerifier
  pub callback_replay_protection_enabled : Bool
  pub callback_replay_window_seconds : ℕ

-- What the route answers: the handler's result, or a status code with its status and reason.
pub data CallbackResponse : Type 0 where
  processed : CallbackProcessingResult → CallbackResponse
  refused : ℕ → String → String → CallbackResponse
  -- an HTTPException, with its status code and detail
  http_exception : ℕ → String → CallbackResponse

-- The shared state and the keys that the replay protection has seen.
pub record Site : Type 0 where
  pub world : World
  pub seen : Dict ℕ

abbrev pub or_callback : Option (Dict Json) → Option (Dict Json) → Dict Json → Dict Json
or_callback (some callback) other payload = callback
or_callback none (some callback) payload = callback
or_callback none none payload = payload

-- `_extract_callback` of the replay key
unfoldable pub extract_callback : Dict Json → Dict Json
extract_callback payload =
    or_callback (callback_of_body (as_dict_option (lookup "Body" payload)))
      (as_dict_option (lookup "stkCallback" payload)) payload

abbrev pub or_empty : Option String → String
or_empty none = ""
or_empty (some s) = s

module _ (env : Env) (builtins : Builtins) (quote : String → String) where
  -- `_string_or_empty`
  abbrev pub string_or_empty : Option Json → String
  string_or_empty value = or_empty (to_str_option builtins value)

  -- `build_callback_replay_key`: the keys of the document are sorted
  unfoldable pub build_callback_replay_key : Dict Json → String
  build_callback_replay_key payload =
      let callback = extract_callback payload in
      let metadata = extract_metadata callback in
      concat (
        "callback_replay:"
        ∷ env.sha256 (
            concat (
              "{\"CheckoutRequestID\":"
              ∷ quote (string_or_empty (lookup "CheckoutRequestID" callback))
              ∷ ",\"MpesaReceiptNumber\":"
              ∷ quote (string_or_empty (lookup "MpesaReceiptNumber" metadata))
              ∷ ",\"ResultCode\":"
              ∷ quote (string_or_empty (lookup "ResultCode" callback))
              ∷ "}"
              ∷ []))
        ∷ [])

  -- An audit event of the route, then the answer.
  unfoldable pub log_refusal :
      String → Dict Json → CallbackResponse → Site → Result CallbackResponse × Site
  log_refusal event_type payload response site =
      let (logged, w) =
        log_event env event_type payload (some "mpesa_callback") none none site.world in
      (ok response, record site { world = w })

  -- `return handler.process(payload)`, with the answer to InfrastructureUnavailableError
  abbrev pub answer_of : Result CallbackProcessingResult → Site → Result CallbackResponse × Site
  answer_of (ok result) site = (ok (processed result), site)
  answer_of (err (infrastructure_unavailable reason)) site =
      log_refusal "stk_callback_infrastructure_unavailable" (("reason", str reason) ∷ [])
        (refused 503 "infrastructure_unavailable" reason) site
  answer_of (err (transition_error from_status to_status)) site =
      (err (transition_error from_status to_status), site)
  answer_of (err (exception text)) site = (err (exception text), site)

  module _ (settings : CallbackSettings)
      (process : Dict Json → Exec World CallbackProcessingResult) where
    abbrev pub run_handler : Dict Json → Site → Result CallbackResponse × Site
    run_handler payload site =
        let (result, w) = process payload site.world in answer_of result (record site { world = w })

    -- The replay decision: a duplicate is refused, anything else is processed.
    unfoldable pub after_replay_check :
        Dict Json → ReplayDecision → Site → Result CallbackResponse × Site
    after_replay_check payload d =
        if d.allowed
        then run_handler payload
        else log_refusal "stk_callback_duplicate"
            (("reason", str d.reason) ∷ ("replay_key", str d.key) ∷ [])
            (refused 409 "duplicate_callback" d.reason)

    -- `reject_duplicate_callback_if_needed`, then the handler
    unfoldable pub check_replay : ℕ → Dict Json → Site → Result CallbackResponse × Site
    unfolding after_replay_check
    check_replay now payload site =
        if not settings.callback_replay_protection_enabled
        then run_handler payload site
        else (let (d, seen) =
              check_and_store (build_callback_replay_key payload)
                settings.callback_replay_window_seconds now site.seen in
            after_replay_check payload d (record site { seen = seen }))

    -- `reject_untrusted_callback_source_if_needed`, then the rest
    unfoldable pub check_source :
        ℕ
        → Dict Json
        → Result CallbackSourceVerificationDecision
        → Site
        → Result CallbackResponse × Site
    unfolding check_replay
    check_source now payload (err e) site = (err e, site)
    check_source now payload (ok d) site =
        if d.allowed
        then check_replay now payload site
        else log_refusal "stk_callback_source_rejected" (("reason", str d.reason) ∷ [])
            (refused 403 "callback_source_rejected" d.reason) site

    unfoldable pub check_secret :
        ℕ → Dict String → Dict Json → Result Bool → String → Site → Result CallbackResponse × Site
    unfolding check_source
    check_secret now headers payload (err e) reason site = (err e, site)
    check_secret now headers payload (ok true) reason site =
        check_source now payload (verify settings.callback_source_verifier headers) site
    check_secret now headers payload (ok false) reason site =
        log_refusal "stk_callback_rejected" (("reason", str reason) ∷ [])
          (http_exception 401 "Invalid callback credentials.") site

    -- `validate_callback_secret`: the comparison and the reason of a refusal
    abbrev pub secret_matches : Option String → Option String → Result Bool
    secret_matches none secret = ok true
    secret_matches (some expected) none = ok (expected == "")
    secret_matches (some expected) (some secret) =
        if expected == "" then ok true else compare_digest secret expected

    abbrev pub refusal_reason : Option String → String
    refusal_reason none = "Missing callback shared secret."
    refusal_reason (some secret) = "Invalid callback shared secret."

    -- `handle_stk_callback`, with the dependencies that are run before it; `now` is what the
    -- monotonic clock shows at the replay check
    unfoldable pub handle_stk_callback :
        ℕ → Option String → Dict String → Dict Json → Site → Result CallbackResponse × Site
    unfolding check_secret
    handle_stk_callback now callback_secret headers payload =
        check_secret now headers payload
          (secret_matches settings.callback_shared_secret callback_secret)
          (refusal_reason callback_secret)
