-- ===== src/Tests/Callbacks.antt =====
-- Runs of the callbacks of app/callbacks, and of the limiter of app/rate_limit/limiter.py.
use mpesa_mcp_server.Common.{
  ℕ, String, ◌≡◌, ◌⊎◌, refl, true, false, Option, none, some, [], ◌∷◌, arith,
}
use mpesa_mcp_server.Common.Int.{pos}
use mpesa_mcp_server.Common.Dict.{Dict, lookup}
use mpesa_mcp_server.Common.Exec.{Exec, ok, err, infrastructure_unavailable}
use mpesa_mcp_server.Common.Json.{Json, str, int, dict, list, nil, cons, end, field}
use mpesa_mcp_server.Storage.Records.{StatusUpdate}
use mpesa_mcp_server.Callbacks.Payload.{Builtins}
use mpesa_mcp_server.Callbacks.Handler.{process}
use mpesa_mcp_server.Callbacks.Results.{CallbackProcessingResult}
use mpesa_mcp_server.Callbacks.Handler.Settlement.{Settled, process_settles}
use mpesa_mcp_server.World.{World}
use mpesa_mcp_server.Common.{inl}
use mpesa_mcp_server.Callbacks.SourceVerifier.{trusted_proxy}
use mpesa_mcp_server.Callbacks.Routes.{
  CallbackSettings, Site, refused, build_callback_replay_key, check_replay, handle_stk_callback,
}
use mpesa_mcp_server.Callbacks.Routes.Once.{Trusted, handle_stk_callback-Trusted, check_replay_once}
use mpesa_mcp_server.Callbacks.Replay.{check_and_store}
use mpesa_mcp_server.Callbacks.Replay.Laws.{Check, after_checks, accepted_once, accepted_after}
use mpesa_mcp_server.RateLimit.Limiter.{Windows}
use mpesa_mcp_server.RateLimit.Limiter.Laws.{allowed_calls, allowed_calls-InWindow}
use mpesa_mcp_server.Tests.Samples.{env}
use mpesa_mcp_server.Tests.Payments.{stored}

abbrev pub builtins : Builtins
builtins = record { repr = λ v. "{}"; int_of_text = λ s. none; is_digit = λ c. true }

abbrev item : String → Json → Json
item name value = dict (field "Name" (str name) (field "Value" value end))

abbrev metadata : Json
metadata = dict (
    field "Item"
      (list (
        cons (item "Amount" (int (pos 500))) (
          cons (item "MpesaReceiptNumber" (str "R1"))
            (cons (item "PhoneNumber" (str "254700000000")) nil))))
      end)

abbrev callback : Json
callback = dict (
    field "CheckoutRequestID" (str "ws_1") (
      field "ResultCode" (int (pos 0))
        (field "ResultDesc" (str "Done") (field "CallbackMetadata" metadata end))))

abbrev payload : Dict Json
payload = ("Body", dict (field "stkCallback" callback end)) ∷ []

process_settles_example :
    ((process env builtins payload stored).1.transactions ≡ stored.transactions)
    ⊎ Settled env builtins payload stored (process env builtins payload stored).1
process_settles_example = process_settles env builtins payload stored

abbrev update : StatusUpdate
update = record {
  checkout_request_id = "ws_1";
  status = "completed";
  result_code = pos 0;
  result_description = "Done";
  mpesa_receipt_number = some "R1";
}

abbrev seen : Dict ℕ
seen = (check_and_store "a" 10 0 []).1

abbrev other_check : Check
other_check = record { key = "b"; window_seconds = 1; now = 1000000 }

accepted_first : (check_and_store "a" 10 0 []).0.allowed ≡ true
unfolding check_and_store lookup
accepted_first = refl

accepted_once_example :
    ((check_and_store "a" 5 2000000 (after_checks (other_check ∷ []) seen)).0.allowed ≡ false)
    × ((check_and_store "a" 5 2000000 (after_checks (other_check ∷ []) seen)).1
        ≡ after_checks (other_check ∷ []) seen)
accepted_once_example =
    accepted_once "a" 10 0 2000000 5 (other_check ∷ []) [] tt (omega arith) accepted_first
      (omega arith, tt) (omega arith)

abbrev over : Dict ℕ
over = ("a", 10000000) ∷ []

seen_a : lookup "a" over ≡ some 10000000
unfolding lookup
seen_a = refl

abbrev windows : Windows
windows = ("caller", (1000000, 1)) ∷ []

window_there : lookup "caller" windows ≡ some (1000000, 1)
unfolding lookup
window_there = refl

allowed_calls-InWindow_example :
    allowed_calls "caller" 3 60 (2000000 ∷ 3000000 ∷ 4000000 ∷ []) windows ≡ 2
allowed_calls-InWindow_example =
    allowed_calls-InWindow "caller" 3 60 1000000 1 (2000000 ∷ 3000000 ∷ 4000000 ∷ []) windows
      window_there
      ((omega arith, omega arith), ((omega arith, omega arith), ((omega arith, omega arith), tt)))

no_window : ◌≡◌ {A = Option (ℕ × ℕ)} (lookup "caller" []) none
unfolding lookup
no_window = refl

abbrev guarded : CallbackSettings
guarded = record {
  callback_shared_secret = some "secret";
  callback_source_verifier = trusted_proxy "x-proxy" "token";
  callback_replay_protection_enabled = true;
  callback_replay_window_seconds = 10;
}

-- A handler whose store is down.
abbrev down : Dict Json → Exec World CallbackProcessingResult
down body w = (err (infrastructure_unavailable "down"), w)

abbrev quote : String → String
quote text = text

abbrev site : Site
site = record { world = stored; seen = [] }

handle_stk_callback-Trusted_example :
    (((handle_stk_callback env builtins quote guarded down 0 (some "guess") [] payload site).1.seen
        ≡ site.seen)
      × ((handle_stk_callback env builtins quote guarded down 0
            (some "guess")
            []
            payload
            site).1.world.transactions
          ≡ site.world.transactions))
    ⊎ Trusted env builtins quote guarded down (some "guess") []
handle_stk_callback-Trusted_example =
    handle_stk_callback-Trusted env builtins quote guarded down 0 (some "guess") [] payload site

abbrev replay_key : String
replay_key = build_callback_replay_key env builtins quote payload

nothing_seen : ◌≡◌ {A = Option ℕ} (lookup replay_key []) none
unfolding lookup
nothing_seen = refl

abbrev answered : Site
answered = (check_replay env builtins quote guarded down 0 payload site).1

check_replay_once_example :
    ((reason : String) × ((check_replay env builtins quote guarded down 1000000 payload answered).0
        ≡ ok (refused 409 "duplicate_callback" reason)))
    × ((check_replay env builtins quote guarded down 1000000 payload answered).1.seen
        ≡ answered.seen)
    × ((check_replay env builtins quote guarded down 1000000 payload answered).1.world.transactions
        ≡ answered.world.transactions)
check_replay_once_example =
    check_replay_once env builtins quote guarded down 0 1000000 payload payload [] site answered
      refl (omega arith) tt refl (accepted_after replay_key 10 0 [] (inl nothing_seen)) refl tt
      (omega arith)
