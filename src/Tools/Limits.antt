-- ===== src/Tools/Limits.antt =====
-- The in-memory limiter of app/rate_limit/limiter.py before the payment tool of app/mcp/tools.py.
use native.Mathlib.Decide.{dec_lt}
use mpesa_mcp_server.Common.{
  ℕ, zero, suc, ◌+◌, ◌-◌, ◌≤◌, String, true, false, ◌≡◌, refl, sym, ap, ◌∙◌, Option, none, some,
  List, [], ◌∷◌, inl, inr, arith, length, length-append, Option-cases, subst,
}
use mpesa_mcp_server.Common.Text.{concat}
use mpesa_mcp_server.Common.Dict.{lookup, lookup-insert_self}
use mpesa_mcp_server.Common.Exec.{Exec, ok, continue-pure}
use mpesa_mcp_server.Payments.Records.{PaymentSettings}
use mpesa_mcp_server.Payments.Service.{initiate_stk_push}
use mpesa_mcp_server.Payments.Initiation.{initiate_stk_push_sends}
use mpesa_mcp_server.Policy.ToolPolicy.{ToolPolicyEngine}
use mpesa_mcp_server.RateLimit.Limiter.{RateLimitDecision, Windows, allow}
use mpesa_mcp_server.RateLimit.Limiter.Laws.{InWindow, allow-full, allow-room}
use mpesa_mcp_server.Tools.Schemas.{McpToolResponse, Validators, InitiateStkPushInput, given}
use mpesa_mcp_server.Tools.Checks.{
  RateLimiter, RateLimitSettings, Host, in_memory_limiter, check_tool_policy, check_rate_limit,
}
use mpesa_mcp_server.Tools.Payments.{initiate_stk_push_tool, delegate_push, stk_push_of}
use mpesa_mcp_server.World.{Env, World}

module _ (clock : ℕ → ℕ) (env : Env) (settings : PaymentSettings) (validators : Validators)
    (tool_policy : Option ToolPolicyEngine) (limits : RateLimitSettings) where
  abbrev pub limiter : RateLimiter
  limiter = in_memory_limiter clock

  abbrev pub tool : InitiateStkPushInput → Exec (Host limiter) McpToolResponse
  tool input =
      initiate_stk_push_tool limiter env settings validators tool_policy true limits (given input)

  abbrev pub calls_of : Host limiter → ℕ
  calls_of h = length h.world.provider_calls

  abbrev pub key_of : String → String
  key_of phone_number = concat ("initiate_stk_push:" ∷ phone_number ∷ [])

  delegate_push_state :
      (input : InitiateStkPushInput) (h : Host limiter)
      → (delegate_push limiter env settings validators tool_policy true limits
          (stk_push_of input)
          h).1
        ≡ record h { world = (initiate_stk_push env settings (stk_push_of input) h.world).1 }
  unfolding delegate_push
  delegate_push_state input h = continue-pure _ _ _

  -- A push of the service reaches the provider at most once.
  push_once :
      (input : InitiateStkPushInput) (w : World)
      → length (initiate_stk_push env settings (stk_push_of input) w).1.provider_calls
        ≤ suc (length w.provider_calls)
  push_once input w = elim (initiate_stk_push_sends env settings (stk_push_of input) w) [
    | inl same ↦ omega (arith, ap length same)
    | inr (within, sent) ↦ omega (arith, ap length sent, length-append {0} w.provider_calls)
  ]

  -- The payment tool with these inputs for one phone number, one after the other.
  abbrev pub pushes : String → List InitiateStkPushInput → Host limiter → Host limiter
  pushes p [] h = h
  pushes p (input ∷ inputs) h = pushes p inputs (tool (record input { phone_number = p }) h).1

  -- The next readings of the clock lie in the window that started at `start`.
  abbrev pub Lasts : String → ℕ → ℕ → ℕ → Type 0
  Lasts p start zero reads = Unit
  Lasts p start (suc n) reads =
      InWindow (key_of p) limits.max_requests limits.window_seconds start (clock reads)
      × Lasts p start n (suc reads)

  module _ (enabled : limits.enabled ≡ true)
      (passes : check_tool_policy "initiate_stk_push" tool_policy ≡ none) where
    abbrev decided : String → Host limiter → RateLimitDecision × Windows
    decided p h =
        allow (key_of p) limits.max_requests limits.window_seconds (clock h.limits.reads)
          h.limits.windows

    abbrev counted : String → Host limiter → Host limiter
    counted p h = record h {
      limits = record { windows = (decided p h).1; reads = suc h.limits.reads };
    }

    tool_refused :
        (input : InitiateStkPushInput) (h : Host limiter)
        → (decided input.phone_number h).0.allowed ≡ false
        → (tool input h).1 ≡ counted input.phone_number h
    unfolding initiate_stk_push_tool check_rate_limit
    tool_refused input h refused = rw (passes, enabled, refused)

    tool_allowed :
        (input : InitiateStkPushInput) (h : Host limiter)
        → (decided input.phone_number h).0.allowed ≡ true
        → (tool input h).1 ≡ record (counted input.phone_number h) {
          world = (initiate_stk_push env settings (stk_push_of input) h.world).1;
        }
    unfolding initiate_stk_push_tool check_rate_limit
    tool_allowed input h allowed =
        rw (passes, enabled, allowed) (delegate_push_state input (counted input.phone_number h))

    pushes-InWindow :
        (p : String) (inputs : List InitiateStkPushInput) (start count : ℕ) (h : Host limiter)
        → lookup (key_of p) h.limits.windows ≡ some (start, count)
        → Lasts p start (length inputs) h.limits.reads
        → calls_of (pushes p inputs h) ≤ calls_of h + (limits.max_requests - count)
    pushes-InWindow p [] start count h there lasts = omega arith
    pushes-InWindow p (input ∷ inputs) start count h there lasts =
        elim (dec_lt count limits.max_requests) [
          | yes room ↦
              let named = record input { phone_number = p } in
              let step =
                allow-room (key_of p) limits.max_requests limits.window_seconds start count _ _
                  there lasts.0 room in
              let next = record (counted p h) {
                world = (initiate_stk_push env settings (stk_push_of named) h.world).1;
              } in
              let later : lookup (key_of p) next.limits.windows ≡ some (start, suc count) =
                rw step.1 (lookup-insert_self (key_of p) (start, suc count) h.limits.windows) in
              let rest = pushes-InWindow p inputs start (suc count) next later lasts.1 in
              subst (λ k. calls_of (pushes p inputs k) ≤ calls_of h + (limits.max_requests - count))
                (sym (tool_allowed named h step.0)) (omega (arith, rest, push_once named h.world))
          | no full ↦
              let named = record input { phone_number = p } in
              let step =
                allow-full (key_of p) limits.max_requests limits.window_seconds start count _ _
                  there lasts.0 (omega (arith, full)) in
              let next = counted p h in
              let later : lookup (key_of p) next.limits.windows ≡ some (start, count) =
                rw step.1 there in
              let rest = pushes-InWindow p inputs start count next later lasts.1 in
              subst (λ k. calls_of (pushes p inputs k) ≤ calls_of h + (limits.max_requests - count))
                (sym (tool_refused named h step.0)) rest
        ]

  refused_tool :
      (input : InitiateStkPushInput) (refusal : McpToolResponse) (h : Host limiter)
      → check_tool_policy "initiate_stk_push" tool_policy ≡ some refusal
      → tool input h ≡ (ok refusal, h)
  unfolding initiate_stk_push_tool
  refused_tool input refusal h denied = rw denied

  denied_pushes :
      (p : String) (inputs : List InitiateStkPushInput) (refusal : McpToolResponse)
      (h : Host limiter)
      → check_tool_policy "initiate_stk_push" tool_policy ≡ some refusal
      → pushes p inputs h ≡ h
  denied_pushes p [] refusal h denied = refl
  denied_pushes p (input ∷ inputs) refusal h denied =
      ap (pushes p inputs)
        (ap (λ t. t.1) (refused_tool (record input { phone_number = p }) refusal h denied))
      ∙ denied_pushes p inputs refusal h denied

  -- With the limit in force, of the pushes that the payment tool is asked for one phone number
  -- while its window lasts, at most as many reach the provider as the limit has left.
  pub pushes_limited :
      (p : String) (inputs : List InitiateStkPushInput) (start count : ℕ) (h : Host limiter)
      → limits.enabled ≡ true
      → lookup (key_of p) h.limits.windows ≡ some (start, count)
      → Lasts p start (length inputs) h.limits.reads
      → calls_of (pushes p inputs h) ≤ calls_of h + (limits.max_requests - count)
  pushes_limited p inputs start count h enabled there lasts =
      elim (Option-cases (check_tool_policy "initiate_stk_push" tool_policy)) [
        | inl passes ↦ pushes-InWindow enabled passes p inputs start count h there lasts
        | inr (refusal, denied) ↦ rw (denied_pushes p inputs refusal h denied) (omega arith)
      ]
