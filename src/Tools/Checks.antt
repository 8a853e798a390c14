-- ===== src/Tools/Checks.antt =====
-- The checks that the tools of app/mcp/tools.py make before they call a service. The log lines are
-- left out.
use mpesa_mcp_server.Common.{
  ℕ, suc, String, Bool, false, ◌&&◌, Option, none, some, List, [], if◌then◌else◌,
}
use mpesa_mcp_server.Common.Exec.{Exec, Result, ok, err}
use mpesa_mcp_server.Policy.ToolPolicy.{ToolPolicyEngine, ToolPolicyDecision, evaluate}
use mpesa_mcp_server.RateLimit.Limiter.{RateLimitDecision, Windows, allow}
use mpesa_mcp_server.RateLimit.RedisLimiter.{Redis, RedisCall, redis_allow}
use mpesa_mcp_server.Tools.Schemas.{
  McpToolResponse, no_data, rate_limit, Validation, valid, invalid,
}
use mpesa_mcp_server.World.{World}

-- `RateLimiterProtocol`: a limiter with its own state, that decides or raises.
pub record RateLimiter : Type 1 where
  pub State : Type 0
  pub allow : String → ℕ → ℕ → State → Result RateLimitDecision × State

-- `InMemoryRateLimiter`, with the readings of the monotonic clock
pub record InMemory : Type 0 where
  pub windows : Windows
  pub reads : ℕ

abbrev pub in_memory_limiter : (ℕ → ℕ) → RateLimiter
in_memory_limiter clock = record {
  State = InMemory;
  allow = λ key limit window_seconds s.
      let (decision, windows) = allow key limit window_seconds (clock s.reads) s.windows in
      (ok decision, record { windows = windows; reads = suc s.reads });
}

abbrev pub redis_limiter : Redis → RateLimiter
redis_limiter redis = record { State = List RedisCall; allow = redis_allow redis }

-- `rate_limit_enabled`, `rate_limit_window_seconds` and `rate_limit_max_requests` of a tool
pub record RateLimitSettings : Type 0 where
  pub enabled : Bool
  pub window_seconds : ℕ
  pub max_requests : ℕ

abbrev pub tool_answer : String → Bool → String → McpToolResponse
tool_answer status allowed reason = record {
  status = status;
  allowed = allowed;
  reason = reason;
  requires_approval = false;
  tool_data = no_data;
  errors = [];
}

abbrev pub denied : ToolPolicyDecision → McpToolResponse
denied decision = record {
  status = decision.status;
  allowed = false;
  reason = decision.reason;
  requires_approval = decision.requires_approval;
  tool_data = no_data;
  errors = [];
}

-- `_check_tool_policy`
unfoldable pub check_tool_policy : String → Option ToolPolicyEngine → Option McpToolResponse
check_tool_policy tool_name none = none
check_tool_policy tool_name (some tool_policy) =
    let decision = evaluate tool_policy tool_name in
    if decision.allowed then none else some (denied decision)

abbrev pub limiter_unavailable : McpToolResponse
limiter_unavailable =
    tool_answer "infrastructure_unavailable" false
      "Rate limiter unavailable; request rejected safely."

abbrev pub rate_limited : RateLimitDecision → McpToolResponse
rate_limited decision = record (tool_answer "rate_limited" false "Rate limit exceeded") {
  tool_data = rate_limit decision.key decision.limit decision.reset_after_seconds;
}

-- What the limiter's decision means: any exception of the limiter refuses the call.
abbrev pub refusal_of : Result RateLimitDecision → Option McpToolResponse
refusal_of (err e) = some limiter_unavailable
refusal_of (ok decision) = if decision.allowed then none else some (rate_limited decision)

module _ (limiter : RateLimiter) where
  -- The shared state of the services, and the limiter's.
  pub record Host : Type 0 where
    pub world : World
    pub limits : limiter.State

  -- A call of a service.
  abbrev pub on_world : {A : Type 0} → Exec World A → Exec Host A
  on_world call h = let (r, w) = call h.world in (r, record h { world = w })

  -- `_check_rate_limit`; `has_limiter` says that there is a limiter
  unfoldable pub check_rate_limit :
      Bool → RateLimitSettings → String → Exec Host (Option McpToolResponse)
  check_rate_limit has_limiter settings key h =
      if settings.enabled && has_limiter
      then (let (decision, limits) =
            limiter.allow key settings.max_requests settings.window_seconds h.limits in
          (ok (refusal_of decision), record h { limits = limits }))
      else (ok none, h)

  -- `if response is not None: return response`
  abbrev pub unless_refused :
      Option McpToolResponse → Exec Host McpToolResponse → Exec Host McpToolResponse
  unless_refused none call h = call h
  unless_refused (some response) call h = (ok response, h)

  -- The answer to `ValidationError`, or what follows a valid input.
  abbrev pub when_valid :
      {A : Type 0}
      → String
      → Validation A
      → (A → Exec Host McpToolResponse)
      → Exec Host McpToolResponse
  when_valid reason (valid input) call h = call input h
  when_valid reason (invalid messages) call h =
      (ok (record (tool_answer "invalid_input" false reason) { errors = messages }), h)
