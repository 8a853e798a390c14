-- ===== src/RateLimit/Limiter.antt =====
-- `InMemoryRateLimiter` of app/rate_limit/limiter.py. A time is a number of microseconds; a limit
-- and a window are settings, taken as natural numbers.
pub mod Laws
use mpesa_mcp_server.Common.{
  ℕ, suc, ◌+◌, ◌-◌, ◌*◌, String, Bool, true, false, Option, none, some, List, [], ◌∷◌, ◌++◌, ltb,
  leb, if◌then◌else◌,
}
use mpesa_mcp_server.Common.Int.{ℤ, pos, pos_part, neg_part, ltb_ℤ, eqb_ℤ}
use mpesa_mcp_server.Common.Exec.{Result, ok, err, infrastructure_unavailable}
use mpesa_mcp_server.Common.Dict.{Dict, lookup, insert}
use Prim.Native.Nat.{◌/◌}

pub record RateLimitDecision : Type 0 where
  pub allowed : Bool
  pub key : String
  pub limit : ℕ
  pub remaining : ℕ
  pub reset_after_seconds : ℕ

-- `(window_start, count)` of each key
abbrev pub Windows : Type 0
Windows = Dict (ℕ × ℕ)

abbrev pub window_or : ℕ → Option (ℕ × ℕ) → ℕ × ℕ
window_or now none = (now, 0)
window_or now (some window) = window

-- The window in which a call at `now` counts: an old one starts again.
abbrev pub current_window : ℕ → ℕ → ℕ × ℕ → ℕ × ℕ
current_window window_seconds now (start, count) =
    if leb (window_seconds * 1000000) (now - start) then (now, 0) else (start, count)

-- `max(0, int(window_seconds - elapsed))`
abbrev pub whole_seconds : ℕ → ℕ → ℕ
whole_seconds window_seconds elapsed = (window_seconds * 1000000 - elapsed) / 1000000

-- The decision on a call, from the window before and after the reset.
abbrev pub decide : String → ℕ → ℕ → ℕ → Windows → ℕ → ℕ × ℕ → RateLimitDecision × Windows
decide key limit window_seconds now windows elapsed (start, count) =
    if leb limit count
    then (
      record {
        allowed = false;
        key = key;
        limit = limit;
        remaining = 0;
        reset_after_seconds = whole_seconds window_seconds elapsed;
      },
      windows,
    )
    else (
      record {
        allowed = true;
        key = key;
        limit = limit;
        remaining = limit - suc count;
        reset_after_seconds = whole_seconds window_seconds (now - start);
      },
      insert key (start, suc count) windows,
    )

-- `allow`, at the time that the clock shows
unfoldable pub allow : String → ℕ → ℕ → ℕ → Windows → RateLimitDecision × Windows
allow key limit window_seconds now windows =
    let window = window_or now (lookup key windows) in
    decide key limit window_seconds now windows (now - window.0)
      (current_window window_seconds now window)
