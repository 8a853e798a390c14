-- ===== src/RateLimit/RedisLimiter.antt =====
-- `RedisRateLimiter` of app/rate_limit/limiter.py. Redis is a parameter.
use mpesa_mcp_server.Common.{ℕ, ◌+◌, ◌-◌, String, true, false, List, [], ◌∷◌, ◌++◌, if◌then◌else◌}
use mpesa_mcp_server.Common.Int.{ℤ, pos, pos_part, neg_part, ltb_ℤ, eqb_ℤ}
use mpesa_mcp_server.Common.Exec.{Result, ok, err, infrastructure_unavailable}
use mpesa_mcp_server.RateLimit.Limiter.{RateLimitDecision}

-- A Redis call answers or raises, by the calls before it.
pub data RedisCall : Type 0 where
  incr ttl : String → RedisCall
  expire : String → ℕ → RedisCall

pub record Redis : Type 0 where
  pub incr : List RedisCall → String → Result ℤ
  pub expire : List RedisCall → String → ℕ → Result (Unit {0})
  pub ttl : List RedisCall → String → Result ℤ

abbrev pub redis_unavailable : Result RateLimitDecision
redis_unavailable = err (infrastructure_unavailable "Rate limiter infrastructure is unavailable.")

-- `max(0, limit - count)`
abbrev pub left_of : ℕ → ℤ → ℕ
left_of limit count = limit + neg_part count - pos_part count

module _ (redis : Redis) (key : String) (limit window_seconds : ℕ) where
  -- `window_seconds if ttl < 0 else ttl`
  abbrev pub reset_after : ℤ → ℕ
  reset_after seconds = if ltb_ℤ seconds (pos 0) then window_seconds else pos_part seconds

  abbrev pub redis_decision : ℤ → ℤ → RateLimitDecision
  redis_decision count seconds =
      if ltb_ℤ (pos limit) count
      then record {
        allowed = false;
        key = key;
        limit = limit;
        remaining = 0;
        reset_after_seconds = reset_after seconds;
      }
      else record {
        allowed = true;
        key = key;
        limit = limit;
        remaining = left_of limit count;
        reset_after_seconds = reset_after seconds;
      }

  abbrev pub with_ttl : ℤ → Result ℤ → Result RateLimitDecision
  with_ttl count (ok seconds) = ok (redis_decision count seconds)
  with_ttl count (err e) = redis_unavailable

  -- `ttl = self._redis.ttl(key)`, and the decision
  abbrev pub ask_ttl : ℤ → List RedisCall → Result RateLimitDecision × List RedisCall
  ask_ttl count calls = (with_ttl count (redis.ttl calls key), calls ++ ttl key ∷ [])

  abbrev pub after_expire :
      ℤ → Result (Unit {0}) → List RedisCall → Result RateLimitDecision × List RedisCall
  after_expire count (ok done) calls = ask_ttl count calls
  after_expire count (err e) calls = (redis_unavailable, calls)

  -- What follows `incr`: a first count starts the window.
  unfoldable pub after_incr : Result ℤ → List RedisCall → Result RateLimitDecision × List RedisCall
  after_incr (err e) calls = (redis_unavailable, calls)
  after_incr (ok count) calls =
      if eqb_ℤ count (pos 1)
      then after_expire count (redis.expire calls key window_seconds)
          (calls ++ expire key window_seconds ∷ [])
      else ask_ttl count calls

  -- `RedisRateLimiter.allow`
  unfoldable pub redis_allow : List RedisCall → Result RateLimitDecision × List RedisCall
  unfolding after_incr
  redis_allow calls = after_incr (redis.incr calls key) (calls ++ incr key ∷ [])
