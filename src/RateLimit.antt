-- ===== src/RateLimit.antt =====
-- app/rate_limit: limits on how often a caller may call.
pub mod Limiter
pub mod RedisLimiter
