-- ===== src/Daraja/CircuitBreaker.antt =====
-- `DarajaCircuitBreaker` of app/daraja/client.py. A time is what the monotonic clock shows, in
-- microseconds; the clock is read where a time is an argument. The recovery is a setting, taken as
-- a natural number of microseconds.
pub mod Refinement
use mpesa_mcp_server.Common.{
  ℕ, suc, ◌+◌, Bool, true, false, Option, none, some, ltb, leb, if◌then◌else◌,
}
use mpesa_mcp_server.Common.Int.{ℤ, pos, pos_part, leb_ℤ}

pub data CircuitState : Type 0 where
  disabled closed open_circuit half_open : CircuitState

-- The arguments of `__init__`.
pub record CircuitBreakerSettings : Type 0 where
  pub enabled : Bool
  pub failure_threshold : ℤ
  pub recovery : ℕ

-- `max(1, failure_threshold)`
unfoldable pub threshold : CircuitBreakerSettings → ℕ
threshold c = if leb_ℤ (pos 1) c.failure_threshold then pos_part c.failure_threshold else 1

pub record DarajaCircuitBreaker : Type 0 where
  pub state : CircuitState
  pub failure_count : ℕ
  pub opened_at : Option ℕ

-- `__init__`
abbrev pub new_circuit_breaker : DarajaCircuitBreaker
new_circuit_breaker = record { state = closed; failure_count = 0; opened_at = none }

-- The time whose distance from now the property `state` looks at, if it does.
abbrev pub waits_since : CircuitState → Option ℕ → Option ℕ
waits_since open_circuit (some opened_at) = some opened_at
waits_since _ _ = none

abbrev pub recover :
    CircuitBreakerSettings → ℕ → Option ℕ → DarajaCircuitBreaker → DarajaCircuitBreaker
recover c now none b = b
recover c now (some opened_at) b =
    if leb (opened_at + c.recovery) now then record b { state = half_open } else b

-- What reading the property `state` leaves, and what it answers.
unfoldable pub observe :
    CircuitBreakerSettings → ℕ → DarajaCircuitBreaker → CircuitState × DarajaCircuitBreaker
observe c now b =
    if c.enabled
    then (let b' = recover c now (waits_since b.state b.opened_at) b in (b'.state, b'))
    else (disabled, b)

abbrev pub is_open : CircuitState → Bool
is_open open_circuit = true
is_open _ = false

-- `before_call`: whether it raises, and what it leaves
unfoldable pub before_call :
    CircuitBreakerSettings → ℕ → DarajaCircuitBreaker → Bool × DarajaCircuitBreaker
unfolding observe
before_call c now b =
    if c.enabled then (let (state, b') = observe c now b in (is_open state, b')) else (false, b)

unfoldable pub record_success : CircuitBreakerSettings → DarajaCircuitBreaker → DarajaCircuitBreaker
record_success c b = if c.enabled then new_circuit_breaker else b

unfoldable pub record_failure :
    CircuitBreakerSettings → ℕ → DarajaCircuitBreaker → DarajaCircuitBreaker
record_failure c now b =
    if c.enabled
    then (let counted = record b { failure_count = suc b.failure_count } in
        if leb (threshold c) counted.failure_count
        then record counted { state = open_circuit; opened_at = some now }
        else counted)
    else b
