-- ===== src/RateLimit/Limiter/Laws.antt =====
-- How many calls the limiter of app/rate_limit/limiter.py allows in a window.
use mpesa_mcp_server.Common.{
  ℕ, suc, ◌+◌, ◌-◌, ◌*◌, ◌<◌, ◌≤◌, String, true, false, ◌≡◌, refl, inl, inr, none, some, List, [],
  ◌∷◌, arith, All, length, leb, Bool-cases, if◌then◌else◌,
}
use mpesa_mcp_server.Common.Dict.{lookup, insert, lookup-insert_self}
use mpesa_mcp_server.RateLimit.Limiter.{Windows, allow}

module _ (key : String) (limit window_seconds : ℕ) where
  -- How many of the calls at these times are allowed.
  abbrev pub allowed_calls : List ℕ → Windows → ℕ
  allowed_calls [] windows = 0
  allowed_calls (now ∷ times) windows =
      let (decision, after) = allow key limit window_seconds now windows in
      let rest = allowed_calls times after in if decision.allowed then suc rest else rest

  -- The calls come while the window that started at `start` lasts.
  abbrev pub InWindow : ℕ → ℕ → Type 0
  InWindow start now = (start ≤ now) × (now < start + window_seconds * 1000000)

  pub allow-full :
      (start count now : ℕ) (windows : Windows)
      → lookup key windows ≡ some (start, count)
      → InWindow start now
      → limit ≤ count
      → let (decision, after) = allow key limit window_seconds now windows in
        (decision.allowed ≡ false) × (after ≡ windows)
  unfolding allow
  allow-full start count now windows there lasts full =
      let young : leb (window_seconds * 1000000) (now - start) ≡ false = ground arith in
      let over : leb limit count ≡ true = ground arith in rw (there, young, over) (refl, refl)

  pub allow-room :
      (start count now : ℕ) (windows : Windows)
      → lookup key windows ≡ some (start, count)
      → InWindow start now
      → count < limit
      → let (decision, after) = allow key limit window_seconds now windows in
        (decision.allowed ≡ true) × (after ≡ insert key (start, suc count) windows)
  unfolding allow
  allow-room start count now windows there lasts room =
      let young : leb (window_seconds * 1000000) (now - start) ≡ false = ground arith in
      let under : leb limit count ≡ false = ground arith in rw (there, young, under) (refl, refl)

  -- Of the calls in a window that has counted `count`, exactly those are allowed that the limit
  -- leaves room for: all of them if they fit, else the first that do.
  pub allowed_calls-InWindow :
      (start count : ℕ) (times : List ℕ) (windows : Windows)
      → lookup key windows ≡ some (start, count)
      → All (InWindow start) times
      → allowed_calls times windows
        ≡ (if leb (count + length times) limit then length times else limit - count)
  allowed_calls-InWindow start count [] windows there lasts = ground arith
  allowed_calls-InWindow start count (now ∷ times) windows there lasts =
      elim (Bool-cases (leb limit count)) [
        | inl full ↦
            let step = allow-full start count now windows there lasts.0 (ground arith) in
            let rest = allowed_calls-InWindow start count times windows there lasts.1 in
            rw (step.0, step.1, rest) (ground arith)
        | inr room ↦
            let step = allow-room start count now windows there lasts.0 (ground arith) in
            let rest =
              allowed_calls-InWindow start (suc count) times (insert key (start, suc count) windows)
                (lookup-insert_self key (start, suc count) windows) lasts.1 in
            rw (step.0, step.1, rest) (ground arith)
      ]

  -- From no window at all, the first call starts one, and it and the calls after it while it lasts
  -- are allowed up to the limit.
  pub allowed_calls_fresh :
      (start : ℕ) (times : List ℕ) (windows : Windows)
      → lookup key windows ≡ none
      → 0 < limit
      → 0 < window_seconds
      → All (InWindow start) times
      → allowed_calls (start ∷ times) windows
        ≡ (if leb (suc (length times)) limit then suc (length times) else limit)
  unfolding allow
  allowed_calls_fresh start times windows absent some_limit some_window lasts =
      let young : leb (window_seconds * 1000000) (start - start) ≡ false = ground arith in
      let under : leb limit 0 ≡ false = ground arith in
      let rest =
        allowed_calls-InWindow start 1 times (insert key (start, 1) windows)
          (lookup-insert_self key (start, 1) windows) lasts in
      rw (absent, young, under) (ground (arith, rest))
