-- ===== src/Callbacks/Replay.antt =====
-- `InMemoryReplayProtection` of app/callbacks/replay.py. A time is a number of microseconds.
pub mod Laws
use mpesa_mcp_server.Common.{
  ℕ, ◌+◌, ◌*◌, String, Bool, true, false, ◌&&◌, not, Option, none, some, List, [], ◌∷◌, ltb, leb,
  if◌then◌else◌,
}
use mpesa_mcp_server.Common.Dict.{Dict, lookup, insert, erase}

pub record ReplayDecision : Type 0 where
  pub allowed : Bool
  pub key : String
  pub reason : String

abbrev pub is_after : Option ℕ → ℕ → Bool
is_after none now = false
is_after (some expires_at) now = ltb now expires_at

-- `[key for key, expires_at in self._seen.items() if expires_at <= now]`
unfoldable pub expired_keys : ℕ → Dict ℕ → List String
expired_keys now [] = []
expired_keys now ((key, expires_at) ∷ seen) =
    let rest = expired_keys now seen in if leb expires_at now then key ∷ rest else rest

unfoldable pub pop_all : List String → Dict ℕ → Dict ℕ
pop_all [] seen = seen
pop_all (key ∷ keys) seen = pop_all keys (erase key seen)

-- `_prune_expired`
unfoldable pub prune_expired : ℕ → Dict ℕ → Dict ℕ
prune_expired now seen = pop_all (expired_keys now seen) seen

abbrev pub seconds : ℕ → ℕ
seconds n = n * 1000000

-- `check_and_store`, at the time that the clock shows
unfoldable pub check_and_store : String → ℕ → ℕ → Dict ℕ → ReplayDecision × Dict ℕ
check_and_store key window_seconds now seen =
    if is_after (lookup key seen) now
    then (
      record { allowed = false; key = key; reason = "Duplicate callback replay detected." },
      seen,
    )
    else (
      record { allowed = true; key = key; reason = "Callback replay key accepted." },
      prune_expired now (insert key (now + seconds window_seconds) seen),
    )
