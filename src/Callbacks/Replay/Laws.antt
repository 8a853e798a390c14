-- ===== src/Callbacks/Replay/Laws.antt =====
-- How often the replay protection of app/callbacks/replay.py accepts a key.
use mpesa_mcp_server.Common.{
  ℕ, ◌+◌, ◌<◌, ◌≤◌, String, true, false, ◌≡◌, refl, ◌⊎◌, inl, inr, none, some, List, [], ◌∷◌, ◌==◌,
  eq_iff, arith, All, ltb, leb, Bool-cases, contains, if◌then◌else◌,
}
use mpesa_mcp_server.Common.Dict.{
  Dict, lookup, insert, erase, lookup-insert, lookup-insert_self, lookup-erase, erase-IsDict,
  IsDict, insert-IsDict,
}
use mpesa_mcp_server.Callbacks.Replay.{
  is_after, expired_keys, pop_all, prune_expired, seconds, check_and_store,
}

pop_all-IsDict : (keys : List String) (seen : Dict ℕ) → IsDict seen → IsDict (pop_all keys seen)
unfolding pop_all
pop_all-IsDict [] seen h = h
pop_all-IsDict (k ∷ keys) seen h = pop_all-IsDict keys (erase k seen) (erase-IsDict k seen h)

-- What is left under a key after some keys are popped.
lookup-pop_all :
    (keys : List String) (k : String) (seen : Dict ℕ)
    → IsDict seen
    → lookup k (pop_all keys seen) ≡ (if contains keys k then none else lookup k seen)
unfolding pop_all
lookup-pop_all [] k seen h = refl
lookup-pop_all (j ∷ keys) k seen h =
    let deeper = lookup-pop_all keys k (erase j seen) (erase-IsDict j seen h) in
    let erased = lookup-erase j k seen h in ground (arith, deeper, erased)

-- A key is among the expired ones exactly if its time has come.
contains-expired_keys :
    (now : ℕ) (k : String) (seen : Dict ℕ)
    → IsDict seen
    → contains (expired_keys now seen) k
      ≡ (elim (lookup k seen) [ none ↦ false | some e ↦ leb e now ])
unfolding expired_keys lookup
contains-expired_keys now k [] h = refl
contains-expired_keys now k ((j, e) ∷ seen) h =
    ground (arith, eq_iff j k, contains-expired_keys now k seen h.1)

-- An entry whose time has not come is what the pruning leaves under its key.
lookup-prune_expired :
    (now e : ℕ) (k : String) (seen : Dict ℕ)
    → IsDict seen
    → lookup k seen ≡ some e
    → now < e
    → lookup k (prune_expired now seen) ≡ some e
unfolding prune_expired
lookup-prune_expired now e k seen h there later =
    let early : leb e now ≡ false = ground arith in
    rw
      (
        lookup-pop_all (expired_keys now seen) k seen h,
        contains-expired_keys now k seen h,
        there,
        early,
      )
      refl

pub check_and_store-IsDict :
    (key : String) (window_seconds now : ℕ) (seen : Dict ℕ)
    → IsDict seen
    → IsDict (check_and_store key window_seconds now seen).1
unfolding check_and_store prune_expired
check_and_store-IsDict key window_seconds now seen h =
    elim (Bool-cases (is_after (lookup key seen) now)) [
      | inl e ↦ rw e h
      | inr e ↦
          let stored = insert key (now + seconds window_seconds) seen in
          rw e (
            pop_all-IsDict (expired_keys now stored) stored
              (insert-IsDict key (now + seconds window_seconds) seen h))
    ]

-- A check of any key keeps the entry of a key whose time has not come.
check_and_store-keeps :
    (key k : String) (window_seconds now e : ℕ) (seen : Dict ℕ)
    → IsDict seen
    → lookup k seen ≡ some e
    → now < e
    → lookup k (check_and_store key window_seconds now seen).1 ≡ some e
unfolding check_and_store
check_and_store-keeps key k window_seconds now e seen h there later =
    let early : ltb now e ≡ true = ground arith in
    elim (Bool-cases (is_after (lookup key seen) now)) [
      | inl refused ↦ rw refused there
      | inr accepted ↦
          let other : (key == k) ≡ false = ground (arith, eq_iff key k) in
          let time = now + seconds window_seconds in
          rw accepted (
            lookup-prune_expired now e k (insert key time seen) (insert-IsDict key time seen h)
              (rw (lookup-insert key k time seen, other) there) later)
    ]

-- An accepted key is stored with the end of its window.
check_and_store-stores :
    (key : String) (window_seconds now : ℕ) (seen : Dict ℕ)
    → IsDict seen
    → 0 < window_seconds
    → (check_and_store key window_seconds now seen).0.allowed ≡ true
    → lookup key (check_and_store key window_seconds now seen).1
      ≡ some (now + seconds window_seconds)
unfolding check_and_store
check_and_store-stores key window_seconds now seen h some_window accepted =
    elim (Bool-cases (is_after (lookup key seen) now)) [
      | inl refused ↦ absurd (ground arith)
      | inr e ↦
          let time = now + seconds window_seconds in
          rw e (
            lookup-prune_expired now time key (insert key time seen) (insert-IsDict key time seen h)
              (lookup-insert_self key time seen) (omega arith))
    ]

check_and_store-refuses :
    (key : String) (window_seconds now e : ℕ) (seen : Dict ℕ)
    → lookup key seen ≡ some e
    → now < e
    → ((check_and_store key window_seconds now seen).0.allowed ≡ false)
      × ((check_and_store key window_seconds now seen).1 ≡ seen)
unfolding check_and_store
check_and_store-refuses key window_seconds now e seen there soon =
    let early : ltb now e ≡ true = ground arith in rw (there, early) (refl, refl)

-- A check: its key, its window and its time.
pub record Check : Type 0 where
  pub key : String
  pub window_seconds : ℕ
  pub now : ℕ

-- What the checks leave behind, one after the other.
abbrev pub after_checks : List Check → Dict ℕ → Dict ℕ
after_checks [] seen = seen
after_checks (c ∷ checks) seen =
    after_checks checks (check_and_store c.key c.window_seconds c.now seen).1

after_checks-keep :
    (k : String) (e : ℕ) (checks : List Check) (seen : Dict ℕ)
    → IsDict seen
    → lookup k seen ≡ some e
    → All (λ c. c.now < e) checks
    → lookup k (after_checks checks seen) ≡ some e
after_checks-keep k e [] seen h there early = there
after_checks-keep k e (c ∷ checks) seen h there early =
    after_checks-keep k e checks (check_and_store c.key c.window_seconds c.now seen).1
      (check_and_store-IsDict c.key c.window_seconds c.now seen h)
      (check_and_store-keeps c.key k c.window_seconds c.now e seen h there early.0) early.1

-- Once a key is accepted, it is refused to the end of its window, whatever else is checked in the
-- meantime.
pub accepted_once :
    (key : String) (window_seconds now again other_window : ℕ) (checks : List Check) (seen : Dict ℕ)
    → IsDict seen
    → 0 < window_seconds
    → (check_and_store key window_seconds now seen).0.allowed ≡ true
    → All (λ c. c.now < now + seconds window_seconds) checks
    → again < now + seconds window_seconds
    → let later = after_checks checks (check_and_store key window_seconds now seen).1 in
      ((check_and_store key other_window again later).0.allowed ≡ false)
      × ((check_and_store key other_window again later).1 ≡ later)
accepted_once key window_seconds now again other_window checks seen h some_window accepted early
      soon =
    let there =
      after_checks-keep key (now + seconds window_seconds) checks
        (check_and_store key window_seconds now seen).1
        (check_and_store-IsDict key window_seconds now seen h)
        (check_and_store-stores key window_seconds now seen h some_window accepted) early in
    check_and_store-refuses key other_window again (now + seconds window_seconds) _ there soon

-- A key that is not there, or whose window is over, is accepted.
pub accepted_after :
    (key : String) (window_seconds now : ℕ) (seen : Dict ℕ)
    → ((lookup key seen ≡ none) ⊎ ((e : ℕ) × (lookup key seen ≡ some e) × (e ≤ now)))
    → (check_and_store key window_seconds now seen).0.allowed ≡ true
unfolding check_and_store
accepted_after key window_seconds now seen (inl absent) = rw absent refl
accepted_after key window_seconds now seen (inr (e, there, over)) =
    let late : ltb now e ≡ false = ground arith in rw (there, late) refl
