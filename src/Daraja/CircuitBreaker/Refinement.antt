-- ===== src/Daraja/CircuitBreaker/Refinement.antt =====
-- The breaker of app/daraja/client.py against what it promises: it counts the failures since the
-- last success, and refuses calls for the recovery time after the last failure of a long row.
use native.Mathlib.Decide.{dec_lt}
use mpesa_mcp_server.Common.{
  ℕ, suc, ◌+◌, ◌≤◌, ◌<◌, ◌≡◌, refl, sym, ◌∙◌, Bool, true, false, ◌&&◌, some, List, [], ◌∷◌, ◌⊎◌,
  inl, inr, ltb, leb, arith, if◌then◌else◌, Bool-cases,
}
use mpesa_mcp_server.Daraja.CircuitBreaker.{
  CircuitBreakerSettings, DarajaCircuitBreaker, closed, open_circuit, half_open, threshold,
  new_circuit_breaker, waits_since, recover, before_call, is_open, record_success, record_failure,
}

-- What happens to a breaker, with the time of it.
pub data Event : Type 0 where
  asked : ℕ → Event
  succeeded : Event
  failed : ℕ → Event

module _ (c : CircuitBreakerSettings) where
  abbrev pub happen : Event → DarajaCircuitBreaker → DarajaCircuitBreaker
  happen (asked now) b = (before_call c now b).1
  happen succeeded b = record_success c b
  happen (failed now) b = record_failure c now b

  -- The breaker after some events, the latest first.
  abbrev pub after : List Event → DarajaCircuitBreaker
  after [] = new_circuit_breaker
  after (e ∷ es) = happen e (after es)

-- The failures since the last success.
abbrev pub failures : List Event → ℕ
failures [] = 0
failures (asked now ∷ es) = failures es
failures (succeeded ∷ es) = 0
failures (failed now ∷ es) = suc (failures es)

-- The time of the last failure.
abbrev pub last_failure : List Event → ℕ
last_failure [] = 0
last_failure (asked now ∷ es) = last_failure es
last_failure (succeeded ∷ es) = last_failure es
last_failure (failed now ∷ es) = now

-- The events happen at times that do not go back, none of them after `now`.
abbrev pub UpTo : ℕ → List Event → Type 0
UpTo now [] = Unit
UpTo now (asked time ∷ es) = (time ≤ now) × UpTo time es
UpTo now (succeeded ∷ es) = UpTo now es
UpTo now (failed time ∷ es) = (time ≤ now) × UpTo time es

-- What a breaker promises: to refuse exactly in the recovery time after the last of a row of
-- failures that reaches the threshold.
abbrev pub refuses : CircuitBreakerSettings → ℕ → List Event → Bool
refuses c now es =
    c.enabled && leb (threshold c) (failures es) && ltb now (last_failure es + c.recovery)

-- How the fields of an enabled breaker stand to its events.
record Tracks (c : CircuitBreakerSettings) (now : ℕ) (es : List Event) (b : DarajaCircuitBreaker)
    : Type 0 where
  count : b.failure_count ≡ failures es
  short : failures es < threshold c → b.state ≡ closed
  long :
      threshold c ≤ failures es
      → (b.opened_at ≡ some (last_failure es))
        × ((b.state ≡ open_circuit)
            ⊎ ((b.state ≡ half_open) × (last_failure es + c.recovery ≤ now)))

before_call_off :
    (c : CircuitBreakerSettings) (now : ℕ) (b : DarajaCircuitBreaker)
    → c.enabled ≡ false
    → (before_call c now b).0 ≡ false
unfolding before_call
before_call_off c now b off = ground arith

threshold_pos : (c : CircuitBreakerSettings) → 0 < threshold c
unfolding threshold
threshold_pos c = ground arith

module _ (c : CircuitBreakerSettings) (on : c.enabled ≡ true) where
  Tracks-new : (now : ℕ) (es : List Event) → failures es ≡ 0 → Tracks c now es new_circuit_breaker
  Tracks-new now es e = record {
    count = ground arith;
    short = λ h. refl;
    long = λ h. absurd (omega (arith, threshold_pos c, h));
  }

  Tracks-later :
      (before now : ℕ) (es : List Event) (b : DarajaCircuitBreaker)
      → before ≤ now
      → Tracks c before es b
      → Tracks c now es b
  Tracks-later before now es b le t = record {
    count = t.count;
    short = t.short;
    long = λ h. ground (arith, t.long h);
  }

  record_success_on : (b : DarajaCircuitBreaker) → record_success c b ≡ new_circuit_breaker
  unfolding record_success
  record_success_on b = rw on

  record_failure_on :
      (time : ℕ) (b : DarajaCircuitBreaker)
      → record_failure c time b ≡ (
          if leb (threshold c) (suc b.failure_count)
          then record {
            state = open_circuit;
            failure_count = suc b.failure_count;
            opened_at = some time;
          }
          else record b { failure_count = suc b.failure_count })
  unfolding record_failure
  record_failure_on time b = ground arith

  before_call_on :
      (now : ℕ) (b : DarajaCircuitBreaker)
      → before_call c now b
        ≡ (let b' = recover c now (waits_since b.state b.opened_at) b in (is_open b'.state, b'))
  unfolding before_call
  before_call_on now b = ground arith

  Tracks-failure :
      (now time : ℕ) (es : List Event) (b : DarajaCircuitBreaker)
      → Tracks c now es b
      → Tracks c time (failed time ∷ es) (record_failure c time b)
  Tracks-failure now time es b t =
      rw (record_failure_on time b) (elim (Bool-cases (leb (threshold c) (suc b.failure_count))) [
        | inl reached ↦ rw reached (record {
          count = omega (arith, t.count);
          short = λ h. absurd (ground (arith, t.count));
          long = λ h. (refl, inl refl);
        })
        | inr below ↦ rw below (record {
          count = omega (arith, t.count);
          short = λ h. t.short (omega (arith, h));
          long = λ h. absurd (ground (arith, t.count));
        })
      ])

  -- An enabled breaker is closed, open or half open, for a reason in its events.
  phases :
      (now : ℕ) (es : List Event) (b : DarajaCircuitBreaker)
      → Tracks c now es b
      → ((failures es < threshold c) × (b.state ≡ closed))
        ⊎ (((threshold c ≤ failures es)
              × (b.opened_at ≡ some (last_failure es))
              × (b.state ≡ open_circuit))
            ⊎ ((threshold c ≤ failures es)
                × (b.opened_at ≡ some (last_failure es))
                × (b.state ≡ half_open)
                × (last_failure es + c.recovery ≤ now)))
  phases now es b t = elim (dec_lt (failures es) (threshold c)) [
    | yes few ↦ inl (few, t.short few)
    | no many ↦
        let reached : threshold c ≤ failures es = omega (arith, many) in
        elim (t.long reached).1 [
          | inl waiting ↦ inr (inl (reached, (t.long reached).0, waiting))
          | inr over ↦ inr (inr (reached, (t.long reached).0, over.0, over.1))
        ]
  ]

  Tracks-asked :
      (before now : ℕ) (es : List Event) (b : DarajaCircuitBreaker)
      → before ≤ now
      → Tracks c before es b
      → Tracks c now (asked now ∷ es) (before_call c now b).1
  Tracks-asked before now es b le t = rw (before_call_on now b) (elim (phases before es b t) [
    | inl few ↦ record {
      count = ground (arith, t.count);
      short = λ h. ground arith;
      long = λ h. absurd (omega (arith, few.0, h));
    }
    | inr (inl waiting) ↦ record {
      count = ground (arith, t.count);
      short = λ h. absurd (omega (arith, waiting.0, h));
      long = λ h. ground arith;
    }
    | inr (inr over) ↦ record {
      count = ground (arith, t.count);
      short = λ h. absurd (omega (arith, over.0, h));
      long = λ h. ground arith;
    }
  ])

  asked-refuses :
      (before now : ℕ) (es : List Event) (b : DarajaCircuitBreaker)
      → before ≤ now
      → Tracks c before es b
      → (before_call c now b).0 ≡ refuses c now es
  asked-refuses before now es b le t = rw (before_call_on now b) (elim (phases before es b t) [
    | inl few ↦ ground arith
    | inr (inl waiting) ↦ ground arith
    | inr (inr over) ↦ ground arith
  ])

  after-Tracks : (now : ℕ) (es : List Event) → UpTo now es → Tracks c now es (after c es)
  after-Tracks now [] h = Tracks-new now [] refl
  after-Tracks now (asked time ∷ es) h =
      Tracks-later time now _ _ h.0
        (Tracks-asked time time es (after c es) (omega arith) (after-Tracks time es h.1))
  after-Tracks now (succeeded ∷ es) h = rw (record_success_on (after c es)) (Tracks-new now _ refl)
  after-Tracks now (failed time ∷ es) h =
      Tracks-later time now _ _ h.0
        (Tracks-failure time time es (after c es) (after-Tracks time es h.1))

-- Asked at a time no earlier than its events, a breaker refuses the call exactly as it promises: if
-- it is enabled, the failures since the last success reach the threshold, and the recovery time
-- after the last failure is not over.
pub before_call_refines :
    (c : CircuitBreakerSettings) (now : ℕ) (es : List Event)
    → UpTo now es
    → (before_call c now (after c es)).0 ≡ refuses c now es
before_call_refines c now es h = elim (Bool-cases c.enabled) [
  | inl on ↦ asked-refuses c on now now es (after c es) (omega arith) (after-Tracks c on now es h)
  | inr off ↦ before_call_off c now (after c es) off ∙ sym (rw off)
]
