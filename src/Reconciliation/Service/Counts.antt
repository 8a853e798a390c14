-- ===== src/Reconciliation/Service/Counts.antt =====
-- The counters of `_build_summary` of app/reconciliation/service.py.
use mpesa_mcp_server.Common.{
  ℕ, suc, ◌+◌, String, true, ◌≡◌, refl, ap, ◌∙◌, inl, inr, Option, none, some, List, [], ◌∷◌, ◌==◌,
  eq_iff, arith, All, length, contains, All-contains, Bool-cases, if◌then◌else◌,
}
use mpesa_mcp_server.Common.Dict.{Dict, lookup, insert, lookup-insert}
use mpesa_mcp_server.Common.Exec.{ok}
use mpesa_mcp_server.Storage.Records.{PendingTransaction}
use mpesa_mcp_server.Payments.Providers.{PaymentStatusResponse}
use mpesa_mcp_server.Reconciliation.Service.{
  ReconciliationFinding, ReconciliationSummary, finding_types, stale_pending_findings,
  mismatch_findings, zeros, tally, build_summary, summary_of, count_at,
}

-- How many of the findings have this type.
abbrev pub count : String → List ReconciliationFinding → ℕ
count key [] = 0
count key (f ∷ findings) =
    let rest = count key findings in if f.finding_type == key then suc rest else rest

abbrev pub IsKnown : ReconciliationFinding → Type 0
IsKnown f = contains finding_types f.finding_type ≡ true

-- Each known type has a counter.
abbrev IsReady : Dict ℕ → Type 0
IsReady counts =
    (key : String) → contains finding_types key ≡ true → (n : ℕ) × (lookup key counts ≡ some n)

tally_step :
    (f : ReconciliationFinding) (findings : List ReconciliationFinding) (counts : Dict ℕ) (n : ℕ)
    → lookup f.finding_type counts ≡ some n
    → tally (f ∷ findings) counts ≡ tally findings (insert f.finding_type (suc n) counts)
unfolding tally
tally_step f findings counts n there = rw there refl

tally_lem :
    (findings : List ReconciliationFinding) (counts : Dict ℕ)
    → All IsKnown findings
    → IsReady counts
    → (after : Dict ℕ) × (tally findings counts ≡ ok after)
      × ((key : String) (n : ℕ)
          → lookup key counts ≡ some n
          → lookup key after ≡ some (n + count key findings))
unfolding tally
tally_lem [] counts known ready = (counts, refl, λ key n h. ground arith)
tally_lem (f ∷ findings) counts known ready =
    let (n, there) = ready f.finding_type known.0 in
    let counts' = insert f.finding_type (suc n) counts in
    let ready' : IsReady counts' = λ key h.
      let (m, found) = ready key h in
      elim (Bool-cases (f.finding_type == key)) [
        | inl same ↦ (suc n, rw (lookup-insert f.finding_type key (suc n) counts, same) refl)
        | inr other ↦ (m, rw (lookup-insert f.finding_type key (suc n) counts, other) found)
      ] in
    let (after, done, sums) = tally_lem findings counts' known.1 ready' in
    (
      after,
      tally_step f findings counts n there ∙ done,
      λ key m found. elim (Bool-cases (f.finding_type == key)) [
        | inl same ↦
            let here : m ≡ n = ground (arith, eq_iff f.finding_type key) in
            let stored : lookup key counts' ≡ some (suc n) =
              rw (lookup-insert f.finding_type key (suc n) counts, same) refl in
            ground (arith, sums key (suc n) stored)
        | inr other ↦
            let stored : lookup key counts' ≡ some m =
              rw (lookup-insert f.finding_type key (suc n) counts, other) found in
            ground (arith, sums key m stored)
      ],
    )

pub stale_pending_findings-IsKnown :
    (minutes time : ℕ) (t : PendingTransaction)
    → All IsKnown (stale_pending_findings minutes t time)
unfolding stale_pending_findings
stale_pending_findings-IsKnown minutes time t = ground arith

pub mismatch_findings-IsKnown :
    (t : PendingTransaction) (answer : Option PaymentStatusResponse)
    → All IsKnown (mismatch_findings t answer)
unfolding mismatch_findings
mismatch_findings-IsKnown t none = (refl, tt)
mismatch_findings-IsKnown t (some answer) = ground arith

-- A known type is counted by one of the counters.
abbrev CountsOne : ℕ → ℕ → ℕ → ℕ → ℕ → ℕ → String → Type 0
CountsOne a b c d e f s =
    (if s == "pending_local_but_provider_completed" then suc a else a)
      + (if s == "pending_local_but_provider_failed" then suc b else b)
      + (if s == "completed_local_but_provider_failed" then suc c else c)
      + (if s == "failed_local_but_provider_completed" then suc d else d)
      + (if s == "stale_pending_transaction" then suc e else e)
      + (if s == "provider_status_unknown" then suc f else f)
    ≡ suc (a + b + c + d + e + f)

one_of_six :
    (s : String) (a b c d e f : ℕ) → contains finding_types s ≡ true → CountsOne a b c d e f s
one_of_six s a b c d e f =
    All-contains (CountsOne a b c d e f) finding_types s
      (omega arith, (omega arith, (omega arith, (omega arith, (omega arith, (omega arith, tt))))))

-- How many of the findings have one of the six types.
abbrev counted_findings : List ReconciliationFinding → ℕ
counted_findings findings =
    count "pending_local_but_provider_completed" findings
    + count "pending_local_but_provider_failed" findings
    + count "completed_local_but_provider_failed" findings
    + count "failed_local_but_provider_completed" findings
    + count "stale_pending_transaction" findings
    + count "provider_status_unknown" findings

counted_findings_lem :
    (findings : List ReconciliationFinding)
    → All IsKnown findings
    → counted_findings findings ≡ length findings
counted_findings_lem [] known = refl
counted_findings_lem (f ∷ findings) known =
    one_of_six f.finding_type _ _ _ _ _ _ known.0 ∙ ap suc (counted_findings_lem findings known.1)

-- The sum of the counters.
abbrev pub counted : ReconciliationSummary → ℕ
counted s =
    s.pending_local_but_provider_completed + s.pending_local_but_provider_failed
    + s.completed_local_but_provider_failed + s.failed_local_but_provider_completed
    + s.stale_pending_transaction + s.provider_status_unknown

zeros-IsReady : IsReady (zeros finding_types)
unfolding lookup
zeros-IsReady key =
    All-contains (λ k. (n : ℕ) × (lookup k (zeros finding_types) ≡ some n)) finding_types key
      ((0, refl), ((0, refl), ((0, refl), ((0, refl), ((0, refl), ((0, refl), tt))))))

count_at_lem :
    (key : String) (counts : Dict ℕ) (n : ℕ) → lookup key counts ≡ some n → count_at key counts ≡ n
count_at_lem key counts n there = rw there refl

sum_lem :
    (findings : List ReconciliationFinding) (counts : Dict ℕ)
    → ((key : String)
        → lookup key (zeros finding_types) ≡ some 0
        → count_at key counts ≡ count key findings)
    → counted_findings findings ≡ length findings
    → count_at "pending_local_but_provider_completed" counts
        + count_at "pending_local_but_provider_failed" counts
        + count_at "completed_local_but_provider_failed" counts
        + count_at "failed_local_but_provider_completed" counts
        + count_at "stale_pending_transaction" counts
        + count_at "provider_status_unknown" counts
      ≡ length findings
unfolding lookup
sum_lem findings counts at_each total =
    rw
      (
        at_each "pending_local_but_provider_completed" refl,
        at_each "pending_local_but_provider_failed" refl,
        at_each "completed_local_but_provider_failed" refl,
        at_each "failed_local_but_provider_completed" refl,
        at_each "stale_pending_transaction" refl,
        at_each "provider_status_unknown" refl,
      )
      total

-- Of known findings, the summary counts each type, and its counters add up to their number.
pub build_summary_lem :
    (checked : ℕ) (findings : List ReconciliationFinding)
    → All IsKnown findings
    → (s : ReconciliationSummary) × (build_summary checked findings ≡ ok s)
      × (s.findings ≡ findings)
      × (s.checked_transactions ≡ checked)
      × (s.finding_count ≡ length findings)
      × (counted s ≡ length findings)
unfolding build_summary lookup
build_summary_lem checked findings known =
    let (counts, done, sums) = tally_lem findings (zeros finding_types) known zeros-IsReady in
    (
      summary_of checked findings counts,
      rw done refl,
      refl,
      refl,
      refl,
      sum_lem findings counts
          (λ key ready. omega (arith, count_at_lem key counts _ (sums key 0 ready)))
          (counted_findings_lem findings known),
    )
