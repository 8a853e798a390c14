-- ===== src/Reconciliation/Service/ReadOnly.antt =====
-- The state after the reconciliation of app/reconciliation/service.py, and its answer.
use mpesa_mcp_server.Common.{
  ℕ, suc, ◌+◌, ◌≡◌, refl, sym, ◌∙◌, inl, inr, List, [], ◌∷◌, ◌++◌, keep, length, contains, All,
  All-append, arith, Bool-cases,
}
use mathlib.Core.List.{append-nil, append_assoc}
use mpesa_mcp_server.Common.Dict.{values}
use mpesa_mcp_server.Common.Exec.{Result, ok}
use mpesa_mcp_server.Storage.Records.{PendingTransaction}
use mpesa_mcp_server.Storage.Repository.{list_transactions}
use mpesa_mcp_server.Payments.Providers.{ProviderCall, check_status}
use mpesa_mcp_server.Reconciliation.Service.{
  ReconciliationFinding, ReconciliationSummary, answer_or_none, stale_pending_findings,
  mismatch_findings, reconcilable_statuses, reference, provider_status, provider_mismatch_findings,
  reconcile_each, run_reconciliation,
}
use mpesa_mcp_server.Reconciliation.Service.Counts.{
  IsKnown, counted, stale_pending_findings-IsKnown, mismatch_findings-IsKnown, build_summary_lem,
}
use mpesa_mcp_server.World.{Env, World, now, check_transaction_status}

-- The transactions that the reconciliation looks at.
abbrev pub reconcilable : List PendingTransaction → List PendingTransaction
reconcilable = keep (λ t. contains reconcilable_statuses t.status)

add_zero : (n : ℕ) → n + 0 ≡ n
add_zero n = omega arith

add_suc : (m n : ℕ) → m + suc n ≡ suc m + n
add_suc m n = omega arith

module _ (env : Env) (stale_pending_minutes : ℕ) where
  -- The questions to the provider about them.
  abbrev pub questions : List PendingTransaction → List ProviderCall
  questions [] = []
  questions (t ∷ ts) = check_status (reference env stale_pending_minutes t) ∷ questions ts

  ask_lem :
      (checked : ℕ) (more : List ReconciliationFinding) (call : ProviderCall) (n : ℕ)
      (calls : List ProviderCall) (w : World)
      → ◌≡◌ {A = Result (ℕ × List ReconciliationFinding) × World}
          (
            ok (suc checked + n, more),
            record w { provider_calls = (w.provider_calls ++ call ∷ []) ++ calls },
          )
          (
            ok (checked + suc n, more),
            record w { provider_calls = w.provider_calls ++ call ∷ calls },
          )
  ask_lem checked more call n calls w =
      rw (append_assoc w.provider_calls (call ∷ []) calls, add_suc checked n) refl

  reconcile_each_lem :
      (time : ℕ) (ts : List PendingTransaction) (checked : ℕ)
      (findings : List ReconciliationFinding) (w : World)
      → (more : List ReconciliationFinding) × (All IsKnown findings → All IsKnown more)
        × (reconcile_each env stale_pending_minutes time ts checked findings w ≡ (
          ok (checked + length (reconcilable ts), more),
          record w { provider_calls = w.provider_calls ++ questions (reconcilable ts) },
        ))
  unfolding reconcile_each provider_mismatch_findings provider_status check_transaction_status
  reconcile_each_lem time [] checked findings w =
      (findings, λ h. h, rw (append-nil w.provider_calls, add_zero checked) refl)
  reconcile_each_lem time (t ∷ ts) checked findings w =
      elim (Bool-cases (contains reconcilable_statuses t.status)) [
        | inr skipped ↦ rw skipped (reconcile_each_lem time ts checked findings w)
        | inl asked ↦
            let answer = answer_or_none (
              env.payment_provider.check_transaction_status w.provider_calls
                (reference env stale_pending_minutes t)) in
            let found =
              findings
              ++ stale_pending_findings stale_pending_minutes t time
              ++ mismatch_findings t answer in
            let call = check_status (reference env stale_pending_minutes t) in
            let w' = record w { provider_calls = w.provider_calls ++ call ∷ [] } in
            let (more, known, e) = reconcile_each_lem time ts (suc checked) found w' in
            rw asked (
              more,
              λ h. known (
                  All-append IsKnown _ (mismatch_findings t answer)
                    (All-append IsKnown findings _ h
                      (stale_pending_findings-IsKnown stale_pending_minutes time t))
                    (mismatch_findings-IsKnown t answer)),
              e
                  ∙ ask_lem checked more call (length (reconcilable ts))
                      (questions (reconcilable ts)) w,
            )
      ]

  -- The reconciliation asks the provider for the status of each reconcilable transaction, in their
  -- order; it changes nothing else but for reading the clock once.
  pub run_reconciliation_reads :
      (w : World)
      → (run_reconciliation env stale_pending_minutes w).1 ≡ record w {
        clock_reads = suc w.clock_reads;
        provider_calls = w.provider_calls ++ questions (reconcilable (values w.transactions));
      }
  unfolding run_reconciliation now list_transactions
  run_reconciliation_reads w =
      let later = record w { clock_reads = suc w.clock_reads } in
      let (more, _, e) =
        reconcile_each_lem (env.clock w.clock_reads) (values w.transactions) 0 [] later in
      rw e refl

  -- The reconciliation always returns a summary: of all the reconcilable transactions, with the
  -- findings in the list counted, and the six counters adding up to their number.
  pub run_reconciliation_summary :
      (w : World)
      → (s : ReconciliationSummary) × ((run_reconciliation env stale_pending_minutes w).0 ≡ ok s)
        × (s.checked_transactions ≡ length (reconcilable (values w.transactions)))
        × (s.finding_count ≡ length s.findings)
        × (counted s ≡ s.finding_count)
  unfolding run_reconciliation now list_transactions
  run_reconciliation_summary w =
      let later = record w { clock_reads = suc w.clock_reads } in
      let (more, known, e) =
        reconcile_each_lem (env.clock w.clock_reads) (values w.transactions) 0 [] later in
      let checked = length (reconcilable (values w.transactions)) in
      let (s, done, same, number, count, sum) = build_summary_lem (0 + checked) more (known tt) in
      (s, rw e done, omega (arith, number), rw same count, sum ∙ sym count)
