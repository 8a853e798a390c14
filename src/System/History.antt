-- ===== src/System/History.antt =====
-- Sequences of the calls of app/services, app/approvals, app/callbacks, app/analytics,
-- app/reconciliation and app/operator.
use mpesa_mcp_server.Common.{
  ℕ, String, Bool, true, ◌≡◌, ◌≢◌, refl, sym, ◌∙◌, ap, inl, inr, some, [], ◌∷◌, arith, ◌==◌, eq_iff,
  first, first_test, Bool-cases,
}
use mpesa_mcp_server.Common.Dict.{Dict, lookup, values, AllEntries-lookup}
use mpesa_mcp_server.World.{Env, World}
use mpesa_mcp_server.Storage.Records.{PendingTransaction}
use mpesa_mcp_server.Storage.Repository.{find_by_idempotency_key, has_idempotency_key}
use mpesa_mcp_server.Storage.Evolution as StoredTransactions
use mpesa_mcp_server.Storage.Progress as Transactions
use mpesa_mcp_server.Storage.Progress.{lookup-first}
use mpesa_mcp_server.Approvals.Models.{ApprovalRequest}
use mpesa_mcp_server.Approvals.Evolution as StoredApprovals
use mpesa_mcp_server.Approvals.Progress as Approvals
use mpesa_mcp_server.Approvals.Aside.{
  approve_request-Aside, create_approval_request-Aside, reject_request-Aside,
  list_pending_requests-Aside,
}
use mpesa_mcp_server.Approvals.Calls.{reject_request-Progress, list_pending_requests-Progress}
use mpesa_mcp_server.Approvals.Calls.Approving.{approve_request-Progress}
use mpesa_mcp_server.Approvals.Calls.Creating.{create_approval_request-Progress}
use mpesa_mcp_server.Callbacks.Handler.{process}
use mpesa_mcp_server.System.Routes.{
  handle_stk_callback-Both, serve_approval-Both, serve_operator-Both,
  generate_receipt_by_reference-Both,
}
use mpesa_mcp_server.Payments.Providers.{PaymentRequest}
use mpesa_mcp_server.Payments.Records.{PaymentSettings}
use mpesa_mcp_server.Payments.Service.{execute_stk_push, execute_approved_payment}
use mpesa_mcp_server.Payments.StkPush.{execute_stk_push_existing}
use mpesa_mcp_server.Payments.Execution.{
  execute_approved_payment_closed, execute_approved_payment_sends, status-once,
}
use mpesa_mcp_server.Callbacks.Payload.{Builtins}
use mpesa_mcp_server.System.{
  ServiceStep, Step, Reach, serving, initiating, executing, approving, rejecting, listing,
  calling_back, receipting, querying, summarizing, reconciling, creating, expiring, reviewing,
  routing_callback, receipting_by_reference, operating, done, then_step,
}
use mpesa_mcp_server.System.Both.{Both, Both-Preorder, aside}
use mpesa_mcp_server.System.Payments.{
  initiate_stk_push-Both, execute_approved_payment-Both, expire_stale_approvals-Both,
}
use mpesa_mcp_server.System.Readings.{check_transaction_status-Both, get_today_summary-Both}
use mpesa_mcp_server.System.Others.{process-Both, generate_receipt-Both, run_reconciliation-Both}

module _ (env : Env) (settings : PaymentSettings) (builtins : Builtins)
    (issue_once : (i j : ℕ) → env.new_id i ≡ env.new_id j → i ≡ j) where
  ServiceStep-Both : (w v : World) → ServiceStep env settings builtins w v → Both env w v
  ServiceStep-Both _ _ (initiating push w) =
      (initiate_stk_push-Both env issue_once settings push).at w
  ServiceStep-Both _ _ (executing id op w) =
      (execute_approved_payment-Both env issue_once settings id op).at w
  ServiceStep-Both _ _ (approving id op w) =
      (aside env _ (approve_request-Aside env settings.approvals id op)
          (approve_request-Progress env settings.approvals id op)).at
        w
  ServiceStep-Both _ _ (rejecting id w) =
      (aside env _ (reject_request-Aside env settings.approvals id)
          (reject_request-Progress env settings.approvals id)).at
        w
  ServiceStep-Both _ _ (listing w) =
      (aside env _ (list_pending_requests-Aside env settings.approvals)
          (list_pending_requests-Progress env settings.approvals)).at
        w
  ServiceStep-Both _ _ (calling_back payload w) = (process-Both env builtins payload).at w
  ServiceStep-Both _ _ (receipting id w) = (generate_receipt-Both env id).at w
  ServiceStep-Both _ _ (querying id w) =
      (check_transaction_status-Both env settings.max_stk_amount id).at w
  ServiceStep-Both _ _ (summarizing date w) = (get_today_summary-Both env date).at w
  ServiceStep-Both _ _ (reconciling minutes w) = (run_reconciliation-Both env minutes).at w

  Step-Both : (w v : World) → Step env settings builtins w v → Both env w v
  Step-Both _ _ (serving w v step) = ServiceStep-Both w v step
  Step-Both _ _ (creating action payload reason w) =
      (aside env _ (create_approval_request-Aside env settings.approvals action payload reason) (
          create_approval_request-Progress env issue_once settings.approvals action payload
            reason)).at
        w
  Step-Both _ _ (expiring w) = (expire_stale_approvals-Both env issue_once settings).at w
  Step-Both _ _ (reviewing call access w) =
      (serve_approval-Both env issue_once settings call access).at w
  Step-Both _ _ (routing_callback quote callbacks now secret headers payload site) =
      handle_stk_callback-Both env builtins quote callbacks (process env builtins)
        (process-Both env builtins) now secret headers payload site
  Step-Both _ _ (receipting_by_reference reference w) =
      (generate_receipt_by_reference-Both env reference).at w
  Step-Both _ _ (operating date minutes s dependencies is_space lower jwks call authorization w) =
      (serve_operator-Both env date minutes s dependencies is_space lower jwks call
          authorization).at
        w

  -- If identifiers are issued once, any sequence of calls of the services and requests to the routes
  -- keeps the invariants of both stores and only evolves what is stored: a transaction changes only
  -- from pending to a terminal status, with its deal unchanged, and a request keeps what was asked
  -- and its reviews.
  pub Reach-Both : (w v : World) → Reach (Step env settings builtins) w v → Both env w v
  Reach-Both _ _ (done w) = (Both-Preorder env).reflexive w
  Reach-Both _ _ (then_step w u v step rest) =
      (Both-Preorder env).transitive w u v (Step-Both w u step) (Reach-Both u v rest)

words_differ : (word t : String) → t ≡ word → t ≡ "pending" → (word == "pending") ≡ true
words_differ word t e h = (eq_iff word "pending").1 (sym e ∙ h)

-- What is stored under some key and passes a test, a search finds.
first-lookup :
    {V : Type 0} (test : V → Bool) (k : String) (v : V) (d : Dict V)
    → lookup k d ≡ some v
    → test v ≡ true
    → (u : V) × (first test (values d) ≡ some u)
unfolding lookup values
first-lookup test k v [] h e = absurd (ground arith)
first-lookup test k v ((j, u) ∷ d) h e = elim (Bool-cases (test u)) [
  | inl passes ↦ (u, rw passes refl)
  | inr fails ↦ elim (Bool-cases (j == k)) [
    | inl same ↦ absurd (ground arith)
    | inr other ↦ let (x, found) = first-lookup test k v d (rw other at h) e in (x, rw fails found)
  ]
]

module _ (env : Env) (settings : PaymentSettings) (builtins : Builtins)
    (issue_once : (i j : ℕ) → env.new_id i ≡ env.new_id j → i ≡ j) where
  -- A key that has a transaction keeps one.
  key-Evolves :
      (key : String) (t : PendingTransaction) (w v : World)
      → Transactions.IsKept env w
      → StoredTransactions.Evolves w.transactions v.transactions
      → find_by_idempotency_key key w ≡ some t
      → (u : PendingTransaction) × (find_by_idempotency_key key v ≡ some u)
  unfolding find_by_idempotency_key
  key-Evolves key t w v kept evolves found =
      let there =
        (lookup-first env (has_idempotency_key key) w.ids_issued w.transactions t kept.is_dict
          kept.entries found).0 in
      let (u, later, moved) = evolves t.transaction_id t there in
      let passes = first_test (has_idempotency_key key) (values w.transactions) t found in
      first-lookup (has_idempotency_key key) t.transaction_id u v.transactions later (elim moved [
        | inl same ↦ rw same passes
        | inr (deal, _, _) ↦ rw deal.idempotency_key passes
      ])

  -- A payment is made once for its key: if identifiers are issued once and a transaction is stored
  -- under a key in a state that keeps the invariant of the transaction store, then after any
  -- sequence of calls of the services and requests to the routes a further execution with that key,
  -- of whatever payment, changes nothing and so does not reach the provider.
  pub execute_stk_push-Reach :
      (r : PaymentRequest) (key : String) (t : PendingTransaction) (w v : World)
      → Transactions.IsKept env w
      → find_by_idempotency_key key w ≡ some t
      → Reach (Step env settings builtins) w v
      → (execute_stk_push env r key v).1 ≡ v
  execute_stk_push-Reach r key t w v kept found reach =
      let evolves =
        (Reach-Both env settings builtins issue_once w v reach).transactions.evolves kept in
      let (u, later) = key-Evolves key t w v kept evolves found in
      ap (λ p. p.1) (execute_stk_push_existing env r key u v later)

  StatusMove-closed :
      (s t : String) → StoredApprovals.StatusMove s t → s ≢ "pending" → t ≢ "pending"
  StatusMove-closed s t (inl e) closed h = closed (sym e ∙ h)
  StatusMove-closed s t (inr (inl e)) closed h =
      absurd (ground (arith, words_differ "expired" t e h))
  StatusMove-closed s t (inr (inr (inl e))) closed h =
      absurd (ground (arith, words_differ "rejected" t e h))
  StatusMove-closed s t (inr (inr (inr (e, f)))) closed h = closed e

  -- An approval pays once, from a state that keeps the invariant of the approval store, if
  -- identifiers are issued once: after a call that reached the provider for a stored request, and
  -- any sequence of calls of the services and requests to the routes after it, a further execution
  -- of the approval, by whatever operator, changes nothing.
  pub execute_approved_payment-Reach :
      (id operator_id other : String) (a : ApprovalRequest) (w u : World)
      → Approvals.IsKept env w
      → lookup id w.approvals ≡ some a
      → let v = (execute_approved_payment env settings id operator_id w).1 in
        v.provider_calls ≢ w.provider_calls
        → Reach (Step env settings builtins) v u
        → (execute_approved_payment env settings id other u).1 ≡ u
  execute_approved_payment-Reach id operator_id other a w u kept found called reach =
      let v = (execute_approved_payment env settings id operator_id w).1 in
      let step = (execute_approved_payment-Both env issue_once settings id operator_id).at w in
      let kept' = step.approvals.kept kept in
      let entry =
        AllEntries-lookup (Approvals.Entry env w.ids_issued) id a w.approvals kept.entries found in
      elim (execute_approved_payment_sends env settings id operator_id a w found entry.key) [
        | inl same ↦ absurd (called same)
        | inr (r, k, b, _, _, _, _, _, _, _, there, approved) ↦
            let evolves =
              (Reach-Both env settings builtins issue_once v u reach).approvals.evolves kept' in
            let (c, later, moved) = evolves id b there in
            ap (λ p. p.1)
              (execute_approved_payment_closed env settings id other c u later
                (StatusMove-closed b.status c.status moved.status (status-once b.status approved)))
      ]
