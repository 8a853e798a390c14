-- ===== src/Payments/Initiation.antt =====
-- What `initiate_stk_push` and `_execute_stk_push` of app/services/payment_service.py do: which
-- requests reach the payment provider, and how often.
use mpesa_mcp_server.Payments.StkPush.{execute_stk_push_existing, execute_stk_push_sends}
use mpesa_mcp_server.Common.{
  suc, ◌+◌, String, ◌≡◌, refl, ◌⊎◌, inl, inr, true, Option, none, some, [], ◌∷◌, ◌++◌, eq_refl,
  or_else, Bool-cases,
}
use mpesa_mcp_server.Common.Int.{ℤ, pos, ◌≤ℤ◌, ◌<ℤ◌}
use mpesa_mcp_server.Common.Dict.{lookup, insert, first-insert, lookup-insert_self}
use mpesa_mcp_server.Common.Exec.{ok}
use mpesa_mcp_server.Common.Exec.Respects.{Respects-bind, Respects-pure, Respects-weaken}
use mpesa_mcp_server.World.Quiet.{Aside-Preorder, Aside-Quiet, increment-Quiet}
use mpesa_mcp_server.Safety.Policy.{PolicyDecision, evaluate}
use mpesa_mcp_server.Safety.Policy.Laws.{stk_push, evaluate_within, evaluate_requires_approval_iff}
use mpesa_mcp_server.Storage.Repository.{
  find_by_idempotency_key, save_pending_transaction, pending_transaction,
}
use mpesa_mcp_server.Audit.Logger.{log_event}
use mpesa_mcp_server.Approvals.Models.{ApprovalRequest}
use mpesa_mcp_server.Approvals.Repository
use mpesa_mcp_server.Approvals.Service.{create_approval_request, log_audit_event}
use mpesa_mcp_server.Approvals.Answers.{
  required_reviewers_for_amount, required_reviewers_for_payload, minutes,
}
use mpesa_mcp_server.Approvals.Aside.{create_approval_request-Aside}
use mpesa_mcp_server.Payments.Providers.{PaymentRequest, PaymentInitiationResponse, initiate}
use mpesa_mcp_server.Payments.Records.{
  StkPush, PaymentSettings, new_transaction, pending_response, executable, approval_payload,
}
use mpesa_mcp_server.Payments.Outcomes.{opened, repeated}
use mpesa_mcp_server.Payments.Service.{
  derive_idempotency_key, record_payment, execute_unless_existing, execute_stk_push,
  initiate_stk_push, request_approval, execute_allowed, policy_request, approval_response,
}
use mpesa_mcp_server.World.{Env, World, increment, initiate_payment}
use mpesa_mcp_server.Observability.Metrics

-- The request and the key of a push whose phone number and amount are given.
abbrev pub request_of : StkPush → String → ℤ → PaymentRequest
request_of push phone_number amount = record {
  phone_number = phone_number;
  amount = amount;
  account_reference = push.account_reference;
  description = push.description;
}

-- The push with this phone number and this amount.
abbrev pub with_both : StkPush → String → ℤ → StkPush
with_both push p n = record push { phone_number = some p; amount = some n }

module _ (env : Env) where
  -- An answering provider: the transaction is stored under the key as pending, and found by it.
  pub execute_stk_push_stored :
      (r : PaymentRequest) (key : String) (response : PaymentInitiationResponse) (w : World)
      → find_by_idempotency_key key w ≡ none
      → env.payment_provider.initiate_payment w.provider_calls r ≡ ok response
      → let (answer, v) = execute_stk_push env r key w in
        let t =
          pending_transaction
            (new_transaction r key response)
            (env.new_id w.ids_issued)
            (env.clock w.clock_reads)
            (env.clock (suc w.clock_reads)) in
        (answer ≡ ok (pending_response t response key))
        × (v.transactions ≡ insert t.transaction_id t w.transactions)
        × (find_by_idempotency_key key v ≡ some t)
        × (v.metrics.successful_payment_count ≡ suc w.metrics.successful_payment_count)
        × (v.metrics.failed_payment_count ≡ w.metrics.failed_payment_count)
  unfolding execute_stk_push execute_unless_existing record_payment initiate_payment increment
      Metrics.increment save_pending_transaction log_event find_by_idempotency_key
  execute_stk_push_stored r key response w absent answered =
      rw (absent, answered)
        (refl, refl, first-insert _ _ _ w.transactions absent (eq_refl key), refl, refl)

  -- After the provider has answered for a key, a call with the same key, of whatever payment,
  -- changes nothing and tells of the transaction that was stored.
  pub execute_stk_push_again :
      (r again : PaymentRequest) (key : String) (response : PaymentInitiationResponse) (w : World)
      → find_by_idempotency_key key w ≡ none
      → env.payment_provider.initiate_payment w.provider_calls r ≡ ok response
      → let v = (execute_stk_push env r key w).1 in
        let t =
          opened r key response
            (env.new_id w.ids_issued)
            (env.clock w.clock_reads)
            (env.clock (suc w.clock_reads)) in
        execute_stk_push env again key v ≡ (ok (repeated t), v)
  execute_stk_push_again r again key response w absent answered =
      execute_stk_push_existing env again key _ _
        (execute_stk_push_stored r key response w absent answered).2

  module _ (settings : PaymentSettings) where
    -- The push asks for a positive amount within the limit, and names its phone number.
    abbrev pub IsWithinLimit : Option ℤ → Option String → Type 0
    IsWithinLimit amount phone_number =
        (n : ℤ) × (p : String) × (amount ≡ some n)
        × (phone_number ≡ some p)
        × (pos 0 <ℤ n)
        × (n ≤ℤ settings.max_stk_amount)

    request_approval-calls :
        (push : StkPush) (d : PolicyDecision) (p : Option String) (n : Option ℤ) (w : World)
        → (request_approval env settings push d p n w).1.provider_calls ≡ w.provider_calls
    unfolding request_approval
    request_approval-calls push d none n w = refl
    request_approval-calls push d (some p) none w = refl
    request_approval-calls push d (some p) (some n) w =
        ((Respects-bind _ _ (create_approval_request-Aside env settings.approvals _ _ _) (λ a.
            Respects-bind _ _ (Respects-weaken _ Aside-Quiet (increment-Quiet _))
              (λ _. Respects-pure _))).at
          w).provider_calls

    execute_allowed-sends :
        (push : StkPush) (p : Option String) (n : Option ℤ) (w : World)
        → (evaluate settings.max_stk_amount (stk_push n p)).allowed ≡ true
        → let v = (execute_allowed env settings push p n w).1 in
          (v.provider_calls ≡ w.provider_calls)
          ⊎ ((within : IsWithinLimit n p) × (v.provider_calls
                ≡ w.provider_calls ++ initiate (request_of push within.1 within.0) ∷ []))
    unfolding execute_allowed
    execute_allowed-sends push none n w allowed = inl refl
    execute_allowed-sends push (some p) none w allowed = inl refl
    execute_allowed-sends push (some p) (some n) w allowed =
        let r = request_of push p n in
        let within = evaluate_within settings.max_stk_amount n p allowed in
        elim (execute_stk_push_sends env r
          (or_else push.idempotency_key (derive_idempotency_key env r)) w) [
            | inl e ↦ inl e
            | inr e ↦ inr ((n, p, refl, refl, within.0, within.1), e)
          ]

    -- The provider hears of a push only if it is within the limit, and then of exactly its phone
    -- number, amount, reference and description, at most once.
    pub initiate_stk_push_sends :
        (push : StkPush) (w : World)
        → let v = (initiate_stk_push env settings push w).1 in
          (v.provider_calls ≡ w.provider_calls)
          ⊎ ((within : IsWithinLimit push.amount push.phone_number) × (v.provider_calls
                ≡ w.provider_calls ++ initiate (request_of push within.1 within.0) ∷ []))
    unfolding initiate_stk_push
    initiate_stk_push_sends push w =
        let decision = evaluate settings.max_stk_amount (policy_request push) in
        elim (Bool-cases decision.requires_approval) [
          | inl approve ↦
              inl
                (rw approve (request_approval-calls push decision push.phone_number push.amount w))
          | inr direct ↦ elim (Bool-cases decision.allowed) [
            | inr blocked ↦ inl (rw (direct, blocked))
            | inl allowed ↦
                rw (direct, allowed)
                  (execute_allowed-sends push push.phone_number push.amount w allowed)
          ]
        ]

    -- The request that is filed for a payment.
    abbrev pub filed : PaymentRequest → String → String → World → ApprovalRequest
    filed r key reason w = record {
      approval_id = env.new_id w.ids_issued;
      action = "initiate_stk_push";
      payload = approval_payload r key;
      reason = reason;
      status = "pending";
      created_at = env.clock (suc w.clock_reads);
      expires_at = env.clock w.clock_reads + minutes settings.approvals.expiry_minutes;
      reviewed_at = none;
      expired_at = none;
      required_reviewers = required_reviewers_for_amount settings.approvals (some r.amount);
      reviewer_ids = [];
      review_count = 0;
    }

    request_approval-files :
        (push : StkPush) (d : PolicyDecision) (p : String) (n : ℤ) (w : World)
        → let r = request_of push p n in
          let key = or_else push.idempotency_key (derive_idempotency_key env r) in
          let (answer, v) = request_approval env settings push d (some p) (some n) w in
          let a = filed r key d.reason w in
          (answer ≡ ok (approval_response d a.approval_id key))
          × (v.provider_calls ≡ w.provider_calls)
          × (v.transactions ≡ w.transactions)
          × (v.approvals ≡ insert a.approval_id a w.approvals)
    unfolding request_approval create_approval_request Repository.create increment log_audit_event
        log_event required_reviewers_for_payload lookup
    request_approval-files push d p n w = elim (Bool-cases settings.approvals.has_audit_logger) [
      | inl e ↦ rw e (refl, refl, refl, refl)
      | inr e ↦ rw e (refl, refl, refl, refl)
    ]

    -- Above the limit, with amount and phone number given: the provider hears nothing, no
    -- transaction is stored, and a pending request is filed whose payload executes this payment.
    pub initiate_stk_push_above_limit :
        (push : StkPush) (n : ℤ) (p : String) (w : World)
        → pos 0 <ℤ n
        → settings.max_stk_amount <ℤ n
        → let r = request_of push p n in
          let key = or_else push.idempotency_key (derive_idempotency_key env r) in
          let d = evaluate settings.max_stk_amount (stk_push (some n) (some p)) in
          let (answer, v) = initiate_stk_push env settings (with_both push p n) w in
          let a = filed r key d.reason w in
          (answer ≡ ok (approval_response d a.approval_id key))
          × (v.provider_calls ≡ w.provider_calls)
          × (v.transactions ≡ w.transactions)
          × (lookup a.approval_id v.approvals ≡ some a)
          × (executable a.payload ≡ some (r, key))
    unfolding initiate_stk_push executable lookup
    initiate_stk_push_above_limit push n p w positive above =
        let asked =
          (evaluate_requires_approval_iff settings.max_stk_amount (some n) (some p)).1
            (n, p, refl, refl, positive, above) in
        let d = evaluate settings.max_stk_amount (stk_push (some n) (some p)) in
        let files = request_approval-files (with_both push p n) d p n w in
        rw asked (files.0, files.1, files.2, rw files.3 (lookup-insert_self _ _ w.approvals), refl)
