-- ===== src/Payments/Execution.antt =====
-- What `execute_approved_payment` of app/services/payment_service.py does, branch by branch.
use mpesa_mcp_server.Common.{
  ℕ, suc, ◌<◌, ◌≤◌, String, ◌≡◌, ◌≢◌, refl, sym, ap, ◌∙◌, subst, ◌⊎◌, inl, inr, true, false, Option,
  none, some, [], ◌∷◌, ◌++◌, arith, ◌==◌, eq_iff, contains, length, leb, Bool-cases, test_of_ne,
}
use mpesa_mcp_server.Common.Dict.{lookup}
use mpesa_mcp_server.Common.Exec.{ok, pure, gets, continue-pure}
use mpesa_mcp_server.Common.Exec.Respects.{Respects, Respects-bind, Respects-gets, Respects-pure}
use mpesa_mcp_server.World.Quiet.{Aside, Aside-Preorder}
use mpesa_mcp_server.Approvals.Models.{ApprovalRequest}
use mpesa_mcp_server.Approvals.Repository.{get}
use mpesa_mcp_server.Approvals.Service.{approve_request, expire_stale_approvals}
use mpesa_mcp_server.Approvals.Answers.{reviewers_with}
use mpesa_mcp_server.Approvals.Aside.{approve_request-Aside, expire_stale_approvals-Aside}
use mpesa_mcp_server.Approvals.Review.{
  Outcome, expired, closed, duplicate, partial, approved, outcome, after_review, review_response,
  outcome-approved_iff, approve_request_lem, is_expired_open, is_expired_closed,
}
use mpesa_mcp_server.Payments.Providers.{PaymentRequest, initiate}
use mpesa_mcp_server.Payments.Records.{
  PaymentSettings, ApprovalExecutionResponse, PaymentResponse, executable,
}
use mpesa_mcp_server.Payments.Service.{
  execute_executable, execute_approved_stk_push, execute_reviewed, execute_current, execute_expired,
  execute_found, execute_approved_payment, execution, execution_not_found, or_request,
}
use mpesa_mcp_server.Payments.StkPush.{execute_stk_push_sends, approvals-execute_stk_push}
use mpesa_mcp_server.World.{Env, World}

-- What is approved is pending no more.
pub status-once : (s : String) → s ≡ "approved" → s ≢ "pending"
status-once s h e =
    let test : (s == "pending") ≡ true = (eq_iff s "pending").1 e in
    let computed : false ≡ true = subst (λ x. (x == "pending") ≡ true) h test in cc

payload-after_review :
    (o : Outcome) (a : ApprovalRequest) (operator_id : String) (time : ℕ)
    → (after_review o a operator_id time).payload ≡ a.payload
payload-after_review expired a operator_id time = refl
payload-after_review closed a operator_id time = refl
payload-after_review duplicate a operator_id time = refl
payload-after_review partial a operator_id time = refl
payload-after_review approved a operator_id time = refl

status-after_review :
    (o : Outcome) (a : ApprovalRequest) (operator_id : String) (time : ℕ)
    → o ≡ approved
    → (after_review o a operator_id time).status ≡ "approved"
status-after_review o a operator_id time good = rw good refl

module _ (env : Env) where
  execute_executable_sends :
      (x : Option (PaymentRequest × String)) (w : World)
      → let v = (execute_executable env x w).1 in
        (v.approvals ≡ w.approvals)
        × ((v.provider_calls ≡ w.provider_calls)
            ⊎ ((r : PaymentRequest) × (key : String) × (x ≡ some (r, key))
                × (v.provider_calls ≡ w.provider_calls ++ initiate r ∷ [])))
  unfolding execute_executable
  execute_executable_sends none w = (refl, inl refl)
  execute_executable_sends (some (r, key)) w = (
    approvals-execute_stk_push env r key w,
    elim (execute_stk_push_sends env r key w) [ inl e ↦ inl e | inr e ↦ inr (r, key, refl, e) ],
  )

module _ (env : Env) (settings : PaymentSettings) where
  -- Nothing there under the identifier: the answer says so, and nothing changes.
  pub execute_approved_payment_missing :
      (id operator_id : String) (w : World)
      → lookup id w.approvals ≡ none
      → execute_approved_payment env settings id operator_id w ≡ (ok execution_not_found, w)
  unfolding execute_approved_payment get execute_found
  execute_approved_payment_missing id operator_id w missing = rw missing

  -- A request that was approved, rejected or has expired: blocked, and nothing changes.
  pub execute_approved_payment_closed :
      (id operator_id : String) (a : ApprovalRequest) (w : World)
      → lookup id w.approvals ≡ some a
      → a.status ≢ "pending"
      → execute_approved_payment env settings id operator_id w
        ≡ (ok (execution "blocked" false "Approval request is not pending." (some a) none), w)
  unfolding execute_approved_payment get execute_found execute_current
  execute_approved_payment_closed id operator_id a w found closed_status =
      let test = test_of_ne a.status "pending" closed_status in
      rw found (rw (is_expired_closed env settings.approvals a w test, test))

  -- After the first reading of the clock, the review is made at the second.
  execute_current_lem :
      (id operator_id : String) (a : ApprovalRequest) (w : World)
      → lookup id w.approvals ≡ some a
      → a.approval_id ≡ id
      → (a.status == "pending") ≡ true
      → leb a.expires_at (env.clock w.clock_reads) ≡ false
      → let later = record w { clock_reads = suc w.clock_reads } in
        let o = outcome a operator_id (env.clock (suc w.clock_reads)) in
        let b = after_review o a operator_id (env.clock (suc (suc w.clock_reads))) in
        execute_approved_payment env settings id operator_id w
        ≡ execute_reviewed env
            (review_response o b)
            (review_response o b).approval
            (approve_request env settings.approvals id operator_id later).1
  unfolding execute_approved_payment get execute_found execute_current
  execute_current_lem id operator_id a w found key pending early =
      let later = record w { clock_reads = suc w.clock_reads } in
      let review = approve_request_lem env settings.approvals id operator_id a later found key in
      rw found
        (rw (is_expired_open env settings.approvals a w pending, early, pending) (rw review.0))

  -- The payment of a reviewed request: only an approved one reaches the provider.
  execute_reviewed_sends :
      (o : Outcome) (b : ApprovalRequest) (w : World)
      → let r = review_response o b in
        let v = (execute_reviewed env r r.approval w).1 in
        (v.approvals ≡ w.approvals)
        × ((v.provider_calls ≡ w.provider_calls)
            ⊎ ((r : PaymentRequest) × (key : String) × (o ≡ approved)
                × (executable b.payload ≡ some (r, key))
                × (v.provider_calls ≡ w.provider_calls ++ initiate r ∷ [])))
  unfolding execute_reviewed execute_approved_stk_push
  execute_reviewed_sends expired b w = (refl, inl refl)
  execute_reviewed_sends closed b w = (refl, inl refl)
  execute_reviewed_sends duplicate b w = (refl, inl refl)
  execute_reviewed_sends partial b w = (refl, inl refl)
  execute_reviewed_sends approved b w =
      let sends = execute_executable_sends env (executable b.payload) w in
      let answer = λ (p : PaymentResponse).
        execution "approved" p.allowed "Approval request approved and payment execution attempted."
          (some b) (some p) in
      let (result, v) = execute_executable env (executable b.payload) w in
      rw (continue-pure result answer v)
        (sends.0, elim sends.1 [ inl e ↦ inl e | inr (r, key, x, e) ↦ inr (r, key, refl, x, e) ])

  abbrev pub expired_answer : ApprovalRequest → Option ApprovalRequest → ApprovalExecutionResponse
  expired_answer a again =
      execution "expired" false "Approval request has expired." (some (or_request again a)) none

  execute_expired-Aside :
      (id : String) (a : ApprovalRequest) → Respects Aside (execute_expired env settings id a)
  unfolding execute_expired
  execute_expired-Aside id a =
      Respects-bind (expire_stale_approvals env settings.approvals) _
        (expire_stale_approvals-Aside env settings.approvals)
        (λ _.
          Respects-bind (gets (get id)) (λ again. pure (expired_answer a again))
            (Respects-gets (get id)) (λ again. Respects-pure (expired_answer a again)))

  -- Too late at the first reading: the stale requests expire, and the provider hears nothing.
  execute_late_sends :
      (id operator_id : String) (a : ApprovalRequest) (w : World)
      → lookup id w.approvals ≡ some a
      → (a.status == "pending") ≡ true
      → leb a.expires_at (env.clock w.clock_reads) ≡ true
      → (execute_approved_payment env settings id operator_id w).1.provider_calls ≡ w.provider_calls
  unfolding execute_approved_payment get execute_found
  execute_late_sends id operator_id a w found pending late =
      let later = record w { clock_reads = suc w.clock_reads } in
      rw found (
        rw (is_expired_open env settings.approvals a w pending, late)
          ((execute_expired-Aside id a).at later).provider_calls)

  -- A request leads to a payment, and what it was.
  abbrev pub Sent : String → String → ApprovalRequest → World → World → Type 0
  Sent id operator_id a w v =
      (r : PaymentRequest) × (key : String) × (b : ApprovalRequest) × (a.status ≡ "pending")
      × (env.clock w.clock_reads < a.expires_at)
      × (env.clock (suc w.clock_reads) < a.expires_at)
      × (contains a.reviewer_ids operator_id ≡ false)
      × (a.required_reviewers ≤ length (reviewers_with a operator_id))
      × (executable a.payload ≡ some (r, key))
      × (v.provider_calls ≡ w.provider_calls ++ initiate r ∷ [])
      × (lookup id v.approvals ≡ some b)
      × (b.status ≡ "approved")

  -- What `execute_approved_payment` comes to after the review, at the second reading.
  execute_reviewed-summary :
      (id operator_id : String) (a : ApprovalRequest) (w : World)
      → lookup id w.approvals ≡ some a
      → a.approval_id ≡ id
      → leb a.expires_at (env.clock w.clock_reads) ≡ false
      → let later = record w { clock_reads = suc w.clock_reads } in
        let o = outcome a operator_id (env.clock (suc w.clock_reads)) in
        let c = after_review o a operator_id (env.clock (suc (suc w.clock_reads))) in
        let v =
          (execute_reviewed env
            (review_response o c)
            (review_response o c).approval
            (approve_request env settings.approvals id operator_id later).1).1 in
        (v.provider_calls ≡ w.provider_calls) ⊎ Sent id operator_id a w v
  execute_reviewed-summary id operator_id a w found key early =
      let later = record w { clock_reads = suc w.clock_reads } in
      let o = outcome a operator_id (env.clock (suc w.clock_reads)) in
      let c = after_review o a operator_id (env.clock (suc (suc w.clock_reads))) in
      let review = approve_request_lem env settings.approvals id operator_id a later found key in
      let u = (approve_request env settings.approvals id operator_id later).1 in
      let aside = (approve_request-Aside env settings.approvals id operator_id).at later in
      let sends = execute_reviewed_sends o c u in
      elim sends.1 [
        | inl e ↦ inl (e ∙ aside.provider_calls)
        | inr (r, k, good, payload, e) ↦
            let conditions =
              (outcome-approved_iff a operator_id (env.clock (suc w.clock_reads))).0 good in
            inr (
              r,
              k,
              c,
              conditions.0,
              ground arith,
              conditions.1,
              conditions.2,
              conditions.3,
              (sym (ap executable (payload-after_review o a operator_id _))) ∙ payload,
              e ∙ ap (λ calls. calls ++ initiate r ∷ []) aside.provider_calls,
              ap (lookup id) sends.0 ∙ review.1,
              status-after_review o a operator_id _ good,
            )
      ]

  -- A request leads to a payment only if it is pending, in time at both readings of the clock, not
  -- reviewed by this operator before, and has its last review; the provider then gets the payment
  -- of its payload, once, and the request stands approved in the store.
  pub execute_approved_payment_sends :
      (id operator_id : String) (a : ApprovalRequest) (w : World)
      → lookup id w.approvals ≡ some a
      → a.approval_id ≡ id
      → let v = (execute_approved_payment env settings id operator_id w).1 in
        (v.provider_calls ≡ w.provider_calls) ⊎ Sent id operator_id a w v
  execute_approved_payment_sends id operator_id a w found key =
      elim (Bool-cases (a.status == "pending")) [
        | inr no_longer ↦ inl (
            rw (
              execute_approved_payment_closed id operator_id a w found
                (λ e. cc (no_longer, (eq_iff a.status "pending").1 e))))
        | inl pending ↦ elim (Bool-cases (leb a.expires_at (env.clock w.clock_reads))) [
          | inl late ↦ inl (execute_late_sends id operator_id a w found pending late)
          | inr early ↦
              rw (execute_current_lem id operator_id a w found key pending early)
                (execute_reviewed-summary id operator_id a w found key early)
        ]
      ]
