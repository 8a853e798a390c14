-- ===== src/Approvals/Review.antt =====
-- What a review by `approve_request` of app/approvals/service.py comes to, branch by branch.
use mpesa_mcp_server.Common.{
  ℕ, suc, ◌<◌, ◌≤◌, String, ◌≡◌, ◌↔◌, refl, sym, subst, inl, inr, true, false, not, none, some, [],
  ◌∷◌, arith, ◌==◌, eq_iff, contains, length, ltb, leb, Bool-cases, if◌then◌else◌,
}
use mpesa_mcp_server.Common.Dict.{Dict, lookup, lookup-insert_self}
use mpesa_mcp_server.Common.Json.{Json, str}
use mpesa_mcp_server.Common.Exec.{ok, pure, ◌>>◌}
use mpesa_mcp_server.Approvals.Models.{ApprovalRequest}
use mpesa_mcp_server.Approvals.Repository
use mpesa_mcp_server.Approvals.Repository.{get, with_status}
use mpesa_mcp_server.Approvals.Service.{
  log_audit_event, is_expired, expire_approval, expire_updated, approve_current, approve_found,
  approve_request,
}
use mpesa_mcp_server.Approvals.Answers.{
  ApprovalSettings, ApprovalServiceResponse, reviewed, reviewers_with, response, expired_response,
  not_found_response, partial_payload, approved_payload,
}
use mpesa_mcp_server.Approvals.Calls.{log_audit_event-Quiet}
use mpesa_mcp_server.Audit.Logger.{log_event}
use mpesa_mcp_server.World.{Env, World, now}

-- The outcomes of a review at a time.
pub data Outcome : Type 0 where
  expired closed duplicate partial approved : Outcome

pub outcome : ApprovalRequest → String → ℕ → Outcome
outcome a operator_id time =
    if not (a.status == "pending")
    then closed
    else if leb a.expires_at time
    then expired
    else if contains a.reviewer_ids operator_id
    then duplicate
    else if ltb (length (reviewers_with a operator_id)) a.required_reviewers
    then partial
    else approved

-- The request after the review.
abbrev pub after_review : Outcome → ApprovalRequest → String → ℕ → ApprovalRequest
after_review expired a operator_id time = with_status "expired" time a
after_review partial a operator_id time = reviewed (reviewers_with a operator_id) time a
after_review approved a operator_id time = record (reviewed (reviewers_with a operator_id) time a) {
  status = "approved";
}
after_review _ a operator_id time = a

-- The answer, with the request after the review.
abbrev pub review_response : Outcome → ApprovalRequest → ApprovalServiceResponse
review_response expired b = expired_response b
review_response closed b = response "blocked" false "Approval request is not pending." (some b)
review_response duplicate b =
    response "blocked" false "Operator has already approved this request." (some b)
review_response partial b =
    response "partially_approved" true "Approval review recorded; additional reviewer required."
      (some b)
review_response approved b = response "approved" true "Approval request approved." (some b)

-- A request is approved exactly by a new operator, in time, whose review is the last one wanted.
pub outcome-approved_iff :
    (a : ApprovalRequest) (operator_id : String) (time : ℕ)
    → (outcome a operator_id time ≡ approved) ↔ (
        (a.status ≡ "pending")
        × (time < a.expires_at)
        × (contains a.reviewer_ids operator_id ≡ false)
        × (a.required_reviewers ≤ length (reviewers_with a operator_id)))
unfolding outcome
outcome-approved_iff a operator_id time = (
  λ h. (ground (arith, eq_iff a.status "pending"), ground arith, ground arith, ground arith),
  λ h. ground (arith, eq_iff a.status "pending"),
)

module _ (env : Env) (settings : ApprovalSettings) where
  pub log_then_lem :
      (event_type : String) (payload : Dict Json) {A : Type 0} (r : A) (w : World)
      → (log_audit_event env settings event_type payload >> pure r) w
        ≡ (ok r, (log_audit_event env settings event_type payload w).1)
  unfolding log_audit_event log_event
  log_then_lem event_type payload r w = elim (Bool-cases settings.has_audit_logger) [
    | inl e ↦ rw e
    | inr e ↦ rw e
  ]

  pub approvals-log :
      (event_type : String) (payload : Dict Json) (w : World)
      → (log_audit_event env settings event_type payload w).1.approvals ≡ w.approvals
  approvals-log event_type payload w =
      ((log_audit_event-Quiet env settings event_type payload).at w).approvals

  -- The answer and the store after a review that is not too late at `time`.
  approve_current_lem :
      (id operator_id : String) (a : ApprovalRequest) (w : World) (time : ℕ) (o : Outcome)
      → lookup a.approval_id w.approvals ≡ some a
      → leb a.expires_at time ≡ false
      → outcome a operator_id time ≡ o
      → let b = after_review o a operator_id (env.clock w.clock_reads) in
        let (answer, v) = approve_current env settings id operator_id a w in
        (answer ≡ ok (review_response o b)) × (lookup a.approval_id v.approvals ≡ some b)
  unfolding approve_current outcome now Repository.save
  approve_current_lem id operator_id a w time closed there early h =
      let no_longer : (a.status == "pending") ≡ false = ground arith in rw no_longer (refl, there)
  approve_current_lem id operator_id a w time expired there early h = absurd (ground arith)
  approve_current_lem id operator_id a w time duplicate there early h =
      let pending : (a.status == "pending") ≡ true = ground arith in
      let again : contains a.reviewer_ids operator_id ≡ true = ground arith in
      rw (pending, again) (refl, there)
  approve_current_lem id operator_id a w time partial there early h =
      let pending : (a.status == "pending") ≡ true = ground arith in
      let new : contains a.reviewer_ids operator_id ≡ false = ground arith in
      let few : ltb (length (reviewers_with a operator_id)) a.required_reviewers ≡ true =
        ground arith in
      let b = after_review partial a operator_id (env.clock w.clock_reads) in
      rw (pending, new, few)
        (rw
          (log_then_lem "approval_partially_approved" (partial_payload id b)
            (review_response partial b) _)
          (refl, rw approvals-log (lookup-insert_self a.approval_id b w.approvals)))
  approve_current_lem id operator_id a w time approved there early h =
      let pending : (a.status == "pending") ≡ true = ground arith in
      let new : contains a.reviewer_ids operator_id ≡ false = ground arith in
      let enough : ltb (length (reviewers_with a operator_id)) a.required_reviewers ≡ false =
        ground arith in
      let b = after_review approved a operator_id (env.clock w.clock_reads) in
      rw (pending, new, enough)
        (rw
          (log_then_lem "approval_approved" (approved_payload id b) (review_response approved b) _)
          (refl, rw approvals-log (lookup-insert_self a.approval_id b w.approvals)))

  pub expire_lem :
      (a : ApprovalRequest) (w : World)
      → lookup a.approval_id w.approvals ≡ some a
      → let b = with_status "expired" (env.clock w.clock_reads) a in
        let (answer, v) = expire_approval env settings a w in
        (answer ≡ ok b) × (lookup a.approval_id v.approvals ≡ some b)
  unfolding expire_approval expire_updated Repository.update_status
  expire_lem a w there =
      let b = with_status "expired" (env.clock w.clock_reads) a in
      rw there (
        rw
          (log_then_lem "approval_expired"
            (("approval_id", str a.approval_id)
              ∷ ("action", str a.action)
              ∷ ("status", str b.status)
              ∷ [])
            b _)
          (refl, rw approvals-log (lookup-insert_self a.approval_id b w.approvals)))

  approve_current_closed :
      (id operator_id : String) (a : ApprovalRequest) (w : World)
      → (a.status == "pending") ≡ false
      → approve_current env settings id operator_id a w ≡ (ok (review_response closed a), w)
  unfolding approve_current
  approve_current_closed id operator_id a w h = rw h

  pub is_expired_open :
      (a : ApprovalRequest) (w : World)
      → (a.status == "pending") ≡ true
      → is_expired env settings a w ≡ (
        ok (leb a.expires_at (env.clock w.clock_reads)),
        record w { clock_reads = suc w.clock_reads },
      )
  unfolding is_expired now
  is_expired_open a w h = rw h

  pub is_expired_closed :
      (a : ApprovalRequest) (w : World)
      → (a.status == "pending") ≡ false
      → is_expired env settings a w ≡ (ok false, w)
  unfolding is_expired
  is_expired_closed a w h = rw h

  approve_found_lem :
      (id operator_id : String) (a : ApprovalRequest) (w : World) (o : Outcome)
      → lookup a.approval_id w.approvals ≡ some a
      → outcome a operator_id (env.clock w.clock_reads) ≡ o
      → let b = after_review o a operator_id (env.clock (suc w.clock_reads)) in
        let (answer, v) = approve_found env settings id operator_id (some a) w in
        (answer ≡ ok (review_response o b)) × (lookup a.approval_id v.approvals ≡ some b)
  unfolding approve_found outcome
  approve_found_lem id operator_id a w closed there h =
      let no_longer : (a.status == "pending") ≡ false = ground arith in
      rw (is_expired_closed a w no_longer)
        (rw (approve_current_closed id operator_id a w no_longer) (refl, there))
  approve_found_lem id operator_id a w expired there h =
      let pending : (a.status == "pending") ≡ true = ground arith in
      let late : leb a.expires_at (env.clock w.clock_reads) ≡ true = ground arith in
      let later = record w { clock_reads = suc w.clock_reads } in
      let done = expire_lem a later there in
      rw (is_expired_open a w pending, late) (rw done.0 (refl, done.1))
  approve_found_lem id operator_id a w o there h =
      let pending : (a.status == "pending") ≡ true = ground arith in
      let early : leb a.expires_at (env.clock w.clock_reads) ≡ false = ground arith in
      let later = record w { clock_reads = suc w.clock_reads } in
      rw (is_expired_open a w pending, early)
        (approve_current_lem id operator_id a later (env.clock w.clock_reads) _ there early h)

  -- The answer tells the outcome at the first reading of the clock, and the store holds under the
  -- identifier what the outcome makes of the request.
  pub approve_request_lem :
      (id operator_id : String) (a : ApprovalRequest) (w : World)
      → lookup id w.approvals ≡ some a
      → a.approval_id ≡ id
      → let o = outcome a operator_id (env.clock w.clock_reads) in
        let b = after_review o a operator_id (env.clock (suc w.clock_reads)) in
        let (answer, v) = approve_request env settings id operator_id w in
        (answer ≡ ok (review_response o b)) × (lookup id v.approvals ≡ some b)
  unfolding approve_request get
  approve_request_lem id operator_id a w found key =
      let o = outcome a operator_id (env.clock w.clock_reads) in
      let b = after_review o a operator_id (env.clock (suc w.clock_reads)) in
      let there : lookup a.approval_id w.approvals ≡ some a =
        subst (λ k. lookup k w.approvals ≡ some a) (sym key) found in
      let done = approve_found_lem id operator_id a w o there refl in
      rw found (
        done.0,
        subst
            (λ k.
              lookup k (approve_found env settings id operator_id (some a) w).1.approvals ≡ some b)
            key done.1,
      )

  -- An identifier that is not there: the answer says so, and nothing changes.
  pub approve_request_missing :
      (id operator_id : String) (w : World)
      → lookup id w.approvals ≡ none
      → approve_request env settings id operator_id w ≡ (ok not_found_response, w)
  unfolding approve_request get approve_found
  approve_request_missing id operator_id w missing = rw missing
