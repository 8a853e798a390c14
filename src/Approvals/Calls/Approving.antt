-- ===== src/Approvals/Calls/Approving.antt =====
-- `approve_request` of app/approvals/service.py, against the invariant of the approval store.
use mpesa_mcp_server.Common.{
  ℕ, suc, ◌≤◌, String, ◌≡◌, refl, sym, subst, ◌∙◌, false, some, [], ◌∷◌, arith, ◌==◌, eq_of_test,
  contains, length, ltb, leb, Option-cases, Bool-cases, inl, inr,
}
use mpesa_mcp_server.Common.Dict.{Dict, lookup, insert, AllEntries-lookup}
use mpesa_mcp_server.Common.Json.{Json}
use mpesa_mcp_server.Common.Exec.{pure, ◌>>=◌, ◌>>◌}
use mpesa_mcp_server.Common.Exec.Respects.{Preorder, Respects, Respects-bind, Respects-pure}
use mpesa_mcp_server.Approvals.Models.{ApprovalRequest}
use mpesa_mcp_server.Approvals.Repository as Repository
use mpesa_mcp_server.Approvals.Repository.{
  get, list_pending, create, save, update_status, with_status,
}
use mpesa_mcp_server.Approvals.Evolution.{Advances, StatusMove}
use mpesa_mcp_server.Approvals.Progress.{
  Progress, Progress-idle, Progress-write, Progress-Preorder, Entry, IsKept, Distinct-append,
}
use mpesa_mcp_server.Approvals.Service.{
  log_audit_event, is_expired, expire_approval, approve_current, approve_found, approve_request,
}
use mpesa_mcp_server.Approvals.Answers.{
  ApprovalSettings, ApprovalServiceResponse, expired_response, reviewed, reviewers_with,
}
use mpesa_mcp_server.World.{Env, World, now}
use mpesa_mcp_server.World.Quiet.{Quiet, Quiet-Preorder}
use mpesa_mcp_server.Approvals.Calls.{
  quiet, expire_approval-Progress, pending-ne-approved, log_audit_event-Quiet,
}

module _ (env : Env) where
  instance progress : Preorder (Progress env)
  progress = Progress-Preorder env

  module _ (settings : ApprovalSettings) where
    -- One more review of a pending request, partial or not.
    Advances-reviewed :
        (a : ApprovalRequest) (operator_id status : String) (time : ℕ)
        → StatusMove a.status status
        → Advances a (record (reviewed (reviewers_with a operator_id) time a) { status = status })
    Advances-reviewed a operator_id status time move = record {
      approval_id = refl;
      action = refl;
      payload = refl;
      reason = refl;
      created_at = refl;
      expires_at = refl;
      required_reviewers = refl;
      reviewers = (operator_id ∷ [], refl);
      status = move;
    }

    log_then-Quiet :
        (event_type : String) (payload : Dict Json) (r : ApprovalServiceResponse)
        → Respects Quiet (log_audit_event env settings event_type payload >> pure r)
    log_then-Quiet event_type payload r =
        Respects-bind _ _ (log_audit_event-Quiet env settings event_type payload)
          (λ _. Respects-pure r)

    -- The store after one more review, in the status that it leads to.
    review-Progress :
        (w : World) (a : ApprovalRequest) (operator_id status : String)
        → (IsKept env w → lookup a.approval_id w.approvals ≡ some a)
        → StatusMove a.status status
        → contains a.reviewer_ids operator_id ≡ false
        → (status ≡ "approved" → a.required_reviewers ≤ length (reviewers_with a operator_id))
        → let b = record (reviewed (reviewers_with a operator_id) (env.clock w.clock_reads) a) {
          status = status;
        } in
          Progress env w (record w {
            approvals = insert a.approval_id b w.approvals;
            clock_reads = suc w.clock_reads;
          })
    review-Progress w a operator_id status there move new enough =
        Progress-write env w a _ a.approval_id (suc w.clock_reads) there (λ r. (
          Advances-reviewed a operator_id status (env.clock w.clock_reads) move,
          record {
            counted = refl;
            distinct = Distinct-append a.reviewer_ids operator_id r.distinct new;
            enough = enough;
          },
        ))

    approve_current-Progress :
        (id operator_id : String) (a : ApprovalRequest) (w : World)
        → (IsKept env w → lookup a.approval_id w.approvals ≡ some a)
        → Progress env w (approve_current env settings id operator_id a w).1
    unfolding approve_current Repository.save now
    approve_current-Progress id operator_id a w there = elim (Bool-cases (a.status == "pending")) [
      | inr closed ↦ rw closed (progress.reflexive w)
      | inl pending ↦ elim (Bool-cases (contains a.reviewer_ids operator_id)) [
        | inl again ↦ rw (pending, again) (progress.reflexive w)
        | inr new ↦
            let is_pending = eq_of_test a.status "pending" pending in
            elim (Bool-cases (ltb (length (reviewers_with a operator_id)) a.required_reviewers)) [
              | inl few ↦
                  rw (pending, new, few)
                    (progress.transitive w _ _
                      (review-Progress w a operator_id a.status there (inl refl) new
                        (λ e. absurd (pending-ne-approved env (sym is_pending ∙ e))))
                      ((quiet env _ (log_then-Quiet _ _ _)).at _))
              | inr enough ↦
                  rw (pending, new, enough)
                    (progress.transitive w _ _
                      (review-Progress w a operator_id "approved" there
                        (inr (inr (inr (is_pending, refl)))) new (λ e. ground arith))
                      ((quiet env _ (log_then-Quiet _ _ _)).at _))
            ]
      ]
    ]

    expire_then-Progress :
        (a : ApprovalRequest)
        → Respects
            (Progress env)
            (expire_approval env settings a >>= λ b. pure (expired_response b))
    expire_then-Progress a =
        Respects-bind _ _ (expire_approval-Progress env settings a)
          (λ b. Respects-pure (expired_response b))

    approve_found-Progress :
        (id operator_id : String) (a : ApprovalRequest) (w : World)
        → (IsKept env w → lookup a.approval_id w.approvals ≡ some a)
        → Progress env w (approve_found env settings id operator_id (some a) w).1
    unfolding approve_found is_expired now
    approve_found-Progress id operator_id a w there = elim (Bool-cases (a.status == "pending")) [
      | inr closed ↦ rw closed (approve_current-Progress id operator_id a w there)
      | inl pending ↦
          let later = record w { clock_reads = suc w.clock_reads } in
          elim (Bool-cases (leb a.expires_at (env.clock w.clock_reads))) [
            | inl late ↦
                rw (pending, late)
                  (progress.transitive w later _ (Progress-idle env w later (omega arith) refl)
                    ((expire_then-Progress a).at later))
            | inr early ↦
                rw (pending, early)
                  (progress.transitive w later _ (Progress-idle env w later (omega arith) refl) (
                    approve_current-Progress id operator_id a later
                      (λ k. there (record { is_dict = k.is_dict; entries = k.entries }))))
          ]
    ]

    -- Approving a request keeps the invariant and moves requests only forward.
    pub approve_request-Progress :
        (id operator_id : String)
        → Respects (Progress env) (approve_request env settings id operator_id)
    unfolding approve_request get approve_found
    approve_request-Progress id operator_id = record {
      at = λ w. elim (Option-cases (get id w)) [
        | inl missing ↦ rw missing (progress.reflexive w)
        | inr (a, found) ↦ rw found (
            approve_found-Progress id operator_id a w (λ k.
              let entry =
                AllEntries-lookup (Entry env w.ids_issued) id a w.approvals k.entries found in
              subst (λ x. lookup x w.approvals ≡ some a) (sym entry.key) found))
      ];
    }
