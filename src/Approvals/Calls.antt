-- ===== src/Approvals/Calls.antt =====
-- The calls of the approval service of app/approvals/service.py, against the invariant of the
-- approval store.
pub mod Approving
pub mod Creating
use mpesa_mcp_server.Common.{
  ℕ, suc, ◌≤◌, String, ◌≡◌, refl, sym, subst, ◌∙◌, ◌⊎◌, ◌≢◌, eq_iff, false, Option, none, some,
  List, [], ◌∷◌, arith, ◌==◌, eq_of_test, contains, length, ltb, leb, Option-cases, Bool-cases, inl,
  inr,
}
use mpesa_mcp_server.Common.Dict.{Dict, lookup, insert, AllEntries-lookup}
use mpesa_mcp_server.Common.Json.{Json}
use mpesa_mcp_server.Common.Exec.{Exec, pure, ◌>>=◌, ◌>>◌}
use mpesa_mcp_server.Common.Exec.Respects.{
  Preorder, Respects, Respects-bind, Respects-if, Respects-gets, Respects-pure, Respects-weaken,
  respects_rules,
}
use mpesa_mcp_server.Approvals.Models.{ApprovalRequest}
use mpesa_mcp_server.Approvals.Repository as Repository
use mpesa_mcp_server.Approvals.Repository.{
  get, list_pending, create, save, update_status, with_status,
}
use mpesa_mcp_server.Approvals.Evolution.{Advances, Advances-status, StatusMove}
use mpesa_mcp_server.Approvals.Progress.{
  Progress, Progress-idle, Progress-write, Progress-insert, Progress-Preorder, Entry, IsReviewed,
  IsKept, fresh_key, Distinct-append,
}
use mpesa_mcp_server.Approvals.Service.{
  log_audit_event, is_expired, expire_updated, expire_approval, approve_current, approve_found,
  approve_request, reject_updated, reject_current, reject_found, reject_request, expire_each,
  expire_stale_approvals, live_only, list_pending_requests, create_approval_request,
}
use mpesa_mcp_server.Approvals.Answers.{
  ApprovalSettings, ApprovalServiceResponse, expired_response, reviewed, reviewers_with,
}
use mpesa_mcp_server.World.{Env, World, now}
use mpesa_mcp_server.World.Quiet.{Quiet, Quiet-Preorder, now-Quiet}
use mpesa_mcp_server.Audit.Quiet.{log_event-Quiet}

module _ (env : Env) where
  instance progress : Preorder (Progress env)
  progress = Progress-Preorder env

  pub quiet : {A : Type 0} (m : Exec World A) → Respects Quiet m → Respects (Progress env) m
  quiet m = Respects-weaken m (λ w v q. Progress-idle env w v q.ids q.approvals)

  closed-ne-approved :
      (status : String) → (status ≡ "expired") ⊎ (status ≡ "rejected") → status ≢ "approved"
  closed-ne-approved status (inl e) a = ground (arith, eq_iff "expired" "approved")
  closed-ne-approved status (inr e) a = ground (arith, eq_iff "rejected" "approved")

  closed-StatusMove :
      (s status : String) → (status ≡ "expired") ⊎ (status ≡ "rejected") → StatusMove s status
  closed-StatusMove s status (inl e) = inr (inl e)
  closed-StatusMove s status (inr e) = inr (inr (inl e))

  IsReviewed-closed :
      (a : ApprovalRequest) (status : String) (reviewed expired : Option ℕ)
      → (status ≡ "expired") ⊎ (status ≡ "rejected")
      → IsReviewed a
      → IsReviewed (record a { status = status; reviewed_at = reviewed; expired_at = expired })
  IsReviewed-closed a status reviewed expired h r = record {
    counted = r.counted;
    distinct = r.distinct;
    enough = λ e. absurd (closed-ne-approved status h e);
  }

  with_status-Advances :
      (status : String) (time : ℕ) (a : ApprovalRequest)
      → (status ≡ "expired") ⊎ (status ≡ "rejected")
      → IsReviewed a
      → Advances a (with_status status time a) × IsReviewed (with_status status time a)
  with_status-Advances status time a h r =
      let move = closed-StatusMove a.status status h in
      elim (Bool-cases (status == "expired")) [
        | inl e ↦ rw e (
          Advances-status a status a.reviewed_at (some time) move,
          IsReviewed-closed a status a.reviewed_at (some time) h r,
        )
        | inr e ↦ rw e (
          Advances-status a status (some time) a.expired_at move,
          IsReviewed-closed a status (some time) a.expired_at h r,
        )
      ]

  update_status-Progress :
      (approval_id status : String)
      → (status ≡ "expired") ⊎ (status ≡ "rejected")
      → Respects (Progress env) (update_status env approval_id status)
  unfolding update_status
  update_status-Progress approval_id status h = record {
    at = λ w. elim (Option-cases (lookup approval_id w.approvals)) [
      | inl missing ↦ rw missing ((Progress-Preorder env).reflexive w)
      | inr (a, found) ↦ rw found (
          Progress-write env w a (with_status status (env.clock w.clock_reads) a) approval_id
            (suc w.clock_reads) (λ k. found)
            (with_status-Advances status (env.clock w.clock_reads) a h))
    ];
  }

  pub pending-ne-approved : ◌≢◌ {A = String} "pending" "approved"
  pending-ne-approved e = ground (arith, eq_iff "pending" "approved")

  module _ (settings : ApprovalSettings) where
    pub log_audit_event-Quiet :
        (event_type : String) (payload : Dict Json)
        → Respects Quiet (log_audit_event env settings event_type payload)
    unfolding log_audit_event
    log_audit_event-Quiet event_type payload = search (respects_rules, log_event-Quiet)

    pub is_expired-Quiet : (a : ApprovalRequest) → Respects Quiet (is_expired env settings a)
    unfolding is_expired
    is_expired-Quiet a = search (respects_rules, now-Quiet)

    expire_updated-Quiet :
        (a : ApprovalRequest) (found : Option ApprovalRequest)
        → Respects Quiet (expire_updated env settings a found)
    unfolding expire_updated
    expire_updated-Quiet a none = search respects_rules
    expire_updated-Quiet a (some b) = search (respects_rules, log_audit_event-Quiet)

    pub expire_approval-Progress :
        (a : ApprovalRequest) → Respects (Progress env) (expire_approval env settings a)
    unfolding expire_approval
    expire_approval-Progress a =
        Respects-bind _ _ (update_status-Progress a.approval_id "expired" (inl refl))
          (λ found. quiet _ (expire_updated-Quiet a found))

    expire_each-Progress :
        (rest : List ApprovalRequest) (n : ℕ)
        → Respects (Progress env) (expire_each env settings rest n)
    unfolding expire_each
    expire_each-Progress [] n = search respects_rules
    expire_each-Progress (a ∷ rest) n = Respects-bind _ _ (quiet _ (is_expired-Quiet a)) (λ expired.
        Respects-if expired _ _
          (λ _.
            Respects-bind _ _ (expire_approval-Progress a) (λ _. expire_each-Progress rest (suc n)))
          (λ _. expire_each-Progress rest n))

    -- Expiring the stale requests keeps the invariant and moves requests only forward.
    pub expire_stale_approvals-Progress :
        Respects (Progress env) (expire_stale_approvals env settings)
    unfolding expire_stale_approvals
    expire_stale_approvals-Progress =
        Respects-bind _ _ (Respects-gets list_pending) (λ pending. expire_each-Progress pending 0)

    live_only-Quiet : (rest : List ApprovalRequest) → Respects Quiet (live_only env settings rest)
    unfolding live_only
    live_only-Quiet [] = search respects_rules
    live_only-Quiet (a ∷ rest) =
        Respects-bind _ _ (is_expired-Quiet a)
          (λ expired. Respects-bind _ _ (live_only-Quiet rest) (λ others. Respects-pure _))

    pub list_pending_requests-Progress :
        Respects (Progress env) (list_pending_requests env settings)
    unfolding list_pending_requests
    list_pending_requests-Progress = Respects-bind _ _ expire_stale_approvals-Progress (λ _.
        Respects-bind _ _ (Respects-gets list_pending)
          (λ pending. quiet _ (live_only-Quiet pending)))

    reject_updated-Quiet :
        (id : String) (found : Option ApprovalRequest)
        → Respects Quiet (reject_updated env settings id found)
    unfolding reject_updated
    reject_updated-Quiet id none = search respects_rules
    reject_updated-Quiet id (some a) = search (respects_rules, log_audit_event-Quiet)

    reject_current-Progress :
        (id : String) → Respects (Progress env) (reject_current env settings id)
    unfolding reject_current
    reject_current-Progress id =
        Respects-bind _ _ (update_status-Progress id "rejected" (inr refl))
          (λ found. quiet _ (reject_updated-Quiet id found))

    reject_found-Progress :
        (id : String) (found : Option ApprovalRequest)
        → Respects (Progress env) (reject_found env settings id found)
    unfolding reject_found
    reject_found-Progress id none = reject_current-Progress id
    reject_found-Progress id (some a) = Respects-bind _ _ (quiet _ (is_expired-Quiet a)) (λ expired.
        Respects-if expired _ _
          (λ _. Respects-bind _ _ (expire_approval-Progress a) (λ b. Respects-pure _))
          (λ _. reject_current-Progress id))

    -- Rejecting a request keeps the invariant, and changes requests only in ways that their evolution
    -- allows.
    pub reject_request-Progress :
        (id : String) → Respects (Progress env) (reject_request env settings id)
    unfolding reject_request
    reject_request-Progress id =
        Respects-bind _ _ (Respects-gets (get id)) (reject_found-Progress id)
