-- ===== src/Approvals/Rejection.antt =====
-- What `reject_request` of app/approvals/service.py does, branch by branch.
use mpesa_mcp_server.Common.{
  ℕ, suc, ◌≤◌, ◌<◌, String, ◌≡◌, ◌≢◌, refl, sym, subst, true, false, some, arith, eq_iff, leb,
  test_of_ne,
}
use mpesa_mcp_server.Common.Dict.{lookup, lookup-insert_self}
use mpesa_mcp_server.Common.Exec.{ok}
use mpesa_mcp_server.Approvals.Models.{ApprovalRequest}
use mpesa_mcp_server.Approvals.Repository
use mpesa_mcp_server.Approvals.Repository.{get, with_status}
use mpesa_mcp_server.Approvals.Service.{
  reject_updated, reject_current, reject_found, reject_request, expire_approval,
}
use mpesa_mcp_server.Approvals.Answers.{
  ApprovalSettings, ApprovalServiceResponse, response, expired_response, rejected_payload,
}
use mpesa_mcp_server.Approvals.Review.{
  is_expired_open, is_expired_closed, log_then_lem, approvals-log, expire_lem,
}
use mpesa_mcp_server.World.{Env, World}

abbrev pub rejected : ApprovalRequest → ℕ → ApprovalRequest
rejected a time = record a { status = "rejected"; reviewed_at = some time }

abbrev pub rejected_response : ApprovalRequest → ApprovalServiceResponse
rejected_response a = response "rejected" false "Approval request rejected." (some a)

module _ (env : Env) (settings : ApprovalSettings) where
  reject_current_lem :
      (id : String) (a : ApprovalRequest) (w : World)
      → lookup id w.approvals ≡ some a
      → let b = rejected a (env.clock w.clock_reads) in
        let (answer, v) = reject_current env settings id w in
        (answer ≡ ok (rejected_response b)) × (lookup id v.approvals ≡ some b)
  unfolding reject_current reject_updated Repository.update_status
  reject_current_lem id a w found =
      let b = rejected a (env.clock w.clock_reads) in
      rw found (
        rw
          (log_then_lem env settings "approval_rejected" (rejected_payload id b)
            (rejected_response b) _)
          (refl, rw (approvals-log env settings) (lookup-insert_self id b w.approvals)))

  -- A pending request that is not too late is rejected.
  pub reject_request_pending :
      (id : String) (a : ApprovalRequest) (w : World)
      → lookup id w.approvals ≡ some a
      → a.status ≡ "pending"
      → env.clock w.clock_reads < a.expires_at
      → let b = rejected a (env.clock (suc w.clock_reads)) in
        let (answer, v) = reject_request env settings id w in
        (answer ≡ ok (rejected_response b)) × (lookup id v.approvals ≡ some b)
  unfolding reject_request get reject_found
  reject_request_pending id a w found is_open early =
      let pending = (eq_iff a.status "pending").1 is_open in
      let in_time : leb a.expires_at (env.clock w.clock_reads) ≡ false = ground arith in
      rw found (
        rw (is_expired_open env settings a w pending, in_time)
          (reject_current_lem id a (record w { clock_reads = suc w.clock_reads }) found))

  -- A pending request that is too late expires instead.
  pub reject_request_late :
      (id : String) (a : ApprovalRequest) (w : World)
      → lookup id w.approvals ≡ some a
      → a.approval_id ≡ id
      → a.status ≡ "pending"
      → a.expires_at ≤ env.clock w.clock_reads
      → let b = with_status "expired" (env.clock (suc w.clock_reads)) a in
        let (answer, v) = reject_request env settings id w in
        (answer ≡ ok (expired_response b)) × (lookup id v.approvals ≡ some b)
  unfolding reject_request get reject_found
  reject_request_late id a w found key is_open late =
      let pending = (eq_iff a.status "pending").1 is_open in
      let too_late : leb a.expires_at (env.clock w.clock_reads) ≡ true = ground arith in
      let later = record w { clock_reads = suc w.clock_reads } in
      let there : lookup a.approval_id w.approvals ≡ some a =
        subst (λ k. lookup k w.approvals ≡ some a) (sym key) found in
      let done = expire_lem env settings a later there in
      let b = with_status "expired" (env.clock (suc w.clock_reads)) a in
      rw found (
        rw (is_expired_open env settings a w pending, too_late)
          (rw done.0 (
            refl,
            subst (λ k. lookup k (expire_approval env settings a later).1.approvals ≡ some b) key
                done.1,
          )))

  -- A request that is pending no more, an approved one included, is overwritten: it ends rejected,
  -- and the answer reports the rejection.
  pub reject_request_closed :
      (id : String) (a : ApprovalRequest) (w : World)
      → lookup id w.approvals ≡ some a
      → a.status ≢ "pending"
      → let b = rejected a (env.clock w.clock_reads) in
        let (answer, v) = reject_request env settings id w in
        (answer ≡ ok (rejected_response b)) × (lookup id v.approvals ≡ some b)
  unfolding reject_request get reject_found
  reject_request_closed id a w found closed = rw found (
      rw (is_expired_closed env settings a w (test_of_ne a.status "pending" closed))
        (reject_current_lem id a w found))
