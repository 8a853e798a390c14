-- ===== src/Approvals/Service.antt =====
-- `ApprovalService` of app/approvals/service.py.
use mpesa_mcp_server.Approvals.Answers.{
  ApprovalServiceResponse, ApprovalSettings, minutes, required_reviewers_for_payload, response,
  expired_response, not_found_response, reviewed, reviewers_with, partial_payload, approved_payload,
  rejected_payload, created_payload,
}
use mpesa_mcp_server.Common.{
  ℕ, suc, ◌+◌, String, Bool, true, false, not, Option, none, some, List, [], ◌∷◌, ◌==◌, ltb, leb,
  length, contains, if◌then◌else◌,
}
use mpesa_mcp_server.Common.Dict.{Dict}
use mpesa_mcp_server.Common.Exec.{Exec, pure, gets, ◌>>=◌, ◌>>◌}
use mpesa_mcp_server.Common.Json.{Json, str}
use mpesa_mcp_server.Approvals.Models.{ApprovalRequest}
use mpesa_mcp_server.Approvals.Repository as Repository
use mpesa_mcp_server.Approvals.Repository.{get, list_pending, save, update_status}
use mpesa_mcp_server.Audit.Logger
use mpesa_mcp_server.World.{Env, World, now}

module _ (env : Env) (settings : ApprovalSettings) where
  -- `_log_audit_event`
  unfoldable pub log_audit_event : String → Dict Json → Exec World Unit
  log_audit_event event_type payload =
      if settings.has_audit_logger
      then Logger.log_event env event_type payload (some "operator") none none
      else pure tt

  unfoldable pub create_approval_request : String → Dict Json → String → Exec World ApprovalRequest
  unfolding log_audit_event
  create_approval_request action payload reason = do
    created_at ← now env
    approval ←
        Repository.create env action payload reason (created_at + minutes settings.expiry_minutes)
          (required_reviewers_for_payload settings payload)
    log_audit_event "approval_created" (created_payload approval)
    pure approval

  -- The clock is read only for a pending approval.
  unfoldable pub is_expired : ApprovalRequest → Exec World Bool
  is_expired approval =
      if approval.status == "pending"
      then (do time ← now env; pure (leb approval.expires_at time))
      else pure false

  -- `_expire_approval`, after the update: what is not there any more is returned as it was.
  unfoldable pub expire_updated :
      ApprovalRequest → Option ApprovalRequest → Exec World ApprovalRequest
  unfolding log_audit_event
  expire_updated approval none = pure approval
  expire_updated approval (some expired_approval) = do
    log_audit_event "approval_expired" (
        ("approval_id", str approval.approval_id)
        ∷ ("action", str approval.action)
        ∷ ("status", str expired_approval.status)
        ∷ [])
    pure expired_approval

  -- `_expire_approval`
  unfoldable pub expire_approval : ApprovalRequest → Exec World ApprovalRequest
  unfolding expire_updated
  expire_approval approval = do
    expired_approval ← update_status env approval.approval_id "expired"
    expire_updated approval expired_approval

  -- `approve_request` for an approval that is there and not expired
  unfoldable pub approve_current :
      String → String → ApprovalRequest → Exec World ApprovalServiceResponse
  unfolding log_audit_event
  approve_current approval_id operator_id current =
      let reviewer_ids = reviewers_with current operator_id in
      if not (current.status == "pending")
      then pure (response "blocked" false "Approval request is not pending." (some current))
      else if contains current.reviewer_ids operator_id
      then pure
          (response "blocked" false "Operator has already approved this request." (some current))
      else if ltb (length reviewer_ids) current.required_reviewers
      then (do
        time ← now env
        approval ← save (reviewed reviewer_ids time current)
        log_audit_event "approval_partially_approved" (partial_payload approval_id approval)
        pure (
            response "partially_approved" true
              "Approval review recorded; additional reviewer required." (some approval)))
      else (do
        time ← now env
        approval ← save (record (reviewed reviewer_ids time current) { status = "approved" })
        log_audit_event "approval_approved" (approved_payload approval_id approval)
        pure (response "approved" true "Approval request approved." (some approval)))

  unfoldable pub approve_found :
      String → String → Option ApprovalRequest → Exec World ApprovalServiceResponse
  approve_found approval_id operator_id none = pure not_found_response
  approve_found approval_id operator_id (some current) = do
    expired ← is_expired current
    if expired
        then (do approval ← expire_approval current; pure (expired_response approval))
        else approve_current approval_id operator_id current

  unfoldable pub approve_request : String → String → Exec World ApprovalServiceResponse
  unfolding approve_found
  approve_request approval_id operator_id = do
    current ← gets (get approval_id)
    approve_found approval_id operator_id current

  unfoldable pub reject_updated :
      String → Option ApprovalRequest → Exec World ApprovalServiceResponse
  unfolding log_audit_event
  reject_updated approval_id none = pure not_found_response
  reject_updated approval_id (some approval) = do
    log_audit_event "approval_rejected" (rejected_payload approval_id approval)
    pure (response "rejected" false "Approval request rejected." (some approval))

  -- `reject_request` for what is not expired: there is no test of the status.
  unfoldable pub reject_current : String → Exec World ApprovalServiceResponse
  unfolding reject_updated
  reject_current approval_id = do
    approval ← update_status env approval_id "rejected"
    reject_updated approval_id approval

  unfoldable pub reject_found : String → Option ApprovalRequest → Exec World ApprovalServiceResponse
  unfolding reject_current
  reject_found approval_id none = reject_current approval_id
  reject_found approval_id (some current) = do
    expired ← is_expired current
    if expired
        then (do approval ← expire_approval current; pure (expired_response approval))
        else reject_current approval_id

  unfoldable pub reject_request : String → Exec World ApprovalServiceResponse
  unfolding reject_found
  reject_request approval_id = do current ← gets (get approval_id); reject_found approval_id current

  unfoldable pub expire_each : List ApprovalRequest → ℕ → Exec World ℕ
  expire_each [] expired_count = pure expired_count
  expire_each (approval ∷ rest) expired_count = do
    expired ← is_expired approval
    if expired
        then (do expire_approval approval; expire_each rest (suc expired_count))
        else expire_each rest expired_count

  -- The loop runs over the list that `list_pending` returned.
  unfoldable pub expire_stale_approvals : Exec World ℕ
  unfolding expire_each
  expire_stale_approvals = do pending ← gets list_pending; expire_each pending 0

  unfoldable pub live_only : List ApprovalRequest → Exec World (List ApprovalRequest)
  live_only [] = pure []
  live_only (approval ∷ rest) = do
    expired ← is_expired approval
    others ← live_only rest
    pure (if not expired then approval ∷ others else others)

  unfoldable pub list_pending_requests : Exec World (List ApprovalRequest)
  unfolding live_only
  list_pending_requests = do expire_stale_approvals; pending ← gets list_pending; live_only pending
