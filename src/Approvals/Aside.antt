-- ===== src/Approvals/Aside.antt =====
-- The approval service of app/approvals/service.py, seen from the transactions and the payment
-- provider.
use mpesa_mcp_server.Common.{ℕ, suc, String, Option, none, some, List, [], ◌∷◌, arith}
use mpesa_mcp_server.Common.Dict.{Dict}
use mpesa_mcp_server.Common.Json.{Json}
use mpesa_mcp_server.Common.Exec.{Exec}
use mpesa_mcp_server.Common.Exec.Respects.{
  Respects, Respects-pure, Respects-weaken, Respects-bind, Respects-if, respects_rules,
}
use mpesa_mcp_server.Approvals.Models.{ApprovalRequest}
use mpesa_mcp_server.Approvals.Repository.{save, create, update_status}
use mpesa_mcp_server.Approvals.Service.{
  log_audit_event, is_expired, expire_updated, expire_approval, approve_current, approve_found,
  approve_request, reject_updated, reject_current, reject_found, reject_request, expire_each,
  expire_stale_approvals, live_only, list_pending_requests, create_approval_request,
}
use mpesa_mcp_server.Approvals.Answers.{ApprovalSettings}
use mpesa_mcp_server.Audit.Quiet.{log_event-Quiet}
use mpesa_mcp_server.World.{Env, World, now}
use mpesa_mcp_server.World.Quiet.{Quiet, Aside, Aside-Quiet, Aside-Preorder, now-Quiet}

quiet : {A : Type 0} (m : Exec World A) → Respects Quiet m → Respects Aside m
quiet m = Respects-weaken m Aside-Quiet

save-Aside : (a : ApprovalRequest) → Respects Aside (save a)
unfolding save
save-Aside a = record { at = λ w. ground arith }

module _ (env : Env) where
  create-Aside :
      (action : String) (payload : Dict Json) (reason : String) (expires_at required : ℕ)
      → Respects Aside (create env action payload reason expires_at required)
  unfolding create
  create-Aside action payload reason expires_at required = record { at = λ w. ground arith }

  update_status-Aside : (id status : String) → Respects Aside (update_status env id status)
  unfolding update_status
  update_status-Aside id status = record { at = λ w. ground arith }

  now-Aside : Respects Aside (now env)
  now-Aside = quiet _ (now-Quiet env)

  module _ (settings : ApprovalSettings) where
    log_audit_event-Aside :
        (event_type : String) (payload : Dict Json)
        → Respects Aside (log_audit_event env settings event_type payload)
    unfolding log_audit_event
    log_audit_event-Aside event_type payload = search (respects_rules, quiet, log_event-Quiet)

    is_expired-Aside : (a : ApprovalRequest) → Respects Aside (is_expired env settings a)
    unfolding is_expired
    is_expired-Aside a = search (respects_rules, now-Aside)

    ruleset calls = (
      respects_rules, now-Aside, save-Aside, update_status-Aside, log_audit_event-Aside,
      is_expired-Aside,
    )

    pub create_approval_request-Aside :
        (action : String) (payload : Dict Json) (reason : String)
        → Respects Aside (create_approval_request env settings action payload reason)
    unfolding create_approval_request
    create_approval_request-Aside action payload reason = search (calls, create-Aside)

    expire_updated-Aside :
        (a : ApprovalRequest) (found : Option ApprovalRequest)
        → Respects Aside (expire_updated env settings a found)
    unfolding expire_updated
    expire_updated-Aside a none = search calls
    expire_updated-Aside a (some b) = search calls

    expire_approval-Aside : (a : ApprovalRequest) → Respects Aside (expire_approval env settings a)
    unfolding expire_approval
    expire_approval-Aside a = search (calls, expire_updated-Aside)

    approve_current-Aside :
        (id operator_id : String) (a : ApprovalRequest)
        → Respects Aside (approve_current env settings id operator_id a)
    unfolding approve_current
    approve_current-Aside id operator_id a = search calls depth 8

    approve_found-Aside :
        (id operator_id : String) (found : Option ApprovalRequest)
        → Respects Aside (approve_found env settings id operator_id found)
    unfolding approve_found
    approve_found-Aside id operator_id none = search calls
    approve_found-Aside id operator_id (some a) =
        search (calls, expire_approval-Aside, approve_current-Aside)

    pub approve_request-Aside :
        (id operator_id : String) → Respects Aside (approve_request env settings id operator_id)
    unfolding approve_request
    approve_request-Aside id operator_id = search (calls, approve_found-Aside)

    reject_updated-Aside :
        (id : String) (found : Option ApprovalRequest)
        → Respects Aside (reject_updated env settings id found)
    unfolding reject_updated
    reject_updated-Aside id none = search calls
    reject_updated-Aside id (some a) = search calls

    reject_current-Aside : (id : String) → Respects Aside (reject_current env settings id)
    unfolding reject_current
    reject_current-Aside id = search (calls, reject_updated-Aside)

    reject_found-Aside :
        (id : String) (found : Option ApprovalRequest)
        → Respects Aside (reject_found env settings id found)
    unfolding reject_found
    reject_found-Aside id none = reject_current-Aside id
    reject_found-Aside id (some a) = search (calls, expire_approval-Aside, reject_current-Aside)

    pub reject_request-Aside : (id : String) → Respects Aside (reject_request env settings id)
    unfolding reject_request
    reject_request-Aside id = search (calls, reject_found-Aside)

    expire_each-Aside :
        (items : List ApprovalRequest) (n : ℕ) → Respects Aside (expire_each env settings items n)
    unfolding expire_each
    expire_each-Aside [] n = search calls
    expire_each-Aside (a ∷ items) n = Respects-bind _ _ (is_expired-Aside a) (λ expired.
        Respects-if expired _ _
          (λ _. Respects-bind _ _ (expire_approval-Aside a) (λ _. expire_each-Aside items (suc n)))
          (λ _. expire_each-Aside items n))

    pub expire_stale_approvals-Aside : Respects Aside (expire_stale_approvals env settings)
    unfolding expire_stale_approvals
    expire_stale_approvals-Aside = search (calls, expire_each-Aside)

    live_only-Aside : (items : List ApprovalRequest) → Respects Aside (live_only env settings items)
    unfolding live_only
    live_only-Aside [] = search calls
    live_only-Aside (a ∷ items) =
        Respects-bind _ _ (is_expired-Aside a)
          (λ expired. Respects-bind _ _ (live_only-Aside items) (λ others. Respects-pure _))

    pub list_pending_requests-Aside : Respects Aside (list_pending_requests env settings)
    unfolding list_pending_requests
    list_pending_requests-Aside = search (calls, expire_stale_approvals-Aside, live_only-Aside)
