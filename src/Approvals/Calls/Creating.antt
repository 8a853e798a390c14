-- ===== src/Approvals/Calls/Creating.antt =====
-- `create_approval_request` of app/approvals/service.py, against the invariant of the approval
-- store.
use mpesa_mcp_server.Common.{ℕ, suc, String, ◌≡◌, refl, none, []}
use mpesa_mcp_server.Common.Dict.{Dict}
use mpesa_mcp_server.Common.Json.{Json}
use mpesa_mcp_server.Common.Exec.Respects.{Respects, Respects-bind, Respects-pure}
use mpesa_mcp_server.Approvals.Models.{ApprovalRequest}
use mpesa_mcp_server.Approvals.Repository.{create}
use mpesa_mcp_server.Approvals.Progress.{Progress, Progress-insert, Progress-Preorder, fresh_key}
use mpesa_mcp_server.Approvals.Service.{create_approval_request}
use mpesa_mcp_server.Approvals.Answers.{ApprovalSettings}
use mpesa_mcp_server.World.{Env}
use mpesa_mcp_server.World.Quiet.{Quiet-Preorder, now-Quiet}
use mpesa_mcp_server.Approvals.Calls.{quiet, pending-ne-approved, log_audit_event-Quiet}

module _ (env : Env) (issue_once : (i j : ℕ) → env.new_id i ≡ env.new_id j → i ≡ j) where
  create-Progress :
      (action : String) (payload : Dict Json) (reason : String) (expires_at required : ℕ)
      → Respects (Progress env) (create env action payload reason expires_at required)
  unfolding create
  create-Progress action payload reason expires_at required = record {
    at = λ w.
        let id = env.new_id w.ids_issued in
        let a : ApprovalRequest = record {
          approval_id = id;
          action = action;
          payload = payload;
          reason = reason;
          status = "pending";
          created_at = env.clock w.clock_reads;
          expires_at = expires_at;
          reviewed_at = none;
          expired_at = none;
          required_reviewers = required;
          reviewer_ids = [];
          review_count = 0;
        } in
        Progress-insert env w a (suc w.clock_reads) refl
          (record {
            counted = refl;
            distinct = tt;
            enough = λ e. absurd (pending-ne-approved env e);
          })
          (fresh_key env issue_once w);
  }

  -- A new request keeps the invariant and changes no other request.
  pub create_approval_request-Progress :
      (settings : ApprovalSettings) (action : String) (payload : Dict Json) (reason : String)
      → Respects (Progress env) (create_approval_request env settings action payload reason)
  unfolding create_approval_request
  create_approval_request-Progress settings action payload reason =
      Respects-bind ⦃p = Progress-Preorder env⦄ _ _ (quiet env _ (now-Quiet env)) (λ created_at.
        Respects-bind ⦃p = Progress-Preorder env⦄ _ _ (create-Progress action payload reason _ _)
          (λ a.
            Respects-bind ⦃p = Progress-Preorder env⦄ _ _
              (quiet env _ (log_audit_event-Quiet env settings _ _))
              (λ _. Respects-pure ⦃p = Progress-Preorder env⦄ a)))
