-- ===== src/Approvals/Repository.antt =====
-- `InMemoryApprovalRepository` of app/approvals/repository.py.
use mpesa_mcp_server.Common.{
  ℕ, String, Bool, Option, none, some, List, [], ◌==◌, keep, if◌then◌else◌,
}
use mpesa_mcp_server.Common.Dict.{Dict, lookup, insert, values}
use mpesa_mcp_server.Common.Exec.{Exec, pure, gets, modify, ◌>>=◌, ◌>>◌}
use mpesa_mcp_server.Common.Json.{Json}
use mpesa_mcp_server.Approvals.Models.{ApprovalRequest}
use mpesa_mcp_server.World.{Env, World, now, new_id}

unfoldable pub get : String → World → Option ApprovalRequest
get approval_id w = lookup approval_id w.approvals

abbrev pub is_pending : ApprovalRequest → Bool
is_pending approval = approval.status == "pending"

unfoldable pub list_pending : World → List ApprovalRequest
list_pending w = keep is_pending (values w.approvals)

-- `self._approvals[approval_id] = approval`
unfoldable pub store : String → ApprovalRequest → Exec World Unit
store approval_id approval =
    modify (λ w. record w { approvals = insert approval_id approval w.approvals })

unfoldable pub save : ApprovalRequest → Exec World ApprovalRequest
unfolding store
save approval = do store approval.approval_id approval; pure approval

-- `model_copy(update=update_payload)` in `update_status`
abbrev pub with_status : String → ℕ → ApprovalRequest → ApprovalRequest
with_status status time approval =
    if status == "expired"
    then record approval { status = status; expired_at = some time }
    else record approval { status = status; reviewed_at = some time }

module _ (env : Env) where
  unfoldable pub create : String → Dict Json → String → ℕ → ℕ → Exec World ApprovalRequest
  unfolding now new_id store
  create action payload reason expires_at required_reviewers = do
    approval_id ← new_id env
    created_at ← now env
    let approval : ApprovalRequest = record {
      approval_id = approval_id;
      action = action;
      payload = payload;
      reason = reason;
      status = "pending";
      created_at = created_at;
      expires_at = expires_at;
      reviewed_at = none;
      expired_at = none;
      required_reviewers = required_reviewers;
      reviewer_ids = [];
      review_count = 0;
    }
    store approval_id approval
    pure approval

  unfoldable pub update_found :
      String → String → Option ApprovalRequest → Exec World (Option ApprovalRequest)
  unfolding now store
  update_found approval_id status none = pure none
  update_found approval_id status (some approval) = do
    time ← now env
    let updated_approval = with_status status time approval
    store approval_id updated_approval
    pure (some updated_approval)

  unfoldable pub update_status : String → String → Exec World (Option ApprovalRequest)
  unfolding get update_found
  update_status approval_id status = do
    found ← gets (get approval_id)
    update_found approval_id status found
