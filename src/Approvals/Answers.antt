-- ===== src/Approvals/Answers.antt =====
-- The settings of the approval service of app/approvals/service.py, how many reviewers a request
-- needs, what the service answers and what it tells the audit trail.
use mpesa_mcp_server.Common.{
  ℕ, ◌*◌, String, Bool, false, Option, none, some, List, [], ◌∷◌, ◌++◌, length, if◌then◌else◌,
}
use mpesa_mcp_server.Common.Int.{ℤ, pos, leb_ℤ}
use mpesa_mcp_server.Common.Dict.{Dict, lookup}
use mpesa_mcp_server.Common.Json.{Json, str, int, as_int}
use mpesa_mcp_server.Approvals.Models.{ApprovalRequest}

pub record ApprovalServiceResponse : Type 0 where
  pub status : String
  pub allowed : Bool
  pub reason : String
  pub approval : Option ApprovalRequest

-- The constructor's settings.
pub record ApprovalSettings : Type 0 where
  pub expiry_minutes : ℕ
  pub required_reviewers : ℕ
  pub high_risk_required_reviewers : ℕ
  pub high_risk_amount_threshold : ℤ
  -- whether an audit logger was given
  pub has_audit_logger : Bool

-- `timedelta(minutes=n)` in microseconds
abbrev pub minutes : ℕ → ℕ
minutes n = n * 60000000

unfoldable pub required_reviewers_for_amount : ApprovalSettings → Option ℤ → ℕ
required_reviewers_for_amount settings none = settings.required_reviewers
required_reviewers_for_amount settings (some amount) =
    if leb_ℤ settings.high_risk_amount_threshold amount
    then settings.high_risk_required_reviewers
    else settings.required_reviewers

-- `isinstance(payload.get(name), int)`
abbrev pub int_entry : Option Json → Option ℤ
int_entry none = none
int_entry (some v) = as_int v

-- `_required_reviewers_for_payload`
unfoldable pub required_reviewers_for_payload : ApprovalSettings → Dict Json → ℕ
unfolding required_reviewers_for_amount
required_reviewers_for_payload settings payload =
    required_reviewers_for_amount settings (int_entry (lookup "amount" payload))

-- `str` of a number inside an audit payload
abbrev pub count_json : ℕ → Json
count_json n = int (pos n)

abbrev pub response : String → Bool → String → Option ApprovalRequest → ApprovalServiceResponse
response status allowed reason approval = record {
  status = status;
  allowed = allowed;
  reason = reason;
  approval = approval;
}

abbrev pub expired_response : ApprovalRequest → ApprovalServiceResponse
expired_response approval = response "expired" false "Approval request has expired." (some approval)

abbrev pub not_found_response : ApprovalServiceResponse
not_found_response = response "not_found" false "Approval request was not found." none

-- `current_approval.model_copy(update={...})` for one more review
abbrev pub reviewed : List String → ℕ → ApprovalRequest → ApprovalRequest
reviewed reviewer_ids time approval = record approval {
  reviewer_ids = reviewer_ids;
  review_count = length reviewer_ids;
  reviewed_at = some time;
}

-- `[*current_approval.reviewer_ids, operator_id]`
abbrev pub reviewers_with : ApprovalRequest → String → List String
reviewers_with approval operator_id = approval.reviewer_ids ++ operator_id ∷ []

abbrev pub partial_payload : String → ApprovalRequest → Dict Json
partial_payload approval_id approval =
    ("approval_id", str approval_id)
    ∷ ("action", str approval.action)
    ∷ ("review_count", count_json approval.review_count)
    ∷ ("required_reviewers", count_json approval.required_reviewers)
    ∷ []

abbrev pub approved_payload : String → ApprovalRequest → Dict Json
approved_payload approval_id approval =
    ("approval_id", str approval_id)
    ∷ ("action", str approval.action)
    ∷ ("status", str approval.status)
    ∷ ("review_count", count_json approval.review_count)
    ∷ ("required_reviewers", count_json approval.required_reviewers)
    ∷ []

abbrev pub rejected_payload : String → ApprovalRequest → Dict Json
rejected_payload approval_id approval =
    ("approval_id", str approval_id)
    ∷ ("action", str approval.action)
    ∷ ("status", str approval.status)
    ∷ []

abbrev pub created_payload : ApprovalRequest → Dict Json
created_payload approval =
    ("approval_id", str approval.approval_id)
    ∷ ("action", str approval.action)
    ∷ ("status", str approval.status)
    ∷ ("required_reviewers", count_json approval.required_reviewers)
    ∷ ("reason", str approval.reason)
    ∷ []
