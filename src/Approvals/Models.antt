-- ===== src/Approvals/Models.antt =====
-- app/approvals/models.py
use mpesa_mcp_server.Common.{ℕ, String, Option, List}
use mpesa_mcp_server.Common.Dict.{Dict}
use mpesa_mcp_server.Common.Json.{Json}

pub record ApprovalRequest : Type 0 where
  pub approval_id : String
  pub action : String
  pub payload : Dict Json
  pub reason : String
  pub status : String
  pub created_at : ℕ
  pub expires_at : ℕ
  pub reviewed_at : Option ℕ
  pub expired_at : Option ℕ
  pub required_reviewers : ℕ
  pub reviewer_ids : List String
  pub review_count : ℕ
