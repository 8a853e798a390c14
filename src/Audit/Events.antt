-- ===== src/Audit/Events.antt =====
-- `AuditEvent` of app/audit/repository.py.
use mpesa_mcp_server.Common.{ℕ, String, Option, List}
use mpesa_mcp_server.Common.Dict.{Dict}
use mpesa_mcp_server.Common.Json.{Json}

pub record AuditEvent : Type 0 where
  pub event_id : String
  pub event_type : String
  pub payload : Dict Json
  pub created_at : ℕ
  pub actor : Option String
  pub correlation_id : Option String
  pub operator_subject : Option String
  pub operator_email : Option String
  pub operator_display_name : Option String
  pub operator_roles : Option (List String)
