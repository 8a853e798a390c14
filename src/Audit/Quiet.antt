-- ===== src/Audit/Quiet.antt =====
-- Writing an audit event by app/audit/logger.py, seen from the rest of the state.
use mpesa_mcp_server.Common.{String, Option, arith}
use mpesa_mcp_server.Common.Dict.{Dict}
use mpesa_mcp_server.Common.Json.{Json}
use mpesa_mcp_server.Common.Exec.Respects.{Respects}
use mpesa_mcp_server.Auth.Identity.{OperatorIdentity}
use mpesa_mcp_server.Audit.Logger.{log_event}
use mpesa_mcp_server.World.{Env}
use mpesa_mcp_server.World.Quiet.{Quiet}

pub log_event-Quiet :
    (env : Env) (event_type : String) (payload : Dict Json) (actor correlation_id : Option String)
    (identity : Option OperatorIdentity)
    → Respects Quiet (log_event env event_type payload actor correlation_id identity)
unfolding log_event
log_event-Quiet env event_type payload actor correlation_id identity = record {
  at = λ w. ground arith;
}
