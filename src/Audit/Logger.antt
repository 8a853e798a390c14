-- ===== src/Audit/Logger.antt =====
-- `log_event` of app/audit/logger.py over `save_event` of app/audit/repository.py.
use mpesa_mcp_server.Common.{
  ℕ, String, Option, none, some, List, [], ◌∷◌, ◌++◌, map, ◌==◌, if◌then◌else◌,
}
use mpesa_mcp_server.Common.Recent.{recent}
use mpesa_mcp_server.Common.Dict.{Dict}
use mpesa_mcp_server.Common.Exec.{Exec, ok, modify, ◌>>=◌, ◌>>◌}
use mpesa_mcp_server.Common.Json.{Json}
use mpesa_mcp_server.Audit.Events.{AuditEvent}
use mpesa_mcp_server.Auth.Identity.{OperatorIdentity, roles, role_name}
use mpesa_mcp_server.World.{Env, World, now, new_id}

-- The keyword arguments of `save_event`.
pub record NewEvent : Type 0 where
  pub event_type : String
  pub payload : Dict Json
  pub actor : Option String
  pub correlation_id : Option String
  pub operator_subject : Option String
  pub operator_email : Option String
  pub operator_display_name : Option String
  pub operator_roles : Option (List String)

abbrev pub the_subject : Option OperatorIdentity → Option String
the_subject none = none
the_subject (some identity) = some identity.subject

abbrev pub the_email : Option OperatorIdentity → Option String
the_email none = none
the_email (some identity) = identity.email

abbrev pub the_display_name : Option OperatorIdentity → Option String
the_display_name none = none
the_display_name (some identity) = some identity.display_name

abbrev pub the_roles : Option OperatorIdentity → Option (List String)
the_roles none = none
the_roles (some identity) = some (map role_name (roles identity))

-- `correlation_id or get_correlation_id()`
abbrev pub or_current : Option String → Option String → Option String
or_current none current = current
or_current (some c) current = if c == "" then current else some c

module _ (env : Env) where
  -- `InMemoryAuditRepository.save_event`
  unfoldable pub save_event : NewEvent → Exec World AuditEvent
  unfolding now new_id
  save_event e = do
    event_id ← new_id env
    created_at ← now env
    let event : AuditEvent = record {
      event_id = event_id;
      event_type = e.event_type;
      payload = e.payload;
      created_at = created_at;
      actor = e.actor;
      correlation_id = e.correlation_id;
      operator_subject = e.operator_subject;
      operator_email = e.operator_email;
      operator_display_name = e.operator_display_name;
      operator_roles = e.operator_roles;
    }
    modify (λ w. record w { audit_events = w.audit_events ++ event ∷ [] })
    λ w. (ok event, w)

  -- `InMemoryAuditLogger.log_event`
  unfoldable pub log_event :
      String → Dict Json → Option String → Option String → Option OperatorIdentity → Exec World Unit
  unfolding save_event
  log_event event_type payload actor correlation_id identity = do
    save_event (record {
      event_type = event_type;
      payload = payload;
      actor = actor;
      correlation_id = or_current correlation_id env.correlation_id;
      operator_subject = the_subject identity;
      operator_email = the_email identity;
      operator_display_name = the_display_name identity;
      operator_roles = the_roles identity;
    })
    λ w. (ok tt, w)

-- `InMemoryAuditRepository.list_recent_events`
unfoldable pub list_recent_events : ℕ → World → List AuditEvent
list_recent_events limit w = recent (λ e. e.created_at) limit w.audit_events
