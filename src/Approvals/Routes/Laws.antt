-- ===== src/Approvals/Routes/Laws.antt =====
-- Whose requests to app/approvals/routes.py are served.
use mpesa_mcp_server.Common.{
  String, ◌≡◌, ◌≢◌, refl, sym, subst, Bool, ◌⊎◌, inl, inr, true, Option, some, arith, ◌==◌, eq_iff,
}
use mpesa_mcp_server.Common.Dict.{lookup}
use mpesa_mcp_server.Common.Exec.{continue-pure}
use mpesa_mcp_server.Approvals.Models.{ApprovalRequest}
use mpesa_mcp_server.Approvals.Routes.{
  ApprovalCall, serve_approval, approve_payment_request, by_status, execution, list_pending,
  expire_stale, get_one, approve, reject,
}
use mpesa_mcp_server.Auth.Identity.{OperatorIdentity, approver}
use mpesa_mcp_server.Auth.Security.{
  Access, granted, http_exception, failure, require_approver, extract_bearer_token, authenticate,
}
use mpesa_mcp_server.Auth.Security.Grants.{ByRole, ByRole-granted, find_token-approver}
use mpesa_mcp_server.Config.Settings.{Settings}
use mpesa_mcp_server.Payments.Records.{PaymentSettings}
use mpesa_mcp_server.Payments.Service.{execute_approved_payment}
use mpesa_mcp_server.Payments.Execution.{Sent, execute_approved_payment_sends}
use mpesa_mcp_server.World.{Env, World}
use Prim.Native.Char.{Char}

module _ (env : Env) (settings : PaymentSettings) where
  serve-granted :
      (call : ApprovalCall) (access : Access) (w : World)
      → ((serve_approval env settings call access w).1 ≡ w)
        ⊎ ((p : OperatorIdentity) × (access ≡ granted p))
  unfolding serve_approval
  serve-granted call (granted p) w = inr (p, refl)
  serve-granted list_pending (http_exception code detail) w = inl refl
  serve-granted expire_stale (http_exception code detail) w = inl refl
  serve-granted (get_one id) (http_exception code detail) w = inl refl
  serve-granted (approve id) (http_exception code detail) w = inl refl
  serve-granted (reject id) (http_exception code detail) w = inl refl
  serve-granted list_pending (failure e) w = inl refl
  serve-granted expire_stale (failure e) w = inl refl
  serve-granted (get_one id) (failure e) w = inl refl
  serve-granted (approve id) (failure e) w = inl refl
  serve-granted (reject id) (failure e) w = inl refl

  approve-sends :
      (id : String) (access : Access) (a : ApprovalRequest) (w : World)
      → lookup id w.approvals ≡ some a
      → a.approval_id ≡ id
      → let v = (approve_payment_request env settings id access w).1 in
        (v.provider_calls ≡ w.provider_calls)
        ⊎ ((p : OperatorIdentity) × (access ≡ granted p) × Sent env settings id p.subject a w v)
  unfolding approve_payment_request
  approve-sends id (granted p) a w found key =
      let (r, v) = execute_approved_payment env settings id p.subject w in
      subst
        (λ u.
          (u.provider_calls ≡ w.provider_calls)
          ⊎ ((q : OperatorIdentity) × (granted p ≡ granted q)
              × Sent env settings id q.subject a w u))
        (sym (continue-pure r (λ response. by_status response.status (execution response)) v))
        (elim (execute_approved_payment_sends env settings id p.subject a w found key) [
          | inl e ↦ inl e
          | inr sent ↦ inr (p, refl, sent)
        ])
  approve-sends id (http_exception code detail) a w found key = inl refl
  approve-sends id (failure e) a w found key = inl refl

  module _ (is_space : Char → Bool) (lower : String → String)
      (jwks : Settings → Option String → Option OperatorIdentity) (s : Settings) where
    -- The approve route of a stored request reaches the provider only for an operator who is known
    -- and has at least the role of an approver, and then as a review of this operator: the request
    -- is pending, in time, not reviewed by the operator before, and given its last review.
    pub approve_payment_request_sends :
        (id : String) (authorization : Option String) (a : ApprovalRequest) (w : World)
        → lookup id w.approvals ≡ some a
        → a.approval_id ≡ id
        → let access = require_approver is_space lower jwks s authorization in
          let v = (approve_payment_request env settings id access w).1 in
          (v.provider_calls ≡ w.provider_calls)
          ⊎ ((p : OperatorIdentity) × ByRole is_space lower jwks s approver authorization p
              × Sent env settings id p.subject a w v)
    approve_payment_request_sends id authorization a w found key =
        elim (approve-sends id (require_approver is_space lower jwks s authorization) a w found
          key) [
            | inl e ↦ inl e
            | inr (p, known, sent) ↦
                inr (p, ByRole-granted is_space lower jwks s approver authorization p known, sent)
          ]

    -- With static tokens and authentication on, a request to any approval route changes nothing
    -- unless its header bears the token of the approver or of the admin.
    pub serve_approval-Borne :
        (call : ApprovalCall) (authorization : Option String) (w : World)
        → s.operator_auth_enabled ≡ true
        → s.auth_mode ≡ "token"
        → let access = require_approver is_space lower jwks s authorization in
          ((serve_approval env settings call access w).1 ≡ w)
          ⊎ ((token : String) × (extract_bearer_token is_space lower jwks authorization
                ≡ some token)
              × (token ≢ "")
              × ((s.operator_approver_token ≡ some token) ⊎ (s.operator_admin_token ≡ some token)))
    unfolding authenticate
    serve_approval-Borne call authorization w on mode =
        elim (serve-granted call (require_approver is_space lower jwks s authorization) w) [
          | inl same ↦ inl same
          | inr (p, known) ↦
              let (identified, high) =
                ByRole-granted is_space lower jwks s approver authorization p known in
              elim identified [
                | inl (off, local) ↦ absurd (ground (arith, on, off))
                | inr (token, there, knows) ↦
                    let test : (s.auth_mode == "token") ≡ true =
                      (eq_iff s.auth_mode "token").1 mode in
                    let (given, listed) = find_token-approver s token p (rw test at knows) high in
                    inr (token, there, given, listed)
              ]
        ]
