-- ===== src/Approvals/Routes.antt =====
-- The approval routes of app/approvals/routes.py. Each takes what `require_approver` makes of the
-- request; the log lines are left out.
pub mod Laws
use mpesa_mcp_server.Common.{ℕ, String, Option, none, some, List, ◌==◌, if◌then◌else◌}
use mpesa_mcp_server.Common.Exec.{Exec, pure, gets, ◌>>=◌}
use mpesa_mcp_server.Approvals.Models.{ApprovalRequest}
use mpesa_mcp_server.Approvals.Repository.{get}
use mpesa_mcp_server.Approvals.Service.{
  list_pending_requests, expire_stale_approvals, reject_request,
}
use mpesa_mcp_server.Approvals.Answers.{ApprovalServiceResponse}
use mpesa_mcp_server.Auth.Security.{Access, require_approver}
use mpesa_mcp_server.Auth.Identity.{OperatorIdentity}
use mpesa_mcp_server.Auth.Routes.{RouteAnswer, answered, with_status, not_found, guarded}
use mpesa_mcp_server.Config.Settings.{Settings}
use mpesa_mcp_server.Payments.Records.{PaymentSettings, ApprovalExecutionResponse}
use mpesa_mcp_server.Payments.Service.{execute_approved_payment}
use mpesa_mcp_server.World.{Env, World}
use Prim.Native.Char.{Char}

-- The contents of the answers.
pub data ApprovalAnswer : Type 0 where
  approvals : List ApprovalRequest → ApprovalAnswer
  expired_count : ℕ → ApprovalAnswer
  approval : ApprovalRequest → ApprovalAnswer
  execution : ApprovalExecutionResponse → ApprovalAnswer
  review : ApprovalServiceResponse → ApprovalAnswer

-- A request to one of the routes.
pub data ApprovalCall : Type 0 where
  list_pending : ApprovalCall
  expire_stale : ApprovalCall
  get_one : String → ApprovalCall
  approve : String → ApprovalCall
  reject : String → ApprovalCall

-- `if response.status == "not_found"`
abbrev pub by_status : String → ApprovalAnswer → RouteAnswer ApprovalAnswer
by_status status content =
    if status == "not_found" then with_status 404 content else answered content

abbrev pub approval_or_not_found : Option ApprovalRequest → RouteAnswer ApprovalAnswer
approval_or_not_found none = not_found "Approval request was not found."
approval_or_not_found (some a) = answered (approval a)

module _ (env : Env) (settings : PaymentSettings) where
  unfoldable pub list_pending_approvals : Access → Exec World (RouteAnswer ApprovalAnswer)
  list_pending_approvals principal = guarded principal (λ p. do
    pending ← list_pending_requests env settings.approvals
    pure (answered (approvals pending)))

  unfoldable pub expire_stale_route : Access → Exec World (RouteAnswer ApprovalAnswer)
  expire_stale_route principal = guarded principal (λ p. do
    count ← expire_stale_approvals env settings.approvals
    pure (answered (expired_count count)))

  unfoldable pub get_approval : String → Access → Exec World (RouteAnswer ApprovalAnswer)
  get_approval approval_id principal =
      guarded principal (λ p. do found ← gets (get approval_id); pure (approval_or_not_found found))

  unfoldable pub approve_payment_request : String → Access → Exec World (RouteAnswer ApprovalAnswer)
  approve_payment_request approval_id principal = guarded principal (λ p. do
    response ← execute_approved_payment env settings approval_id p.subject
    pure (by_status response.status (execution response)))

  unfoldable pub reject_payment_request : String → Access → Exec World (RouteAnswer ApprovalAnswer)
  reject_payment_request approval_id principal = guarded principal (λ p. do
    response ← reject_request env settings.approvals approval_id
    pure (by_status response.status (review response)))

  -- The routes of the router.
  unfoldable pub serve_approval : ApprovalCall → Access → Exec World (RouteAnswer ApprovalAnswer)
  unfolding list_pending_approvals expire_stale_route get_approval approve_payment_request
      reject_payment_request
  serve_approval list_pending principal = list_pending_approvals principal
  serve_approval expire_stale principal = expire_stale_route principal
  serve_approval (get_one approval_id) principal = get_approval approval_id principal
  serve_approval (approve approval_id) principal = approve_payment_request approval_id principal
  serve_approval (reject approval_id) principal = reject_payment_request approval_id principal
