-- ===== src/System.antt =====
-- The program's calls one after the other, on the state that they share: those of app/services,
-- app/approvals, app/callbacks, app/analytics and app/reconciliation that read or change it, and the
-- routes of app/callbacks, app/approvals and app/operator, with what they refuse.
pub mod Both
pub mod Payments
pub mod Others
pub mod Readings
pub mod Routes
pub mod History
use mpesa_mcp_server.Common.{ℕ, String, Bool, Option, List}
use mpesa_mcp_server.Common.Dict.{Dict}
use mpesa_mcp_server.Common.Json.{Json}
use mpesa_mcp_server.World.{Env, World}
use mpesa_mcp_server.Approvals.Service.{
  create_approval_request, approve_request, reject_request, list_pending_requests,
  expire_stale_approvals,
}
use mpesa_mcp_server.Approvals.Routes.{ApprovalCall, serve_approval}
use mpesa_mcp_server.Auth.Identity.{OperatorIdentity}
use mpesa_mcp_server.Auth.Security.{Access}
use mpesa_mcp_server.Callbacks.Routes.{CallbackSettings, Site, handle_stk_callback}
use mpesa_mcp_server.Config.Settings.{Settings}
use mpesa_mcp_server.Operator.Routes.{OperatorCall, serve_operator}
use Prim.Native.Char.{Char}
use mpesa_mcp_server.Payments.Records.{PaymentSettings, StkPush}
use mpesa_mcp_server.Payments.Service.{initiate_stk_push, execute_approved_payment}
use mpesa_mcp_server.Callbacks.Payload.{Builtins}
use mpesa_mcp_server.Callbacks.Handler.{process}
use mpesa_mcp_server.Receipts.Service.{generate_receipt, generate_receipt_by_reference}
use mpesa_mcp_server.Transactions.StatusService.{check_transaction_status}
use mpesa_mcp_server.Analytics.Service.{get_today_summary}
use mpesa_mcp_server.Reconciliation.Service.{run_reconciliation}

-- Any number of steps, in any order.
pub data Reach (R : World → World → Type 0) : World → World → Type 0 where
  done : (w : World) → Reach R w w
  then_step : (w v u : World) → R w v → Reach R v u → Reach R w u

-- One call takes the state before to the state after, whether it returns or raises.
module _ (env : Env) (settings : PaymentSettings) (builtins : Builtins) where
  -- The calls of the services that the tools make, an approval by itself and the handler of the
  -- callbacks.
  pub data ServiceStep : World → World → Type 0 where
    initiating :
        (push : StkPush) (w : World) → ServiceStep w (initiate_stk_push env settings push w).1
    executing :
        (id operator_id : String) (w : World)
        → ServiceStep w (execute_approved_payment env settings id operator_id w).1
    approving :
        (id operator_id : String) (w : World)
        → ServiceStep w (approve_request env settings.approvals id operator_id w).1
    rejecting :
        (id : String) (w : World) → ServiceStep w (reject_request env settings.approvals id w).1
    listing : (w : World) → ServiceStep w (list_pending_requests env settings.approvals w).1
    calling_back :
        (payload : Dict Json) (w : World) → ServiceStep w (process env builtins payload w).1
    receipting : (id : String) (w : World) → ServiceStep w (generate_receipt env id w).1
    querying :
        (id : String) (w : World)
        → ServiceStep w (check_transaction_status env settings.max_stk_amount id w).1
    summarizing : (date : ℕ → ℕ) (w : World) → ServiceStep w (get_today_summary env date w).1
    reconciling : (minutes : ℕ) (w : World) → ServiceStep w (run_reconciliation env minutes w).1

  -- All calls on the shared state: those, the other calls of the services that read or change it,
  -- and the routes, whatever their settings are and whatever has been found of the principal.
  pub data Step : World → World → Type 0 where
    serving : (w v : World) → ServiceStep w v → Step w v
    creating :
        (action : String) (payload : Dict Json) (reason : String) (w : World)
        → Step w (create_approval_request env settings.approvals action payload reason w).1
    expiring : (w : World) → Step w (expire_stale_approvals env settings.approvals w).1
    reviewing :
        (call : ApprovalCall) (access : Access) (w : World)
        → Step w (serve_approval env settings call access w).1
    routing_callback :
        (quote : String → String) (callbacks : CallbackSettings) (now : ℕ)
        (callback_secret : Option String) (headers : Dict String) (payload : Dict Json)
        (site : Site)
        → Step site.world
            (handle_stk_callback env builtins quote callbacks
              (process env builtins)
              now
              callback_secret
              headers
              payload
              site).1.world
    receipting_by_reference :
        (reference : String) (w : World) → Step w (generate_receipt_by_reference env reference w).1
    operating :
        (date : ℕ → ℕ) (minutes : ℕ) (s : Settings) (dependencies : List Bool)
        (is_space : Char → Bool) (lower : String → String)
        (jwks : Settings → Option String → Option OperatorIdentity) (call : OperatorCall)
        (authorization : Option String) (w : World)
        → Step w
            (serve_operator env date minutes s dependencies is_space lower jwks call authorization
              w).1
