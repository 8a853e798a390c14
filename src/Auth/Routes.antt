-- ===== src/Auth/Routes.antt =====
-- How a route of FastAPI answers, and its dependency on a principal.
use mpesa_mcp_server.Common.{ℕ, String}
use mpesa_mcp_server.Common.Exec.{Exec, pure, raise}
use mpesa_mcp_server.Auth.Identity.{OperatorIdentity}
use mpesa_mcp_server.Auth.Security.{Access, granted, http_exception, failure}
use mpesa_mcp_server.World.{World}

pub data RouteAnswer (A : Type 0) : Type 0 where
  answered : A → RouteAnswer A
  -- a JSONResponse with this status code, and the response as its content
  with_status : ℕ → A → RouteAnswer A
  -- a JSONResponse with status code 404, and a content with this reason
  not_found : String → RouteAnswer A
  -- an HTTPException, with its status code and detail
  denied : ℕ → String → RouteAnswer A

-- The route, with the principal that the dependency has found.
abbrev pub guarded :
    {A : Type 0}
    → Access
    → (OperatorIdentity → Exec World (RouteAnswer A))
    → Exec World (RouteAnswer A)
guarded (granted principal) route = route principal
guarded (http_exception code detail) route = pure (denied code detail)
guarded (failure e) route = raise e
