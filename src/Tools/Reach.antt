-- ===== src/Tools/Reach.antt =====
-- The handlers of app/mcp/server.py as steps of the program: whatever tools are called, the shared
-- state goes through the calls of the services only.
use mpesa_mcp_server.Common.{ℕ, String, Bool, true, ◌≡◌, Option, none, some, List, [], ◌∷◌, arith}
use mpesa_mcp_server.Common.Exec.{Exec, ok, ◌>>=◌}
use mpesa_mcp_server.Common.Exec.Respects.{Preorder, Respects, Respects-bind, respects_rules}
use mpesa_mcp_server.Callbacks.Payload.{Builtins}
use mpesa_mcp_server.Payments.Records.{StkPush}
use mpesa_mcp_server.Tools.Schemas.{McpToolResponse, Validation, valid, invalid}
use mpesa_mcp_server.Tools.Checks.{
  RateLimiter, RateLimitSettings, Host, on_world, check_rate_limit, unless_refused, when_valid,
}
use mpesa_mcp_server.Tools.Payments.{
  initiate_stk_push_tool, initiate_payment_tool, approve_payment_request_tool,
  reject_payment_request_tool, delegate_push, delegate_approval, delegate_rejection,
}
use mpesa_mcp_server.Tools.Queries.{
  check_transaction_status_tool, check_payment_status_tool, generate_receipt_tool,
  get_today_summary_tool, get_failed_transactions_tool, run_reconciliation_tool, delegate_status,
  delegate_receipt, delegate_summary, delegate_failed, delegate_reconciliation,
}
use mpesa_mcp_server.Analytics.Service.{get_failed_transactions}
use mpesa_mcp_server.Tools.Handlers.{ToolCall, Container, handle}
use mpesa_mcp_server.System.{
  ServiceStep, Reach, initiating, executing, rejecting, receipting, querying, summarizing,
  reconciling, done, then_step,
}
use mpesa_mcp_server.World.{Env, World}

module _ (limiter : RateLimiter) (env : Env) (container : Container) (builtins : Builtins) where
  -- The calls of the services from one state to the other, whatever the limiter does.
  abbrev pub Serves : Host limiter → Host limiter → Type 0
  Serves h k = Reach (ServiceStep env container.payments builtins) h.world k.world

  Reach_trans :
      (w v u : World)
      → Reach (ServiceStep env container.payments builtins) w v
      → Reach (ServiceStep env container.payments builtins) v u
      → Reach (ServiceStep env container.payments builtins) w u
  Reach_trans _ _ u (done w) rest = rest
  Reach_trans _ _ u (then_step w x v step more) rest =
      then_step w x u step (Reach_trans x v u more rest)

  instance Serves-Preorder : Preorder Serves
  Serves-Preorder = record {
    reflexive = λ h. done h.world;
    transitive = λ h k l. Reach_trans h.world k.world l.world;
  }

  one-Step :
      {A : Type 0} (call : Exec World A)
      → ((w : World) → ServiceStep env container.payments builtins w (call w).1)
      → Respects Serves (on_world limiter call)
  one-Step call step = record {
    at = λ h. then_step h.world (call h.world).1 _ (step h.world) (done _);
  }

  unless_refused-Serves :
      (refusal : Option McpToolResponse) (call : Exec (Host limiter) McpToolResponse)
      → Respects Serves call
      → Respects Serves (unless_refused limiter refusal call)
  unless_refused-Serves none call h = h
  unless_refused-Serves (some response) call h = record { at = λ k. done k.world }

  when_valid-Serves :
      {A : Type 0} (reason : String) (input : Validation A)
      (call : A → Exec (Host limiter) McpToolResponse)
      → ((a : A) → Respects Serves (call a))
      → Respects Serves (when_valid limiter reason input call)
  when_valid-Serves reason (valid a) call h = h a
  when_valid-Serves reason (invalid messages) call h = record { at = λ k. done k.world }

  check_rate_limit-world :
      (has_limiter : Bool) (limits : RateLimitSettings) (key : String) (h : Host limiter)
      → (check_rate_limit limiter has_limiter limits key h).1.world ≡ h.world
  unfolding check_rate_limit
  check_rate_limit-world has_limiter limits key h = ground arith

  check_rate_limit-Serves :
      (has_limiter : Bool) (limits : RateLimitSettings) (key : String)
      → Respects Serves (check_rate_limit limiter has_limiter limits key)
  check_rate_limit-Serves has_limiter limits key = record {
    at = λ h. rw (check_rate_limit-world has_limiter limits key h) (done h.world);
  }

  ruleset tool_rules =
      (respects_rules, unless_refused-Serves, when_valid-Serves, check_rate_limit-Serves)

  -- A call of a service, and an answer made of its result.
  delegated :
      {A : Type 0} (call : Exec World A) (answer : A → McpToolResponse)
      → ((w : World) → ServiceStep env container.payments builtins w (call w).1)
      → Respects Serves (on_world limiter call >>= λ a h. (ok (answer a), h))
  delegated call answer step =
      Respects-bind _ _ (one-Step call step) (λ a. record { at = λ h. done h.world })

  delegate_push-Serves :
      (limits : RateLimitSettings) (push : StkPush)
      → Respects Serves (
          delegate_push limiter env container.payments container.validators
            (some container.tool_policy)
            true
            limits
            push)
  unfolding delegate_push
  delegate_push-Serves limits push = delegated _ _ (initiating push)

  delegate_approval-Serves :
      (limits : RateLimitSettings) (id : String)
      → Respects Serves (
          delegate_approval limiter env container.payments container.validators
            (some container.tool_policy)
            true
            limits
            id)
  unfolding delegate_approval
  delegate_approval-Serves limits id = delegated _ _ (executing id "mcp_operator")

  delegate_rejection-Serves :
      (limits : RateLimitSettings) (id : String)
      → Respects Serves (
          delegate_rejection limiter env container.payments container.validators
            (some container.tool_policy)
            true
            limits
            id)
  unfolding delegate_rejection
  delegate_rejection-Serves limits id = delegated _ _ (rejecting id)

  delegate_status-Serves :
      (limits : RateLimitSettings) (id : String)
      → Respects Serves (
          delegate_status limiter env container.payments container.validators
            (some container.tool_policy)
            true
            limits
            id)
  unfolding delegate_status
  delegate_status-Serves limits id = delegated _ _ (querying id)

  delegate_receipt-Serves :
      (id : String)
      → Respects Serves (
          delegate_receipt limiter env container.payments container.validators
            (some container.tool_policy)
            id)
  unfolding delegate_receipt
  delegate_receipt-Serves id = delegated _ _ (receipting id)

  delegate_summary-Serves : Respects Serves (
      delegate_summary limiter env container.payments container.validators
        (some container.tool_policy)
        container.date)
  unfolding delegate_summary
  delegate_summary-Serves = delegated _ _ (summarizing container.date)

  delegate_reconciliation-Serves :
      (minutes : ℕ)
      → Respects Serves (
          delegate_reconciliation limiter env container.payments container.validators
            (some container.tool_policy)
            minutes)
  unfolding delegate_reconciliation
  delegate_reconciliation-Serves minutes = delegated _ _ (reconciling minutes)

  delegate_failed-Serves : Respects Serves (
      delegate_failed limiter env container.payments container.validators
        (some container.tool_policy))
  unfolding delegate_failed get_failed_transactions
  delegate_failed-Serves = record { at = λ h. done h.world }

  handle-Serves : (call : ToolCall) → Respects Serves (handle limiter env container call)
  unfolding handle initiate_stk_push_tool initiate_payment_tool approve_payment_request_tool
      reject_payment_request_tool check_transaction_status_tool check_payment_status_tool
      generate_receipt_tool get_today_summary_tool get_failed_transactions_tool
      run_reconciliation_tool
  handle-Serves (ToolCall.initiate_stk_push p n a d k) = search (tool_rules, delegate_push-Serves)
  handle-Serves (ToolCall.initiate_payment p n a d k) = search (tool_rules, delegate_push-Serves)
  handle-Serves (ToolCall.check_transaction_status id) = search (tool_rules, delegate_status-Serves)
  handle-Serves (ToolCall.check_payment_status id) = search (tool_rules, delegate_status-Serves)
  handle-Serves (ToolCall.approve_payment_request id) =
      search (tool_rules, delegate_approval-Serves)
  handle-Serves (ToolCall.reject_payment_request id) =
      search (tool_rules, delegate_rejection-Serves)
  handle-Serves (ToolCall.generate_receipt id) = search (tool_rules, delegate_receipt-Serves)
  handle-Serves ToolCall.get_today_summary = search (tool_rules, delegate_summary-Serves)
  handle-Serves ToolCall.get_failed_transactions = search (tool_rules, delegate_failed-Serves)
  handle-Serves ToolCall.run_reconciliation = search (tool_rules, delegate_reconciliation-Serves)

  -- The tools called one after the other, each whether it returns or raises.
  abbrev pub serve : List ToolCall → Host limiter → Host limiter
  serve [] h = h
  serve (call ∷ calls) h = serve calls (handle limiter env container call h).1

  -- The server refines the steps of the services: whatever tools are called in whatever order,
  -- and whatever pydantic and the limiter make of the calls, the shared state is one that calls of
  -- the services reach.
  pub serve-Reach :
      (calls : List ToolCall) (h : Host limiter)
      → Reach (ServiceStep env container.payments builtins) h.world (serve calls h).world
  serve-Reach [] h = done h.world
  serve-Reach (call ∷ calls) h =
      Reach_trans h.world _ _ ((handle-Serves call).at h)
        (serve-Reach calls (handle limiter env container call h).1)
