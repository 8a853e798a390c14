-- ===== src/Tools/Payments.antt =====
-- The tools of app/mcp/tools.py that change something: payments and approvals.
use mpesa_mcp_server.Common.{String, Bool, Option, some, [], ◌∷◌}
use mpesa_mcp_server.Common.Text.{concat}
use mpesa_mcp_server.Common.Exec.{Exec, ◌>>=◌, ok}
use mpesa_mcp_server.Policy.ToolPolicy.{ToolPolicyEngine}
use mpesa_mcp_server.Payments.Records.{
  PaymentSettings, StkPush, PaymentResponse, ApprovalExecutionResponse,
}
use mpesa_mcp_server.Payments.Service.{initiate_stk_push, execute_approved_payment}
use mpesa_mcp_server.Approvals.Service.{reject_request}
use mpesa_mcp_server.Approvals.Answers.{ApprovalServiceResponse}
use mpesa_mcp_server.Tools.Schemas.{
  McpToolResponse, InputData, Validators, validate, InitiateStkPushInput, InitiatePaymentInput,
  ApprovePaymentRequestInput, RejectPaymentRequestInput, payment, execution, approval,
}
use mpesa_mcp_server.Tools.Checks.{
  RateLimiter, RateLimitSettings, Host, on_world, tool_answer, check_tool_policy, check_rate_limit,
  unless_refused, when_valid,
}
use mpesa_mcp_server.World.{Env}

abbrev pub payment_answer : PaymentResponse → McpToolResponse
payment_answer response = record (tool_answer response.status response.allowed response.reason) {
  requires_approval = response.requires_approval;
  tool_data = payment response;
}

-- `_approval_execution_response_to_mcp_response`
abbrev pub approval_execution_response_to_mcp_response : ApprovalExecutionResponse → McpToolResponse
approval_execution_response_to_mcp_response response =
    record (tool_answer response.status response.allowed response.reason) {
      tool_data = execution response;
    }

-- `_approval_response_to_mcp_response`
abbrev pub approval_response_to_mcp_response : ApprovalServiceResponse → McpToolResponse
approval_response_to_mcp_response response =
    record (tool_answer response.status response.allowed response.reason) {
      tool_data = approval response;
    }

-- The arguments that the tools give to `initiate_stk_push`.
abbrev pub stk_push_of : InitiateStkPushInput → StkPush
stk_push_of input = record {
  phone_number = some input.phone_number;
  amount = some input.amount;
  account_reference = input.account_reference;
  description = input.description;
  idempotency_key = input.idempotency_key;
}

abbrev pub payment_push_of : InitiatePaymentInput → StkPush
payment_push_of input = record {
  phone_number = some input.phone_number;
  amount = some input.amount;
  account_reference = input.account_reference;
  description = input.description;
  idempotency_key = input.idempotency_key;
}

module _ (limiter : RateLimiter) (env : Env) (settings : PaymentSettings) (validators : Validators)
    (tool_policy : Option ToolPolicyEngine) (has_limiter : Bool) (limits : RateLimitSettings) where
  -- The call of the payment service, and its answer.
  unfoldable pub delegate_push : StkPush → Exec (Host limiter) McpToolResponse
  delegate_push push = do
    response ← on_world limiter (initiate_stk_push env settings push)
    λ h. (ok (payment_answer response), h)

  unfoldable pub initiate_stk_push_tool :
      InputData InitiateStkPushInput → Exec (Host limiter) McpToolResponse
  unfolding delegate_push
  initiate_stk_push_tool input_data =
      unless_refused limiter (check_tool_policy "initiate_stk_push" tool_policy) (
        when_valid limiter "Invalid initiate_stk_push input."
          (validate validators.initiate_stk_push input_data)
          (λ input. do
            refusal ←
                check_rate_limit limiter has_limiter limits
                  (concat ("initiate_stk_push:" ∷ input.phone_number ∷ []))
            unless_refused limiter refusal (delegate_push (stk_push_of input))))

  unfoldable pub initiate_payment_tool :
      InputData InitiatePaymentInput → Exec (Host limiter) McpToolResponse
  unfolding delegate_push
  initiate_payment_tool input_data =
      unless_refused limiter (check_tool_policy "initiate_payment" tool_policy) (
        when_valid limiter "Invalid initiate_payment input."
          (validate validators.initiate_payment input_data)
          (λ input. do
            refusal ←
                check_rate_limit limiter has_limiter limits
                  (concat ("initiate_payment:" ∷ input.phone_number ∷ []))
            unless_refused limiter refusal (delegate_push (payment_push_of input))))

  unfoldable pub delegate_approval : String → Exec (Host limiter) McpToolResponse
  delegate_approval approval_id = do
    response ← on_world limiter (execute_approved_payment env settings approval_id "mcp_operator")
    λ h. (ok (approval_execution_response_to_mcp_response response), h)

  unfoldable pub approve_payment_request_tool :
      InputData ApprovePaymentRequestInput → Exec (Host limiter) McpToolResponse
  unfolding delegate_approval
  approve_payment_request_tool input_data =
      unless_refused limiter (check_tool_policy "approve_payment_request" tool_policy) (
        when_valid limiter "Invalid approve_payment_request input."
          (validate validators.approve_payment_request input_data)
          (λ input. do
            refusal ←
                check_rate_limit limiter has_limiter limits
                  (concat ("approve_payment_request:" ∷ input.approval_id ∷ []))
            unless_refused limiter refusal (delegate_approval input.approval_id)))

  unfoldable pub delegate_rejection : String → Exec (Host limiter) McpToolResponse
  delegate_rejection approval_id = do
    response ← on_world limiter (reject_request env settings.approvals approval_id)
    λ h. (ok (approval_response_to_mcp_response response), h)

  unfoldable pub reject_payment_request_tool :
      InputData RejectPaymentRequestInput → Exec (Host limiter) McpToolResponse
  unfolding delegate_rejection
  reject_payment_request_tool input_data =
      unless_refused limiter (check_tool_policy "reject_payment_request" tool_policy) (
        when_valid limiter "Invalid reject_payment_request input."
          (validate validators.reject_payment_request input_data)
          (λ input. do
            refusal ←
                check_rate_limit limiter has_limiter limits
                  (concat ("reject_payment_request:" ∷ input.approval_id ∷ []))
            unless_refused limiter refusal (delegate_rejection input.approval_id)))
