-- ===== src/Payments/Service.antt =====
-- `PaymentService` of app/services/payment_service.py.
use mpesa_mcp_server.Common.{
  String, Bool, true, false, not, Option, none, some, ◌==◌, or_else, if◌then◌else◌,
}
use mpesa_mcp_server.Common.Int.{ℤ}
use mpesa_mcp_server.Common.Dict.{Dict}
use mpesa_mcp_server.Common.Exec.{Exec, Result, ok, err, pure, gets, ◌>>=◌, ◌>>◌}
use mpesa_mcp_server.Common.Json.{Json}
use mpesa_mcp_server.Safety.Policy.{PaymentActionRequest, PolicyDecision, evaluate}
use mpesa_mcp_server.Storage.Records.{PendingTransaction}
use mpesa_mcp_server.Storage.Repository.{find_by_idempotency_key, save_pending_transaction}
use mpesa_mcp_server.Approvals.Models.{ApprovalRequest}
use mpesa_mcp_server.Approvals.Repository.{get}
use mpesa_mcp_server.Approvals.Service.{
  create_approval_request, is_expired, expire_stale_approvals, approve_request,
}
use mpesa_mcp_server.Approvals.Answers.{ApprovalServiceResponse}
use mpesa_mcp_server.Audit.Logger.{log_event}
use mpesa_mcp_server.Observability.Metrics.{Counter}
use mpesa_mcp_server.Payments.Providers.{PaymentRequest, PaymentInitiationResponse}
use mpesa_mcp_server.World.{Env, World, increment, initiate_payment}
use mpesa_mcp_server.Payments.Records.{
  PaymentResponse, ApprovalExecutionResponse, StkPush, PaymentSettings, plain_response,
  missing_response, payment_request, raw_key, response_from_existing_transaction, failed_response,
  new_transaction, approval_payload, success_payload, pending_response, executable,
}

abbrev pub policy_request : StkPush → PaymentActionRequest
policy_request push = record {
  action = "initiate_stk_push";
  amount = push.amount;
  phone_number = push.phone_number;
  recipient = none;
}

abbrev pub approval_response : PolicyDecision → String → String → PaymentResponse
approval_response decision approval_id key =
    record (plain_response decision.status decision.allowed decision.reason) {
      requires_approval = true;
      approval_id = some approval_id;
      idempotency_key = some key;
    }

abbrev pub execution :
    String
    → Bool
    → String
    → Option ApprovalRequest
    → Option PaymentResponse
    → ApprovalExecutionResponse
execution status allowed reason approval payment = record {
  status = status;
  allowed = allowed;
  reason = reason;
  approval = approval;
  payment = payment;
}

abbrev pub execution_not_found : ApprovalExecutionResponse
execution_not_found = execution "not_found" false "Approval request was not found." none none

-- `a or b` for an optional request
abbrev pub or_request : Option ApprovalRequest → ApprovalRequest → ApprovalRequest
or_request none b = b
or_request (some a) b = a

module _ (env : Env) where
  -- `_derive_idempotency_key`
  unfoldable pub derive_idempotency_key : PaymentRequest → String
  derive_idempotency_key r = env.sha256 (raw_key r)

  -- `_execute_stk_push` after the provider's answer or exception
  unfoldable pub record_payment :
      PaymentRequest → String → Result PaymentInitiationResponse → Exec World PaymentResponse
  record_payment r key (err exc) = do
    increment Counter.failed_payment_count
    pure (failed_response exc)
  record_payment r key (ok response) = do
    transaction ← save_pending_transaction env (new_transaction r key response)
    log_event env "stk_push_initiated" (success_payload transaction response) none none none
    increment Counter.successful_payment_count
    pure (pending_response transaction response key)

  unfoldable pub execute_unless_existing :
      PaymentRequest → String → Option PendingTransaction → Exec World PaymentResponse
  unfolding record_payment
  execute_unless_existing r key (some existing) w =
      (ok (response_from_existing_transaction existing), w)
  execute_unless_existing r key none w =
      let (answer, w') = initiate_payment env r w in record_payment r key answer w'

  -- `_execute_stk_push`
  unfoldable pub execute_stk_push : PaymentRequest → String → Exec World PaymentResponse
  unfolding execute_unless_existing
  execute_stk_push r key = do
    existing ← gets (find_by_idempotency_key key)
    execute_unless_existing r key existing

  unfoldable pub execute_executable : Option (PaymentRequest × String) → Exec World PaymentResponse
  execute_executable none =
      pure (plain_response "blocked" false "Approval payload is not executable.")
  execute_executable (some (r, key)) = execute_stk_push r key

  -- `_execute_approved_stk_push`
  unfoldable pub execute_approved_stk_push : Dict Json → Exec World PaymentResponse
  unfolding execute_executable
  execute_approved_stk_push payload = execute_executable (executable payload)

  -- `execute_approved_payment` after the service's answer to the review
  unfoldable pub execute_reviewed :
      ApprovalServiceResponse → Option ApprovalRequest → Exec World ApprovalExecutionResponse
  execute_reviewed response none = pure execution_not_found
  execute_reviewed response (some approved) =
      if not (response.status == "approved")
      then pure (execution response.status false response.reason (some approved) none)
      else (do
        payment ← execute_approved_stk_push approved.payload
        pure (
            execution response.status payment.allowed
              "Approval request approved and payment execution attempted." (some approved)
              (some payment)))

  module _ (settings : PaymentSettings) where
    -- `initiate_stk_push` when the policy wants an approval
    unfoldable pub request_approval :
        StkPush → PolicyDecision → Option String → Option ℤ → Exec World PaymentResponse
    request_approval push decision (some phone_number) (some amount) =
        let r = payment_request phone_number amount push.account_reference push.description in
        let key = or_else push.idempotency_key (derive_idempotency_key r) in
        do
          approval ←
              create_approval_request env settings.approvals "initiate_stk_push"
                (approval_payload r key) decision.reason
          increment Counter.approval_required_count
          pure (approval_response decision approval.approval_id key)
    request_approval push decision (some phone_number) none = pure missing_response
    request_approval push decision none amount = pure missing_response

    unfoldable pub execute_allowed : StkPush → Option String → Option ℤ → Exec World PaymentResponse
    execute_allowed push (some phone_number) (some amount) =
        let r = payment_request phone_number amount push.account_reference push.description in
        execute_stk_push r (or_else push.idempotency_key (derive_idempotency_key r))
    execute_allowed push (some phone_number) none = pure missing_response
    execute_allowed push none amount = pure missing_response

    unfoldable pub initiate_stk_push : StkPush → Exec World PaymentResponse
    unfolding request_approval execute_allowed
    initiate_stk_push push =
        let decision = evaluate settings.max_stk_amount (policy_request push) in
        if decision.requires_approval
        then request_approval push decision push.phone_number push.amount
        else if not decision.allowed
        then pure (plain_response decision.status false decision.reason)
        else execute_allowed push push.phone_number push.amount

    -- `execute_approved_payment` for an approval that is there and not expired
    unfoldable pub execute_current :
        String → String → ApprovalRequest → Exec World ApprovalExecutionResponse
    execute_current approval_id operator_id approval =
        if not (approval.status == "pending")
        then pure
            (execution "blocked" false "Approval request is not pending." (some approval) none)
        else (do
          response ← approve_request env settings.approvals approval_id operator_id
          execute_reviewed response response.approval)

    -- An expired approval: all stale approvals are expired, and it is read again.
    unfoldable pub execute_expired : String → ApprovalRequest → Exec World ApprovalExecutionResponse
    execute_expired approval_id approval = do
      expire_stale_approvals env settings.approvals
      expired_approval ← gets (get approval_id)
      pure (
          execution "expired" false "Approval request has expired."
            (some (or_request expired_approval approval)) none)

    unfoldable pub execute_found :
        String → String → Option ApprovalRequest → Exec World ApprovalExecutionResponse
    unfolding execute_current execute_expired
    execute_found approval_id operator_id none = pure execution_not_found
    execute_found approval_id operator_id (some approval) = do
      expired ← is_expired env settings.approvals approval
      if expired
          then execute_expired approval_id approval
          else execute_current approval_id operator_id approval

    unfoldable pub execute_approved_payment : String → String → Exec World ApprovalExecutionResponse
    unfolding execute_found
    execute_approved_payment approval_id operator_id = do
      found ← gets (get approval_id)
      execute_found approval_id operator_id found
