-- ===== src/System/Payments.antt =====
-- The calls of app/services/payment_service.py, against the invariants of both stores.
use mpesa_mcp_server.Common.{ℕ, String, ◌≡◌, refl, Option, none, some, arith}
use mpesa_mcp_server.Common.Int.{ℤ}
use mpesa_mcp_server.Common.Exec.{Result, ok, err, pure, gets}
use mpesa_mcp_server.Common.Exec.Respects.{
  Preorder, Respects, Respects-bind, Respects-pure, Respects-gets, respects_rules,
}
use mpesa_mcp_server.World.{Env, World, initiate_payment}
use mpesa_mcp_server.Audit.Quiet.{log_event-Quiet}
use mpesa_mcp_server.Safety.Policy.{PolicyDecision}
use mpesa_mcp_server.Storage.Progress as Transactions
use mpesa_mcp_server.Approvals.Progress as Approvals
use mpesa_mcp_server.Approvals.Models.{ApprovalRequest}
use mpesa_mcp_server.Approvals.Repository.{get}
use mpesa_mcp_server.Approvals.Service.{approve_request, expire_stale_approvals, is_expired}
use mpesa_mcp_server.Approvals.Answers.{ApprovalServiceResponse}
use mpesa_mcp_server.Approvals.Aside.{
  approve_request-Aside, expire_stale_approvals-Aside, create_approval_request-Aside,
}
use mpesa_mcp_server.Approvals.Calls.{expire_stale_approvals-Progress, is_expired-Quiet}
use mpesa_mcp_server.Approvals.Calls.Approving.{approve_request-Progress}
use mpesa_mcp_server.Approvals.Calls.Creating.{create_approval_request-Progress}
use mpesa_mcp_server.Payments.Providers.{PaymentRequest, PaymentInitiationResponse}
use mpesa_mcp_server.Payments.Records.{PaymentSettings, StkPush}
use mpesa_mcp_server.Payments.Service.{
  record_payment, execute_unless_existing, execute_stk_push, execute_executable,
  execute_approved_stk_push, execute_reviewed, request_approval, execute_allowed, initiate_stk_push,
  execute_current, execute_expired, execute_found, execute_approved_payment,
}
use mpesa_mcp_server.Payments.Execution.{expired_answer}
use mpesa_mcp_server.System.Both.{
  Both, Both-Preorder, quiet, aside, increment-Both, save_pending_transaction-Both,
}

module _ (env : Env) (issue_once : (i j : ℕ) → env.new_id i ≡ env.new_id j → i ≡ j) where
  instance both : Preorder (Both env)
  both = Both-Preorder env

  record_payment-Both :
      (r : PaymentRequest) (key : String) (answer : Result PaymentInitiationResponse)
      → Respects (Both env) (record_payment env r key answer)
  unfolding record_payment
  record_payment-Both r key (err exc) = search (respects_rules, increment-Both)
  record_payment-Both r key (ok response) = search (
    respects_rules,
    increment-Both,
    save_pending_transaction-Both env issue_once,
    quiet env,
    log_event-Quiet,
  )

  -- A call of the provider by itself.
  called : (r : PaymentRequest) (w : World) → Both env w (initiate_payment env r w).1
  unfolding initiate_payment
  called r w = record {
    transactions = Transactions.Progress-idle env w _ (omega arith) refl;
    approvals = Approvals.Progress-idle env w _ (omega arith) refl;
  }

  execute_unless_existing-Both :
      (r : PaymentRequest) (key : String) (existing : _)
      → Respects (Both env) (execute_unless_existing env r key existing)
  unfolding execute_unless_existing
  execute_unless_existing-Both r key (some t) = record { at = λ w. both.reflexive w }
  execute_unless_existing-Both r key none = record {
    at = λ w.
        let (answer, v) = initiate_payment env r w in
        both.transitive w v _ (called r w) ((record_payment-Both r key answer).at v);
  }

  pub execute_stk_push-Both :
      (r : PaymentRequest) (key : String) → Respects (Both env) (execute_stk_push env r key)
  unfolding execute_stk_push
  execute_stk_push-Both r key = search (respects_rules, execute_unless_existing-Both)

  execute_executable-Both :
      (x : Option (PaymentRequest × String)) → Respects (Both env) (execute_executable env x)
  unfolding execute_executable
  execute_executable-Both none = search respects_rules
  execute_executable-Both (some (r, key)) = execute_stk_push-Both r key

  execute_reviewed-Both :
      (response : ApprovalServiceResponse) (approval : Option ApprovalRequest)
      → Respects (Both env) (execute_reviewed env response approval)
  unfolding execute_reviewed execute_approved_stk_push
  execute_reviewed-Both response none = search respects_rules
  execute_reviewed-Both response (some a) = search (respects_rules, execute_executable-Both)

  module _ (settings : PaymentSettings) where
    request_approval-Both :
        (push : StkPush) (d : PolicyDecision) (p : Option String) (n : Option ℤ)
        → Respects (Both env) (request_approval env settings push d p n)
    unfolding request_approval
    request_approval-Both push d none n = search respects_rules
    request_approval-Both push d (some p) none = search respects_rules
    request_approval-Both push d (some p) (some n) = search (
      respects_rules,
      increment-Both,
      aside env,
      create_approval_request-Aside,
      create_approval_request-Progress env issue_once,
    )

    execute_allowed-Both :
        (push : StkPush) (p : Option String) (n : Option ℤ)
        → Respects (Both env) (execute_allowed env settings push p n)
    unfolding execute_allowed
    execute_allowed-Both push none n = search respects_rules
    execute_allowed-Both push (some p) none = search respects_rules
    execute_allowed-Both push (some p) (some n) = execute_stk_push-Both _ _

    pub initiate_stk_push-Both :
        (push : StkPush) → Respects (Both env) (initiate_stk_push env settings push)
    unfolding initiate_stk_push
    initiate_stk_push-Both push =
        search (respects_rules, request_approval-Both, execute_allowed-Both)

    approve_request-Both :
        (id operator_id : String)
        → Respects (Both env) (approve_request env settings.approvals id operator_id)
    approve_request-Both id operator_id =
        aside env _ (approve_request-Aside env settings.approvals id operator_id)
          (approve_request-Progress env settings.approvals id operator_id)

    pub expire_stale_approvals-Both :
        Respects (Both env) (expire_stale_approvals env settings.approvals)
    expire_stale_approvals-Both =
        aside env _ (expire_stale_approvals-Aside env settings.approvals)
          (expire_stale_approvals-Progress env settings.approvals)

    is_expired-Both :
        (a : ApprovalRequest) → Respects (Both env) (is_expired env settings.approvals a)
    is_expired-Both a = quiet env _ (is_expired-Quiet env settings.approvals a)

    execute_current-Both :
        (id operator_id : String) (a : ApprovalRequest)
        → Respects (Both env) (execute_current env settings id operator_id a)
    unfolding execute_current
    execute_current-Both id operator_id a =
        search (respects_rules, approve_request-Both, execute_reviewed-Both)

    execute_expired-Both :
        (id : String) (a : ApprovalRequest)
        → Respects (Both env) (execute_expired env settings id a)
    unfolding execute_expired
    execute_expired-Both id a = Respects-bind _ _ expire_stale_approvals-Both (λ _.
        Respects-bind (gets (get id)) (λ again. pure (expired_answer env settings a again))
          (Respects-gets (get id)) (λ again. Respects-pure (expired_answer env settings a again)))

    execute_found-Both :
        (id operator_id : String) (a : Option ApprovalRequest)
        → Respects (Both env) (execute_found env settings id operator_id a)
    unfolding execute_found
    execute_found-Both id operator_id none = search respects_rules
    execute_found-Both id operator_id (some a) =
        search (respects_rules, is_expired-Both, execute_expired-Both, execute_current-Both)

    pub execute_approved_payment-Both :
        (id operator_id : String)
        → Respects (Both env) (execute_approved_payment env settings id operator_id)
    unfolding execute_approved_payment
    execute_approved_payment-Both id operator_id = search (respects_rules, execute_found-Both)
