-- ===== src/Tests/Payments.antt =====
-- Runs of the payment service of app/services/payment_service.py.
use mpesa_mcp_server.Common.{
  ℕ, String, ◌≡◌, ◌≢◌, ◌⊎◌, refl, ap, none, some, [], ◌∷◌, ◌++◌, length, arith,
}
use mpesa_mcp_server.Common.Int.{pos}
use mpesa_mcp_server.Common.Exec.{ok}
use mpesa_mcp_server.Common.Dict.{lookup, values, insert}
use mpesa_mcp_server.World.{World, start, initiate_payment, increment, now}
use mpesa_mcp_server.Observability.Metrics
use mpesa_mcp_server.Safety.Policy.{evaluate}
use mpesa_mcp_server.Safety.Policy.Laws.{stk_push}
use mpesa_mcp_server.Storage.Repository.{find_by_idempotency_key, save_pending_transaction}
use mpesa_mcp_server.Audit.Logger.{log_event}
use mpesa_mcp_server.Approvals.Models.{ApprovalRequest}
use mpesa_mcp_server.Approvals.Repository
use mpesa_mcp_server.Approvals.Service.{
  create_approval_request, log_audit_event, approve_request, approve_current, is_expired,
}
use mpesa_mcp_server.Approvals.Answers.{
  required_reviewers_for_amount, required_reviewers_for_payload,
}
use mpesa_mcp_server.Payments.Providers.{PaymentRequest, initiate}
use mpesa_mcp_server.Payments.Records.{PaymentResponse, executable}
use mpesa_mcp_server.Payments.Outcomes.{opened, repeated, Failed, Stored, execute_stk_push_lem}
use mpesa_mcp_server.Storage.Records.{PendingTransaction}
use mpesa_mcp_server.Payments.Service.{
  initiate_stk_push, execute_approved_payment, execute_reviewed, execute_approved_stk_push,
  execute_stk_push, approval_response,
}
use mpesa_mcp_server.Payments.Initiation.{
  IsWithinLimit, request_of, filed, execute_stk_push_again, initiate_stk_push_sends,
  initiate_stk_push_above_limit,
}
use mpesa_mcp_server.Payments.Execution.{Sent, execute_approved_payment_sends}
use mpesa_mcp_server.Tests.Samples.{env, failing, settings, push, accepted}

abbrev pub payment : ℕ → PaymentRequest
payment n = request_of (push n) "254700000000" (pos n)

abbrev pub key : String
key = "key-1"

abbrev after_two : World
after_two =
    (initiate_stk_push env settings (push 500)
      (initiate_stk_push env settings (push 500) start).1).1

-- The second call with one key reaches the provider no more.
one_call : length after_two.provider_calls ≡ 1
unfolding initiate_stk_push evaluate execute_stk_push find_by_idempotency_key values
    initiate_payment save_pending_transaction log_event increment insert
one_call = refl

-- A payment above the limit waits for an approval.
abbrev pub asked : World
asked = (initiate_stk_push env settings (push 20000) start).1

abbrev pub request : ApprovalRequest
request =
    filed env settings (payment 20000) key "Amount exceeds the configured STK push limit." start

pub request_there : lookup "-" asked.approvals ≡ some request
unfolding initiate_stk_push evaluate create_approval_request Repository.create increment lookup
    insert log_audit_event log_event Metrics.increment required_reviewers_for_payload
    required_reviewers_for_amount
request_there = refl

abbrev pub executed : World
executed = (execute_approved_payment env settings "-" "alice" asked).1

execute_approved_payment_sends_example :
    (executed.provider_calls ≡ asked.provider_calls)
    ⊎ Sent env settings "-" "alice" request asked executed
execute_approved_payment_sends_example =
    execute_approved_payment_sends env settings "-" "alice" request asked request_there refl

paid : length executed.provider_calls ≡ 1
unfolding execute_approved_payment execute_stk_push initiate_payment find_by_idempotency_key
    executable initiate_stk_push evaluate create_approval_request Repository.create increment lookup
    insert log_audit_event log_event Metrics.increment required_reviewers_for_payload
    required_reviewers_for_amount approve_request Repository.get is_expired Repository.save values
    save_pending_transaction now approve_current execute_reviewed execute_approved_stk_push
paid = refl

unpaid : length asked.provider_calls ≡ 0
unfolding execute_approved_payment execute_stk_push initiate_payment find_by_idempotency_key
    executable initiate_stk_push evaluate create_approval_request Repository.create increment lookup
    insert log_audit_event log_event Metrics.increment required_reviewers_for_payload
    required_reviewers_for_amount approve_request Repository.get is_expired Repository.save values
    save_pending_transaction now
unpaid = refl

pub called : executed.provider_calls ≢ asked.provider_calls
called e = absurd (omega (arith, paid, unpaid, ap length e))

initiate_stk_push_sends_example :
    ((initiate_stk_push env settings (push 500) start).1.provider_calls ≡ [])
    ⊎ ((within : IsWithinLimit env settings (some (pos 500)) (some "254700000000"))
        × ((initiate_stk_push env settings (push 500) start).1.provider_calls
            ≡ [] ++ initiate (request_of (push 500) within.1 within.0) ∷ []))
initiate_stk_push_sends_example = initiate_stk_push_sends env settings (push 500) start

initiate_stk_push_above_limit_example :
    ((initiate_stk_push env settings (push 20000) start).0
      ≡ ok (
          approval_response
            (evaluate settings.max_stk_amount (stk_push (some (pos 20000)) (some "254700000000")))
            "-"
            key))
    × (asked.provider_calls ≡ [])
    × (asked.transactions ≡ [])
    × (lookup "-" asked.approvals
        ≡ some (
            filed env settings
              (payment 20000)
              key
              (evaluate settings.max_stk_amount
                (stk_push (some (pos 20000)) (some "254700000000"))).reason
              start))
    × (executable
          (filed env settings
            (payment 20000)
            key
            (evaluate settings.max_stk_amount
              (stk_push (some (pos 20000)) (some "254700000000"))).reason
            start).payload
        ≡ some (payment 20000, key))
initiate_stk_push_above_limit_example =
    initiate_stk_push_above_limit env settings (push 20000) (pos 20000) "254700000000" start
      (omega arith) (omega arith)

abbrev pub stored : World
stored = (execute_stk_push env (payment 500) key start).1

pub nothing_yet : find_by_idempotency_key key start ≡ none
unfolding find_by_idempotency_key values
nothing_yet = refl

execute_stk_push_again_example :
    execute_stk_push env (payment 700) key stored
    ≡ (ok (repeated (opened (payment 500) key accepted "-" (env.clock 0) (env.clock 1))), stored)
execute_stk_push_again_example =
    execute_stk_push_again env (payment 500) (payment 700) key accepted start nothing_yet refl

execute_stk_push_lem_example :
    (answer : PaymentResponse) × ((execute_stk_push env (payment 500) key start).0 ≡ ok answer)
    × (((t : PendingTransaction) × (find_by_idempotency_key key start ≡ some t)
          × (answer ≡ repeated t)
          × (stored ≡ start))
        ⊎ ((find_by_idempotency_key key start ≡ none)
            × (Failed env (payment 500) key start answer stored
                ⊎ Stored env (payment 500) key start answer stored)))
execute_stk_push_lem_example = execute_stk_push_lem env (payment 500) key start

-- A provider that raises: nothing is stored, and the failure is counted.
abbrev failed : World
failed = (execute_stk_push failing (payment 500) key start).1

nothing_stored : (failed.transactions ≡ []) × (failed.metrics.failed_payment_count ≡ 1)
unfolding execute_stk_push find_by_idempotency_key values initiate_payment Metrics.increment
    increment
nothing_stored = (refl, refl)
