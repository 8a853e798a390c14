-- ===== src/Tests/System.antt =====
-- Sequences of calls.
use mpesa_mcp_server.Common.{◌≡◌, refl}
use mpesa_mcp_server.World.{World, start}
use mpesa_mcp_server.Storage.Progress as Transactions
use mpesa_mcp_server.Approvals.Progress as Approvals
use mpesa_mcp_server.Storage.Repository.{pending_transaction}
use mpesa_mcp_server.Payments.Records.{new_transaction}
use mpesa_mcp_server.Payments.Service.{execute_stk_push, execute_approved_payment}
use mpesa_mcp_server.Payments.Initiation.{execute_stk_push_stored}
use mpesa_mcp_server.Approvals.Service.{reject_request}
use mpesa_mcp_server.System.{Reach, Step, serving, initiating, rejecting, done, then_step}
use mpesa_mcp_server.System.Both.{Both}
use mpesa_mcp_server.System.Payments.{initiate_stk_push-Both, execute_stk_push-Both}
use mpesa_mcp_server.System.History.{
  Reach-Both, execute_stk_push-Reach, execute_approved_payment-Reach,
}
use mpesa_mcp_server.Tests.Samples.{env, settings, push, accepted}
use mpesa_mcp_server.Tests.Approvals.{issue_once}
use mpesa_mcp_server.Tests.Callbacks.{builtins}
use mpesa_mcp_server.Tests.Payments.{
  asked, request, request_there, executed, called, stored, payment, key, nothing_yet,
}

after_one_push : Reach (Step env settings builtins) start asked
after_one_push =
    then_step start asked asked (serving start asked (initiating (push 20000) start)) (done asked)

Reach-Both_example : Both env start asked
Reach-Both_example = Reach-Both env settings builtins issue_once start asked after_one_push

approvals-IsKept : Approvals.IsKept env asked
approvals-IsKept =
    ((initiate_stk_push-Both env issue_once settings (push 20000)).at start).approvals.kept
      (record { is_dict = tt; entries = tt })

transactions-IsKept : Transactions.IsKept env stored
transactions-IsKept =
    ((execute_stk_push-Both env issue_once (payment 500) key).at start).transactions.kept
      (record { is_dict = tt; entries = tt })

abbrev rejected : World
rejected = (reject_request env settings.approvals "-" executed).1

rejected_later : Reach (Step env settings builtins) executed rejected
rejected_later =
    then_step executed rejected rejected (serving executed rejected (rejecting "-" executed))
      (done rejected)

execute_approved_payment-Reach_example :
    (execute_approved_payment env settings "-" "bob" rejected).1 ≡ rejected
execute_approved_payment-Reach_example =
    execute_approved_payment-Reach env settings builtins issue_once "-" "alice" "bob" request asked
      rejected approvals-IsKept request_there called rejected_later

abbrev rejected_first : World
rejected_first = (reject_request env settings.approvals "-" stored).1

rejected_first_later : Reach (Step env settings builtins) stored rejected_first
rejected_first_later =
    then_step stored rejected_first rejected_first
      (serving stored rejected_first (rejecting "-" stored)) (done rejected_first)

execute_stk_push-Reach_example :
    (execute_stk_push env (payment 700) key rejected_first).1 ≡ rejected_first
execute_stk_push-Reach_example =
    execute_stk_push-Reach env settings builtins issue_once (payment 700) key
      (pending_transaction (new_transaction (payment 500) key accepted) "-" (env.clock 0)
        (env.clock 1))
      stored rejected_first transactions-IsKept
      (execute_stk_push_stored env (payment 500) key accepted start nothing_yet refl).2
      rejected_first_later
