-- ===== src/System/Others.antt =====
-- The calls of app/callbacks, app/services/receipt_service.py and app/reconciliation, against the
-- invariants of both stores.
use mpesa_mcp_server.Common.{ℕ, String, refl, Bool, Option, none, some, arith}
use mpesa_mcp_server.Common.Int.{ℤ}
use mpesa_mcp_server.Common.Json.{Json}
use mpesa_mcp_server.Common.Dict.{Dict}
use mpesa_mcp_server.Common.Exec.{Result, ok, err}
use mpesa_mcp_server.Common.Exec.Respects.{Preorder, Respects, respects_rules}
use mpesa_mcp_server.World.{Env}
use mpesa_mcp_server.World.Quiet.{Quiet, Quiet-Preorder, now-Quiet, new_id-Quiet, increment-Quiet}
use mpesa_mcp_server.Audit.Quiet.{log_event-Quiet}
use mpesa_mcp_server.Storage.Records.{PendingTransaction}
use mpesa_mcp_server.Storage.Repository.{update_transaction_status}
use mpesa_mcp_server.Storage.Progress as Transactions
use mpesa_mcp_server.Approvals.Progress as Approvals
use mpesa_mcp_server.Callbacks.Payload.{Builtins}
use mpesa_mcp_server.Callbacks.Handler.{
  apply_update, match_amount, process_transition, process_complete, process_found, process_fields,
  process_callback, process, status_update,
}
use mpesa_mcp_server.Callbacks.Handler.Effects.{
  invalid_payload_result-Quiet, unknown_transaction_result-Quiet, mismatch_result-Quiet,
  recover-Quiet, finish-Quiet,
}
use mpesa_mcp_server.Receipts.Generator.{
  Receipt, ReceiptGenerationResult, generate_numbered, generate,
}
use mpesa_mcp_server.Receipts.Service.{generate_receipt, generate_found, deliver}
use mpesa_mcp_server.Reconciliation.Service.{run_reconciliation}
use mpesa_mcp_server.Reconciliation.Service.ReadOnly.{run_reconciliation_reads}
use mpesa_mcp_server.System.Both.{
  Both, Both-Preorder, quiet, increment-Both, update_transaction_status-Both,
}

module _ (env : Env) where
  instance both : Preorder (Both env)
  both = Both-Preorder env

  module _ (builtins : Builtins) where
    module _ (callback : Dict Json) (id : String) (code : ℤ) (description : String) where
      apply_update-Both :
          (metadata : Dict Json)
          → Respects (Both env) (apply_update env builtins callback id code description metadata)
      unfolding apply_update
      apply_update-Both metadata = record {
        at = λ w.
            let u = status_update env builtins callback id code description metadata in
            let (result, v) = update_transaction_status env u w in
            both.transitive w v _ ((update_transaction_status-Both env u).at w) (
              (quiet env _
                  (finish-Quiet env builtins callback id code description metadata result)).at
                v);
      }

      match_amount-Both :
          (metadata : Dict Json) (t : PendingTransaction) (amount : Option ℤ)
          → Respects
              (Both env)
              (match_amount env builtins callback id code description metadata t amount)
      unfolding match_amount
      match_amount-Both metadata t amount =
          search (respects_rules, quiet env, mismatch_result-Quiet, apply_update-Both)

      process_transition-Both :
          (metadata : Dict Json) (t : PendingTransaction) (valid : Result (Unit {0}))
          → Respects
              (Both env)
              (process_transition env builtins callback id code description metadata t valid)
      unfolding process_transition
      process_transition-Both metadata t (err e) =
          quiet env _ (recover-Quiet env builtins callback id code description metadata e)
      process_transition-Both metadata t (ok done) = search (respects_rules, match_amount-Both)

      process_complete-Both :
          (metadata : Dict Json) (t : PendingTransaction) (complete : Bool)
          → Respects
              (Both env)
              (process_complete env builtins callback id code description metadata t complete)
      unfolding process_complete
      process_complete-Both metadata t complete =
          search (respects_rules, quiet env, invalid_payload_result-Quiet, process_transition-Both)

      process_found-Both :
          (found : Option PendingTransaction)
          → Respects (Both env) (process_found env builtins callback id code description found)
      unfolding process_found
      process_found-Both none = quiet env _ (unknown_transaction_result-Quiet env builtins id)
      process_found-Both (some t) = search (respects_rules, process_complete-Both)

    process_fields-Both :
        (callback : Dict Json) (id : Option String) (code : Option ℤ) (description : Option String)
        → Respects (Both env) (process_fields env builtins callback id code description)
    unfolding process_fields
    process_fields-Both callback (some id) (some code) (some description) =
        search (respects_rules, process_found-Both)
    process_fields-Both callback none code description =
        quiet env _ (invalid_payload_result-Quiet env builtins none)
    process_fields-Both callback (some id) none description =
        quiet env _ (invalid_payload_result-Quiet env builtins (some id))
    process_fields-Both callback (some id) (some code) none =
        quiet env _ (invalid_payload_result-Quiet env builtins (some id))

    process_callback-Both :
        (callback : Option (Dict Json))
        → Respects (Both env) (process_callback env builtins callback)
    unfolding process_callback
    process_callback-Both none = quiet env _ (invalid_payload_result-Quiet env builtins none)
    process_callback-Both (some callback) = search (respects_rules, process_fields-Both)

    pub process-Both : (payload : Dict Json) → Respects (Both env) (process env builtins payload)
    unfolding process
    process-Both payload = search (respects_rules, increment-Both, process_callback-Both)

  generate_numbered-Quiet :
      (t : PendingTransaction) (number : Option String)
      → Respects Quiet (generate_numbered env t number)
  unfolding generate_numbered
  generate_numbered-Quiet t none = search respects_rules
  generate_numbered-Quiet t (some number) = search (respects_rules, now-Quiet, new_id-Quiet)

  generate-Quiet : (t : PendingTransaction) → Respects Quiet (generate env t)
  unfolding generate
  generate-Quiet t = search (respects_rules, generate_numbered-Quiet)

  deliver-Quiet :
      (t : PendingTransaction) (result : ReceiptGenerationResult) (r : Option Receipt)
      → Respects Quiet (deliver env t result r)
  unfolding deliver
  deliver-Quiet t result none = search respects_rules
  deliver-Quiet t result (some r) = search (respects_rules, log_event-Quiet, increment-Quiet)

  generate_found-Quiet : (t : Option PendingTransaction) → Respects Quiet (generate_found env t)
  unfolding generate_found
  generate_found-Quiet none = search respects_rules
  generate_found-Quiet (some t) = search (respects_rules, generate-Quiet, deliver-Quiet)

  pub generate_receipt-Quiet : (id : String) → Respects Quiet (generate_receipt env id)
  unfolding generate_receipt
  generate_receipt-Quiet id = search (respects_rules, generate_found-Quiet)

  pub generate_receipt-Both : (id : String) → Respects (Both env) (generate_receipt env id)
  generate_receipt-Both id = quiet env _ (generate_receipt-Quiet id)

  pub run_reconciliation-Both : (minutes : ℕ) → Respects (Both env) (run_reconciliation env minutes)
  run_reconciliation-Both minutes = record {
    at = λ w. rw run_reconciliation_reads (record {
      transactions = Transactions.Progress-idle env w _ (omega arith) refl;
      approvals = Approvals.Progress-idle env w _ (omega arith) refl;
    });
  }
