-- ===== src/Transactions/StatusService/Laws.antt =====
-- What a status query of app/services/transaction_service.py does.
use mpesa_mcp_server.Common.{
  String, true, Option, some, ◌≡◌, ◌≢◌, refl, [], ◌∷◌, ◌++◌, test_of_ne, ◌⊎◌, inl, inr,
}
use mpesa_mcp_server.Common.Int.{ℤ}
use mpesa_mcp_server.Common.Exec.{ok, err, Error, Result-cases}
use mpesa_mcp_server.Audit.Events.{AuditEvent}
use mpesa_mcp_server.Storage.Records.{PendingTransaction}
use mpesa_mcp_server.Storage.Repository.{find_by_checkout_request_id}
use mpesa_mcp_server.Audit.Logger.{log_event}
use mpesa_mcp_server.Payments.Providers.{PaymentStatusResponse, check_status}
use mpesa_mcp_server.Transactions.StatusService.{
  TransactionStatusServiceResponse, query_provider, query_if_allowed, check_transaction_status,
}
use mpesa_mcp_server.World
use mpesa_mcp_server.World.{Env, World, increment, now, new_id}

-- What a caller is told of the provider's answer, with the transaction that is stored.
abbrev pub told :
    PaymentStatusResponse → Option PendingTransaction → TransactionStatusServiceResponse
told response stored = record {
  status = response.status;
  allowed = true;
  reason = response.result_description;
  checkout_request_id = some response.checkout_request_id;
  provider = some response.provider;
  rail = some response.rail;
  provider_transaction_id = response.provider_transaction_id;
  provider_reference = response.provider_reference;
  result_code = some response.result_code;
  result_description = some response.result_description;
  local_transaction = stored;
  errors = [];
}

module _ (env : Env) (max_stk_amount : ℤ) where
  -- A status query for an identifier that is not empty asks the provider once and changes neither
  -- store. It tells the provider's status, description, codes and references with the transaction
  -- that is stored, as allowed, and leaves one audit event; or, if the provider raises, it raises
  -- the same and leaves no audit event.
  pub check_transaction_status_lem :
      (id : String) (w : World)
      → id ≢ ""
      → let (answer, v) = check_transaction_status env max_stk_amount id w in
        ((v.transactions ≡ w.transactions)
          × (v.approvals ≡ w.approvals)
          × (v.provider_calls ≡ w.provider_calls ++ check_status id ∷ []))
        × (((response : PaymentStatusResponse) × (env.payment_provider.check_transaction_status
                  w.provider_calls id
                ≡ ok response)
              × (answer ≡ ok (told response (find_by_checkout_request_id id w)))
              × ((event : AuditEvent) × (v.audit_events ≡ w.audit_events ++ event ∷ [])
                  × (event.event_type ≡ "transaction_status_checked")))
            ⊎ ((e : Error) × (env.payment_provider.check_transaction_status w.provider_calls id
                  ≡ err e)
                × (answer ≡ err e)
                × (v.audit_events ≡ w.audit_events)))
  unfolding check_transaction_status query_if_allowed query_provider World.check_transaction_status
      log_event increment now new_id find_by_checkout_request_id
  check_transaction_status_lem id w given =
      elim (Result-cases (env.payment_provider.check_transaction_status w.provider_calls id)) [
        | inl (response, answered) ↦
            rw (test_of_ne id "" given, answered)
              ((refl, refl, refl), inl (response, refl, refl, (_, refl, refl)))
        | inr (e, raised) ↦
            rw (test_of_ne id "" given, raised) ((refl, refl, refl), inr (e, refl, refl, refl))
      ]
