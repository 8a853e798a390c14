-- ===== src/Payments/Outcomes.antt =====
-- How `_execute_stk_push` of app/services/payment_service.py ends, in each case.
use mpesa_mcp_server.Common.{
  ℕ, suc, String, true, false, ◌≡◌, refl, ◌⊎◌, inl, inr, none, some, [], ◌∷◌, ◌++◌, eq_refl,
  Option-cases,
}
use mpesa_mcp_server.Common.Dict.{insert, first-insert}
use mpesa_mcp_server.Common.Exec.{Error, ok, err, Result-cases}
use mpesa_mcp_server.Common.Text.{concat}
use mpesa_mcp_server.Storage.Records.{PendingTransaction}
use mpesa_mcp_server.Storage.Repository.{find_by_idempotency_key, save_pending_transaction}
use mpesa_mcp_server.Audit.Events.{AuditEvent}
use mpesa_mcp_server.Audit.Logger.{log_event}
use mpesa_mcp_server.Payments.Providers.{PaymentRequest, PaymentInitiationResponse, initiate}
use mpesa_mcp_server.Payments.Records.{PaymentResponse, error_text}
use mpesa_mcp_server.Payments.Service.{record_payment, execute_unless_existing, execute_stk_push}
use mpesa_mcp_server.World.{Env, World, increment, initiate_payment}
use mpesa_mcp_server.Observability.Metrics

-- The answer to a key that has a transaction tells of that transaction.
abbrev pub repeated : PendingTransaction → PaymentResponse
repeated t = record {
  status = t.status;
  allowed = true;
  reason = "Existing transaction returned for idempotency key.";
  requires_approval = false;
  approval_id = none;
  transaction_id = some t.transaction_id;
  checkout_request_id = some t.checkout_request_id;
  merchant_request_id = some t.merchant_request_id;
  idempotency_key = t.idempotency_key;
  response_code = none;
  response_description = none;
}

-- The answer to a provider that raises says so, and names no transaction.
abbrev pub broken : Error → PaymentResponse
broken exc = record {
  status = "failed";
  allowed = false;
  reason = concat ("Payment provider initiation failed: " ∷ error_text exc ∷ []);
  requires_approval = false;
  approval_id = none;
  transaction_id = none;
  checkout_request_id = none;
  merchant_request_id = none;
  idempotency_key = none;
  response_code = none;
  response_description = none;
}

-- The transaction that a provider's answer leads to: the request's deal under the key, the
-- provider's references, and nothing of a result.
abbrev pub opened :
    PaymentRequest → String → PaymentInitiationResponse → String → ℕ → ℕ → PendingTransaction
opened r key response transaction_id created_at updated_at = record {
  transaction_id = transaction_id;
  idempotency_key = some key;
  provider = response.provider;
  rail = response.rail;
  provider_transaction_id = response.provider_transaction_id;
  provider_reference = response.provider_reference;
  phone_number = r.phone_number;
  amount = r.amount;
  account_reference = r.account_reference;
  description = r.description;
  checkout_request_id = response.checkout_request_id;
  merchant_request_id = response.merchant_request_id;
  created_at = created_at;
  updated_at = updated_at;
  status = "pending";
  result_code = none;
  result_description = none;
  mpesa_receipt_number = none;
}

-- The answer to a provider that answers tells of the transaction and of the provider's answer.
abbrev pub initiated : String → PaymentInitiationResponse → String → PaymentResponse
initiated key response transaction_id = record {
  status = "pending";
  allowed = true;
  reason = "STK push initiated successfully.";
  requires_approval = false;
  approval_id = none;
  transaction_id = some transaction_id;
  checkout_request_id = some response.checkout_request_id;
  merchant_request_id = some response.merchant_request_id;
  idempotency_key = some key;
  response_code = some response.response_code;
  response_description = some response.response_description;
}

module _ (env : Env) (r : PaymentRequest) (key : String) (w : World) where
  -- A failure: only the provider's call and the counter of the failures are new.
  abbrev pub Failed : PaymentResponse → World → Type 0
  Failed answer v =
      (exc : Error) × (env.payment_provider.initiate_payment w.provider_calls r ≡ err exc)
      × (answer ≡ broken exc)
      × (v ≡ record w {
        provider_calls = w.provider_calls ++ initiate r ∷ [];
        metrics = record w.metrics { failed_payment_count = suc w.metrics.failed_payment_count };
      })

  -- A success: the transaction is stored under its identifier and found by its key, an audit event
  -- and a success are counted, and no approval changes.
  abbrev pub Stored : PaymentResponse → World → Type 0
  Stored answer v =
      let id = env.new_id w.ids_issued in
      (response : PaymentInitiationResponse) × (env.payment_provider.initiate_payment
          w.provider_calls r
        ≡ ok response)
      × (let t =
            opened r key response id (env.clock w.clock_reads) (env.clock (suc w.clock_reads)) in
          (answer ≡ initiated key response id)
          × (v.transactions ≡ insert id t w.transactions)
          × (find_by_idempotency_key key v ≡ some t)
          × (v.approvals ≡ w.approvals)
          × (v.provider_calls ≡ w.provider_calls ++ initiate r ∷ [])
          × ((event : AuditEvent) × (v.audit_events ≡ w.audit_events ++ event ∷ [])
              × (event.event_type ≡ "stk_push_initiated"))
          × (v.metrics ≡ record w.metrics {
            successful_payment_count = suc w.metrics.successful_payment_count;
          }))

  -- A push under a key always returns an answer. If the key has a transaction, the answer tells of
  -- it and nothing changes. Otherwise the provider gets the request once: if it raises, the answer
  -- is failed and not allowed, and only the failure is counted; if it answers, the request's deal
  -- is stored as pending under a new identifier, found by the key and told as pending, with one
  -- audit event and a success counted.
  pub execute_stk_push_lem :
      let v = (execute_stk_push env r key w).1 in
      (answer : PaymentResponse) × ((execute_stk_push env r key w).0 ≡ ok answer)
      × (((t : PendingTransaction) × (find_by_idempotency_key key w ≡ some t)
            × (answer ≡ repeated t)
            × (v ≡ w))
          ⊎ ((find_by_idempotency_key key w ≡ none) × (Failed answer v ⊎ Stored answer v)))
  unfolding execute_stk_push execute_unless_existing record_payment initiate_payment increment
      Metrics.increment save_pending_transaction log_event find_by_idempotency_key
  execute_stk_push_lem = elim (Option-cases (find_by_idempotency_key key w)) [
    | inr (t, found) ↦ rw found (repeated t, refl, inl (t, refl, refl, refl))
    | inl absent ↦ elim (Result-cases (env.payment_provider.initiate_payment w.provider_calls r)) [
      | inr (exc, raised) ↦
          rw (absent, raised) (broken exc, refl, inr (refl, inl (exc, refl, refl, refl)))
      | inl (response, answered) ↦
          rw (absent, answered)
            (
              initiated key response (env.new_id w.ids_issued),
              refl,
              inr (
                refl,
                inr (
                  response,
                  refl,
                  (
                    refl,
                    refl,
                    first-insert _ _ _ w.transactions absent (eq_refl key),
                    refl,
                    refl,
                    (_, refl, refl),
                    refl,
                  ),
                ),
              ),
            )
    ]
  ]
