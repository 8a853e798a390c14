-- ===== src/Payments/StkPush.antt =====
-- How `_execute_stk_push` of app/services/payment_service.py reaches the provider.
use mpesa_mcp_server.Common.{
  String, ◌≡◌, refl, ◌⊎◌, inl, inr, none, some, [], ◌∷◌, ◌++◌, Option-cases,
}
use mpesa_mcp_server.Common.Exec.{Result, ok, err}
use mpesa_mcp_server.World.Quiet.{Aside-Preorder}
use mpesa_mcp_server.Storage.Records.{PendingTransaction}
use mpesa_mcp_server.Storage.Repository.{find_by_idempotency_key, save_pending_transaction}
use mpesa_mcp_server.Audit.Logger.{log_event}
use mpesa_mcp_server.Payments.Providers.{PaymentRequest, PaymentInitiationResponse, initiate}
use mpesa_mcp_server.Payments.Records.{response_from_existing_transaction}
use mpesa_mcp_server.Payments.Service.{record_payment, execute_unless_existing, execute_stk_push}
use mpesa_mcp_server.World.{Env, World, increment, initiate_payment}

module _ (env : Env) where
  -- A key that has a transaction: the answer tells of that transaction, and nothing changes.
  pub execute_stk_push_existing :
      (r : PaymentRequest) (key : String) (t : PendingTransaction) (w : World)
      → find_by_idempotency_key key w ≡ some t
      → execute_stk_push env r key w ≡ (ok (response_from_existing_transaction t), w)
  unfolding execute_stk_push execute_unless_existing
  execute_stk_push_existing r key t w found = rw found

  record_payment-calls :
      (r : PaymentRequest) (key : String) (answer : Result PaymentInitiationResponse) (w : World)
      → (record_payment env r key answer w).1.provider_calls ≡ w.provider_calls
  unfolding record_payment save_pending_transaction log_event increment
  record_payment-calls r key (err exc) w = refl
  record_payment-calls r key (ok response) w = refl

  -- A key that has none: the provider gets exactly this request, once.
  pub execute_stk_push_calls :
      (r : PaymentRequest) (key : String) (w : World)
      → find_by_idempotency_key key w ≡ none
      → (execute_stk_push env r key w).1.provider_calls ≡ w.provider_calls ++ initiate r ∷ []
  unfolding execute_stk_push execute_unless_existing initiate_payment
  execute_stk_push_calls r key w absent =
      rw absent
        (record_payment-calls r key (env.payment_provider.initiate_payment w.provider_calls r) _)

  approvals-record_payment :
      (r : PaymentRequest) (key : String) (answer : Result PaymentInitiationResponse) (w : World)
      → (record_payment env r key answer w).1.approvals ≡ w.approvals
  unfolding record_payment save_pending_transaction log_event increment
  approvals-record_payment r key (err exc) w = refl
  approvals-record_payment r key (ok response) w = refl

  pub approvals-execute_stk_push :
      (r : PaymentRequest) (key : String) (w : World)
      → (execute_stk_push env r key w).1.approvals ≡ w.approvals
  unfolding execute_stk_push execute_unless_existing initiate_payment
  approvals-execute_stk_push r key w = elim (Option-cases (find_by_idempotency_key key w)) [
    | inl absent ↦ rw absent (
        approvals-record_payment r key (env.payment_provider.initiate_payment w.provider_calls r) _)
    | inr (t, found) ↦ rw found
  ]

  -- Whatever the key, the provider gets this request at most once more and no other.
  pub execute_stk_push_sends :
      (r : PaymentRequest) (key : String) (w : World)
      → ((execute_stk_push env r key w).1.provider_calls ≡ w.provider_calls)
        ⊎ ((execute_stk_push env r key w).1.provider_calls ≡ w.provider_calls ++ initiate r ∷ [])
  execute_stk_push_sends r key w = elim (Option-cases (find_by_idempotency_key key w)) [
    | inl absent ↦ inr (execute_stk_push_calls r key w absent)
    | inr (t, found) ↦ inl (rw (execute_stk_push_existing r key t w found))
  ]
