-- ===== src/Payments/Adapters/Laws.antt =====
-- app/services/payment_service.py over Daraja: what a push of the service sends by HTTP.
use mpesa_mcp_server.Common.{◌≡◌, refl, ap, List, [], ◌∷◌, ◌++◌, ◌⊎◌, inl, inr, subst, sym}
use mpesa_mcp_server.Payments.Providers.{PaymentRequest, ProviderCall, initiate}
use mpesa_mcp_server.Payments.Records.{PaymentSettings, StkPush}
use mpesa_mcp_server.Payments.Service.{initiate_stk_push}
use mpesa_mcp_server.Payments.Initiation.{IsWithinLimit, request_of, initiate_stk_push_sends}
use mpesa_mcp_server.Payments.Adapters.{
  daraja_initiate_payment, client_after_call, client_after, daraja_payment_provider,
}
use mpesa_mcp_server.Daraja.Calls.{
  Surroundings, Client, HttpRequest, Outcome, returned, raised, continue, pure, new_client,
}
use mpesa_mcp_server.Daraja.Client.Push.Laws.{PushedOnce, initiate_stk_push-PushedOnce}
use mpesa_mcp_server.World.{Env, World}

module _ (daraja : Surroundings) where
  client_after-append :
      (calls : List ProviderCall) (call : ProviderCall) (s : Client)
      → client_after daraja (calls ++ call ∷ []) s
        ≡ client_after_call daraja call (client_after daraja calls s)
  client_after-append [] call s = refl
  client_after-append (c ∷ calls) call s =
      client_after-append calls call (client_after_call daraja c s)

  continue-pure :
      {A B : Type 0} (r : Outcome A) (g : A → B) (s : Client)
      → (continue r (λ a. pure (g a)) s).1 ≡ s
  continue-pure (returned a) g s = refl
  continue-pure (raised e) g s = refl

  daraja_initiate_payment-PushedOnce :
      (r : PaymentRequest) (s : Client)
      → PushedOnce daraja r s.requests (daraja_initiate_payment daraja r s).1.requests
  unfolding daraja_initiate_payment
  daraja_initiate_payment-PushedOnce r s =
      subst (λ t. PushedOnce daraja r s.requests t.requests) (sym (continue-pure _ _ _))
        (initiate_stk_push-PushedOnce daraja r s)

  -- The requests that the calls of the provider have led to.
  abbrev pub requests_after : List ProviderCall → List HttpRequest
  requests_after calls = (client_after daraja calls new_client).requests

  -- With Daraja as the provider, a push of the service sends nothing by HTTP, or it is within the
  -- limit and asks for tokens, then posts exactly its phone number, amount, reference and
  -- description at most once.
  pub initiate_stk_push_over_daraja :
      (base : Env) (settings : PaymentSettings) (push : StkPush) (w : World)
      → let env = record base { payment_provider = daraja_payment_provider daraja } in
        let v = (initiate_stk_push env settings push w).1 in
        (requests_after v.provider_calls ≡ requests_after w.provider_calls)
        ⊎ ((within : IsWithinLimit env settings push.amount push.phone_number) × PushedOnce daraja
              (request_of push within.1 within.0)
              (requests_after w.provider_calls)
              (requests_after v.provider_calls))
  initiate_stk_push_over_daraja base settings push w =
      let env = record base { payment_provider = daraja_payment_provider daraja } in
      elim (initiate_stk_push_sends env settings push w) [
        | inl e ↦ inl (ap requests_after e)
        | inr (within, e) ↦
            let r = request_of push within.1 within.0 in
            let before = client_after daraja w.provider_calls new_client in
            inr (
              within,
              subst
                  (λ calls.
                    PushedOnce daraja r (requests_after w.provider_calls) (requests_after calls))
                  (sym e)
                  (subst (λ t. PushedOnce daraja r before.requests t.requests)
                    (sym (client_after-append w.provider_calls (initiate r) new_client))
                    (daraja_initiate_payment-PushedOnce r before)),
            )
      ]
