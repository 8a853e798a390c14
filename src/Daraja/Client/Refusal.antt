-- ===== src/Daraja/Client/Refusal.antt =====
-- The calls of app/daraja/client.py while the circuit breaker refuses them.
use mpesa_mcp_server.Common.{◌≡◌, ◌∙◌, ap, String, true, List}
use mpesa_mcp_server.Common.Dict.{Dict}
use mpesa_mcp_server.Common.Json.{Json}
use mpesa_mcp_server.Payments.Providers.{PaymentRequest}
use mpesa_mcp_server.Daraja.Calls.{
  Surroundings, Call, Client, returned, raised, circuit_breaker_open, ◌>>=◌,
}
use mpesa_mcp_server.Daraja.CircuitBreaker.Refinement.{
  Event, after, UpTo, refuses, before_call_refines,
}
use mpesa_mcp_server.Daraja.Client.{check_circuit}
use mpesa_mcp_server.Daraja.Client.Silence.{Silent-check_circuit, check_circuit_refused}
use mpesa_mcp_server.Daraja.Client.Push.{initiate_stk_push}
use mpesa_mcp_server.Daraja.Client.Status.{
  check_transaction_status, transaction_status_payload, query_status, fail_status,
  failed_transaction_status_response,
}

module _ (env : Surroundings) (es : List Event) (s : Client)
    (tracked : s.circuit ≡ after env.settings.circuit_breaker es)
    (in_order : UpTo (env.clock s.clock_reads) es)
    (refused : refuses env.settings.circuit_breaker (env.clock s.clock_reads) es ≡ true) where
  refuses_now : (check_circuit env s).0 ≡ raised circuit_breaker_open
  refuses_now = check_circuit_refused env s (
      rw tracked (
        before_call_refines env.settings.circuit_breaker (env.clock s.clock_reads) es in_order
        ∙ refused))

  -- What follows a refusal is not run.
  after_refusal :
      {A : Type 0} (f : Unit {0} → Call A)
      → ((check_circuit env >>= f) s).0 ≡ raised circuit_breaker_open
  after_refusal f = rw refuses_now

  after_refusal_state :
      {A : Type 0} (f : Unit {0} → Call A)
      → ((check_circuit env >>= f) s).1 ≡ (check_circuit env s).1
  after_refusal_state f = rw refuses_now

  initiate_stk_push_refused :
      (r : PaymentRequest)
      → let (outcome, t) = initiate_stk_push env r s in
        (outcome ≡ raised circuit_breaker_open) × (t.requests ≡ s.requests)
  unfolding initiate_stk_push
  initiate_stk_push_refused r = (
    after_refusal _,
    ap (λ t. t.requests) (after_refusal_state _) ∙ (Silent-check_circuit env).at s,
  )

  query_status_refused :
      (payload : Dict Json) → (query_status env payload s).0 ≡ raised circuit_breaker_open
  unfolding query_status
  query_status_refused payload = after_refusal _

  query_status_refused_state :
      (payload : Dict Json) → (query_status env payload s).1.requests ≡ s.requests
  unfolding query_status
  query_status_refused_state payload =
      ap (λ t. t.requests) (after_refusal_state _) ∙ (Silent-check_circuit env).at s

  -- In the recovery time after a row of failures that reaches the threshold nothing is sent: a push
  -- raises that the circuit is open, and a status query whose settings are in place is answered as
  -- failed.
  pub calls_refused :
      (r : PaymentRequest) (id : String) (payload : Dict Json)
      → transaction_status_payload env id s ≡ (returned payload, s)
      → let (pushed, t) = initiate_stk_push env r s in
        let (queried, u) = check_transaction_status env id s in
        ((pushed ≡ raised circuit_breaker_open) × (t.requests ≡ s.requests))
        × (queried
            ≡ returned (
                failed_transaction_status_response id "Daraja provider circuit breaker is open."
                  "provider_unavailable"))
        × (u.requests ≡ s.requests)
  unfolding check_transaction_status fail_status
  calls_refused r id payload there = (
    initiate_stk_push_refused r,
    rw (there, query_status_refused payload),
    rw (there, query_status_refused payload) (query_status_refused_state payload),
  )
