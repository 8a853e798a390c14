-- ===== src/Daraja/Client/Status/Laws.antt =====
-- How `check_transaction_status` of app/daraja/client.py ends.
use mpesa_mcp_server.Common.{
  ◌≡◌, refl, String, Option, none, some, List, ◌==◌, if◌then◌else◌, Option-cases, inl, inr,
}
use mpesa_mcp_server.Common.Dict.{Dict}
use mpesa_mcp_server.Common.Json.{Json, as_dict}
use mpesa_mcp_server.Daraja.Calls.{
  Surroundings, Client, ClientError, HttpRequest, Outcome, returned, raised, HttpResponse,
  circuit_breaker_open, http_status_error, timeout_exception, connect_exception, http_exception,
  provider_error, value_error, attribute_error, pure, ◌>>=◌,
}
use mpesa_mcp_server.Daraja.Calls.Ends.{Ended}
use mpesa_mcp_server.Daraja.Client.{note_failure, http_error_description, describe_document}
use mpesa_mcp_server.Daraja.Client.Blame.{
  IsLast, Malformed, Blames, HasDocument, Explained-query_status,
}
use mpesa_mcp_server.Daraja.Client.Status.{
  TransactionStatusResponse, failed_transaction_status_response, fail_status, read_status, or_fail,
  check_transaction_status, transaction_status_payload,
}

module _ (env : Surroundings) where
  -- An answer for this request, with a status by its result code; or the exception for a document
  -- that is not a dict, if the last request has been answered with one.
  abbrev pub Answers : String → Outcome TransactionStatusResponse → List HttpRequest → Type 0
  Answers id (returned r) requests =
      (r.checkout_request_id ≡ id)
      × (r.status ≡ (if r.result_code == "0" then "query_accepted" else "failed"))
  Answers id (raised attribute_error) requests = Malformed env requests
  Answers id (raised _) requests = ⊥

  described-Answers :
      (id category : String) (r : HttpResponse) (document : Option Json) (s : Client)
      → IsLast env r s.requests
      → r.json ≡ document
      → let (outcome, t) =
          (describe_document env r document >>= λ description.
          pure (failed_transaction_status_response id description category))
            s in
        Answers id outcome t.requests
  described-Answers id category r none s last there = (refl, refl)
  described-Answers id category r (some document) s last there =
      elim (Option-cases (as_dict document)) [
        | inl missing ↦ rw missing (r, document, last, there, missing)
        | inr (payload, dict) ↦ rw dict (refl, refl)
      ]

  fail_status-Answers :
      (id : String) (e : ClientError) (s : Client)
      → Blames env e s.requests
      → let (outcome, t) = fail_status env id e s in Answers id outcome t.requests
  unfolding fail_status http_error_description note_failure
  fail_status-Answers id (http_status_error r) s h = described-Answers id _ r r.json _ h refl
  fail_status-Answers id (timeout_exception text) s h = (refl, refl)
  fail_status-Answers id (connect_exception text) s h = (refl, refl)
  fail_status-Answers id (http_exception text) s h = (refl, refl)
  fail_status-Answers id circuit_breaker_open s h = (refl, refl)
  fail_status-Answers id (value_error text) s h = (refl, refl)
  fail_status-Answers id (provider_error message category) s h = absurd h
  fail_status-Answers id attribute_error s h = h

  read_status-Answers :
      (id : String) (document : Json) (s : Client)
      → HasDocument env document s.requests
      → let (outcome, t) = read_status env id document s in Answers id outcome t.requests
  unfolding read_status
  read_status-Answers id document s (r, last, there) = elim (Option-cases (as_dict document)) [
    | inl missing ↦ rw missing (r, document, last, there, missing)
    | inr (payload, dict) ↦ rw dict (refl, refl)
  ]

  or_fail-Answers :
      (id : String) (outcome : Outcome Json) (s : Client)
      → Ended (Blames env) (HasDocument env) outcome s.requests
      → let (answer, t) = or_fail env id outcome s in Answers id answer t.requests
  or_fail-Answers id (returned document) s h = read_status-Answers id document s h
  or_fail-Answers id (raised e) s h = fail_status-Answers id e s h

  -- With its settings in place, `check_transaction_status` answers for the request that it is
  -- asked about, with the status query_accepted if the result code is "0" and failed otherwise: a
  -- timeout, an error of HTTP, an open circuit, a missing credential and a document that is not
  -- JSON all become an answer. It raises only if the last request that has been sent was answered
  -- with a document that is JSON but not a dict, and then for having no `get`.
  pub check_transaction_status-Answers :
      (id : String) (s : Client) (payload : Dict Json)
      → transaction_status_payload env id s ≡ (returned payload, s)
      → let (outcome, t) = check_transaction_status env id s in Answers id outcome t.requests
  unfolding check_transaction_status
  check_transaction_status-Answers id s payload there =
      rw there (or_fail-Answers id _ _ ((Explained-query_status env payload).at s tt))
