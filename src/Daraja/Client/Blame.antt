-- ===== src/Daraja/Client/Blame.antt =====
-- Which answer of the provider an exception of app/daraja/client.py is about: that to the last
-- request that has been sent.
use mpesa_mcp_server.Common.{
  ℕ, zero, suc, ◌≡◌, refl, sym, subst, String, Bool, true, false, none, some, List, [], ◌∷◌, ◌++◌,
}
use mpesa_mcp_server.Common.Json.{Json, as_dict}
use mpesa_mcp_server.Daraja.Calls.{
  Surroundings, Client, Call, ClientError, HttpRequest, HttpResponse, HttpAnswer, response, timeout,
  connect_error, http_error, http_status_error, timeout_exception, connect_exception,
  http_exception, circuit_breaker_open, provider_error, value_error, attribute_error, pure, ◌>>=◌,
  ◌>>◌,
}
use mpesa_mcp_server.Daraja.Calls.Ends.{
  Sent, Ended, Ends, Ends-bind, Ends-if, Ends-or_raise, Ends-weaken,
}
use mpesa_mcp_server.Daraja.Retries.{request_with_retries}
use mpesa_mcp_server.Daraja.Retries.Laws.{repeated, outcome_of, request_with_retries-Settles}
use mpesa_mcp_server.Daraja.Client.{
  read_token, oauth_request, get_oauth_token, raise_for_status, json_of, dict_of, check_circuit,
  refuse, note_success,
}
use mpesa_mcp_server.Daraja.Credentials.{required_credential}
use mpesa_mcp_server.Daraja.Client.Status.{query_status, status_request}
use mpesa_mcp_server.Common.Dict.{Dict}

repeated_last :
    (k : ℕ) (request : HttpRequest) (requests : List HttpRequest)
    → repeated (suc k) request requests ≡ repeated k request requests ++ request ∷ []
repeated_last zero request requests = refl
repeated_last (suc k) request requests = repeated_last k request (requests ++ request ∷ [])

module _ (env : Surroundings) where
  -- The last request has been answered with this response.
  abbrev pub IsLast : HttpResponse → Sent
  IsLast r requests =
      (earlier : List HttpRequest) × (request : HttpRequest) × (requests ≡ earlier ++ request ∷ [])
      × (env.send earlier request ≡ response r)

  -- The last response's document is JSON but not a dict.
  abbrev pub Malformed : Sent
  Malformed requests =
      (r : HttpResponse) × (document : Json) × IsLast r requests
      × (r.json ≡ some document)
      × (as_dict document ≡ none)

  -- What each exception says of the requests; nothing raises `DarajaProviderError`.
  abbrev pub Blames : ClientError → Sent
  Blames (http_status_error r) = IsLast r
  Blames (timeout_exception text) = λ requests. Unit
  Blames (connect_exception text) = λ requests. Unit
  Blames (http_exception text) = λ requests. Unit
  Blames circuit_breaker_open = λ requests. Unit
  Blames (provider_error message category) = λ requests. ⊥
  Blames (value_error text) = λ requests. Unit
  Blames attribute_error = Malformed

  abbrev pub Any : {A : Type 0} → A → Sent
  Any a requests = Unit

  -- A call that ends with its exceptions explained.
  abbrev pub Explained : {A : Type 0} → Sent → Call A → (A → Sent) → Type 0
  Explained P m Q = Ends Blames P m Q

  -- A response whose document this is.
  abbrev pub HasDocument : Json → Sent
  HasDocument document requests = (r : HttpResponse) × IsLast r requests × (r.json ≡ some document)

  pub Explained-check_circuit : Explained (Any tt) (check_circuit env) Any
  unfolding check_circuit
  Explained-check_circuit = record { at = λ s p. refused _ _ }
    where
      refused :
          (b : Bool) (s : Client) → Ended Blames Any (refuse env b s).0 (refuse env b s).1.requests
      refused true s = tt
      refused false s = tt

  answer_told :
      (answer : HttpAnswer) (earlier : List HttpRequest) (request : HttpRequest)
      (requests : List HttpRequest)
      → requests ≡ earlier ++ request ∷ []
      → env.send earlier request ≡ answer
      → Ended Blames IsLast (outcome_of answer) requests
  answer_told (response r) earlier request requests last sent = (earlier, request, last, sent)
  answer_told (timeout text) earlier request requests last sent = tt
  answer_told (connect_error text) earlier request requests last sent = tt
  answer_told (http_error text) earlier request requests last sent = tt

  pub Explained-request_with_retries :
      (request : HttpRequest) → Explained (Any tt) (request_with_retries env request) IsLast
  Explained-request_with_retries request = record {
    at = λ s p.
        let (k, settles) = request_with_retries-Settles env request s in
        subst (λ end. Ended Blames IsLast end.0 end.1.requests) (sym settles.ends)
          (answer_told _ (repeated k request s.requests) request _
            (repeated_last k request s.requests) refl);
  }

  pub Explained-raise_for_status :
      (r : HttpResponse) → Explained (IsLast r) (raise_for_status r) (λ u. IsLast r)
  Explained-raise_for_status r =
      Ends-if Blames (IsLast r) _ r.is_success _ _ (record { at = λ s p. p })
        (record { at = λ s p. p })

  Explained-json_of : (r : HttpResponse) → Explained (IsLast r) (json_of r) HasDocument
  Explained-json_of r =
      Ends-weaken Blames (IsLast r) _ HasDocument (json_of r)
        (λ document requests (last, there). (r, last, there))
        (Ends-or_raise Blames (IsLast r) (value_error _) r.json (λ requests last missing. tt))

  pub Explained-dict_of :
      (document : Json) → Explained (HasDocument document) (dict_of document) Any
  Explained-dict_of document =
      Ends-weaken Blames (HasDocument document) _ Any (dict_of document) (λ payload requests q. tt)
        (Ends-or_raise Blames (HasDocument document) attribute_error (as_dict document)
          (λ requests (r, last, there) missing. (r, document, last, there, missing)))

  -- What is left to do with a response.
  Explained-document :
      {A : Type 0} (Q : A → Sent) (r : HttpResponse) (f : Json → Call A)
      → ((document : Json) → Explained (HasDocument document) (f document) Q)
      → Explained (IsLast r) (raise_for_status r >>= λ u. json_of r >>= f) Q
  Explained-document Q r f hf =
      Ends-bind Blames (IsLast r) (λ u. IsLast r) Q _ _ (Explained-raise_for_status r)
        (λ u. Ends-bind Blames (IsLast r) HasDocument Q _ _ (Explained-json_of r) hf)

  Explained-read_token : (r : HttpResponse) → Explained (IsLast r) (read_token env r) Any
  unfolding read_token
  Explained-read_token r = Explained-document Any r _ (λ document.
      Ends-bind Blames (HasDocument document) Any Any _ _ (Explained-dict_of document) (λ payload.
        Ends-weaken Blames (Any payload) _ Any _ (λ token requests q. tt)
          (Ends-or_raise Blames (Any payload) (value_error _) _ (λ requests q missing. tt))))

  Explained-required_credential :
      (name : String) → Explained (Any tt) (required_credential env name) Any
  unfolding required_credential
  Explained-required_credential name =
      Ends-weaken Blames (Any tt) _ Any _ (λ text requests q. tt)
        (Ends-or_raise Blames (Any tt) (value_error _) _ (λ requests q missing. tt))

  Explained-get_oauth_token : Explained (Any tt) (get_oauth_token env) Any
  unfolding get_oauth_token
  Explained-get_oauth_token =
      Ends-bind Blames (Any tt) Any Any _ _ (Explained-required_credential "consumer_key")
        (λ consumer_key.
          Ends-bind Blames (Any tt) Any Any _ _ (Explained-required_credential "consumer_secret")
            (λ consumer_secret.
              Ends-bind Blames (Any tt) IsLast Any _ _
                (Explained-request_with_retries (oauth_request env consumer_key consumer_secret))
                Explained-read_token))

  Explained-note_success :
      (document : Json)
      → Explained (HasDocument document) (note_success env >> pure document) HasDocument
  unfolding note_success
  Explained-note_success document = record { at = λ s p. p }

  pub Explained-query_status :
      (payload : Dict Json) → Explained (Any tt) (query_status env payload) HasDocument
  unfolding query_status
  Explained-query_status payload =
      Ends-bind Blames (Any tt) Any HasDocument _ _ Explained-check_circuit (λ u.
        Ends-bind Blames (Any tt) Any HasDocument _ _ Explained-get_oauth_token (λ token.
          Ends-bind Blames (Any tt) IsLast HasDocument _ _
            (Explained-request_with_retries (status_request env token payload))
            (λ r. Explained-document HasDocument r _ Explained-note_success)))
