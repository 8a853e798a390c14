-- ===== src/Daraja/Client/Push/Laws.antt =====
-- What `initiate_stk_push` of app/daraja/client.py sends.
use mpesa_mcp_server.Common.{
  ℕ, suc, ◌≤◌, ◌≡◌, refl, ap, String, none, some, List, [], ◌∷◌, ◌++◌, ◌⊎◌, inl, inr, arith,
}
use mpesa_mcp_server.Common.Int.{pos_part}
use mpesa_mcp_server.Common.Json.{str, int}
use mpesa_mcp_server.Common.Text.{concat}
use mpesa_mcp_server.Daraja.Credentials.{client_base_url}
use mpesa_mcp_server.Payments.Providers.{PaymentRequest}
use mpesa_mcp_server.Daraja.Calls.{
  Surroundings, Client, ClientError, HttpRequest, HttpResponse, HttpAnswer, response, timeout,
  connect_error, http_error, circuit_breaker_open, http_status_error, timeout_exception,
  connect_exception, http_exception, provider_error, value_error, attribute_error, pure, send,
  ◌>>=◌,
}
use mpesa_mcp_server.Daraja.Calls.Rules.{
  silent_rules, Silent, Silent-pure, Silent-raise, Silent-bind, Sends, Sends-then-Silent,
  Sends-after-Silent, Sends-after_yielding, Sends-try, Sends-bind, Yields, Yields-bind,
}
use mpesa_mcp_server.Daraja.Retries.{request_with_retries}
use mpesa_mcp_server.Daraja.Retries.Laws.{repeated, request_with_retries-Settles}
use mpesa_mcp_server.Daraja.Client.{oauth_request, read_token, get_oauth_token}
use mpesa_mcp_server.Daraja.Client.Silence.{
  Silent-or_raise, Silent-raise_for_status, Silent-required_credential, Silent-check_circuit,
  Silent-note_success, Silent-note_failure, Silent-timestamp, Silent-json_of, Silent-dict_of,
  Silent-http_error_description,
}
use mpesa_mcp_server.Daraja.Client.Push.{
  fail_push, fail_post, build_stk_password, push_request, of_answer, post_push, push_response,
  push_token, prepare_push, perform_push, initiate_stk_push,
}

module _ (env : Surroundings) where
  -- Requests that follow others: the same request for a token, with the credentials, some times.
  abbrev pub AsksForToken : List HttpRequest → List HttpRequest → Type 0
  AsksForToken before after =
      (k : ℕ) × (k ≤ suc (pos_part env.settings.daraja_max_retries))
      × (consumer_key : String) × (consumer_secret : String) × (after
          ≡ repeated k
              (record {
                method = "GET";
                url = concat (client_base_url env ∷ "/oauth/v1/generate" ∷ []);
                headers = [];
                params = ("grant_type", "client_credentials") ∷ [];
                auth = some (consumer_key, consumer_secret);
                json = [];
              })
              before)

  AsksForToken-refl : (requests : List HttpRequest) → AsksForToken requests requests
  AsksForToken-refl requests = (0, omega arith, "", "", refl)

  -- What remains of the token's call after the request sends nothing.
  Silent-read_token : (r : HttpResponse) → Silent (read_token env r)
  unfolding read_token
  Silent-read_token r = Silent-bind _ _ (Silent-raise_for_status r) (λ u.
      Silent-bind _ _ (Silent-json_of r)
        (λ document. Silent-bind _ _ (Silent-dict_of document) (λ payload. Silent-or_raise _ _)))

  retries-AsksForToken :
      (consumer_key consumer_secret : String)
      → Sends AsksForToken
          (request_with_retries env (oauth_request env consumer_key consumer_secret))
  retries-AsksForToken consumer_key consumer_secret = record {
    at = λ s.
        let request = oauth_request env consumer_key consumer_secret in
        let (k, settles) = request_with_retries-Settles env request s in
        (
          suc k,
          omega (arith, settles.bounded),
          consumer_key,
          consumer_secret,
          ap (λ t. t.1.requests) settles.ends,
        );
  }

  get_oauth_token-AsksForToken : Sends AsksForToken (get_oauth_token env)
  unfolding get_oauth_token
  get_oauth_token-AsksForToken =
      Sends-after-Silent AsksForToken _ _ AsksForToken-refl (Silent-required_credential env _)
        (λ consumer_key.
          Sends-after-Silent AsksForToken _ _ AsksForToken-refl (Silent-required_credential env _)
            (λ consumer_secret.
              Sends-then-Silent AsksForToken _ _ (retries-AsksForToken consumer_key consumer_secret)
                Silent-read_token))

  Silent-fail_push :
      {A : Type 0} (timed_out failed : String) (e : ClientError)
      → Silent (fail_push env {A = A} timed_out failed e)
  Silent-fail_push timed_out failed (http_status_error r) =
      Silent-bind _ _ (Silent-note_failure env)
        (λ u. Silent-bind _ _ (Silent-http_error_description env r) (λ d. Silent-raise _))
  Silent-fail_push timed_out failed (timeout_exception text) =
      Silent-bind _ _ (Silent-note_failure env) (λ u. Silent-raise _)
  Silent-fail_push timed_out failed (connect_exception text) =
      Silent-bind _ _ (Silent-note_failure env) (λ u. Silent-raise _)
  Silent-fail_push timed_out failed (http_exception text) =
      Silent-bind _ _ (Silent-note_failure env) (λ u. Silent-raise _)
  Silent-fail_push timed_out failed circuit_breaker_open = Silent-raise _
  Silent-fail_push timed_out failed (provider_error message category) = Silent-raise _
  Silent-fail_push timed_out failed (value_error text) = Silent-raise _
  Silent-fail_push timed_out failed attribute_error = Silent-raise _

  Silent-fail_post : (e : ClientError) → Silent (fail_post env e)
  Silent-fail_post (value_error text) =
      Silent-bind _ _ (Silent-note_failure env) (λ u. Silent-raise _)
  Silent-fail_post (http_status_error r) =
      Silent-fail_push "Daraja STK push request timed out." "Daraja STK push request failed: "
        (http_status_error r)
  Silent-fail_post (timeout_exception text) =
      Silent-fail_push "Daraja STK push request timed out." "Daraja STK push request failed: "
        (timeout_exception text)
  Silent-fail_post (connect_exception text) =
      Silent-fail_push "Daraja STK push request timed out." "Daraja STK push request failed: "
        (connect_exception text)
  Silent-fail_post (http_exception text) =
      Silent-fail_push "Daraja STK push request timed out." "Daraja STK push request failed: "
        (http_exception text)
  Silent-fail_post circuit_breaker_open = Silent-raise _
  Silent-fail_post (provider_error message category) = Silent-raise _
  Silent-fail_post attribute_error = Silent-raise _

  push_token-AsksForToken : Sends AsksForToken (push_token env)
  unfolding push_token
  push_token-AsksForToken =
      Sends-try AsksForToken _ _ get_oauth_token-AsksForToken (Silent-fail_push _ _)

  -- The request of a push of this payment: a bearer token in the header, and in the body the
  -- payment's amount, its phone number as the payer, and its reference and description.
  abbrev pub IsPush : PaymentRequest → HttpRequest → Type 0
  IsPush r request =
      (token shortcode password timestamp callback_url : String) × (request ≡ record {
        method = "POST";
        url = concat (client_base_url env ∷ "/mpesa/stkpush/v1/processrequest" ∷ []);
        headers = ("Authorization", concat ("Bearer " ∷ token ∷ [])) ∷ [];
        params = [];
        auth = none;
        json =
            ("BusinessShortCode", str shortcode)
            ∷ ("Password", str password)
            ∷ ("Timestamp", str timestamp)
            ∷ ("TransactionType", str "CustomerPayBillOnline")
            ∷ ("Amount", int r.amount)
            ∷ ("PartyA", str r.phone_number)
            ∷ ("PartyB", str shortcode)
            ∷ ("PhoneNumber", str r.phone_number)
            ∷ ("CallBackURL", str callback_url)
            ∷ ("AccountReference", str r.account_reference)
            ∷ ("TransactionDesc", str r.description)
            ∷ [];
      })

  Silent-build_stk_password : (time : String) → Silent (build_stk_password env time)
  unfolding build_stk_password
  Silent-build_stk_password time = search (silent_rules, Silent-required_credential env)

  Silent-prepare_push : (token : String) (r : PaymentRequest) → Silent (prepare_push env token r)
  unfolding prepare_push
  Silent-prepare_push token r = Silent-bind _ _ (Silent-timestamp env) (λ time.
      Silent-bind _ _ (Silent-required_credential env "shortcode") (λ shortcode.
        Silent-bind _ _ (Silent-build_stk_password time) (λ password.
          Silent-bind _ _ (Silent-required_credential env "callback_url")
            (λ url. Silent-pure (push_request env token r shortcode password time url)))))

  prepare_push-IsPush :
      (token : String) (r : PaymentRequest) → Yields (IsPush r) (prepare_push env token r)
  unfolding prepare_push
  prepare_push-IsPush token r = search (Yields-bind, pure_push)
    where
      pure_push :
          (shortcode password time callback_url : String)
          → Yields (IsPush r) (pure (push_request env token r shortcode password time callback_url))
      pure_push shortcode password time callback_url = record {
        at = λ s. (token, shortcode, password, time, callback_url, refl);
      }

  -- One request more.
  abbrev pub Adds : HttpRequest → List HttpRequest → List HttpRequest → Type 0
  Adds request before after = after ≡ before ++ request ∷ []

  Silent-of_answer : (answer : HttpAnswer) → Silent (of_answer env answer)
  Silent-of_answer (response r) = Silent-pure _
  Silent-of_answer (timeout text) = Silent-raise _
  Silent-of_answer (connect_error text) = Silent-raise _
  Silent-of_answer (http_error text) = Silent-raise _

  send-Adds : (request : HttpRequest) → Sends (Adds request) (send env request)
  unfolding send
  send-Adds request = record { at = λ s. refl }

  post_push-Adds : (request : HttpRequest) → Sends (Adds request) (post_push env request)
  unfolding post_push
  post_push-Adds request = Sends-then-Silent (Adds request) _ _ (send-Adds request) (λ answer.
      Silent-bind _ _ (Silent-of_answer answer)
        (λ r. Silent-bind _ _ (Silent-raise_for_status r) (λ u. Silent-json_of r)))

  perform_push-Adds : (request : HttpRequest) → Sends (Adds request) (perform_push env request)
  unfolding perform_push
  perform_push-Adds request =
      Sends-then-Silent (Adds request) _ _
        (Sends-try (Adds request) _ _ (post_push-Adds request) Silent-fail_post)
        (λ document. Silent-bind _ _ (Silent-note_success env) (λ u.
          Silent-bind _ _ (Silent-dict_of document)
            (λ payload. Silent-pure (push_response env payload))))

  module _ (r : PaymentRequest) where
    -- Nothing, or one push of the payment.
    abbrev pub AtMostOnePush : List HttpRequest → List HttpRequest → Type 0
    AtMostOnePush before after =
        (after ≡ before) ⊎ ((request : HttpRequest) × IsPush r request × Adds request before after)

    push-AtMostOnePush :
        (token : String) → Sends AtMostOnePush (prepare_push env token r >>= perform_push env)
    push-AtMostOnePush token =
        Sends-after_yielding AtMostOnePush (IsPush r) _ _ (λ requests. inl refl)
          (Silent-prepare_push token r) (prepare_push-IsPush token r)
          (λ request is_push. record {
            at = λ s. inr (request, is_push, (perform_push-Adds request).at s);
          })

    -- Requests for a token, then at most one push of the payment.
    abbrev pub PushedOnce : List HttpRequest → List HttpRequest → Type 0
    PushedOnce before after =
        (middle : List HttpRequest) × AsksForToken before middle × AtMostOnePush middle after

    -- However the requests end, a call of `initiate_stk_push` only asks for a token, at most once
    -- more often than the setting of the retries says, and then sends the push of the payment at
    -- most once: a payment is never sent again.
    pub initiate_stk_push-PushedOnce :
        (s : Client) → PushedOnce s.requests (initiate_stk_push env r s).1.requests
    unfolding initiate_stk_push
    initiate_stk_push-PushedOnce s =
        (Sends-after-Silent PushedOnce _ _
            (λ requests. (requests, AsksForToken-refl requests, inl refl))
            (Silent-check_circuit env)
            (λ u.
              Sends-bind AsksForToken AtMostOnePush PushedOnce _ _ push_token-AsksForToken
                push-AtMostOnePush (λ before after asks. (after, asks, inl refl))
                (λ before middle after asks once. (middle, asks, once)))).at
          s
