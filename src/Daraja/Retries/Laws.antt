-- ===== src/Daraja/Retries/Laws.antt =====
-- The retry loop of app/daraja/client.py ends with the first answer that is not worth a retry, or
-- with the last one that it may ask for.
use mpesa_mcp_server.Common.{
  ℕ, zero, suc, ◌+◌, ◌*◌, ◌≤◌, ◌<◌, ◌≡◌, refl, ◌∙◌, ap, Bool, true, false, Option, none, some, List,
  [], ◌∷◌, ◌++◌, ◌⊎◌, inl, inr, arith, Bool-cases,
}
use mpesa_mcp_server.Common.Int.{pos, pos_part, ltb_ℤ}
use mpesa_mcp_server.Daraja.Calls.{
  Surroundings, Client, Call, Outcome, returned, raised, ClientError, HttpRequest, HttpResponse,
  HttpAnswer, response, timeout, connect_error, http_error, timeout_exception, connect_exception,
  http_exception, send,
}
use mpesa_mcp_server.Daraja.Retries.{
  retry_http_statuses, has_status, is_positive, sleep_then, after_attempt, request_rounds,
  request_with_retries,
}

-- The requests after a request has been sent some times more.
abbrev pub repeated : ℕ → HttpRequest → List HttpRequest → List HttpRequest
repeated zero request requests = requests
repeated (suc n) request requests = repeated n request (requests ++ request ∷ [])

-- An answer that is worth a retry.
abbrev pub is_transient : HttpAnswer → Bool
is_transient (response r) = has_status retry_http_statuses r.status_code
is_transient (timeout text) = true
is_transient (connect_error text) = true
is_transient (http_error text) = false

-- What a call makes of the answer that it does not retry.
abbrev pub outcome_of : HttpAnswer → Outcome HttpResponse
outcome_of (response r) = returned r
outcome_of (timeout text) = raised (timeout_exception text)
outcome_of (connect_error text) = raised (connect_exception text)
outcome_of (http_error text) = raised (http_exception text)

module _ (env : Surroundings) (request : HttpRequest) where
  -- How the request ends when it has been sent so often in a row.
  abbrev pub nth_answer : ℕ → Client → HttpAnswer
  nth_answer i s = env.send (repeated i request s.requests) request

  -- The client after the request has been sent once, and again after so many waits.
  abbrev pub sent_again : ℕ → Client → Client
  sent_again k s = record s {
    requests = repeated (suc k) request s.requests;
    slept = s.slept + k * pos_part env.settings.daraja_retry_backoff;
  }

  -- A loop that retries `k` of at most `left` times.
  pub record Settles (left k : ℕ) (s : Client) (end : Outcome HttpResponse × Client) : Type 0 where
    pub bounded : k ≤ left
    pub transient : (i : ℕ) → i < k → is_transient (nth_answer i s) ≡ true
    pub final : (k ≡ left) ⊎ (is_transient (nth_answer k s) ≡ false)
    pub ends : end ≡ (outcome_of (nth_answer k s), sent_again k s)

  abbrev after_send : Client → Client
  after_send s = record s { requests = s.requests ++ request ∷ [] }

  abbrev after_wait : Client → Client
  after_wait s = record s {
    requests = s.requests ++ request ∷ [];
    slept = s.slept + pos_part env.settings.daraja_retry_backoff;
  }

  -- A round that is the last.
  stops :
      (more : Bool) (last_exc : Option ClientError) (again : Option ClientError → Call HttpResponse)
      (answer : HttpAnswer) (s : Client)
      → (more ≡ false) ⊎ (is_transient answer ≡ false)
      → after_attempt env more last_exc again answer s ≡ (outcome_of answer, s)
  unfolding after_attempt
  stops more last_exc again (response r) s h = ground arith
  stops more last_exc again (timeout text) s h = ground arith
  stops more last_exc again (connect_error text) s h = ground arith
  stops more last_exc again (http_error text) s h = refl

  -- A round that goes on.
  goes_on :
      (last_exc : Option ClientError) (again : Option ClientError → Call HttpResponse)
      (answer : HttpAnswer) (s : Client)
      → is_transient answer ≡ true
      → (e : Option ClientError) × (after_attempt env true last_exc again answer s
          ≡ sleep_then env (again e) s)
  unfolding after_attempt
  goes_on last_exc again (response r) s h = (last_exc, ground arith)
  goes_on last_exc again (timeout text) s h = (some (timeout_exception text), refl)
  goes_on last_exc again (connect_error text) s h = (some (connect_exception text), refl)
  goes_on last_exc again (http_error text) s h = absurd (cc)

  sleep_then_lem :
      (again : Call HttpResponse) (s : Client)
      → sleep_then env again (after_send s) ≡ again (after_wait s)
  unfolding sleep_then
  sleep_then_lem again s = elim (Bool-cases (ltb_ℤ (pos 0) env.settings.daraja_retry_backoff)) [
    | inl waits ↦ rw waits
    | inr none_left ↦
        rw none_left (ap again (ap (λ n. record (after_send s) { slept = n }) (ground arith)))
  ]

  no_round : {P : Type 0} (left : ℕ) → (is_positive env left ≡ false) ⊎ P → (0 ≡ left) ⊎ P
  no_round zero h = inl refl
  no_round (suc left) (inl h) = absurd (cc)
  no_round (suc left) (inr p) = inr p

  settle_transient :
      (s : Client)
      → is_transient (nth_answer 0 s) ≡ true
      → (k : ℕ) → ((i : ℕ) → i < k → is_transient (nth_answer i (after_wait s)) ≡ true)
      → (i : ℕ) → i < suc k
      → is_transient (nth_answer i s) ≡ true
  settle_transient s t k later zero lt = t
  settle_transient s t k later (suc i) lt = later i (omega (arith, lt))

  settle_now :
      (left : ℕ) (last_exc : Option ClientError) (s : Client)
      → (is_positive env left ≡ false) ⊎ (is_transient (nth_answer 0 s) ≡ false)
      → Settles left 0 s (request_rounds env (suc left) request last_exc s)
  unfolding request_rounds send
  settle_now left last_exc s h = record {
    bounded = omega arith;
    transient = λ i lt. absurd (omega (arith, lt));
    final = no_round left h;
    ends =
        stops _ last_exc (request_rounds env left request) (nth_answer 0 s) (after_send s) h
        ∙ ap (λ n. (outcome_of (nth_answer 0 s), record (after_send s) { slept = n }))
            (omega arith);
  }

  settle_later :
      (left k : ℕ) (s : Client) (end : Outcome HttpResponse × Client)
      → is_transient (nth_answer 0 s) ≡ true
      → Settles left k (after_wait s) end
      → Settles (suc left) (suc k) s end
  settle_later left k s end t later = record {
    bounded = omega (arith, later.bounded);
    transient = settle_transient s t k later.transient;
    final = ground (arith, later.final);
    ends =
        later.ends
        ∙ ap (λ n. (outcome_of (nth_answer (suc k) s), record (sent_again (suc k) s) { slept = n }))
            (grind arith);
  }

  request_rounds_sends :
      (left : ℕ) (last_exc : Option ClientError) (s : Client)
      → request_rounds env (suc (suc left)) request last_exc s
        ≡ after_attempt env true last_exc
            (request_rounds env (suc left) request)
            (nth_answer 0 s)
            (after_send s)
  unfolding request_rounds send
  request_rounds_sends left last_exc s = refl

  -- The call of a loop with rounds left, when the first answer is worth a retry.
  request_rounds_again :
      (left : ℕ) (last_exc : Option ClientError) (s : Client)
      → is_transient (nth_answer 0 s) ≡ true
      → (e : Option ClientError) × (request_rounds env (suc (suc left)) request last_exc s
          ≡ request_rounds env (suc left) request e (after_wait s))
  request_rounds_again left last_exc s t =
      let again = request_rounds env (suc left) request in
      let (e, goes) = goes_on last_exc again (nth_answer 0 s) (after_send s) t in
      (e, request_rounds_sends left last_exc s ∙ goes ∙ sleep_then_lem (again e) s)

  pub rounds-Settles :
      (left : ℕ) (last_exc : Option ClientError) (s : Client)
      → (k : ℕ) × Settles left k s (request_rounds env (suc left) request last_exc s)
  rounds-Settles zero last_exc s = (0, settle_now zero last_exc s (inl refl))
  rounds-Settles (suc left) last_exc s = elim (Bool-cases (is_transient (nth_answer 0 s))) [
    | inr last ↦ (0, settle_now (suc left) last_exc s (inr last))
    | inl again ↦
        let (e, same) = request_rounds_again left last_exc s again in
        let (k, later) = rounds-Settles left e (after_wait s) in
        (suc k, settle_later left k s _ again (rw same later))
  ]

  -- A call asks for the answers one after the other, waiting before each retry: it ends with the
  -- first that is not worth a retry, or with the last one that the setting allows, and makes of it
  -- a response or the exception of httpx.
  pub request_with_retries-Settles :
      (s : Client)
      → (k : ℕ) × Settles
          (pos_part env.settings.daraja_max_retries)
          k
          s
          (request_with_retries env request s)
  unfolding request_with_retries
  request_with_retries-Settles s = rounds-Settles (pos_part env.settings.daraja_max_retries) none s
