-- ===== src/Daraja/Retries.antt =====
-- `_request_with_retries` of app/daraja/client.py.
pub mod Laws
use mpesa_mcp_server.Common.{
  ℕ, zero, suc, ◌+◌, Bool, true, false, ◌&&◌, Option, none, some, List, [], ◌∷◌, eqb, if◌then◌else◌,
}
use mpesa_mcp_server.Common.Int.{ℤ, pos, pos_part, ltb_ℤ}
use mpesa_mcp_server.Daraja.Calls.{
  Surroundings, Client, Call, ClientError, HttpRequest, HttpResponse, HttpAnswer, response, timeout,
  connect_error, http_error, timeout_exception, connect_exception, http_exception, provider_error,
  pure, raise, modify, send, ◌>>=◌, ◌>>◌,
}

-- `{502, 503, 504}`
abbrev pub retry_http_statuses : List ℕ
retry_http_statuses = 502 ∷ 503 ∷ 504 ∷ []

abbrev pub has_status : List ℕ → ℕ → Bool
has_status [] code = false
has_status (status ∷ statuses) code = if eqb status code then true else has_status statuses code

-- `if last_exc is not None: raise last_exc`, and what follows
abbrev pub give_up : Option ClientError → Call HttpResponse
give_up (some last_exc) = raise last_exc
give_up none = raise (provider_error "Daraja request failed." "unknown_error")

module _ (env : Surroundings) where
  -- `_sleep_between_retries`
  unfoldable pub sleep_between_retries : Call (Unit {0})
  sleep_between_retries =
      if ltb_ℤ (pos 0) env.settings.daraja_retry_backoff
      then modify (λ s. record s { slept = s.slept + pos_part env.settings.daraja_retry_backoff })
      else pure tt

  -- A sleep, then the next round of the loop.
  unfoldable pub sleep_then : Call HttpResponse → Call HttpResponse
  unfolding sleep_between_retries
  sleep_then again = do sleep_between_retries; again

  -- The rest of a round, by how the request ended: `more` says that `attempt < attempts - 1`, and
  -- `again` goes on with the loop, with its new `last_exc`.
  unfoldable pub after_attempt :
      Bool
      → Option ClientError
      → (Option ClientError → Call HttpResponse)
      → HttpAnswer
      → Call HttpResponse
  unfolding sleep_then
  after_attempt more last_exc again (timeout text) =
      if more
      then sleep_then (again (some (timeout_exception text)))
      else raise (timeout_exception text)
  after_attempt more last_exc again (connect_error text) =
      if more
      then sleep_then (again (some (connect_exception text)))
      else raise (connect_exception text)
  after_attempt more last_exc again (http_error text) = raise (http_exception text)
  after_attempt more last_exc again (response r) =
      if has_status retry_http_statuses r.status_code && more
      then sleep_then (again last_exc)
      else pure r

  abbrev pub is_positive : ℕ → Bool
  is_positive zero = false
  is_positive (suc n) = true

  -- The loop, from the number of rounds that are left.
  unfoldable pub request_rounds : ℕ → HttpRequest → Option ClientError → Call HttpResponse
  unfolding after_attempt
  request_rounds zero request last_exc = give_up last_exc
  request_rounds (suc left) request last_exc = do
    answer ← send env request
    after_attempt (is_positive left) last_exc (request_rounds left request) answer

  -- `_request_with_retries`: `max(0, retries) + 1` rounds
  unfoldable pub request_with_retries : HttpRequest → Call HttpResponse
  unfolding request_rounds
  request_with_retries request =
      request_rounds (suc (pos_part env.settings.daraja_max_retries)) request none
