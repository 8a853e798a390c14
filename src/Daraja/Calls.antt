-- ===== src/Daraja/Calls.antt =====
-- What the client of app/daraja/client.py takes from outside and keeps: the settings, httpx, the
-- clocks and the requests that it has sent; and its calls, which return or raise.
pub mod Rules
pub mod Ends
use mpesa_mcp_server.Common.{
  ℕ, suc, ◌+◌, String, Bool, Option, List, ◌∷◌, [], ◌++◌, ◌≡◌, refl, ◌⊎◌, inl, inr,
}
use mpesa_mcp_server.Common.Int.{ℤ, pos_part}
use mpesa_mcp_server.Common.Dict.{Dict}
use mpesa_mcp_server.Common.Json.{Json}
use mpesa_mcp_server.Callbacks.Payload.{Builtins}
use mpesa_mcp_server.Daraja.CircuitBreaker.{
  CircuitBreakerSettings, DarajaCircuitBreaker, new_circuit_breaker,
}

-- An `httpx.Response`: `json` is `none` where `response.json()` raises ValueError; `is_success`
-- says that `raise_for_status` does not raise, and `error_text` is the text of what it raises.
pub record HttpResponse : Type 0 where
  pub status_code : ℕ
  pub is_success : Bool
  pub error_text : String
  pub json : Option Json

pub record HttpRequest : Type 0 where
  pub method : String
  pub url : String
  pub headers : Dict String
  pub params : Dict String
  pub auth : Option (String × String)
  pub json : Dict Json

-- How a request ends, with the text of an exception.
pub data HttpAnswer : Type 0 where
  response : HttpResponse → HttpAnswer
  timeout : String → HttpAnswer
  connect_error : String → HttpAnswer
  -- any other `httpx.HTTPError` of a request
  http_error : String → HttpAnswer

-- The exceptions that a call lets through.
pub data ClientError : Type 0 where
  http_status_error : HttpResponse → ClientError
  timeout_exception : String → ClientError
  connect_exception : String → ClientError
  http_exception : String → ClientError
  circuit_breaker_open : ClientError
  -- `DarajaProviderError(message, error_category)`
  provider_error : String → String → ClientError
  value_error : String → ClientError
  -- a value of a document is not a dict, and has no `get`
  attribute_error : ClientError

pub data Outcome {ℓ} (A : Type ℓ) : Type ℓ where
  returned : A → Outcome A
  raised : ClientError → Outcome A

-- `attribute name` is the setting of that name, if it is a text; `retry_backoff` is in
-- microseconds.
pub record DarajaSettings : Type 0 where
  pub daraja_mode : String
  pub daraja_sandbox_base_url : String
  pub daraja_production_base_url : String
  pub attribute : String → Option String
  pub daraja_identifier_type : ℤ
  pub daraja_transaction_status_remarks : String
  pub daraja_transaction_status_occasion : String
  pub daraja_max_retries : ℤ
  pub daraja_retry_backoff : ℤ
  pub circuit_breaker : CircuitBreakerSettings

-- `send requests request` is how a request ends after those before it; `clock n` is the n-th
-- reading of the monotonic clock, `timestamp n` the n-th time stamp of the calendar.
pub record Surroundings : Type 0 where
  pub settings : DarajaSettings
  pub base_url : Option String
  pub send : List HttpRequest → HttpRequest → HttpAnswer
  pub clock : ℕ → ℕ
  pub timestamp : ℕ → String
  pub b64encode : String → String
  pub upper : String → String
  pub builtins : Builtins

-- What a client keeps, and what it has done outside.
pub record Client : Type 0 where
  pub circuit : DarajaCircuitBreaker
  pub clock_reads : ℕ
  pub timestamps : ℕ
  pub slept : ℕ
  pub requests : List HttpRequest

abbrev pub new_client : Client
new_client = record {
  circuit = new_circuit_breaker;
  clock_reads = 0;
  timestamps = 0;
  slept = 0;
  requests = [];
}

abbrev pub Call : Type 0 → Type 0
Call A = Client → Outcome A × Client

abbrev pub pure : {A : Type 0} → A → Call A
pure a s = (returned a, s)

abbrev pub raise : {A : Type 0} → ClientError → Call A
raise e s = (raised e, s)

abbrev pub modify : (Client → Client) → Call (Unit {0})
modify f s = (returned tt, f s)

-- What follows a call, by how it ended.
abbrev pub continue : {A B : Type 0} → Outcome A → (A → Call B) → Call B
continue (returned a) f s = f a s
continue (raised e) f s = (raised e, s)

infixl 5 ◌>>=◌ ◌>>◌
abbrev pub ◌>>=◌ : {A B : Type 0} → Call A → (A → Call B) → Call B
◌>>=◌ m f s = let (r, s') = m s in continue r f s'

abbrev pub ◌>>◌ : {A B : Type 0} → Call A → Call B → Call B
m >> n = m >>= λ _. n

-- `try: ... except ...`: the handler sees the exception and the state that it left.
abbrev pub handle : {A : Type 0} → Outcome A → (ClientError → Call A) → Call A
handle (returned a) handler s = (returned a, s)
handle (raised e) handler s = handler e s

abbrev pub try : {A : Type 0} → Call A → (ClientError → Call A) → Call A
try m handler s = let (r, s') = m s in handle r handler s'

module _ (env : Surroundings) where
  -- `http_client.request(...)`
  unfoldable pub send : HttpRequest → Call HttpAnswer
  send request s =
      (returned (env.send s.requests request), record s { requests = s.requests ++ request ∷ [] })

  -- `datetime.now(UTC).strftime("%Y%m%d%H%M%S")`
  unfoldable pub timestamp : Call String
  timestamp s = (returned (env.timestamp s.timestamps), record s { timestamps = suc s.timestamps })

pub Outcome-cases :
    {A : Type 0} (r : Outcome A)
    → ((a : A) × (r ≡ returned a)) ⊎ ((e : ClientError) × (r ≡ raised e))
Outcome-cases (returned a) = inl (a, refl)
Outcome-cases (raised e) = inr (e, refl)
