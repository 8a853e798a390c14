-- ===== src/Daraja/Calls/Ends.antt =====
-- How the calls of app/daraja/client.py end: what holds of the requests sent so far when a call
-- returns, and when it raises.
use mpesa_mcp_server.Common.{Option, none, some, ◌≡◌, refl, List, Bool, true, false, if◌then◌else◌}
use mpesa_mcp_server.Daraja.Calls.{
  Call, Client, ClientError, HttpRequest, Outcome, returned, raised, pure, continue, ◌>>=◌,
}
use mpesa_mcp_server.Daraja.Credentials.{or_raise}

-- A condition on the requests sent so far.
abbrev pub Sent : Type 1
Sent = List HttpRequest → Type 0

abbrev pub Ended : {A : Type 0} → (ClientError → Sent) → (A → Sent) → Outcome A → Sent
Ended E Q (returned a) = Q a
Ended E Q (raised e) = E e

-- What an exception says.
module _ (E : ClientError → Sent) where
  -- A call that starts with `P` and returns with `Q`.
  pub record Ends {A : Type 0} (P : Sent) (m : Call A) (Q : A → Sent) : Type 0 where
    pub at : (s : Client) → P s.requests → Ended E Q (m s).0 (m s).1.requests

  pub Ends-pure : {A : Type 0} (Q : A → Sent) (a : A) → Ends (Q a) (pure a) Q
  Ends-pure Q a = record { at = λ s p. p }

  Ends-continue :
      {A B : Type 0} (Q : A → Sent) (T : B → Sent) (r : Outcome A) (f : A → Call B) (s : Client)
      → Ended E Q r s.requests
      → ((a : A) → Ends (Q a) (f a) T)
      → Ended E T (continue r f s).0 (continue r f s).1.requests
  Ends-continue Q T (returned a) f s q hf = (hf a).at s q
  Ends-continue Q T (raised e) f s q hf = q

  -- The condition between the two calls is the first's result and the second's start.
  pub Ends-bind :
      {A B : Type 0} (P : Sent) (Q : A → Sent) (T : B → Sent) (m : Call A) (f : A → Call B)
      → Ends P m Q
      → ((a : A) → Ends (Q a) (f a) T)
      → Ends P (m >>= f) T
  Ends-bind P Q T m f hm hf = record {
    at = λ s p. Ends-continue Q T (m s).0 f (m s).1 (hm.at s p) hf;
  }

  pub Ends-if :
      {A : Type 0} (P : Sent) (Q : A → Sent) (b : Bool) (m n : Call A)
      → Ends P m Q
      → Ends P n Q
      → Ends P (if b then m else n) Q
  Ends-if P Q true m n hm hn = hm
  Ends-if P Q false m n hm hn = hn

  pub Ends-or_raise :
      {A : Type 0} (P : Sent) (e : ClientError) (o : Option A)
      → ((requests : List HttpRequest) → P requests → o ≡ none → E e requests)
      → Ends P (or_raise e o) (λ a requests. P requests × (o ≡ some a))
  Ends-or_raise P e none h = record { at = λ s p. h s.requests p refl }
  Ends-or_raise P e (some a) h = record { at = λ s p. (p, refl) }

  Ended-weaken :
      {A : Type 0} (Q T : A → Sent) (r : Outcome A) (requests : List HttpRequest)
      → ((a : A) → Q a requests → T a requests)
      → Ended E Q r requests
      → Ended E T r requests
  Ended-weaken Q T (returned a) requests h q = h a q
  Ended-weaken Q T (raised e) requests h q = q

  pub Ends-weaken :
      {A : Type 0} (P : Sent) (Q T : A → Sent) (m : Call A)
      → ((a : A) (requests : List HttpRequest) → Q a requests → T a requests)
      → Ends P m Q
      → Ends P m T
  Ends-weaken P Q T m h hm = record {
    at = λ s p. Ended-weaken Q T (m s).0 (m s).1.requests (λ a. h a _) (hm.at s p);
  }
