-- ===== src/Daraja/Calls/Rules.antt =====
-- What the calls of app/daraja/client.py send: a rule for each way in which a call is put
-- together.
use mpesa_mcp_server.Common.{◌≡◌, refl, ◌∙◌, subst, List, Bool, true, false, if◌then◌else◌}
use mpesa_mcp_server.Daraja.Calls.{
  Call, Client, ClientError, HttpRequest, Outcome, returned, raised, pure, raise, continue, handle,
  try, ◌>>=◌,
}

-- A call that sends nothing.
pub record Silent {A : Type 0} (m : Call A) : Type 0 where
  pub at : (s : Client) → (m s).1.requests ≡ s.requests

pub Silent-pure : {A : Type 0} (a : A) → Silent (pure a)
Silent-pure a = record { at = λ s. refl }

pub Silent-raise : {A : Type 0} (e : ClientError) → Silent (raise {A = A} e)
Silent-raise e = record { at = λ s. refl }

pub Silent-continue :
    {A B : Type 0} (r : Outcome A) (f : A → Call B)
    → ((a : A) → Silent (f a))
    → Silent (continue r f)
Silent-continue (returned a) f h = h a
Silent-continue (raised e) f h = record { at = λ s. refl }

pub Silent-bind :
    {A B : Type 0} (m : Call A) (f : A → Call B)
    → Silent m
    → ((a : A) → Silent (f a))
    → Silent (m >>= f)
Silent-bind m f hm hf = record { at = λ s. (Silent-continue (m s).0 f hf).at (m s).1 ∙ hm.at s }

pub Silent-if :
    {A : Type 0} (b : Bool) (m n : Call A) → Silent m → Silent n → Silent (if b then m else n)
Silent-if true m n hm hn = hm
Silent-if false m n hm hn = hn

pub ruleset silent_rules = (Silent-pure, Silent-raise, Silent-bind, Silent-if)

-- What a call returns.
abbrev pub Yielded : {A : Type 0} → (A → Type 0) → Outcome A → Type 0
Yielded Q (returned a) = Q a
Yielded Q (raised e) = Unit

pub record Yields {A : Type 0} (Q : A → Type 0) (m : Call A) : Type 0 where
  pub at : (s : Client) → Yielded Q (m s).0

pub Yields-continue :
    {A B : Type 0} (Q : B → Type 0) (r : Outcome A) (f : A → Call B)
    → ((a : A) → Yields Q (f a))
    → Yields Q (continue r f)
Yields-continue Q (returned a) f h = h a
Yields-continue Q (raised e) f h = record { at = λ s. tt }

pub Yields-bind :
    {A B : Type 0} (Q : B → Type 0) (m : Call A) (f : A → Call B)
    → ((a : A) → Yields Q (f a))
    → Yields Q (m >>= f)
Yields-bind Q m f hf = record { at = λ s. (Yields-continue Q (m s).0 f hf).at (m s).1 }

-- How the requests after a call stand to those before it.
pub record Sends {A : Type 0} (R : List HttpRequest → List HttpRequest → Type 0) (m : Call A)
    : Type 0 where
  pub at : (s : Client) → R s.requests (m s).1.requests

module _ (R : List HttpRequest → List HttpRequest → Type 0) where
  pub Sends-Silent :
      {A : Type 0} (m : Call A)
      → ((requests : List HttpRequest) → R requests requests)
      → Silent m
      → Sends R m
  Sends-Silent m reflexive h = record { at = λ s. rw (h.at s) (reflexive s.requests) }

  pub Sends-continue :
      {A B : Type 0} (before : List HttpRequest) (r : Outcome A) (f : A → Call B) (s : Client)
      → R before s.requests
      → ((a : A) → Silent (f a))
      → R before (continue r f s).1.requests
  Sends-continue before (returned a) f s h hf = rw ((hf a).at s) h
  Sends-continue before (raised e) f s h hf = h

  -- What a call sends, with silence after it or before it.
  pub Sends-then-Silent :
      {A B : Type 0} (m : Call A) (f : A → Call B)
      → Sends R m
      → ((a : A) → Silent (f a))
      → Sends R (m >>= f)
  Sends-then-Silent m f hm hf = record {
    at = λ s. Sends-continue s.requests (m s).0 f (m s).1 (hm.at s) hf;
  }

  Sends-continue_from :
      {A B : Type 0} (r : Outcome A) (f : A → Call B)
      → ((requests : List HttpRequest) → R requests requests)
      → ((a : A) → Sends R (f a))
      → Sends R (continue r f)
  Sends-continue_from (returned a) f reflexive hf = hf a
  Sends-continue_from (raised e) f reflexive hf = record { at = λ s. reflexive s.requests }

  pub Sends-after-Silent :
      {A B : Type 0} (m : Call A) (f : A → Call B)
      → ((requests : List HttpRequest) → R requests requests)
      → Silent m
      → ((a : A) → Sends R (f a))
      → Sends R (m >>= f)
  Sends-after-Silent m f reflexive hm hf = record {
    at = λ s.
        subst (λ before. R before (continue (m s).0 f (m s).1).1.requests) (hm.at s)
          ((Sends-continue_from (m s).0 f reflexive hf).at (m s).1);
  }

  Sends-continue_yielding :
      {A B : Type 0} (Q : A → Type 0) (r : Outcome A) (f : A → Call B)
      → ((requests : List HttpRequest) → R requests requests)
      → Yielded Q r
      → ((a : A) → Q a → Sends R (f a))
      → Sends R (continue r f)
  Sends-continue_yielding Q (returned a) f reflexive q hf = hf a q
  Sends-continue_yielding Q (raised e) f reflexive q hf = record { at = λ s. reflexive s.requests }

  pub Sends-after_yielding :
      {A B : Type 0} (Q : A → Type 0) (m : Call A) (f : A → Call B)
      → ((requests : List HttpRequest) → R requests requests)
      → Silent m
      → Yields Q m
      → ((a : A) → Q a → Sends R (f a))
      → Sends R (m >>= f)
  Sends-after_yielding Q m f reflexive hm hq hf = record {
    at = λ s.
        subst (λ before. R before (continue (m s).0 f (m s).1).1.requests) (hm.at s)
          ((Sends-continue_yielding Q (m s).0 f reflexive (hq.at s) hf).at (m s).1);
  }

  Sends-handle :
      {A : Type 0} (before : List HttpRequest) (r : Outcome A) (handler : ClientError → Call A)
      (s : Client)
      → R before s.requests
      → ((e : ClientError) → Silent (handler e))
      → R before (handle r handler s).1.requests
  Sends-handle before (returned a) handler s h hh = h
  Sends-handle before (raised e) handler s h hh = rw ((hh e).at s) h

  pub Sends-try :
      {A : Type 0} (m : Call A) (handler : ClientError → Call A)
      → Sends R m
      → ((e : ClientError) → Silent (handler e))
      → Sends R (try m handler)
  Sends-try m handler hm hh = record {
    at = λ s. Sends-handle s.requests (m s).0 handler (m s).1 (hm.at s) hh;
  }

-- One call after another, by what each sends.
pub Sends-bind :
    {A B : Type 0} (R Q T : List HttpRequest → List HttpRequest → Type 0) (m : Call A)
    (f : A → Call B)
    → Sends R m
    → ((a : A) → Sends Q (f a))
    → ((before after : List HttpRequest) → R before after → T before after)
    → ((before middle after : List HttpRequest) → R before middle → Q middle after → T before after)
    → Sends T (m >>= f)
Sends-bind {A} {B} R Q T m f hm hf stop go = record {
  at = λ s. sends_then s.requests (m s).0 (m s).1 (hm.at s);
}
  where
    sends_then :
        (before : List HttpRequest) (r : Outcome A) (s : Client)
        → R before s.requests
        → T before (continue r f s).1.requests
    sends_then before (returned a) s h = go before s.requests _ h ((hf a).at s)
    sends_then before (raised e) s h = stop before s.requests h
