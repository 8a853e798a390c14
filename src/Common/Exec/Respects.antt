-- ===== src/Common/Exec/Respects.antt =====
-- What a call does to the state, as a relation between the state before and the state after: a
-- rule for each way in which a call is put together.
use mathlib.Core.Path.{◌≡◌, refl}
use mathlib.Core.Bool.{Bool, true, false}
use mpesa_mcp_server.Common.Tests.{if◌then◌else◌}
use mpesa_mcp_server.Common.Exec.{
  Exec, Result, Error, ok, err, pure, raise, lift, gets, continue, ◌>>=◌,
}

pub record Preorder {ℓ} {S : Type ℓ} (R : S → S → Type ℓ) : Type ℓ where
  pub reflexive : (s : S) → R s s
  pub transitive : (s t u : S) → R s t → R t u → R s u

-- Whether it returns or raises, the call takes a state to one that stands in `R` to it.
pub record Respects {ℓ} {S A : Type ℓ} (R : S → S → Type ℓ) (m : Exec S A) : Type ℓ where
  pub at : (s : S) → R s (m s).1

module _ {ℓ} {S : Type ℓ} {R : S → S → Type ℓ} ⦃p : Preorder R⦄ where
  pub Respects-pure : {A : Type ℓ} (a : A) → Respects R (pure a)
  Respects-pure a = record { at = p.reflexive }

  pub Respects-raise : {A : Type ℓ} (e : Error) → Respects R (raise {A = A} e)
  Respects-raise e = record { at = p.reflexive }

  pub Respects-lift : {A : Type ℓ} (r : Result A) → Respects R (lift r)
  Respects-lift r = record { at = p.reflexive }

  pub Respects-gets : {A : Type ℓ} (f : S → A) → Respects R (gets f)
  Respects-gets f = record { at = p.reflexive }

  pub Respects-continue :
      {A B : Type ℓ} (r : Result A) (f : A → Exec S B)
      → ((a : A) → Respects R (f a))
      → Respects R (continue r f)
  Respects-continue (ok a) f h = h a
  Respects-continue (err e) f h = record { at = p.reflexive }

  pub Respects-bind :
      {A B : Type ℓ} (m : Exec S A) (f : A → Exec S B)
      → Respects R m
      → ((a : A) → Respects R (f a))
      → Respects R (m >>= f)
  Respects-bind m f hm hf = record {
    at = λ s.
        p.transitive s (m s).1 (continue (m s).0 f (m s).1).1 (hm.at s)
          ((Respects-continue (m s).0 f hf).at (m s).1);
  }

  pub Respects-if :
      {A : Type ℓ} (b : Bool) (m n : Exec S A)
      → (b ≡ true → Respects R m)
      → (b ≡ false → Respects R n)
      → Respects R (if b then m else n)
  Respects-if true m n hm hn = hm refl
  Respects-if false m n hm hn = hn refl

-- What respects a relation respects a weaker one.
pub Respects-weaken {ℓ} :
    {S A : Type ℓ} {R Q : S → S → Type ℓ} (m : Exec S A)
    → ((s t : S) → R s t → Q s t)
    → Respects R m
    → Respects Q m
Respects-weaken m weaken h = record { at = λ s. weaken s (m s).1 (h.at s) }

pub ruleset respects_rules =
    (Respects-pure, Respects-raise, Respects-lift, Respects-gets, Respects-bind, Respects-if)
