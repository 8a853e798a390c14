-- ===== src/Common/Exec.antt =====
-- A method call on shared objects: it reads and changes a state, and returns or raises. The state
-- comes back after a raise too, since what was written stays written.
pub mod Respects
use mathlib.Core.Path.{◌≡◌, refl}
use mathlib.Core.Logic.{◌⊎◌, inl, inr}
use Prim.Native.String.{String}

-- The exceptions that the program raises or lets through.
pub data Error : Type 0 where
  -- `TransactionStateTransitionError(from_status, to_status)`
  transition_error : String → String → Error
  -- `InfrastructureUnavailableError(reason)`
  infrastructure_unavailable : String → Error
  -- any other exception, with its text
  exception : String → Error

pub data Result {ℓ} (A : Type ℓ) : Type ℓ where
  ok : A → Result A
  err : Error → Result A

abbrev pub Exec {ℓ} : Type ℓ → Type ℓ → Type ℓ
Exec S A = S → Result A × S

module _ {ℓ} {S : Type ℓ} where
  abbrev pub pure : {A : Type ℓ} → A → Exec S A
  pure a s = (ok a, s)

  abbrev pub raise : {A : Type ℓ} → Error → Exec S A
  raise e s = (err e, s)

  abbrev pub lift : {A : Type ℓ} → Result A → Exec S A
  lift r s = (r, s)

  abbrev pub gets : {A : Type ℓ} → (S → A) → Exec S A
  gets f s = (ok (f s), s)

  abbrev pub modify : (S → S) → Exec S Unit
  modify f s = (ok tt, f s)

  -- What follows a call, by how it ended.
  abbrev pub continue : {A B : Type ℓ} → Result A → (A → Exec S B) → Exec S B
  continue (ok a) f s = f a s
  continue (err e) f s = (err e, s)

  infixl 5 ◌>>=◌ ◌>>◌
  abbrev pub ◌>>=◌ : {A B : Type ℓ} → Exec S A → (A → Exec S B) → Exec S B
  ◌>>=◌ m f s = let (r, s') = m s in continue r f s'

  abbrev pub ◌>>◌ : {A B : Type ℓ} → Exec S A → Exec S B → Exec S B
  m >> n = m >>= λ _. n

-- A last step that only returns changes no state.
pub continue-pure {ℓ} :
    {S A B : Type ℓ} (r : Result A) (g : A → B) (s : S) → (continue r (λ a. pure (g a)) s).1 ≡ s
continue-pure (ok a) g s = refl
continue-pure (err e) g s = refl

pub Result-cases {ℓ} :
    {A : Type ℓ} (r : Result A) → ((a : A) × (r ≡ ok a)) ⊎ ((e : Error) × (r ≡ err e))
Result-cases (ok a) = inl (a, refl)
Result-cases (err e) = inr (e, refl)
