-- ===== src/Common/Lists.antt =====
-- Lists measured by native numbers, and predicates over them.
use Prim.Native.Nat.{ℕ, zero, suc, ◌+◌, ◌≤◌}
use mathlib.Core.Path.{◌≡◌, subst}
use mathlib.Core.Bool.{Bool, true, false}
use mathlib.Core.List.{List, [], ◌∷◌, ◌++◌}
use mathlib.Core.Logic.{inl, inr}
use mathlib.Core.Option.{Option, none, some}
use native.Mathlib.Omega.{arith}
use Prim.Native.String.{String}
use text.Mathlib.Text.{◌==◌}
use mpesa_mcp_server.Common.Tests.{Bool-cases, eq_of_test, contains, if◌then◌else◌}

module _ {ℓ} {A : Type ℓ} where
  abbrev pub length : List A → ℕ
  length [] = 0
  length (x ∷ xs) = suc (length xs)

  abbrev pub take : ℕ → List A → List A
  take zero xs = []
  take (suc n) [] = []
  take (suc n) (x ∷ xs) = x ∷ take n xs

  -- `[x for x in xs if test(x)]`
  abbrev pub keep : (A → Bool) → List A → List A
  keep test [] = []
  keep test (x ∷ xs) = let rest = keep test xs in if test x then x ∷ rest else rest

  -- `next((x for x in xs if test(x)), None)`
  abbrev pub first : (A → Bool) → List A → Option A
  first test [] = none
  first test (x ∷ xs) = let rest = first test xs in if test x then some x else rest

  pub length-append : (xs ys : List A) → length (xs ++ ys) ≡ length xs + length ys
  length-append [] ys = omega arith
  length-append (x ∷ xs) ys = omega (arith, length-append xs ys)

  pub length-keep-le : (test : A → Bool) (xs : List A) → length (keep test xs) ≤ length xs
  length-keep-le test [] = omega arith
  length-keep-le test (x ∷ xs) = ground (arith, length-keep-le test xs)

-- A predicate that holds of each item.
abbrev pub All {ℓ κ} : {A : Type ℓ} → (A → Type κ) → List A → Type κ
All P [] = Unit
All P (x ∷ xs) = P x × All P xs

pub All-append {ℓ κ} :
    {A : Type ℓ} (P : A → Type κ) (xs ys : List A) → All P xs → All P ys → All P (xs ++ ys)
All-append P [] ys hx hy = hy
All-append P (x ∷ xs) ys hx hy = (hx.0, All-append P xs ys hx.1 hy)

pub All-keep {ℓ κ} :
    {A : Type ℓ} (P : A → Type κ) (test : A → Bool) (xs : List A) → All P xs → All P (keep test xs)
All-keep P test [] h = tt
All-keep P test (x ∷ xs) h =
    elim (test x) as (λ b. All P (if b then x ∷ keep test xs else keep test xs)) [
      | true ↦ (h.0, All-keep P test xs h.1)
      | false ↦ All-keep P test xs h.1
    ]

-- What a search finds passes its test.
pub first_test {ℓ} :
    {A : Type ℓ} (test : A → Bool) (xs : List A) (x : A) → first test xs ≡ some x → test x ≡ true
first_test test [] x h = ground arith
first_test test (y ∷ xs) x h = ground (arith, first_test test xs x)

pub first-All {ℓ κ} :
    {A : Type ℓ} (P : A → Type κ) (test : A → Bool) (xs : List A) (x : A)
    → All P xs
    → first test xs ≡ some x
    → P x
first-All P test [] x a h = cc
first-All P test (y ∷ xs) x a h = elim (Bool-cases (test y)) [
  | inl e ↦ let same : y ≡ x = ground arith in subst P same a.0
  | inr e ↦ first-All P test xs x a.1 (rw e at h)
]

-- A search that finds nothing: every item fails the test.
pub first-eq-none {ℓ} :
    {A : Type ℓ} (test : A → Bool) (xs : List A)
    → first test xs ≡ none
    → All (λ x. test x ≡ false) xs
first-eq-none test [] h = tt
first-eq-none test (y ∷ xs) h = ground (arith, first-eq-none test xs)

-- What holds of each of some texts holds of one of them.
pub All-contains {κ} :
    (P : String → Type κ) (xs : List String) (s : String) → All P xs → contains xs s ≡ true → P s
All-contains P [] s h e = absurd (ground arith)
All-contains P (x ∷ xs) s h e = elim (Bool-cases (x == s)) [
  | inl same ↦ subst P (eq_of_test x s same) h.0
  | inr other ↦ All-contains P xs s h.1 (rw other at e)
]
