-- ===== src/Common/Dict.antt =====
-- Python's `dict` with text keys, in insertion order: an assignment to a key that is there keeps
-- the key's place.
use mathlib.Core.Path.{◌≡◌, refl, sym, subst, subst₂}
use mathlib.Core.Logic.{inl, inr}
use mathlib.Core.Option.{Option, none, some}
use mathlib.Core.List.{List, [], ◌∷◌}
use native.Mathlib.Omega.{arith}
use Prim.Native.String.{String}
use text.Mathlib.Text.{◌==◌}
use text.Mathlib.TextEquality.{eq_iff}
use text.Mathlib.TextPositions.{eq_refl}
use mpesa_mcp_server.Common.Lists.{first}
use mathlib.Core.Bool.{Bool, true}
use mpesa_mcp_server.Common.Tests.{if◌then◌else◌, Bool-cases, eq_of_test}

abbrev pub Dict {ℓ} : Type ℓ → Type ℓ
Dict V = List (String × V)

module _ {ℓ} {V : Type ℓ} where
  -- `d.get(k)`
  unfoldable pub lookup : String → Dict V → Option V
  lookup k [] = none
  lookup k ((j, v) ∷ d) = let rest = lookup k d in if j == k then some v else rest

  -- `d[k] = v`
  unfoldable pub insert : String → V → Dict V → Dict V
  insert k v [] = (k, v) ∷ []
  insert k v ((j, w) ∷ d) = let rest = insert k v d in if j == k then (j, v) ∷ d else (j, w) ∷ rest

  -- `d.pop(k, None)`
  unfoldable pub erase : String → Dict V → Dict V
  erase k [] = []
  erase k ((j, w) ∷ d) = let rest = erase k d in if j == k then d else (j, w) ∷ rest

  -- `d.values()`
  unfoldable pub values : Dict V → List V
  values [] = []
  values ((j, v) ∷ d) = v ∷ values d

  pub lookup-insert :
      (k j : String) (v : V) (d : Dict V)
      → lookup j (insert k v d) ≡ (if k == j then some v else lookup j d)
  unfolding lookup insert
  lookup-insert k j v [] = refl
  lookup-insert k j v ((i, w) ∷ d) =
      ground (arith, eq_iff k j, eq_iff i k, eq_iff i j, lookup-insert k j v d)

  pub lookup-insert_self : (k : String) (v : V) (d : Dict V) → lookup k (insert k v d) ≡ some v
  lookup-insert_self k v d = ground (arith, eq_refl k, lookup-insert k k v d)

  -- No key stands twice.
  abbrev pub IsDict : Dict V → Type ℓ
  IsDict [] = Unit
  IsDict ((k, v) ∷ d) = (lookup k d ≡ none) × IsDict d

  pub insert-IsDict : (k : String) (v : V) (d : Dict V) → IsDict d → IsDict (insert k v d)
  unfolding lookup insert
  insert-IsDict k v [] h = (refl, tt)
  insert-IsDict k v ((j, w) ∷ d) h =
      ground (arith, eq_iff j k, eq_iff k j, lookup-insert k j v d, insert-IsDict k v d h.1)

  pub lookup-erase :
      (k j : String) (d : Dict V)
      → IsDict d
      → lookup j (erase k d) ≡ (if k == j then none else lookup j d)
  unfolding lookup erase
  lookup-erase k j [] h = ground arith
  lookup-erase k j ((i, w) ∷ d) h =
      ground (arith, eq_iff k j, eq_iff i k, eq_iff i j, lookup-erase k j d h.1)

  pub erase-IsDict : (k : String) (d : Dict V) → IsDict d → IsDict (erase k d)
  unfolding lookup erase
  erase-IsDict k [] h = tt
  erase-IsDict k ((j, w) ∷ d) h =
      ground (arith, eq_iff j k, eq_iff k j, lookup-erase k j d h.1, erase-IsDict k d h.1)

  -- Where nothing passed a test, a written value that passes is what a search finds.
  pub first-insert :
      (test : V → Bool) (k : String) (v : V) (d : Dict V)
      → first test (values d) ≡ none
      → test v ≡ true
      → first test (values (insert k v d)) ≡ some v
  unfolding insert values
  first-insert test k v [] h t = ground arith
  first-insert test k v ((j, w) ∷ d) h t = ground (arith, first-insert test k v d)

-- A property of each key with its value.
abbrev pub AllEntries {ℓ κ} : {V : Type ℓ} → (String → V → Type κ) → Dict V → Type κ
AllEntries P [] = Unit
AllEntries P ((k, v) ∷ d) = P k v × AllEntries P d

module _ {ℓ κ} {V : Type ℓ} (P : String → V → Type κ) where
  pub AllEntries-lookup :
      (k : String) (v : V) (d : Dict V) → AllEntries P d → lookup k d ≡ some v → P k v
  unfolding lookup
  AllEntries-lookup k v [] h e = cc
  AllEntries-lookup k v ((j, w) ∷ d) h e = elim (Bool-cases (j == k)) [
    | inl same ↦
        let keys : j ≡ k = eq_of_test j k same in
        let found : w ≡ v = ground arith in subst₂ P keys found h.0
    | inr other ↦ AllEntries-lookup k v d h.1 (rw other at e)
  ]

  pub insert-AllEntries :
      (k : String) (v : V) (d : Dict V) → AllEntries P d → P k v → AllEntries P (insert k v d)
  unfolding insert
  insert-AllEntries k v [] h p = (p, tt)
  insert-AllEntries k v ((j, w) ∷ d) h p = elim (Bool-cases (j == k)) [
    | inl same ↦ rw same (subst (λ x. P x v) (sym (eq_of_test j k same)) p, h.1)
    | inr other ↦ rw other (h.0, insert-AllEntries k v d h.1 p)
  ]
