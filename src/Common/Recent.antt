-- ===== src/Common/Recent.antt =====
-- `sorted(items, key=..., reverse=True)[:limit]` by a time: what stands first stays first among
-- items of one time.
use mpesa_mcp_server.Common.Lists.{take, length, All}
use mpesa_mcp_server.Common.Tests.{leb, if◌then◌else◌, Bool-cases}
use Prim.Native.Nat.{ℕ, zero, suc, ◌≤◌}
use mathlib.Core.Path.{◌≡◌, refl, sym, ap, subst}
use mathlib.Core.Logic.{◌⊎◌, inl, inr}
use mathlib.Core.List.{List, [], ◌∷◌, ◌++◌, Perm}
use mathlib.Core.List.Perm
use native.Mathlib.Omega.{arith}

module _ {A : Type 0} (time : A → ℕ) where
  abbrev pub insert_newest : A → List A → List A
  insert_newest x [] = x ∷ []
  insert_newest x (y ∷ ys) =
      let rest = insert_newest x ys in if leb (time y) (time x) then x ∷ y ∷ ys else y ∷ rest

  unfoldable pub newest_first : List A → List A
  newest_first [] = []
  newest_first (x ∷ xs) = insert_newest x (newest_first xs)

  abbrev pub recent : ℕ → List A → List A
  recent limit xs = take limit (newest_first xs)

  -- Each item is no older than those after it.
  abbrev pub IsDescending : List A → Type 0
  IsDescending [] = Unit
  IsDescending (x ∷ xs) = All (λ y. time y ≤ time x) xs × IsDescending xs

  insert_newest-Perm : (x : A) (ys : List A) → Perm (insert_newest x ys) (x ∷ ys)
  insert_newest-Perm x [] = Perm.rfl
  insert_newest-Perm x (y ∷ ys) = elim (Bool-cases (leb (time y) (time x))) [
    | inl before ↦ rw before Perm.rfl
    | inr after ↦ rw after (Perm.trans (Perm.cons y (insert_newest-Perm x ys)) (Perm.swap x y ys))
  ]

  newest_first-Perm : (xs : List A) → Perm (newest_first xs) xs
  unfolding newest_first
  newest_first-Perm [] = Perm.rfl
  newest_first-Perm (x ∷ xs) =
      Perm.trans (insert_newest-Perm x (newest_first xs)) (Perm.cons x (newest_first-Perm xs))

  -- What bounds an item and the items of a list bounds them joined.
  insert_newest-All :
      (P : A → Type 0) (x : A) (ys : List A) → P x → All P ys → All P (insert_newest x ys)
  insert_newest-All P x [] p ps = (p, tt)
  insert_newest-All P x (y ∷ ys) p ps = elim (Bool-cases (leb (time y) (time x))) [
    | inl before ↦ rw before (p, ps)
    | inr after ↦ rw after (ps.0, insert_newest-All P x ys p ps.1)
  ]

  All-older :
      (x y : A) (ys : List A)
      → time y ≤ time x
      → All (λ z. time z ≤ time y) ys
      → All (λ z. time z ≤ time x) ys
  All-older x y [] h older = tt
  All-older x y (z ∷ ys) h older = (omega (arith, h, older.0), All-older x y ys h older.1)

  insert_newest-IsDescending :
      (x : A) (ys : List A) → IsDescending ys → IsDescending (insert_newest x ys)
  insert_newest-IsDescending x [] d = (tt, tt)
  insert_newest-IsDescending x (y ∷ ys) d = elim (Bool-cases (leb (time y) (time x))) [
    | inl before ↦
        let h : time y ≤ time x = ground (arith, before) in
        rw before ((h, All-older x y ys h d.0), d)
    | inr after ↦ rw after (
      insert_newest-All (λ z. time z ≤ time y) x ys (ground (arith, after)) d.0,
      insert_newest-IsDescending x ys d.1,
    )
  ]

  newest_first-IsDescending : (xs : List A) → IsDescending (newest_first xs)
  unfolding newest_first
  newest_first-IsDescending [] = tt
  newest_first-IsDescending (x ∷ xs) =
      insert_newest-IsDescending x (newest_first xs) (newest_first-IsDescending xs)

  -- A list is its first items and the others; there are others only if the first are as many as
  -- allowed.
  take-split :
      (limit : ℕ) (xs : List A)
      → (rest : List A) × (take limit xs ++ rest ≡ xs)
        × ((length (take limit xs) ≡ limit) ⊎ ((length (take limit xs) ≤ limit) × (rest ≡ [])))
  take-split zero xs = (xs, refl, inl refl)
  take-split (suc limit) [] = ([], refl, inr (omega arith, refl))
  take-split (suc limit) (x ∷ xs) =
      let (rest, joined, counted) = take-split limit xs in
      (
        rest,
        ap (λ l. x ∷ l) joined,
        elim counted [
          | inl full ↦ inl (omega (arith, full))
          | inr (few, none_left) ↦ inr (omega (arith, few), none_left)
        ],
      )

  -- The recent items with some others are the items in another order, in which each is no older
  -- than those after it; others are left out only if the recent ones are as many as the limit.
  pub recent_lem :
      (limit : ℕ) (xs : List A)
      → (rest : List A) × Perm (recent limit xs ++ rest) xs
        × IsDescending (recent limit xs ++ rest)
        × ((length (recent limit xs) ≡ limit) ⊎ ((length (recent limit xs) ≤ limit) × (rest ≡ [])))
  recent_lem limit xs =
      let (rest, joined, counted) = take-split limit (newest_first xs) in
      (
        rest,
        subst (λ l. Perm l xs) (sym joined) (newest_first-Perm xs),
        subst IsDescending (sym joined) (newest_first-IsDescending xs),
        counted,
      )
