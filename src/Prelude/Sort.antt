-- ===== src/Prelude/Sort.antt =====
-- Python's `sorted` with a natural number as its key, which is stable.
use mathlib.Core.List.{Perm}
use mathlib.Core.List.Perm
use penge.Prelude.{
  ℕ, ◌≤◌, ◌≡◌, ◌≢◌, ap, arith, leb, List, [], ◌∷◌, ◌++◌, if◌then◌else◌, Bool-cases, inl, inr,
}

unfoldable pub insert_by {ℓ} : {A : Type ℓ} → (A → ℕ) → A → List A → List A
insert_by key a [] = a ∷ []
insert_by key a (x ∷ xs) =
    let rest = insert_by key a xs in if leb (key a) (key x) then a ∷ x ∷ xs else x ∷ rest

unfoldable pub sorted_by {ℓ} : {A : Type ℓ} → (A → ℕ) → List A → List A
unfolding insert_by
sorted_by key [] = []
sorted_by key (x ∷ xs) = insert_by key x (sorted_by key xs)

module _ {ℓ} {A : Type ℓ} (key : A → ℕ) where
  abbrev pub IsSorted : List A → Type 0
  IsSorted [] = Unit
  IsSorted (a ∷ []) = Unit
  IsSorted (a ∷ x ∷ xs) = (key a ≤ key x) × IsSorted (x ∷ xs)

  insert_by-IsSorted : (a : A) (xs : List A) → IsSorted xs → IsSorted (insert_by key a xs)
  unfolding insert_by
  insert_by-IsSorted a [] h = tt
  insert_by-IsSorted a (x ∷ []) h = ground arith
  insert_by-IsSorted a (x ∷ y ∷ xs) h = ground (arith, insert_by-IsSorted a (y ∷ xs) h.1)

  insert_by-perm : (a : A) (xs : List A) → Perm (insert_by key a xs) (a ∷ xs)
  unfolding insert_by
  insert_by-perm a [] = Perm.refl _
  insert_by-perm a (x ∷ xs) = elim (Bool-cases (leb (key a) (key x))) [
    | inl first ↦ rw first (Perm.refl _)
    | inr later ↦ rw later (Perm.trans (Perm.cons x (insert_by-perm a xs)) (Perm.swap a x xs))
  ]

  -- The same elements, by ascending key.
  pub sorted_by_lem : (xs : List A) → IsSorted (sorted_by key xs) × Perm (sorted_by key xs) xs
  unfolding sorted_by
  sorted_by_lem [] = (tt, Perm.refl [])
  sorted_by_lem (x ∷ xs) =
      let (sorted, perm) = sorted_by_lem xs in
      (insert_by-IsSorted x _ sorted, Perm.trans (insert_by-perm x _) (Perm.cons x perm))

  insert_by-exchange :
      (a b : A) (xs : List A)
      → key a ≢ key b
      → insert_by key a (insert_by key b xs) ≡ insert_by key b (insert_by key a xs)
  unfolding insert_by
  insert_by-exchange a b [] h = ground arith
  insert_by-exchange a b (x ∷ xs) h = ground (arith, insert_by-exchange a b xs h)

  -- Neighbours with different keys may change places.
  pub sorted_by-exchange :
      (before : List A) (a b : A) (after : List A)
      → key a ≢ key b
      → sorted_by key (before ++ a ∷ b ∷ after) ≡ sorted_by key (before ++ b ∷ a ∷ after)
  unfolding sorted_by
  sorted_by-exchange [] a b after h = insert_by-exchange a b (sorted_by key after) h
  sorted_by-exchange (x ∷ before) a b after h =
      ap (insert_by key x) (sorted_by-exchange before a b after h)
