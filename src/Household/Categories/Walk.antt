-- ===== src/Household/Categories/Walk.antt =====
-- The loop over a category's parents ends (src/penge/household/service.py).
use penge.Prelude.{
  ℕ, zero, suc, ◌+◌, ◌<◌, ◌≤◌, ◌≡◌, ◌≢◌, ◌∙◌, ap, sym, ==_iff, inl, inr, arith, false, ◌==◌,
  Bool-cases, Option-cases, List, [], ◌∷◌, Option, none, some, length, err, if◌then◌else◌,
}
use penge.Prelude.Eq.{nat_eq}
use penge.Prelude.Dict.{Dict, lookup}
use penge.Household.Schemas.{CategoryKind, Category}
use penge.Household.Store.{walks_on}
use penge.Household.Categories.{same_kind, is_in, walk}

-- The categories that the loop has not seen: what it counts down.
unseen : List ℕ → Dict ℕ Category → ℕ
unseen seen [] = 0
unseen seen ((k, c) ∷ d) = (if is_in k seen then 0 else 1) + unseen seen d

unseen-le : (p : ℕ) (seen : List ℕ) (d : Dict ℕ Category) → unseen (p ∷ seen) d ≤ unseen seen d
unfolding unseen
unseen-le p seen [] = omega arith
unseen-le p seen ((k, c) ∷ d) = ground (arith, unseen-le p seen d)

-- A category that is there and was not seen counts once less.
unseen-lt :
    (p : ℕ) (seen : List ℕ) (d : Dict ℕ Category) {c : Category}
    → lookup p d ≡ some c
    → is_in p seen ≡ false
    → unseen (p ∷ seen) d < unseen seen d
unfolding unseen
unseen-lt p seen [] found new = absurd (cc found)
unseen-lt p seen ((k, w) ∷ d) {c} found new = elim (Bool-cases (p == k)) [
  | inl here ↦
      let e : is_in k seen ≡ false = ap (λ j. is_in j seen) (sym ((==_iff p k).0 here)) ∙ new in
      ground (arith, unseen-le p seen d)
  | inr there ↦ ground (arith, unseen-lt p seen d {c = c} (rw there at found) new)
]

unseen-le-length : (seen : List ℕ) (d : Dict ℕ Category) → unseen seen d ≤ length d
unfolding unseen
unseen-le-length seen [] = omega arith
unseen-le-length seen ((k, c) ∷ d) = ground (arith, unseen-le-length seen d)

walk_ends :
    (fuel : ℕ) (d : Dict ℕ Category) (kind : CategoryKind) (seen : List ℕ) (p : Option ℕ)
    → unseen seen d < fuel
    → walk fuel d kind seen p ≢ err walks_on
unfolding walk
walk_ends fuel d kind seen none h e = cc e
walk_ends zero d kind seen (some p) h e = absurd (omega arith)
walk_ends (suc fuel) d kind seen (some p) h e = elim (Bool-cases (is_in p seen)) [
  | inl old ↦ cc (rw (walk, old) at e)
  | inr new ↦ elim (Option-cases (lookup p d)) [
    | inl missing ↦ cc (rw (walk, new, missing) at e)
    | inr (c, found) ↦ elim (Bool-cases (same_kind c.kind kind)) [
      | inr other ↦ cc (rw (walk, new, found, other) at e)
      | inl same ↦
          walk_ends fuel d kind (p ∷ seen) c.parent_id (omega (arith, unseen-lt p seen d found new))
            (rw (walk, new, found, same) at e)
    ]
  ]
]

-- The loop over the parents ends in every table, also in one with a cycle or with a missing
-- parent: one step more than there are categories is enough.
pub walk_terminates :
    (d : Dict ℕ Category) (kind : CategoryKind) (seen : List ℕ) (p : Option ℕ)
    → walk (suc (length d)) d kind seen p ≢ err walks_on
walk_terminates d kind seen p =
    walk_ends (suc (length d)) d kind seen p (omega (arith, unseen-le-length seen d))
