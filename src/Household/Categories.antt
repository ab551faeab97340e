-- ===== src/Household/Categories.antt =====
-- `save_category` of src/penge/household/service.py.
pub mod Walk
pub mod Forest
pub mod Kinds
use penge.Prelude.{
  ℕ, zero, suc, Bool, true, false, not, ◌||◌, ◌==◌, List, [], ◌∷◌, Option, none, some, map, length,
  Result, ok, err, ◌>>=◌, ◌>>◌, raise_if, if◌then◌else◌,
}
use penge.Prelude.Eq.{nat_eq}
use penge.Prelude.Dict.{Dict, lookup, insert}
use penge.Household.Labels.{Text, is_blank, strip}
use penge.Household.Schemas.{CategoryKind, expense_kind, income_kind, Category, CategoryWrite}
use penge.Household.Store.{
  HouseholdError, not_found, revision_conflict, kind_immutable, blank_name, category_cycle,
  parent_kind, walks_on, Store, Snapshot, category_snapshot, require, check_revision, audit,
}

abbrev pub same_kind : CategoryKind → CategoryKind → Bool
same_kind expense_kind expense_kind = true
same_kind income_kind income_kind = true
same_kind _ _ = false

abbrev pub is_in : ℕ → List ℕ → Bool
is_in k [] = false
is_in k (j ∷ js) = k == j || is_in k js

-- The loop over the parents, with the set that it has seen.
unfoldable pub walk :
    (fuel : ℕ) → Dict ℕ Category → CategoryKind → List ℕ → Option ℕ → Result HouseholdError Unit
walk fuel d kind seen none = ok tt
walk zero d kind seen (some p) = err walks_on
walk (suc fuel) d kind seen (some p) =
    if is_in p seen then err category_cycle else elim (lookup p d) [
      | none ↦ err not_found
      | some c ↦
          if same_kind c.kind kind then walk fuel d kind (p ∷ seen) c.parent_id else err parent_kind
    ]

-- The category that the key stands for; without a key there is none yet.
abbrev pub current : Option ℕ → Dict ℕ Category → Result HouseholdError (Option Category)
current none d = ok none
current (some key) d = elim (lookup key d) [ none ↦ err not_found | some c ↦ ok (some c) ]

abbrev pub revision_of : Option Category → ℕ
revision_of none = 0
revision_of (some c) = c.revision

abbrev pub kind_changes : Option Category → CategoryKind → Bool
kind_changes none kind = false
kind_changes (some c) kind = not (same_kind c.kind kind)

abbrev pub seen_first : Option ℕ → List ℕ
seen_first none = []
seen_first (some key) = key ∷ []

abbrev pub row_id : Option ℕ → Store → ℕ
row_id none s = s.next_id
row_id (some key) s = key

abbrev pub written : CategoryWrite → Option Category → Category
written body old = record {
  name = strip body.name;
  kind = body.kind;
  parent_id = body.parent_id;
  sort_order = body.sort_order;
  archived = body.archived;
  revision = suc (revision_of old);
}

abbrev pub snapshot_of : Option Category → Option Snapshot
snapshot_of none = none
snapshot_of (some c) = some (category_snapshot c)

-- The writes behind the checks: a new row has a fresh id.
unfoldable pub put_category : CategoryWrite → Option ℕ → Option Category → Store → ℕ × Store
unfolding insert audit strip
put_category body key old s =
    let id : ℕ = row_id key s in
    let c : Category = written body old in
    (
      id,
      audit id "save" (snapshot_of old) (category_snapshot c)
          (record s { categories = insert id c s.categories; next_id = suc s.next_id }),
    )

unfoldable pub save_category : CategoryWrite → Option ℕ → Store → Result HouseholdError (ℕ × Store)
unfolding walk put_category is_blank
save_category body key s = do
  old ← current key s.categories
  check_revision (revision_of old) body.expected_revision
  raise_if (kind_changes old body.kind) kind_immutable
  raise_if (is_blank body.name) blank_name
  walk (suc (length s.categories)) s.categories body.kind (seen_first key) body.parent_id
  ok (put_category body key old s)
