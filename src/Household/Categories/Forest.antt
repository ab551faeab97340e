-- ===== src/Household/Categories/Forest.antt =====
-- The categories stay a forest of one kind per tree (src/penge/household/service.py).
use penge.Prelude.{
  ℕ, zero, suc, ◌<◌, ◌≡◌, ◌≢◌, ◌∙◌, refl, inl, inr, ap, sym, subst, ==_iff, arith, Bool, true,
  false, not, ◌==◌, Bool-cases, Option-cases, >>=-ok, ok-injective, some-injective, List, ◌∷◌,
  Option, none, some, length, Result, ok, raise_if,
}
use penge.Prelude.Eq.{nat_eq}
use penge.Prelude.Dict.{Dict, lookup, insert, lookup-insert_ne, lookup-insert_self}
use penge.Household.Labels.{is_blank}
use penge.Household.Schemas.{CategoryKind, expense_kind, income_kind, Category, CategoryWrite}
use penge.Household.Store.{HouseholdError, Store, check_revision, kind_immutable, blank_name, audit}
use penge.Household.Categories.{
  same_kind, is_in, walk, current, revision_of, kind_changes, seen_first, row_id, written,
  put_category, save_category,
}

-- From `o` the parents lead to a root, all of them of one kind.
pub data Chain (d : Dict ℕ Category) (kind : CategoryKind) : Option ℕ → Type 0 where
  done : Chain d kind none
  up :
      (k : ℕ) (c : Category)
      → lookup k d ≡ some c
      → c.kind ≡ kind
      → Chain d kind c.parent_id
      → Chain d kind (some k)

-- The same, and `x` is none of them.
pub data ChainBeside (d : Dict ℕ Category) (kind : CategoryKind) (x : ℕ) : Option ℕ → Type 0 where
  done_beside : ChainBeside d kind x none
  up_beside :
      (k : ℕ) (c : Category)
      → k ≢ x
      → lookup k d ≡ some c
      → c.kind ≡ kind
      → ChainBeside d kind x c.parent_id
      → ChainBeside d kind x (some k)

-- Every category's parents lead to a root and are of its kind; so there is no cycle.
abbrev pub IsForest : Dict ℕ Category → Type 0
IsForest d = (k : ℕ) (c : Category) → lookup k d ≡ some c → Chain d c.kind c.parent_id

pub record IsWellFormed (s : Store) : Type 0 where
  pub forest : IsForest s.categories
  pub fresh : (k : ℕ) (c : Category) → lookup k s.categories ≡ some c → k < s.next_id

pub same_kind_eq : (a b : CategoryKind) → same_kind a b ≡ true → a ≡ b
same_kind_eq expense_kind expense_kind h = refl
same_kind_eq income_kind income_kind h = refl
same_kind_eq expense_kind income_kind h = absurd (cc h)
same_kind_eq income_kind expense_kind h = absurd (cc h)

-- What the loop has checked when it ends well. A category that it has not seen is not `x`.
walk-ChainBeside :
    (fuel : ℕ) (d : Dict ℕ Category) (kind : CategoryKind) (seen : List ℕ) (x : ℕ) (o : Option ℕ)
    → ((p : ℕ) (c : Category) → lookup p d ≡ some c → is_in p seen ≡ false → p ≢ x)
    → walk fuel d kind seen o ≡ ok tt
    → ChainBeside d kind x o
unfolding walk
walk-ChainBeside fuel d kind seen x none apart e = done_beside
walk-ChainBeside zero d kind seen x (some p) apart e = absurd (cc e)
walk-ChainBeside (suc fuel) d kind seen x (some p) apart e = elim (Bool-cases (is_in p seen)) [
  | inl old ↦ absurd (cc (rw (walk, old) at e))
  | inr new ↦ elim (Option-cases (lookup p d)) [
    | inl missing ↦ absurd (cc (rw (walk, new, missing) at e))
    | inr (c, found) ↦ elim (Bool-cases (same_kind c.kind kind)) [
      | inr other ↦ absurd (cc (rw (walk, new, found, other) at e))
      | inl same ↦ up_beside p c (apart p c found new) found (same_kind_eq c.kind kind same) (
          walk-ChainBeside fuel d kind (p ∷ seen) x c.parent_id
            (λ q w h unseen. apart q w h (ground arith)) (rw (walk, new, found, same) at e))
    ]
  ]
]

insert-Chain :
    (d : Dict ℕ Category) (kind : CategoryKind) (x : ℕ) (w : Category) (o : Option ℕ)
    → ChainBeside d kind x o
    → Chain (insert x w d) kind o
insert-Chain d kind x w _ done_beside = done
insert-Chain d kind x w _ (up_beside k c apart found same rest) =
    up k c (lookup-insert_ne k x w d apart ∙ found) same (insert-Chain d kind x w c.parent_id rest)

module _ (d : Dict ℕ Category) (x : ℕ) (w : Category) where
  -- A chain of the old table is one of the new one, also through the row that was written.
  moved :
      (kind : CategoryKind) (o : Option ℕ)
      → ((c : Category) → lookup x d ≡ some c → c.kind ≡ w.kind)
      → Chain (insert x w d) w.kind w.parent_id
      → Chain d kind o
      → Chain (insert x w d) kind o
  moved kind _ keeps own done = done
  moved kind _ keeps own (up k c found same rest) = elim (Bool-cases (k == x)) [
    | inl here ↦
        let e : k ≡ x = (==_iff k x).0 here in
        let at_x : lookup x d ≡ some c = ap (λ j. lookup j d) (sym e) ∙ found in
        let kinds : w.kind ≡ kind = sym (keeps c at_x) ∙ same in
        up k w (ap (λ j. lookup j (insert x w d)) e ∙ lookup-insert_self x w d) kinds
          (subst (λ n. Chain (insert x w d) n w.parent_id) kinds own)
    | inr there ↦
        up k c (lookup-insert_ne k x w d (λ e. cc (sym ((==_iff k x).1 e) ∙ there)) ∙ found) same
          (moved kind c.parent_id keeps own rest)
  ]

  insert-IsForest :
      IsForest d
      → ((c : Category) → lookup x d ≡ some c → c.kind ≡ w.kind)
      → ChainBeside d w.kind x w.parent_id
      → IsForest (insert x w d)
  insert-IsForest forest keeps parents k c found =
      let own : Chain (insert x w d) w.kind w.parent_id =
        insert-Chain d w.kind x w w.parent_id parents in
      elim (Bool-cases (k == x)) [
        | inl here ↦
            let e : k ≡ x = (==_iff k x).0 here in
            let is_w : w ≡ c = some-injective _ _ (
              sym (lookup-insert_self x w d) ∙ ap (λ j. lookup j (insert x w d)) (sym e) ∙ found) in
            subst (λ (v : Category). Chain (insert x w d) v.kind v.parent_id) is_w own
        | inr there ↦
            let old : lookup k d ≡ some c =
              sym (lookup-insert_ne k x w d (λ e. cc (sym ((==_iff k x).1 e) ∙ there))) ∙ found in
            moved c.kind c.parent_id keeps own (forest k c old)
      ]

-- `save_category`, taken apart.
pub record Saved (body : CategoryWrite) (key : Option ℕ) (s : Store) (r : ℕ × Store) : Type 0 where
  pub old : Option Category
  pub found : current key s.categories ≡ ok old
  pub kinds : kind_changes old body.kind ≡ false
  pub parents :
      walk (suc (length s.categories)) s.categories body.kind (seen_first key) body.parent_id
      ≡ ok tt
  pub result : put_category body key old s ≡ r

pub raise_if-ok :
    {E : Type 0} (b : Bool) (x : E) → Path (Result E Unit) (raise_if b x) (ok tt) → b ≡ false
raise_if-ok true x h = absurd (cc h)
raise_if-ok false x h = refl

pub save_category-Saved :
    (body : CategoryWrite) (key : Option ℕ) (s : Store) {r : ℕ × Store}
    → save_category body key s ≡ ok r
    → Saved body key s r
unfolding save_category
save_category-Saved body key s {r} e =
    let (old, found, e1) = >>=-ok (current key s.categories) _ e in
    let (_, revision, e2) = >>=-ok (check_revision (revision_of old) body.expected_revision) _ e1 in
    let (_, kinds, e3) = >>=-ok (raise_if (kind_changes old body.kind) kind_immutable) _ e2 in
    let (_, name, e4) = >>=-ok (raise_if (is_blank body.name) blank_name) _ e3 in
    let (_, parents, last) =
      >>=-ok
        (walk (suc (length s.categories)) s.categories body.kind (seen_first key) body.parent_id) _
        e4 in
    record {
      old = old;
      found = found;
      kinds = raise_if-ok _ _ kinds;
      parents = parents;
      result = ok-injective last;
    }

not-false : (b : Bool) → not b ≡ false → b ≡ true
not-false true h = refl
not-false false h = cc h

-- A category that is saved keeps its kind.
pub keeps_kind :
    (key : Option ℕ) (kind : CategoryKind) (s : Store) (old : Option Category)
    → IsWellFormed s
    → current key s.categories ≡ ok old
    → kind_changes old kind ≡ false
    → (c : Category) → lookup (row_id key s) s.categories ≡ some c
    → c.kind ≡ kind
keeps_kind none kind s old v found kinds c at_x =
    absurd (let h = v.fresh s.next_id c at_x in omega arith)
keeps_kind (some key) kind s old v found kinds c at_x =
    let same : Path (Result HouseholdError (Option Category)) (ok (some c)) (ok old) =
      rw (current, at_x) at found in
    same_kind_eq c.kind kind
      (not-false _ (ap (λ o. kind_changes o kind) (ok-injective same) ∙ kinds))

-- A parent that the loop has not seen is not the category that is saved.
unseen_apart :
    (key : Option ℕ) (s : Store)
    → IsWellFormed s
    → (p : ℕ) (c : Category) → lookup p s.categories ≡ some c
    → is_in p (seen_first key) ≡ false
    → p ≢ row_id key s
unseen_apart none s v p c found new e = let h = v.fresh p c found in absurd (omega arith)
unseen_apart (some key) s v p c found new e = ground arith

row_id_fresh :
    (key : Option ℕ) (s : Store) (old : Option Category)
    → IsWellFormed s
    → current key s.categories ≡ ok old
    → row_id key s < suc (suc s.next_id)
row_id_fresh none s old v found = omega arith
row_id_fresh (some key) s old v found = elim (Option-cases (lookup key s.categories)) [
  | inl missing ↦ absurd (cc (rw (current, missing) at found))
  | inr (c, there) ↦ let h = v.fresh key c there in omega arith
]

module _ (body : CategoryWrite) (key : Option ℕ) (s : Store) (old : Option Category)
    (v : IsWellFormed s) where
  put_category-IsWellFormed :
      current key s.categories ≡ ok old
      → kind_changes old body.kind ≡ false
      → ChainBeside s.categories body.kind (row_id key s) body.parent_id
      → IsWellFormed (put_category body key old s).1
  unfolding put_category audit
  put_category-IsWellFormed found kinds parents = record {
    forest =
        insert-IsForest s.categories (row_id key s) (written body old) v.forest
          (keeps_kind key body.kind s old v found kinds) parents;
    fresh = λ k c here. elim (Bool-cases (k == row_id key s)) [
      | inl this ↦
          let e : k ≡ row_id key s = (==_iff k (row_id key s)).0 this in
          omega (arith, row_id_fresh key s old v found)
      | inr other ↦
          let was : lookup k s.categories ≡ some c =
            sym (
              lookup-insert_ne k (row_id key s) (written body old) s.categories
                (λ e. cc (sym ((==_iff k (row_id key s)).1 e) ∙ other)))
            ∙ here in
          omega (arith, v.fresh k c was)
    ];
  }

-- Saving a category keeps the table a forest with one kind per tree: no category is its own
-- ancestor, no parent is missing, and none is of the other kind. Ids stay below the next one.
pub save_category-IsWellFormed :
    (body : CategoryWrite) (key : Option ℕ) (s : Store) {id : ℕ} {after : Store}
    → IsWellFormed s
    → save_category body key s ≡ ok (id, after)
    → IsWellFormed after
save_category-IsWellFormed body key s {id} {after} v e =
    let saved = save_category-Saved body key s e in
    subst (λ (r : ℕ × Store). IsWellFormed r.1) saved.result
      (put_category-IsWellFormed body key s saved.old v saved.found saved.kinds (
        walk-ChainBeside (suc (length s.categories)) s.categories body.kind (seen_first key)
          (row_id key s) body.parent_id (unseen_apart key s v) saved.parents))
