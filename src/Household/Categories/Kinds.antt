-- ===== src/Household/Categories/Kinds.antt =====
-- Saving a category changes no category's kind and nothing but the categories
-- (src/penge/household/service.py).
use penge.Prelude.{
  ℕ, ◌≡◌, ◌∙◌, subst, refl, sym, ap, inl, inr, ◌==◌, ==_iff, Bool-cases, Option, some, ok,
}
use penge.Prelude.Eq.{nat_eq}
use penge.Prelude.Dict.{lookup, insert, lookup-insert_ne, lookup-insert_self}
use penge.Household.Schemas.{CategoryKind, Category, CategoryWrite}
use penge.Household.Store.{Store, audit}
use penge.Household.Categories.{row_id, written, put_category, save_category}
use penge.Household.Categories.Forest.{IsWellFormed, save_category-Saved, keeps_kind}
use penge.Household.Splits.Balance.{HasKind}
use penge.Household.Frame.{apart_of}

pub record KeepsKinds (s t : Store) : Type 0 where
  pub kinds :
      (kind : CategoryKind) (id : ℕ) → HasKind s.categories kind id → HasKind t.categories kind id
  pub classifications : t.classifications ≡ s.classifications
  pub allocations : t.allocations ≡ s.allocations

module _ (body : CategoryWrite) (key : Option ℕ) (old : Option Category) (s : Store) where
  put_category-KeepsKinds :
      ((c : Category) → lookup (row_id key s) s.categories ≡ some c → c.kind ≡ body.kind)
      → KeepsKinds s (put_category body key old s).1
  unfolding put_category audit
  put_category-KeepsKinds keeps =
      let x : ℕ = row_id key s in
      let w : Category = written body old in
      record {
        kinds = λ kind id has. elim (Bool-cases (id == x)) [
          | inl here ↦
              let e : id ≡ x = (==_iff id x).0 here in
              let at_x : lookup x s.categories ≡ some has.0 =
                ap (λ j. lookup j s.categories) (sym e) ∙ has.1 in
              (
                w,
                ap (λ j. lookup j (insert x w s.categories)) e
                    ∙ lookup-insert_self x w s.categories,
                sym (keeps has.0 at_x) ∙ has.2,
              )
          | inr there ↦
              (has.0, lookup-insert_ne id x w s.categories (apart_of id x there) ∙ has.1, has.2)
        ];
        classifications = refl;
        allocations = refl;
      }

pub save_category-KeepsKinds :
    (body : CategoryWrite) (key : Option ℕ) (s : Store) {id : ℕ} {t : Store}
    → IsWellFormed s
    → save_category body key s ≡ ok (id, t)
    → KeepsKinds s t
save_category-KeepsKinds body key s v e =
    let saved = save_category-Saved body key s e in
    subst (λ (r : ℕ × Store). KeepsKinds s r.1) saved.result
      (put_category-KeepsKinds body key saved.old s
        (keeps_kind key body.kind s saved.old v saved.found saved.kinds))
