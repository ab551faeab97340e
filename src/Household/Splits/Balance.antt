-- ===== src/Household/Splits/Balance.antt =====
-- What the checks of a split amount to: an independent description, and the proof that
-- validate_splits of src/penge/household/service.py lets nothing else through.
use penge.Prelude.{
  ℕ, ◌%◌, ◌≡◌, ◌≢◌, ◌∙◌, ◌⊎◌, refl, inl, inr, arith, Bool, true, false, not, ◌||◌, ◌&&◌,
  Option-cases, >>=-ok, List, [], ◌∷◌, All, Option, some, Result, ok, raise_if,
}
use penge.Prelude.Eq.{nat_eq}
use penge.Prelude.Int.{ℤ, pos, negsuc, pos_part, neg_part, abs, sum_ℤ, eqb_ℤ, eq_of_eqb_ℤ}
use penge.Prelude.Dict.{Dict, lookup}
use penge.Household.Schemas.{
  CategoryKind, Category, Treatment, Account, SourceTransaction, Split, ClassificationWrite,
  ClassificationOut,
}
use penge.Household.Store.{
  not_cents, wrong_sign, wrong_category_type, category_archived, not_conserved, zero_movement,
  wrong_direction, allocations_not_allowed, not_a_bank_movement, unsupported_currency,
  duplicate_category, Store, require,
}
use penge.Household.Categories.{same_kind, is_in}
use penge.Household.Categories.Forest.{same_kind_eq, raise_if-ok}
use penge.Household.Splits.{
  is_bank, is_supported, is_economic, is_expense, wanted_kind, is_zero, is_positive, is_negative,
  is_cents, differ, amounts, category_ids, has_duplicate, is_empty, check_amounts, is_retained,
  check_categories, validate_economic_splits, check_treatment, validate_splits,
}

-- Neither zero, nor of the other sign than the total, nor a fraction of a cent.
pub record IsShare (total x : ℤ) : Type 0 where
  pub cents : abs x % 100 ≡ 0
  pub nonzero : x ≢ pos 0
  pub sign : ((neg_part x ≡ 0) × (neg_part total ≡ 0)) ⊎ ((pos_part x ≡ 0) × (pos_part total ≡ 0))

-- The category is there and has the type that the treatment wants.
abbrev pub HasKind : Dict ℕ Category → CategoryKind → ℕ → Type 0
HasKind d kind id = (c : Category) × (lookup id d ≡ some c) × (c.kind ≡ kind)

abbrev pub AllApart : List ℕ → Type 0
AllApart [] = Unit
AllApart (k ∷ ks) = All (λ j. k ≢ j) ks × AllApart ks

-- The shares of a movement of income or spending.
pub record IsShared (d : Dict ℕ Category) (treatment : Treatment) (total : ℤ) (xs : List Split)
    : Type 0 where
  pub conserved : sum_ℤ (amounts xs) ≡ total
  pub shares : All (IsShare total) (amounts xs)
  pub expense_debits : is_expense treatment ≡ true → pos_part total ≡ 0
  pub others_credit : is_expense treatment ≡ false → neg_part total ≡ 0
  pub typed : All (HasKind d (wanted_kind treatment)) (category_ids xs)

pub record IsBalanced (d : Dict ℕ Category) (treatment : Treatment) (total : ℤ) (xs : List Split)
    : Type 0 where
  pub apart : AllApart (category_ids xs)
  pub economic : is_economic treatment ≡ true → IsShared d treatment total xs
  pub others : is_economic treatment ≡ false → xs ≡ []

not-true : (b : Bool) → not b ≡ false → b ≡ true
not-true true h = refl
not-true false h = cc h

-- From raise_if that did not raise.
passed :
    {E : Type 0} (b : Bool) (x : E) → Path (Result E Unit) (raise_if (not b) x) (ok tt) → b ≡ true
passed true x h = refl
passed false x h = absurd (cc h)

is_share :
    (total x : ℤ)
    → is_cents x ≡ true
    → (is_zero x || differ (is_positive x) (is_positive total)) ≡ false
    → IsShare total x
is_share (pos m) (pos n) h e = record {
  cents = ground arith;
  nonzero = λ z. ground arith;
  sign = inl (refl, refl);
}
is_share (negsuc m) (negsuc n) h e = record {
  cents = ground arith;
  nonzero = λ z. cc z;
  sign = inr (refl, refl);
}
is_share (pos m) (negsuc n) h e = record {
  cents = ground arith;
  nonzero = λ z. cc z;
  sign = inr (refl, ground arith);
}
is_share (negsuc m) (pos n) h e = absurd (ground arith)

check_amounts-All :
    (total : ℤ) (xs : List ℤ) → check_amounts total xs ≡ ok tt → All (IsShare total) xs
unfolding check_amounts
check_amounts-All total [] e = tt
check_amounts-All total (x ∷ xs) e =
    let (_, cents, e1) = >>=-ok (raise_if (not (is_cents x)) not_cents) _ e in
    let (_, sign, e2) =
      >>=-ok (raise_if (is_zero x || differ (is_positive x) (is_positive total)) wrong_sign) _ e1 in
    (is_share total x (passed _ _ cents) (raise_if-ok _ _ sign), check_amounts-All total xs e2)

pub require-some :
    {V : Type 0} (k : ℕ) (d : Dict ℕ V) {v : V} → require k d ≡ ok v → lookup k d ≡ some v
require-some k d {v} e = elim (Option-cases (lookup k d)) [
  | inl missing ↦ absurd (cc (rw (require, missing) at e))
  | inr (w, found) ↦ let same = rw (require, found) at e in found ∙ cc same
]

check_categories-All :
    (treatment : Treatment) (old : Option ClassificationOut) (d : Dict ℕ Category) (xs : List Split)
    → check_categories treatment old d xs ≡ ok tt
    → All (HasKind d (wanted_kind treatment)) (category_ids xs)
unfolding check_categories
check_categories-All treatment old d [] e = tt
check_categories-All treatment old d (x ∷ xs) e =
    let (c, found, e1) = >>=-ok (require x.category_id d) _ e in
    let (_, kind, e2) =
      >>=-ok (raise_if (not (same_kind c.kind (wanted_kind treatment))) wrong_category_type) _ e1 in
    let (_, _, e3) =
      >>=-ok (raise_if (c.archived && not (is_retained x.category_id old)) category_archived) _
        e2 in
    (
      (c, require-some x.category_id d found, same_kind_eq _ _ (passed _ _ kind)),
      check_categories-All treatment old d xs e3,
    )

is_in-All : (k : ℕ) (ks : List ℕ) → is_in k ks ≡ false → All (λ j. k ≢ j) ks
is_in-All k [] e = tt
is_in-All k (j ∷ ks) e = ground (arith, is_in-All k ks)

has_duplicate-AllApart : (ks : List ℕ) → has_duplicate ks ≡ false → AllApart ks
has_duplicate-AllApart [] e = tt
has_duplicate-AllApart (k ∷ ks) e = ground (arith, is_in-All k ks, has_duplicate-AllApart ks)

second_false : (a b : Bool) → (a || not b) ≡ false → b ≡ true
second_false true b h = absurd (cc h)
second_false false true h = refl
second_false false false h = absurd (cc h)

debit : (x : ℤ) → differ true (is_negative x) ≡ false → pos_part x ≡ 0
debit (pos n) h = ground arith
debit (negsuc n) h = refl

credit : (x : ℤ) → differ false (is_negative x) ≡ false → neg_part x ≡ 0
credit (pos n) h = refl
credit (negsuc n) h = absurd (ground arith)

empty_amounts : (xs : List Split) → is_empty (amounts xs) ≡ true → xs ≡ []
empty_amounts [] h = refl
empty_amounts (x ∷ xs) h = absurd (cc h)

module _ (t : SourceTransaction) (body : ClassificationWrite) (old : Option ClassificationOut)
    (s : Store) where
  validate_economic_splits-IsShared :
      validate_economic_splits t body old s ≡ ok tt
      → IsShared s.categories body.treatment t.amount body.allocations
  unfolding validate_economic_splits
  validate_economic_splits-IsShared e =
      let (_, sum, e1) =
        >>=-ok
          (raise_if
            (is_empty (amounts body.allocations)
              || not (eqb_ℤ (sum_ℤ (amounts body.allocations)) t.amount))
            not_conserved)
          _ e in
      let (_, zero_free, e2) = >>=-ok (raise_if (is_zero t.amount) zero_movement) _ e1 in
      let (_, shares, e3) =
        >>=-ok (check_amounts t.amount (t.amount ∷ amounts body.allocations)) _ e2 in
      let (_, direction, e4) =
        >>=-ok
          (raise_if (differ (is_expense body.treatment) (is_negative t.amount)) wrong_direction) _
          e3 in
      record {
        conserved = eq_of_eqb_ℤ _ _ (second_false _ _ (raise_if-ok _ _ sum));
        shares = (check_amounts-All t.amount (t.amount ∷ amounts body.allocations) shares).1;
        expense_debits = λ x. debit t.amount (rw x at (raise_if-ok _ _ direction));
        others_credit = λ x. credit t.amount (rw x at (raise_if-ok _ _ direction));
        typed = check_categories-All body.treatment old s.categories body.allocations e4;
      }

  check_treatment_economic :
      is_economic body.treatment ≡ true
      → check_treatment t body old s ≡ ok tt
      → validate_economic_splits t body old s ≡ ok tt
  unfolding check_treatment
  check_treatment_economic yes_economic e = rw yes_economic at e

  check_treatment_other :
      is_economic body.treatment ≡ false
      → check_treatment t body old s ≡ ok tt
      → body.allocations ≡ []
  unfolding check_treatment
  check_treatment_other not_economic e =
      empty_amounts body.allocations (passed _ allocations_not_allowed (rw not_economic at e))

  -- What validate_splits lets through is balanced.
  pub validate_splits-IsBalanced :
      (account : Account)
      → validate_splits t account body old s ≡ ok tt
      → IsBalanced s.categories body.treatment t.amount body.allocations
  unfolding validate_splits check_treatment
  validate_splits-IsBalanced account e =
      let (_, bank, e1) =
        >>=-ok (raise_if (not (is_bank account.provider)) not_a_bank_movement) _ e in
      let (_, currency, e2) =
        >>=-ok (raise_if (not (is_supported account.currency)) unsupported_currency) _ e1 in
      let (_, distinct, e3) =
        >>=-ok (raise_if (has_duplicate (category_ids body.allocations)) duplicate_category) _ e2 in
      let (_, treated, e4) = >>=-ok (check_treatment t body old s) _ e3 in
      record {
        apart = has_duplicate-AllApart (category_ids body.allocations) (raise_if-ok _ _ distinct);
        economic = λ yes_economic.
            validate_economic_splits-IsShared (check_treatment_economic yes_economic treated);
        others = λ not_economic. check_treatment_other not_economic treated;
      }
