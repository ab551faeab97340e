-- ===== src/Household/Splits.antt =====
-- `validate_splits` and `validate_economic_splits` of src/penge/household/service.py. Amounts are
-- Numeric(20, 4), at most 100 to a list, so that Python's sums of them are exact.
pub mod Balance
use penge.Prelude.{
  ℕ, ◌%◌, String, Bool, true, false, not, ◌&&◌, ◌||◌, ◌==◌, List, [], ◌∷◌, Option, none, some, map,
  Result, ok, err, ◌>>=◌, ◌>>◌, raise_if, if◌then◌else◌,
}
use penge.Prelude.Eq.{nat_eq}
use penge.Prelude.Int.{ℤ, ◌+ℤ◌, pos, negsuc, abs, eqb_ℤ, ltb_ℤ, sum_ℤ}
use penge.Prelude.Dict.{Dict, lookup}
use penge.Household.Labels
use penge.Household.Labels.{Text}
use penge.Household.Schemas.{
  CategoryKind, expense_kind, income_kind, Category, Merchant, Treatment, expense, income, refund,
  transfer, excluded, unclassified, Account, SourceTransaction, Split, ClassificationWrite,
  ClassificationOut,
}
use penge.Household.Store.{
  HouseholdError, not_a_bank_movement, unsupported_currency, duplicate_category,
  allocations_not_allowed, identity_without_merchant, merchant_archived, not_conserved,
  zero_movement, not_cents, wrong_sign, wrong_direction, wrong_category_type, category_archived,
  Store, require,
}
use penge.Household.Categories.{same_kind, is_in}
use penge.Household.Outs.{str_eq}

-- "gls", "ebank" and "lunar", by code points.
abbrev pub bank_providers : List Text
bank_providers =
    (103 ∷ 108 ∷ 115 ∷ [])
    ∷ (101 ∷ 98 ∷ 97 ∷ 110 ∷ 107 ∷ [])
    ∷ (108 ∷ 117 ∷ 110 ∷ 97 ∷ 114 ∷ [])
    ∷ []

abbrev pub is_bank : Text → Bool
is_bank p = Labels.is_in p bank_providers

abbrev pub is_supported : String → Bool
is_supported c = str_eq c "EUR" || str_eq c "DKK"

abbrev pub is_economic : Treatment → Bool
is_economic expense = true
is_economic income = true
is_economic refund = true
is_economic _ = false

abbrev pub is_expense : Treatment → Bool
is_expense expense = true
is_expense _ = false

-- The category type that a treatment wants.
abbrev pub wanted_kind : Treatment → CategoryKind
wanted_kind income = income_kind
wanted_kind _ = expense_kind

abbrev pub is_zero : ℤ → Bool
is_zero x = eqb_ℤ x (pos 0)

abbrev pub is_positive : ℤ → Bool
is_positive x = ltb_ℤ (pos 0) x

abbrev pub is_negative : ℤ → Bool
is_negative x = ltb_ℤ x (pos 0)

-- `amount == amount.quantize(Decimal("0.01"))` for a number of ten-thousandths.
abbrev pub is_cents : ℤ → Bool
is_cents x = (abs x % 100) == 0

-- `a != b` on Booleans.
abbrev pub differ : Bool → Bool → Bool
differ true b = not b
differ false b = b

abbrev pub amounts : List Split → List ℤ
amounts = map (λ (x : Split). x.amount)

abbrev pub category_ids : List Split → List ℕ
category_ids = map (λ (x : Split). x.category_id)

-- `len(ids) != len(set(ids))`
abbrev pub has_duplicate : List ℕ → Bool
has_duplicate [] = false
has_duplicate (k ∷ ks) = is_in k ks || has_duplicate ks

abbrev pub is_empty : List ℤ → Bool
is_empty [] = true
is_empty (x ∷ xs) = false

-- The loop over [transaction.amount, *money].
unfoldable pub check_amounts : (total : ℤ) → List ℤ → Result HouseholdError Unit
check_amounts total [] = ok tt
check_amounts total (x ∷ xs) = do
  raise_if (not (is_cents x)) not_cents
  raise_if (is_zero x || differ (is_positive x) (is_positive total)) wrong_sign
  check_amounts total xs

-- `retained`
abbrev pub is_retained : ℕ → Option ClassificationOut → Bool
is_retained id none = false
is_retained id (some old) = is_in id (category_ids old.allocations)

unfoldable pub check_categories :
    Treatment → Option ClassificationOut → Dict ℕ Category → List Split → Result HouseholdError Unit
check_categories treatment old d [] = ok tt
check_categories treatment old d (x ∷ xs) = do
  c ← require x.category_id d
  raise_if (not (same_kind c.kind (wanted_kind treatment))) wrong_category_type
  raise_if (c.archived && not (is_retained x.category_id old)) category_archived
  check_categories treatment old d xs

unfoldable pub validate_economic_splits :
    SourceTransaction
    → ClassificationWrite
    → Option ClassificationOut
    → Store
    → Result HouseholdError Unit
unfolding check_amounts check_categories sum_ℤ ◌+ℤ◌
validate_economic_splits t body old s = do
  raise_if
      (is_empty (amounts body.allocations)
        || not (eqb_ℤ (sum_ℤ (amounts body.allocations)) t.amount))
      not_conserved
  raise_if (is_zero t.amount) zero_movement
  check_amounts t.amount (t.amount ∷ amounts body.allocations)
  raise_if (differ (is_expense body.treatment) (is_negative t.amount)) wrong_direction
  check_categories body.treatment old s.categories body.allocations

-- The branch on the treatment.
unfoldable pub check_treatment :
    SourceTransaction
    → ClassificationWrite
    → Option ClassificationOut
    → Store
    → Result HouseholdError Unit
unfolding validate_economic_splits
check_treatment t body old s =
    if is_economic body.treatment
    then validate_economic_splits t body old s
    else raise_if (not (is_empty (amounts body.allocations))) allocations_not_allowed

abbrev pub is_missing : Option ℕ → Bool
is_missing none = true
is_missing (some k) = false

abbrev pub check_merchant : Option ℕ → Dict ℕ Merchant → Result HouseholdError Unit
check_merchant none d = ok tt
check_merchant (some k) d = do m ← require k d; raise_if m.archived merchant_archived

unfoldable pub validate_splits :
    SourceTransaction
    → Account
    → ClassificationWrite
    → Option ClassificationOut
    → Store
    → Result HouseholdError Unit
unfolding check_treatment
validate_splits t account body old s = do
  raise_if (not (is_bank account.provider)) not_a_bank_movement
  raise_if (not (is_supported account.currency)) unsupported_currency
  raise_if (has_duplicate (category_ids body.allocations)) duplicate_category
  check_treatment t body old s
  raise_if (body.identity_confirmed && is_missing body.merchant_id) identity_without_merchant
  check_merchant body.merchant_id s.merchants
