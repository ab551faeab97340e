-- ===== src/Tax/Dk/Topskat.antt =====
-- src/penge/tax/dk/topskat.py: the exposure of pension income to the surtax.
pub mod Exact
use penge.Prelude.{ℕ, Bool, ◌||◌, Result, ok, err, ◌>>=◌, ◌>>◌, raise_if, if◌then◌else◌}
use penge.Prelude.Int.{pos}
use penge.Errors.{Exn, topskat_error}
use penge.Decimal.{Decimal, sub, mul, div, lt, le, quantize, nought, whole, max_decimal}

-- DK_TOPSKAT_RATE
abbrev pub topskat_rate : Decimal
topskat_rate = record { coef = pos 15; places = 2 }

-- The texts that `_primary_suggestion` returns, the first for the empty one.
pub data Suggestion : Type 0 where
  no_suggestion redirect_and_extend shift_and_extend delay_or_extend : Suggestion

pub record TopskatWarning : Type 0 where
  pub annual_pension_income : Decimal
  pub topskat_threshold : Decimal
  pub income_above_threshold : Decimal
  pub estimated_topskat : Decimal
  pub in_topskat : Bool
  pub suggestion : Suggestion

-- By how much of the threshold the income is above it.
abbrev pub severity : Decimal → Suggestion
severity excess_fraction =
    if lt (whole 1) excess_fraction
    then redirect_and_extend
    else if lt (record { coef = pos 3; places = 1 }) excess_fraction
    then shift_and_extend
    else delay_or_extend

unfoldable pub primary_suggestion : Decimal → Decimal → Result Exn Suggestion
primary_suggestion annual_income threshold =
    if le annual_income threshold then ok no_suggestion else (do
      excess_fraction ← div (sub annual_income threshold) threshold
      ok (severity excess_fraction))

unfoldable pub check_topskat_exposure : Decimal → Decimal → Result Exn TopskatWarning
unfolding primary_suggestion
check_topskat_exposure income threshold =
    let above : Decimal = max_decimal (sub income threshold) nought in
    do
      raise_if (lt income nought || le threshold nought) topskat_error
      topskat ← quantize 2 (mul above topskat_rate)
      suggestion ← primary_suggestion income threshold
      i ← quantize 2 income
      t ← quantize 2 threshold
      a ← quantize 2 above
      ok (record {
        annual_pension_income = i;
        topskat_threshold = t;
        income_above_threshold = a;
        estimated_topskat = topskat;
        in_topskat = lt nought above;
        suggestion = suggestion;
      })

-- `topskat_from_payout`, on the projection's total_monthly_gross_eur.
unfoldable pub topskat_from_payout : Decimal → Decimal → Decimal → Result Exn TopskatWarning
unfolding check_topskat_exposure
topskat_from_payout total_monthly_gross_eur eur_per_dkk threshold = do
  raise_if (le eur_per_dkk nought) topskat_error
  annual_dkk ← div (mul total_monthly_gross_eur (whole 12)) eur_per_dkk
  check_topskat_exposure annual_dkk threshold
