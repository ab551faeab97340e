-- ===== src/Tax/Dk/Folkepension.antt =====
-- src/penge/tax/dk/folkepension.py, with its figures from src/penge/tax/dk/rates.py. A Decimal of
-- the model is finite, so the checks for that do not appear.
pub mod Split
pub mod Ages
use penge.Prelude.{
  ℕ, Bool, ◌||◌, ltb, leb, List, [], ◌∷◌, Option, none, some, Result, ok, err, ◌>>=◌, ◌>>◌,
  raise_if, if◌then◌else◌,
}
use penge.Prelude.Int.{pos}
use penge.Errors.{Exn, folkepension_error}
use penge.Decimal.{
  Decimal, add, sub, mul, div, lt, le, quantize, nought, whole, max_decimal, min_decimal,
}

-- FOLKEPENSION_AGE_SCHEDULE, by ascending year as `sorted` gives it.
abbrev pub age_schedule : List (ℕ × ℕ)
age_schedule = (2026, 67) ∷ (2030, 68) ∷ (2035, 69) ∷ []

-- The loop over the effective years.
unfoldable pub age_from : ℕ → ℕ → List (ℕ × ℕ) → ℕ
age_from retirement_year age [] = age
age_from retirement_year age ((year, next) ∷ rest) =
    age_from retirement_year (if leb year retirement_year then next else age) rest

unfoldable pub folkepension_age_for_year : ℕ → Result Exn ℕ
unfolding age_from
folkepension_age_for_year retirement_year =
    if ltb retirement_year 2026
    then err folkepension_error
    else ok (age_from retirement_year 67 age_schedule)

abbrev pub grundbeloeb_default : Decimal
grundbeloeb_default = whole 7191

abbrev pub tillaeg_single : Decimal
tillaeg_single = whole 18389

abbrev pub tillaeg_married : Decimal
tillaeg_married = whole 8993

abbrev pub modregning_rate_default : Decimal
modregning_rate_default = record { coef = pos 309; places = 3 }

abbrev pub income_threshold_default : Decimal
income_threshold_default = whole 94800

pub data CivilStatus : Type 0 where
  single married : CivilStatus

pub record FolkepensionConfig : Type 0 where
  pub civil_status : CivilStatus
  pub folkepension_age : ℕ
  pub annual_private_pension_income : Decimal
  pub grundbeloeb_monthly : Decimal
  pub tillaeg_max_monthly : Option Decimal
  pub modregning_rate : Decimal
  pub income_threshold : Decimal

pub record FolkepensionResult : Type 0 where
  pub grundbeloeb_monthly : Decimal
  pub tillaeg_before_modregning : Decimal
  pub modregning : Decimal
  pub tillaeg_after_modregning : Decimal
  pub total_monthly : Decimal

abbrev pub tillaeg_of : CivilStatus → Decimal
tillaeg_of single = tillaeg_single
tillaeg_of married = tillaeg_married

-- `_resolve_tillaeg_max`
abbrev pub resolve_tillaeg_max : FolkepensionConfig → Decimal
resolve_tillaeg_max c = elim c.tillaeg_max_monthly [ some m ↦ m | none ↦ tillaeg_of c.civil_status ]

-- The checks of the inputs.
unfoldable pub is_refused : FolkepensionConfig → Bool
is_refused c =
    lt c.annual_private_pension_income nought
    || lt c.grundbeloeb_monthly nought
    || lt c.modregning_rate nought
    || lt (whole 1) c.modregning_rate
    || lt c.income_threshold nought
    || ltb c.folkepension_age 60
    || lt (resolve_tillaeg_max c) nought

-- `monthly_modregning_raw`
unfoldable pub monthly_reduction : FolkepensionConfig → Result Exn Decimal
monthly_reduction c = do
  monthly ←
      div
        (mul (max_decimal (sub c.annual_private_pension_income c.income_threshold) nought)
          c.modregning_rate)
        (whole 12)
  quantize 2 monthly

unfoldable pub compute_folkepension : FolkepensionConfig → Result Exn FolkepensionResult
unfolding is_refused monthly_reduction
compute_folkepension c = do
  raise_if (is_refused c) folkepension_error
  raw ← monthly_reduction c
  reduction ← quantize 2 (min_decimal raw (resolve_tillaeg_max c))
  after ← quantize 2 (max_decimal (sub (resolve_tillaeg_max c) raw) nought)
  total ← quantize 2 (add c.grundbeloeb_monthly after)
  grund ← quantize 2 c.grundbeloeb_monthly
  before ← quantize 2 (resolve_tillaeg_max c)
  ok (record {
    grundbeloeb_monthly = grund;
    tillaeg_before_modregning = before;
    modregning = reduction;
    tillaeg_after_modregning = after;
    total_monthly = total;
  })

-- `folkepension_from_payout`, on the projection's total_monthly_gross_eur; the income of `c` is
-- replaced by that of the projection.
unfoldable pub folkepension_from_payout :
    Decimal → Decimal → FolkepensionConfig → Result Exn FolkepensionResult
unfolding compute_folkepension
folkepension_from_payout total_monthly_gross_eur eur_per_dkk c = do
  raise_if (le eur_per_dkk nought) folkepension_error
  annual_dkk ← div (mul total_monthly_gross_eur (whole 12)) eur_per_dkk
  compute_folkepension (record c { annual_private_pension_income = annual_dkk })
