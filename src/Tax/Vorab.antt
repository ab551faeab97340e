-- ===== src/Tax/Vorab.antt =====
-- src/penge/tax/de_vorab.py: the German Vorabpauschale of one fund and year.
pub mod Amounts
use Prim.Native.String.{count}
use penge.Prelude.{
  ℕ, String, Bool, ◌||◌, not, ltb, ◌==◌, List, Option, none, some, Result, ok, err, ◌>>=◌, ◌>>◌,
  raise_if, traverse, if◌then◌else◌,
}
use penge.Prelude.Int.{pos, negsuc}
use penge.Errors.{Exn, vorab_error, validation_error}
use penge.Decimal.{
  Decimal, add, sub, mul, div, lt, quantize, nought, whole, max_decimal, min_decimal,
}
use penge.Tax.Money.{Money, eur, same_currency}

-- ABGELT_RATE
abbrev pub abgelt_rate : Decimal
abgelt_rate = record { coef = pos 26375; places = 5 }

abbrev ten_thousandths : ℕ → Decimal
ten_thousandths n = record { coef = pos n; places = 4 }

-- BASISZINS_DE
unfoldable pub basiszins_de : ℕ → Option Decimal
basiszins_de year =
    if year == 2018
    then some (ten_thousandths 87)
    else if year == 2019
    then some (ten_thousandths 52)
    else if year == 2020
    then some (ten_thousandths 7)
    else if year == 2021
    then some (record { coef = negsuc 44; places = 4 })
    else if year == 2022
    then some (record { coef = negsuc 4; places = 4 })
    else if year == 2023
    then some (ten_thousandths 255)
    else if year == 2024
    then some (ten_thousandths 229)
    else if year == 2025
    then some (ten_thousandths 225)
    else none

pub data FundClassification : Type 0 where
  equity mixed real_estate other : FundClassification

-- TEILFREISTELLUNG_QUOTES
abbrev pub teilfreistellung_quote : FundClassification → Decimal
teilfreistellung_quote equity = record { coef = pos 30; places = 2 }
teilfreistellung_quote mixed = record { coef = pos 15; places = 2 }
teilfreistellung_quote real_estate = record { coef = pos 60; places = 2 }
teilfreistellung_quote other = record { coef = pos 0; places = 2 }

unfoldable pub ensure_eur_nonneg : Money → Result Exn Money
ensure_eur_nonneg v =
    if not (same_currency v.currency eur)
    then err vorab_error
    else if lt v.amount nought
    then err vorab_error
    else ok v

pub record VorabInput : Type 0 where
  pub isin : String
  pub tax_year : ℕ
  pub classification : FundClassification
  pub start_value : Money
  pub end_value : Money
  pub distributions : Money
  pub holding_months : ℕ

-- The validators of `VorabInput`: a VorabError first, then the constraints of the fields.
unfoldable pub validate_input : VorabInput → Result Exn VorabInput
unfolding ensure_eur_nonneg
validate_input inp = do
  ensure_eur_nonneg inp.start_value
  ensure_eur_nonneg inp.end_value
  ensure_eur_nonneg inp.distributions
  raise_if
      (not (count inp.isin == 12)
        || ltb inp.tax_year 1900
        || ltb 2999 inp.tax_year
        || ltb inp.holding_months 1
        || ltb 12 inp.holding_months)
      validation_error
  ok inp

pub record VorabResult : Type 0 where
  pub isin : String
  pub tax_year : ℕ
  pub classification : FundClassification
  pub basiszins : Decimal
  pub basisertrag : Money
  pub wertzuwachs : Money
  pub vorabpauschale : Money
  pub teilfreistellung : Decimal
  pub taxable : Money
  pub tax_due : Money

-- `_eur`
unfoldable pub in_eur : Decimal → Result Exn Money
in_eur d = do q ← quantize 2 d; ok (record { amount = q; currency = eur })

abbrev pub basisertrag_raw : VorabInput → Decimal → Decimal → Decimal
basisertrag_raw inp basiszins months_factor =
    mul (mul (mul inp.start_value.amount basiszins) (record { coef = pos 7; places = 1 }))
      months_factor

abbrev pub wertzuwachs_raw : VorabInput → Decimal
wertzuwachs_raw inp = add (sub inp.end_value.amount inp.start_value.amount) inp.distributions.amount

unfoldable pub vorab_raw : VorabInput → Decimal → Decimal
vorab_raw inp basisertrag =
    min_decimal (max_decimal (sub basisertrag inp.distributions.amount) nought)
      (max_decimal (wertzuwachs_raw inp) nought)

abbrev pub taxable_raw : VorabInput → Decimal → Decimal
taxable_raw inp vorabpauschale =
    mul vorabpauschale (sub (whole 1) (teilfreistellung_quote inp.classification))

-- The part after the rate and the months' factor are known.
unfoldable pub assemble : VorabInput → Decimal → Decimal → Result Exn VorabResult
unfolding vorab_raw in_eur
assemble inp basiszins months_factor =
    let base : Decimal = basisertrag_raw inp basiszins months_factor in
    let vorab : Decimal = vorab_raw inp base in
    do
      basisertrag ← in_eur base
      wertzuwachs ← in_eur (wertzuwachs_raw inp)
      vorabpauschale ← in_eur vorab
      taxable ← in_eur (taxable_raw inp vorab)
      tax_due ← in_eur (mul (taxable_raw inp vorab) abgelt_rate)
      ok (record {
        isin = inp.isin;
        tax_year = inp.tax_year;
        classification = inp.classification;
        basiszins = basiszins;
        basisertrag = basisertrag;
        wertzuwachs = wertzuwachs;
        vorabpauschale = vorabpauschale;
        teilfreistellung = teilfreistellung_quote inp.classification;
        taxable = taxable;
        tax_due = tax_due;
      })

unfoldable pub compute_vorabpauschale : VorabInput → Result Exn VorabResult
unfolding assemble
compute_vorabpauschale inp = elim (basiszins_de inp.tax_year) [
  | none ↦ err vorab_error
  | some raw ↦ div (whole inp.holding_months) (whole 12) >>= assemble inp (max_decimal raw nought)
]

unfoldable pub compute_vorabpauschale_many : List VorabInput → Result Exn (List VorabResult)
unfolding compute_vorabpauschale traverse
compute_vorabpauschale_many inputs = traverse compute_vorabpauschale inputs
