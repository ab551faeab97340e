-- ===== src/Tax/Aktiesparekonto.antt =====
-- src/penge/tax/aktiesparekonto.py: the flat 17 % wrapper and its cap on cumulative deposits.
pub mod Exact
pub mod Refusals
pub mod Caps
use penge.Prelude.{
  ℕ, String, Bool, ◌||◌, not, ltb, leb, ◌==◌, List, [], ◌∷◌, map, Option, none, some, Result, ok,
  err, ◌>>=◌, ◌>>◌, raise_if, if◌then◌else◌,
}
use penge.Prelude.Int.{pos}
use penge.Prelude.Eq.{string_eq}
use penge.Prelude.Sort.{sorted_by}
use penge.Errors.{Exn, ask_error, validation_error}
use penge.Decimal.{Decimal, add, mul, neg, lt, le, quantize, nought, whole}
use penge.Tax.Money.{Money, Currency, dkk, same_currency}
use penge.Tax.Lager.{LagerResult, in_dkk}

abbrev pub ask_rate : Decimal
ask_rate = record { coef = pos 17; places = 2 }

-- ASK_DEPOSIT_CAPS
unfoldable pub deposit_cap : ℕ → Option Decimal
deposit_cap year =
    if year == 2019
    then some (whole 50000)
    else if year == 2020
    then some (whole 100000)
    else if year == 2021
    then some (whole 102300)
    else if year == 2022
    then some (whole 103500)
    else if year == 2023
    then some (whole 106600)
    else if year == 2024
    then some (whole 135900)
    else if year == 2025
    then some (whole 142500)
    else none

pub record AskDeposit : Type 0 where
  pub year : ℕ
  pub amount : Money

-- The validators of `AskDeposit`: AskError leaves as it is, the bounds on the year are pydantic's.
unfoldable pub make_deposit : ℕ → Money → Result Exn AskDeposit
make_deposit year amount =
    if not (same_currency amount.currency dkk)
    then err ask_error
    else if ltb year 2019 || ltb 2999 year
    then err validation_error
    else ok (record { year = year; amount = amount })

pub record AskTaxResult : Type 0 where
  pub account_id : String
  pub tax_year : ℕ
  pub gain : Money
  pub tax_due : Money
  pub loss_carry_forward : Money

-- The three refusals of the loop over the yearly results.
abbrev pub is_refused : String → ℕ → LagerResult → Bool
is_refused account_id tax_year r =
    not (string_eq.beq r.account_id account_id)
    || not (r.tax_year == tax_year)
    || not (same_currency r.gain.currency dkk)

unfoldable pub net_gain : String → ℕ → Decimal → List LagerResult → Result Exn Decimal
net_gain account_id tax_year gain [] = ok gain
net_gain account_id tax_year gain (r ∷ rs) =
    let rest = net_gain account_id tax_year (add gain r.gain.amount) rs in
    if is_refused account_id tax_year r then err ask_error else rest

-- The two branches of `gain >= 0`.
unfoldable pub tax_of : Decimal → Decimal
tax_of gain = if le nought gain then mul gain ask_rate else nought

unfoldable pub loss_of : Decimal → Decimal
loss_of gain = if le nought gain then nought else neg gain

unfoldable pub compute_ask_taxes : String → ℕ → List LagerResult → Result Exn AskTaxResult
unfolding net_gain tax_of loss_of
compute_ask_taxes account_id tax_year lager_results = do
  gain ← net_gain account_id tax_year nought lager_results
  g ← quantize 2 gain
  tax ← quantize 2 (tax_of gain)
  loss ← quantize 2 (loss_of gain)
  ok (record {
    account_id = account_id;
    tax_year = tax_year;
    gain = in_dkk g;
    tax_due = in_dkk tax;
    loss_carry_forward = in_dkk loss;
  })

unfoldable pub compute_ask_tax : String → LagerResult → Result Exn AskTaxResult
unfolding compute_ask_taxes
compute_ask_tax account_id r = compute_ask_taxes account_id r.tax_year (r ∷ [])

-- sorted(deposits, key=lambda d: d.year)
abbrev pub sort_by_year : List AskDeposit → List AskDeposit
sort_by_year = sorted_by (λ d. d.year)

unfoldable pub walk : Decimal → List AskDeposit → Result Exn Unit
walk running [] = ok tt
walk running (dep ∷ deps) =
    let rest = walk (add running dep.amount.amount) deps in
    elim (deposit_cap dep.year) [
      | none ↦ err ask_error
      | some cap ↦ if lt cap (add running dep.amount.amount) then err ask_error else rest
    ]

unfoldable pub check_deposit_cap : List AskDeposit → Result Exn Unit
unfolding sorted_by walk
check_deposit_cap deposits = walk nought (sort_by_year deposits)
