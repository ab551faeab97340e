-- ===== src/Tests/Calculators.antt =====
-- The tax calculators on small figures (src/penge/tax).
use penge.Prelude.{
  ℕ, String, ◌≡◌, ◌⊎◌, ◌↔◌, ◌/◌, ◌^◌, ◌<◌, ◌≤◌, ◌*◌, ◌+◌, refl, inl, inr, arith, List, [], ◌∷◌,
  ◌++◌, ok, err,
}
use penge.Prelude.Int.{ℤ, pos, negsuc, sum_ℤ, neg_part}
use penge.Prelude.Eq.{string_eq}
use penge.Errors.{ask_error}
use penge.Decimal.{whole, limit, round_half_even, excess, nought}
use penge.Decimal.Laws.{cents}
use penge.Decimal.Rounding.{round_half_even_near, excess_enough}
use penge.Decimal.Cents.{sum, cents_of, IsCents}
use penge.Tax.Lager.{LagerResult, compute_lager, in_dkk, tally_all}
use penge.Tax.Money.{eur}
use penge.Tax.Lager.Exact as LagerExact
use penge.Tax.Lager.ByYear
use penge.Tax.Pal.{compute_pal}
use penge.Tax.Pal.Exact as PalExact
use penge.Tax.Aktiesparekonto.{AskDeposit, compute_ask_taxes, check_deposit_cap, sort_by_year}
use penge.Tax.Aktiesparekonto.Caps
use penge.Tax.Aktiesparekonto.Refusals.{HasForeign, foreign_result_raises_iff}
use penge.Tax.Aktiesparekonto.Exact as AskExact
use penge.Tax.Vorab.{VorabInput, compute_vorabpauschale, equity}
use penge.Tax.Vorab.Amounts as VorabAmounts

abbrev isin : String
isin = "IE00B4L5Y983"

abbrev fund_year : LagerExact.Figures
fund_year = record {
  start = 100000;
  end_value = 90000;
  buys = 20000 ∷ 1 ∷ [];
  sells = 5 ∷ [];
  distributions = 150 ∷ [];
}

compute_lager-exact_example :
    compute_lager (LagerExact.input_of "nordnet" isin 2024 fund_year)
    ≡ ok (LagerExact.exact_result "nordnet" isin 2024 fund_year)
unfolding sum
compute_lager-exact_example =
    LagerExact.compute_lager-exact "nordnet" isin 2024 fund_year (omega arith)

abbrev pension_year : PalExact.Figures
pension_year = record {
  start = 100000;
  end_value = 125000;
  contributions = 5000 ∷ [];
  withdrawals = 33 ∷ [];
}

compute_pal-exact_example :
    compute_pal (PalExact.input_of "aldersopsparing" 2024 pension_year)
    ≡ ok (PalExact.exact_result "aldersopsparing" 2024 pension_year)
unfolding sum
compute_pal-exact_example =
    PalExact.compute_pal-exact "aldersopsparing" 2024 pension_year (omega arith)

tax_or_loss_example :
    (2 * (20033 * 153) ≤ 2 * (PalExact.exact_tax (pos 20033) * 1000) + 1000)
    × (2 * (PalExact.exact_tax (pos 20033) * 1000) ≤ 2 * (20033 * 153) + 1000)
    × ((PalExact.exact_tax (pos 20033) ≡ 0) ⊎ (neg_part (pos 20033) ≡ 0))
tax_or_loss_example = PalExact.tax_or_loss (pos 20033)

abbrev result_of : String → ℤ → LagerResult
result_of account_id z = record {
  account_id = account_id;
  isin = isin;
  tax_year = 2024;
  start_market_value = in_dkk (cents_of 0);
  end_market_value = in_dkk (cents_of 0);
  buys_total = in_dkk (cents_of 0);
  sells_total = in_dkk (cents_of 0);
  distributions_total = in_dkk (cents_of 0);
  gain = in_dkk (cents z);
}

-- Of the account and year, but in euro.
abbrev euro_result : LagerResult
euro_result = record (result_of "ask" (pos 1)) {
  gain = record { amount = cents (pos 1); currency = eur };
}

abbrev ask_results : List LagerResult
ask_results = result_of "ask" (pos 500) ∷ result_of "ask" (negsuc 199) ∷ []

abbrev ask_gains : List ℤ
ask_gains = pos 500 ∷ negsuc 199 ∷ []

ask_results-Gains : AskExact.Gains "ask" 2024 ask_results ask_gains
ask_results-Gains = (
  record { account = refl; year = refl; gain = refl },
  (record { account = refl; year = refl; gain = refl }, tt),
)

compute_ask_taxes-exact_example :
    compute_ask_taxes "ask" 2024 ask_results
    ≡ ok (AskExact.exact_result "ask" 2024 (sum_ℤ ask_gains))
unfolding AskExact.size
compute_ask_taxes-exact_example =
    AskExact.compute_ask_taxes-exact "ask" 2024 ask_results ask_gains ask_results-Gains
      (omega arith)

foreign_result_raises_iff_example :
    (compute_ask_taxes "ask" 2024 (ask_results ++ euro_result ∷ []) ≡ err ask_error)
    ↔ HasForeign "ask" 2024 (ask_results ++ euro_result ∷ [])
foreign_result_raises_iff_example =
    foreign_result_raises_iff "ask" 2024 (ask_results ++ euro_result ∷ [])

euro_result_raises : compute_ask_taxes "ask" 2024 (ask_results ++ euro_result ∷ []) ≡ err ask_error
euro_result_raises =
    (foreign_result_raises_iff "ask" 2024 (ask_results ++ euro_result ∷ [])).1
      (ask_results, euro_result, [], refl, inr (inr refl))

abbrev deposit : ℕ → ℕ → AskDeposit
deposit year n = record { year = year; amount = in_dkk (whole n) }

check_deposit_cap_iff_example :
    (check_deposit_cap (deposit 2020 40000 ∷ deposit 2019 50000 ∷ []) ≡ ok tt)
    ↔ Caps.EveryPrefix nought (sort_by_year (deposit 2020 40000 ∷ deposit 2019 50000 ∷ []))
check_deposit_cap_iff_example =
    Caps.check_deposit_cap_iff (deposit 2020 40000 ∷ deposit 2019 50000 ∷ [])

check_deposit_cap-exchange_example :
    check_deposit_cap (deposit 2019 10000 ∷ deposit 2021 60000 ∷ deposit 2020 40000 ∷ [])
    ≡ check_deposit_cap (deposit 2019 10000 ∷ deposit 2020 40000 ∷ deposit 2021 60000 ∷ [])
check_deposit_cap-exchange_example =
    Caps.check_deposit_cap-exchange (deposit 2019 10000 ∷ []) (deposit 2021 60000)
      (deposit 2020 40000) [] (λ e. absurd (omega arith))

abbrev rising : VorabAmounts.Figures
rising = record { start = 1000000; end_value = 1100000; distributions = 500 }

abbrev rising_input : ℕ → VorabInput
rising_input year = VorabAmounts.input_of isin year equity rising 12

negative_basiszins_lem_example :
    compute_vorabpauschale (rising_input 2021)
    ≡ ok (VorabAmounts.nothing_due isin 2021 equity rising)
negative_basiszins_lem_example =
    VorabAmounts.negative_basiszins_lem isin 2021 equity rising 12 (inl refl) (omega arith)

due_2022 :
    compute_vorabpauschale (rising_input 2022)
    ≡ ok (VorabAmounts.nothing_due isin 2022 equity rising)
due_2022 = VorabAmounts.negative_basiszins_lem isin 2022 equity rising 12 (inr refl) (omega arith)

amounts-IsNonNegative_example :
    VorabAmounts.AmountsNonNegative (VorabAmounts.nothing_due isin 2022 equity rising)
amounts-IsNonNegative_example = VorabAmounts.amounts-IsNonNegative (rising_input 2022) due_2022

round_half_even_near_example :
    (2 * 250 ≤ 2 * (round_half_even 250 100 * 100) + 100)
    × (2 * (round_half_even 250 100 * 100) ≤ 2 * 250 + 100)
round_half_even_near_example = round_half_even_near 250 100 (omega arith)

excess_enough_example : 123456 / 10 ^ excess 123456 123456 < limit
excess_enough_example = excess_enough 123456 123456 (omega arith)

tally_all-IsCents_example :
    IsCents
      (ByYear.total_of 2024 (tally_all [] ask_results))
      (ByYear.gain_of 2024 (pos 0) ask_results ask_gains)
unfolding ByYear.sizes
tally_all-IsCents_example =
    ByYear.tally_all-IsCents 2024 [] (pos 0) ask_results ask_gains (refl, (refl, tt))
      (inr (refl, refl)) (omega arith)
