-- ===== src/Tests/Pensions.antt =====
-- The state pension and the surtax with the published figures (src/penge/tax/dk).
use penge.Prelude.{◌+◌, ◌-◌, ◌*◌, ◌≤◌, ◌<◌, ◌≡◌, ◌⊎◌, ◌↔◌, refl, arith, min, ok, err}
use penge.Errors.{folkepension_error}
use penge.Prelude.Int.{◌*ℤ◌, ◌-ℤ◌}
use penge.Decimal.{whole, mul, sub, div, quantize, max_decimal}
use penge.Decimal.Cents.{cents_of}
use penge.Tax.Dk.Folkepension.{
  single, married, monthly_reduction, compute_folkepension, folkepension_age_for_year,
}
use penge.Tax.Dk.Folkepension.Split.{
  config_of, entitlement, compute_folkepension-split, full_tillaeg_below_threshold,
}
use penge.Tax.Dk.Folkepension.Ages.{folkepension_age_for_year_lem}
use penge.Tax.Dk.Topskat.{Suggestion, no_suggestion, check_topskat_exposure}
use penge.Tax.Dk.Topskat.Exact.{warning, check_topskat_exposure-exact}

-- 200,000.00 a year: 30.9 % of 105,200 over twelve months.
reduction_of_2708_90 :
    monthly_reduction (config_of single 67 20000000 7191 18389 94800) ≡ ok (cents_of 270890)
unfolding monthly_reduction div quantize mul ◌*ℤ◌ max_decimal sub ◌-ℤ◌
reduction_of_2708_90 = refl

compute_folkepension-split_example :
    (compute_folkepension (config_of single 67 20000000 7191 18389 94800)
      ≡ ok (entitlement 270890 7191 18389))
    × (min 270890 (18389 * 100) + (18389 * 100 - 270890) ≡ 18389 * 100)
compute_folkepension-split_example =
    compute_folkepension-split single 67 20000000 7191 18389 94800 270890 (omega arith)
      (omega arith) reduction_of_2708_90

full_tillaeg_below_threshold_example :
    compute_folkepension (config_of married 68 9480000 7191 8993 94800)
    ≡ ok (entitlement 0 7191 8993)
full_tillaeg_below_threshold_example =
    full_tillaeg_below_threshold married 68 9480000 7191 8993 94800 (omega arith) (omega arith)
      (omega arith) (omega arith)

folkepension_age_for_year_lem_example :
    ((2030 < 2026) × (folkepension_age_for_year 2030 ≡ err folkepension_error))
    ⊎ ((2026 ≤ 2030) × (2030 < 2030) × (folkepension_age_for_year 2030 ≡ ok 67))
    ⊎ ((2030 ≤ 2030) × (2030 < 2035) × (folkepension_age_for_year 2030 ≡ ok 68))
    ⊎ ((2035 ≤ 2030) × (folkepension_age_for_year 2030 ≡ ok 69))
folkepension_age_for_year_lem_example = folkepension_age_for_year_lem 2030

check_topskat_exposure-exact_example :
    (s : Suggestion) × (check_topskat_exposure (cents_of 90000000) (whole 588900)
      ≡ ok (warning 90000000 588900 s))
    × ((s ≡ no_suggestion) ↔ (90000000 ≤ 588900 * 100))
check_topskat_exposure-exact_example =
    check_topskat_exposure-exact 90000000 588900 (omega arith) (omega arith)
