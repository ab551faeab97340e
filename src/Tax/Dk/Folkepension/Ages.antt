-- ===== src/Tax/Dk/Folkepension/Ages.antt =====
-- folkepension_age_for_year of src/penge/tax/dk/folkepension.py.
use penge.Prelude.{ℕ, ◌<◌, ◌≤◌, ◌≡◌, ◌⊎◌, arith, ok, err}
use penge.Errors.{folkepension_error}
use penge.Tax.Dk.Folkepension.{age_from, folkepension_age_for_year}

-- Every year falls in one of four periods, and the result is the one of its period: an error
-- before 2026, 67 years from 2026 to 2029, 68 from 2030 to 2034, and 69 from 2035 on.
pub folkepension_age_for_year_lem :
    (y : ℕ)
    → ((y < 2026) × (folkepension_age_for_year y ≡ err folkepension_error))
      ⊎ ((2026 ≤ y) × (y < 2030) × (folkepension_age_for_year y ≡ ok 67))
      ⊎ ((2030 ≤ y) × (y < 2035) × (folkepension_age_for_year y ≡ ok 68))
      ⊎ ((2035 ≤ y) × (folkepension_age_for_year y ≡ ok 69))
unfolding folkepension_age_for_year age_from
folkepension_age_for_year_lem y = ground arith
