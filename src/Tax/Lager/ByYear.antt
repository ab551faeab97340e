-- ===== src/Tax/Lager/ByYear.antt =====
-- The tally of sum_gain_by_year (src/penge/tax/lager.py) on gains in whole øre.
use penge.Prelude.{
  ℕ, ◌+◌, ◌<◌, ◌≡◌, ◌∙◌, ap, sym, refl, inl, inr, arith, ◌==◌, Bool-cases, Option, none, some, List,
  [], ◌∷◌, if◌then◌else◌,
}
use penge.Prelude.Int.{ℤ, abs, ◌+ℤ◌, abs_laws}
use penge.Prelude.Eq.{nat_eq}
use penge.Prelude.Dict.{Dict, lookup, insert, lookup-insert}
use penge.Decimal.{Decimal, limit, add, nought}
use penge.Decimal.Laws.{cents}
use penge.Decimal.Cents.{IsCents, add-IsCents}
use penge.Tax.Lager.{LagerResult, tally, tally_all}

-- What `totals[year]` is, on a defaultdict of zeros.
abbrev pub or_nought : Option Decimal → Decimal
or_nought none = nought
or_nought (some v) = v

abbrev pub total_of : ℕ → Dict ℕ Decimal → Decimal
total_of year totals = or_nought (lookup year totals)

abbrev pub HaveGains : List LagerResult → List ℤ → Type 0
HaveGains [] [] = Unit
HaveGains (r ∷ rs) (z ∷ zs) = (r.gain.amount ≡ cents z) × HaveGains rs zs
HaveGains _ _ = ⊥

-- The gains of one year, added up from x on.
unfoldable pub gain_of : ℕ → ℤ → List LagerResult → List ℤ → ℤ
gain_of year x (r ∷ rs) (z ∷ zs) = gain_of year (if year == r.tax_year then x +ℤ z else x) rs zs
gain_of year x _ _ = x

unfoldable pub sizes : List ℤ → ℕ
sizes [] = 0
sizes (z ∷ zs) = abs z + sizes zs

tally-total :
    (year : ℕ) (totals : Dict ℕ Decimal) (r : LagerResult)
    → total_of year (tally totals r) ≡ (
        if year == r.tax_year
        then add (total_of year totals) r.gain.amount
        else total_of year totals)
unfolding tally
tally-total year totals r =
    let v : Decimal = add (total_of r.tax_year totals) r.gain.amount in
    let found : lookup year (insert r.tax_year v totals)
        ≡ (if year == r.tax_year then some v else lookup year totals) =
      lookup-insert year r.tax_year v totals in
    ap or_nought found ∙ elim (Bool-cases (year == r.tax_year)) [
      | inl same ↦
          let e : year ≡ r.tax_year = (nat_eq.beq_iff year r.tax_year).0 same in
          rw same (ap (λ y. add (total_of y totals) r.gain.amount) (sym e))
      | inr other ↦ rw other refl
    ]

-- For gains in whole øre whose sizes stay below 10 ^ 28 together, the tally has for every year
-- the sum of that year's gains, on top of x for what was there.
pub tally_all-IsCents :
    (year : ℕ) (totals : Dict ℕ Decimal) (x : ℤ) (rs : List LagerResult) (zs : List ℤ)
    → HaveGains rs zs
    → IsCents (total_of year totals) x
    → abs x + sizes zs < limit
    → IsCents (total_of year (tally_all totals rs)) (gain_of year x rs zs)
unfolding tally_all gain_of sizes
tally_all-IsCents year totals x [] [] g c h = c
tally_all-IsCents year totals x [] (z ∷ zs) g c h = elim g [ ]
tally_all-IsCents year totals x (r ∷ rs) [] g c h = elim g [ ]
tally_all-IsCents year totals x (r ∷ rs) (z ∷ zs) (amount, g) c h =
    elim (Bool-cases (year == r.tax_year)) [
      | inl same ↦
          let step : total_of year (tally totals r) ≡ add (total_of year totals) (cents z) =
            tally-total year totals r ∙ rw (same, amount) refl in
          let next : IsCents (total_of year (tally totals r)) (x +ℤ z) =
            rw step
              (add-IsCents (total_of year totals) (cents z) x z c (inl refl) (omega abs_laws)) in
          rw same (tally_all-IsCents year (tally totals r) (x +ℤ z) rs zs g next (omega abs_laws))
      | inr other ↦
          let step : total_of year (tally totals r) ≡ total_of year totals =
            tally-total year totals r ∙ rw other refl in
          let next : IsCents (total_of year (tally totals r)) x = rw step c in
          rw other (tally_all-IsCents year (tally totals r) x rs zs g next (omega arith))
    ]
