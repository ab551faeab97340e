-- ===== src/Tax/Lager.antt =====
-- src/penge/tax/lager.py: the yearly mark-to-market gain of one instrument.
pub mod Exact
pub mod ByYear
use Prim.Native.String.{count}
use penge.Prelude.{
  ℕ, String, Bool, ◌||◌, not, ltb, ◌==◌, List, [], ◌∷◌, map, foldl, Option, none, some, Result, ok,
  err, ◌>>=◌, ◌>>◌, raise_if, traverse, if◌then◌else◌,
}
use penge.Prelude.Eq.{nat_eq}
use penge.Prelude.Dict.{Dict, lookup, insert}
use penge.Errors.{Exn, lager_error, validation_error}
use penge.Decimal.{Decimal, add, sub, lt, quantize, nought, sum_decimal}
use penge.Tax.Money.{Money, Currency, dkk, same_currency}

-- `_ensure_dkk_nonneg`; LagerError is no ValueError, so a validator lets it out as it is.
unfoldable pub ensure_dkk_nonneg : Money → Result Exn Money
ensure_dkk_nonneg v =
    if not (same_currency v.currency dkk)
    then err lager_error
    else if lt v.amount nought
    then err lager_error
    else ok v

pub record BuyLeg : Type 0 where
  pub cost : Money

pub record SellLeg : Type 0 where
  pub proceeds : Money

pub record Distribution : Type 0 where
  pub amount : Money

unfoldable pub make_buy_leg : Money → Result Exn BuyLeg
unfolding ensure_dkk_nonneg
make_buy_leg v = do m ← ensure_dkk_nonneg v; ok (record { cost = m })

unfoldable pub make_sell_leg : Money → Result Exn SellLeg
unfolding ensure_dkk_nonneg
make_sell_leg v = do m ← ensure_dkk_nonneg v; ok (record { proceeds = m })

unfoldable pub make_distribution : Money → Result Exn Distribution
unfolding ensure_dkk_nonneg
make_distribution v = do m ← ensure_dkk_nonneg v; ok (record { amount = m })

pub record LagerInput : Type 0 where
  pub account_id : String
  pub isin : String
  pub tax_year : ℕ
  pub start_market_value : Money
  pub end_market_value : Money
  pub buys : List BuyLeg
  pub sells : List SellLeg
  pub distributions : List Distribution

-- The validators of `LagerInput`: a LagerError first, then the constraints of the fields.
unfoldable pub validate_input : LagerInput → Result Exn LagerInput
unfolding ensure_dkk_nonneg
validate_input inp = do
  ensure_dkk_nonneg inp.start_market_value
  ensure_dkk_nonneg inp.end_market_value
  raise_if
      (ltb (count inp.account_id) 1
        || not (count inp.isin == 12)
        || ltb inp.tax_year 1900
        || ltb 2999 inp.tax_year)
      validation_error
  ok inp

pub record LagerResult : Type 0 where
  pub account_id : String
  pub isin : String
  pub tax_year : ℕ
  pub start_market_value : Money
  pub end_market_value : Money
  pub buys_total : Money
  pub sells_total : Money
  pub distributions_total : Money
  pub gain : Money

abbrev pub in_dkk : Decimal → Money
in_dkk d = record { amount = d; currency = dkk }

abbrev pub buys_sum : LagerInput → Decimal
buys_sum inp = sum_decimal nought (map (λ (b : BuyLeg). b.cost.amount) inp.buys)

abbrev pub sells_sum : LagerInput → Decimal
sells_sum inp = sum_decimal nought (map (λ (s : SellLeg). s.proceeds.amount) inp.sells)

abbrev pub dist_sum : LagerInput → Decimal
dist_sum inp = sum_decimal nought (map (λ (d : Distribution). d.amount.amount) inp.distributions)

-- end - start - buys + sells + distributions, from left to right.
abbrev pub raw_gain : LagerInput → Decimal
raw_gain inp =
    add
      (add (sub (sub inp.end_market_value.amount inp.start_market_value.amount) (buys_sum inp))
        (sells_sum inp))
      (dist_sum inp)

unfoldable pub compute_lager : LagerInput → Result Exn LagerResult
compute_lager inp = do
  start ← quantize 2 inp.start_market_value.amount
  end_value ← quantize 2 inp.end_market_value.amount
  buys ← quantize 2 (buys_sum inp)
  sells ← quantize 2 (sells_sum inp)
  dist ← quantize 2 (dist_sum inp)
  gain ← quantize 2 (raw_gain inp)
  ok (record {
    account_id = inp.account_id;
    isin = inp.isin;
    tax_year = inp.tax_year;
    start_market_value = in_dkk start;
    end_market_value = in_dkk end_value;
    buys_total = in_dkk buys;
    sells_total = in_dkk sells;
    distributions_total = in_dkk dist;
    gain = in_dkk gain;
  })

unfoldable pub compute_lager_many : List LagerInput → Result Exn (List LagerResult)
unfolding compute_lager traverse
compute_lager_many inputs = traverse compute_lager inputs

-- `totals[r.tax_year] += r.gain.amount` on a defaultdict of zeros.
unfoldable pub tally : Dict ℕ Decimal → LagerResult → Dict ℕ Decimal
unfolding insert
tally totals r =
    let before : Decimal = elim (lookup r.tax_year totals) [ none ↦ nought | some v ↦ v ] in
    insert r.tax_year (add before r.gain.amount) totals

unfoldable pub tally_all : Dict ℕ Decimal → List LagerResult → Dict ℕ Decimal
unfolding tally
tally_all totals [] = totals
tally_all totals (r ∷ rs) = tally_all (tally totals r) rs

unfoldable pub rounded : ℕ × Decimal → Result Exn (ℕ × Money)
rounded e = do v ← quantize 2 e.1; ok (e.0, in_dkk v)

unfoldable pub sum_gain_by_year : List LagerResult → Result Exn (Dict ℕ Money)
unfolding tally_all rounded traverse
sum_gain_by_year results = traverse rounded (tally_all [] results)
