-- ===== src/Tax/Pal.antt =====
-- src/penge/tax/pal.py: the 15.3 % yield tax on pension accounts.
pub mod Exact
use Prim.Native.String.{count}
use penge.Prelude.{
  ℕ, String, Bool, ◌||◌, not, ltb, ◌==◌, List, [], ◌∷◌, map, Result, ok, err, ◌>>=◌, ◌>>◌, raise_if,
  traverse, if◌then◌else◌,
}
use penge.Prelude.Int.{pos}
use penge.Errors.{Exn, pal_error, validation_error}
use penge.Decimal.{Decimal, add, sub, mul, neg, lt, quantize, nought, sum_decimal}
use penge.Tax.Money.{Money, Currency, dkk, same_currency}

abbrev pub pal_rate : Decimal
pal_rate = record { coef = pos 153; places = 3 }

-- `_ensure_dkk_nonneg`; PalError is no ValueError, so a validator lets it out as it is.
unfoldable pub ensure_dkk_nonneg : Money → Result Exn Money
ensure_dkk_nonneg v =
    if not (same_currency v.currency dkk)
    then err pal_error
    else if lt v.amount nought
    then err pal_error
    else ok v

pub record PalContribution : Type 0 where
  pub amount : Money

pub record PalWithdrawal : Type 0 where
  pub amount : Money

unfoldable pub make_contribution : Money → Result Exn PalContribution
unfolding ensure_dkk_nonneg
make_contribution v = do m ← ensure_dkk_nonneg v; ok (record { amount = m })

unfoldable pub make_withdrawal : Money → Result Exn PalWithdrawal
unfolding ensure_dkk_nonneg
make_withdrawal v = do m ← ensure_dkk_nonneg v; ok (record { amount = m })

pub record PalInput : Type 0 where
  pub account_id : String
  pub tax_year : ℕ
  pub start_market_value : Money
  pub end_market_value : Money
  pub contributions : List PalContribution
  pub withdrawals : List PalWithdrawal

unfoldable pub validate_input : PalInput → Result Exn PalInput
unfolding ensure_dkk_nonneg
validate_input inp = do
  ensure_dkk_nonneg inp.start_market_value
  ensure_dkk_nonneg inp.end_market_value
  raise_if (ltb (count inp.account_id) 1 || ltb inp.tax_year 1900 || ltb 2999 inp.tax_year)
      validation_error
  ok inp

pub record PalResult : Type 0 where
  pub account_id : String
  pub tax_year : ℕ
  pub start_market_value : Money
  pub end_market_value : Money
  pub contributions_total : Money
  pub withdrawals_total : Money
  pub return_amount : Money
  pub tax_due : Money
  pub loss_carry_forward : Money

abbrev pub in_dkk : Decimal → Money
in_dkk d = record { amount = d; currency = dkk }

abbrev pub contrib_sum : PalInput → Decimal
contrib_sum inp =
    sum_decimal nought (map (λ (c : PalContribution). c.amount.amount) inp.contributions)

abbrev pub wd_sum : PalInput → Decimal
wd_sum inp = sum_decimal nought (map (λ (w : PalWithdrawal). w.amount.amount) inp.withdrawals)

abbrev pub raw_return : PalInput → Decimal
raw_return inp =
    add (sub (sub inp.end_market_value.amount inp.start_market_value.amount) (contrib_sum inp))
      (wd_sum inp)

-- The two branches of `return_amount > 0`: the tax, and the loss that is carried forward.
unfoldable pub tax_of : Decimal → Decimal
tax_of r = if lt nought r then mul r pal_rate else nought

unfoldable pub loss_of : Decimal → Decimal
loss_of r = if lt nought r then nought else neg r

unfoldable pub compute_pal : PalInput → Result Exn PalResult
unfolding tax_of loss_of
compute_pal inp = do
  start ← quantize 2 inp.start_market_value.amount
  end_value ← quantize 2 inp.end_market_value.amount
  contributions ← quantize 2 (contrib_sum inp)
  withdrawals ← quantize 2 (wd_sum inp)
  return_amount ← quantize 2 (raw_return inp)
  tax ← quantize 2 (tax_of (raw_return inp))
  loss ← quantize 2 (loss_of (raw_return inp))
  ok (record {
    account_id = inp.account_id;
    tax_year = inp.tax_year;
    start_market_value = in_dkk start;
    end_market_value = in_dkk end_value;
    contributions_total = in_dkk contributions;
    withdrawals_total = in_dkk withdrawals;
    return_amount = in_dkk return_amount;
    tax_due = in_dkk tax;
    loss_carry_forward = in_dkk loss;
  })

unfoldable pub compute_pal_many : List PalInput → Result Exn (List PalResult)
unfolding compute_pal traverse
compute_pal_many inputs = traverse compute_pal inputs
