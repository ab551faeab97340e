-- ===== src/Tax/Lots/Events.antt =====
-- The event records of src/penge/tax/lots.py, and what their constructors accept.
use Prim.Native.String.{count}
use penge.Prelude.{
  ℕ, String, Bool, false, not, ◌||◌, ◌==◌, ltb, Option, none, some, Result, ok, err, ◌>>=◌, ◌>>◌,
  raise_if, if◌then◌else◌,
}
use penge.Errors.{Exn, validation_error}
use penge.Decimal.{Decimal, quantize, le, nought}
use penge.Tax.Money.{Money, same_currency}

-- `_EventBase`; the date is copied and never read, so it is its ordinal.
pub record EventBase : Type 0 where
  pub event_date : ℕ
  pub account_id : String
  pub isin : String

pub record Buy : Type 0 where
  pub base : EventBase
  pub open base use *
  pub quantity : Decimal
  pub price : Money
  pub fee : Option Money

pub record Sell : Type 0 where
  pub base : EventBase
  pub open base use *
  pub quantity : Decimal
  pub price : Money
  pub fee : Option Money

pub record Split : Type 0 where
  pub base : EventBase
  pub open base use *
  pub ratio : Decimal

pub record Merge : Type 0 where
  pub base : EventBase
  pub open base use *
  pub new_isin : String
  pub share_ratio : Decimal

pub data Event : Type 0 where
  buy : Buy → Event
  sell : Sell → Event
  split : Split → Event
  merge : Merge → Event

abbrev is_isin : String → Bool
is_isin s = count s == 12

-- The `Field` constraints of the base class.
base_refused : EventBase → Bool
base_refused b = ltb (count b.account_id) 1 || not (is_isin b.isin)

-- `_positive_qty`: an error inside quantize is no ValueError and leaves the constructor as it is.
unfoldable pub positive_qty : Decimal → Result Exn Decimal
positive_qty v = if le v nought then err validation_error else quantize 6 v

-- `_positive_ratio`
unfoldable pub positive_ratio : Decimal → Result Exn Decimal
positive_ratio v = if le v nought then err validation_error else ok v

-- `_currency_match`
abbrev pub fee_mismatch : Option Money → Money → Bool
fee_mismatch none price = false
fee_mismatch (some fee) price = not (same_currency fee.currency price.currency)

unfoldable pub make_buy : EventBase → Decimal → Money → Option Money → Result Exn Buy
unfolding positive_qty base_refused
make_buy base quantity price fee = do
  q ← positive_qty quantity
  raise_if (base_refused base) validation_error
  raise_if (fee_mismatch fee price) validation_error
  ok (record { base = base; quantity = q; price = price; fee = fee })

unfoldable pub make_sell : EventBase → Decimal → Money → Option Money → Result Exn Sell
unfolding positive_qty base_refused
make_sell base quantity price fee = do
  q ← positive_qty quantity
  raise_if (base_refused base) validation_error
  raise_if (fee_mismatch fee price) validation_error
  ok (record { base = base; quantity = q; price = price; fee = fee })

unfoldable pub make_split : EventBase → Decimal → Result Exn Split
unfolding positive_ratio base_refused
make_split base ratio = do
  r ← positive_ratio ratio
  raise_if (base_refused base) validation_error
  ok (record { base = base; ratio = r })

unfoldable pub make_merge : EventBase → String → Decimal → Result Exn Merge
unfolding positive_ratio base_refused
make_merge base new_isin share_ratio = do
  r ← positive_ratio share_ratio
  raise_if (base_refused base || not (is_isin new_isin)) validation_error
  ok (record { base = base; new_isin = new_isin; share_ratio = r })
