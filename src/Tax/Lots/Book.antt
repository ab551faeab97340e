-- ===== src/Tax/Lots/Book.antt =====
-- class LotBook of src/penge/tax/lots.py. A method returns the book as it was left beside its
-- result, since what was written before a raise stays written.
use penge.Prelude.{
  ℕ, String, not, ◌&&◌, Option, none, some, List, [], ◌∷◌, ◌++◌, Result, ok, err, ◌>>=◌, ◌>>◌,
  raise_if, if◌then◌else◌,
}
use penge.Prelude.Int.{pos}
use penge.Prelude.Eq.{string_eq, pair_eq}
use penge.Prelude.Dict.{Dict, lookup, insert, remove}
use penge.Errors.{Exn, lot_error, validation_error}
use penge.Decimal.{Decimal, add, sub, mul, div, quantize, lt, le, nought}
use penge.Tax.Money.{Money, Currency, same_currency}
use penge.Tax.Lots.Events.{Event, Buy, Sell, Split, Merge, buy, sell, split, merge}

-- `_MutableLot`
pub record Lot : Type 0 where
  pub account_id : String
  pub isin : String
  pub quantity : Decimal
  pub cost : Decimal
  pub currency : Currency

pub record RealisedGain : Type 0 where
  pub event_date : ℕ
  pub account_id : String
  pub isin : String
  pub quantity : Decimal
  pub proceeds : Money
  pub cost_basis : Money
  pub gain : Money

abbrev pub Key : Type 0
Key = String × String

pub record LotBook : Type 0 where
  pub lots : Dict Key Lot
  pub realised : List RealisedGain

abbrev pub empty : LotBook
empty = record { lots = []; realised = [] }

-- `_QTY_DP`
abbrev pub qty_dp : Decimal
qty_dp = record { coef = pos 1; places = 6 }

abbrev pub Outcome : Type 0
Outcome = Result Exn Unit × LotBook

abbrev pub fee_amount : Option Money → Decimal
fee_amount none = nought
fee_amount (some fee) = fee.amount

abbrev pub put : Key → Lot → LotBook → LotBook
put k lot b = record b { lots = insert k lot b.lots }

abbrev pub drop : Key → LotBook → LotBook
drop k b = record b { lots = remove k b.lots }

unfoldable pub cost_added : Buy → Decimal
cost_added ev = add (mul ev.quantity ev.price.amount) (fee_amount ev.fee)

unfoldable pub apply_buy : Buy → LotBook → Outcome
unfolding cost_added
apply_buy ev b =
    let key : Key = (ev.account_id, ev.isin) in
    elim (lookup key b.lots) [
      | some lot ↦
          if not (same_currency lot.currency ev.price.currency) then (err lot_error, b) else (
            ok tt,
            put key
                (record lot {
                  quantity = add lot.quantity ev.quantity;
                  cost = add lot.cost (cost_added ev);
                })
                b,
          )
      | none ↦ (
        ok tt,
        put key
            (record {
              account_id = ev.account_id;
              isin = ev.isin;
              quantity = ev.quantity;
              cost = cost_added ev;
              currency = ev.price.currency;
            })
            b,
      )
    ]

-- The `RealisedGain` record, with its amounts rounded to cents.
unfoldable pub realised_gain : Sell → Decimal → Decimal → Decimal → Result Exn RealisedGain
realised_gain ev proceeds cost_removed gain = do
  quantity ← quantize 6 ev.quantity
  p ← quantize 2 proceeds
  c ← quantize 2 cost_removed
  g ← quantize 2 gain
  let currency = ev.price.currency
  raise_if (not (same_currency currency currency && same_currency currency currency))
      validation_error
  ok (record {
    event_date = ev.event_date;
    account_id = ev.account_id;
    isin = ev.isin;
    quantity = quantity;
    proceeds = record { amount = p; currency = currency };
    cost_basis = record { amount = c; currency = currency };
    gain = record { amount = g; currency = currency };
  })

-- `self._realised.append(…)`
abbrev pub append_gain : Result Exn RealisedGain → LotBook → Outcome
append_gain (ok g) b = (ok tt, record b { realised = b.realised ++ g ∷ [] })
append_gain (err e) b = (err e, b)

-- The lot's running average cost per share.
unfoldable pub average : Lot → Result Exn Decimal
average lot = if lt nought lot.quantity then div lot.cost lot.quantity else ok nought

-- The lot after `cost_removed` has left with the shares: closed if only dust is left.
unfoldable pub reduce : Key → Lot → Decimal → Decimal → LotBook → LotBook
reduce key lot sold_qty cost_removed b =
    let quantity = sub lot.quantity sold_qty in
    let cost = sub lot.cost cost_removed in
    if le quantity qty_dp
    then drop key b
    else put key (record lot { quantity = quantity; cost = cost }) b

-- The part of `_apply_sell` behind its guards.
unfoldable pub sell_from : Sell → Key → Lot → LotBook → Outcome
unfolding reduce realised_gain average
sell_from ev key lot b = elim (average lot) [
  | err e ↦ (err e, b)
  | ok avg ↦
      let cost_removed = mul avg ev.quantity in
      let proceeds = sub (mul ev.quantity ev.price.amount) (fee_amount ev.fee) in
      let gain = sub proceeds cost_removed in
      append_gain (realised_gain ev proceeds cost_removed gain)
        (reduce key lot ev.quantity cost_removed b)
]

unfoldable pub apply_sell : Sell → LotBook → Outcome
unfolding sell_from
apply_sell ev b =
    let key : Key = (ev.account_id, ev.isin) in
    elim (lookup key b.lots) [
      | none ↦ (err lot_error, b)
      | some lot ↦
          if not (same_currency lot.currency ev.price.currency)
          then (err lot_error, b)
          else if lt lot.quantity ev.quantity
          then (err lot_error, b)
          else sell_from ev key lot b
    ]

unfoldable pub apply_split : Split → LotBook → Outcome
apply_split ev b =
    let key : Key = (ev.account_id, ev.isin) in
    elim (lookup key b.lots) [
      | none ↦ (err lot_error, b)
      | some lot ↦ elim (quantize 6 (mul lot.quantity ev.ratio)) [
        | err e ↦ (err e, b)
        | ok q ↦ (ok tt, put key (record lot { quantity = q }) b)
      ]
    ]

-- The part of `_apply_merge` behind the pop of the old lot: `b` no longer holds it.
unfoldable pub merge_into : Merge → Lot → Decimal → LotBook → Outcome
merge_into ev old new_qty b =
    let new_key : Key = (ev.account_id, ev.new_isin) in
    elim (lookup new_key b.lots) [
      | some target ↦
          if not (same_currency target.currency old.currency)
          then (err lot_error, b)
          else elim (quantize 6 (add target.quantity new_qty)) [
            | err e ↦ (err e, b)
            | ok q ↦ (
              ok tt,
              put new_key (record target { quantity = q; cost = add target.cost old.cost }) b,
            )
          ]
      | none ↦ (
        ok tt,
        put new_key
            (record {
              account_id = ev.account_id;
              isin = ev.new_isin;
              quantity = new_qty;
              cost = old.cost;
              currency = old.currency;
            })
            b,
      )
    ]

unfoldable pub apply_merge : Merge → LotBook → Outcome
unfolding merge_into
apply_merge ev b =
    let old_key : Key = (ev.account_id, ev.isin) in
    elim (lookup old_key b.lots) [
      | none ↦ (err lot_error, b)
      | some old ↦ elim (quantize 6 (mul old.quantity ev.share_ratio)) [
        | err e ↦ (err e, drop old_key b)
        | ok new_qty ↦ merge_into ev old new_qty (drop old_key b)
      ]
    ]

unfoldable pub apply : Event → LotBook → Outcome
unfolding apply_buy apply_sell apply_split apply_merge
apply (buy ev) b = apply_buy ev b
apply (sell ev) b = apply_sell ev b
apply (split ev) b = apply_split ev b
apply (merge ev) b = apply_merge ev b

-- An event that raises ends the loop; the events before it have been applied.
unfoldable pub apply_all : List Event → LotBook → Outcome
unfolding apply
apply_all [] b = (ok tt, b)
apply_all (ev ∷ evs) b =
    let rest = apply_all evs (apply ev b).1 in
    elim (apply ev b).0 [ ok _ ↦ rest | err e ↦ (err e, (apply ev b).1) ]
