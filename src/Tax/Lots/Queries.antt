-- ===== src/Tax/Lots/Queries.antt =====
-- The queries of class LotBook (src/penge/tax/lots.py): snapshots of the lots, rounded.
use penge.Prelude.{String, Option, none, some, Result, ok, ◌>>=◌, traverse, if◌then◌else◌, ◌==◌}
use penge.Prelude.Int.{abs}
use penge.Prelude.Eq.{string_eq, pair_eq}
use penge.Prelude.Dict.{Dict, lookup}
use penge.Errors.{Exn}
use penge.Decimal.{Decimal, div, quantize, nought}
use penge.Tax.Money.{Money}
use penge.Tax.Lots.Book.{Lot, LotBook, Key}

pub record TaxLot : Type 0 where
  pub account_id : String
  pub isin : String
  pub quantity : Decimal
  pub cost_basis : Money

unfoldable pub snapshot : Lot → Result Exn TaxLot
snapshot lot = do
  quantity ← quantize 6 lot.quantity
  cost ← quantize 2 lot.cost
  ok (record {
    account_id = lot.account_id;
    isin = lot.isin;
    quantity = quantity;
    cost_basis = record { amount = cost; currency = lot.currency };
  })

-- `TaxLot.avg_cost`
unfoldable pub avg_cost : TaxLot → Result Exn Decimal
avg_cost t =
    if abs t.quantity.coef == 0
    then ok nought
    else (do c ← div t.cost_basis.amount t.quantity; quantize 2 c)

unfoldable pub lots_of : LotBook → Result Exn (Dict Key TaxLot)
unfolding snapshot traverse
lots_of b = traverse (λ (e : Key × Lot). do s ← snapshot e.1; ok (e.0, s)) b.lots

unfoldable pub lot_of : String → String → LotBook → Result Exn (Option TaxLot)
unfolding snapshot
lot_of account_id isin b = elim (lookup (account_id, isin) b.lots) [
  | none ↦ ok none
  | some ml ↦ do s ← snapshot ml; ok (some s)
]

unfoldable pub total_quantity : String → String → LotBook → Result Exn Decimal
total_quantity account_id isin b = elim (lookup (account_id, isin) b.lots) [
  | none ↦ ok nought
  | some ml ↦ quantize 6 ml.quantity
]
