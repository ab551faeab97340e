-- ===== src/Tax/Lots/Movements.antt =====
-- What the events of src/penge/tax/lots.py move: which lots, which realised gains, and what the
-- two roundings of quantities do.
use native.Mathlib.Nat.{div-eq_of_lt, mod-eq_of_lt}
use penge.Prelude.{
  ◌≡◌, ◌≢◌, arith, inl, inr, true, false, none, some, ◌∙◌, ok, err, Option-cases, Result-cases, ℕ,
  suc, ◌<◌, ◌+◌, ◌*◌, ◌≤◌, ◌^◌, ◌-◌,
}
use penge.Prelude.Eq.{string_eq, pair_eq}
use penge.Prelude.Int.{pos, ◌-ℤ◌, int_laws}
use penge.Prelude.Dict.{lookup, remove, lookup-remove_ne, lookup-remove_self, lookup-insert_ne}
use penge.Decimal.{fix, Decimal, lt, le, mul, sub, div, quantize, round_half_even}
use penge.Tax.Money.{same_currency}
use penge.Tax.Lots.Events.{Event, Sell, Merge, buy, sell, split, merge, positive_qty}
use penge.Tax.Lots.Book.{
  Lot, LotBook, Key, apply, apply_sell, apply_merge, merge_into, sell_from, reduce, average, qty_dp,
}
use penge.Tax.Lots.Invariant.{IsValid, lots-append_gain}
use penge.Errors.{Exn}

-- The key is none of the keys that the event names.
abbrev pub IsOther : Event → Key → Type 0
IsOther (buy ev) k = k ≢ (ev.account_id, ev.isin)
IsOther (sell ev) k = k ≢ (ev.account_id, ev.isin)
IsOther (split ev) k = k ≢ (ev.account_id, ev.isin)
IsOther (merge ev) k = (k ≢ (ev.account_id, ev.isin)) × (k ≢ (ev.account_id, ev.new_isin))

reduce-others :
    (k j : Key) (lot : Lot) (q c : Decimal) (b : LotBook)
    → j ≢ k
    → lookup j (reduce k lot q c b).lots ≡ lookup j b.lots
unfolding reduce
reduce-others k j lot q c b h = grind (arith, lookup-insert_ne, lookup-remove_ne)

sell_from-others :
    (ev : Sell) (k j : Key) (lot : Lot) (b : LotBook)
    → j ≢ k
    → lookup j (sell_from ev k lot b).1.lots ≡ lookup j b.lots
unfolding sell_from
sell_from-others ev k j lot b h = elim (Result-cases (average lot)) [
  | inl (avg, e) ↦ rw (e, sell_from, lots-append_gain) (reduce-others k j lot ev.quantity _ b h)
  | inr (x, e) ↦ rw (e, sell_from)
]

merge_into-others :
    (ev : Merge) (j : Key) (old : Lot) (q : Decimal) (b : LotBook)
    → j ≢ (ev.account_id, ev.new_isin)
    → lookup j (merge_into ev old q b).1.lots ≡ lookup j b.lots
unfolding merge_into
merge_into-others ev j old q b h = grind (arith, lookup-insert_ne, lookup-remove_ne)

-- Every lot that the event does not name is as before, whether or not the event raises.
pub apply-others :
    (ev : Event) (b : LotBook) (j : Key)
    → IsOther ev j
    → lookup j (apply ev b).1.lots ≡ lookup j b.lots
unfolding apply
apply-others (buy ev) b j h = grind (arith, lookup-insert_ne, lookup-remove_ne)
apply-others (sell ev) b j h = grind (arith, sell_from-others)
apply-others (split ev) b j h = grind (arith, lookup-insert_ne, lookup-remove_ne)
apply-others (merge ev) b j h = elim (Option-cases (lookup (ev.account_id, ev.isin) b.lots)) [
  | inl e ↦ rw (e, apply_merge)
  | inr (old, e) ↦ elim (Result-cases (quantize 6 (mul old.quantity ev.share_ratio))) [
    | inr (x, f) ↦ rw (e, apply_merge) (rw f (lookup-remove_ne j _ b.lots h.0))
    | inl (q, f) ↦
        rw (e, apply_merge)
          (rw f (merge_into-others ev j old q _ h.1 ∙ lookup-remove_ne j _ b.lots h.0))
  ]
]

-- A share quantity in whole millionths.
abbrev pub millionths : ℕ → Decimal
millionths n = record { coef = pos n; places = 6 }

sub-millionths : (n : ℕ) → sub (millionths (suc n)) (millionths n) ≡ millionths 1
unfolding sub fix
sub-millionths n = let e : pos (suc n) -ℤ pos n ≡ pos 1 = omega int_laws in rw e

div-ne-err : (a : Decimal) (n : ℕ) (x : Exn) → div a (millionths (suc n)) ≢ err x
unfolding div
div-ne-err a n x h = ground arith

average-ne-err :
    (lot : Lot) (n : ℕ) (x : Exn) → lot.quantity ≡ millionths (suc n) → average lot ≢ err x
unfolding average lt
average-ne-err lot n x held h = ground (arith, div-ne-err lot.cost n x)

average_defined :
    (lot : Lot) (n : ℕ)
    → lot.quantity ≡ millionths (suc n)
    → (avg : Decimal) × (average lot ≡ ok avg)
average_defined lot n held = elim (Result-cases (average lot)) [
  | inl p ↦ p
  | inr (x, e) ↦ absurd (average-ne-err lot n x held e)
]

dust_at_one :
    (a b : Decimal) (n : ℕ)
    → a ≡ millionths (suc n)
    → b ≡ millionths n
    → (le (sub a b) qty_dp ≡ true) × (lt a b ≡ false)
unfolding le lt
dust_at_one a b n p q = (rw (p, q, sub-millionths), rw (p, q) (ground arith))

reduce_dust :
    (k : Key) (lot : Lot) (q c : Decimal) (b : LotBook)
    → le (sub lot.quantity q) qty_dp ≡ true
    → (reduce k lot q c b).lots ≡ remove k b.lots
unfolding reduce
reduce_dust k lot q c b h = rw h

-- Selling all but one millionth of a share closes the lot: its last share is gone from the book,
-- with whatever cost it carried.
pub last_millionth_lost :
    (ev : Sell) (b : LotBook) (n : ℕ) {lot : Lot}
    → IsValid b.lots
    → lookup (ev.account_id, ev.isin) b.lots ≡ some lot
    → lot.quantity ≡ millionths (suc n)
    → ev.quantity ≡ millionths n
    → same_currency lot.currency ev.price.currency ≡ true
    → lookup (ev.account_id, ev.isin) (apply (sell ev) b).1.lots ≡ none
unfolding apply
last_millionth_lost ev b n {lot} v found held sold same =
    let (dust, enough) = dust_at_one lot.quantity ev.quantity n held sold in
    let (avg, e) = average_defined lot n held in
    let closed : (reduce (ev.account_id, ev.isin) lot ev.quantity (mul avg ev.quantity) b).lots
        ≡ remove (ev.account_id, ev.isin) b.lots =
      reduce_dust _ lot ev.quantity _ b dust in
    rw (found, apply_sell)
      (rw (same, enough)
        (rw (e, sell_from, lots-append_gain, closed) (lookup-remove_self _ _ v.distinct)))

round_half_even-small : (n d : ℕ) → 0 < n → 2 * n ≤ d → round_half_even n d ≡ 0
unfolding round_half_even
round_half_even-small n d h k =
    let below : n < d = omega arith in rw (div-eq_of_lt below, mod-eq_of_lt below) (ground arith)

-- A quantity below the rounding step is accepted as positive and becomes zero: at most half a
-- millionth, written with any number of digits.
pub positive_qty_rounds_away :
    (k n : ℕ)
    → 0 < n
    → 2 * n ≤ 10 ^ suc k
    → positive_qty (record { coef = pos n; places = k + 7 }) ≡ ok (millionths 0)
unfolding positive_qty le quantize
positive_qty_rounds_away k n h small =
    let e : k + 7 - 6 ≡ suc k = omega arith in
    let f : 6 - (k + 7) ≡ 0 = omega arith in
    let g : 0 - (k + 7) ≡ 0 = omega arith in
    let i : k + 7 - 0 ≡ suc (k + 6) = omega arith in
    rw (e, f, g, i) (rw (round_half_even-small n (10 ^ suc k) h small) (ground arith))
