-- ===== src/Tax/Lots/Failures.antt =====
-- What an event that raises leaves behind (LotBook._apply_* of src/penge/tax/lots.py).
use penge.Prelude.{
  ◌≡◌, ◌≢◌, arith, inl, inr, false, none, some, sym, ap, ◌∙◌, Result, ok, err, String, Option-cases,
  Result-cases, ◌⊎◌, ℕ,
}
use penge.Prelude.Eq.{string_eq, pair_eq}
use penge.Prelude.Dict.{Dict, lookup, remove, IsDistinct, lookup-remove_ne, lookup-remove_self}
use penge.Decimal.{Decimal, mul, add, quantize, div}
use penge.Tax.Money.{same_currency}
use penge.Tax.Lots.Events.{Event, Buy, Sell, Split, Merge, buy, sell, split, merge}
use penge.Tax.Lots.Book.{
  Lot, LotBook, Key, RealisedGain, apply, apply_buy, apply_sell, apply_split, apply_merge,
  merge_into, sell_from, drop, average, realised_gain, append_gain,
}
use penge.Tax.Lots.Invariant.{IsValid}
use penge.Errors.{Exn, lot_error}

-- The one refusal that is not clean: a merger into a position in the other currency.
pub record IsCrossCurrency (ev : Merge) (b : LotBook) : Type 0 where
  pub old : Lot
  pub target : Lot
  pub at_old : lookup (ev.account_id, ev.isin) b.lots ≡ some old
  pub other_key : ev.isin ≢ ev.new_isin
  pub at_target : lookup (ev.account_id, ev.new_isin) b.lots ≡ some target
  pub differ : same_currency target.currency old.currency ≡ false

-- A merger that is refused for its currencies has already lost the old position: whatever the
-- ratio, if the new quantity can be rounded, the event raises and the old lot is gone.
pub merge_loses_lot :
    (ev : Merge) (b : LotBook) {q : Decimal} (c : IsCrossCurrency ev b)
    → IsValid b.lots
    → quantize 6 (mul c.old.quantity ev.share_ratio) ≡ ok q
    → (apply (merge ev) b ≡ (err lot_error, drop (ev.account_id, ev.isin) b))
      × (lookup (ev.account_id, ev.isin) (apply (merge ev) b).1.lots ≡ none)
unfolding apply
merge_loses_lot ev b c v f =
    let old_key : Key = (ev.account_id, ev.isin) in
    let new_key : Key = (ev.account_id, ev.new_isin) in
    let kept : lookup new_key (remove old_key b.lots) ≡ some c.target =
      lookup-remove_ne new_key old_key b.lots (λ p. c.other_key (sym (ap (λ (k : Key). k.1) p)))
      ∙ c.at_target in
    let run : apply_merge ev b ≡ (err lot_error, drop old_key b) =
      rw (c.at_old, apply_merge) (rw f (rw (kept, merge_into) (rw c.differ))) in
    (run, rw run (lookup-remove_self old_key b.lots v.distinct))

-- The decimal signals are not LotError.
quantize-ne-lot_error : (p : ℕ) (d : Decimal) → quantize p d ≢ err lot_error
unfolding quantize
quantize-ne-lot_error p d h = ground arith

div-ne-lot_error : (a b : Decimal) → div a b ≢ err lot_error
unfolding div
div-ne-lot_error a b h = ground arith

average-ne-lot_error : (lot : Lot) → average lot ≢ err lot_error
unfolding average
average-ne-lot_error lot h = ground (arith, div-ne-lot_error lot.cost lot.quantity)

realised_gain-ne-lot_error : (ev : Sell) (p c g : Decimal) → realised_gain ev p c g ≢ err lot_error
unfolding realised_gain
realised_gain-ne-lot_error ev p c g h = ground (
  arith,
  quantize-ne-lot_error 6 ev.quantity,
  quantize-ne-lot_error 2 p,
  quantize-ne-lot_error 2 c,
  quantize-ne-lot_error 2 g,
)

append_gain-ne-lot_error :
    (r : Result Exn RealisedGain) (b : LotBook)
    → r ≢ err lot_error
    → (append_gain r b).0 ≢ err lot_error
append_gain-ne-lot_error (ok g) b n h = cc
append_gain-ne-lot_error (err e) b n h = n (cc)

sell_from-ne-lot_error :
    (ev : Sell) (k : Key) (lot : Lot) (b : LotBook) → (sell_from ev k lot b).0 ≢ err lot_error
unfolding sell_from
sell_from-ne-lot_error ev k lot b h = elim (Result-cases (average lot)) [
  | inr (x, e) ↦ ground (arith, average-ne-lot_error lot)
  | inl (avg, e) ↦
      append_gain-ne-lot_error _ _ (realised_gain-ne-lot_error ev _ _ _) (rw (e, sell_from) at h)
]

apply_buy_unchanged :
    (ev : Buy) (b : LotBook) {after : LotBook} → apply_buy ev b ≡ (err lot_error, after) → after ≡ b
unfolding apply_buy
apply_buy_unchanged ev b h = ground arith

apply_split_unchanged :
    (ev : Split) (b : LotBook) {after : LotBook}
    → apply_split ev b ≡ (err lot_error, after)
    → after ≡ b
unfolding apply_split
apply_split_unchanged ev b h = ground arith

apply_sell_unchanged :
    (ev : Sell) (b : LotBook) {after : LotBook}
    → apply_sell ev b ≡ (err lot_error, after)
    → after ≡ b
unfolding apply_sell
apply_sell_unchanged ev b h = elim (Option-cases (lookup (ev.account_id, ev.isin) b.lots)) [
  | inl e ↦ ground arith
  | inr (lot, e) ↦ ground (arith, sell_from-ne-lot_error ev (ev.account_id, ev.isin) lot b)
]

-- What is left behind by an event that raises LotError.
abbrev pub LeftBehind : Event → LotBook → LotBook → Type 0
LeftBehind (merge ev) b after =
    (after ≡ b) ⊎ (IsCrossCurrency ev b × (after ≡ drop (ev.account_id, ev.isin) b))
LeftBehind _ b after = after ≡ b

-- A lot that is found once another key has been removed was there before.
lookup-remove-some :
    (j k : Key) (d : Dict Key Lot) {lot : Lot}
    → IsDistinct d
    → lookup j (remove k d) ≡ some lot
    → (j ≢ k) × (lookup j d ≡ some lot)
lookup-remove-some j k d h e =
    let apart : j ≢ k =
      λ p. cc (lookup-remove_self k d h, ap (λ (x : Key). lookup x (remove k d)) p) in
    (apart, sym (lookup-remove_ne j k d apart) ∙ e)

merge_into_lot_error :
    (ev : Merge) (old : Lot) (q : Decimal) (b : LotBook) {after : LotBook}
    → merge_into ev old q b ≡ (err lot_error, after)
    → (target : Lot) × (lookup (ev.account_id, ev.new_isin) b.lots ≡ some target)
      × (same_currency target.currency old.currency ≡ false)
      × (after ≡ b)
unfolding merge_into
merge_into_lot_error ev old q b h =
    elim (Option-cases (lookup (ev.account_id, ev.new_isin) b.lots)) [
      | inl e ↦ cc (rw (e, merge_into) at h)
      | inr (target, e) ↦ (
        target,
        e,
        ground (arith, quantize-ne-lot_error 6 (add target.quantity q)),
        ground (arith, quantize-ne-lot_error 6 (add target.quantity q)),
      )
    ]

apply_merge_lot_error :
    (ev : Merge) (b : LotBook) {after : LotBook}
    → IsValid b.lots
    → apply_merge ev b ≡ (err lot_error, after)
    → LeftBehind (merge ev) b after
unfolding apply_merge
apply_merge_lot_error ev b {after} v h =
    elim (Option-cases (lookup (ev.account_id, ev.isin) b.lots)) [
      | inl e ↦ inl (ground arith)
      | inr (old, e) ↦ elim (Result-cases (quantize 6 (mul old.quantity ev.share_ratio))) [
        | inr (x, f) ↦
            absurd (quantize-ne-lot_error 6 (mul old.quantity ev.share_ratio) (ground arith))
        | inl (q, f) ↦
            let (target, found, differ, same) =
              merge_into_lot_error ev old q _ (rw f at (rw (e, apply_merge) at h)) in
            let (apart, at_target) = lookup-remove-some _ _ _ v.distinct found in
            inr (
              record {
                old = old;
                target = target;
                at_old = e;
                other_key = λ p. apart (ap (λ (s : String). (ev.account_id, s)) (sym p));
                at_target = at_target;
                differ = differ;
              },
              same,
            )
      ]
    ]

-- An event that raises LotError leaves the book as it was, but for one case: a merger into a
-- position in the other currency leaves the book without the old position.
pub lot_error_unchanged :
    (ev : Event) (b : LotBook) {after : LotBook}
    → IsValid b.lots
    → apply ev b ≡ (err lot_error, after)
    → LeftBehind ev b after
unfolding apply
lot_error_unchanged (buy ev) b v h = apply_buy_unchanged ev b h
lot_error_unchanged (sell ev) b v h = apply_sell_unchanged ev b h
lot_error_unchanged (split ev) b v h = apply_split_unchanged ev b h
lot_error_unchanged (merge ev) b v h = apply_merge_lot_error ev b v h
