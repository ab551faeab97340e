-- ===== src/Tax/Lots/Invariant.antt =====
-- The invariant of the lot book (LotBook of src/penge/tax/lots.py): one lot for a pair, stored
-- under its own key, and never a negative quantity.
use penge.Prelude.{
  ◌≡◌, inl, inr, false, Bool-cases, some, List, [], ◌∷◌, refl, Result, ok, err, All, Option-cases,
  Result-cases,
}
use penge.Prelude.Eq.{string_eq, pair_eq}
use penge.Prelude.Dict.{
  Dict, lookup, insert, remove, IsDistinct, insert-IsDistinct, remove-IsDistinct,
}
use penge.Prelude.Entries.{Entries, lookup-Entries, insert-Entries, remove-Entries}
use penge.Decimal.{Decimal, lt, le, mul, add, sub, quantize}
use penge.Decimal.Signs.{
  IsNonNegative, add-IsNonNegative, mul-IsNonNegative, sub-IsNonNegative, quantize-IsNonNegative,
}
use penge.Tax.Money.{same_currency}
use penge.Tax.Lots.Events.{Event, Buy, Sell, Split, Merge, buy, sell, split, merge}
use penge.Tax.Lots.Book.{
  Lot, LotBook, Key, RealisedGain, apply, apply_all, apply_buy, apply_sell, apply_split,
  apply_merge, merge_into, sell_from, reduce, average, append_gain, qty_dp,
}
use penge.Errors.{Exn}

pub record IsSound (k : Key) (lot : Lot) : Type 0 where
  pub account : lot.account_id ≡ k.0
  pub isin : lot.isin ≡ k.1
  pub quantity : IsNonNegative lot.quantity

pub record IsValid (d : Dict Key Lot) : Type 0 where
  pub distinct : IsDistinct d
  pub sound : Entries IsSound d

-- What the constructors ensure of an event's numbers; a sale's own quantity is not needed.
abbrev pub IsAccepted : Event → Type 0
IsAccepted (buy ev) = IsNonNegative ev.quantity
IsAccepted (sell ev) = Unit
IsAccepted (split ev) = IsNonNegative ev.ratio
IsAccepted (merge ev) = IsNonNegative ev.share_ratio

insert-IsValid :
    (k : Key) (lot : Lot) (d : Dict Key Lot) → IsSound k lot → IsValid d → IsValid (insert k lot d)
insert-IsValid k lot d p h = record {
  distinct = insert-IsDistinct k lot d h.distinct;
  sound = insert-Entries IsSound k lot d p h.sound;
}

remove-IsValid : (k : Key) (d : Dict Key Lot) → IsValid d → IsValid (remove k d)
remove-IsValid k d h = record {
  distinct = remove-IsDistinct k d h.distinct;
  sound = remove-Entries IsSound k d h.sound;
}

pub lookup-IsSound :
    (k : Key) {lot : Lot} (d : Dict Key Lot) → IsValid d → lookup k d ≡ some lot → IsSound k lot
lookup-IsSound k d h e = lookup-Entries IsSound k d h.sound e

-- A lot with new numbers under its old key.
revised :
    {k : Key} {lot : Lot} (q c : Decimal)
    → IsSound k lot
    → IsNonNegative q
    → IsSound k (record lot { quantity = q; cost = c })
revised q c s n = record { account = s.account; isin = s.isin; quantity = n }

apply_buy-IsValid :
    (ev : Buy) (b : LotBook)
    → IsNonNegative ev.quantity
    → IsValid b.lots
    → IsValid (apply_buy ev b).1.lots
unfolding apply_buy
apply_buy-IsValid ev b n h = elim (Option-cases (lookup (ev.account_id, ev.isin) b.lots)) [
  | inl e ↦
      rw (e, apply_buy)
        (insert-IsValid _ _ _ (record { account = refl; isin = refl; quantity = n }) h)
  | inr (lot, e) ↦
      let s = lookup-IsSound _ _ h e in
      elim (Bool-cases (same_currency lot.currency ev.price.currency)) [
        | inl same ↦
            rw (e, apply_buy)
              (rw same (
                insert-IsValid _ _ _
                  (revised _ _ s (add-IsNonNegative lot.quantity ev.quantity s.quantity n)) h))
        | inr other ↦ rw (e, apply_buy) (rw other h)
      ]
]

pub lots-append_gain :
    (r : Result Exn RealisedGain) (b : LotBook) → (append_gain r b).1.lots ≡ b.lots
lots-append_gain (ok g) b = refl
lots-append_gain (err e) b = refl

reduce-IsValid :
    (k : Key) (lot : Lot) (q c : Decimal) (b : LotBook)
    → IsSound k lot
    → lt lot.quantity q ≡ false
    → IsValid b.lots
    → IsValid (reduce k lot q c b).lots
unfolding reduce
reduce-IsValid k lot q c b s p h = elim (Bool-cases (le (sub lot.quantity q) qty_dp)) [
  | inl dust ↦ rw dust (remove-IsValid k b.lots h)
  | inr more ↦ rw more (insert-IsValid _ _ _ (revised _ _ s (sub-IsNonNegative _ _ p)) h)
]

sell_from-IsValid :
    (ev : Sell) (k : Key) (lot : Lot) (b : LotBook)
    → IsSound k lot
    → lt lot.quantity ev.quantity ≡ false
    → IsValid b.lots
    → IsValid (sell_from ev k lot b).1.lots
unfolding sell_from
sell_from-IsValid ev k lot b s p h = elim (Result-cases (average lot)) [
  | inl (avg, e) ↦ rw (e, sell_from, lots-append_gain) (reduce-IsValid k lot ev.quantity _ b s p h)
  | inr (x, e) ↦ rw (e, sell_from) h
]

apply_sell-IsValid : (ev : Sell) (b : LotBook) → IsValid b.lots → IsValid (apply_sell ev b).1.lots
unfolding apply_sell
apply_sell-IsValid ev b h = elim (Option-cases (lookup (ev.account_id, ev.isin) b.lots)) [
  | inl e ↦ rw (e, apply_sell) h
  | inr (lot, e) ↦ elim (Bool-cases (same_currency lot.currency ev.price.currency)) [
    | inr other ↦ rw (e, apply_sell) (rw other h)
    | inl same ↦ elim (Bool-cases (lt lot.quantity ev.quantity)) [
      | inl short ↦ rw (e, apply_sell) (rw (same, short) h)
      | inr enough ↦
          rw (e, apply_sell)
            (rw (same, enough) (sell_from-IsValid ev _ lot b (lookup-IsSound _ _ h e) enough h))
    ]
  ]
]

apply_split-IsValid :
    (ev : Split) (b : LotBook)
    → IsNonNegative ev.ratio
    → IsValid b.lots
    → IsValid (apply_split ev b).1.lots
unfolding apply_split
apply_split-IsValid ev b n h = elim (Option-cases (lookup (ev.account_id, ev.isin) b.lots)) [
  | inl e ↦ rw (e, apply_split) h
  | inr (lot, e) ↦
      let s = lookup-IsSound _ _ h e in
      elim (Result-cases (quantize 6 (mul lot.quantity ev.ratio))) [
        | inr (x, f) ↦ rw (e, apply_split) (rw f h)
        | inl (q, f) ↦
            rw (e, apply_split)
              (rw f (
                insert-IsValid _ _ _
                  (revised _ _ s
                    (quantize-IsNonNegative 6 _ (mul-IsNonNegative _ _ s.quantity n) f))
                  h))
      ]
]

merge_into-IsValid :
    (ev : Merge) (old : Lot) (q : Decimal) (b : LotBook)
    → IsNonNegative q
    → IsValid b.lots
    → IsValid (merge_into ev old q b).1.lots
unfolding merge_into
merge_into-IsValid ev old q b n h =
    elim (Option-cases (lookup (ev.account_id, ev.new_isin) b.lots)) [
      | inl e ↦
          rw (e, merge_into)
            (insert-IsValid _ _ _ (record { account = refl; isin = refl; quantity = n }) h)
      | inr (target, e) ↦
          let s = lookup-IsSound _ _ h e in
          elim (Bool-cases (same_currency target.currency old.currency)) [
            | inr other ↦ rw (e, merge_into) (rw other h)
            | inl same ↦ elim (Result-cases (quantize 6 (add target.quantity q))) [
              | inr (x, f) ↦ rw (e, merge_into) (rw (same, f) h)
              | inl (r, f) ↦
                  rw (e, merge_into)
                    (rw (same, f)
                      (insert-IsValid _ _ _
                        (revised _ _ s
                          (quantize-IsNonNegative 6 _ (add-IsNonNegative _ _ s.quantity n) f))
                        h))
            ]
          ]
    ]

apply_merge-IsValid :
    (ev : Merge) (b : LotBook)
    → IsNonNegative ev.share_ratio
    → IsValid b.lots
    → IsValid (apply_merge ev b).1.lots
unfolding apply_merge
apply_merge-IsValid ev b n h = elim (Option-cases (lookup (ev.account_id, ev.isin) b.lots)) [
  | inl e ↦ rw (e, apply_merge) h
  | inr (old, e) ↦
      let s = lookup-IsSound _ _ h e in
      let rest = remove-IsValid (ev.account_id, ev.isin) b.lots h in
      elim (Result-cases (quantize 6 (mul old.quantity ev.share_ratio))) [
        | inr (x, f) ↦ rw (e, apply_merge) (rw f rest)
        | inl (q, f) ↦
            rw (e, apply_merge)
              (rw f (
                merge_into-IsValid ev old q _
                  (quantize-IsNonNegative 6 _ (mul-IsNonNegative _ _ s.quantity n) f) rest))
      ]
]

-- Whatever the event and however it ends, the book stays valid: keys stay distinct, each lot
-- stands under its own account and ISIN, and no quantity becomes negative.
pub apply-IsValid :
    (ev : Event) (b : LotBook) → IsAccepted ev → IsValid b.lots → IsValid (apply ev b).1.lots
unfolding apply
apply-IsValid (buy ev) b n h = apply_buy-IsValid ev b n h
apply-IsValid (sell ev) b n h = apply_sell-IsValid ev b h
apply-IsValid (split ev) b n h = apply_split-IsValid ev b n h
apply-IsValid (merge ev) b n h = apply_merge-IsValid ev b n h

-- The book that a replay of accepted events leaves, also one that stops at an error, is valid.
pub apply_all-IsValid :
    (evs : List Event) (b : LotBook)
    → All IsAccepted evs
    → IsValid b.lots
    → IsValid (apply_all evs b).1.lots
unfolding apply_all
apply_all-IsValid [] b n h = h
apply_all-IsValid (ev ∷ evs) b n h = elim (Result-cases (apply ev b).0) [
  | inr (x, f) ↦ rw (f, apply_all) (apply-IsValid ev b n.0 h)
  | inl (u, f) ↦
      rw (f, apply_all) (apply_all-IsValid evs (apply ev b).1 n.1 (apply-IsValid ev b n.0 h))
]
