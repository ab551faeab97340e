-- ===== src/Tests/Lots.antt =====
-- A small lot book (src/penge/tax/lots.py).
use penge.Prelude.{ℕ, String, ◌≡◌, ◌≢◌, refl, sym, ap, arith, none, [], ◌∷◌, ok, err}
use penge.Prelude.Int.{pos, ◌*ℤ◌}
use penge.Prelude.Eq.{string_eq, pair_eq}
use penge.Prelude.Dict.{lookup}
use penge.Errors.{lot_error}
use penge.Decimal.{whole, mul, quantize, fix}
use penge.Decimal.Laws.{cents}
use penge.Tax.Money.{Money, Currency, eur, dkk}
use penge.Tax.Lots.Events.{EventBase, Event, Sell, Merge, buy, sell, merge, positive_qty}
use penge.Tax.Lots.Book.{LotBook, Key, drop, apply, apply_buy, apply_all}
use penge.Tax.Lots.Invariant.{IsValid, apply-IsValid, apply_all-IsValid}
use penge.Tax.Lots.Failures.{IsCrossCurrency, LeftBehind, merge_loses_lot, lot_error_unchanged}
use penge.Tax.Lots.Movements.{
  millionths, apply-others, last_millionth_lost, positive_qty_rounds_away,
}

abbrev event : String → EventBase
event isin = record { event_date = 0; account_id = "nordnet"; isin = isin }

abbrev world : String
world = "IE00B4L5Y983"

abbrev europe : String
europe = "DE000A1EWWW0"

isins_differ : world ≢ europe
isins_differ e = absurd (cc ((string_eq.beq_iff world europe).1 e))

abbrev in_currency : Currency → ℕ → Money
in_currency c n = record { amount = cents (pos n); currency = c }

abbrev bought : String → Currency → ℕ → Event
bought isin c n =
    buy (record {
      base = event isin;
      quantity = millionths n;
      price = in_currency c 10050;
      fee = none;
    })

abbrev first_sale : Sell
first_sale = record {
  base = event world;
  quantity = millionths 4000000;
  price = in_currency dkk 12000;
  fee = none;
}

abbrev one_lot : LotBook
one_lot = record {
  lots =
      (
        (("nordnet", world)),
        record {
          account_id = "nordnet";
          isin = world;
          quantity = millionths 4000001;
          cost = cents (pos 40200);
          currency = dkk;
        },
      )
      ∷ [];
  realised = [];
}

abbrev two_lots : LotBook
two_lots = record {
  lots =
      (
        ("nordnet", world),
        record {
          account_id = "nordnet";
          isin = world;
          quantity = millionths 4000001;
          cost = cents (pos 40200);
          currency = dkk;
        },
      )
      ∷ (
        ("nordnet", europe),
        record {
          account_id = "nordnet";
          isin = europe;
          quantity = millionths 3000000;
          cost = cents (pos 900);
          currency = eur;
        },
      )
      ∷ [];
  realised = [];
}

one_lot-IsValid : IsValid one_lot.lots
one_lot-IsValid = record {
  distinct = (refl, tt);
  sound = (record { account = refl; isin = refl; quantity = refl }, tt);
}

two_lots-IsValid : IsValid two_lots.lots
two_lots-IsValid = record {
  distinct = (refl, (refl, tt));
  sound = (
    record { account = refl; isin = refl; quantity = refl },
    (record { account = refl; isin = refl; quantity = refl }, tt),
  );
}

abbrev crossing : Merge
crossing = record { base = event world; new_isin = europe; share_ratio = whole 2 }

apply-IsValid_example : IsValid (apply (bought world dkk 1500000) one_lot).1.lots
apply-IsValid_example = apply-IsValid (bought world dkk 1500000) one_lot refl one_lot-IsValid

apply_all-IsValid_example :
    IsValid
      (apply_all (bought world dkk 1500000 ∷ sell first_sale ∷ merge crossing ∷ []) two_lots).1.lots
apply_all-IsValid_example =
    apply_all-IsValid (bought world dkk 1500000 ∷ sell first_sale ∷ merge crossing ∷ []) two_lots
      (refl, (tt, (refl, tt))) two_lots-IsValid

apply-others_example :
    lookup ("nordnet", europe) (apply (sell first_sale) two_lots).1.lots
    ≡ lookup ("nordnet", europe) two_lots.lots
apply-others_example =
    apply-others (sell first_sale) two_lots ("nordnet", europe)
      (λ e. isins_differ (sym (ap (λ (k : Key). k.1) e)))

abbrev cross_currency : IsCrossCurrency crossing two_lots
cross_currency = record {
  old = _;
  target = _;
  at_old = refl;
  other_key = isins_differ;
  at_target = refl;
  differ = refl;
}

doubled : quantize 6 (mul (millionths 4000001) (whole 2)) ≡ ok (millionths 8000002)
unfolding quantize mul fix ◌*ℤ◌
doubled = refl

merge_loses_lot_example :
    (apply (merge crossing) two_lots ≡ (err lot_error, drop ("nordnet", world) two_lots))
    × (lookup ("nordnet", world) (apply (merge crossing) two_lots).1.lots ≡ none)
merge_loses_lot_example = merge_loses_lot crossing two_lots cross_currency two_lots-IsValid doubled

last_millionth_lost_example :
    lookup ("nordnet", world) (apply (sell first_sale) one_lot).1.lots ≡ none
last_millionth_lost_example =
    last_millionth_lost first_sale one_lot 4000000 one_lot-IsValid refl refl refl refl

positive_qty_rounds_away_example :
    positive_qty (record { coef = pos 4; places = 7 }) ≡ ok (millionths 0)
positive_qty_rounds_away_example = positive_qty_rounds_away 0 4 (omega arith) (omega arith)

-- A purchase in the lot's other currency.
abbrev mistaken : Event
mistaken = bought world eur 1000000

refused : apply mistaken one_lot ≡ (err lot_error, one_lot)
unfolding apply apply_buy
refused = refl

lot_error_unchanged_example : LeftBehind mistaken one_lot one_lot
lot_error_unchanged_example = lot_error_unchanged mistaken one_lot one_lot-IsValid refused
