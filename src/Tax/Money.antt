-- ===== src/Tax/Money.antt =====
-- Money and currencies (src/penge/tax/lots.py); every amount is finite, which is what the
-- validator of the class asks.
use penge.Prelude.{◌≡◌, ◌↔◌, arith, Bool, true, false}
use penge.Decimal.{Decimal}

pub data Currency : Type 0 where
  eur dkk : Currency

abbrev pub same_currency : Currency → Currency → Bool
same_currency eur eur = true
same_currency dkk dkk = true
same_currency _ _ = false

pub same_currency_iff : (a b : Currency) → (same_currency a b ≡ true) ↔ (a ≡ b)
same_currency_iff eur eur = ground arith
same_currency_iff eur dkk = ground arith
same_currency_iff dkk eur = ground arith
same_currency_iff dkk dkk = ground arith

pub record Money : Type 0 where
  pub amount : Decimal
  pub currency : Currency
