-- ===== src/Decimal/Floors.antt =====
-- Amounts in whole cents against amounts in whole units, and differences cut off at zero.
use penge.Prelude.{
  ℕ, ◌+◌, ◌-◌, ◌*◌, ◌<◌, ◌≡◌, inl, inr, refl, arith, ltb, Bool-cases, ok, lt→ltb, min,
}
use penge.Prelude.Int.{ℤ, pos, negsuc, abs, pos_part, ◌+ℤ◌, ◌-ℤ◌, int_laws}
use penge.Decimal.{
  Decimal, limit, add, sub, mul, quantize, lt, nought, whole, round_half_even, max_decimal,
  min_decimal,
}
use penge.Decimal.Laws.{cents, fix_small, quantize-cents, cents-lt-nought}
use penge.Decimal.Cents.{IsCents, cents_of}
use penge.Decimal.Rates.{mul-hundredths}
use penge.Decimal.Zeros.{quantize-IsZero, mul-IsZero}

pub sub-cents-whole :
    (a t : ℕ)
    → abs (pos a -ℤ pos (t * 100)) < limit
    → sub (cents_of a) (whole t) ≡ cents (pos a -ℤ pos (t * 100))
unfolding sub
sub-cents-whole a t h = fix_small _ h

pub sub-whole-cents :
    (m n : ℕ)
    → abs (pos (m * 100) -ℤ pos n) < limit
    → sub (whole m) (cents_of n) ≡ cents (pos (m * 100) -ℤ pos n)
unfolding sub
sub-whole-cents m n h = fix_small _ h

pub add-whole-cents :
    (g n : ℕ) → g * 100 + n < limit → add (whole g) (cents_of n) ≡ cents_of (g * 100 + n)
unfolding add
add-whole-cents g n h =
    let e : pos (g * 100) +ℤ pos n ≡ pos (g * 100 + n) = omega int_laws in
    rw e (fix_small (cents_of (g * 100 + n)) h)

pub quantize-whole : (n : ℕ) → n * 100 < limit → quantize 2 (whole n) ≡ ok (cents_of (n * 100))
unfolding quantize
quantize-whole n h = rw (lt→ltb _ _ h) refl

-- max(d, 0) for an amount in cents.
pub max-IsCents : (z : ℤ) → IsCents (max_decimal (cents z) nought) (pos (pos_part z))
unfolding max_decimal
max-IsCents (pos n) = inl (rw (cents-lt-nought (pos n)) (ground arith))
max-IsCents (negsuc n) = inr (rw (cents-lt-nought (negsuc n)) (ground arith), refl)

whole-lt-cents : (m n : ℕ) → lt (whole m) (cents_of n) ≡ ltb (m * 100) n
unfolding lt
whole-lt-cents m n = ground arith

-- The smaller of an amount in cents and one in whole units, in cents.
pub quantize-min :
    (n m : ℕ)
    → n + m * 100 < limit
    → quantize 2 (min_decimal (cents_of n) (whole m)) ≡ ok (cents_of (min n (m * 100)))
unfolding min_decimal
quantize-min n m h = elim (Bool-cases (ltb (m * 100) n)) [
  | inl less ↦
      let e : min n (m * 100) ≡ m * 100 = ground arith in
      rw (whole-lt-cents m n, less, e) (quantize-whole m (omega arith))
  | inr most ↦
      let e : min n (m * 100) ≡ n = ground arith in
      rw (whole-lt-cents m n, most, e) (quantize-cents (pos n) (omega arith))
]

-- A rate in hundredths of an amount in cents.
pub mul-IsCents :
    (d : Decimal) (n r : ℕ)
    → IsCents d (pos n)
    → n * r < limit
    → quantize 2 (mul d (record { coef = pos r; places = 2 }))
      ≡ ok (cents_of (round_half_even (n * r) 100))
unfolding round_half_even
mul-IsCents d n r (inl p) h = rw p (mul-hundredths n r h)
mul-IsCents d n r (inr (p, q)) h =
    let z : n ≡ 0 = ground arith in
    let e : round_half_even (n * r) 100 ≡ 0 = rw z (ground arith) in
    let rate : Decimal = record { coef = pos r; places = 2 } in
    rw (p, e) (quantize-IsZero (mul nought rate) (mul-IsZero nought rate refl))

pub pos_part-diff : (m n : ℕ) → pos_part (pos m -ℤ pos n) ≡ m - n
unfolding ◌-ℤ◌
pos_part-diff m n = ground arith
