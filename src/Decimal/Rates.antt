-- ===== src/Decimal/Rates.antt =====
-- An amount in whole cents times a rate in whole thousandths or hundredths, rounded to cents.
use penge.Prelude.{ℕ, ◌*◌, ◌<◌, ◌≤◌, ◌≡◌, arith, lt→ltb, ok}
use penge.Prelude.Int.{pos, ◌*ℤ◌}
use penge.Decimal.{limit, mul, quantize, round_half_even}
use penge.Decimal.Laws.{fix_small}
use penge.Decimal.Cents.{cents_of}

pub pos-*-pos : (m n : ℕ) → pos m *ℤ pos n ≡ pos (m * n)
unfolding ◌*ℤ◌
pos-*-pos m n = ground arith

round_1000-le : (n : ℕ) → round_half_even n 1000 ≤ n
unfolding round_half_even
round_1000-le n = ground arith

round_100-le : (n : ℕ) → round_half_even n 100 ≤ n
unfolding round_half_even
round_100-le n = ground arith

-- At three places, as the rate of 15.3 %.
pub mul-thousandths :
    (n r : ℕ)
    → n * r < limit
    → quantize 2 (mul (cents_of n) (record { coef = pos r; places = 3 }))
      ≡ ok (cents_of (round_half_even (n * r) 1000))
unfolding mul quantize
mul-thousandths n r h =
    let small : round_half_even (n * r) 1000 < limit = omega (arith, round_1000-le (n * r)) in
    rw (pos-*-pos, fix_small (record { coef = pos (n * r); places = 5 }) h) (rw (lt→ltb _ _ small))

-- At two places, as the rate of 17 %.
pub mul-hundredths :
    (n r : ℕ)
    → n * r < limit
    → quantize 2 (mul (cents_of n) (record { coef = pos r; places = 2 }))
      ≡ ok (cents_of (round_half_even (n * r) 100))
unfolding mul quantize
mul-hundredths n r h =
    let small : round_half_even (n * r) 100 < limit = omega (arith, round_100-le (n * r)) in
    rw (pos-*-pos, fix_small (record { coef = pos (n * r); places = 4 }) h) (rw (lt→ltb _ _ small))
