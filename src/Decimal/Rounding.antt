-- ===== src/Decimal/Rounding.antt =====
-- Half-even rounding, and the digits that the context drops.
use penge.Prelude.{
  ℕ, zero, suc, ◌+◌, ◌*◌, ◌/◌, ◌^◌, ◌≤◌, ◌<◌, ◌≡◌, arith, Bool-cases, inl, inr, ltb, ltb→lt,
}
use native.Mathlib.Nat.{div-add-mod, mul-div_cancel, mul-mod_left, div-div-eq-div-mul, pow-succ'}
use penge.Decimal.{round_half_even, excess, limit}

-- The rounded quotient is within half a divisor of the exact one.
pub round_half_even_near :
    (n d : ℕ)
    → 0 < d
    → (2 * n ≤ 2 * (round_half_even n d * d) + d) × (2 * (round_half_even n d * d) ≤ 2 * n + d)
unfolding round_half_even
round_half_even_near n d h = grind (arith, div-add-mod n d)

pub round_half_even_exact : (q d : ℕ) → 0 < d → round_half_even (q * d) d ≡ q
unfolding round_half_even
round_half_even_exact q d h = rw (mul-div_cancel q h, mul-mod_left q d) (ground arith)

pub excess_enough : (fuel n : ℕ) → n ≤ fuel → n / 10 ^ excess fuel n < limit
unfolding excess
excess_enough zero n h = omega arith
excess_enough (suc fuel) n h = elim (Bool-cases (ltb n limit)) [
  | inl few ↦ rw (few, excess) (omega (arith, ltb→lt n limit few))
  | inr many ↦
      rw (many, excess, pow-succ', ← div-div-eq-div-mul)
        (excess_enough fuel (n / 10) (ground arith))
]
