-- ===== src/Decimal/Zeros.antt =====
-- Decimals that are zero, at any number of places, and decimals that are not positive.
use penge.Prelude.{
  ◌+◌, ℕ, zero, suc, ◌-◌, ◌^◌, ◌<◌, ◌≡◌, refl, ap, arith, inl, inr, ltb, Bool-cases, ok,
}
use penge.Prelude.Int.{ℤ, pos, negsuc, abs, pos_part, ltb_ℤ, ◌*ℤ◌, ◌-ℤ◌}
use penge.Decimal.{
  Decimal, limit, fix, mul, sub, quantize, lt, scale, unscale, excess, round_half_even, max_decimal,
  min_decimal, nought, div, whole,
}
use penge.Decimal.Laws.{cents}
use penge.Decimal.Signs.{IsNonNegative, scale-nonneg}

abbrev pub IsZero : Decimal → Type 0
IsZero d = d.coef ≡ pos 0

abbrev pub IsNonPositive : Decimal → Type 0
IsNonPositive d = pos_part d.coef ≡ 0

scale-zero : (k : ℕ) → scale k (pos 0) ≡ pos 0
scale-zero zero = refl
scale-zero (suc k) = ground arith

round_half_even-zero : (d : ℕ) → 0 < d → round_half_even 0 d ≡ 0
unfolding round_half_even
round_half_even-zero d h = ground arith

power_pos : (k : ℕ) → 0 < 10 ^ k
power_pos zero = omega arith
power_pos (suc k) = omega (arith, power_pos k)

unscale-zero : (k : ℕ) → unscale k (pos 0) ≡ pos 0
unscale-zero zero = refl
unscale-zero (suc k) = rw (round_half_even-zero (10 ^ suc k) (power_pos (suc k)))

scale-nonpos : (k : ℕ) (z : ℤ) → pos_part z ≡ 0 → pos_part (scale k z) ≡ 0
scale-nonpos zero z h = h
scale-nonpos (suc k) (pos n) h = ground arith
scale-nonpos (suc k) (negsuc n) h = ground arith

unscale-nonpos : (k : ℕ) (z : ℤ) → pos_part z ≡ 0 → pos_part (unscale k z) ≡ 0
unscale-nonpos zero z h = h
unscale-nonpos (suc k) (pos n) h =
    let e : n ≡ 0 = ground arith in rw e (ap pos_part (unscale-zero (suc k)))
unscale-nonpos (suc k) (negsuc n) h = ground arith

fix-IsNonPositive : (d : Decimal) → IsNonPositive d → IsNonPositive (fix d)
unfolding fix
fix-IsNonPositive d h = elim (Bool-cases (ltb (abs d.coef) limit)) [
  | inl few ↦ rw few h
  | inr many ↦
      (let k = excess (abs d.coef) (abs d.coef) in
        rw many (scale-nonpos (k - d.places) (unscale k d.coef) (unscale-nonpos k d.coef h)))
]

fix-IsZero : (d : Decimal) → IsZero d → IsZero (fix d)
unfolding fix
fix-IsZero d h = rw h refl

pub mul-IsZero : (a b : Decimal) → IsZero a → IsZero (mul a b)
unfolding mul ◌*ℤ◌
mul-IsZero a b h = fix-IsZero _ (rw h (ground arith))

pub mul-IsZero_right : (a b : Decimal) → IsZero b → IsZero (mul a b)
unfolding mul ◌*ℤ◌
mul-IsZero_right a b h = fix-IsZero _ (rw h (ground arith))

-- Zero less an amount that is not negative.
pub sub-IsNonPositive : (a b : Decimal) → IsZero a → IsNonNegative b → IsNonPositive (sub a b)
unfolding sub ◌-ℤ◌
sub-IsNonPositive a b h k =
    let n = scale-nonneg (a.places - b.places) b.coef k in
    fix-IsNonPositive _ (rw (h, scale-zero (b.places - a.places)) (ground arith))

pub div-IsZero : (a : Decimal) → IsZero a → (q : Decimal) × (div a (whole 12) ≡ ok q) × IsZero q
unfolding div
div-IsZero a h = (
  _,
  refl,
  rw h (
      fix-IsZero
        (record { coef = scale (0 + 0 - (a.places + 30)) (pos 0); places = a.places + 30 - 0 })
        (scale-zero (0 + 0 - (a.places + 30)))),
)

pub quantize-IsZero : (d : Decimal) → IsZero d → quantize 2 d ≡ ok (cents (pos 0))
unfolding quantize
quantize-IsZero d h = rw (h, scale-zero (2 - d.places), unscale-zero (d.places - 2))

lt-nought : (a : Decimal) → lt a nought ≡ ltb_ℤ a.coef (pos 0)
unfolding lt
lt-nought a = let e : 0 - a.places ≡ 0 = omega arith in rw (e, scale-zero (a.places - 0)) refl

pub max-IsNonNegative : (a : Decimal) → IsNonNegative (max_decimal a nought)
unfolding max_decimal
max-IsNonNegative a = rw (lt-nought a) (ground arith)

pub max-IsZero : (a : Decimal) → IsNonPositive a → IsZero (max_decimal a nought)
unfolding max_decimal
max-IsZero a h = rw (lt-nought a) (ground arith)

pub min-IsNonNegative :
    (a b : Decimal) → IsNonNegative a → IsNonNegative b → IsNonNegative (min_decimal a b)
unfolding min_decimal
min-IsNonNegative a b h k = ground arith

pub min-IsZero : (a b : Decimal) → IsZero a → IsNonNegative b → IsZero (min_decimal a b)
unfolding min_decimal lt
min-IsZero a b h k =
    let n = scale-nonneg (a.places - b.places) b.coef k in
    rw (h, scale-zero (b.places - a.places)) (ground arith)
