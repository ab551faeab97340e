-- ===== src/Decimal.antt =====
-- Python's decimal.Decimal under the default context: a signed coefficient over a power of ten,
-- 28 significant digits, ROUND_HALF_EVEN. A value is finite; the sign of a zero is not kept, and
-- a positive exponent is written out as zeros of the coefficient, which changes no value.
pub mod Laws
pub mod Rates
pub mod Cents
pub mod Signs
pub mod Zeros
pub mod Floors
pub mod Rounding
use penge.Prelude.{
  ℕ, zero, suc, ◌+◌, ◌-◌, ◌*◌, ◌/◌, ◌%◌, ◌^◌, max, Bool, true, false, ◌==◌, ltb, leb, if◌then◌else◌,
  Result, ok, err, List, [], ◌∷◌,
}
use penge.Prelude.Int.{ℤ, pos, negsuc, abs, sub_ℕ, ◌+ℤ◌, ◌-ℤ◌, ◌*ℤ◌, ltb_ℤ, leb_ℤ}
use penge.Errors.{Exn, invalid_operation, division_by_zero}

pub record Decimal : Type 0 where
  pub coef : ℤ
  pub places : ℕ

-- The first magnitude with more digits than the context's precision.
abbrev pub limit : ℕ
limit = 10 ^ 28

-- n / d to the nearest whole number, a tie to the even one.
unfoldable pub round_half_even : ℕ → ℕ → ℕ
round_half_even n d =
    if ltb (2 * (n % d)) d
    then n / d
    else if ltb d (2 * (n % d))
    then n / d + 1
    else n / d + (n / d) % 2

-- z * 10 ^ k
abbrev pub scale : ℕ → ℤ → ℤ
scale zero z = z
scale (suc k) (pos n) = pos (n * 10 ^ suc k)
scale (suc k) (negsuc n) = sub_ℕ 0 (suc n * 10 ^ suc k)

-- z / 10 ^ k, rounded on the magnitude.
abbrev pub unscale : ℕ → ℤ → ℤ
unscale zero z = z
unscale (suc k) (pos n) = pos (round_half_even n (10 ^ suc k))
unscale (suc k) (negsuc n) = sub_ℕ 0 (round_half_even (suc n) (10 ^ suc k))

-- How many digits a magnitude has beyond the precision; as fuel the magnitude itself is enough.
unfoldable pub excess : ℕ → ℕ → ℕ
excess zero n = 0
excess (suc fuel) n = elim (ltb n limit) [ true ↦ 0 | false ↦ suc (excess fuel (n / 10)) ]

-- The context's rounding of a result.
unfoldable pub fix : Decimal → Decimal
unfolding excess round_half_even
fix d =
    let k = excess (abs d.coef) (abs d.coef) in
    if ltb (abs d.coef) limit
    then d
    else record { coef = scale (k - d.places) (unscale k d.coef); places = d.places - k }

unfoldable pub add : Decimal → Decimal → Decimal
add a b = fix (record {
  coef = scale (b.places - a.places) a.coef +ℤ scale (a.places - b.places) b.coef;
  places = max a.places b.places;
})

unfoldable pub sub : Decimal → Decimal → Decimal
sub a b = fix (record {
  coef = scale (b.places - a.places) a.coef -ℤ scale (a.places - b.places) b.coef;
  places = max a.places b.places;
})

unfoldable pub mul : Decimal → Decimal → Decimal
mul a b = fix (record { coef = a.coef *ℤ b.coef; places = a.places + b.places })

unfoldable pub neg : Decimal → Decimal
neg a = fix (record { coef = pos 0 -ℤ a.coef; places = a.places })

-- The number of decimal digits of a magnitude; `digits_from n n` for n.
unfoldable pub digits_from : ℕ → ℕ → ℕ
digits_from zero n = 1
digits_from (suc fuel) n = elim (ltb n 10) [ true ↦ 1 | false ↦ suc (digits_from fuel (n / 10)) ]

-- The quotient of two magnitudes with 29 or more digits, its last digit made inexact if a
-- remainder is left, so that the context's rounding is that of the exact quotient.
sticky : ℕ → ℕ → ℕ
sticky n d = if (n % d) == 0 then n / d else if (n / d) % 5 == 0 then n / d + 1 else n / d

unfoldable pub div_magnitude : ℕ → ℕ → Decimal → Decimal → ℕ
unfolding sticky
div_magnitude up down a b = sticky (abs a.coef * 10 ^ up) (abs b.coef * 10 ^ down)

same_sign : ℤ → ℤ → ℕ → ℤ
same_sign (pos _) (pos _) n = pos n
same_sign (negsuc _) (negsuc _) n = pos n
same_sign _ _ n = sub_ℕ 0 n

unfoldable pub div : Decimal → Decimal → Result Exn Decimal
unfolding digits_from div_magnitude same_sign fix
div a b =
    let la = digits_from (abs a.coef) (abs a.coef) in
    let lb = digits_from (abs b.coef) (abs b.coef) in
    let up = 29 + lb - la in
    let down = la - (29 + lb) in
    let q = div_magnitude up down a b in
    if abs b.coef == 0
    then (if abs a.coef == 0 then err invalid_operation else err division_by_zero)
    else ok (
        fix (record {
          coef = scale (b.places + down - (a.places + up)) (same_sign a.coef b.coef q);
          places = a.places + up - (b.places + down);
        }))

-- d.quantize(10 ^ -p, ROUND_HALF_EVEN): refused if the result has more digits than the precision.
unfoldable pub quantize : ℕ → Decimal → Result Exn Decimal
unfolding round_half_even
quantize p d =
    let c = unscale (d.places - p) (scale (p - d.places) d.coef) in
    if ltb (abs c) limit then ok (record { coef = c; places = p }) else err invalid_operation

-- Comparisons are of values, and exact.
unfoldable pub lt : Decimal → Decimal → Bool
lt a b = ltb_ℤ (scale (b.places - a.places) a.coef) (scale (a.places - b.places) b.coef)

unfoldable pub le : Decimal → Decimal → Bool
le a b = leb_ℤ (scale (b.places - a.places) a.coef) (scale (a.places - b.places) b.coef)

abbrev pub whole : ℕ → Decimal
whole n = record { coef = pos n; places = 0 }

abbrev pub nought : Decimal
nought = whole 0

-- Python's max(a, b) and min(a, b): the first argument wins a tie.
unfoldable pub max_decimal : Decimal → Decimal → Decimal
unfolding lt
max_decimal a b = if lt a b then b else a

unfoldable pub min_decimal : Decimal → Decimal → Decimal
unfolding lt
min_decimal a b = if lt b a then b else a

-- sum(values, start)
unfoldable pub sum_decimal : Decimal → List Decimal → Decimal
sum_decimal start [] = start
sum_decimal start (x ∷ xs) = sum_decimal (add start x) xs
