-- ===== src/Decimal/Signs.antt =====
-- Signs: the context's rounding keeps them, and so do sums, products and quantize.
use penge.Prelude.{ℕ, zero, suc, ◌-◌, ◌≡◌, refl, arith, false, inl, inr, ltb, Bool-cases, ok}
use penge.Prelude.Int.{ℤ, pos, negsuc, abs, neg_part, ◌+ℤ◌, ◌-ℤ◌, ◌*ℤ◌}
use penge.Decimal.{Decimal, limit, fix, add, sub, mul, quantize, lt, scale, unscale, excess}

abbrev pub IsNonNegative : Decimal → Type 0
IsNonNegative d = neg_part d.coef ≡ 0

pub scale-nonneg : (k : ℕ) (z : ℤ) → neg_part z ≡ 0 → neg_part (scale k z) ≡ 0
scale-nonneg zero z h = h
scale-nonneg (suc k) (pos n) h = refl
scale-nonneg (suc k) (negsuc n) h = absurd (omega arith)

pub unscale-nonneg : (k : ℕ) (z : ℤ) → neg_part z ≡ 0 → neg_part (unscale k z) ≡ 0
unscale-nonneg zero z h = h
unscale-nonneg (suc k) (pos n) h = refl
unscale-nonneg (suc k) (negsuc n) h = absurd (omega arith)

pub fix-IsNonNegative : (d : Decimal) → IsNonNegative d → IsNonNegative (fix d)
unfolding fix
fix-IsNonNegative d h = elim (Bool-cases (ltb (abs d.coef) limit)) [
  | inl few ↦ rw few h
  | inr many ↦
      (let k = excess (abs d.coef) (abs d.coef) in
        rw many (scale-nonneg (k - d.places) (unscale k d.coef) (unscale-nonneg k d.coef h)))
]

+ℤ-nonneg : (x y : ℤ) → neg_part x ≡ 0 → neg_part y ≡ 0 → neg_part (x +ℤ y) ≡ 0
unfolding ◌+ℤ◌
+ℤ-nonneg x y h k = rw (h, k) (ground arith)

pub add-IsNonNegative :
    (a b : Decimal) → IsNonNegative a → IsNonNegative b → IsNonNegative (add a b)
unfolding add
add-IsNonNegative a b h k = fix-IsNonNegative _ (
    +ℤ-nonneg (scale (b.places - a.places) a.coef) (scale (a.places - b.places) b.coef)
      (scale-nonneg (b.places - a.places) a.coef h) (scale-nonneg (a.places - b.places) b.coef k))

pub mul-IsNonNegative :
    (a b : Decimal) → IsNonNegative a → IsNonNegative b → IsNonNegative (mul a b)
unfolding mul ◌*ℤ◌
mul-IsNonNegative a b h k = fix-IsNonNegative _ (rw (h, k) (ground arith))

pub sub-IsNonNegative : (a b : Decimal) → lt a b ≡ false → IsNonNegative (sub a b)
unfolding sub lt ◌-ℤ◌
sub-IsNonNegative a b h = fix-IsNonNegative _ (ground arith)

pub quantize-IsNonNegative :
    (p : ℕ) (d : Decimal) {q : Decimal} → IsNonNegative d → quantize p d ≡ ok q → IsNonNegative q
unfolding quantize
quantize-IsNonNegative p d h e =
    let c : ℤ = unscale (d.places - p) (scale (p - d.places) d.coef) in
    let c_nonneg : neg_part c ≡ 0 =
      unscale-nonneg (d.places - p) (scale (p - d.places) d.coef)
        (scale-nonneg (p - d.places) d.coef h) in
    elim (Bool-cases (ltb (abs c) limit)) [ inl few ↦ ground arith | inr many ↦ cc (rw many at e) ]
