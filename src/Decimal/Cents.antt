-- ===== src/Decimal/Cents.antt =====
-- Amounts in whole cents: Decimal("0") or a coefficient at two places. As long as the figures
-- stay below 10 ^ 28, sums and differences of such amounts are those of the integers.
use penge.Prelude.{ℕ, ◌+◌, ◌<◌, ◌≡◌, ◌⊎◌, inl, inr, refl, arith, ok, List, [], ◌∷◌, map}
use penge.Prelude.Int.{ℤ, pos, abs, ◌+ℤ◌, ◌-ℤ◌, ltb_ℤ, leb_ℤ, int_laws}
use penge.Decimal.{Decimal, limit, fix, add, sub, neg, quantize, lt, le, nought, sum_decimal}
use penge.Decimal.Laws.{fix_small, cents, add-cents, sub-cents, quantize-cents}

abbrev pub IsCents : Decimal → ℤ → Type 0
IsCents d z = (d ≡ cents z) ⊎ ((d ≡ nought) × (z ≡ pos 0))

zero-add : (z : ℤ) → pos 0 +ℤ z ≡ z
zero-add z = omega int_laws

add-zero : (z : ℤ) → z +ℤ pos 0 ≡ z
add-zero z = omega int_laws

sub-zero : (z : ℤ) → z -ℤ pos 0 ≡ z
sub-zero z = omega int_laws

nought-add : (x : ℤ) → abs (pos 0 +ℤ x) < limit → add nought (cents x) ≡ cents (pos 0 +ℤ x)
unfolding add
nought-add x h = fix_small _ h

add-nought : (x : ℤ) → abs (x +ℤ pos 0) < limit → add (cents x) nought ≡ cents (x +ℤ pos 0)
unfolding add
add-nought x h = fix_small _ h

nought-sub : (x : ℤ) → abs (pos 0 -ℤ x) < limit → sub nought (cents x) ≡ cents (pos 0 -ℤ x)
unfolding sub
nought-sub x h = fix_small _ h

sub-nought : (x : ℤ) → abs (x -ℤ pos 0) < limit → sub (cents x) nought ≡ cents (x -ℤ pos 0)
unfolding sub
sub-nought x h = fix_small _ h

nought-add-nought : add nought nought ≡ nought
unfolding add ◌+ℤ◌ fix
nought-add-nought = refl

nought-sub-nought : sub nought nought ≡ nought
unfolding sub ◌-ℤ◌ fix
nought-sub-nought = refl

pub add-IsCents :
    (a b : Decimal) (x y : ℤ)
    → IsCents a x
    → IsCents b y
    → abs (x +ℤ y) < limit
    → IsCents (add a b) (x +ℤ y)
add-IsCents a b x y (inl p) (inl q) h = inl (rw (p, q) (add-cents x y h))
add-IsCents a b x y (inl p) (inr (q, z)) h = inl (rw (p, q, z) (add-nought x (rw z at h)))
add-IsCents a b x y (inr (p, z)) (inl q) h = inl (rw (p, q, z) (nought-add y (rw z at h)))
add-IsCents a b x y (inr (p, z)) (inr (q, w)) h =
    inr (rw (p, q) nought-add-nought, rw (z, w) (omega int_laws))

pub sub-IsCents :
    (a b : Decimal) (x y : ℤ)
    → IsCents a x
    → IsCents b y
    → abs (x -ℤ y) < limit
    → IsCents (sub a b) (x -ℤ y)
sub-IsCents a b x y (inl p) (inl q) h = inl (rw (p, q) (sub-cents x y h))
sub-IsCents a b x y (inl p) (inr (q, z)) h = inl (rw (p, q, z) (sub-nought x (rw z at h)))
sub-IsCents a b x y (inr (p, z)) (inl q) h = inl (rw (p, q, z) (nought-sub y (rw z at h)))
sub-IsCents a b x y (inr (p, z)) (inr (q, w)) h =
    inr (rw (p, q) nought-sub-nought, rw (z, w) (omega int_laws))

pub quantize-nought : quantize 2 nought ≡ ok (cents (pos 0))
unfolding quantize
quantize-nought = refl

pub quantize-IsCents :
    (d : Decimal) (z : ℤ) → IsCents d z → abs z < limit → quantize 2 d ≡ ok (cents z)
quantize-IsCents d z (inl p) h = rw p (quantize-cents z h)
quantize-IsCents d z (inr (p, q)) h = rw (p, q) quantize-nought

unfoldable pub sum : List ℕ → ℕ
sum [] = 0
sum (n ∷ ns) = n + sum ns

abbrev pub cents_of : ℕ → Decimal
cents_of n = cents (pos n)

sum_from-IsCents :
    (acc : Decimal) (n : ℕ) (ns : List ℕ)
    → IsCents acc (pos n)
    → n + sum ns < limit
    → IsCents (sum_decimal acc (map cents_of ns)) (pos (n + sum ns))
unfolding sum_decimal sum
sum_from-IsCents acc n [] c h = (let e : n + 0 ≡ n = omega arith in rw e c)
sum_from-IsCents acc n (m ∷ ms) c h =
    let joined : pos n +ℤ pos m ≡ pos (n + m) = omega int_laws in
    let small : abs (pos n +ℤ pos m) < limit = rw joined (omega arith) in
    let next : IsCents (add acc (cents_of m)) (pos (n + m)) =
      rw joined at (add-IsCents acc (cents_of m) (pos n) (pos m) c (inl refl) small) in
    let e : n + (m + sum ms) ≡ n + m + sum ms = omega arith in
    rw e (sum_from-IsCents (add acc (cents_of m)) (n + m) ms next (omega arith))

-- A list of amounts in whole cents adds up to the sum of the integers.
pub sum-IsCents :
    (ns : List ℕ) → sum ns < limit → IsCents (sum_decimal nought (map cents_of ns)) (pos (sum ns))
sum-IsCents ns h =
    (let e : 0 + sum ns ≡ sum ns = omega arith in
      rw e at (sum_from-IsCents nought 0 ns (inr (refl, refl)) (omega arith)))

pub nought-lt-IsCents : (d : Decimal) (z : ℤ) → IsCents d z → lt nought d ≡ ltb_ℤ (pos 0) z
unfolding lt
nought-lt-IsCents d z (inl p) = rw p
nought-lt-IsCents d z (inr (p, q)) = rw (p, q)

pub nought-le-IsCents : (d : Decimal) (z : ℤ) → IsCents d z → le nought d ≡ leb_ℤ (pos 0) z
unfolding le
nought-le-IsCents d z (inl p) = rw p
nought-le-IsCents d z (inr (p, q)) = rw (p, q)

neg-cents : (z : ℤ) → abs (pos 0 -ℤ z) < limit → neg (cents z) ≡ cents (pos 0 -ℤ z)
unfolding neg
neg-cents z h = fix_small _ h

neg-nought : neg nought ≡ nought
unfolding neg ◌-ℤ◌ fix
neg-nought = refl

pub neg-IsCents :
    (d : Decimal) (z : ℤ) → IsCents d z → abs (pos 0 -ℤ z) < limit → IsCents (neg d) (pos 0 -ℤ z)
neg-IsCents d z (inl p) h = inl (rw p (neg-cents z h))
neg-IsCents d z (inr (p, q)) h = inr (rw p neg-nought, rw q (omega int_laws))
