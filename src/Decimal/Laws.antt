-- ===== src/Decimal/Laws.antt =====
-- Arithmetic on amounts that are whole at a fixed number of places and within the precision.
use penge.Prelude.{◌<◌, ◌≡◌, refl, lt→ltb, ok}
use penge.Prelude.Int.{ℤ, pos, abs, ◌+ℤ◌, ◌-ℤ◌, ltb_ℤ, int_laws, abs_laws}
use penge.Decimal.{Decimal, limit, fix, add, sub, neg, quantize, lt, nought}

pub fix_small : (d : Decimal) → abs d.coef < limit → fix d ≡ d
unfolding fix
fix_small d h = rw (lt→ltb _ _ h)

-- An amount in øre or cents.
abbrev pub cents : ℤ → Decimal
cents z = record { coef = z; places = 2 }

pub add-cents : (a b : ℤ) → abs (a +ℤ b) < limit → add (cents a) (cents b) ≡ cents (a +ℤ b)
unfolding add
add-cents a b h = fix_small _ h

pub sub-cents : (a b : ℤ) → abs (a -ℤ b) < limit → sub (cents a) (cents b) ≡ cents (a -ℤ b)
unfolding sub
sub-cents a b h = fix_small _ h

pub quantize-cents : (a : ℤ) → abs a < limit → quantize 2 (cents a) ≡ ok (cents a)
unfolding quantize
quantize-cents a h = rw (lt→ltb _ _ h)

pub nought-add : (a : ℤ) → abs a < limit → add nought (cents a) ≡ cents a
unfolding add
nought-add a h = let e : pos 0 +ℤ a ≡ a = omega int_laws in rw e (fix_small _ h)

pub cents-lt : (a b : ℤ) → lt (cents a) (cents b) ≡ ltb_ℤ a b
unfolding lt
cents-lt a b = refl

pub neg-cents : (a : ℤ) → abs a < limit → neg (cents a) ≡ cents (pos 0 -ℤ a)
unfolding neg
neg-cents a h = fix_small _ (omega abs_laws)

pub nought-lt-cents : (a : ℤ) → lt nought (cents a) ≡ ltb_ℤ (pos 0) a
unfolding lt
nought-lt-cents a = refl

pub cents-lt-nought : (a : ℤ) → lt (cents a) nought ≡ ltb_ℤ a (pos 0)
unfolding lt
cents-lt-nought a = refl
