-- ===== src/Sim/Routing/Exact.antt =====
-- The routing of contributions on amounts in whole øre (src/penge/sim/routing.py).
use penge.Prelude.{
  ℕ, zero, suc, ◌+◌, ◌-◌, ◌*◌, ◌<◌, ◌≤◌, ◌≡◌, ◌∙◌, ap, subst, refl, arith, min, List, [], ◌∷◌, ok,
}
use penge.Prelude.Int.{ℤ, pos, ◌+ℤ◌, ◌-ℤ◌, abs_laws, int_laws}
use penge.Decimal.{limit, add, sub, nought, max_decimal, min_decimal}
use penge.Decimal.Laws.{cents, quantize-cents, add-cents, sub-cents, cents-lt}
use penge.Decimal.Cents.{IsCents, cents_of, quantize-IsCents}
use penge.Decimal.Floors.{max-IsCents, pos_part-diff}
use penge.Sim.Routing.{Period, room_under, period, periods}

-- The deposits before period k + 1, of a contribution a each, into a cap c from s on.
unfoldable pub saved : (c s a k : ℕ) → ℕ
saved c s a zero = s
saved c s a (suc k) = saved c s a k + min a (c - saved c s a k)

pub room_under-exact :
    (c s : ℕ) → c + s < limit → room_under (cents_of c) (cents_of s) ≡ ok (cents_of (c - s))
unfolding room_under
room_under-exact c s h =
    let z : ℤ = pos c -ℤ pos s in
    let exact : IsCents (max_decimal (cents z) nought) (pos (c - s)) =
      subst (λ n. IsCents (max_decimal (cents z) nought) (pos n)) (pos_part-diff c s)
        (max-IsCents z) in
    rw (sub-cents (pos c) (pos s) (omega abs_laws))
      (quantize-IsCents (max_decimal (cents z) nought) (pos (c - s)) exact (omega arith))

pub min-cents : (a r : ℕ) → min_decimal (cents_of a) (cents_of r) ≡ cents_of (min a r)
unfolding min_decimal
min-cents a r = rw (cents-lt (pos r) (pos a)) (ground arith)

pub sub-cents_of : (a b : ℕ) → b ≤ a → a < limit → sub (cents_of a) (cents_of b) ≡ cents_of (a - b)
sub-cents_of a b h k =
    let e : pos a -ℤ pos b ≡ pos (a - b) = omega int_laws in
    sub-cents (pos a) (pos b) (omega abs_laws) ∙ ap cents e

pub add-cents_of : (a b : ℕ) → a + b < limit → add (cents_of a) (cents_of b) ≡ cents_of (a + b)
add-cents_of a b h =
    let e : pos a +ℤ pos b ≡ pos (a + b) = omega int_laws in
    add-cents (pos a) (pos b) (omega abs_laws) ∙ ap cents e

-- One period, from deposits of b.
abbrev pub exact_period : (c a b : ℕ) → Period
exact_period c a b = record {
  ask = cents_of (min a (c - b));
  frie = cents_of (a - min a (c - b));
  cumulative = cents_of (b + min a (c - b));
  remaining = cents_of (c - (b + min a (c - b)));
}

period-exact :
    (c a b : ℕ)
    → b ≤ c
    → c + c + a < limit
    → period (cents_of c) (cents_of a) (cents_of b) ≡ ok (exact_period c a b)
unfolding period
period-exact c a b h small =
    let ask : ℕ = min a (c - b) in
    rw
      (
        room_under-exact c b (omega arith),
        min-cents a (c - b),
        quantize-cents (pos ask) (omega arith),
        sub-cents_of a ask (omega arith) (omega arith),
        quantize-cents (pos (a - ask)) (omega arith),
        add-cents_of b ask (omega arith),
        quantize-cents (pos (b + ask)) (omega arith),
        room_under-exact c (b + ask) (omega arith),
      )
      refl

-- The reports of n periods from number k on, the first of which has deposits of b before it.
abbrev pub reports : {A : Type 0} → (ℕ → Period → A) → (c a k n b : ℕ) → List A
reports report c a k zero b = []
reports report c a k (suc n) b =
    report k (exact_period c a b) ∷ reports report c a (suc k) n (b + min a (c - b))

pub periods-exact :
    {A : Type 0} (report : ℕ → Period → A) (c a k n b : ℕ)
    → b ≤ c
    → c + c + a < limit
    → periods report (cents_of c) (cents_of a) k n (cents_of b) ≡ ok (reports report c a k n b)
unfolding periods
periods-exact report c a k zero b h small = refl
periods-exact report c a k (suc n) b h small =
    rw
      (
        period-exact c a b h small,
        periods-exact report c a (suc k) n (b + min a (c - b)) (omega arith) small,
      )
      refl

pub saved-closed : (c s a k : ℕ) → s ≤ c → saved c s a k ≡ min c (s + k * a)
unfolding saved
saved-closed c s a zero h = omega arith
saved-closed c s a (suc k) h = omega (arith, saved-closed c s a k h)
