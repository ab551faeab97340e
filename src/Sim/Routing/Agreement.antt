-- ===== src/Sim/Routing/Agreement.antt =====
-- The simulations in closed form, and their agreement with the replay of `route_contributions`
-- (src/penge/sim/routing.py).
use penge.Prelude.{
  ℕ, zero, suc, ◌+◌, ◌-◌, ◌*◌, ◌<◌, ◌≤◌, ◌≡◌, ◌∙◌, ap, refl, arith, false, ltb, ◌==◌, min, List, [],
  ◌∷◌, Option, none, some, ok,
}
use penge.Prelude.Int.{pos}
use penge.Decimal.{limit, mul}
use penge.Decimal.Laws.{fix_small, quantize-cents}
use penge.Decimal.Cents.{cents_of}
use penge.Decimal.Rates.{pos-*-pos}
use penge.Sim.Routing.{
  ContributionRouter, Period, YearlyContributionSplit, MonthlyContributionSplit,
  annual_contribution, yearly, monthly, simulate_routing, simulate_routing_monthly, replay,
  route_contributions,
}
use penge.Sim.Routing.Exact.{
  saved, saved-closed, exact_period, reports, periods-exact, room_under-exact, min-cents,
  sub-cents_of, add-cents_of,
}

-- A router in øre: the cap, the deposits so far, and the monthly contribution.
abbrev pub router : (c s m : ℕ) → ContributionRouter
router c s m = record {
  ask_cap = cents_of c;
  ask_cumulative_deposits = cents_of s;
  monthly_contribution = cents_of m;
}

abbrev pub nth {ℓ} : {A : Type ℓ} → List A → ℕ → Option A
nth [] k = none
nth (x ∷ xs) zero = some x
nth (x ∷ xs) (suc k) = nth xs k

annual-exact :
    (c s m : ℕ) → m * 12 < limit → annual_contribution (router c s m) ≡ ok (cents_of (m * 12))
unfolding annual_contribution mul
annual-exact c s m h =
    rw (pos-*-pos, fix_small (cents_of (m * 12)) h) (quantize-cents (pos (m * 12)) h)

saved-suc : (c b a k : ℕ) → saved c (b + min a (c - b)) a k ≡ saved c b a (suc k)
unfolding saved
saved-suc c b a zero = refl
saved-suc c b a (suc k) = rw (saved-suc c b a k) refl

nth-reports :
    {A : Type 0} (report : ℕ → Period → A) (c a j n b k : ℕ)
    → k < n
    → nth (reports report c a j n b) k ≡ some (report (j + k) (exact_period c a (saved c b a k)))
unfolding saved
nth-reports report c a j zero b k h = absurd (omega arith)
nth-reports report c a j (suc n) b zero h =
    ap (λ i. some (report i (exact_period c a b))) (omega arith)
nth-reports report c a j (suc n) b (suc k) h =
    nth-reports report c a (suc j) n (b + min a (c - b)) k (omega arith)
    ∙ (let e : suc j + k ≡ j + suc k = omega arith in rw (saved-suc c b a k, e) refl)

deposits : (c s m j : ℕ) → s ≤ c → saved c s m j + min m (c - saved c s m j) ≡ min c (s + suc j * m)
unfolding saved
deposits c s m j h = saved-closed c s m (suc j) h

saved-le : (c s a k : ℕ) → s ≤ c → saved c s a k ≤ c
saved-le c s a k h = omega (arith, saved-closed c s a k h)

replay-exact :
    (c a n b : ℕ)
    → b ≤ c
    → c + c + a < limit
    → replay (cents_of c) (cents_of a) n (cents_of b) ≡ ok (cents_of (saved c b a n))
unfolding replay saved
replay-exact c a zero b h small = refl
replay-exact c a (suc n) b h small =
    let ask : ℕ = min a (c - b) in
    rw
      (
        room_under-exact c b (omega arith),
        min-cents a (c - b),
        add-cents_of b ask (omega arith),
        quantize-cents (pos (b + ask)) (omega arith),
      )
      (replay-exact c a n (b + ask) (omega arith) small
        ∙ ap (λ k. ok (cents_of k)) (saved-suc c b a n))

route-exact :
    (c s m year : ℕ)
    → 1 ≤ year
    → s ≤ c
    → c + c + m * 12 < limit
    → let left : ℕ = c - saved c s (m * 12) (year - 1) in
      route_contributions (router c s m) year
      ≡ ok (cents_of (min (m * 12) left), cents_of (m * 12 - min (m * 12) left))
unfolding route_contributions
route-exact c s m year h within small =
    let a : ℕ = m * 12 in
    let b : ℕ = saved c s a (year - 1) in
    let low : ltb year 1 ≡ false = ground arith in
    let ask : ℕ = min a (c - b) in
    let bounded = saved-le c s a (year - 1) within in
    rw
      (
        low,
        annual-exact c s m (omega arith),
        replay-exact c a (year - 1) s within small,
        room_under-exact c b (omega arith),
        min-cents a (c - b),
        quantize-cents (pos ask) (omega arith),
        sub-cents_of a ask (omega arith) (omega arith),
        quantize-cents (pos (a - ask)) (omega arith),
      )
      refl

-- For deposits within the cap and figures in whole øre below 10 ^ 28: the stateless
-- route_contributions, which replays the earlier years, gives for every year of the single-pass
-- simulate_routing the two amounts that it has for that year.
pub route_contributions_agrees :
    (c s m year n : ℕ)
    → s ≤ c
    → c + c + m * 12 < limit
    → 1 ≤ year
    → year ≤ n
    → (splits : List YearlyContributionSplit) × (split : YearlyContributionSplit)
      × (simulate_routing (router c s m) n ≡ ok splits)
      × (nth splits (year - 1) ≡ some split)
      × (split.year_number ≡ year)
      × (route_contributions (router c s m) year
          ≡ ok (split.ask_contribution, split.frie_midler_contribution))
unfolding simulate_routing
route_contributions_agrees c s m year n within small first last =
    let a : ℕ = m * 12 in
    let some_years : ltb n 1 ≡ false = ground arith in
    (
      reports yearly c a 1 n s,
      yearly (1 + (year - 1)) (exact_period c a (saved c s a (year - 1))),
      rw (some_years, annual-exact c s m (omega arith))
          (periods-exact yearly c a 1 n s within small),
      nth-reports yearly c a 1 n s (year - 1) (omega arith),
      omega arith,
      route-exact c s m year first within small,
    )

-- For deposits within the cap and figures in whole øre below 10 ^ 28, month k of the monthly
-- simulation has in the account what fits of the contribution under the cap after the k - 1
-- contributions before, and the rest is free; its deposits are the smaller of the cap and the start
-- plus k contributions; and the cap is reported as exhausted exactly when they have reached it.
pub simulate_routing_monthly-closed :
    (c s m k n : ℕ)
    → s ≤ c
    → c + c + m < limit
    → 1 ≤ k
    → k ≤ n
    → let ask : ℕ = min m (c - min c (s + (k - 1) * m)) in
      (splits : List MonthlyContributionSplit) × (split : MonthlyContributionSplit)
      × (simulate_routing_monthly (router c s m) n ≡ ok splits)
      × (nth splits (k - 1) ≡ some split)
      × (split.month_number ≡ k)
      × (split.ask_contribution ≡ cents_of ask)
      × (split.frie_midler_contribution ≡ cents_of (m - ask))
      × (split.cumulative_ask_deposits ≡ cents_of (min c (s + k * m)))
      × (split.ask_cap_exhausted ≡ (min c (s + k * m) == c))
unfolding simulate_routing_monthly
simulate_routing_monthly-closed c s m k n within small first last =
    let some_months : ltb n 1 ≡ false = ground arith in
    let b : ℕ = saved c s m (k - 1) in
    let before : b ≡ min c (s + (k - 1) * m) = saved-closed c s m (k - 1) within in
    let total : b + min m (c - b) ≡ min c (s + k * m) =
      deposits c s m (k - 1) within
      ∙ (let e : suc (k - 1) ≡ k = omega arith in ap (λ j. min c (s + j * m)) e) in
    (
      reports monthly c m 1 n s,
      monthly (1 + (k - 1)) (exact_period c m b),
      rw some_months (periods-exact monthly c m 1 n s within small),
      nth-reports monthly c m 1 n s (k - 1) (omega arith),
      omega arith,
      ap (λ x. cents_of (min m (c - x))) before,
      ap (λ x. cents_of (m - min m (c - x))) before,
      ap cents_of total,
      rw total (ground arith),
    )
