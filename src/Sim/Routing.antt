-- ===== src/Sim/Routing.antt =====
-- src/penge/sim/routing.py: contributions go to the aktiesparekonto up to its deposit cap, and
-- what is over goes to free funds.
pub mod Exact
pub mod Agreement
use penge.Prelude.{
  ℕ, zero, suc, ◌-◌, Bool, ◌||◌, ltb, ◌==◌, List, [], ◌∷◌, Result, ok, err, ◌>>=◌, ◌>>◌, raise_if,
  if◌then◌else◌,
}
use penge.Prelude.Int.{abs}
use penge.Errors.{Exn, validation_error, routing_error}
use penge.Decimal.{
  Decimal, add, sub, mul, lt, le, quantize, nought, whole, max_decimal, min_decimal,
}

pub record ContributionRouter : Type 0 where
  pub ask_cap : Decimal
  pub ask_cumulative_deposits : Decimal
  pub monthly_contribution : Decimal

-- `_validate`, on values that are Decimals already.
unfoldable pub make_router : Decimal → Decimal → Decimal → Result Exn ContributionRouter
make_router cap cumulative monthly =
    if le cap nought || lt cumulative nought || lt cap cumulative || lt monthly nought
    then err validation_error
    else ok (record {
      ask_cap = cap;
      ask_cumulative_deposits = cumulative;
      monthly_contribution = monthly;
    })

unfoldable pub ask_cap_remaining : ContributionRouter → Result Exn Decimal
ask_cap_remaining r = quantize 2 (sub r.ask_cap r.ask_cumulative_deposits)

unfoldable pub annual_contribution : ContributionRouter → Result Exn Decimal
annual_contribution r = quantize 2 (mul r.monthly_contribution (whole 12))

pub record YearlyContributionSplit : Type 0 where
  pub year_number : ℕ
  pub ask_contribution : Decimal
  pub frie_midler_contribution : Decimal
  pub ask_cap_remaining : Decimal
  pub ask_cap_exhausted : Bool

pub record MonthlyContributionSplit : Type 0 where
  pub month_number : ℕ
  pub ask_contribution : Decimal
  pub frie_midler_contribution : Decimal
  pub cumulative_ask_deposits : Decimal
  pub ask_cap_remaining : Decimal
  pub ask_cap_exhausted : Bool

-- The room under the cap.
unfoldable pub room_under : Decimal → Decimal → Result Exn Decimal
room_under cap cumulative = quantize 2 (max_decimal (sub cap cumulative) nought)

-- What one period of either simulation computes.
pub record Period : Type 0 where
  pub ask : Decimal
  pub frie : Decimal
  pub cumulative : Decimal
  pub remaining : Decimal

unfoldable pub period : Decimal → Decimal → Decimal → Result Exn Period
unfolding room_under
period cap contribution cumulative = do
  room ← room_under cap cumulative
  ask ← quantize 2 (min_decimal contribution room)
  frie ← quantize 2 (sub contribution ask)
  next ← quantize 2 (add cumulative ask)
  remaining ← room_under cap next
  ok (record { ask = ask; frie = frie; cumulative = next; remaining = remaining })

-- `== Decimal("0")`
abbrev pub is_nought : Decimal → Bool
is_nought d = abs d.coef == 0

abbrev pub yearly : ℕ → Period → YearlyContributionSplit
yearly k p = record {
  year_number = k;
  ask_contribution = p.ask;
  frie_midler_contribution = p.frie;
  ask_cap_remaining = p.remaining;
  ask_cap_exhausted = is_nought p.remaining;
}

abbrev pub monthly : ℕ → Period → MonthlyContributionSplit
monthly m p = record {
  month_number = m;
  ask_contribution = p.ask;
  frie_midler_contribution = p.frie;
  cumulative_ask_deposits = p.cumulative;
  ask_cap_remaining = p.remaining;
  ask_cap_exhausted = is_nought p.remaining;
}

-- The loop of both simulations, from period number k on.
unfoldable pub periods :
    {A : Type 0} → (ℕ → Period → A) → Decimal → Decimal → (k n : ℕ) → Decimal → Result Exn (List A)
unfolding period
periods report cap contribution k zero cumulative = ok []
periods report cap contribution k (suc n) cumulative = do
  p ← period cap contribution cumulative
  rest ← periods report cap contribution (suc k) n p.cumulative
  ok (report k p ∷ rest)

unfoldable pub simulate_routing : ContributionRouter → ℕ → Result Exn (List YearlyContributionSplit)
unfolding annual_contribution periods
simulate_routing r n_years = do
  raise_if (ltb n_years 1) routing_error
  annual ← annual_contribution r
  periods yearly r.ask_cap annual 1 n_years r.ask_cumulative_deposits

unfoldable pub simulate_routing_monthly :
    ContributionRouter → ℕ → Result Exn (List MonthlyContributionSplit)
unfolding periods
simulate_routing_monthly r n_months = do
  raise_if (ltb n_months 1) routing_error
  periods monthly r.ask_cap r.monthly_contribution 1 n_months r.ask_cumulative_deposits

-- The replay of the earlier years in `route_contributions`.
unfoldable pub replay : Decimal → Decimal → ℕ → Decimal → Result Exn Decimal
unfolding room_under
replay cap annual zero cumulative = ok cumulative
replay cap annual (suc n) cumulative = do
  room ← room_under cap cumulative
  next ← quantize 2 (add cumulative (min_decimal annual room))
  replay cap annual n next

unfoldable pub route_contributions : ContributionRouter → ℕ → Result Exn (Decimal × Decimal)
unfolding annual_contribution replay room_under
route_contributions r year = do
  raise_if (ltb year 1) routing_error
  annual ← annual_contribution r
  cumulative ← replay r.ask_cap annual (year - 1) r.ask_cumulative_deposits
  room ← room_under r.ask_cap cumulative
  ask ← quantize 2 (min_decimal annual room)
  frie ← quantize 2 (sub annual ask)
  ok (ask, frie)
