-- ===== src/Tests/Routing.antt =====
-- The example of the source's comments: a cap of 140,800, deposits of 62,000, and 15,000 a month
-- (src/penge/sim/routing.py).
use penge.Prelude.{◌+◌, ◌*◌, ◌≡◌, ◌==◌, arith, min, List, some, ok}
use penge.Decimal.Cents.{cents_of}
use penge.Sim.Routing.{
  YearlyContributionSplit, MonthlyContributionSplit, simulate_routing, simulate_routing_monthly,
  route_contributions,
}
use penge.Sim.Routing.Agreement.{
  router, nth, route_contributions_agrees, simulate_routing_monthly-closed,
}

route_contributions_agrees_example :
    (splits : List YearlyContributionSplit) × (split : YearlyContributionSplit) × (simulate_routing
        (router 14080000 6200000 1500000)
        3
      ≡ ok splits)
    × (nth splits 1 ≡ some split)
    × (split.year_number ≡ 2)
    × (route_contributions (router 14080000 6200000 1500000) 2
        ≡ ok (split.ask_contribution, split.frie_midler_contribution))
route_contributions_agrees_example =
    route_contributions_agrees 14080000 6200000 1500000 2 3 (omega arith) (omega arith)
      (omega arith) (omega arith)

simulate_routing_monthly-closed_example :
    (splits : List MonthlyContributionSplit) × (split : MonthlyContributionSplit)
    × (simulate_routing_monthly (router 14080000 6200000 1500000) 12 ≡ ok splits)
    × (nth splits 5 ≡ some split)
    × (split.month_number ≡ 6)
    × (split.ask_contribution ≡ cents_of 380000)
    × (split.frie_midler_contribution ≡ cents_of 1120000)
    × (split.cumulative_ask_deposits ≡ cents_of (min 14080000 (6200000 + 6 * 1500000)))
    × (split.ask_cap_exhausted ≡ (min 14080000 (6200000 + 6 * 1500000) == 14080000))
simulate_routing_monthly-closed_example =
    simulate_routing_monthly-closed 14080000 6200000 1500000 6 12 (omega arith) (omega arith)
      (omega arith) (omega arith)
