-- ===== src/Tax/Lager/Exact.antt =====
-- compute_lager on amounts in whole øre (src/penge/tax/lager.py).
use penge.Prelude.{ℕ, String, ◌+◌, ◌<◌, ◌≡◌, refl, inl, arith, List, [], ◌∷◌, map, ok}
use penge.Prelude.Int.{ℤ, pos, ◌+ℤ◌, ◌-ℤ◌, int_laws, abs_laws}
use penge.Decimal.{Decimal, limit, add, sub, quantize, nought, sum_decimal}
use penge.Decimal.Laws.{cents}
use penge.Decimal.Cents.{
  IsCents, cents_of, sum, sum-IsCents, add-IsCents, sub-IsCents, quantize-IsCents,
}
use penge.Tax.Lager.{LagerInput, LagerResult, BuyLeg, SellLeg, Distribution, in_dkk, compute_lager}

-- One year's figures of an instrument in øre.
pub record Figures : Type 0 where
  pub start : ℕ
  pub end_value : ℕ
  pub buys : List ℕ
  pub sells : List ℕ
  pub distributions : List ℕ

abbrev pub buy_leg : ℕ → BuyLeg
buy_leg n = record { cost = in_dkk (cents_of n) }

abbrev pub sell_leg : ℕ → SellLeg
sell_leg n = record { proceeds = in_dkk (cents_of n) }

abbrev pub distribution : ℕ → Distribution
distribution n = record { amount = in_dkk (cents_of n) }

abbrev pub input_of : String → String → ℕ → Figures → LagerInput
input_of account_id isin tax_year f = record {
  account_id = account_id;
  isin = isin;
  tax_year = tax_year;
  start_market_value = in_dkk (cents_of f.start);
  end_market_value = in_dkk (cents_of f.end_value);
  buys = map buy_leg f.buys;
  sells = map sell_leg f.sells;
  distributions = map distribution f.distributions;
}

abbrev pub turnover : Figures → ℕ
turnover f = f.start + f.end_value + sum f.buys + sum f.sells + sum f.distributions

-- What came in against what went out, as an integer.
abbrev pub exact_gain : Figures → ℤ
exact_gain f = pos (f.end_value + sum f.sells + sum f.distributions) -ℤ pos (f.start + sum f.buys)

legs_cost : (ns : List ℕ) → map (λ (b : BuyLeg). b.cost.amount) (map buy_leg ns) ≡ map cents_of ns
legs_cost [] = refl
legs_cost (n ∷ ns) = rw (legs_cost ns)

legs_proceeds :
    (ns : List ℕ) → map (λ (s : SellLeg). s.proceeds.amount) (map sell_leg ns) ≡ map cents_of ns
legs_proceeds [] = refl
legs_proceeds (n ∷ ns) = rw (legs_proceeds ns)

legs_paid :
    (ns : List ℕ)
    → map (λ (d : Distribution). d.amount.amount) (map distribution ns) ≡ map cents_of ns
legs_paid [] = refl
legs_paid (n ∷ ns) = rw (legs_paid ns)

-- A sum of five amounts with their signs, step by step.
balance-IsCents :
    (s e : ℕ) (b p d : Decimal) (nb np nd : ℕ)
    → IsCents b (pos nb)
    → IsCents p (pos np)
    → IsCents d (pos nd)
    → s + e + nb + np + nd < limit
    → IsCents
        (add (add (sub (sub (cents_of e) (cents_of s)) b) p) d)
        (pos (e + np + nd) -ℤ pos (s + nb))
balance-IsCents s e b p d nb np nd cb cp cd h =
    let step1 =
      sub-IsCents (cents_of e) (cents_of s) (pos e) (pos s) (inl refl) (inl refl)
        (omega abs_laws) in
    let step2 = sub-IsCents _ b _ (pos nb) step1 cb (omega abs_laws) in
    let step3 = add-IsCents _ p _ (pos np) step2 cp (omega abs_laws) in
    let step4 = add-IsCents _ d _ (pos nd) step3 cd (omega abs_laws) in
    let total : pos e -ℤ pos s -ℤ pos nb +ℤ pos np +ℤ pos nd ≡ pos (e + np + nd) -ℤ pos (s + nb) =
      omega int_laws in
    rw total at step4

-- The result for one year's figures: every amount as it came in, the totals of the legs, and the
-- gain as the integer balance.
abbrev pub exact_result : String → String → ℕ → Figures → LagerResult
exact_result account_id isin tax_year f = record {
  account_id = account_id;
  isin = isin;
  tax_year = tax_year;
  start_market_value = in_dkk (cents_of f.start);
  end_market_value = in_dkk (cents_of f.end_value);
  buys_total = in_dkk (cents_of (sum f.buys));
  sells_total = in_dkk (cents_of (sum f.sells));
  distributions_total = in_dkk (cents_of (sum f.distributions));
  gain = in_dkk (cents (exact_gain f));
}

abbrev raw_balance : Figures → Decimal
raw_balance f =
    add
      (add
        (sub (sub (cents_of f.end_value) (cents_of f.start))
          (sum_decimal nought (map cents_of f.buys)))
        (sum_decimal nought (map cents_of f.sells)))
      (sum_decimal nought (map cents_of f.distributions))

quantize-balance :
    (f : Figures) → turnover f < limit → quantize 2 (raw_balance f) ≡ ok (cents (exact_gain f))
quantize-balance f h =
    quantize-IsCents (raw_balance f) (exact_gain f)
      (balance-IsCents f.start f.end_value _ _ _ (sum f.buys) (sum f.sells) (sum f.distributions)
        (sum-IsCents f.buys (omega arith)) (sum-IsCents f.sells (omega arith))
        (sum-IsCents f.distributions (omega arith)) h)
      (omega abs_laws)

quantize-sum :
    (ns : List ℕ)
    → sum ns < limit
    → quantize 2 (sum_decimal nought (map cents_of ns)) ≡ ok (cents_of (sum ns))
quantize-sum ns h = quantize-IsCents _ _ (sum-IsCents ns h) h

quantize-cents_of : (n : ℕ) → n < limit → quantize 2 (cents_of n) ≡ ok (cents_of n)
quantize-cents_of n h = quantize-IsCents _ _ (inl refl) h

-- For figures in whole øre whose sum stays below 10 ^ 28, the calculator returns, and returns the
-- integer balance: end and income less start and purchases, with no rounding anywhere.
pub compute_lager-exact :
    (account_id isin : String) (tax_year : ℕ) (f : Figures)
    → turnover f < limit
    → compute_lager (input_of account_id isin tax_year f)
      ≡ ok (exact_result account_id isin tax_year f)
unfolding compute_lager
compute_lager-exact account_id isin tax_year f h = rw (
  legs_cost f.buys,
  legs_proceeds f.sells,
  legs_paid f.distributions,
  quantize-cents_of f.start (omega arith),
  quantize-cents_of f.end_value (omega arith),
  quantize-sum f.buys (omega arith),
  quantize-sum f.sells (omega arith),
  quantize-sum f.distributions (omega arith),
  quantize-balance f h,
)
