-- ===== src/Tax/Pal/Exact.antt =====
-- compute_pal on amounts in whole øre (src/penge/tax/pal.py).
use penge.Prelude.{
  ℕ, zero, suc, ◌∙◌, String, ◌+◌, ◌*◌, ◌<◌, ◌≤◌, ◌≡◌, refl, inl, inr, arith, true, false, List, [],
  ◌∷◌, map, ok, ◌⊎◌, Bool-cases,
}
use penge.Prelude.Int.{
  ℤ, pos, negsuc, abs, pos_part, neg_part, ltb_ℤ, ◌+ℤ◌, ◌-ℤ◌, int_laws, abs_laws, -ℤ_parts,
  eq_of_parts,
}
use penge.Decimal.{
  Decimal, limit, add, sub, neg, quantize, nought, sum_decimal, round_half_even, lt,
}
use penge.Decimal.Laws.{cents}
use penge.Decimal.Rates.{mul-thousandths}
use penge.Decimal.Cents.{
  IsCents, cents_of, sum, sum-IsCents, add-IsCents, sub-IsCents, neg-IsCents, quantize-IsCents,
  quantize-nought, nought-lt-IsCents,
}
use penge.Tax.Pal.{
  PalInput, PalResult, PalContribution, PalWithdrawal, in_dkk, compute_pal, tax_of, loss_of,
}

-- One year's figures of a pension account in øre.
pub record Figures : Type 0 where
  pub start : ℕ
  pub end_value : ℕ
  pub contributions : List ℕ
  pub withdrawals : List ℕ

abbrev pub contribution : ℕ → PalContribution
contribution n = record { amount = in_dkk (cents_of n) }

abbrev pub withdrawal : ℕ → PalWithdrawal
withdrawal n = record { amount = in_dkk (cents_of n) }

abbrev pub input_of : String → ℕ → Figures → PalInput
input_of account_id tax_year f = record {
  account_id = account_id;
  tax_year = tax_year;
  start_market_value = in_dkk (cents_of f.start);
  end_market_value = in_dkk (cents_of f.end_value);
  contributions = map contribution f.contributions;
  withdrawals = map withdrawal f.withdrawals;
}

abbrev pub turnover : Figures → ℕ
turnover f = f.start + f.end_value + sum f.contributions + sum f.withdrawals

abbrev pub exact_return : Figures → ℤ
exact_return f = pos (f.end_value + sum f.withdrawals) -ℤ pos (f.start + sum f.contributions)

-- 15.3 % of a positive return in øre, to the nearest øre with ties to even.
abbrev pub exact_tax : ℤ → ℕ
exact_tax z = round_half_even (pos_part z * 153) 1000

legs_in :
    (ns : List ℕ)
    → map (λ (c : PalContribution). c.amount.amount) (map contribution ns) ≡ map cents_of ns
legs_in [] = refl
legs_in (n ∷ ns) = rw (legs_in ns)

legs_out :
    (ns : List ℕ)
    → map (λ (w : PalWithdrawal). w.amount.amount) (map withdrawal ns) ≡ map cents_of ns
legs_out [] = refl
legs_out (n ∷ ns) = rw (legs_out ns)

abbrev raw_balance : Figures → Decimal
raw_balance f =
    add
      (sub (sub (cents_of f.end_value) (cents_of f.start))
        (sum_decimal nought (map cents_of f.contributions)))
      (sum_decimal nought (map cents_of f.withdrawals))

balance-IsCents : (f : Figures) → turnover f < limit → IsCents (raw_balance f) (exact_return f)
balance-IsCents f h =
    let paid_in = sum-IsCents f.contributions (omega arith) in
    let paid_out = sum-IsCents f.withdrawals (omega arith) in
    let step1 =
      sub-IsCents (cents_of f.end_value) (cents_of f.start) (pos f.end_value) (pos f.start)
        (inl refl) (inl refl) (omega abs_laws) in
    let step2 = sub-IsCents _ _ _ (pos (sum f.contributions)) step1 paid_in (omega abs_laws) in
    let step3 = add-IsCents _ _ _ (pos (sum f.withdrawals)) step2 paid_out (omega abs_laws) in
    let total : pos f.end_value
          -ℤ pos f.start
          -ℤ pos (sum f.contributions)
          +ℤ pos (sum f.withdrawals)
        ≡ exact_return f =
      omega int_laws in
    rw total at step3

-- A positive amount is not Decimal("0").
positive-cents : (d : Decimal) (n : ℕ) → IsCents d (pos (suc n)) → d ≡ cents_of (suc n)
positive-cents d n (inl p) = p
positive-cents d n (inr (p, q)) = cc

tax-cents :
    (d : Decimal) (z : ℤ)
    → IsCents d z
    → pos_part z * 153 < limit
    → quantize 2 (tax_of d) ≡ ok (cents_of (exact_tax z))
unfolding tax_of round_half_even
tax-cents d (pos zero) c h =
    let level : lt nought d ≡ false = nought-lt-IsCents d (pos 0) c in rw level quantize-nought
tax-cents d (pos (suc n)) c h =
    let above : lt nought d ≡ true = nought-lt-IsCents d (pos (suc n)) c ∙ ground arith in
    rw above (rw (positive-cents d n c) (mul-thousandths (suc n) 153 h))
tax-cents d (negsuc n) c h =
    let below : lt nought d ≡ false = nought-lt-IsCents d (negsuc n) c ∙ ground arith in
    rw below quantize-nought

loss-cents :
    (d : Decimal) (z : ℤ)
    → IsCents d z
    → abs z < limit
    → quantize 2 (loss_of d) ≡ ok (cents_of (neg_part z))
unfolding loss_of
loss-cents d z c h = elim (Bool-cases (ltb_ℤ (pos 0) z)) [
  | inl above ↦
      rw (nought-lt-IsCents d z c)
        (rw above (let e : neg_part z ≡ 0 = ground arith in rw e quantize-nought))
  | inr below ↦
      let e : pos 0 -ℤ z ≡ pos (neg_part z) =
        ground (arith, -ℤ_parts (pos 0) z, eq_of_parts (pos 0 -ℤ z) (pos (neg_part z))) in
      let small : abs (pos 0 -ℤ z) < limit = omega abs_laws in
      rw (nought-lt-IsCents d z c)
        (rw (below, ← e) (quantize-IsCents (neg d) (pos 0 -ℤ z) (neg-IsCents d z c small) small))
]

-- The result for one year's figures.
abbrev pub exact_result : String → ℕ → Figures → PalResult
exact_result account_id tax_year f = record {
  account_id = account_id;
  tax_year = tax_year;
  start_market_value = in_dkk (cents_of f.start);
  end_market_value = in_dkk (cents_of f.end_value);
  contributions_total = in_dkk (cents_of (sum f.contributions));
  withdrawals_total = in_dkk (cents_of (sum f.withdrawals));
  return_amount = in_dkk (cents (exact_return f));
  tax_due = in_dkk (cents_of (exact_tax (exact_return f)));
  loss_carry_forward = in_dkk (cents_of (neg_part (exact_return f)));
}

quantize-sum :
    (ns : List ℕ)
    → sum ns < limit
    → quantize 2 (sum_decimal nought (map cents_of ns)) ≡ ok (cents_of (sum ns))
quantize-sum ns h = quantize-IsCents _ _ (sum-IsCents ns h) h

quantize-cents_of : (n : ℕ) → n < limit → quantize 2 (cents_of n) ≡ ok (cents_of n)
quantize-cents_of n h = quantize-IsCents _ _ (inl refl) h

-- For figures in whole øre whose sum times 153 stays below 10 ^ 28, the calculator returns: the
-- return is the integer balance, the tax is 15.3 % of a positive return rounded half to even, and
-- the loss carried forward is the size of a negative return.
pub compute_pal-exact :
    (account_id : String) (tax_year : ℕ) (f : Figures)
    → turnover f * 153 < limit
    → compute_pal (input_of account_id tax_year f) ≡ ok (exact_result account_id tax_year f)
unfolding compute_pal
compute_pal-exact account_id tax_year f h =
    let small : turnover f < limit = omega arith in
    let b = balance-IsCents f small in
    rw (
      legs_in f.contributions,
      legs_out f.withdrawals,
      quantize-cents_of f.start (omega arith),
      quantize-cents_of f.end_value (omega arith),
      quantize-sum f.contributions (omega arith),
      quantize-sum f.withdrawals (omega arith),
      quantize-IsCents (raw_balance f) (exact_return f) b (omega abs_laws),
      tax-cents (raw_balance f) (exact_return f) b (omega abs_laws),
      loss-cents (raw_balance f) (exact_return f) b (omega abs_laws),
    )

-- The tax is within half an øre of 15.3 % of the gain, there is none on a loss, and a year has a
-- tax or a loss to carry forward, never both.
pub tax_or_loss :
    (z : ℤ)
    → (2 * (pos_part z * 153) ≤ 2 * (exact_tax z * 1000) + 1000)
      × (2 * (exact_tax z * 1000) ≤ 2 * (pos_part z * 153) + 1000)
      × ((exact_tax z ≡ 0) ⊎ (neg_part z ≡ 0))
unfolding round_half_even
tax_or_loss z = ground arith
