-- ===== src/Tax/Aktiesparekonto/Exact.antt =====
-- compute_ask_taxes of src/penge/tax/aktiesparekonto.py on gains in whole øre.
use penge.Prelude.{
  ℕ, String, ◌+◌, ◌*◌, ◌<◌, ◌≤◌, ◌≡◌, ◌∙◌, refl, ap, inl, inr, arith, true, false, List, [], ◌∷◌,
  ok, Bool-cases,
}
use penge.Prelude.Int.{
  ℤ, pos, negsuc, abs, pos_part, neg_part, leb_ℤ, ◌*ℤ◌, ◌+ℤ◌, ◌-ℤ◌, int_laws, abs_laws, -ℤ_parts,
  eq_of_parts, sum_ℤ,
}
use penge.Prelude.Eq.{string_eq}
use penge.Decimal.{Decimal, limit, add, neg, mul, quantize, nought, round_half_even, le, fix}
use penge.Decimal.Laws.{cents}
use penge.Decimal.Rates.{mul-hundredths}
use penge.Decimal.Cents.{
  IsCents, cents_of, add-IsCents, neg-IsCents, quantize-IsCents, quantize-nought, nought-le-IsCents,
}
use penge.Tax.Lager.{LagerResult, in_dkk}
use penge.Tax.Money.{Money}
use penge.Tax.Aktiesparekonto.{
  AskTaxResult, is_refused, net_gain, tax_of, loss_of, compute_ask_taxes,
}

-- The result is the account's, for the year, in DKK, with a gain of z øre.
pub record IsGain (account_id : String) (tax_year : ℕ) (r : LagerResult) (z : ℤ) : Type 0 where
  pub account : r.account_id ≡ account_id
  pub year : r.tax_year ≡ tax_year
  pub gain : r.gain ≡ in_dkk (cents z)

abbrev pub Gains : String → ℕ → List LagerResult → List ℤ → Type 0
Gains a y [] [] = Unit
Gains a y (r ∷ rs) (z ∷ zs) = IsGain a y r z × Gains a y rs zs
Gains a y _ _ = ⊥

unfoldable pub size : List ℤ → ℕ
size [] = 0
size (z ∷ zs) = abs z + size zs

accepted :
    (a : String) (y : ℕ) (r : LagerResult) (z : ℤ) → IsGain a y r z → is_refused a y r ≡ false
accepted a y r z g = rw (g.account, g.year, g.gain) (ground (arith, string_eq.beq_iff a a))

net_gain-IsCents :
    (a : String) (y : ℕ) (acc : Decimal) (x : ℤ) (rs : List LagerResult) (zs : List ℤ)
    → Gains a y rs zs
    → IsCents acc x
    → abs x + size zs < limit
    → (g : Decimal) × (net_gain a y acc rs ≡ ok g) × IsCents g (x +ℤ sum_ℤ zs)
unfolding net_gain size sum_ℤ
net_gain-IsCents a y acc x [] [] m c h =
    let e : x +ℤ pos 0 ≡ x = omega int_laws in (acc, refl, rw e c)
net_gain-IsCents a y acc x [] (z ∷ zs) m c h = elim m [ ]
net_gain-IsCents a y acc x (r ∷ rs) [] m c h = elim m [ ]
net_gain-IsCents a y acc x (r ∷ rs) (z ∷ zs) (g, m) c h =
    let small : abs (x +ℤ z) + size zs < limit = omega abs_laws in
    let amount : r.gain.amount ≡ cents z = ap (λ (m : Money). m.amount) g.gain in
    let next : IsCents (add acc r.gain.amount) (x +ℤ z) =
      rw amount (add-IsCents acc (cents z) x z c (inl refl) (omega arith)) in
    let (total, run, exact) =
      net_gain-IsCents a y (add acc r.gain.amount) (x +ℤ z) rs zs m next small in
    let e : x +ℤ z +ℤ sum_ℤ zs ≡ x +ℤ (z +ℤ sum_ℤ zs) = omega int_laws in
    (total, rw (accepted a y r z g, run), rw e at exact)

-- 17 % of a positive gain in øre, to the nearest øre with ties to even.
abbrev pub exact_tax : ℤ → ℕ
exact_tax z = round_half_even (pos_part z * 17) 100

tax-cents :
    (d : Decimal) (z : ℤ)
    → IsCents d z
    → pos_part z * 17 < limit
    → quantize 2 (tax_of d) ≡ ok (cents_of (exact_tax z))
unfolding tax_of round_half_even mul fix quantize ◌*ℤ◌
tax-cents d (negsuc n) c h =
    let below : le nought d ≡ false = nought-le-IsCents d (negsuc n) c ∙ ground arith in
    rw below quantize-nought
tax-cents d (pos n) (inl p) h =
    let above : le nought d ≡ true = nought-le-IsCents d (pos n) (inl p) ∙ ground arith in
    rw above (rw p (mul-hundredths n 17 h))
tax-cents d (pos n) (inr (p, q)) h =
    let above : le nought d ≡ true = nought-le-IsCents d (pos n) (inr (p, q)) ∙ ground arith in
    let z : n ≡ 0 = ground arith in rw above (rw (p, z) refl)

loss-cents :
    (d : Decimal) (z : ℤ)
    → IsCents d z
    → abs z < limit
    → quantize 2 (loss_of d) ≡ ok (cents_of (neg_part z))
unfolding loss_of
loss-cents d z c h = elim (Bool-cases (leb_ℤ (pos 0) z)) [
  | inl above ↦
      rw (nought-le-IsCents d z c)
        (rw above (let e : neg_part z ≡ 0 = ground arith in rw e quantize-nought))
  | inr below ↦
      let e : pos 0 -ℤ z ≡ pos (neg_part z) =
        ground (arith, -ℤ_parts (pos 0) z, eq_of_parts (pos 0 -ℤ z) (pos (neg_part z))) in
      let small : abs (pos 0 -ℤ z) < limit = omega abs_laws in
      rw (nought-le-IsCents d z c)
        (rw (below, ← e) (quantize-IsCents (neg d) (pos 0 -ℤ z) (neg-IsCents d z c small) small))
]

abbrev pub exact_result : String → ℕ → ℤ → AskTaxResult
exact_result account_id tax_year z = record {
  account_id = account_id;
  tax_year = tax_year;
  gain = in_dkk (cents z);
  tax_due = in_dkk (cents_of (exact_tax z));
  loss_carry_forward = in_dkk (cents_of (neg_part z));
}

abs-sum_ℤ : (zs : List ℤ) → abs (sum_ℤ zs) ≤ size zs
unfolding sum_ℤ size
abs-sum_ℤ [] = omega arith
abs-sum_ℤ (z ∷ zs) = omega (abs_laws, abs-sum_ℤ zs)

-- For results of one account and year with gains in whole øre, whose sizes times 17 stay below
-- 10 ^ 28 together: losses are netted against gains, 17 % of what is left is due, rounded half to
-- even, and a negative rest is carried forward untaxed.
pub compute_ask_taxes-exact :
    (account_id : String) (tax_year : ℕ) (rs : List LagerResult) (zs : List ℤ)
    → Gains account_id tax_year rs zs
    → size zs * 17 < limit
    → compute_ask_taxes account_id tax_year rs ≡ ok (exact_result account_id tax_year (sum_ℤ zs))
unfolding compute_ask_taxes
compute_ask_taxes-exact account_id tax_year rs zs m h =
    let bound = abs-sum_ℤ zs in
    let (g, run, c) =
      net_gain-IsCents account_id tax_year nought (pos 0) rs zs m (inr (refl, refl))
        (omega arith) in
    let e : pos 0 +ℤ sum_ℤ zs ≡ sum_ℤ zs = omega int_laws in
    let exact : IsCents g (sum_ℤ zs) = rw e at c in
    rw (
      run,
      quantize-IsCents g (sum_ℤ zs) exact (omega arith),
      tax-cents g (sum_ℤ zs) exact (omega abs_laws),
      loss-cents g (sum_ℤ zs) exact (omega arith),
    )
