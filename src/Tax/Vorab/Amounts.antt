-- ===== src/Tax/Vorab/Amounts.antt =====
-- The signs of the amounts that compute_vorabpauschale of src/penge/tax/de_vorab.py reports, and
-- the years with a negative Basiszins.
use penge.Prelude.{
  ℕ, ◌<◌, ◌+◌, ◌≡◌, ◌⊎◌, inl, inr, refl, ok, Option-cases, >>=-ok, ok-injective, String, subst,
}
use penge.Prelude.Int.{ℤ, pos, abs, ◌+ℤ◌, ◌-ℤ◌, abs_laws}
use penge.Decimal.{
  Decimal, limit, add, sub, mul, div, quantize, nought, whole, max_decimal, fix, lt,
}
use penge.Decimal.Laws.{cents, add-cents, sub-cents, quantize-cents}
use penge.Decimal.Cents.{cents_of}
use penge.Decimal.Signs.{IsNonNegative, mul-IsNonNegative, quantize-IsNonNegative}
use penge.Decimal.Zeros.{
  IsZero, max-IsNonNegative, max-IsZero, min-IsNonNegative, min-IsZero, mul-IsZero,
  mul-IsZero_right, sub-IsNonPositive, quantize-IsZero,
}
use penge.Tax.Money.{Money, eur}
use penge.Tax.Vorab.{
  VorabInput, VorabResult, FundClassification, equity, mixed, real_estate, other,
  teilfreistellung_quote, abgelt_rate, basiszins_de, basisertrag_raw, wertzuwachs_raw, vorab_raw,
  taxable_raw, in_eur, assemble, compute_vorabpauschale,
}

-- Four amounts of a result.
abbrev pub AmountsNonNegative : VorabResult → Type 0
AmountsNonNegative r =
    IsNonNegative r.basiszins
    × IsNonNegative r.vorabpauschale.amount
    × IsNonNegative r.taxable.amount
    × IsNonNegative r.tax_due.amount

taxed_share : (c : FundClassification) → IsNonNegative (sub (whole 1) (teilfreistellung_quote c))
unfolding sub fix ◌-ℤ◌
taxed_share equity = refl
taxed_share mixed = refl
taxed_share real_estate = refl
taxed_share other = refl

in_eur-IsNonNegative :
    (d : Decimal) {m : Money} → IsNonNegative d → in_eur d ≡ ok m → IsNonNegative m.amount
unfolding in_eur
in_eur-IsNonNegative d {m} h e =
    let (q, run, last) = >>=-ok (quantize 2 d) _ e in
    let p : record { amount = q; currency = eur } ≡ m = cc last in
    subst (λ x. IsNonNegative x.amount) p (quantize-IsNonNegative 2 d h run)

-- The Vorabpauschale before rounding lies between zero and both of its bounds.
vorab_raw-IsNonNegative : (inp : VorabInput) (base : Decimal) → IsNonNegative (vorab_raw inp base)
unfolding vorab_raw
vorab_raw-IsNonNegative inp base = min-IsNonNegative _ _ (max-IsNonNegative _) (max-IsNonNegative _)

assemble-IsNonNegative :
    (inp : VorabInput) (basiszins factor : Decimal) {r : VorabResult}
    → IsNonNegative basiszins
    → assemble inp basiszins factor ≡ ok r
    → AmountsNonNegative r
unfolding assemble
assemble-IsNonNegative inp basiszins factor {r} h e =
    let vorab : Decimal = vorab_raw inp (basisertrag_raw inp basiszins factor) in
    let v = vorab_raw-IsNonNegative inp (basisertrag_raw inp basiszins factor) in
    let t = mul-IsNonNegative vorab _ v (taxed_share inp.classification) in
    let d = mul-IsNonNegative (taxable_raw inp vorab) abgelt_rate t refl in
    let (base, run0, e1) = >>=-ok (in_eur (basisertrag_raw inp basiszins factor)) _ e in
    let (growth, run1, e2) = >>=-ok (in_eur (wertzuwachs_raw inp)) _ e1 in
    let (pauschale, run2, e3) = >>=-ok (in_eur vorab) _ e2 in
    let (taxable, run3, e4) = >>=-ok (in_eur (taxable_raw inp vorab)) _ e3 in
    let (due, run4, last) = >>=-ok (in_eur (mul (taxable_raw inp vorab) abgelt_rate)) _ e4 in
    subst AmountsNonNegative (ok-injective last) (
      h,
      in_eur-IsNonNegative vorab v run2,
      in_eur-IsNonNegative (taxable_raw inp vorab) t run3,
      in_eur-IsNonNegative _ d run4,
    )

-- Whatever the figures are, also those of a fund that lost value: if the calculator returns, the
-- Basiszins that it applied, the Vorabpauschale, the taxable amount and the tax are not negative.
pub amounts-IsNonNegative :
    (inp : VorabInput) {r : VorabResult} → compute_vorabpauschale inp ≡ ok r → AmountsNonNegative r
unfolding compute_vorabpauschale
amounts-IsNonNegative inp {r} e = elim (Option-cases (basiszins_de inp.tax_year)) [
  | inl none_on_file ↦ absurd (cc (rw (none_on_file, compute_vorabpauschale) at e))
  | inr (raw, on_file) ↦
      let (factor, run, last) =
        >>=-ok (div (whole inp.holding_months) (whole 12)) (assemble inp (max_decimal raw nought))
          (rw (on_file, compute_vorabpauschale) at e) in
      assemble-IsNonNegative inp (max_decimal raw nought) factor (max-IsNonNegative raw) last
]

-- A fund's year in cents.
pub record Figures : Type 0 where
  pub start : ℕ
  pub end_value : ℕ
  pub distributions : ℕ

abbrev pub in_cents : ℕ → Money
in_cents n = record { amount = cents_of n; currency = eur }

abbrev pub input_of : String → ℕ → FundClassification → Figures → ℕ → VorabInput
input_of isin tax_year classification f months = record {
  isin = isin;
  tax_year = tax_year;
  classification = classification;
  start_value = in_cents f.start;
  end_value = in_cents f.end_value;
  distributions = in_cents f.distributions;
  holding_months = months;
}

abbrev pub growth : Figures → ℤ
growth f = pos f.end_value -ℤ pos f.start +ℤ pos f.distributions

-- The result of a year without a Vorabpauschale.
abbrev pub nothing_due : String → ℕ → FundClassification → Figures → VorabResult
nothing_due isin tax_year classification f = record {
  isin = isin;
  tax_year = tax_year;
  classification = classification;
  basiszins = nought;
  basisertrag = in_cents 0;
  wertzuwachs = record { amount = cents (growth f); currency = eur };
  vorabpauschale = in_cents 0;
  teilfreistellung = teilfreistellung_quote classification;
  taxable = in_cents 0;
  tax_due = in_cents 0;
}

in_eur-zero : (d : Decimal) → IsZero d → in_eur d ≡ ok (in_cents 0)
unfolding in_eur
in_eur-zero d h = rw (quantize-IsZero d h)

in_eur-cents :
    (z : ℤ) → abs z < limit → in_eur (cents z) ≡ ok (record { amount = cents z; currency = eur })
unfolding in_eur
in_eur-cents z h = rw (quantize-cents z h)

vorab_raw-IsZero :
    (inp : VorabInput) (base : Decimal)
    → IsZero base
    → IsNonNegative inp.distributions.amount
    → IsZero (vorab_raw inp base)
unfolding vorab_raw
vorab_raw-IsZero inp base h k =
    min-IsZero _ _ (max-IsZero _ (sub-IsNonPositive base inp.distributions.amount h k))
      (max-IsNonNegative _)

growth-exact :
    (f : Figures)
    → f.start + f.end_value + f.distributions < limit
    → in_eur (add (sub (cents_of f.end_value) (cents_of f.start)) (cents_of f.distributions))
      ≡ ok (record { amount = cents (growth f); currency = eur })
growth-exact f h =
    rw
      (
        sub-cents (pos f.end_value) (pos f.start) (omega abs_laws),
        add-cents (pos f.end_value -ℤ pos f.start) (pos f.distributions) (omega abs_laws),
      )
      (in_eur-cents (growth f) (omega abs_laws))

assemble-amounts :
    (inp : VorabInput) (basiszins factor : Decimal) (a b c d e : Money)
    → in_eur (basisertrag_raw inp basiszins factor) ≡ ok a
    → in_eur (wertzuwachs_raw inp) ≡ ok b
    → in_eur (vorab_raw inp (basisertrag_raw inp basiszins factor)) ≡ ok c
    → in_eur (taxable_raw inp (vorab_raw inp (basisertrag_raw inp basiszins factor))) ≡ ok d
    → in_eur
        (mul (taxable_raw inp (vorab_raw inp (basisertrag_raw inp basiszins factor))) abgelt_rate)
      ≡ ok e
    → assemble inp basiszins factor
      ≡ ok (record {
        isin = inp.isin;
        tax_year = inp.tax_year;
        classification = inp.classification;
        basiszins = basiszins;
        basisertrag = a;
        wertzuwachs = b;
        vorabpauschale = c;
        teilfreistellung = teilfreistellung_quote inp.classification;
        taxable = d;
        tax_due = e;
      })
unfolding assemble
assemble-amounts inp basiszins factor a b c d e p q r s t = rw (p, q, r, s, t)

assemble-zero :
    (isin : String) (tax_year : ℕ) (c : FundClassification) (f : Figures) (months : ℕ)
    (factor : Decimal)
    → f.start + f.end_value + f.distributions < limit
    → assemble (input_of isin tax_year c f months) nought factor
      ≡ ok (nothing_due isin tax_year c f)
unfolding assemble
assemble-zero isin tax_year c f months factor h =
    let inp : VorabInput = input_of isin tax_year c f months in
    let base =
      mul-IsZero (mul (mul (cents_of f.start) nought) (record { coef = pos 7; places = 1 })) factor
        (mul-IsZero (mul (cents_of f.start) nought) (record { coef = pos 7; places = 1 })
          (mul-IsZero_right (cents_of f.start) nought refl)) in
    let vorab = vorab_raw-IsZero inp (basisertrag_raw inp nought factor) base refl in
    let taxable =
      mul-IsZero (vorab_raw inp (basisertrag_raw inp nought factor))
        (sub (whole 1) (teilfreistellung_quote c)) vorab in
    let due =
      mul-IsZero (taxable_raw inp (vorab_raw inp (basisertrag_raw inp nought factor))) abgelt_rate
        taxable in
    assemble-amounts inp nought factor _ _ _ _ _ (in_eur-zero _ base) (growth-exact f h)
      (in_eur-zero _ vorab) (in_eur-zero _ taxable) (in_eur-zero _ due)

months_factor : (months : ℕ) → (factor : Decimal) × (div (whole months) (whole 12) ≡ ok factor)
unfolding div
months_factor months = (_, refl)

-- In 2021 and 2022, the years of a negative Basiszins, the calculator returns for every fund
-- with figures in whole cents whose sum is below 10 ^ 28: nothing is due, and the growth is still
-- the exact balance.
pub negative_basiszins_lem :
    (isin : String) (tax_year : ℕ) (classification : FundClassification) (f : Figures) (months : ℕ)
    → (tax_year ≡ 2021) ⊎ (tax_year ≡ 2022)
    → f.start + f.end_value + f.distributions < limit
    → compute_vorabpauschale (input_of isin tax_year classification f months)
      ≡ ok (nothing_due isin tax_year classification f)
unfolding compute_vorabpauschale basiszins_de max_decimal lt
negative_basiszins_lem isin tax_year c f months year h =
    let (factor, run) = months_factor months in
    elim year [
      | inl e ↦ rw (e, run) (assemble-zero isin 2021 c f months factor h)
      | inr e ↦ rw (e, run) (assemble-zero isin 2022 c f months factor h)
    ]
