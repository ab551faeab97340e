-- ===== src/Tax/Dk/Topskat/Exact.antt =====
-- check_topskat_exposure on an income in whole øre and a threshold in whole kroner
-- (src/penge/tax/dk/topskat.py).
use penge.Prelude.{
  ℕ, ◌+◌, ◌-◌, ◌*◌, ◌<◌, ◌≤◌, ◌≡◌, ◌≢◌, ◌==◌, leb→le, ◌∙◌, ◌↔◌, inl, inr, refl, arith, false, ◌||◌,
  ltb, leb, Bool-cases, Result-cases, subst, ok,
}
use penge.Prelude.Int.{ℤ, pos, pos_part, ◌-ℤ◌, abs_laws}
use penge.Decimal.{Decimal, limit, sub, div, lt, le, nought, whole, max_decimal, round_half_even}
use penge.Decimal.Laws.{cents, quantize-cents}
use penge.Decimal.Cents.{IsCents, cents_of, quantize-IsCents, nought-lt-IsCents}
use penge.Decimal.Floors.{sub-cents-whole, quantize-whole, max-IsCents, mul-IsCents, pos_part-diff}
use penge.Tax.Dk.Topskat.{
  TopskatWarning, Suggestion, no_suggestion, severity, primary_suggestion, check_topskat_exposure,
}

-- What is above the threshold, in øre.
abbrev pub above : (income threshold : ℕ) → ℕ
above income threshold = income - threshold * 100

abbrev pub warning : (income threshold : ℕ) → Suggestion → TopskatWarning
warning income threshold s = record {
  annual_pension_income = cents_of income;
  topskat_threshold = cents_of (threshold * 100);
  income_above_threshold = cents_of (above income threshold);
  estimated_topskat = cents_of (round_half_even (above income threshold * 15) 100);
  in_topskat = ltb (threshold * 100) income;
  suggestion = s;
}

accepted :
    (income threshold : ℕ)
    → 0 < threshold
    → (lt (cents_of income) nought || le (whole threshold) nought) ≡ false
unfolding lt le
accepted income threshold h = ground arith

le-cents-whole : (a t : ℕ) → le (cents_of a) (whole t) ≡ leb a (t * 100)
unfolding le
le-cents-whole a t = ground arith

severity_some : (d : Decimal) → severity d ≢ no_suggestion
severity_some d e = elim (Bool-cases (lt (whole 1) d)) [
  | inl far ↦ absurd (cc (rw (severity, far) at e))
  | inr near ↦ elim (Bool-cases (lt (record { coef = pos 3; places = 1 }) d)) [
    | inl some_way ↦ absurd (cc (rw (severity, near, some_way) at e))
    | inr little ↦ absurd (cc (rw (severity, near, little) at e))
  ]
]

div-whole : (d : Decimal) (t : ℕ) → 0 < t → (q : Decimal) × (div d (whole t) ≡ ok q)
unfolding div
div-whole d t h = elim (Result-cases (div d (whole t))) [
  | inl returned ↦ returned
  | inr (x, e) ↦
      let positive : (t == 0) ≡ false = ground arith in absurd (cc (rw (div, positive) at e))
]

suggested :
    (income threshold : ℕ)
    → 0 < threshold
    → (s : Suggestion) × (primary_suggestion (cents_of income) (whole threshold) ≡ ok s)
      × ((s ≡ no_suggestion) ↔ (income ≤ threshold * 100))
unfolding primary_suggestion
suggested income threshold h = elim (Bool-cases (leb income (threshold * 100))) [
  | inl within ↦ (
    no_suggestion,
    rw (le-cents-whole income threshold, within) refl,
    ((λ _. leb→le _ _ within), (λ _. refl)),
  )
  | inr beyond ↦
      let (q, run) = div-whole (sub (cents_of income) (whole threshold)) threshold h in
      (
        severity q,
        rw (le-cents-whole income threshold, beyond, run) refl,
        ((λ e. absurd (severity_some q e)), (λ w. absurd (ground arith))),
      )
]

-- For an income in whole øre, a positive threshold in whole kroner and figures that, the income
-- times 15, stay below 10 ^ 28, the check returns: it reports the part of the income above the
-- threshold, 15 % of it rounded half to even, whether there is such a part, and a suggestion
-- exactly if there is.
pub check_topskat_exposure-exact :
    (income threshold : ℕ)
    → 0 < threshold
    → income * 15 + threshold * 100 < limit
    → (s : Suggestion) × (check_topskat_exposure (cents_of income) (whole threshold)
        ≡ ok (warning income threshold s))
      × ((s ≡ no_suggestion) ↔ (income ≤ threshold * 100))
unfolding check_topskat_exposure
check_topskat_exposure-exact income threshold h small =
    let z : ℤ = pos income -ℤ pos (threshold * 100) in
    let d : Decimal = max_decimal (cents z) nought in
    let part : pos_part z ≡ above income threshold = pos_part-diff income (threshold * 100) in
    let exact : IsCents d (pos (above income threshold)) =
      subst (λ n. IsCents d (pos n)) part (max-IsCents z) in
    let (s, run, when) = suggested income threshold h in
    let reported : lt nought d ≡ ltb (threshold * 100) income =
      nought-lt-IsCents d (pos (above income threshold)) exact ∙ ground arith in
    (
      s,
      rw
          (
            accepted income threshold h,
            run,
            sub-cents-whole income threshold (omega abs_laws),
            mul-IsCents d (above income threshold) 15 exact (omega arith),
          )
          (rw
            (
              quantize-cents (pos income) (omega arith),
              quantize-whole threshold (omega arith),
              quantize-IsCents d (pos (above income threshold)) exact (omega arith),
              reported,
            )
            refl),
      when,
    )
