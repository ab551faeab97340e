-- ===== src/Tax/Dk/Folkepension/Split.antt =====
-- The means test of compute_folkepension (src/penge/tax/dk/folkepension.py).
use penge.Prelude.{ℕ, ◌+◌, ◌-◌, ◌*◌, ◌<◌, ◌≤◌, ◌≡◌, ◌∙◌, refl, arith, false, min, some, ok}
use penge.Prelude.Int.{ℤ, pos, pos_part, ◌-ℤ◌, abs_laws}
use penge.Decimal.{limit, sub, mul, lt, quantize, nought, whole, max_decimal}
use penge.Decimal.Laws.{cents, quantize-cents}
use penge.Decimal.Cents.{cents_of, quantize-IsCents}
use penge.Decimal.Zeros.{max-IsZero, mul-IsZero, div-IsZero, quantize-IsZero}
use penge.Decimal.Floors.{
  sub-cents-whole, sub-whole-cents, add-whole-cents, quantize-whole, max-IsCents, quantize-min,
  pos_part-diff,
}
use penge.Tax.Dk.Folkepension.{
  FolkepensionConfig, FolkepensionResult, CivilStatus, modregning_rate_default, is_refused,
  monthly_reduction, compute_folkepension,
}

-- A config in whole kroner as the published figures are, with an income in øre.
abbrev pub config_of : CivilStatus → (age income grund tillaeg threshold : ℕ) → FolkepensionConfig
config_of civil_status age income grund tillaeg threshold = record {
  civil_status = civil_status;
  folkepension_age = age;
  annual_private_pension_income = cents_of income;
  grundbeloeb_monthly = whole grund;
  tillaeg_max_monthly = some (whole tillaeg);
  modregning_rate = modregning_rate_default;
  income_threshold = whole threshold;
}

-- The entitlement after a monthly reduction of n øre.
abbrev pub entitlement : (n grund tillaeg : ℕ) → FolkepensionResult
entitlement n grund tillaeg = record {
  grundbeloeb_monthly = cents_of (grund * 100);
  tillaeg_before_modregning = cents_of (tillaeg * 100);
  modregning = cents_of (min n (tillaeg * 100));
  tillaeg_after_modregning = cents_of (tillaeg * 100 - n);
  total_monthly = cents_of (grund * 100 + (tillaeg * 100 - n));
}

accepted :
    (s : CivilStatus) (age income grund tillaeg threshold : ℕ)
    → 60 ≤ age
    → is_refused (config_of s age income grund tillaeg threshold) ≡ false
unfolding is_refused lt
accepted s age income grund tillaeg threshold h = ground arith

tillaeg_after :
    (n tillaeg : ℕ)
    → n + tillaeg * 100 < limit
    → quantize 2 (max_decimal (sub (whole tillaeg) (cents_of n)) nought)
      ≡ ok (cents_of (tillaeg * 100 - n))
tillaeg_after n tillaeg h =
    let z : ℤ = pos (tillaeg * 100) -ℤ pos n in
    rw (sub-whole-cents tillaeg n (omega abs_laws), ← pos_part-diff (tillaeg * 100) n)
      (quantize-IsCents (max_decimal (cents z) nought) (pos (pos_part z)) (max-IsCents z)
        (rw (pos_part-diff (tillaeg * 100) n) (omega arith)))

-- For published figures in whole kroner, an age of at least 60 and figures that stay below
-- 10 ^ 28: if the means test comes to a reduction of n øre a month, the calculator returns, the
-- reported reduction and what is left of the tillæg add up to the full tillæg, and the total is
-- the grundbeløb and what is left.
pub compute_folkepension-split :
    (s : CivilStatus) (age income grund tillaeg threshold n : ℕ)
    → 60 ≤ age
    → n + grund * 100 + tillaeg * 100 < limit
    → monthly_reduction (config_of s age income grund tillaeg threshold) ≡ ok (cents_of n)
    → (compute_folkepension (config_of s age income grund tillaeg threshold)
        ≡ ok (entitlement n grund tillaeg))
      × (min n (tillaeg * 100) + (tillaeg * 100 - n) ≡ tillaeg * 100)
unfolding compute_folkepension
compute_folkepension-split s age income grund tillaeg threshold n old small run = (
  rw
      (
        accepted s age income grund tillaeg threshold old,
        run,
        quantize-min n tillaeg (omega arith),
        tillaeg_after n tillaeg (omega arith),
        add-whole-cents grund (tillaeg * 100 - n) (omega arith),
        quantize-whole grund (omega arith),
        quantize-whole tillaeg (omega arith),
      )
      (rw (quantize-cents (pos (grund * 100 + (tillaeg * 100 - n))) (omega arith)) refl),
  omega arith,
)

no_reduction :
    (s : CivilStatus) (age income grund tillaeg threshold : ℕ)
    → threshold * 100 < limit
    → income ≤ threshold * 100
    → monthly_reduction (config_of s age income grund tillaeg threshold) ≡ ok (cents_of 0)
unfolding monthly_reduction
no_reduction s age income grund tillaeg threshold bound below =
    let z : ℤ = pos income -ℤ pos (threshold * 100) in
    let none_above = max-IsZero (cents z) (pos_part-diff income (threshold * 100) ∙ omega arith) in
    let (q, divided, is_zero) =
      div-IsZero (mul (max_decimal (cents z) nought) modregning_rate_default)
        (mul-IsZero (max_decimal (cents z) nought) modregning_rate_default none_above) in
    rw (sub-cents-whole income threshold (omega abs_laws), divided) (quantize-IsZero q is_zero)

-- Up to the threshold there is no reduction, whatever the other figures are: for an age of at
-- least 60 and figures that stay below 10 ^ 28 the calculator returns the full tillæg.
pub full_tillaeg_below_threshold :
    (s : CivilStatus) (age income grund tillaeg threshold : ℕ)
    → 60 ≤ age
    → grund * 100 + tillaeg * 100 < limit
    → threshold * 100 < limit
    → income ≤ threshold * 100
    → compute_folkepension (config_of s age income grund tillaeg threshold)
      ≡ ok (entitlement 0 grund tillaeg)
full_tillaeg_below_threshold s age income grund tillaeg threshold old small bound below =
    (compute_folkepension-split s age income grund tillaeg threshold 0 old (omega arith)
      (no_reduction s age income grund tillaeg threshold bound below)).0
