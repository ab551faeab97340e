-- ===== src/Tax/Aktiesparekonto/Caps.antt =====
-- check_deposit_cap of src/penge/tax/aktiesparekonto.py against its description: at every deposit,
-- in the order of the years, the running total is within the cap of that year.
use penge.Prelude.{
  ◌≡◌, ◌≢◌, ◌↔◌, refl, ap, arith, false, List, [], ◌∷◌, ◌++◌, map, some, ok, Option-cases, inl, inr,
}
use penge.Prelude.Sort.{sorted_by-exchange}
use penge.Decimal.{Decimal, add, lt, nought, sum_decimal}
use penge.Tax.Aktiesparekonto.{AskDeposit, deposit_cap, sort_by_year, walk, check_deposit_cap}

abbrev pub amounts : List AskDeposit → List Decimal
amounts = map (λ (d : AskDeposit). d.amount.amount)

-- The running total behind `dep`, where `before` have been deposited, is within the year's cap.
abbrev pub IsWithin : Decimal → List AskDeposit → AskDeposit → Type 0
IsWithin start before dep =
    (cap : Decimal) × (deposit_cap dep.year ≡ some cap)
    × (lt cap (sum_decimal start (amounts (before ++ dep ∷ []))) ≡ false)

abbrev pub EveryPrefix : Decimal → List AskDeposit → Type 0
EveryPrefix start deps =
    (before : List AskDeposit) (dep : AskDeposit) (after : List AskDeposit)
    → deps ≡ before ++ dep ∷ after
    → IsWithin start before dep

walk_step :
    (start : Decimal) (dep : AskDeposit) (deps : List AskDeposit)
    → walk start (dep ∷ deps) ≡ ok tt
    → (cap : Decimal) × (deposit_cap dep.year ≡ some cap)
      × (lt cap (add start dep.amount.amount) ≡ false)
      × (walk (add start dep.amount.amount) deps ≡ ok tt)
unfolding walk
walk_step start dep deps h = elim (Option-cases (deposit_cap dep.year)) [
  | inl e ↦ cc (rw (e, walk) at h)
  | inr (cap, e) ↦ (cap, e, ground arith, ground arith)
]

walk-split :
    (start : Decimal) (before : List AskDeposit) (dep : AskDeposit) (after : List AskDeposit)
    → walk start (before ++ dep ∷ after) ≡ ok tt
    → IsWithin start before dep
unfolding sum_decimal
walk-split start [] dep after h =
    let (cap, known, within, _) = walk_step start dep after h in (cap, known, within)
walk-split start (d ∷ before) dep after h =
    let (_, _, _, rest) = walk_step start d (before ++ dep ∷ after) h in
    walk-split (add start d.amount.amount) before dep after rest

walk_sound :
    (start : Decimal) (deps : List AskDeposit) → walk start deps ≡ ok tt → EveryPrefix start deps
walk_sound start deps h before dep after e = walk-split start before dep after (rw e at h)

walk_complete :
    (start : Decimal) (deps : List AskDeposit) → EveryPrefix start deps → walk start deps ≡ ok tt
unfolding walk sum_decimal
walk_complete start [] h = refl
walk_complete start (dep ∷ deps) h =
    let (cap, known, within) = h [] dep deps refl in
    rw (known, walk)
      (rw within (
        walk_complete (add start dep.amount.amount) deps
          (λ before d after e. h (dep ∷ before) d after (ap (λ (l : List AskDeposit). dep ∷ l) e))))

-- The check passes exactly if every deposit of the sorted walk keeps the running total within its
-- year's cap.
pub check_deposit_cap_iff :
    (deps : List AskDeposit)
    → (check_deposit_cap deps ≡ ok tt) ↔ EveryPrefix nought (sort_by_year deps)
unfolding check_deposit_cap
check_deposit_cap_iff deps =
    (walk_sound nought (sort_by_year deps), walk_complete nought (sort_by_year deps))

-- Two neighbouring deposits of different years can change places, wherever they stand, without
-- changing what the check does.
pub check_deposit_cap-exchange :
    (before : List AskDeposit) (a b : AskDeposit) (after : List AskDeposit)
    → a.year ≢ b.year
    → check_deposit_cap (before ++ a ∷ b ∷ after) ≡ check_deposit_cap (before ++ b ∷ a ∷ after)
unfolding check_deposit_cap
check_deposit_cap-exchange before a b after h =
    ap (walk nought) (sorted_by-exchange (λ (d : AskDeposit). d.year) before a b after h)
