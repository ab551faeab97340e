-- ===== src/Tax/Aktiesparekonto/Refusals.antt =====
-- When compute_ask_taxes of src/penge/tax/aktiesparekonto.py raises AskError.
use penge.Prelude.{
  ℕ, ◌≡◌, ◌≢◌, ◌⊎◌, ◌↔◌, refl, ap, inl, inr, arith, String, true, false, not, ◌==◌, ltb, ◌-◌, List,
  [], ◌∷◌, ◌++◌, err, >>=-err, Bool-cases,
}
use penge.Prelude.Int.{ℤ, abs}
use penge.Prelude.Eq.{string_eq}
use penge.Errors.{ask_error}
use penge.Decimal.{Decimal, limit, scale, unscale, add, quantize, nought}
use penge.Tax.Lager.{LagerResult}
use penge.Tax.Money.{Currency, eur, dkk, same_currency}
use penge.Tax.Aktiesparekonto.{is_refused, net_gain, tax_of, loss_of, compute_ask_taxes}

-- A result of another account, of another year, or in euro.
abbrev pub IsForeign : String → ℕ → LagerResult → Type 0
IsForeign account_id tax_year r =
    (r.account_id ≢ account_id) ⊎ (r.tax_year ≢ tax_year) ⊎ (r.gain.currency ≡ eur)

-- One of the results is.
abbrev pub HasForeign : String → ℕ → List LagerResult → Type 0
HasForeign account_id tax_year rs =
    (before : List LagerResult) × (r : LagerResult) × (after : List LagerResult) × (rs
      ≡ before ++ r ∷ after)
    × IsForeign account_id tax_year r

euro_currency : (c : Currency) → not (same_currency c dkk) ≡ true → c ≡ eur
euro_currency eur h = refl
euro_currency dkk h = absurd (cc h)

module _ (account_id : String) (tax_year : ℕ) where
  IsForeign-refused :
      (r : LagerResult) → IsForeign account_id tax_year r → is_refused account_id tax_year r ≡ true
  IsForeign-refused r (inl h) = elim (Bool-cases (string_eq.beq r.account_id account_id)) [
    | inl e ↦ absurd (h ((string_eq.beq_iff r.account_id account_id).0 e))
    | inr e ↦ rw e refl
  ]
  IsForeign-refused r (inr (inl h)) = ground arith
  IsForeign-refused r (inr (inr h)) = rw h (ground arith)

  other_account :
      (r : LagerResult) → string_eq.beq r.account_id account_id ≡ false → r.account_id ≢ account_id
  other_account r h e = absurd (cc (h, (string_eq.beq_iff r.account_id account_id).1 e))

  refused-IsForeign :
      (r : LagerResult) → is_refused account_id tax_year r ≡ true → IsForeign account_id tax_year r
  refused-IsForeign r h = elim (Bool-cases (string_eq.beq r.account_id account_id)) [
    | inr e ↦ inl (other_account r e)
    | inl e ↦ elim (Bool-cases (r.tax_year == tax_year)) [
      | inr y ↦ inr (inl (ground arith))
      | inl y ↦ inr (inr (euro_currency r.gain.currency (rw (e, y) at h)))
    ]
  ]

  net_gain_refuses :
      (acc : Decimal) (before : List LagerResult) (r : LagerResult) (after : List LagerResult)
      → is_refused account_id tax_year r ≡ true
      → net_gain account_id tax_year acc (before ++ r ∷ after) ≡ err ask_error
  unfolding net_gain
  net_gain_refuses acc [] r after h = rw h
  net_gain_refuses acc (x ∷ before) r after h =
      elim (Bool-cases (is_refused account_id tax_year x)) [
        | inl bad ↦ rw bad
        | inr good ↦ rw good (net_gain_refuses (add acc x.gain.amount) before r after h)
      ]

  net_gain_refused :
      (acc : Decimal) (rs : List LagerResult)
      → net_gain account_id tax_year acc rs ≡ err ask_error
      → HasForeign account_id tax_year rs
  unfolding net_gain
  net_gain_refused acc [] h = absurd (cc h)
  net_gain_refused acc (r ∷ rs) h = elim (Bool-cases (is_refused account_id tax_year r)) [
    | inl bad ↦ ([], r, rs, refl, refused-IsForeign r bad)
    | inr good ↦
        let (before, x, after, e, foreign) =
          net_gain_refused (add acc r.gain.amount) rs (rw (net_gain, good) at h) in
        (r ∷ before, x, after, ap (λ (l : List LagerResult). r ∷ l) e, foreign)
  ]

quantize-invalid : {A : Type 0} (p : ℕ) (d : Decimal) → quantize p d ≡ err ask_error → A
unfolding quantize
quantize-invalid p d h =
    let c : ℤ = unscale (d.places - p) (scale (p - d.places) d.coef) in
    elim (Bool-cases (ltb (abs c) limit)) [
      | inl small ↦ absurd (cc (rw (quantize, small) at h))
      | inr large ↦ absurd (cc (rw (quantize, large) at h))
    ]

-- The computation of the aktiesparekonto's tax raises AskError exactly if one of the results,
-- wherever it stands, is of another account, of another year or in euro.
pub foreign_result_raises_iff :
    (account_id : String) (tax_year : ℕ) (rs : List LagerResult)
    → (compute_ask_taxes account_id tax_year rs ≡ err ask_error) ↔ HasForeign account_id tax_year rs
unfolding compute_ask_taxes
foreign_result_raises_iff account_id tax_year rs = (raised, raises)
  where
    raises :
        HasForeign account_id tax_year rs → compute_ask_taxes account_id tax_year rs ≡ err ask_error
    raises (before, r, after, e, foreign) =
        let refusal = IsForeign-refused account_id tax_year r foreign in
        rw (e, net_gain_refuses account_id tax_year nought before r after refusal) refl

    raised :
        compute_ask_taxes account_id tax_year rs ≡ err ask_error → HasForeign account_id tax_year rs
    raised h = elim (>>=-err (net_gain account_id tax_year nought rs) _ h) [
      | inl e ↦ net_gain_refused account_id tax_year nought rs e
      | inr (gain, e, h1) ↦ elim (>>=-err (quantize 2 gain) _ h1) [
        | inl e1 ↦ quantize-invalid 2 gain e1
        | inr (g, e1, h2) ↦ elim (>>=-err (quantize 2 (tax_of gain)) _ h2) [
          | inl e2 ↦ quantize-invalid 2 (tax_of gain) e2
          | inr (tax, e2, h3) ↦ elim (>>=-err (quantize 2 (loss_of gain)) _ h3) [
            | inl e3 ↦ quantize-invalid 2 (loss_of gain) e3
            | inr (loss, e3, h4) ↦ absurd (cc h4)
          ]
        ]
      ]
    ]
