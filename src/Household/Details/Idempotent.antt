-- ===== src/Household/Details/Idempotent.antt =====
-- A detail that is seen again (src/penge/household/service.py).
use penge.Prelude.{
  ℕ, suc, ◌≡◌, ◌∙◌, refl, sym, ap, inl, inr, arith, String, true, false, ◌==◌, Bool-cases, [], ◌∷◌,
  Option, none, some,
}
use penge.Prelude.Eq.{string_eq}
use penge.Prelude.Dict.{Dict}
use penge.Prelude.Int.{ℤ, pos, negsuc, eqb_ℤ}
use penge.Household.Schemas.{PaymentSourceFields, PaymentDetailWrite, PaymentDetail}
use penge.Household.Store.{Store}
use penge.Household.Outs.{str_eq}
use penge.Household.Details.{
  same_text, event_code, same_fields, is_for, is_same, detail_of, seen, upsert_in,
  upsert_payment_detail,
}

str_eq_refl : (s : String) → str_eq s s ≡ true
str_eq_refl s = (string_eq.beq_iff s s).1 refl

same_text_refl : (o : Option String) → same_text o o ≡ true
same_text_refl none = refl
same_text_refl (some s) = str_eq_refl s

eqb_ℤ_refl : (x : ℤ) → eqb_ℤ x x ≡ true
eqb_ℤ_refl (pos n) = ground arith
eqb_ℤ_refl (negsuc n) = ground arith

nat_refl : (n : ℕ) → (n == n) ≡ true
nat_refl n = ground arith

same_fields_refl : (f : PaymentSourceFields) → same_fields f f ≡ true
same_fields_refl f =
    rw
      (
        same_text_refl f.entry_reference,
        same_text_refl f.transaction_id,
        same_text_refl f.merchant_category_code,
        same_text_refl f.bank_code,
        same_text_refl f.bank_sub_code,
      )
      (same_text_refl f.transaction_date)

detail_of-for :
    (body : PaymentDetailWrite) (revision now : ℕ)
    → is_for body (detail_of body revision now) ≡ true
detail_of-for body revision now =
    rw (is_for, str_eq_refl body.provider, str_eq_refl body.source_account_id)
      (str_eq_refl body.external_id)

detail_of-same :
    (body : PaymentDetailWrite) (revision now : ℕ)
    → is_same body (detail_of body revision now) ≡ true
detail_of-same body revision now =
    rw
      (
        is_same,
        str_eq_refl body.provider,
        str_eq_refl body.source_account_id,
        str_eq_refl body.external_id,
        nat_refl body.ts,
        eqb_ℤ_refl body.amount,
        str_eq_refl body.currency,
        same_text_refl body.merchant_name,
        same_text_refl body.reference,
        nat_refl (event_code body.event_kind),
      )
      (same_fields_refl body.source_fields)

module _ (body : PaymentDetailWrite) (now fresh id : ℕ) (d : PaymentDetail)
    (details : Dict ℕ PaymentDetail) where
  upsert_found :
      is_for body d ≡ true
      → upsert_in body now fresh ((id, d) ∷ details) ≡ (id, (id, seen body now d) ∷ details)
  unfolding upsert_in
  upsert_found h = rw (upsert_in, h) refl

  upsert_other :
      is_for body d ≡ false
      → upsert_in body now fresh ((id, d) ∷ details)
        ≡ ((upsert_in body now fresh details).0, (id, d) ∷ (upsert_in body now fresh details).1)
  unfolding upsert_in
  upsert_other h = rw (upsert_in, h) refl

module _ (body : PaymentDetailWrite) (first second : ℕ) where
  for-seen : (d : PaymentDetail) → is_for body d ≡ true → is_for body (seen body first d) ≡ true
  unfolding seen
  for-seen d h = elim (Bool-cases (is_same body d)) [
    | inl same ↦ rw (seen, same) h
    | inr other ↦ rw (seen, other) (detail_of-for body (suc d.revision) first)
  ]

  when_same :
      (d : PaymentDetail)
      → is_same body d ≡ true
      → seen body second d ≡ record d { connection_id = body.connection_id; last_seen_at = second }
  unfolding seen
  when_same d h = rw (seen, h) refl

  when_other :
      (d : PaymentDetail)
      → is_same body d ≡ false
      → seen body second d ≡ detail_of body (suc d.revision) second
  unfolding seen
  when_other d h = rw (seen, h) refl

  -- Seen again, nothing differs.
  seen-seen : (d : PaymentDetail) → seen body second (seen body first d) ≡ seen body second d
  unfolding seen
  seen-seen d = elim (Bool-cases (is_same body d)) [
    | inl same ↦
        let again : PaymentDetail = record d {
          connection_id = body.connection_id;
          last_seen_at = first;
        } in
        let e : seen body first d ≡ again = rw (seen, same) refl in
        ap (seen body second) e ∙ when_same again same ∙ sym (when_same d same)
    | inr other ↦
        let again : PaymentDetail = detail_of body (suc d.revision) first in
        let e : seen body first d ≡ again = rw (seen, other) refl in
        ap (seen body second) e
        ∙ when_same again (detail_of-same body (suc d.revision) first)
        ∙ sym (when_other d other)
  ]

  upsert_in-upsert_in :
      (fresh later : ℕ) (details : Dict ℕ PaymentDetail)
      → upsert_in body second later (upsert_in body first fresh details).1
        ≡ upsert_in body second fresh details
  unfolding upsert_in
  upsert_in-upsert_in fresh later [] =
      upsert_found body second later fresh (detail_of body 1 first) [] (detail_of-for body 1 first)
      ∙ (ap (λ (d : PaymentDetail). (fresh, (fresh, d) ∷ []))
          (when_same (detail_of body 1 first) (detail_of-same body 1 first)))
  upsert_in-upsert_in fresh later ((id, d) ∷ details) = elim (Bool-cases (is_for body d)) [
    | inl here ↦
        ap (λ (r : ℕ × Dict ℕ PaymentDetail). upsert_in body second later r.1)
          (upsert_found body first fresh id d details here)
        ∙ upsert_found body second later id (seen body first d) details (for-seen d here)
        ∙ ap (λ (x : PaymentDetail). (id, (id, x) ∷ details)) (seen-seen d)
        ∙ sym (upsert_found body second fresh id d details here)
    | inr there ↦
        let ih = upsert_in-upsert_in fresh later details in
        ap (λ (r : ℕ × Dict ℕ PaymentDetail). upsert_in body second later r.1)
          (upsert_other body first fresh id d details there)
        ∙ upsert_other body second later id d (upsert_in body first fresh details).1 there
        ∙ ap (λ (r : ℕ × Dict ℕ PaymentDetail). (r.0, (id, d) ∷ r.1)) ih
        ∙ sym (upsert_other body second fresh id d details there)
  ]

  -- A payment detail that is sent twice leaves the same details as one that is sent the second
  -- time only, and has the same id: no row is added and no revision counted for the repetition.
  pub upsert_payment_detail-repeated :
      (s : Store)
      → ((upsert_payment_detail body second (upsert_payment_detail body first s).1).0
          ≡ (upsert_payment_detail body second s).0)
        × ((upsert_payment_detail body second (upsert_payment_detail body first s).1).1.details
            ≡ (upsert_payment_detail body second s).1.details)
  unfolding upsert_payment_detail
  upsert_payment_detail-repeated s =
      let e = upsert_in-upsert_in s.next_id (suc s.next_id) s.details in
      (ap (λ (r : ℕ × Dict ℕ PaymentDetail). r.0) e, ap (λ (r : ℕ × Dict ℕ PaymentDetail). r.1) e)
