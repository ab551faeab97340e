-- ===== src/Household/Links.antt =====
-- `validate_links` and `validate_detail_links` of src/penge/household/service.py.
use penge.Prelude.{
  ℕ, Bool, true, false, not, ◌&&◌, ◌||◌, ◌==◌, List, [], ◌∷◌, map, Result, ok, ◌>>=◌, ◌>>◌,
  raise_if,
}
use penge.Prelude.Eq.{nat_eq}
use penge.Prelude.Int.{ℤ, ◌+ℤ◌, eqb_ℤ, sum_ℤ}
use penge.Prelude.Dict.{Dict}
use penge.Household.Schemas.{
  Treatment, refund, transfer, SourceTransaction, LinkKind, transfer_link, refund_link,
  ReconciliationLink, EventKind, funding_event, PaymentDetail, PaymentDetailLink,
  ClassificationWrite,
}
use penge.Household.Store.{
  HouseholdError, duplicate_reference, self_reference, transfer_accounts, transfer_signs,
  refund_not_debit, duplicate_detail, details_not_conserved, wallet_funding, detail_not_cents,
  detail_sign, Store, require, check_revision,
}
use penge.Household.Outs.{source}
use penge.Household.Splits.{is_zero, is_positive, is_negative, is_cents, differ, has_duplicate}

abbrev pub is_transfer : Treatment → Bool
is_transfer transfer = true
is_transfer _ = false

abbrev pub is_refund : Treatment → Bool
is_refund refund = true
is_refund _ = false

abbrev pub same_link_kind : LinkKind → LinkKind → Bool
same_link_kind transfer_link transfer_link = true
same_link_kind refund_link refund_link = true
same_link_kind _ _ = false

abbrev pub has_link : ReconciliationLink → List ReconciliationLink → Bool
has_link x [] = false
has_link x (y ∷ ys) =
    ((x.related_transaction_id == y.related_transaction_id) && same_link_kind x.kind y.kind)
    || has_link x ys

-- `len(keys) != len(set(keys))`
abbrev pub has_duplicate_link : List ReconciliationLink → Bool
has_duplicate_link [] = false
has_duplicate_link (x ∷ xs) = has_link x xs || has_duplicate_link xs

-- One turn of the loop over the links.
unfoldable pub check_link :
    ℕ → SourceTransaction → Treatment → ReconciliationLink → Store → Result HouseholdError Unit
check_link key t treatment link s = do
  raise_if (link.related_transaction_id == key) self_reference
  (other, other_account) ← source link.related_transaction_id s
  elim link.kind [
    | transfer_link ↦ do
      raise_if (not (is_transfer treatment) || other.account_id == t.account_id) transfer_accounts
      raise_if (not (differ (is_positive other.amount) (is_positive t.amount))) transfer_signs
    | refund_link ↦
        raise_if (not (is_refund treatment) || not (is_negative other.amount)) refund_not_debit
  ]

unfoldable pub check_links :
    ℕ → SourceTransaction → Treatment → List ReconciliationLink → Store → Result HouseholdError Unit
unfolding check_link
check_links key t treatment [] s = ok tt
check_links key t treatment (l ∷ ls) s = do
  check_link key t treatment l s
  check_links key t treatment ls s

abbrev pub is_funding : EventKind → Bool
is_funding funding_event = true
is_funding _ = false

abbrev pub bank_amounts : List PaymentDetailLink → List ℤ
bank_amounts = map (λ (x : PaymentDetailLink). x.bank_amount)

-- The loop over the details.
unfoldable pub check_details :
    (total : ℤ) → List PaymentDetailLink → Dict ℕ PaymentDetail → Result HouseholdError Unit
check_details total [] d = ok tt
check_details total (l ∷ ls) d = do
  detail ← require l.detail_id d
  check_revision detail.revision l.detail_revision
  raise_if (is_funding detail.event_kind) wallet_funding
  raise_if (not (is_cents l.bank_amount)) detail_not_cents
  raise_if (is_zero l.bank_amount || differ (is_positive l.bank_amount) (is_positive total))
      detail_sign
  check_details total ls d

abbrev pub details_differ : (total : ℤ) → List PaymentDetailLink → Bool
details_differ total [] = false
details_differ total (l ∷ ls) = not (eqb_ℤ (sum_ℤ (bank_amounts (l ∷ ls))) total)

unfoldable pub validate_detail_links :
    SourceTransaction → List PaymentDetailLink → Store → Result HouseholdError Unit
unfolding check_details sum_ℤ ◌+ℤ◌
validate_detail_links t detail_links s = do
  raise_if (has_duplicate (map (λ (x : PaymentDetailLink). x.detail_id) detail_links))
      duplicate_detail
  raise_if (details_differ t.amount detail_links) details_not_conserved
  check_details t.amount detail_links s.details

unfoldable pub validate_links :
    ℕ → SourceTransaction → ClassificationWrite → Store → Result HouseholdError Unit
unfolding check_links validate_detail_links
validate_links key t body s = do
  raise_if (has_duplicate_link body.links) duplicate_reference
  check_links key t body.treatment body.links s
  validate_detail_links t body.detail_links s
