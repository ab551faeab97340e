-- ===== src/Household/Store.antt =====
-- The tables that src/penge/household/service.py works on, in one database transaction: an
-- operation that raises leaves nothing behind, since its caller rolls back. The rows of a
-- transaction's allocations, links and detail links are grouped under it. A fresh UUID is the
-- next number; audit events stand in the order of their creation.
use penge.Prelude.{
  ℕ, suc, String, List, [], ◌∷◌, ◌++◌, Option, none, some, Result, ok, err, ◌==◌, if◌then◌else◌,
}
use penge.Prelude.Eq.{nat_eq}
use penge.Prelude.Dict.{Dict, lookup}
use penge.Household.Schemas.{
  Category, Merchant, Alias, Account, SourceTransaction, Split, ReconciliationLink,
  PaymentDetailLink, PaymentDetail, Classification, ClassificationOut, Rule, Preview,
}

-- HouseholdError, by the message that it carries; `walks_on` stands for a loop that has not ended.
pub data HouseholdError : Type 0 where
  not_found revision_conflict : HouseholdError
  kind_immutable blank_name category_cycle parent_kind walks_on : HouseholdError
  blank_alias processor_only alias_exists : HouseholdError
  not_a_bank_movement unsupported_currency duplicate_category : HouseholdError
  allocations_not_allowed identity_without_merchant merchant_archived : HouseholdError
  not_conserved zero_movement not_cents wrong_sign wrong_direction : HouseholdError
  wrong_category_type category_archived : HouseholdError
  duplicate_reference self_reference transfer_accounts transfer_signs refund_not_debit :
      HouseholdError
  duplicate_detail details_not_conserved wallet_funding detail_not_cents detail_sign :
      HouseholdError
  manual_protected not_current_rule : HouseholdError
  preview_requires_active preview_applied rule_not_active preview_stale foreign_audit :
      HouseholdError

-- The HTTP status of an error.
unfoldable pub status : HouseholdError → ℕ
status not_found = 404
status revision_conflict = 409
status alias_exists = 409
status manual_protected = 409
status not_current_rule = 409
status preview_applied = 409
status rule_not_active = 409
status preview_stale = 409
status _ = 422

-- The subject's type is the constructor.
pub data Snapshot : Type 0 where
  category_snapshot : Category → Snapshot
  merchant_snapshot : Merchant → Snapshot
  alias_snapshot : Alias → Snapshot
  classification_snapshot : ClassificationOut → Snapshot
  rule_snapshot : Rule → Snapshot
  preview_snapshot : Preview → Snapshot

pub record Audit : Type 0 where
  pub subject_id : ℕ
  pub action : String
  pub before : Option Snapshot
  pub after : Snapshot

pub record Store : Type 0 where
  pub accounts : Dict ℕ Account
  pub transactions : Dict ℕ SourceTransaction
  pub categories : Dict ℕ Category
  pub merchants : Dict ℕ Merchant
  pub aliases : Dict ℕ Alias
  pub rules : Dict ℕ Rule
  pub classifications : Dict ℕ Classification
  pub allocations : Dict ℕ (List Split)
  pub links : Dict ℕ (List ReconciliationLink)
  pub details : Dict ℕ PaymentDetail
  pub detail_links : Dict ℕ (List PaymentDetailLink)
  pub audits : Dict ℕ Audit
  pub previews : Dict ℕ Preview
  pub next_id : ℕ

abbrev pub require : {V : Type 0} → ℕ → Dict ℕ V → Result HouseholdError V
require key table = elim (lookup key table) [ none ↦ err not_found | some v ↦ ok v ]

abbrev pub rows : {V : Type 0} → ℕ → Dict ℕ (List V) → List V
rows key table = elim (lookup key table) [ none ↦ [] | some vs ↦ vs ]

abbrev pub check_revision : (actual expected : ℕ) → Result HouseholdError Unit
check_revision actual expected = if actual == expected then ok tt else err revision_conflict

-- `audit`: an event with a fresh id.
unfoldable pub audit : (subject_id : ℕ) → String → Option Snapshot → Snapshot → Store → Store
audit subject_id action before after s = record s {
  audits =
      s.audits
      ++ (
        s.next_id,
        record { subject_id = subject_id; action = action; before = before; after = after },
      )
        ∷ [];
  next_id = suc s.next_id;
}
