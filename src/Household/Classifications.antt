-- ===== src/Household/Classifications.antt =====
-- `save_classification` and `undo_classification` of src/penge/household/service.py. The merchants
-- that are learned from, a set there, are taken in the order old, new. `str` of a UUID is the
-- parameter `uuid_text`.
pub mod Decided
pub mod Balanced
pub mod Undoing
pub mod Restored
use penge.Prelude.{
  ℕ, suc, String, Bool, true, false, not, ◌&&◌, ◌||◌, ◌==◌, List, [], ◌∷◌, ◌++◌, Option, none, some,
  Result, ok, err, ◌>>=◌, ◌>>◌, raise_if, if◌then◌else◌,
}
use Prim.Native.String.{◌++◌ as append}
use penge.Prelude.Eq.{nat_eq}
use penge.Prelude.Dict.{Dict, lookup, insert}
use penge.Household.Labels.{Text, processor_only_label}
use penge.Household.Schemas.{
  Treatment, expense, income, refund, transfer, excluded, unclassified, ReviewState, classified,
  needs_review, unclassified_review, Provenance, manual, by_rule, Account, SourceTransaction,
  ClassificationWrite, Classification, ClassificationOut, Undo,
}
use penge.Household.Store.{
  HouseholdError, not_found, foreign_audit, manual_protected, Store, Snapshot, category_snapshot,
  merchant_snapshot, alias_snapshot, classification_snapshot, rule_snapshot, preview_snapshot,
  Audit, require, check_revision, audit,
}
use penge.Household.Outs.{source, classification_out}
use penge.Household.Rules.{is_manual}
use penge.Household.Learn.{learn, disable_rule}
use penge.Household.Splits.{validate_splits}
use penge.Household.Links.{validate_links}

abbrev pub review_of : Treatment → ReviewState
review_of unclassified = unclassified_review
review_of _ = classified

abbrev pub provenance_of : Option ℕ → Provenance
provenance_of none = manual
provenance_of (some rule_id) = by_rule

abbrev pub revision_of : Option Classification → ℕ
revision_of none = 0
revision_of (some c) = c.revision

abbrev pub merchant_of : Option Classification → Option ℕ
merchant_of none = none
merchant_of (some c) = c.merchant_id

-- `rule and record and record.provenance == "manual"`
abbrev pub is_protected : Option ℕ → Option Classification → Bool
is_protected (some rule_id) (some c) = is_manual c.provenance
is_protected _ _ = false

-- The row that is written.
abbrev pub written :
    SourceTransaction
    → Account
    → ClassificationWrite
    → Option ℕ
    → Option Classification
    → Classification
written t account body rule_id old = record {
  treatment = body.treatment;
  review_state = review_of body.treatment;
  merchant_id = body.merchant_id;
  identity_confirmed = body.identity_confirmed;
  provenance = provenance_of rule_id;
  rule_id = rule_id;
  revision = suc (revision_of old);
  source_amount = t.amount;
  source_currency = account.currency;
  source_ts = t.ts;
  source_counterparty = t.counterparty;
  source_kind = t.kind;
  explanation = body.explanation;
}

-- The row, and the allocations, links and details in place of those before.
unfoldable pub put_decision : ℕ → Classification → ClassificationWrite → Store → Store
unfolding insert
put_decision key c body s = record s {
  classifications = insert key c s.classifications;
  allocations = insert key body.allocations s.allocations;
  links = insert key body.links s.links;
  detail_links = insert key body.detail_links s.detail_links;
}

abbrev pub out_if :
    ℕ → Option Classification → Store → Result HouseholdError (Option ClassificationOut)
out_if key none s = ok none
out_if key (some c) s = do out ← classification_out key c s; ok (some out)

abbrev pub snapshot_of : Option ClassificationOut → Option Snapshot
snapshot_of none = none
snapshot_of (some out) = some (classification_snapshot out)

-- The writes and the audit event.
unfoldable pub put_audited :
    ℕ
    → Classification
    → ClassificationWrite
    → Option ClassificationOut
    → (action : String) → Store
    → Result HouseholdError Store
unfolding put_decision classification_out audit
put_audited key c body old action s = do
  let s1 = put_decision key c body s
  after ← classification_out key c s1
  ok (audit key action (snapshot_of old) (classification_snapshot after) s1)

-- `{old_merchant, body.merchant_id} - {None}`
abbrev pub other_than : Option ℕ → Option ℕ → Option ℕ
other_than (some a) (some b) = if a == b then none else some b
other_than none (some b) = some b
other_than _ none = none

-- What an undo writes: the audited state, or nothing if there was none.
unfoldable pub undo_write :
    (revision : ℕ) → (explanation : String) → Option Snapshot → ClassificationWrite
undo_write revision explanation before = elim before [
  | some (classification_snapshot old) ↦ record {
    expected_revision = revision;
    treatment = old.base.treatment;
    merchant_id = old.base.merchant_id;
    identity_confirmed = old.base.identity_confirmed;
    allocations = old.allocations;
    links = old.links;
    detail_links = old.detail_links;
    explanation = explanation;
  }
  | _ ↦ record {
    expected_revision = revision;
    treatment = unclassified;
    merchant_id = none;
    identity_confirmed = false;
    allocations = [];
    links = [];
    detail_links = [];
    explanation = explanation;
  }
]

abbrev pub is_of : ℕ → Audit → Bool
is_of key event = elim event.after [
  | classification_snapshot out ↦ event.subject_id == key
  | _ ↦ false
]

abbrev pub disable_if : Option ℕ → Store → Result HouseholdError Store
disable_if none s = ok s
disable_if (some merchant_id) s = do
  (_, s1) ← disable_rule merchant_id "classification undone; explicit rule review required" s
  ok s1

module _ (fold : ℕ → Text) where
  abbrev pub learn_from : Option ℕ → Store → Result HouseholdError Store
  learn_from none s = ok s
  learn_from (some merchant_id) s = do (_, s1) ← learn fold merchant_id s; ok s1

  -- Only decisions by hand are learned from.
  unfoldable pub learn_all :
      (rule_id old_merchant new_merchant : Option ℕ) → Store → Result HouseholdError Store
  unfolding learn
  learn_all (some rule_id) old_merchant new_merchant s = ok s
  learn_all none old_merchant new_merchant s = do
    s1 ← learn_from old_merchant s
    learn_from (other_than old_merchant new_merchant) s1

  unfoldable pub save_classification :
      ℕ
      → ClassificationWrite
      → (rule_id : Option ℕ) → (action : String) → Store
      → Result HouseholdError Store
  unfolding validate_splits validate_links put_audited learn_all classification_out
  save_classification key body rule_id action s = do
    (t, account) ← source key s
    let found = lookup key s.classifications
    check_revision (revision_of found) body.expected_revision
    old ← out_if key found s
    raise_if (is_protected rule_id found) manual_protected
    validate_splits t account body old s
    validate_links key t body s
    s1 ← put_audited key (written t account body rule_id found) body old action s
    learn_all rule_id (merchant_of found) body.merchant_id s1

  unfoldable pub undo_classification :
      (uuid_text : ℕ → String) → ℕ → Undo → Store → Result HouseholdError Store
  unfolding save_classification undo_write disable_rule
  undo_classification uuid_text key body s = do
    event ← require body.audit_id s.audits
    raise_if (not (is_of key event)) foreign_audit
    current ← require key s.classifications
    check_revision current.revision body.expected_revision
    s1 ←
        save_classification key
          (undo_write current.revision (append "undo audit " (uuid_text body.audit_id))
            event.before)
          none "undo" s
    disable_if current.merchant_id s1
