-- ===== src/Household/Classifications/Undoing.antt =====
-- `undo_classification` of src/penge/household/service.py, taken apart; what it restores.
use Prim.Native.String.{◌++◌ as append}
use penge.Prelude.{
  ℕ, ◌≡◌, subst, refl, String, not, >>=-ok, ok-injective, Option, none, some, ok, raise_if,
}
use penge.Prelude.Eq.{nat_eq}
use penge.Prelude.Dict.{lookup}
use penge.Household.Labels.{Text}
use penge.Household.Schemas.{ClassificationWrite, Classification, Undo}
use penge.Household.Store.{foreign_audit, Store, Audit, require, check_revision}
use penge.Household.Learn.{disable_rule}
use penge.Household.Frame.{Keeps, Keeps-refl, disable_rule-Keeps}
use penge.Household.Splits.Balance.{require-some}
use penge.Household.Classifications.{
  undo_write, is_of, disable_if, save_classification, undo_classification,
}
use penge.Household.Classifications.Decided.{Decided, save_classification-Decided}

pub record Undone (key : ℕ) (body : Undo) (uuid_text : ℕ → String) (s t : Store) : Type 0 where
  pub event : Audit
  pub audited : lookup body.audit_id s.audits ≡ some event
  pub current : Classification
  pub here : lookup key s.classifications ≡ some current
  pub write : ClassificationWrite
  pub is_write :
      undo_write current.revision (append "undo audit " (uuid_text body.audit_id)) event.before
      ≡ write
  pub saved : Store
  pub decided : Decided key write none s saved
  pub after : Keeps saved t

disable_if-Keeps : (o : Option ℕ) (s : Store) {t : Store} → disable_if o s ≡ ok t → Keeps s t
disable_if-Keeps none s e = subst (Keeps s) (ok-injective e) (Keeps-refl s)
disable_if-Keeps (some id) s e =
    let ((r, s1), gone, e1) =
      >>=-ok (disable_rule id "classification undone; explicit rule review required" s) _ e in
    subst (Keeps s) (ok-injective e1) (disable_rule-Keeps id _ s gone)

pub undo_classification-Undone :
    (fold : ℕ → Text) (uuid_text : ℕ → String) (key : ℕ) (body : Undo) (s : Store) {t : Store}
    → undo_classification fold uuid_text key body s ≡ ok t
    → Undone key body uuid_text s t
unfolding undo_classification
undo_classification-Undone fold uuid_text key body s e =
    let (event, audited, e1) = >>=-ok (require body.audit_id s.audits) _ e in
    let (_, own, e2) = >>=-ok (raise_if (not (is_of key event)) foreign_audit) _ e1 in
    let (current, here, e3) = >>=-ok (require key s.classifications) _ e2 in
    let (_, revision, e4) = >>=-ok (check_revision current.revision body.expected_revision) _ e3 in
    let w : ClassificationWrite =
      undo_write current.revision (append "undo audit " (uuid_text body.audit_id)) event.before in
    let (s1, saved, last) = >>=-ok (save_classification fold key w none "undo" s) _ e4 in
    record {
      event = event;
      audited = require-some body.audit_id s.audits audited;
      current = current;
      here = require-some key s.classifications here;
      write = w;
      is_write = refl;
      saved = s1;
      decided = save_classification-Decided fold key w none "undo" s saved;
      after = disable_if-Keeps current.merchant_id s1 last;
    }
