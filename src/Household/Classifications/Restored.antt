-- ===== src/Household/Classifications/Restored.antt =====
-- A correction and its undo (src/penge/household/service.py).
use Prim.Native.String.{◌++◌ as append}
use penge.Prelude.{
  ℕ, ◌≡◌, ◌≢◌, ◌∙◌, ap, sym, String, Bool, >>=-ok, ok-injective, some-injective, Option, none, some,
  ok,
}
use penge.Prelude.Eq.{nat_eq}
use penge.Prelude.Dict.{lookup}
use penge.Household.Labels.{Text}
use penge.Household.Schemas.{
  manual, ClassificationWrite, Classification, ClassificationOut, Undo, SourceTransaction, Account,
}
use penge.Household.Store.{Store, Audit, classification_snapshot, rows}
use penge.Household.Outs.{source, stale, source_differs, out_of, classification_out}
use penge.Household.Frame.{rows-insert, decision_at}
use penge.Household.Classifications.{
  written, undo_write, out_if, snapshot_of, save_classification, undo_classification,
}
use penge.Household.Classifications.Decided.{IsWritten, then_kept, save_classification-Decided}
use penge.Household.Classifications.Undoing.{undo_classification-Undone}
use penge.Household.Classifications.Balanced.{decision-lookup}

classification_out-out_of :
    (key : ℕ) (c : Classification) (s : Store) {out : ClassificationOut}
    → classification_out key c s ≡ ok out
    → (a : Bool) × (b : Bool) × (out_of key c s a b ≡ out)
unfolding classification_out
classification_out-out_of key c s e =
    let ((t, account), _, e1) = >>=-ok (source key s) _ e in
    let (changed, _, e2) = >>=-ok (stale s.details (rows key s.detail_links)) _ e1 in
    (changed, source_differs c t account, ok-injective e2)

-- The decision about a transaction and its rows are those of another store, and stand there as made by
-- hand.
pub record IsRestored (key : ℕ) (c : Classification) (s t : Store) : Type 0 where
  pub row : Classification
  pub here : lookup key t.classifications ≡ some row
  pub treatment : row.treatment ≡ c.treatment
  pub merchant : row.merchant_id ≡ c.merchant_id
  pub identity : row.identity_confirmed ≡ c.identity_confirmed
  pub by_hand : row.provenance ≡ manual
  pub allocations : rows key t.allocations ≡ rows key s.allocations
  pub links : rows key t.links ≡ rows key s.links
  pub detail_links : rows key t.detail_links ≡ rows key s.detail_links

-- What an undo writes when the event has the out of `c` in `s`.
IsWritten-IsRestored :
    (key revision : ℕ) (explanation : String) (c : Classification) (s u t : Store) (a b : Bool)
    (st : SourceTransaction) (account : Account) (old : Option Classification)
    (w : ClassificationWrite)
    → undo_write revision explanation (some (classification_snapshot (out_of key c s a b))) ≡ w
    → IsWritten key (written st account w none old) w u t
    → IsRestored key c s t
unfolding undo_write
IsWritten-IsRestored key revision explanation c s u t a b st account old w e d =
    let (row, here, same) = decision-lookup key t (written st account w none old) d.row in
    record {
      row = row;
      here = here;
      treatment =
          ap (λ (x : Classification). x.treatment) same
          ∙ ap (λ (x : ClassificationWrite). x.treatment) (sym e);
      merchant =
          ap (λ (x : Classification). x.merchant_id) same
          ∙ ap (λ (x : ClassificationWrite). x.merchant_id) (sym e);
      identity =
          ap (λ (x : Classification). x.identity_confirmed) same
          ∙ ap (λ (x : ClassificationWrite). x.identity_confirmed) (sym e);
      by_hand = ap (λ (x : Classification). x.provenance) same;
      allocations =
          ap (rows key) d.allocations
          ∙ rows-insert key u.allocations _
          ∙ ap (λ (x : ClassificationWrite). x.allocations) (sym e);
      links =
          ap (rows key) d.links
          ∙ rows-insert key u.links _
          ∙ ap (λ (x : ClassificationWrite). x.links) (sym e);
      detail_links =
          ap (rows key) d.detail_links
          ∙ rows-insert key u.detail_links _
          ∙ ap (λ (x : ClassificationWrite). x.detail_links) (sym e);
    }

-- The event of a save that found `c`.
before_is_out :
    (key : ℕ) (c : Classification) (s : Store) (old : Option ClassificationOut)
    → lookup key s.classifications ≡ some c
    → out_if key (lookup key s.classifications) s ≡ ok old
    → (a : Bool) × (b : Bool) × (snapshot_of old
        ≡ some (classification_snapshot (out_of key c s a b)))
before_is_out key c s old found e =
    let (out, is_out, e1) = >>=-ok (classification_out key c s) _ (rw (out_if, found) at e) in
    let (a, b, same) = classification_out-out_of key c s is_out in
    (
      a,
      b,
      ap snapshot_of (sym (ok-injective e1))
          ∙ ap (λ x. some (classification_snapshot x)) (sym same),
    )

-- If a correction of a classified transaction and the undo of its audit event both return, the
-- undo has restored what was there before the correction: treatment, merchant, confirmation,
-- allocations, links and details, as a decision by hand. No other transaction's decision has
-- changed on the way.
pub undo_classification-restores :
    (fold : ℕ → Text) (uuid_text : ℕ → String) (key : ℕ) (body : ClassificationWrite)
    (c : Classification) (undo : Undo) (s : Store) {t u : Store}
    → lookup key s.classifications ≡ some c
    → lookup s.next_id s.audits ≡ none
    → save_classification fold key body none "save" s ≡ ok t
    → undo.audit_id ≡ s.next_id
    → undo_classification fold uuid_text key undo t ≡ ok u
    → IsRestored key c s u × ((k : ℕ) → k ≢ key → decision_at k u ≡ decision_at k s)
undo_classification-restores fold uuid_text key body c undo s {t} {u} found new saved same undone =
    let d = save_classification-Decided fold key body none "save" s saved in
    let v = undo_classification-Undone fold uuid_text key undo t undone in
    let (event, there, was) = d.event new in
    let (a, b, is_out) = before_is_out key c s d.before found d.is_before in
    let is_event : v.event ≡ event =
      some-injective _ _ (sym v.audited ∙ ap (λ k. lookup k t.audits) same ∙ there) in
    let before : v.event.before ≡ some (classification_snapshot (out_of key c s a b)) =
      ap (λ (x : Audit). x.before) is_event ∙ was ∙ is_out in
    let text : String = append "undo audit " (uuid_text undo.audit_id) in
    let change = then_kept v.decided.change v.after in
    (
      IsWritten-IsRestored key v.current.revision text c s t u a b v.decided.transaction
          v.decided.account (lookup key t.classifications) v.write
          (ap (undo_write v.current.revision text) (sym before) ∙ v.is_write) change,
      λ k apart. change.others k apart ∙ d.change.others k apart,
    )
