-- ===== src/Household/Classifications/Decided.antt =====
-- What save_classification of src/penge/household/service.py has done when it returns.
use penge.Prelude.{
  ℕ, ◌≤◌, ◌≡◌, ◌≢◌, ◌∙◌, subst, refl, inl, inr, ap, sym, arith, String, false, ◌==◌, ==_iff,
  Bool-cases, >>=-ok, ok-injective, some-injective, [], ◌∷◌, ◌++◌, Option, none, some, ok, raise_if,
}
use penge.Prelude.Eq.{nat_eq}
use penge.Prelude.Dict.{lookup-append, Dict, lookup, insert, lookup-insert_ne, lookup-insert_self}
use penge.Household.Labels.{Text}
use penge.Household.Schemas.{
  SourceTransaction, Account, ClassificationWrite, Classification, ClassificationOut,
}
use penge.Household.Store.{
  manual_protected, Store, Audit, classification_snapshot, check_revision, audit,
}
use penge.Household.Outs.{source, classification_out}
use penge.Household.Learn.{learn}
use penge.Household.Frame.{
  decision_of, decided, decision_at, IsNumbered, Keeps, Keeps-refl, Keeps-trans, apart_of,
  learn-Keeps,
}
use penge.Household.Categories.Forest.{raise_if-ok}
use penge.Household.Splits.{validate_splits}
use penge.Household.Splits.Balance.{IsBalanced, validate_splits-IsBalanced}
use penge.Household.Links.{validate_links}
use penge.Household.Classifications.{
  revision_of, merchant_of, is_protected, written, put_decision, out_if, snapshot_of, put_audited,
  learn_from, other_than, learn_all, save_classification,
}

-- The row `c` stands at `key` with the write's allocations and references; nothing else is decided.
pub record IsWritten (key : ℕ) (c : Classification) (body : ClassificationWrite) (s t : Store)
    : Type 0 where
  pub categories : t.categories ≡ s.categories
  pub allocations : t.allocations ≡ insert key body.allocations s.allocations
  pub links : t.links ≡ insert key body.links s.links
  pub detail_links : t.detail_links ≡ insert key body.detail_links s.detail_links
  pub row : decision_at key t ≡ some (decision_of c)
  pub others : (k : ℕ) → k ≢ key → decision_at k t ≡ decision_at k s
  pub numbered : IsNumbered s → IsNumbered t
  pub grows : s.next_id ≤ t.next_id
  pub audits :
      (a : ℕ) (event : Audit) → lookup a s.audits ≡ some event → lookup a t.audits ≡ some event

pub then_kept :
    {key : ℕ} {c : Classification} {body : ClassificationWrite} {s t u : Store}
    → IsWritten key c body s t
    → Keeps t u
    → IsWritten key c body s u
then_kept w k = record {
  categories = k.categories ∙ w.categories;
  allocations = k.allocations ∙ w.allocations;
  links = k.links ∙ w.links;
  detail_links = k.detail_links ∙ w.detail_links;
  row = k.decisions _ ∙ w.row;
  others = λ j apart. k.decisions j ∙ w.others j apart;
  numbered = λ h. k.numbered (w.numbered h);
  grows = let x = w.grows in let y = k.grows in omega arith;
  audits = λ a event h. k.audits a event (w.audits a event h);
}

put_audited-IsWritten :
    (key : ℕ) (c : Classification) (body : ClassificationWrite) (old : Option ClassificationOut)
    (action : String) (s : Store) {t : Store}
    → 1 ≤ c.revision
    → put_audited key c body old action s ≡ ok t
    → IsWritten key c body s t
unfolding put_audited put_decision audit
put_audited-IsWritten key c body old action s {t} revised e =
    let (after, _, e1) = >>=-ok (classification_out key c (put_decision key c body s)) _ e in
    subst (IsWritten key c body s) (ok-injective e1) (record {
      categories = refl;
      allocations = refl;
      links = refl;
      detail_links = refl;
      grows = omega arith;
      row = ap decided (lookup-insert_self key c s.classifications);
      others = λ k apart. ap decided (lookup-insert_ne k key c s.classifications apart);
      numbered = λ h k w at_k. elim (Bool-cases (k == key)) [
        | inl here ↦
            let same : k ≡ key = (==_iff k key).0 here in
            let is_w : c ≡ w = some-injective _ _ (
              sym (lookup-insert_self key c s.classifications)
              ∙ ap (λ j. lookup j (insert key c s.classifications)) (sym same)
              ∙ at_k) in
            subst (λ (x : Classification). 1 ≤ x.revision) is_w revised
        | inr there ↦
            h k w (sym (lookup-insert_ne k key c s.classifications (apart_of k key there)) ∙ at_k)
      ];
      audits = λ a event h. lookup-append a s.audits _ h;
    })

lookup-append_none :
    {V : Type 0} (k : ℕ) (d : Dict ℕ V) (v : V)
    → lookup k d ≡ none
    → lookup k (d ++ (k, v) ∷ []) ≡ some v
lookup-append_none k [] v h = ground (arith)
lookup-append_none k ((j, w) ∷ d) v h = ground (arith, lookup-append_none k d v)

-- The audit event has the next id, and the out from before.
put_audited-event :
    (key : ℕ) (c : Classification) (body : ClassificationWrite) (old : Option ClassificationOut)
    (action : String) (s : Store) {t : Store}
    → put_audited key c body old action s ≡ ok t
    → lookup s.next_id s.audits ≡ none
    → (event : Audit) × (lookup s.next_id t.audits ≡ some event) × (event.before ≡ snapshot_of old)
unfolding put_audited put_decision audit
put_audited-event key c body old action s {t} e new =
    let (after, _, e1) = >>=-ok (classification_out key c (put_decision key c body s)) _ e in
    let event : Audit = record {
      subject_id = key;
      action = action;
      before = snapshot_of old;
      after = classification_snapshot after;
    } in
    (
      event,
      subst (λ (x : Store). lookup s.next_id x.audits ≡ some event) (ok-injective e1)
          (lookup-append_none s.next_id s.audits event new),
      refl,
    )

module _ (fold : ℕ → Text) where
  learn_from-Keeps : (o : Option ℕ) (s : Store) {t : Store} → learn_from fold o s ≡ ok t → Keeps s t
  learn_from-Keeps none s e = subst (Keeps s) (ok-injective e) (Keeps-refl s)
  learn_from-Keeps (some id) s e =
      let ((r, s1), learned, e1) = >>=-ok (learn fold id s) _ e in
      subst (Keeps s) (ok-injective e1) (learn-Keeps fold id s learned)

  learn_all-Keeps :
      (rule_id old new : Option ℕ) (s : Store) {t : Store}
      → learn_all fold rule_id old new s ≡ ok t
      → Keeps s t
  unfolding learn_all
  learn_all-Keeps (some rule_id) old new s e = subst (Keeps s) (ok-injective e) (Keeps-refl s)
  learn_all-Keeps none old new s e =
      let (s1, first, e1) = >>=-ok (learn_from fold old s) _ e in
      Keeps-trans (learn_from-Keeps old s first) (learn_from-Keeps (other_than old new) s1 e1)

-- `save_classification`, taken apart.
pub record Decided (key : ℕ) (body : ClassificationWrite) (rule_id : Option ℕ) (s t : Store)
    : Type 0 where
  pub transaction : SourceTransaction
  pub account : Account
  pub found : source key s ≡ ok (transaction, account)
  pub revision : revision_of (lookup key s.classifications) ≡ body.expected_revision
  pub open_to_rules : is_protected rule_id (lookup key s.classifications) ≡ false
  pub before : Option ClassificationOut
  pub is_before : out_if key (lookup key s.classifications) s ≡ ok before
  pub event :
      lookup s.next_id s.audits ≡ none
      → (event : Audit) × (lookup s.next_id t.audits ≡ some event)
        × (event.before ≡ snapshot_of before)
  pub balanced : IsBalanced s.categories body.treatment transaction.amount body.allocations
  pub change :
      IsWritten key
        (written transaction account body rule_id (lookup key s.classifications))
        body
        s
        t

check_revision-eq : (a b : ℕ) → check_revision a b ≡ ok tt → a ≡ b
check_revision-eq a b e = elim (Bool-cases (a == b)) [
  | inl same ↦ (==_iff a b).0 same
  | inr differs ↦ absurd (cc (rw (check_revision, differs) at e))
]

pub save_classification-Decided :
    (fold : ℕ → Text) (key : ℕ) (body : ClassificationWrite) (rule_id : Option ℕ) (action : String)
    (s : Store) {t : Store}
    → save_classification fold key body rule_id action s ≡ ok t
    → Decided key body rule_id s t
unfolding save_classification
save_classification-Decided fold key body rule_id action s {t} e =
    let ((st, account), found, e1) = >>=-ok (source key s) _ e in
    let (_, revision, e2) =
      >>=-ok (check_revision (revision_of (lookup key s.classifications)) body.expected_revision) _
        e1 in
    let (old, is_old, e3) = >>=-ok (out_if key (lookup key s.classifications) s) _ e2 in
    let (_, protected, e4) =
      >>=-ok (raise_if (is_protected rule_id (lookup key s.classifications)) manual_protected) _
        e3 in
    let (_, splits, e5) = >>=-ok (validate_splits st account body old s) _ e4 in
    let (_, links, e6) = >>=-ok (validate_links key st body s) _ e5 in
    let (s1, put, learned) =
      >>=-ok
        (put_audited key (written st account body rule_id (lookup key s.classifications)) body old
          action s)
        _ e6 in
    let kept =
      learn_all-Keeps fold rule_id (merchant_of (lookup key s.classifications)) body.merchant_id s1
        learned in
    record {
      transaction = st;
      account = account;
      found = found;
      revision = check_revision-eq _ _ revision;
      open_to_rules = raise_if-ok _ _ protected;
      before = old;
      is_before = is_old;
      event = λ new.
          let (event, there, is_old_event) = put_audited-event key _ body old action s put new in
          (event, kept.audits s.next_id event there, is_old_event);
      balanced = validate_splits-IsBalanced st body old s account splits;
      change = then_kept (put_audited-IsWritten key _ body old action s (omega arith) put) kept;
    }
