-- ===== src/Household/Evolution.antt =====
-- The operations of src/penge/household/service.py as sequences of decisions, with other writes
-- between them that decide nothing.
use penge.Prelude.{
  ℕ, suc, ◌≡◌, subst, refl, arith, String, Bool, true, false, >>=-ok, ok-injective, inl, inr,
  Option-cases, Option, none, some, List, [], ◌∷◌, Result, ok, raise_if,
}
use penge.Prelude.Eq.{nat_eq}
use penge.Prelude.Dict.{lookup, insert}
use penge.Household.Labels.{Text}
use penge.Household.Schemas.{
  ClassificationWrite, Classification, ClassificationOut, Rule, Candidate, Preview,
}
use penge.Household.Store.{
  HouseholdError, preview_applied, Store, preview_snapshot, require, check_revision,
}
use penge.Household.Outs.{classification_out, mark_for_review}
use penge.Household.Learn.{disable_rule}
use penge.Household.Frame.{
  Keeps, Keeps-refl, Keeps-trans, Keeps-tables, audit-Keeps, mark_for_review-Keeps,
  disable_rule-Keeps,
}
use penge.Household.Classifications.{save_classification}
use penge.Household.Classifications.Decided.{Decided, save_classification-Decided}
use penge.Household.Previews.{suggest, eligible_candidate}
use penge.Household.Approval.{
  open_category, rule_write, applied_text, active_category, check_candidates, put_preview,
  apply_candidates, apply_preview,
}
use penge.Household.Sync.{
  disable_for, review_changed, sync_record, sync_changed, sync_all_changed, active_rule,
  inserted_text, assign, assign_by, sync_inserted, sync_all_inserted, on_bank_sync,
}

-- From `s` to another store, with saves only of what is allowed.
pub data Evolves (Allowed : Option ℕ → ClassificationWrite → Type 0) : Store → Store → Type 0 where
  kept : (s t : Store) → Keeps s t → Evolves Allowed s t
  saved :
      (key : ℕ) (body : ClassificationWrite) (rule_id : Option ℕ) (s t : Store)
      → Allowed rule_id body
      → Decided key body rule_id s t
      → Evolves Allowed s t
  both : (s t u : Store) → Evolves Allowed s t → Evolves Allowed t u → Evolves Allowed s u

-- What holds through every step holds at the end.
pub Evolves-preserves :
    {Allowed : Option ℕ → ClassificationWrite → Type 0} (P : Store → Type 0)
    → ((s t : Store) → Keeps s t → P s → P t)
    → ((key : ℕ) (body : ClassificationWrite) (rule_id : Option ℕ) (s t : Store)
        → Allowed rule_id body
        → Decided key body rule_id s t
        → P s
        → P t)
    → (s t : Store) → Evolves Allowed s t
    → P s
    → P t
Evolves-preserves P keep save _ _ (kept s t k) p = keep s t k p
Evolves-preserves P keep save _ _ (saved key body rule_id s t a d) p =
    save key body rule_id s t a d p
Evolves-preserves P keep save _ _ (both s t u a b) p =
    Evolves-preserves P keep save t u b (Evolves-preserves P keep save s t a p)

pub put_preview-Keeps :
    (before : Option Preview) (action : String) (id : ℕ) (p : Preview) (s : Store)
    → Keeps s (put_preview before action id p s)
unfolding put_preview
put_preview-Keeps before action id p s =
    let s1 : Store = record s { previews = insert id p s.previews; next_id = suc s.next_id } in
    Keeps-trans (Keeps-tables s s1 (refl, refl, refl, refl, refl) (omega arith) (λ a event h. h))
      (audit-Keeps id action _ (preview_snapshot p) s1)

-- A save by a rule.
abbrev pub ByRule : Option ℕ → ClassificationWrite → Type 0
ByRule rule_id body = (r : ℕ) × (rule_id ≡ some r)

-- A save by a rule of a movement that has no classification yet.
abbrev pub FirstByRule : Option ℕ → ClassificationWrite → Type 0
FirstByRule rule_id body = ByRule rule_id body × (body.expected_revision ≡ 0)

disable_for-Keeps : (o : Option ℕ) (s : Store) {t : Store} → disable_for o s ≡ ok t → Keeps s t
disable_for-Keeps none s e = subst (Keeps s) (ok-injective e) (Keeps-refl s)
disable_for-Keeps (some id) s e =
    let ((r, s1), gone, e1) =
      >>=-ok (disable_rule id "source movement changed; confirm identity again" s) _ e in
    subst (Keeps s) (ok-injective e1) (disable_rule-Keeps id _ s gone)

review_changed-Keeps :
    (changed : Bool) (key : ℕ) (c : Classification) (out : ClassificationOut) (s : Store) {n : ℕ}
    {t : Store}
    → lookup key s.classifications ≡ some c
    → review_changed changed key c out s ≡ ok (n, t)
    → Keeps s t
unfolding review_changed
review_changed-Keeps false key c out s found e =
    subst (λ (x : ℕ × Store). Keeps s x.1) (ok-injective e) (Keeps-refl s)
review_changed-Keeps true key c out s found e =
    let (s1, marked, e1) = >>=-ok (mark_for_review "source_changed" out key c s) _ e in
    let (s2, off, e2) = >>=-ok (disable_for c.merchant_id s1) _ e1 in
    subst (λ (x : ℕ × Store). Keeps s x.1) (ok-injective e2)
      (Keeps-trans (mark_for_review-Keeps "source_changed" out key c s found marked)
        (disable_for-Keeps c.merchant_id s1 off))

sync_record-Keeps :
    (key : ℕ) (o : Option Classification) (s : Store) {n : ℕ} {t : Store}
    → lookup key s.classifications ≡ o
    → sync_record key o s ≡ ok (n, t)
    → Keeps s t
unfolding sync_record
sync_record-Keeps key none s found e =
    subst (λ (x : ℕ × Store). Keeps s x.1) (ok-injective e) (Keeps-refl s)
sync_record-Keeps key (some c) s found e =
    let (out, _, e1) = >>=-ok (classification_out key c s) _ e in
    review_changed-Keeps out.source_changed key c out s found e1

sync_changed-Keeps :
    (key : ℕ) (s : Store) {n : ℕ} {t : Store} → sync_changed key s ≡ ok (n, t) → Keeps s t
unfolding sync_changed
sync_changed-Keeps key s e = sync_record-Keeps key (lookup key s.classifications) s refl e

pub sync_all_changed-Keeps :
    (keys : List ℕ) (s : Store) {n : ℕ} {t : Store}
    → sync_all_changed keys s ≡ ok (n, t)
    → Keeps s t
unfolding sync_all_changed
sync_all_changed-Keeps [] s e =
    subst (λ (x : ℕ × Store). Keeps s x.1) (ok-injective e) (Keeps-refl s)
sync_all_changed-Keeps (key ∷ keys) s e =
    let ((n, s1), first, e1) = >>=-ok (sync_changed key s) _ e in
    let ((m, s2), rest, e2) = >>=-ok (sync_all_changed keys s1) _ e1 in
    subst (λ (x : ℕ × Store). Keeps s x.1) (ok-injective e2)
      (Keeps-trans (sync_changed-Keeps key s first) (sync_all_changed-Keeps keys s1 rest))

module _ (fold : ℕ → Text) (uuid_text int_text : ℕ → String) where
  unmoved :
      {Allowed : Option ℕ → ClassificationWrite → Type 0} (s : Store) {n : ℕ} {t : Store}
      → Path (Result HouseholdError (ℕ × Store)) (ok (0, s)) (ok (n, t))
      → Evolves Allowed s t
  unmoved {Allowed} s e =
      subst (λ (x : ℕ × Store). Evolves Allowed s x.1) (ok-injective e) (kept s s (Keeps-refl s))

  assign-Evolves :
      (key rule_id : ℕ) (r : Rule) (candidate : Option Candidate) (is_open : Bool) (s : Store)
      {n : ℕ} {t : Store}
      → assign fold uuid_text int_text key rule_id r candidate is_open s ≡ ok (n, t)
      → Evolves FirstByRule s t
  unfolding assign
  assign-Evolves key rule_id r none is_open s e = unmoved s e
  assign-Evolves key rule_id r (some c) false s e = unmoved s e
  assign-Evolves key rule_id r (some c) true s {n} {t} e = elim (Option-cases r.category_id) [
    | inl nothing ↦ unmoved s (rw nothing at e)
    | inr (category_id, there) ↦
        let body : ClassificationWrite =
          rule_write 0 r category_id c.source_amount (inserted_text uuid_text int_text rule_id r) in
        let (s1, put, e1) =
          >>=-ok (save_classification fold key body (some rule_id) "rule_apply" s) _
            (rw there at e) in
        subst (λ (x : ℕ × Store). Evolves FirstByRule s x.1) (ok-injective e1)
          (saved key body (some rule_id) s s1 ((rule_id, refl), refl)
            (save_classification-Decided fold key body (some rule_id) "rule_apply" s put))
  ]

  assign_by-Evolves :
      (key : ℕ) (o : Option ℕ) (s : Store) {n : ℕ} {t : Store}
      → assign_by fold uuid_text int_text key o s ≡ ok (n, t)
      → Evolves FirstByRule s t
  assign_by-Evolves key none s e = unmoved s e
  assign_by-Evolves key (some rule_id) s e =
      let (r, _, e1) = >>=-ok (require rule_id s.rules) _ e in
      let (candidate, _, e2) = >>=-ok (eligible_candidate fold rule_id r key s) _ e1 in
      let (is_open, _, e3) = >>=-ok (open_category r.category_id s) _ e2 in
      assign-Evolves key rule_id r candidate is_open s e3

  sync_inserted-Evolves :
      (key : ℕ) (s : Store) {n : ℕ} {t : Store}
      → sync_inserted fold uuid_text int_text key s ≡ ok (n, t)
      → Evolves FirstByRule s t
  unfolding sync_inserted
  sync_inserted-Evolves key s {n} {t} e =
      let (suggestion, _, e1) = >>=-ok (suggest fold key s) _ e in
      assign_by-Evolves key (active_rule suggestion.rule) s e1

  sync_all_inserted-Evolves :
      (keys : List ℕ) (s : Store) {n : ℕ} {t : Store}
      → sync_all_inserted fold uuid_text int_text keys s ≡ ok (n, t)
      → Evolves FirstByRule s t
  unfolding sync_all_inserted
  sync_all_inserted-Evolves [] s e = unmoved s e
  sync_all_inserted-Evolves (key ∷ keys) s e =
      let ((n, s1), first, e1) = >>=-ok (sync_inserted fold uuid_text int_text key s) _ e in
      let ((m, s2), rest, e2) = >>=-ok (sync_all_inserted fold uuid_text int_text keys s1) _ e1 in
      subst (λ (x : ℕ × Store). Evolves FirstByRule s x.1) (ok-injective e2)
        (both s s1 s2 (sync_inserted-Evolves key s first) (sync_all_inserted-Evolves keys s1 rest))

  pub on_bank_sync-Evolves :
      (inserted changed : List ℕ) (s : Store) {n : ℕ} {t : Store}
      → on_bank_sync fold uuid_text int_text inserted changed s ≡ ok (n, t)
      → Evolves FirstByRule s t
  unfolding on_bank_sync
  on_bank_sync-Evolves inserted changed s e =
      let ((n, s1), first, e1) = >>=-ok (sync_all_changed changed s) _ e in
      let ((m, s2), rest, e2) =
        >>=-ok (sync_all_inserted fold uuid_text int_text inserted s1) _ e1 in
      subst (λ (x : ℕ × Store). Evolves FirstByRule s x.1) (ok-injective e2)
        (both s s1 s2 (kept s s1 (sync_all_changed-Keeps changed s first))
          (sync_all_inserted-Evolves inserted s1 rest))

  pub apply_candidates-Evolves :
      (rule_id : ℕ) (r : Rule) (category_id : ℕ) (cs : List Candidate) (s : Store) {t : Store}
      → apply_candidates fold uuid_text int_text rule_id r category_id cs s ≡ ok t
      → Evolves ByRule s t
  unfolding apply_candidates
  apply_candidates-Evolves rule_id r category_id [] s e =
      subst (Evolves ByRule s) (ok-injective e) (kept s s (Keeps-refl s))
  apply_candidates-Evolves rule_id r category_id (c ∷ cs) s {t} e =
      let body : ClassificationWrite =
        rule_write c.expected_revision r category_id c.source_amount
          (applied_text uuid_text int_text rule_id r) in
      let (s1, put, e1) =
        >>=-ok (save_classification fold c.transaction_id body (some rule_id) "rule_apply" s) _ e in
      both s s1 t
        (saved c.transaction_id body (some rule_id) s s1 (rule_id, refl)
          (save_classification-Decided fold c.transaction_id body (some rule_id) "rule_apply" s
            put))
        (apply_candidates-Evolves rule_id r category_id cs s1 e1)

  pub apply_preview-Evolves :
      (key : ℕ) (s : Store) {t : Store}
      → apply_preview fold uuid_text int_text key s ≡ ok t
      → Evolves ByRule s t
  unfolding apply_preview
  apply_preview-Evolves key s {t} e =
      let (p, _, e1) = >>=-ok (require key s.previews) _ e in
      let (_, _, e2) = >>=-ok (raise_if p.applied preview_applied) _ e1 in
      let (r, _, e3) = >>=-ok (require p.rule_id s.rules) _ e2 in
      let (m, _, e4) = >>=-ok (require r.merchant_id s.merchants) _ e3 in
      let (_, _, e5) = >>=-ok (check_revision m.rule_version r.version) _ e4 in
      let (category_id, _, e6) = >>=-ok (active_category r) _ e5 in
      let (_, _, e7) =
        >>=-ok (check_candidates fold uuid_text int_text p.rule_id r p.candidates s) _ e6 in
      let (s1, applied, e8) =
        >>=-ok (apply_candidates fold uuid_text int_text p.rule_id r category_id p.candidates s) _
          e7 in
      subst (Evolves ByRule s) (ok-injective e8) (
        both s s1 _ (apply_candidates-Evolves p.rule_id r category_id p.candidates s applied)
          (kept s1 _ (put_preview-Keeps (some p) "apply" key (record p { applied = true }) s1)))
