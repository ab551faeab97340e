-- ===== src/Household/Frame.antt =====
-- What learning, reviews and audit events leave alone: the decisions about transactions
-- (src/penge/household/service.py).
use penge.Prelude.{
  ℕ, suc, ◌≤◌, ◌≡◌, ◌≢◌, ◌∙◌, subst, refl, inl, inr, ap, sym, arith, String, false, ◌==◌, ==_iff,
  Bool-cases, Option-cases, >>=-ok, ok-injective, some-injective, List, [], ◌∷◌, ◌++◌, Option, none,
  some, ok,
}
use penge.Prelude.Eq.{nat_eq}
use penge.Prelude.Dict.{lookup-append, Dict, lookup, insert, lookup-insert_ne, lookup-insert_self}
use penge.Household.Labels.{Text}
use penge.Household.Schemas.{
  needs_review, Merchant, Classification, ClassificationOut, Rule, Evidence, active, disabled,
}
use penge.Household.Store.{Store, Audit, Snapshot, rows, rule_snapshot, require, audit}
use penge.Household.Outs.{classification_out, to_review, put_review, mark_for_review}
use penge.Household.Rules.{
  same_state, latest_rule, affected, review_all, Verdict, put_rule, new_rule,
}
use penge.Household.Learn.{
  learn, disable_rule, scan_audits, judge, says, no_evidence, evidence_of, insufficient_verdict,
}
use penge.Household.Splits.Balance.{require-some}

pub apart_of : (j k : ℕ) → (j == k) ≡ false → j ≢ k
apart_of j k h e = cc (sym ((==_iff j k).1 e) ∙ h)

pub rows-insert :
    {V : Type 0} (k : ℕ) (d : Dict ℕ (List V)) (xs : List V) → rows k (insert k xs d) ≡ xs
rows-insert k d xs = rw (rows, lookup-insert_self k xs d) refl

-- The classification but for its review state and revision.
abbrev pub decision_of : Classification → Classification
decision_of c = record c { review_state = needs_review; revision = 0 }

abbrev pub decided : Option Classification → Option Classification
decided none = none
decided (some c) = some (decision_of c)

abbrev pub decision_at : ℕ → Store → Option Classification
decision_at k s = decided (lookup k s.classifications)

-- A record that was written has a revision.
abbrev pub IsNumbered : Store → Type 0
IsNumbered s = (k : ℕ) (c : Classification) → lookup k s.classifications ≡ some c → 1 ≤ c.revision

-- `t` comes from `s` by operations that decide nothing.
pub record Keeps (s t : Store) : Type 0 where
  pub categories : t.categories ≡ s.categories
  pub allocations : t.allocations ≡ s.allocations
  pub links : t.links ≡ s.links
  pub detail_links : t.detail_links ≡ s.detail_links
  pub decisions : (k : ℕ) → decision_at k t ≡ decision_at k s
  pub numbered : IsNumbered s → IsNumbered t
  pub grows : s.next_id ≤ t.next_id
  pub audits :
      (a : ℕ) (event : Audit) → lookup a s.audits ≡ some event → lookup a t.audits ≡ some event

pub Keeps-refl : (s : Store) → Keeps s s
Keeps-refl s = record {
  categories = refl;
  allocations = refl;
  links = refl;
  detail_links = refl;
  decisions = λ k. refl;
  numbered = λ h. h;
  grows = omega arith;
  audits = λ a event h. h;
}

-- An operation on other tables, which may add audit events.
pub Keeps-tables :
    (s t : Store)
    → (t.categories ≡ s.categories)
      × (t.allocations ≡ s.allocations)
      × (t.links ≡ s.links)
      × (t.detail_links ≡ s.detail_links)
      × (t.classifications ≡ s.classifications)
    → s.next_id ≤ t.next_id
    → ((a : ℕ) (event : Audit) → lookup a s.audits ≡ some event → lookup a t.audits ≡ some event)
    → Keeps s t
Keeps-tables s t e grows more = record {
  grows = grows;
  categories = e.0;
  allocations = e.1;
  links = e.2;
  detail_links = e.3;
  decisions = λ k. ap (λ d. decided (lookup k d)) e.4;
  numbered = λ h k c at_k. h k c (ap (λ d. lookup k d) (sym e.4) ∙ at_k);
  audits = more;
}

pub Keeps-trans : {s t u : Store} → Keeps s t → Keeps t u → Keeps s u
Keeps-trans a b = record {
  categories = b.categories ∙ a.categories;
  allocations = b.allocations ∙ a.allocations;
  links = b.links ∙ a.links;
  detail_links = b.detail_links ∙ a.detail_links;
  decisions = λ k. b.decisions k ∙ a.decisions k;
  numbered = λ h. b.numbered (a.numbered h);
  grows = let x = a.grows in let y = b.grows in omega arith;
  audits = λ k event h. b.audits k event (a.audits k event h);
}

pub audit-Keeps :
    (id : ℕ) (action : String) (before : Option Snapshot) (after : Snapshot) (s : Store)
    → Keeps s (audit id action before after s)
unfolding audit
audit-Keeps id action before after s =
    Keeps-tables s (audit id action before after s) (refl, refl, refl, refl, refl) (omega arith)
      (λ a event h. lookup-append a s.audits _ h)

put_review-Keeps :
    (key : ℕ) (c : Classification) (s : Store)
    → lookup key s.classifications ≡ some c
    → Keeps s (put_review key c s)
unfolding put_review
put_review-Keeps key c s found = record {
  categories = refl;
  allocations = refl;
  links = refl;
  detail_links = refl;
  grows = omega arith;
  audits = λ a event h. h;
  decisions = λ k. elim (Bool-cases (k == key)) [
    | inl here ↦
        let e : k ≡ key = (==_iff k key).0 here in
        ap decided (
          ap (λ j. lookup j (insert key (to_review c) s.classifications)) e
          ∙ lookup-insert_self key (to_review c) s.classifications)
        ∙ sym (ap decided (ap (λ j. lookup j s.classifications) e ∙ found))
    | inr there ↦
        ap decided (lookup-insert_ne k key (to_review c) s.classifications (apart_of k key there))
  ];
  numbered = λ h k w at_k. elim (Bool-cases (k == key)) [
    | inl here ↦
        let e : k ≡ key = (==_iff k key).0 here in
        let is_w : to_review c ≡ w = some-injective _ _ (
          sym (lookup-insert_self key (to_review c) s.classifications)
          ∙ ap (λ j. lookup j (insert key (to_review c) s.classifications)) (sym e)
          ∙ at_k) in
        omega (arith, ap (λ (x : Classification). x.revision) is_w)
    | inr there ↦
        h k w (
          sym (lookup-insert_ne k key (to_review c) s.classifications (apart_of k key there))
          ∙ at_k)
  ];
}

pub mark_for_review-Keeps :
    (action : String) (before : ClassificationOut) (key : ℕ) (c : Classification) (s : Store)
    {t : Store}
    → lookup key s.classifications ≡ some c
    → mark_for_review action before key c s ≡ ok t
    → Keeps s t
unfolding mark_for_review
mark_for_review-Keeps action before key c s found e =
    let (after, _, e1) = >>=-ok (classification_out key (to_review c) (put_review key c s)) _ e in
    subst (Keeps s) (ok-injective e1)
      (Keeps-trans (put_review-Keeps key c s found) (audit-Keeps key action _ _ _))

review_all-Keeps : (keys : List ℕ) (s : Store) {t : Store} → review_all keys s ≡ ok t → Keeps s t
unfolding review_all
review_all-Keeps [] s e = subst (Keeps s) (ok-injective e) (Keeps-refl s)
review_all-Keeps (key ∷ keys) s e =
    let (c, found, e1) = >>=-ok (require key s.classifications) _ e in
    let (before, _, e2) = >>=-ok (classification_out key c s) _ e1 in
    let (s1, marked, e3) = >>=-ok (mark_for_review "rule_review" before key c s) _ e2 in
    Keeps-trans
      (mark_for_review-Keeps "rule_review" before key c s (require-some key s.classifications found)
        marked)
      (review_all-Keeps keys s1 e3)

put_rule-Keeps :
    (id : ℕ) (m : Merchant) (v : Verdict) (evidence : List Evidence) (s : Store)
    → Keeps s (put_rule id m v evidence s).1
unfolding put_rule
put_rule-Keeps id m v evidence s =
    let s1 : Store = record s {
      merchants = insert id (record m { rule_version = suc m.rule_version }) s.merchants;
      rules = s.rules ++ (s.next_id, (put_rule id m v evidence s).0) ∷ [];
      next_id = suc s.next_id;
    } in
    Keeps-trans (Keeps-tables s s1 (refl, refl, refl, refl, refl) (omega arith) (λ a event h. h))
      (audit-Keeps s.next_id "version" none (rule_snapshot (put_rule id m v evidence s).0) s1)

pub new_rule-Keeps :
    (id : ℕ) (m : Merchant) (v : Verdict) (evidence : List Evidence) (s : Store) {r : Rule}
    {t : Store}
    → new_rule id m v evidence s ≡ ok (r, t)
    → Keeps s t
unfolding new_rule
new_rule-Keeps id m v evidence s {r} {t} e =
    let p = put_rule-Keeps id m v evidence s in
    elim (Bool-cases (same_state v.state active)) [
      | inl still ↦ subst (λ (x : Rule × Store). Keeps s x.1) (ok-injective (rw still at e)) p
      | inr other ↦
          let (s2, reviewed, e1) =
            >>=-ok
              (review_all (affected id (put_rule id m v evidence s).1.classifications)
                (put_rule id m v evidence s).1)
              _ (rw other at e) in
          subst (λ (x : Rule × Store). Keeps s x.1) (ok-injective e1)
            (Keeps-trans p (review_all-Keeps _ _ reviewed))
    ]

pub learn-Keeps :
    (fold : ℕ → Text) (id : ℕ) (s : Store) {r : Rule} {t : Store}
    → learn fold id s ≡ ok (r, t)
    → Keeps s t
unfolding learn
learn-Keeps fold id s {r} {t} e =
    let (m, found, e1) = >>=-ok (require id s.merchants) _ e in
    let scan = scan_audits fold id s.audits no_evidence in
    let v : Verdict = judge fold m (latest_rule id m s) scan in
    elim (Option-cases (latest_rule id m s)) [
      | inl first ↦ new_rule-Keeps id m v scan.evidence s (rw first at e1)
      | inr (previous, latest) ↦
          let e2 = rw latest at e1 in
          elim (Bool-cases (says previous.1 v scan.evidence)) [
            | inl again ↦
                subst (λ (x : Rule × Store). Keeps s x.1) (ok-injective (rw again at e2))
                  (Keeps-refl s)
            | inr other ↦ new_rule-Keeps id m v scan.evidence s (rw other at e2)
          ]
    ]

pub disable_rule-Keeps :
    (id : ℕ) (explanation : String) (s : Store) {r : Rule} {t : Store}
    → disable_rule id explanation s ≡ ok (r, t)
    → Keeps s t
unfolding disable_rule
disable_rule-Keeps id explanation s e =
    let (m, found, e1) = >>=-ok (require id s.merchants) _ e in
    new_rule-Keeps id m
      (record insufficient_verdict { state = disabled; explanation = explanation })
      (evidence_of (latest_rule id m s)) s e1
