-- ===== src/Household/Protection.antt =====
-- What automatic changes leave alone (src/penge/household/service.py).
use penge.Prelude.{
  ℕ, ◌≡◌, ◌≢◌, ◌∙◌, subst, refl, sym, ap, arith, String, true, Option, some, List, ok,
}
use penge.Prelude.Eq.{nat_eq}
use penge.Prelude.Dict.{lookup, lookup-insert_ne}
use penge.Household.Labels.{Text}
use penge.Household.Schemas.{manual, ClassificationWrite, Classification}
use penge.Household.Store.{Store}
use penge.Household.Frame.{decision_of, decided, decision_at, IsNumbered, Keeps}
use penge.Household.Rules.{is_manual}
use penge.Household.Classifications.{revision_of, is_protected}
use penge.Household.Classifications.Decided.{Decided}
use penge.Household.Classifications.Balanced.{decision-lookup}
use penge.Household.Approval.{apply_preview}
use penge.Household.Sync.{on_bank_sync}
use penge.Household.Evolution.{
  Evolves, Evolves-preserves, ByRule, FirstByRule, apply_preview-Evolves, on_bank_sync-Evolves,
}

-- The decision about a transaction, with its allocations and references, is that of another store.
pub record IsUntouched (k : ℕ) (s t : Store) : Type 0 where
  pub decision : decision_at k t ≡ decision_at k s
  pub allocations : lookup k t.allocations ≡ lookup k s.allocations
  pub links : lookup k t.links ≡ lookup k s.links
  pub detail_links : lookup k t.detail_links ≡ lookup k s.detail_links

IsUntouched-refl : (k : ℕ) (s : Store) → IsUntouched k s s
IsUntouched-refl k s = record {
  decision = refl;
  allocations = refl;
  links = refl;
  detail_links = refl;
}

IsUntouched-trans :
    {k : ℕ} {s t u : Store} → IsUntouched k s t → IsUntouched k t u → IsUntouched k s u
IsUntouched-trans a b = record {
  decision = b.decision ∙ a.decision;
  allocations = b.allocations ∙ a.allocations;
  links = b.links ∙ a.links;
  detail_links = b.detail_links ∙ a.detail_links;
}

Keeps-IsUntouched : (k : ℕ) (s t : Store) → Keeps s t → IsUntouched k s t
Keeps-IsUntouched k s t h = record {
  decision = h.decisions k;
  allocations = ap (lookup k) h.allocations;
  links = ap (lookup k) h.links;
  detail_links = ap (lookup k) h.detail_links;
}

Decided-IsUntouched :
    (k key : ℕ) (body : ClassificationWrite) (rule_id : Option ℕ) (s t : Store)
    → k ≢ key
    → Decided key body rule_id s t
    → IsUntouched k s t
Decided-IsUntouched k key body rule_id s t apart d = record {
  decision = d.change.others k apart;
  allocations =
      ap (lookup k) d.change.allocations
      ∙ lookup-insert_ne k key body.allocations s.allocations apart;
  links = ap (lookup k) d.change.links ∙ lookup-insert_ne k key body.links s.links apart;
  detail_links =
      ap (lookup k) d.change.detail_links
      ∙ lookup-insert_ne k key body.detail_links s.detail_links apart;
}

-- A rule does not save over a decision by hand.
apart_from_manual :
    (k key r : ℕ) (body : ClassificationWrite) (c : Classification) (s t : Store)
    → c.provenance ≡ manual
    → decision_at k s ≡ some (decision_of c)
    → Decided key body (some r) s t
    → k ≢ key
apart_from_manual k key r body c s t by_hand here d same =
    let (b, found, e) = decision-lookup k s c here in
    let at_key : lookup key s.classifications ≡ some b =
      ap (λ j. lookup j s.classifications) (sym same) ∙ found in
    let b_manual : b.provenance ≡ manual = ap (λ (x : Classification). x.provenance) e ∙ by_hand in
    let protected : is_protected (some r) (some b) ≡ true = ap is_manual b_manual in
    cc (sym protected ∙ ap (is_protected (some r)) (sym at_key) ∙ d.open_to_rules)

-- A save that expects no revision finds no decision.
apart_from_numbered :
    (k key : ℕ) (body : ClassificationWrite) (rule_id : Option ℕ) (c : Classification) (s t : Store)
    → IsNumbered s
    → body.expected_revision ≡ 0
    → decision_at k s ≡ some (decision_of c)
    → Decided key body rule_id s t
    → k ≢ key
apart_from_numbered k key body rule_id c s t numbered first here d same =
    let (b, found, e) = decision-lookup k s c here in
    let at_key : lookup key s.classifications ≡ some b =
      ap (λ j. lookup j s.classifications) (sym same) ∙ found in
    let revision : b.revision ≡ 0 = ap revision_of (sym at_key) ∙ d.revision ∙ first in
    let some_revision = numbered key b at_key in omega arith

module _ (k : ℕ) (c : Classification) where
  -- A step leaves a decision by hand alone if it is not the user's own.
  manual-kept :
      (s t : Store)
      → c.provenance ≡ manual
      → decision_at k s ≡ some (decision_of c)
      → Evolves ByRule s t
      → IsUntouched k s t
  manual-kept s t by_hand here steps =
      Evolves-preserves (IsUntouched k s)
        (λ a b kept_ab u. IsUntouched-trans u (Keeps-IsUntouched k a b kept_ab))
        (λ key body rule_id a b allowed d u.
          let by_rule : Decided key body (some allowed.0) a b =
            subst (λ o. Decided key body o a b) allowed.1 d in
          IsUntouched-trans u (
            Decided-IsUntouched k key body rule_id a b
              (apart_from_manual k key allowed.0 body c a b by_hand (u.decision ∙ here) by_rule) d))
        s t steps (IsUntouched-refl k s)

  decision-kept :
      (s t : Store)
      → IsNumbered s
      → decision_at k s ≡ some (decision_of c)
      → Evolves FirstByRule s t
      → IsUntouched k s t
  decision-kept s t numbered here steps =
      let both_hold : IsUntouched k s t × IsNumbered t =
        Evolves-preserves (λ x. IsUntouched k s x × IsNumbered x)
          (λ a b kept_ab u.
            (IsUntouched-trans u.0 (Keeps-IsUntouched k a b kept_ab), kept_ab.numbered u.1))
          (λ key body rule_id a b allowed d u. (
            IsUntouched-trans u.0 (
                Decided-IsUntouched k key body rule_id a b
                  (apart_from_numbered k key body rule_id c a b u.1 allowed.1 (u.0.decision ∙ here)
                    d)
                  d),
            d.change.numbered u.1,
          ))
          s t steps (IsUntouched-refl k s, numbered) in
      both_hold.0

-- Applying a preview never changes a decision that was made by hand.
pub apply_preview-keeps_manual :
    (fold : ℕ → Text) (uuid_text int_text : ℕ → String) (preview_id : ℕ) (s : Store) {t : Store}
    (k : ℕ) (c : Classification)
    → lookup k s.classifications ≡ some c
    → c.provenance ≡ manual
    → apply_preview fold uuid_text int_text preview_id s ≡ ok t
    → IsUntouched k s t
apply_preview-keeps_manual fold uuid_text int_text preview_id s {t} k c found by_hand e =
    manual-kept k c s t by_hand (ap decided found)
      (apply_preview-Evolves fold uuid_text int_text preview_id s e)

-- A bank sync, whatever movements it inserts or changes, never changes a decision that is there:
-- it classifies new movements only, and of the others it changes the review state and revision.
pub on_bank_sync-keeps_decisions :
    (fold : ℕ → Text) (uuid_text int_text : ℕ → String) (inserted changed : List ℕ) (s : Store)
    {n : ℕ} {t : Store} (k : ℕ) (c : Classification)
    → IsNumbered s
    → lookup k s.classifications ≡ some c
    → on_bank_sync fold uuid_text int_text inserted changed s ≡ ok (n, t)
    → IsUntouched k s t
on_bank_sync-keeps_decisions fold uuid_text int_text inserted changed s {n} {t} k c numbered found
      e =
    decision-kept k c s t numbered (ap decided found)
      (on_bank_sync-Evolves fold uuid_text int_text inserted changed s e)
