-- ===== src/Household/Classifications/Balanced.antt =====
-- Every stored classification conserves its movement (src/penge/household/service.py).
use penge.Prelude.{
  ℕ, ◌≡◌, ◌∙◌, subst, inl, inr, ap, sym, String, ◌==◌, ==_iff, Bool-cases, Option-cases,
  some-injective, List, [], Option, none, some, ok,
}
use penge.Prelude.Eq.{nat_eq}
use penge.Prelude.Dict.{lookup, lookup-insert_ne}
use penge.Household.Labels.{Text}
use penge.Household.Schemas.{Split, ClassificationWrite, Classification, Undo}
use penge.Household.Store.{Store, rows}
use penge.Household.Frame.{rows-insert, decision_of, decided, decision_at, Keeps, apart_of}
use penge.Household.Splits.Balance.{IsBalanced}
use penge.Household.Classifications.{written, save_classification, undo_classification}
use penge.Household.Classifications.Undoing.{undo_classification-Undone}
use penge.Household.Classifications.Decided.{Decided, save_classification-Decided}

-- Of each classification: the allocations to its transaction, against the amount it was made for.
abbrev pub AllBalanced : Store → Type 0
AllBalanced s =
    (k : ℕ) (c : Classification)
    → lookup k s.classifications ≡ some c
    → IsBalanced s.categories c.treatment c.source_amount (rows k s.allocations)

-- Where a decision stands, there is a row with that decision.
pub decision-lookup :
    (k : ℕ) (s : Store) (c : Classification)
    → decision_at k s ≡ some (decision_of c)
    → (b : Classification) × (lookup k s.classifications ≡ some b) × (decision_of b ≡ decision_of c)
decision-lookup k s c e = elim (Option-cases (lookup k s.classifications)) [
  | inl missing ↦ absurd (cc (rw (decision_at, missing) at e))
  | inr (b, found) ↦ (b, found, some-injective _ _ (rw (decision_at, found) at e))
]

-- The invariant sees the decision only.
IsBalanced-by_decision :
    (s : Store) (xs : List Split) (b c : Classification)
    → decision_of b ≡ decision_of c
    → IsBalanced s.categories b.treatment b.source_amount xs
    → IsBalanced s.categories c.treatment c.source_amount xs
IsBalanced-by_decision s xs b c e h =
    subst (λ (d : Classification). IsBalanced s.categories d.treatment d.source_amount xs) e h

rows_at :
    (k : ℕ) (s t : Store)
    → lookup k t.allocations ≡ lookup k s.allocations
    → rows k t.allocations ≡ rows k s.allocations
rows_at k s t e = ap (λ (o : Option (List Split)). elim o [ none ↦ [] | some vs ↦ vs ]) e

-- One transaction's state is taken over from another store.
IsBalanced-from :
    (k : ℕ) (s t : Store)
    → t.categories ≡ s.categories
    → lookup k t.allocations ≡ lookup k s.allocations
    → decision_at k t ≡ decision_at k s
    → AllBalanced s
    → (c : Classification) → lookup k t.classifications ≡ some c
    → IsBalanced t.categories c.treatment c.source_amount (rows k t.allocations)
IsBalanced-from k s t cats allocs same h c at_k =
    let (b, there, e) = decision-lookup k s c (sym same ∙ ap decided at_k) in
    subst (λ d. IsBalanced d c.treatment c.source_amount (rows k t.allocations)) (sym cats)
      (subst (λ xs. IsBalanced s.categories c.treatment c.source_amount xs)
        (sym (rows_at k s t allocs))
        (IsBalanced-by_decision s (rows k s.allocations) b c e (h k b there)))

pub Keeps-AllBalanced : {s t : Store} → Keeps s t → AllBalanced s → AllBalanced t
Keeps-AllBalanced {s} {t} kept h k c at_k =
    IsBalanced-from k s t kept.categories (ap (lookup k) kept.allocations) (kept.decisions k) h c
      at_k

-- The written row against the written allocations.
IsBalanced-at_key :
    (key : ℕ) (body : ClassificationWrite) (rule_id : Option ℕ) (s t : Store)
    → Decided key body rule_id s t
    → (c : Classification) → lookup key t.classifications ≡ some c
    → IsBalanced t.categories c.treatment c.source_amount (rows key t.allocations)
IsBalanced-at_key key body rule_id s t d c at_key =
    let w : Classification =
      written d.transaction d.account body rule_id (lookup key s.classifications) in
    let e : decision_of w ≡ decision_of c =
      some-injective _ _ (sym d.change.row ∙ ap decided at_key) in
    subst (λ cats. IsBalanced cats c.treatment c.source_amount (rows key t.allocations))
      (sym d.change.categories)
      (subst (λ xs. IsBalanced s.categories c.treatment c.source_amount xs)
        (sym (ap (rows key) d.change.allocations ∙ rows-insert key s.allocations body.allocations))
        (IsBalanced-by_decision s body.allocations w c e d.balanced))

pub Decided-AllBalanced :
    (key : ℕ) (body : ClassificationWrite) (rule_id : Option ℕ) (s t : Store)
    → Decided key body rule_id s t
    → AllBalanced s
    → AllBalanced t
Decided-AllBalanced key body rule_id s t d h k c at_k = elim (Bool-cases (k == key)) [
  | inl here ↦
      let e : k ≡ key = (==_iff k key).0 here in
      let at_key : lookup key t.classifications ≡ some c =
        ap (λ j. lookup j t.classifications) (sym e) ∙ at_k in
      subst (λ j. IsBalanced t.categories c.treatment c.source_amount (rows j t.allocations))
        (sym e) (IsBalanced-at_key key body rule_id s t d c at_key)
  | inr there ↦
      IsBalanced-from k s t d.change.categories
        (ap (lookup k) d.change.allocations
          ∙ lookup-insert_ne k key body.allocations s.allocations (apart_of k key there))
        (d.change.others k (apart_of k key there)) h c at_k
]

-- Saving a classification, by hand or by a rule, keeps every classification balanced: the
-- allocations of an expense, income or refund sum to the signed amount of the movement, each of
-- them in whole cents, not zero and of the movement's sign, to distinct categories that are there
-- and of the right type; an expense is a debit, the others are credits; any other treatment has
-- no allocations.
pub save_classification-AllBalanced :
    (fold : ℕ → Text) (key : ℕ) (body : ClassificationWrite) (rule_id : Option ℕ) (action : String)
    (s : Store) {t : Store}
    → AllBalanced s
    → save_classification fold key body rule_id action s ≡ ok t
    → AllBalanced t
save_classification-AllBalanced fold key body rule_id action s {t} h e =
    Decided-AllBalanced key body rule_id s t
      (save_classification-Decided fold key body rule_id action s e) h

-- An undo keeps every classification balanced.
pub undo_classification-AllBalanced :
    (fold : ℕ → Text) (uuid_text : ℕ → String) (key : ℕ) (body : Undo) (s : Store) {t : Store}
    → AllBalanced s
    → undo_classification fold uuid_text key body s ≡ ok t
    → AllBalanced t
undo_classification-AllBalanced fold uuid_text key body s {t} h e =
    let undone = undo_classification-Undone fold uuid_text key body s e in
    Keeps-AllBalanced undone.after
      (Decided-AllBalanced key undone.write none s undone.saved undone.decided h)
