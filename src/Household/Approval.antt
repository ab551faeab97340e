-- ===== src/Household/Approval.antt =====
-- `preview_rule` and `apply_preview` of src/penge/household/service.py.
use Prim.Native.String.{◌++◌ as append}
use penge.Prelude.{
  ℕ, zero, suc, ltb, String, Bool, true, false, not, ◌&&◌, ◌||◌, ◌==◌, List, [], ◌∷◌, map, Option,
  none, some, Result, ok, err, ◌>>=◌, ◌>>◌, raise_if, if◌then◌else◌,
}
use penge.Prelude.Eq.{nat_eq}
use penge.Prelude.Int.{ℤ, eqb_ℤ}
use penge.Prelude.Dict.{Dict, insert}
use penge.Household.Labels.{Text, text_eq}
use penge.Household.Schemas.{
  Treatment, expense, income, active, SourceTransaction, ClassificationWrite, Rule, Candidate,
  Preview,
}
use penge.Household.Store.{
  HouseholdError, preview_requires_active, preview_applied, rule_not_active, preview_stale, Store,
  preview_snapshot, require, check_revision, audit,
}
use penge.Household.Outs.{str_eq, optional_text_eq}
use penge.Household.Rules.{same_id, same_state}
use penge.Household.Classifications.{save_classification}
use penge.Household.Previews.{is_expense_rule, eligible_candidate}

-- order_by(ts, id)
abbrev pub comes_before : ℕ × SourceTransaction → ℕ × SourceTransaction → Bool
comes_before (a, t) (b, u) = ltb t.ts u.ts || ((t.ts == u.ts) && ltb a b)

abbrev pub put_in_order :
    ℕ × SourceTransaction → List (ℕ × SourceTransaction) → List (ℕ × SourceTransaction)
put_in_order x [] = x ∷ []
put_in_order x (y ∷ ys) = if comes_before y x then y ∷ put_in_order x ys else x ∷ y ∷ ys

unfoldable pub in_order : Dict ℕ SourceTransaction → List (ℕ × SourceTransaction)
in_order [] = []
in_order (x ∷ xs) = put_in_order x (in_order xs)

abbrev pub keys_of : List (ℕ × SourceTransaction) → List ℕ
keys_of = map (λ (x : ℕ × SourceTransaction). x.0)

-- .limit(n) and .offset(n)
abbrev pub take : ℕ → List ℕ → List ℕ
take zero xs = []
take (suc n) [] = []
take (suc n) (x ∷ xs) = x ∷ take n xs

abbrev pub drop : ℕ → List ℕ → List ℕ
drop zero xs = xs
drop (suc n) [] = []
drop (suc n) (x ∷ xs) = drop n xs

-- `category and not category.archived`, where the rule's category is read.
abbrev pub open_category : Option ℕ → Store → Result HouseholdError Bool
open_category none s = ok false
open_category (some id) s = do c ← require id s.categories; ok (not c.archived)

abbrev pub some_onto : Option Candidate → List Candidate → List Candidate
some_onto none cs = cs
some_onto (some c) cs = c ∷ cs

-- `current != candidate`
abbrev pub same_candidate : Candidate → Candidate → Bool
same_candidate a b =
    (a.transaction_id == b.transaction_id)
    && (a.expected_revision == b.expected_revision)
    && eqb_ℤ a.source_amount b.source_amount
    && str_eq a.source_currency b.source_currency
    && (a.source_ts == b.source_ts)
    && str_eq a.source_kind b.source_kind
    && optional_text_eq a.source_counterparty b.source_counterparty
    && text_eq a.provider b.provider
    && text_eq a.normalized_counterparty b.normalized_counterparty
    && same_id a.alias_id b.alias_id
    && same_id a.alias_revision b.alias_revision

-- "expense" if the rule says so, else "income".
abbrev pub rule_treatment : Rule → Treatment
rule_treatment r = if is_expense_rule r then expense else income

-- A write that a rule makes for the whole amount of a movement.
abbrev pub rule_write :
    (revision : ℕ) → Rule → (category_id : ℕ) → ℤ → (explanation : String) → ClassificationWrite
rule_write revision r category_id amount explanation = record {
  expected_revision = revision;
  treatment = rule_treatment r;
  merchant_id = some r.merchant_id;
  identity_confirmed = false;
  allocations = record { category_id = category_id; amount = amount } ∷ [];
  links = [];
  detail_links = [];
  explanation = explanation;
}

unfoldable pub put_preview : Option Preview → (action : String) → ℕ → Preview → Store → Store
unfolding insert audit
put_preview before action id p s =
    audit id action (elim before [ none ↦ none | some q ↦ some (preview_snapshot q) ])
      (preview_snapshot p) (record s { previews = insert id p s.previews; next_id = suc s.next_id })

abbrev pub applied_text : (uuid_text int_text : ℕ → String) → ℕ → Rule → String
applied_text uuid_text int_text rule_id r =
    append
      (append
        (append (append (append "rule " (uuid_text rule_id)) " version ") (int_text r.version))
        ": ")
      r.explanation

-- `rule.state != "active" or rule.category_id is None`
abbrev pub active_category : Rule → Result HouseholdError ℕ
active_category r = elim r.category_id [
  | none ↦ err rule_not_active
  | some id ↦ if same_state r.state active then ok id else err rule_not_active
]

module _ (fold : ℕ → Text) (uuid_text int_text : ℕ → String) where
  unfoldable pub candidates : ℕ → Rule → List ℕ → Store → Result HouseholdError (List Candidate)
  unfolding eligible_candidate
  candidates rule_id r [] s = ok []
  candidates rule_id r (key ∷ keys) s = do
    c ← eligible_candidate fold rule_id r key s
    cs ← candidates rule_id r keys s
    ok (some_onto c cs)

  unfoldable pub preview_rule : ℕ → (limit offset : ℕ) → Store → Result HouseholdError (ℕ × Store)
  unfolding candidates in_order put_preview
  preview_rule key limit offset s = do
    r ← require key s.rules
    m ← require r.merchant_id s.merchants
    is_open ← open_category r.category_id s
    raise_if (not (same_state r.state active) || not (r.version == m.rule_version) || not is_open)
        preview_requires_active
    cs ← candidates key r (take limit (drop offset (keys_of (in_order s.transactions)))) s
    ok (
      s.next_id,
      put_preview none "preview" s.next_id
          (record { rule_id = key; candidates = cs; applied = false }) s,
    )

  -- Each candidate is still the same.
  unfoldable pub check_candidates : ℕ → Rule → List Candidate → Store → Result HouseholdError Unit
  unfolding eligible_candidate
  check_candidates rule_id r [] s = ok tt
  check_candidates rule_id r (c ∷ cs) s = do
    current ← eligible_candidate fold rule_id r c.transaction_id s
    raise_if (elim current [ none ↦ true | some d ↦ not (same_candidate d c) ]) preview_stale
    check_candidates rule_id r cs s

  unfoldable pub apply_candidates :
      ℕ → Rule → (category_id : ℕ) → List Candidate → Store → Result HouseholdError Store
  unfolding save_classification
  apply_candidates rule_id r category_id [] s = ok s
  apply_candidates rule_id r category_id (c ∷ cs) s = do
    s1 ←
        save_classification fold c.transaction_id
          (rule_write c.expected_revision r category_id c.source_amount
            (applied_text uuid_text int_text rule_id r))
          (some rule_id) "rule_apply" s
    apply_candidates rule_id r category_id cs s1

  unfoldable pub apply_preview : ℕ → Store → Result HouseholdError Store
  unfolding check_candidates apply_candidates put_preview
  apply_preview key s = do
    p ← require key s.previews
    raise_if p.applied preview_applied
    r ← require p.rule_id s.rules
    m ← require r.merchant_id s.merchants
    check_revision m.rule_version r.version
    category_id ← active_category r
    check_candidates p.rule_id r p.candidates s
    s1 ← apply_candidates p.rule_id r category_id p.candidates s
    ok (put_preview (some p) "apply" key (record p { applied = true }) s1)
