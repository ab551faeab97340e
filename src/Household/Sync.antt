-- ===== src/Household/Sync.antt =====
-- `on_bank_sync` and `invalidate_account_sources` of src/penge/household/service.py.
use Prim.Native.String.{◌++◌ as append}
use penge.Prelude.{
  ℕ, ◌+◌, String, Bool, true, false, not, ◌&&◌, ◌==◌, List, [], ◌∷◌, Option, none, some, Result, ok,
  ◌>>=◌, if◌then◌else◌,
}
use penge.Prelude.Eq.{nat_eq}
use penge.Prelude.Dict.{Dict, lookup}
use penge.Household.Labels.{Text}
use penge.Household.Schemas.{
  active, SourceTransaction, Classification, ClassificationOut, Rule, Candidate,
}
use penge.Household.Store.{HouseholdError, Store, require}
use penge.Household.Outs.{classification_out, mark_for_review}
use penge.Household.Rules.{same_state, is_needs_review}
use penge.Household.Learn.{disable_rule}
use penge.Household.Classifications.{save_classification}
use penge.Household.Previews.{suggest, eligible_candidate}
use penge.Household.Approval.{open_category, rule_write}

-- The rule of the record's merchant.
abbrev pub disable_for : Option ℕ → Store → Result HouseholdError Store
disable_for none s = ok s
disable_for (some merchant_id) s =
    disable_rule merchant_id "source movement changed; confirm identity again" s >>= λ x. ok x.1

-- A movement whose facts differ from those of the record: one write, else none.
unfoldable pub review_changed :
    (source_changed : Bool)
    → ℕ
    → Classification
    → ClassificationOut
    → Store
    → Result HouseholdError (ℕ × Store)
unfolding mark_for_review disable_rule
review_changed false key c out s = ok (0, s)
review_changed true key c out s = do
  s1 ← mark_for_review "source_changed" out key c s
  s2 ← disable_for c.merchant_id s1
  ok (1, s2)

unfoldable pub sync_record : ℕ → Option Classification → Store → Result HouseholdError (ℕ × Store)
unfolding classification_out review_changed
sync_record key none s = ok (0, s)
sync_record key (some c) s = do
  out ← classification_out key c s
  review_changed out.source_changed key c out s

-- One turn of the loop over the changed movements.
unfoldable pub sync_changed : ℕ → Store → Result HouseholdError (ℕ × Store)
unfolding sync_record
sync_changed key s = sync_record key (lookup key s.classifications) s

unfoldable pub sync_all_changed : List ℕ → Store → Result HouseholdError (ℕ × Store)
unfolding sync_changed
sync_all_changed [] s = ok (0, s)
sync_all_changed (key ∷ keys) s = do
  (n, s1) ← sync_changed key s
  (m, s2) ← sync_all_changed keys s1
  ok (n + m, s2)

-- The active rule that is suggested.
abbrev pub active_rule : Option (ℕ × Rule) → Option ℕ
active_rule none = none
active_rule (some (id, r)) = if same_state r.state active then some id else none

abbrev pub inserted_text : (uuid_text int_text : ℕ → String) → ℕ → Rule → String
inserted_text uuid_text int_text rule_id r =
    append (append (append "new source movement: rule " (uuid_text rule_id)) " version ")
      (int_text r.version)

module _ (fold : ℕ → Text) (uuid_text int_text : ℕ → String) where
  -- The save for a candidate, if the rule's category can be used.
  unfoldable pub assign :
      ℕ → ℕ → Rule → Option Candidate → (is_open : Bool) → Store → Result HouseholdError (ℕ × Store)
  unfolding save_classification
  assign key rule_id r (some c) true s = elim r.category_id [
    | none ↦ ok (0, s)
    | some category_id ↦
        save_classification fold key
          (rule_write 0 r category_id c.source_amount (inserted_text uuid_text int_text rule_id r))
          (some rule_id) "rule_apply" s
        >>= λ s1. ok (1, s1)
  ]
  assign key rule_id r _ _ s = ok (0, s)

  abbrev pub assign_by : ℕ → Option ℕ → Store → Result HouseholdError (ℕ × Store)
  assign_by key none s = ok (0, s)
  assign_by key (some rule_id) s = do
    r ← require rule_id s.rules
    candidate ← eligible_candidate fold rule_id r key s
    is_open ← open_category r.category_id s
    assign key rule_id r candidate is_open s

  -- One turn of the loop over the inserted movements.
  unfoldable pub sync_inserted : ℕ → Store → Result HouseholdError (ℕ × Store)
  unfolding suggest eligible_candidate assign
  sync_inserted key s = do
    suggestion ← suggest fold key s
    assign_by key (active_rule suggestion.rule) s

  unfoldable pub sync_all_inserted : List ℕ → Store → Result HouseholdError (ℕ × Store)
  unfolding sync_inserted
  sync_all_inserted [] s = ok (0, s)
  sync_all_inserted (key ∷ keys) s = do
    (n, s1) ← sync_inserted key s
    (m, s2) ← sync_all_inserted keys s1
    ok (n + m, s2)

  unfoldable pub on_bank_sync :
      (inserted_ids changed_ids : List ℕ) → Store → Result HouseholdError (ℕ × Store)
  unfolding sync_all_changed sync_all_inserted
  on_bank_sync inserted_ids changed_ids s = do
    (n, s1) ← sync_all_changed changed_ids s
    (m, s2) ← sync_all_inserted inserted_ids s1
    ok (n + m, s2)

-- The account's classified movements that are not to be reviewed already.
abbrev pub is_of_account : ℕ → Option SourceTransaction → Classification → Bool
is_of_account account_id none c = false
is_of_account account_id (some t) c =
    (t.account_id == account_id) && not (is_needs_review c.review_state)

abbrev pub ids_of_account : ℕ → Dict ℕ SourceTransaction → Dict ℕ Classification → List ℕ
ids_of_account account_id ts [] = []
ids_of_account account_id ts ((key, c) ∷ d) =
    if is_of_account account_id (lookup key ts) c
    then key ∷ ids_of_account account_id ts d
    else ids_of_account account_id ts d

-- One `on_bank_sync` for each of them, which has no inserted movement.
unfoldable pub invalidate_account_sources : ℕ → Store → Result HouseholdError (ℕ × Store)
unfolding sync_all_changed
invalidate_account_sources account_id s =
    sync_all_changed (ids_of_account account_id s.transactions s.classifications) s
