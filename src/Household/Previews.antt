-- ===== src/Household/Previews.antt =====
-- `suggest`, `eligible_candidate`, `preview_rule` and `apply_preview` of
-- src/penge/household/service.py. `str` of a UUID and of a number are parameters.
use penge.Prelude.{
  ℕ, Bool, true, false, not, ◌&&◌, ◌||◌, ◌==◌, List, [], ◌∷◌, Option, none, some, Result, ok, ◌>>=◌,
  if◌then◌else◌,
}
use penge.Prelude.Eq.{nat_eq}
use penge.Prelude.Dict.{lookup}
use penge.Household.Labels.{Text, normalize_label}
use penge.Household.Schemas.{
  expense, Merchant, Alias, Account, SourceTransaction, Classification, Rule, Candidate,
}
use penge.Household.Store.{HouseholdError, Store, require, rows}
use penge.Household.Outs.{source}
use penge.Household.Rules.{is_manual, same_id, same_treatment, latest_rule}
use penge.Household.Learn.{or_empty}
use penge.Household.Splits.{is_bank, is_supported, is_zero, is_negative, is_cents, differ}
use penge.Household.Merchants.{find_alias}
use penge.Household.Classifications.{revision_of}

-- The fields of Suggestion that the service itself reads.
pub record Suggestion : Type 0 where
  pub merchant_id : Option ℕ
  pub rule : Option (ℕ × Rule)

-- `alias.confirmed and merchant`
abbrev pub rule_for : (confirmed : Bool) → ℕ → Merchant → Store → Option (ℕ × Rule)
rule_for confirmed merchant_id m s = if confirmed then latest_rule merchant_id m s else none

abbrev pub suggest_by : Option (ℕ × Alias) → Store → Result HouseholdError Suggestion
suggest_by none s = ok (record { merchant_id = none; rule = none })
suggest_by (some (id, a)) s = do
  m ← require a.merchant_id s.merchants
  ok (record { merchant_id = some a.merchant_id; rule = rule_for a.confirmed a.merchant_id m s })

abbrev pub is_expense_rule : Rule → Bool
is_expense_rule r = elim r.treatment [ none ↦ false | some t ↦ same_treatment t expense ]

-- A record that a rule may not touch: a decision by hand, or its own.
abbrev pub is_settled : ℕ → Option Classification → Bool
is_settled rule_id none = false
is_settled rule_id (some c) = is_manual c.provenance || same_id c.rule_id (some rule_id)

abbrev pub is_some : {A : Type 0} → Option A → Bool
is_some none = false
is_some (some a) = true

abbrev pub has_rows : {A : Type 0} → List A → Bool
has_rows [] = false
has_rows (x ∷ xs) = true

abbrev pub has_references : ℕ → Store → Bool
has_references key s =
    is_some (lookup key s.classifications)
    && (has_rows (rows key s.links) || has_rows (rows key s.detail_links))

-- The movement does not suit the rule.
abbrev pub unsuitable : Rule → SourceTransaction → Bool
unsuitable r t =
    is_zero t.amount || differ (is_expense_rule r) (is_negative t.amount) || not (is_cents t.amount)

abbrev pub alias_id_of : Option (ℕ × Alias) → Option ℕ
alias_id_of none = none
alias_id_of (some (id, a)) = some id

abbrev pub alias_revision_of : Option (ℕ × Alias) → Option ℕ
alias_revision_of none = none
alias_revision_of (some (id, a)) = some a.revision

-- The suggestion is another rule, or none.
abbrev pub other_rule : ℕ → Suggestion → Bool
other_rule rule_id suggestion = elim suggestion.rule [
  | none ↦ true
  | some (id, r) ↦ not (id == rule_id)
]

module _ (fold : ℕ → Text) where
  abbrev pub alias_of : SourceTransaction → Account → Store → Option (ℕ × Alias)
  alias_of t account s =
      find_alias account.provider (normalize_label fold (or_empty t.counterparty)) s.aliases

  unfoldable pub suggest : ℕ → Store → Result HouseholdError Suggestion
  unfolding normalize_label
  suggest key s = do (t, account) ← source key s; suggest_by (alias_of t account s) s

  -- The candidate for a movement whose account, record and alias are known.
  abbrev pub candidate_of : ℕ → SourceTransaction → Account → Store → Candidate
  candidate_of key t account s = record {
    transaction_id = key;
    expected_revision = revision_of (lookup key s.classifications);
    source_amount = t.amount;
    source_currency = account.currency;
    source_ts = t.ts;
    source_kind = t.kind;
    source_counterparty = t.counterparty;
    provider = account.provider;
    normalized_counterparty = normalize_label fold (or_empty t.counterparty);
    alias_id = alias_id_of (alias_of t account s);
    alias_revision = alias_revision_of (alias_of t account s);
  }

  -- The guards before the suggestion.
  abbrev pub ineligible : ℕ → Rule → ℕ → SourceTransaction → Account → Store → Bool
  ineligible rule_id r key t account s =
      not (is_bank account.provider)
      || not (is_supported account.currency)
      || is_settled rule_id (lookup key s.classifications)
      || has_references key s
      || unsuitable r t

  unfoldable pub eligible_candidate :
      ℕ → Rule → ℕ → Store → Result HouseholdError (Option Candidate)
  unfolding suggest normalize_label
  eligible_candidate rule_id r key s = do
    (t, account) ← source key s
    let suggested = suggest key s >>= λ suggestion.
        ok (if other_rule rule_id suggestion then none else some (candidate_of key t account s))
    if ineligible rule_id r key t account s then ok none else suggested
