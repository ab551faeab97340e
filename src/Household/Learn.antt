-- ===== src/Household/Learn.antt =====
-- `learn`, `disable_rule` and `control_rule` of src/penge/household/service.py.
pub mod Verdicts
pub mod Unanimous
pub mod Active
use penge.Prelude.{
  ℕ, suc, ltb, String, Bool, true, false, not, ◌&&◌, ◌||◌, ◌==◌, List, [], ◌∷◌, ◌++◌, Option, none,
  some, map, length, Result, ok, err, ◌>>=◌, ◌>>◌, raise_if, if◌then◌else◌,
}
use penge.Prelude.Eq.{nat_eq}
use penge.Prelude.Dict.{Dict, lookup}
use penge.Household.Labels.{Text, processor_only_label}
use penge.Household.Schemas.{
  Treatment, expense, income, refund, transfer, excluded, unclassified, RuleState, active, conflict,
  disabled, insufficient, Merchant, Split, Classification, ClassificationOut, Evidence, Rule,
  RuleControl,
}
use penge.Household.Store.{
  HouseholdError, not_current_rule, Store, Audit, Snapshot, category_snapshot, merchant_snapshot,
  alias_snapshot, classification_snapshot, rule_snapshot, preview_snapshot, require, check_revision,
}
use penge.Household.Outs.{str_eq}
use penge.Household.Rules.{
  same_treatment, same_state, is_manual, is_stable, same_id, latest_rule, Verdict, new_rule,
}

-- What the loop over the events has found.
pub record Scan : Type 0 where
  pub evidence : List Evidence
  pub choices : List (ℕ × Treatment)
  pub ambiguous : Bool

-- `choices.add(choice)`
abbrev pub has_choice : ℕ × Treatment → List (ℕ × Treatment) → Bool
has_choice x [] = false
has_choice x (y ∷ ys) = ((x.0 == y.0) && same_treatment x.1 y.1) || has_choice x ys

abbrev pub add_choice : ℕ × Treatment → List (ℕ × Treatment) → List (ℕ × Treatment)
add_choice x ys = if has_choice x ys then ys else x ∷ ys

abbrev pub is_spending : Treatment → Bool
is_spending expense = true
is_spending income = true
is_spending _ = false

-- The event counts: a confirmation by hand, for this merchant.
abbrev pub counts : ℕ → ClassificationOut → Bool
counts merchant_id out =
    is_manual out.base.provenance
    && same_id out.base.merchant_id (some merchant_id)
    && out.base.identity_confirmed

abbrev pub or_empty : Option Text → Text
or_empty none = []
or_empty (some t) = t

abbrev pub no_evidence : Scan
no_evidence = record { evidence = []; choices = []; ambiguous = false }

abbrev pub insufficient_verdict : Verdict
insufficient_verdict = record {
  state = insufficient;
  category_id = none;
  treatment = none;
  explanation = "requires confirmed stable identity and unambiguous human evidence";
}

abbrev pub is_disabled : Option (ℕ × Rule) → Bool
is_disabled none = false
is_disabled (some (id, r)) = same_state r.state disabled

abbrev pub explanation_of : Option (ℕ × Rule) → String
explanation_of none = ""
explanation_of (some (id, r)) = r.explanation

abbrev pub same_evidence : List Evidence → List Evidence → Bool
same_evidence [] [] = true
same_evidence (x ∷ xs) (y ∷ ys) =
    (x.audit_id == y.audit_id)
    && (x.transaction_id == y.transaction_id)
    && (x.revision == y.revision)
    && same_evidence xs ys
same_evidence _ _ = false

abbrev pub same_optional_treatment : Option Treatment → Option Treatment → Bool
same_optional_treatment none none = true
same_optional_treatment (some a) (some b) = same_treatment a b
same_optional_treatment _ _ = false

-- The current rule says the same already.
abbrev pub says : Rule → Verdict → List Evidence → Bool
says r v evidence =
    same_state r.state v.state
    && same_id r.category_id v.category_id
    && same_optional_treatment r.treatment v.treatment
    && same_evidence r.evidence evidence
    && str_eq r.explanation v.explanation

abbrev pub evidence_of : Option (ℕ × Rule) → List Evidence
evidence_of none = []
evidence_of (some (id, r)) = r.evidence

unfoldable pub disable_rule :
    ℕ → (explanation : String) → Store → Result HouseholdError (Rule × Store)
unfolding new_rule
disable_rule merchant_id explanation s = do
  m ← require merchant_id s.merchants
  new_rule merchant_id m
      (record insufficient_verdict { state = disabled; explanation = explanation })
      (evidence_of (latest_rule merchant_id m s)) s

module _ (fold : ℕ → Text) where
  -- One allocation, of an expense or an income whose counterparty is not only a processor.
  unfoldable pub choice : ClassificationOut → Option (ℕ × Treatment)
  unfolding processor_only_label
  choice out = elim out.allocations [
    | x ∷ [] ↦
        if is_spending out.base.treatment
          && not (processor_only_label fold (or_empty out.base.source_counterparty))
        then some (x.category_id, out.base.treatment)
        else none
    | _ ↦ none
  ]

  unfoldable pub scan_event : ℕ → ℕ → ClassificationOut → Scan → Scan
  unfolding choice
  scan_event merchant_id id out scan =
      if counts merchant_id out
      then record {
        evidence =
            scan.evidence
            ++ record {
              audit_id = id;
              transaction_id = out.transaction_id;
              revision = out.base.revision;
            }
              ∷ [];
        choices = elim (choice out) [ none ↦ scan.choices | some x ↦ add_choice x scan.choices ];
        ambiguous = elim (choice out) [ none ↦ true | some _ ↦ scan.ambiguous ];
      }
      else scan

  -- Events of other subjects are not selected.
  unfoldable pub scan_snapshot : ℕ → ℕ → Snapshot → Scan → Scan
  unfolding scan_event
  scan_snapshot merchant_id id after scan = elim after [
    | classification_snapshot out ↦ scan_event merchant_id id out scan
    | _ ↦ scan
  ]

  -- The loop over the events.
  unfoldable pub scan_audits : ℕ → Dict ℕ Audit → Scan → Scan
  unfolding scan_snapshot
  scan_audits merchant_id [] scan = scan
  scan_audits merchant_id ((id, event) ∷ events) scan =
      scan_audits merchant_id events (scan_snapshot merchant_id id event.after scan)

  -- The choice that an active rule takes: there is one, and the merchant is known for sure.
  unfoldable pub active_choice : Merchant → Scan → Option (ℕ × Treatment)
  unfolding processor_only_label
  active_choice m scan =
      if m.confirmed
        && is_stable m.identity_kind
        && not m.archived
        && not (processor_only_label fold m.name)
      then elim scan.choices [ [] ↦ none | x ∷ _ ↦ some x ]
      else none

  -- The state that the evidence supports.
  unfoldable pub judge : Merchant → Option (ℕ × Rule) → Scan → Verdict
  unfolding active_choice
  judge m previous scan =
      if is_disabled previous
      then record insufficient_verdict { state = disabled; explanation = explanation_of previous }
      else if scan.ambiguous || ltb 1 (length scan.choices)
      then record insufficient_verdict {
        state = conflict;
        explanation = "conflicting corrections or mixed/split spending; review required";
      }
      else elim (active_choice m scan) [
        | none ↦ insufficient_verdict
        | some x ↦ record {
          state = active;
          category_id = some x.0;
          treatment = some x.1;
          explanation = "exact confirmed merchant identity; consistent human category evidence";
        }
      ]

  unfoldable pub learn : ℕ → Store → Result HouseholdError (Rule × Store)
  unfolding scan_audits judge new_rule
  learn merchant_id s = do
    m ← require merchant_id s.merchants
    let previous = latest_rule merchant_id m s
    let scan = scan_audits merchant_id s.audits no_evidence
    let v = judge m previous scan
    let fresh = new_rule merchant_id m v scan.evidence s
    elim previous [
      | none ↦ fresh
      | some (id, r) ↦ if says r v scan.evidence then ok (r, s) else fresh
    ]

  -- Both ends of `control_rule`.
  unfoldable pub switch_rule :
      (is_disabled : Bool) → Rule → Merchant → Store → Result HouseholdError (Rule × Store)
  unfolding learn disable_rule new_rule
  switch_rule true r m s = disable_rule r.merchant_id "explicitly disabled by household" s
  switch_rule false r m s = do
    (_, s1) ←
        new_rule r.merchant_id m
          (record insufficient_verdict { explanation = "explicit learning re-evaluation" })
          r.evidence s
    learn r.merchant_id s1

  unfoldable pub control_rule : ℕ → RuleControl → Store → Result HouseholdError (Rule × Store)
  unfolding switch_rule
  control_rule key body s = do
    r ← require key s.rules
    m ← require r.merchant_id s.merchants
    check_revision m.rule_version body.expected_version
    raise_if (not (r.version == m.rule_version)) not_current_rule
    switch_rule body.is_disabled r m s
