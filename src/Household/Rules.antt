-- ===== src/Household/Rules.antt =====
-- The rules that src/penge/household/service.py learns from audited corrections. Audit events
-- are read in the order of their creation.
use penge.Prelude.{
  ℕ, suc, String, Bool, true, false, not, ◌&&◌, ◌==◌, List, [], ◌∷◌, ◌++◌, Option, none, some,
  Result, ok, ◌>>=◌, if◌then◌else◌,
}
use penge.Prelude.Eq.{nat_eq}
use penge.Prelude.Dict.{Dict, insert}
use penge.Household.Schemas.{
  Treatment, expense, income, refund, transfer, excluded, unclassified, ReviewState, needs_review,
  IdentityKind, stable, Provenance, manual, by_rule, RuleState, active, conflict, disabled,
  insufficient, Merchant, Classification, Evidence, Rule,
}
use penge.Household.Store.{HouseholdError, Store, rule_snapshot, require, audit}
use penge.Household.Outs.{classification_out, mark_for_review}

-- Numbers of the treatments, to compare them.
abbrev pub treatment_code : Treatment → ℕ
treatment_code expense = 0
treatment_code income = 1
treatment_code refund = 2
treatment_code transfer = 3
treatment_code excluded = 4
treatment_code unclassified = 5

abbrev pub same_treatment : Treatment → Treatment → Bool
same_treatment a b = treatment_code a == treatment_code b

abbrev pub state_code : RuleState → ℕ
state_code active = 0
state_code conflict = 1
state_code disabled = 2
state_code insufficient = 3

abbrev pub same_state : RuleState → RuleState → Bool
same_state a b = state_code a == state_code b

abbrev pub is_manual : Provenance → Bool
is_manual manual = true
is_manual by_rule = false

abbrev pub is_stable : IdentityKind → Bool
is_stable stable = true
is_stable _ = false

abbrev pub is_needs_review : ReviewState → Bool
is_needs_review needs_review = true
is_needs_review _ = false

abbrev pub same_id : Option ℕ → Option ℕ → Bool
same_id none none = true
same_id (some a) (some b) = a == b
same_id _ _ = false

-- The first rule of the merchant with its current version.
abbrev pub latest_in : (merchant_id version : ℕ) → Dict ℕ Rule → Option (ℕ × Rule)
latest_in merchant_id version [] = none
latest_in merchant_id version ((id, r) ∷ rs) =
    if (r.merchant_id == merchant_id) && (r.version == version)
    then some (id, r)
    else latest_in merchant_id version rs

abbrev pub latest_rule : ℕ → Merchant → Store → Option (ℕ × Rule)
latest_rule merchant_id m s = latest_in merchant_id m.rule_version s.rules

-- What is to be reviewed when a rule stops being active.
abbrev pub is_affected : ℕ → Classification → Bool
is_affected merchant_id c =
    same_id c.merchant_id (some merchant_id)
    && not (is_manual c.provenance)
    && not (is_needs_review c.review_state)

abbrev pub affected : ℕ → Dict ℕ Classification → List ℕ
affected merchant_id [] = []
affected merchant_id ((key, c) ∷ d) =
    if is_affected merchant_id c then key ∷ affected merchant_id d else affected merchant_id d

unfoldable pub review_all : List ℕ → Store → Result HouseholdError Store
unfolding mark_for_review classification_out
review_all [] s = ok s
review_all (key ∷ keys) s = do
  c ← require key s.classifications
  before ← classification_out key c s
  s1 ← mark_for_review "rule_review" before key c s
  review_all keys s1

-- What a new rule says; the source's keyword arguments.
pub record Verdict : Type 0 where
  pub state : RuleState
  pub category_id : Option ℕ
  pub treatment : Option Treatment
  pub explanation : String

-- The rule's row and its audit event.
unfoldable pub put_rule : ℕ → Merchant → Verdict → List Evidence → Store → Rule × Store
unfolding insert audit
put_rule merchant_id m v evidence s =
    let r : Rule = record {
      merchant_id = merchant_id;
      version = suc m.rule_version;
      state = v.state;
      category_id = v.category_id;
      treatment = v.treatment;
      explanation = v.explanation;
      evidence = evidence;
    } in
    (
      r,
      audit s.next_id "version" none (rule_snapshot r) (record s {
        merchants = insert merchant_id (record m { rule_version = suc m.rule_version }) s.merchants;
        rules = s.rules ++ (s.next_id, r) ∷ [];
        next_id = suc s.next_id;
      }),
    )

unfoldable pub new_rule :
    ℕ → Merchant → Verdict → List Evidence → Store → Result HouseholdError (Rule × Store)
unfolding put_rule review_all
new_rule merchant_id m v evidence s =
    let (r, s1) = put_rule merchant_id m v evidence s in
    if same_state v.state active
    then ok (r, s1)
    else do s2 ← review_all (affected merchant_id s1.classifications) s1; ok (r, s2)
