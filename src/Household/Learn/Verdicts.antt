-- ===== src/Household/Learn/Verdicts.antt =====
-- The rule that `learn` of src/penge/household/service.py returns says what the evidence supports.
use penge.Prelude.{
  ℕ, ◌≡◌, subst, refl, inl, inr, arith, true, Bool-cases, Option-cases, >>=-ok, ok-injective, List,
  Option, some, ok,
}
use penge.Prelude.Dict.{lookup}
use penge.Prelude.Eq.{nat_eq}
use penge.Household.Labels.{Text}
use penge.Household.Schemas.{Treatment, RuleState, active, Merchant, Rule, Evidence}
use penge.Household.Store.{Store, require}
use penge.Household.Rules.{
  same_treatment, same_state, same_id, affected, review_all, latest_rule, Verdict, put_rule,
  new_rule,
}
use penge.Household.Learn.{no_evidence, scan_audits, judge, says, same_optional_treatment, learn}
use penge.Household.Splits.Balance.{require-some}

-- The rule and the verdict say the same.
pub record Says (r : Rule) (v : Verdict) : Type 0 where
  pub state : r.state ≡ v.state
  pub category : r.category_id ≡ v.category_id
  pub treatment : r.treatment ≡ v.treatment

new_rule-Says :
    (id : ℕ) (m : Merchant) (v : Verdict) (evidence : List Evidence) (s : Store) {r : Rule}
    {t : Store}
    → new_rule id m v evidence s ≡ ok (r, t)
    → Says r v
unfolding new_rule put_rule
new_rule-Says id m v evidence s {r} {t} e = elim (Bool-cases (same_state v.state active)) [
  | inl still ↦
      subst (λ (x : Rule × Store). Says x.0 v) (ok-injective (rw still at e))
        (record { state = refl; category = refl; treatment = refl })
  | inr other ↦
      let (s2, reviewed, e1) =
        >>=-ok
          (review_all (affected id (put_rule id m v evidence s).1.classifications)
            (put_rule id m v evidence s).1)
          _ (rw other at e) in
      subst (λ (x : Rule × Store). Says x.0 v) (ok-injective e1)
        (record { state = refl; category = refl; treatment = refl })
]

same_state_eq : (a b : RuleState) → same_state a b ≡ true → a ≡ b
same_state_eq a b h = ground arith

same_treatment_eq : (a b : Treatment) → same_treatment a b ≡ true → a ≡ b
same_treatment_eq a b h = ground arith

same_id_eq : (a b : Option ℕ) → same_id a b ≡ true → a ≡ b
same_id_eq a b h = ground arith

same_optional_treatment_eq : (a b : Option Treatment) → same_optional_treatment a b ≡ true → a ≡ b
same_optional_treatment_eq a b h = ground arith

says-Says :
    (r : Rule) (v : Verdict) (evidence : List Evidence) → says r v evidence ≡ true → Says r v
says-Says r v evidence h = record {
  state = same_state_eq _ _ (ground arith);
  category = same_id_eq _ _ (ground arith);
  treatment = same_optional_treatment_eq _ _ (ground arith);
}

-- The verdict that `learn` comes to.
abbrev pub learned : (ℕ → Text) → ℕ → Merchant → Store → Verdict
learned fold id m s = judge fold m (latest_rule id m s) (scan_audits fold id s.audits no_evidence)

pub learn-Says :
    (fold : ℕ → Text) (id : ℕ) (s : Store) {r : Rule} {t : Store}
    → learn fold id s ≡ ok (r, t)
    → (m : Merchant) × (lookup id s.merchants ≡ some m) × Says r (learned fold id m s)
unfolding learn
learn-Says fold id s {r} {t} e =
    let (m, found, e1) = >>=-ok (require id s.merchants) _ e in
    let scan = scan_audits fold id s.audits no_evidence in
    let v : Verdict = learned fold id m s in
    let is_v : Says r v = elim (Option-cases (latest_rule id m s)) [
      | inl first ↦ new_rule-Says id m v scan.evidence s (rw first at e1)
      | inr (previous, latest) ↦
          let e2 = rw latest at e1 in
          elim (Bool-cases (says previous.1 v scan.evidence)) [
            | inl again ↦
                subst (λ (x : Rule × Store). Says x.0 v) (ok-injective (rw again at e2))
                  (says-Says previous.1 v scan.evidence again)
            | inr other ↦ new_rule-Says id m v scan.evidence s (rw other at e2)
          ]
    ] in
    (m, require-some id s.merchants found, is_v)
