-- ===== src/Household/Learn/Active.antt =====
-- Which rules `learn` of src/penge/household/service.py makes active, and which it leaves disabled.
use penge.Prelude.{
  ℕ, ltb, ◌≡◌, ◌∙◌, refl, inl, inr, ap, sym, arith, true, false, not, ◌&&◌, ◌||◌, Bool-cases,
  Option-cases, List-cases, List, [], ◌∷◌, All, Option, some, some-injective, length, All-mono, ok,
}
use penge.Prelude.Dict.{lookup}
use penge.Prelude.Eq.{nat_eq}
use penge.Household.Labels.{Text, processor_only_label}
use penge.Household.Schemas.{
  Treatment, IdentityKind, stable, active, disabled, Merchant, ClassificationOut, Rule,
}
use penge.Household.Store.{Store, Audit, classification_snapshot}
use penge.Household.Rules.{is_stable, latest_rule, Verdict}
use penge.Household.Learn.{
  Scan, has_choice, counts, choice, scan_audits, no_evidence, is_disabled, active_choice, judge,
  learn,
}
use penge.Household.Learn.Verdicts.{learn-Says}
use penge.Household.Learn.Unanimous.{CoveredBy, scan_audits-All}

-- The merchant is known for sure.
pub record IsSure (fold : ℕ → Text) (m : Merchant) : Type 0 where
  pub confirmed : m.confirmed ≡ true
  pub stable_identity : m.identity_kind ≡ stable
  pub unarchived : m.archived ≡ false
  pub own_name : processor_only_label fold m.name ≡ false

record IsSupported (fold : ℕ → Text) (m : Merchant) (scan : Scan) (v : Verdict) : Type 0 where
  sure : IsSure fold m
  x : ℕ × Treatment
  only : scan.choices ≡ x ∷ []
  unmixed : scan.ambiguous ≡ false
  category : v.category_id ≡ some x.0
  treatment : v.treatment ≡ some x.1

is_stable_eq : (k : IdentityKind) → is_stable k ≡ true → k ≡ stable
is_stable_eq k h = ground arith

not_many : {A : Type 0} (x : A) (ys : List A) → ltb 1 (length (x ∷ ys)) ≡ false → ys ≡ []
not_many x [] h = refl
not_many x (y ∷ ys) h = absurd (ground arith)

module _ (fold : ℕ → Text) (m : Merchant) where
  active_choice-some :
      (scan : Scan) (x : ℕ × Treatment)
      → active_choice fold m scan ≡ some x
      → IsSure fold m × ((ys : List (ℕ × Treatment)) × (scan.choices ≡ x ∷ ys))
  unfolding active_choice
  active_choice-some scan x e =
      elim (Bool-cases (
        m.confirmed
        && is_stable m.identity_kind
        && not m.archived
        && not (processor_only_label fold m.name))) [
          | inr unsure ↦ absurd (cc (rw unsure at e))
          | inl sure ↦ elim (List-cases scan.choices) [
            | inl nothing ↦ absurd (cc (rw (sure, nothing) at e))
            | inr (y, ys, there) ↦ (
              record {
                confirmed = ground arith;
                stable_identity = is_stable_eq _ (ground arith);
                unarchived = ground arith;
                own_name = ground arith;
              },
              (ys, there ∙ ap (λ z. z ∷ ys) (some-injective _ _ (rw (sure, there) at e))),
            )
          ]
        ]

  judge-IsSupported :
      (o : Option (ℕ × Rule)) (scan : Scan)
      → (judge fold m o scan).state ≡ active
      → IsSupported fold m scan (judge fold m o scan)
  unfolding judge
  judge-IsSupported o scan e = elim (Bool-cases (is_disabled o)) [
    | inl off ↦ absurd (cc (rw off at e))
    | inr on ↦ elim (Bool-cases (scan.ambiguous || ltb 1 (length scan.choices))) [
      | inl many ↦ absurd (cc (rw (on, many) at e))
      | inr one ↦ elim (Option-cases (active_choice fold m scan)) [
        | inl nothing ↦ absurd (cc (rw (on, one, nothing) at e))
        | inr (x, chosen) ↦
            let (sure, (ys, there)) = active_choice-some scan x chosen in
            let none_left : ys ≡ [] =
              not_many x ys (ap (λ zs. ltb 1 (length zs)) (sym there) ∙ ground arith) in
            record {
              sure = sure;
              x = x;
              only = there ∙ ap (λ zs. x ∷ zs) none_left;
              unmixed = ground arith;
              category = rw (on, one, chosen) refl;
              treatment = rw (on, one, chosen) refl;
            }
      ]
    ]
  ]

  judge_disabled :
      (o : Option (ℕ × Rule)) (scan : Scan)
      → is_disabled o ≡ true
      → (judge fold m o scan).state ≡ disabled
  unfolding judge
  judge_disabled o scan off = rw off refl

-- Two choices of a set with one element.
has_choice_one : (x y : ℕ × Treatment) → has_choice x (y ∷ []) ≡ true → x ≡ y
has_choice_one (a, t) (b, u) h = ground arith

CoveredBy-one :
    (fold : ℕ → Text) (id : ℕ) (scan : Scan) (x : ℕ × Treatment) (out : ClassificationOut)
    → scan.choices ≡ x ∷ []
    → scan.ambiguous ≡ false
    → CoveredBy fold id scan out
    → counts id out ≡ true
    → choice fold out ≡ some x
CoveredBy-one fold id scan x out only unmixed h counted = elim (h counted) [
  | inl unclear ↦ absurd (cc (sym unclear ∙ unmixed))
  | inr (y, one, has) ↦ one ∙ ap some (has_choice_one y x (ap (has_choice y) (sym only) ∙ has))
]

-- If `learn` returns an active rule, then the merchant is confirmed, of a stable identity, not
-- archived and not named like a payment processor, and every audited confirmation by hand for
-- this merchant, also one that a later correction replaced, has exactly one allocation, of the
-- category and the treatment of the rule.
pub learn-unanimous :
    (fold : ℕ → Text) (id : ℕ) (s : Store) {r : Rule} {t : Store}
    → learn fold id s ≡ ok (r, t)
    → r.state ≡ active
    → (m : Merchant) × (lookup id s.merchants ≡ some m)
      × IsSure fold m
      × ((x : ℕ × Treatment) × (r.category_id ≡ some x.0)
          × (r.treatment ≡ some x.1)
          × All
              (λ (e : ℕ × Audit).
                (out : ClassificationOut)
                → e.1.after ≡ classification_snapshot out
                → counts id out ≡ true
                → choice fold out ≡ some x)
              s.audits)
learn-unanimous fold id s e is_active =
    let (m, found, says) = learn-Says fold id s e in
    let scan : Scan = scan_audits fold id s.audits no_evidence in
    let why = judge-IsSupported fold m (latest_rule id m s) scan (sym says.state ∙ is_active) in
    (
      m,
      found,
      why.sure,
      (
        why.x,
        says.category ∙ why.category,
        says.treatment ∙ why.treatment,
        All-mono s.audits
            (λ event h out is_out.
              CoveredBy-one fold id scan why.x out why.only why.unmixed (h out is_out))
            (scan_audits-All fold id s.audits no_evidence),
      ),
    )

-- Learning leaves a disabled rule disabled, whatever the evidence.
pub learn-disabled :
    (fold : ℕ → Text) (id : ℕ) (s : Store) (m : Merchant) {r : Rule} {t : Store}
    → lookup id s.merchants ≡ some m
    → is_disabled (latest_rule id m s) ≡ true
    → learn fold id s ≡ ok (r, t)
    → r.state ≡ disabled
learn-disabled fold id s m found off e =
    let (n, there, says) = learn-Says fold id s e in
    let same : m ≡ n = some-injective _ _ (sym found ∙ there) in
    says.state
    ∙ judge_disabled fold n (latest_rule id n s) _
        (ap (λ k. is_disabled (latest_rule id k s)) (sym same) ∙ off)
