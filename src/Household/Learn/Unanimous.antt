-- ===== src/Household/Learn/Unanimous.antt =====
-- What stands behind an active rule (src/penge/household/service.py).
use penge.Prelude.{
  ℕ, ◌≡◌, ◌⊎◌, subst, refl, inl, inr, sym, arith, true, Bool-cases, Option-cases, List, [], ◌∷◌,
  All, some,
}
use penge.Prelude.Dict.{Dict}
use penge.Prelude.Eq.{nat_eq}
use penge.Household.Labels.{Text}
use penge.Household.Schemas.{Treatment, ClassificationOut}
use penge.Household.Store.{
  Audit, Snapshot, category_snapshot, merchant_snapshot, alias_snapshot, classification_snapshot,
  rule_snapshot, preview_snapshot,
}
use penge.Household.Rules.{same_treatment}
use penge.Household.Learn.{
  Scan, has_choice, add_choice, counts, choice, scan_event, scan_snapshot, scan_audits,
}

-- The event, if it counts for the merchant, is covered by what a scan has found.
abbrev pub CoveredBy : (ℕ → Text) → ℕ → Scan → ClassificationOut → Type 0
CoveredBy fold id scan out =
    counts id out ≡ true
    → (scan.ambiguous ≡ true)
      ⊎ ((x : ℕ × Treatment) × (choice fold out ≡ some x) × (has_choice x scan.choices ≡ true))

-- A later scan has found at least as much.
record Grows (a b : Scan) : Type 0 where
  ambiguous : a.ambiguous ≡ true → b.ambiguous ≡ true
  choices : (x : ℕ × Treatment) → has_choice x a.choices ≡ true → has_choice x b.choices ≡ true

same_treatment_refl : (a : Treatment) → same_treatment a a ≡ true
same_treatment_refl a = ground arith

has_choice-add_choice :
    (x y : ℕ × Treatment) (ys : List (ℕ × Treatment))
    → has_choice x ys ≡ true
    → has_choice x (add_choice y ys) ≡ true
has_choice-add_choice x y ys h = ground arith

has_choice-add_choice_self :
    (x : ℕ × Treatment) (ys : List (ℕ × Treatment)) → has_choice x (add_choice x ys) ≡ true
has_choice-add_choice_self x ys = ground (arith, same_treatment_refl x.1)

module _ (fold : ℕ → Text) (id : ℕ) where
  scan_event-Grows :
      (a : ℕ) (out : ClassificationOut) (scan : Scan) → Grows scan (scan_event fold id a out scan)
  unfolding scan_event
  scan_event-Grows a out scan = elim (Bool-cases (counts id out)) [
    | inr other ↦ rw other (record { ambiguous = λ h. h; choices = λ x h. h })
    | inl counted ↦ elim (Option-cases (choice fold out)) [
      | inl mixed ↦ rw (counted, mixed) (record { ambiguous = λ h. refl; choices = λ x h. h })
      | inr (y, one) ↦
          rw (counted, one)
            (record {
              ambiguous = λ h. h;
              choices = λ x h. has_choice-add_choice x y scan.choices h;
            })
    ]
  ]

  scan_event-CoveredBy :
      (a : ℕ) (out : ClassificationOut) (scan : Scan)
      → CoveredBy fold id (scan_event fold id a out scan) out
  unfolding scan_event
  scan_event-CoveredBy a out scan counted = elim (Option-cases (choice fold out)) [
    | inl mixed ↦ inl (rw (counted, mixed) refl)
    | inr (y, one) ↦ inr (y, one, rw (counted, one) (has_choice-add_choice_self y scan.choices))
  ]

  scan_snapshot-Grows :
      (a : ℕ) (after : Snapshot) (scan : Scan) → Grows scan (scan_snapshot fold id a after scan)
  unfolding scan_snapshot
  scan_snapshot-Grows a (classification_snapshot out) scan = scan_event-Grows a out scan
  scan_snapshot-Grows a (category_snapshot c) scan = record {
    ambiguous = λ h. h;
    choices = λ x h. h;
  }
  scan_snapshot-Grows a (merchant_snapshot m) scan = record {
    ambiguous = λ h. h;
    choices = λ x h. h;
  }
  scan_snapshot-Grows a (alias_snapshot m) scan = record { ambiguous = λ h. h; choices = λ x h. h }
  scan_snapshot-Grows a (rule_snapshot r) scan = record { ambiguous = λ h. h; choices = λ x h. h }
  scan_snapshot-Grows a (preview_snapshot p) scan = record {
    ambiguous = λ h. h;
    choices = λ x h. h;
  }

  scan_audits-Grows :
      (events : Dict ℕ Audit) (scan : Scan) → Grows scan (scan_audits fold id events scan)
  unfolding scan_audits
  scan_audits-Grows [] scan = record { ambiguous = λ h. h; choices = λ x h. h }
  scan_audits-Grows ((a, event) ∷ events) scan =
      let first = scan_snapshot-Grows a event.after scan in
      let rest = scan_audits-Grows events (scan_snapshot fold id a event.after scan) in
      record {
        ambiguous = λ h. rest.ambiguous (first.ambiguous h);
        choices = λ x h. rest.choices x (first.choices x h);
      }

  later :
      (a b : Scan) (out : ClassificationOut)
      → Grows a b
      → CoveredBy fold id a out
      → CoveredBy fold id b out
  later a b out g h counted = elim (h counted) [
    | inl mixed ↦ inl (g.ambiguous mixed)
    | inr (x, one, has) ↦ inr (x, one, g.choices x has)
  ]

  scan_snapshot-CoveredBy :
      (a : ℕ) (after : Snapshot) (scan : Scan) (out : ClassificationOut)
      → after ≡ classification_snapshot out
      → CoveredBy fold id (scan_snapshot fold id a after scan) out
  scan_snapshot-CoveredBy a after scan out e =
      subst (λ x. CoveredBy fold id (scan_snapshot fold id a x scan) out) (sym e)
        (unfold scan_snapshot in scan_event-CoveredBy a out scan)

  pub scan_audits-All :
      (events : Dict ℕ Audit) (scan : Scan)
      → All
          (λ (x : ℕ × Audit).
            (out : ClassificationOut)
            → x.1.after ≡ classification_snapshot out
            → CoveredBy fold id (scan_audits fold id events scan) out)
          events
  unfolding scan_audits
  scan_audits-All [] scan = tt
  scan_audits-All ((a, event) ∷ events) scan =
      let next : Scan = scan_snapshot fold id a event.after scan in
      (
        λ out e.
            later next (scan_audits fold id events next) out (scan_audits-Grows events next)
              (scan_snapshot-CoveredBy a event.after scan out e),
        scan_audits-All events next,
      )
