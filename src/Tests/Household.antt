-- ===== src/Tests/Household.antt =====
-- A small household: one account, two movements at the same shop.
use penge.Prelude.{
  ℕ, ◌≡◌, ◌≢◌, refl, arith, String, true, false, none, some, [], ◌∷◌, Result, ok, err,
}
use penge.Prelude.Int.{negsuc}
use penge.Prelude.Eq.{nat_eq, string_eq}
use penge.Prelude.Dict.{Dict, lookup}
use penge.Household.Labels.{Text}
use penge.Household.Details.{upsert_payment_detail}
use penge.Household.Details.Idempotent.{upsert_payment_detail-repeated}
use penge.Household.Schemas.{purchase_event, PaymentDetailWrite}
use penge.Household.Schemas.{
  expense_kind, CategoryWrite, Category, stable, SourceTransaction, Treatment, expense, excluded,
  ClassificationWrite, Classification, Undo, active, conflict, manual, classified as is_classified,
}
use penge.Household.Store.{
  HouseholdError, walks_on, Store, classification_snapshot, rule_snapshot, preview_snapshot,
}
use penge.Household.Schemas.{Merchant, Rule, ClassificationOut}
use penge.Household.Store.{Audit}
use penge.Household.Learn.{counts, choice, learn}
use penge.Household.Learn.Active.{IsSure, learn-unanimous}
use penge.Household.Frame.{decision_at, IsNumbered}
use penge.Household.Categories.Forest.{Chain, done}
use penge.Household.Categories.Walk.{walk_terminates}
use penge.Household.Classifications.Restored.{IsRestored, undo_classification-restores}
use penge.Household.Protection.{
  IsUntouched, apply_preview-keeps_manual, on_bank_sync-keeps_decisions,
}
use penge.Household.Runs.{Runs, start, corrected_by, IsConsistent, Runs-IsConsistent}
use penge.Prelude.{◌==◌, ==_iff, Bool-cases, inl, inr, sym, ap, subst, some-injective, All}
use penge.Household.Categories.{walk}
use penge.Household.Classifications.{save_classification, undo_classification}
use penge.Household.Approval.{preview_rule, apply_preview}
use penge.Household.Sync.{on_bank_sync}

-- Case folding of the letters at hand, and stand-ins for `str`.
abbrev same : ℕ → Text
same c = c ∷ []

abbrev text : ℕ → String
text n = "n"

abbrev shop : Text
shop = 115 ∷ 104 ∷ 111 ∷ 112 ∷ []

abbrev gls : Text
gls = 103 ∷ 108 ∷ 115 ∷ []

abbrev movement : SourceTransaction
movement = record {
  account_id = 1;
  ts = 7;
  amount = negsuc 499999;
  kind = "card";
  counterparty = some shop;
}

-- A category, a merchant and its alias.
abbrev with_alias : Store
with_alias = record {
  accounts = (1, record { provider = gls; currency = "EUR" }) ∷ [];
  transactions = (10, movement) ∷ (11, movement) ∷ [];
  categories =
      (
        100,
        record {
          name = 102 ∷ [];
          kind = expense_kind;
          parent_id = none;
          sort_order = 0;
          archived = false;
          revision = 1;
        },
      )
      ∷ [];
  merchants =
      (
        102,
        record {
          name = shop;
          identity_kind = stable;
          confirmed = true;
          archived = false;
          revision = 1;
          rule_version = 0;
          reference_source = none;
          reference_key = none;
          reference_version = none;
        },
      )
      ∷ [];
  aliases =
      (
        106,
        record {
          merchant_id = 102;
          provider = gls;
          normalized = shop;
          confirmed = true;
          revision = 1;
        },
      )
      ∷ [];
  rules = [];
  classifications = [];
  allocations = [];
  links = [];
  details = [];
  detail_links = [];
  audits = [];
  previews = [];
  next_id = 108;
}

abbrev store_of : {A : Type 0} → Result HouseholdError (A × Store) → Store
store_of (ok x) = x.1
store_of (err e) = with_alias

abbrev end_of : Result HouseholdError Store → Store
end_of (ok s) = s
end_of (err e) = with_alias

abbrev food : CategoryWrite
food = record {
  expected_revision = 0;
  name = 102 ∷ [];
  kind = expense_kind;
  parent_id = none;
  sort_order = 0;
  archived = false;
}

abbrev groceries : ClassificationWrite
groceries = record {
  expected_revision = 0;
  treatment = expense;
  merchant_id = some 102;
  identity_confirmed = true;
  allocations = record { category_id = 100; amount = negsuc 499999 } ∷ [];
  links = [];
  detail_links = [];
  explanation = "weekly";
}

abbrev left_out : ClassificationWrite
left_out = record groceries {
  expected_revision = 1;
  treatment = excluded;
  allocations = [];
  explanation = "shared";
}

abbrev undo_it : Undo
undo_it = record { expected_revision = 2; audit_id = 111 }

-- The first correction, which makes rule 109 active.
abbrev classified : Store
classified = record {
  accounts = (1, record { provider = gls; currency = "EUR" }) ∷ [];
  transactions = (10, movement) ∷ (11, movement) ∷ [];
  categories =
      (
        100,
        record {
          name = 102 ∷ [];
          kind = expense_kind;
          parent_id = none;
          sort_order = 0;
          archived = false;
          revision = 1;
        },
      )
      ∷ [];
  merchants =
      (
        102,
        record {
          name = shop;
          identity_kind = stable;
          confirmed = true;
          archived = false;
          revision = 1;
          rule_version = 1;
          reference_source = none;
          reference_key = none;
          reference_version = none;
        },
      )
      ∷ [];
  aliases =
      (
        106,
        record {
          merchant_id = 102;
          provider = gls;
          normalized = shop;
          confirmed = true;
          revision = 1;
        },
      )
      ∷ [];
  rules =
      (
        109,
        record {
          merchant_id = 102;
          version = 1;
          state = active;
          category_id = some 100;
          treatment = some expense;
          explanation = "exact confirmed merchant identity; consistent human category evidence";
          evidence = record { audit_id = 108; transaction_id = 10; revision = 1 } ∷ [];
        },
      )
      ∷ [];
  classifications =
      (
        10,
        record {
          treatment = expense;
          review_state = is_classified;
          merchant_id = some 102;
          identity_confirmed = true;
          provenance = manual;
          rule_id = none;
          revision = 1;
          source_amount = negsuc 499999;
          source_currency = "EUR";
          source_ts = 7;
          source_counterparty = some shop;
          source_kind = "card";
          explanation = "weekly";
        },
      )
      ∷ [];
  allocations = (10, record { category_id = 100; amount = negsuc 499999 } ∷ []) ∷ [];
  links = (10, []) ∷ [];
  details = [];
  detail_links = (10, []) ∷ [];
  audits =
      (
        108,
        record {
          subject_id = 10;
          action = "save";
          before = none;
          after = classification_snapshot record {
            transaction_id = 10;
            base = record {
              treatment = expense;
              review_state = is_classified;
              merchant_id = some 102;
              identity_confirmed = true;
              provenance = manual;
              rule_id = none;
              revision = 1;
              source_amount = negsuc 499999;
              source_currency = "EUR";
              source_ts = 7;
              source_counterparty = some shop;
              source_kind = "card";
              explanation = "weekly";
            };
            allocations = record { category_id = 100; amount = negsuc 499999 } ∷ [];
            links = [];
            detail_links = [];
            detail_changed = false;
            source_changed = false;
          };
        },
      )
      ∷ (
        110,
        record {
          subject_id = 109;
          action = "version";
          before = none;
          after = rule_snapshot record {
            merchant_id = 102;
            version = 1;
            state = active;
            category_id = some 100;
            treatment = some expense;
            explanation = "exact confirmed merchant identity; consistent human category evidence";
            evidence = record { audit_id = 108; transaction_id = 10; revision = 1 } ∷ [];
          };
        },
      )
      ∷ [];
  previews = [];
  next_id = 111;
}

-- The correction of the correction.
abbrev corrected : Store
corrected = record {
  accounts = (1, record { provider = gls; currency = "EUR" }) ∷ [];
  transactions = (10, movement) ∷ (11, movement) ∷ [];
  categories =
      (
        100,
        record {
          name = 102 ∷ [];
          kind = expense_kind;
          parent_id = none;
          sort_order = 0;
          archived = false;
          revision = 1;
        },
      )
      ∷ [];
  merchants =
      (
        102,
        record {
          name = shop;
          identity_kind = stable;
          confirmed = true;
          archived = false;
          revision = 1;
          rule_version = 2;
          reference_source = none;
          reference_key = none;
          reference_version = none;
        },
      )
      ∷ [];
  aliases =
      (
        106,
        record {
          merchant_id = 102;
          provider = gls;
          normalized = shop;
          confirmed = true;
          revision = 1;
        },
      )
      ∷ [];
  rules =
      (
        109,
        record {
          merchant_id = 102;
          version = 1;
          state = active;
          category_id = some 100;
          treatment = some expense;
          explanation = "exact confirmed merchant identity; consistent human category evidence";
          evidence = record { audit_id = 108; transaction_id = 10; revision = 1 } ∷ [];
        },
      )
      ∷ (
        112,
        record {
          merchant_id = 102;
          version = 2;
          state = conflict;
          category_id = none;
          treatment = none;
          explanation = "conflicting corrections or mixed/split spending; review required";
          evidence =
              record { audit_id = 108; transaction_id = 10; revision = 1 }
              ∷ record { audit_id = 111; transaction_id = 10; revision = 2 }
              ∷ [];
        },
      )
      ∷ [];
  classifications =
      (
        10,
        record {
          treatment = excluded;
          review_state = is_classified;
          merchant_id = some 102;
          identity_confirmed = true;
          provenance = manual;
          rule_id = none;
          revision = 2;
          source_amount = negsuc 499999;
          source_currency = "EUR";
          source_ts = 7;
          source_counterparty = some shop;
          source_kind = "card";
          explanation = "shared";
        },
      )
      ∷ [];
  allocations = (10, []) ∷ [];
  links = (10, []) ∷ [];
  details = [];
  detail_links = (10, []) ∷ [];
  audits =
      (
        108,
        record {
          subject_id = 10;
          action = "save";
          before = none;
          after = classification_snapshot record {
            transaction_id = 10;
            base = record {
              treatment = expense;
              review_state = is_classified;
              merchant_id = some 102;
              identity_confirmed = true;
              provenance = manual;
              rule_id = none;
              revision = 1;
              source_amount = negsuc 499999;
              source_currency = "EUR";
              source_ts = 7;
              source_counterparty = some shop;
              source_kind = "card";
              explanation = "weekly";
            };
            allocations = record { category_id = 100; amount = negsuc 499999 } ∷ [];
            links = [];
            detail_links = [];
            detail_changed = false;
            source_changed = false;
          };
        },
      )
      ∷ (
        110,
        record {
          subject_id = 109;
          action = "version";
          before = none;
          after = rule_snapshot record {
            merchant_id = 102;
            version = 1;
            state = active;
            category_id = some 100;
            treatment = some expense;
            explanation = "exact confirmed merchant identity; consistent human category evidence";
            evidence = record { audit_id = 108; transaction_id = 10; revision = 1 } ∷ [];
          };
        },
      )
      ∷ (
        111,
        record {
          subject_id = 10;
          action = "save";
          before = some (
              classification_snapshot record {
                transaction_id = 10;
                base = record {
                  treatment = expense;
                  review_state = is_classified;
                  merchant_id = some 102;
                  identity_confirmed = true;
                  provenance = manual;
                  rule_id = none;
                  revision = 1;
                  source_amount = negsuc 499999;
                  source_currency = "EUR";
                  source_ts = 7;
                  source_counterparty = some shop;
                  source_kind = "card";
                  explanation = "weekly";
                };
                allocations = record { category_id = 100; amount = negsuc 499999 } ∷ [];
                links = [];
                detail_links = [];
                detail_changed = false;
                source_changed = false;
              });
          after = classification_snapshot record {
            transaction_id = 10;
            base = record {
              treatment = excluded;
              review_state = is_classified;
              merchant_id = some 102;
              identity_confirmed = true;
              provenance = manual;
              rule_id = none;
              revision = 2;
              source_amount = negsuc 499999;
              source_currency = "EUR";
              source_ts = 7;
              source_counterparty = some shop;
              source_kind = "card";
              explanation = "shared";
            };
            allocations = [];
            links = [];
            detail_links = [];
            detail_changed = false;
            source_changed = false;
          };
        },
      )
      ∷ (
        113,
        record {
          subject_id = 112;
          action = "version";
          before = none;
          after = rule_snapshot record {
            merchant_id = 102;
            version = 2;
            state = conflict;
            category_id = none;
            treatment = none;
            explanation = "conflicting corrections or mixed/split spending; review required";
            evidence =
                record { audit_id = 108; transaction_id = 10; revision = 1 }
                ∷ record { audit_id = 111; transaction_id = 10; revision = 2 }
                ∷ [];
          };
        },
      )
      ∷ [];
  previews = [];
  next_id = 114;
}

-- The rule, previewed.
abbrev previewed : Store
previewed = record {
  accounts = (1, record { provider = gls; currency = "EUR" }) ∷ [];
  transactions = (10, movement) ∷ (11, movement) ∷ [];
  categories =
      (
        100,
        record {
          name = 102 ∷ [];
          kind = expense_kind;
          parent_id = none;
          sort_order = 0;
          archived = false;
          revision = 1;
        },
      )
      ∷ [];
  merchants =
      (
        102,
        record {
          name = shop;
          identity_kind = stable;
          confirmed = true;
          archived = false;
          revision = 1;
          rule_version = 1;
          reference_source = none;
          reference_key = none;
          reference_version = none;
        },
      )
      ∷ [];
  aliases =
      (
        106,
        record {
          merchant_id = 102;
          provider = gls;
          normalized = shop;
          confirmed = true;
          revision = 1;
        },
      )
      ∷ [];
  rules =
      (
        109,
        record {
          merchant_id = 102;
          version = 1;
          state = active;
          category_id = some 100;
          treatment = some expense;
          explanation = "exact confirmed merchant identity; consistent human category evidence";
          evidence = record { audit_id = 108; transaction_id = 10; revision = 1 } ∷ [];
        },
      )
      ∷ [];
  classifications =
      (
        10,
        record {
          treatment = expense;
          review_state = is_classified;
          merchant_id = some 102;
          identity_confirmed = true;
          provenance = manual;
          rule_id = none;
          revision = 1;
          source_amount = negsuc 499999;
          source_currency = "EUR";
          source_ts = 7;
          source_counterparty = some shop;
          source_kind = "card";
          explanation = "weekly";
        },
      )
      ∷ [];
  allocations = (10, record { category_id = 100; amount = negsuc 499999 } ∷ []) ∷ [];
  links = (10, []) ∷ [];
  details = [];
  detail_links = (10, []) ∷ [];
  audits =
      (
        108,
        record {
          subject_id = 10;
          action = "save";
          before = none;
          after = classification_snapshot record {
            transaction_id = 10;
            base = record {
              treatment = expense;
              review_state = is_classified;
              merchant_id = some 102;
              identity_confirmed = true;
              provenance = manual;
              rule_id = none;
              revision = 1;
              source_amount = negsuc 499999;
              source_currency = "EUR";
              source_ts = 7;
              source_counterparty = some shop;
              source_kind = "card";
              explanation = "weekly";
            };
            allocations = record { category_id = 100; amount = negsuc 499999 } ∷ [];
            links = [];
            detail_links = [];
            detail_changed = false;
            source_changed = false;
          };
        },
      )
      ∷ (
        110,
        record {
          subject_id = 109;
          action = "version";
          before = none;
          after = rule_snapshot record {
            merchant_id = 102;
            version = 1;
            state = active;
            category_id = some 100;
            treatment = some expense;
            explanation = "exact confirmed merchant identity; consistent human category evidence";
            evidence = record { audit_id = 108; transaction_id = 10; revision = 1 } ∷ [];
          };
        },
      )
      ∷ (
        112,
        record {
          subject_id = 111;
          action = "preview";
          before = none;
          after = preview_snapshot record {
            rule_id = 109;
            candidates =
                record {
                  transaction_id = 11;
                  expected_revision = 0;
                  source_amount = negsuc 499999;
                  source_currency = "EUR";
                  source_ts = 7;
                  source_kind = "card";
                  source_counterparty = some shop;
                  provider = gls;
                  normalized_counterparty = shop;
                  alias_id = some 106;
                  alias_revision = some 1;
                }
                ∷ [];
            applied = false;
          };
        },
      )
      ∷ [];
  previews =
      (
        111,
        record {
          rule_id = 109;
          candidates =
              record {
                transaction_id = 11;
                expected_revision = 0;
                source_amount = negsuc 499999;
                source_currency = "EUR";
                source_ts = 7;
                source_kind = "card";
                source_counterparty = some shop;
                provider = gls;
                normalized_counterparty = shop;
                alias_id = some 106;
                alias_revision = some 1;
              }
              ∷ [];
          applied = false;
        },
      )
      ∷ [];
  next_id = 113;
}

classified_ok : save_classification same 10 groceries none "save" with_alias ≡ ok classified
unfolding save_classification
classified_ok = refl

corrected_ok : save_classification same 10 left_out none "save" classified ≡ ok corrected
unfolding save_classification
corrected_ok = refl

previewed_ok : preview_rule same text text 109 20 0 classified ≡ ok (111, previewed)
unfolding preview_rule
previewed_ok = refl

abbrev undone : Store
unfolding undo_classification
undone = end_of (undo_classification same text 10 undo_it corrected)

undone_ok : undo_classification same text 10 undo_it corrected ≡ ok undone
unfolding undo_classification
undone_ok = refl

abbrev applied : Store
unfolding apply_preview
applied = end_of (apply_preview same text text 111 previewed)

applied_ok : apply_preview same text text 111 previewed ≡ ok applied
unfolding apply_preview
applied_ok = refl

abbrev synced : Store
unfolding on_bank_sync
synced = store_of (on_bank_sync same text text (11 ∷ []) (10 ∷ []) classified)

synced_ok : on_bank_sync same text text (11 ∷ []) (10 ∷ []) classified ≡ ok (1, synced)
unfolding on_bank_sync
synced_ok = refl

food_row :
    (k : ℕ) (c : Category)
    → lookup k with_alias.categories ≡ some c
    → (k ≡ 100) × (c.parent_id ≡ none)
food_row k c found = elim (Bool-cases (k == 100)) [
  | inl here ↦ (
    (==_iff k 100).0 here,
    sym (ap (λ (x : Category). x.parent_id) (some-injective _ _ (rw here at found))),
  )
  | inr there ↦ absurd (cc (rw there at found))
]

with_alias-IsConsistent : IsConsistent with_alias
with_alias-IsConsistent = record {
  tree = record {
    forest =
        λ k c found. subst (Chain with_alias.categories c.kind) (sym (food_row k c found).1) done;
    fresh = λ k c found. let e = (food_row k c found).0 in omega arith;
  };
  balanced = λ k c found. absurd (cc found);
  numbered = λ k c found. absurd (cc found);
}

-- Two corrections, a preview of the rule behind the first, and its approval.
two_corrections : Runs same text text with_alias corrected
two_corrections =
    corrected_by with_alias classified corrected 10 left_out
      (corrected_by with_alias with_alias classified 10 groceries (start with_alias) classified_ok)
      corrected_ok

Runs-IsConsistent_example : IsConsistent corrected
Runs-IsConsistent_example =
    Runs-IsConsistent same text text with_alias corrected two_corrections with_alias-IsConsistent

abbrev first_decision : Classification
first_decision = record {
  treatment = expense;
  review_state = is_classified;
  merchant_id = some 102;
  identity_confirmed = true;
  provenance = manual;
  rule_id = none;
  revision = 1;
  source_amount = negsuc 499999;
  source_currency = "EUR";
  source_ts = 7;
  source_counterparty = some shop;
  source_kind = "card";
  explanation = "weekly";
}

undo_classification-restores_example :
    IsRestored 10 first_decision classified undone
    × ((k : ℕ) → k ≢ 10 → decision_at k undone ≡ decision_at k classified)
undo_classification-restores_example =
    undo_classification-restores same text 10 left_out first_decision undo_it classified refl refl
      corrected_ok refl undone_ok

abbrev the_rule : Rule
the_rule = record {
  merchant_id = 102;
  version = 1;
  state = active;
  category_id = some 100;
  treatment = some expense;
  explanation = "exact confirmed merchant identity; consistent human category evidence";
  evidence = record { audit_id = 108; transaction_id = 10; revision = 1 } ∷ [];
}

learned_ok : learn same 102 classified ≡ ok (the_rule, classified)
unfolding learn
learned_ok = refl

learn-unanimous_example :
    (m : Merchant) × (lookup 102 classified.merchants ≡ some m)
    × IsSure same m
    × ((x : ℕ × Treatment) × (the_rule.category_id ≡ some x.0)
        × (the_rule.treatment ≡ some x.1)
        × All
            (λ (e : ℕ × Audit).
              (out : ClassificationOut)
              → e.1.after ≡ classification_snapshot out
              → counts 102 out ≡ true
              → choice same out ≡ some x)
            classified.audits)
learn-unanimous_example = learn-unanimous same 102 classified learned_ok refl

apply_preview-keeps_manual_example : IsUntouched 10 previewed applied
apply_preview-keeps_manual_example =
    apply_preview-keeps_manual same text text 111 previewed 10 first_decision refl refl applied_ok

classified-IsNumbered : IsNumbered classified
classified-IsNumbered =
    (Runs-IsConsistent same text text with_alias classified
      (corrected_by with_alias with_alias classified 10 groceries (start with_alias) classified_ok)
      with_alias-IsConsistent).numbered

on_bank_sync-keeps_decisions_example : IsUntouched 10 classified synced
on_bank_sync-keeps_decisions_example =
    on_bank_sync-keeps_decisions same text text (11 ∷ []) (10 ∷ []) classified 10 first_decision
      classified-IsNumbered refl synced_ok

-- Two categories, each the parent of the other.
abbrev knot : Dict ℕ Category
knot =
    (
      1,
      record {
        name = shop;
        kind = expense_kind;
        parent_id = some 2;
        sort_order = 0;
        archived = false;
        revision = 1;
      },
    )
    ∷ (
      2,
      record {
        name = shop;
        kind = expense_kind;
        parent_id = some 1;
        sort_order = 0;
        archived = false;
        revision = 1;
      },
    )
    ∷ []

walk_terminates_example : walk 3 knot expense_kind [] (some 1) ≢ err walks_on
walk_terminates_example = walk_terminates knot expense_kind [] (some 1)

abbrev payment : PaymentDetailWrite
payment = record {
  provider = "paypal";
  source_account_id = "p1";
  external_id = "e1";
  connection_id = some 3;
  ts = 7;
  amount = negsuc 499999;
  currency = "EUR";
  merchant_name = some "Shop";
  reference = none;
  event_kind = purchase_event;
  source_fields = record {
    entry_reference = none;
    transaction_id = some "t1";
    merchant_category_code = none;
    bank_code = none;
    bank_sub_code = none;
    transaction_date = some "2026-03-06T00:00:00Z";
  };
}

upsert_payment_detail-repeated_example :
    ((upsert_payment_detail payment 9 (upsert_payment_detail payment 8 classified).1).0
      ≡ (upsert_payment_detail payment 9 classified).0)
    × ((upsert_payment_detail payment 9 (upsert_payment_detail payment 8 classified).1).1.details
        ≡ (upsert_payment_detail payment 9 classified).1.details)
upsert_payment_detail-repeated_example = upsert_payment_detail-repeated payment 8 9 classified
