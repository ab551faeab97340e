-- ===== src/Household/Outs.antt =====
-- `source` and `classification_out` of src/penge/household/service.py, and the change to "needs
-- review" that `new_rule` and `on_bank_sync` both make. The rows of an out stand in the order in
-- which they were written, where the source sorts them by their keys.
use penge.Prelude.{
  ℕ, suc, String, Bool, true, false, not, ◌||◌, ◌==◌, List, [], ◌∷◌, Option, none, some, Result, ok,
  ◌>>=◌, if◌then◌else◌,
}
use penge.Prelude.Eq.{string_eq, nat_eq}
use penge.Prelude.Int.{eqb_ℤ}
use penge.Prelude.Dict.{Dict, insert}
use penge.Household.Labels.{Text, text_eq}
use penge.Household.Schemas.{
  needs_review, Account, SourceTransaction, PaymentDetailLink, PaymentDetail, Classification,
  ClassificationOut,
}
use penge.Household.Store.{HouseholdError, Store, classification_snapshot, require, rows, audit}

abbrev pub source : ℕ → Store → Result HouseholdError (SourceTransaction × Account)
source key s = do
  t ← require key s.transactions
  account ← require t.account_id s.accounts
  ok (t, account)

-- `left != right` for an optional counterparty.
abbrev pub optional_text_eq : Option Text → Option Text → Bool
optional_text_eq none none = true
optional_text_eq (some a) (some b) = text_eq a b
optional_text_eq _ _ = false

abbrev pub str_eq : String → String → Bool
str_eq = string_eq.beq

-- The `any(...)` over the details: it stops at the first stale link.
unfoldable pub stale : Dict ℕ PaymentDetail → List PaymentDetailLink → Result HouseholdError Bool
stale details [] = ok false
stale details (l ∷ ls) = do
  detail ← require l.detail_id details
  let rest = stale details ls
  if detail.revision == l.detail_revision then rest else ok true

abbrev pub source_differs : Classification → SourceTransaction → Account → Bool
source_differs c t account =
    not (eqb_ℤ c.source_amount t.amount)
    || not (str_eq c.source_currency account.currency)
    || not (c.source_ts == t.ts)
    || not (optional_text_eq c.source_counterparty t.counterparty)
    || not (str_eq c.source_kind t.kind)

-- The out of a record whose two kinds of drift are known.
abbrev pub out_of :
    ℕ → Classification → Store → (detail_changed source_changed : Bool) → ClassificationOut
out_of key c s detail_changed source_changed = record {
  transaction_id = key;
  base = record c {
    review_state = if source_changed || detail_changed then needs_review else c.review_state;
  };
  allocations = rows key s.allocations;
  links = rows key s.links;
  detail_links = rows key s.detail_links;
  detail_changed = detail_changed;
  source_changed = source_changed;
}

unfoldable pub classification_out :
    ℕ → Classification → Store → Result HouseholdError ClassificationOut
unfolding stale
classification_out key c s = do
  (t, account) ← source key s
  changed ← stale s.details (rows key s.detail_links)
  ok (out_of key c s changed (source_differs c t account))

-- The record is to be reviewed; nothing else of it changes.
abbrev pub to_review : Classification → Classification
to_review c = record c { review_state = needs_review; revision = suc c.revision }

unfoldable pub put_review : ℕ → Classification → Store → Store
unfolding insert
put_review key c s = record s { classifications = insert key (to_review c) s.classifications }

-- The change and its audit event, with the out from before it.
unfoldable pub mark_for_review :
    (action : String) → ClassificationOut → ℕ → Classification → Store → Result HouseholdError Store
unfolding classification_out put_review audit
mark_for_review action before key c s = do
  let s1 = put_review key c s
  after ← classification_out key (to_review c) s1
  ok (audit key action (some (classification_snapshot before)) (classification_snapshot after) s1)
