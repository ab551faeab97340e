-- ===== src/Household/Details.antt =====
-- `upsert_payment_detail` of src/penge/household/service.py. The point in time of a detail is
-- compared as an instant, as `_same_instant` does; the date in its source fields is, like them, a
-- JSON text.
pub mod Idempotent
use penge.Prelude.{
  ℕ, suc, String, Bool, true, false, not, ◌&&◌, ◌==◌, List, [], ◌∷◌, Option, none, some,
  if◌then◌else◌,
}
use penge.Prelude.Dict.{Dict}
use penge.Prelude.Int.{ℤ, eqb_ℤ}
use penge.Household.Schemas.{
  EventKind, purchase_event, refund_event, funding_event, unknown_event, PaymentSourceFields,
  PaymentDetailWrite, PaymentDetail,
}
use penge.Household.Store.{Store}
use penge.Household.Outs.{str_eq}

abbrev pub same_text : Option String → Option String → Bool
same_text none none = true
same_text (some a) (some b) = str_eq a b
same_text _ _ = false

abbrev pub event_code : EventKind → ℕ
event_code purchase_event = 0
event_code refund_event = 1
event_code funding_event = 2
event_code unknown_event = 3

abbrev pub same_fields : PaymentSourceFields → PaymentSourceFields → Bool
same_fields a b =
    same_text a.entry_reference b.entry_reference
    && same_text a.transaction_id b.transaction_id
    && same_text a.merchant_category_code b.merchant_category_code
    && same_text a.bank_code b.bank_code
    && same_text a.bank_sub_code b.bank_sub_code
    && same_text a.transaction_date b.transaction_date

-- The row has the body's key.
abbrev pub is_for : PaymentDetailWrite → PaymentDetail → Bool
is_for body d =
    str_eq d.provider body.provider
    && str_eq d.source_account_id body.source_account_id
    && str_eq d.external_id body.external_id

-- No value but the connection differs.
abbrev pub is_same : PaymentDetailWrite → PaymentDetail → Bool
is_same body d =
    is_for body d
    && (d.ts == body.ts)
    && eqb_ℤ d.amount body.amount
    && str_eq d.currency body.currency
    && same_text d.merchant_name body.merchant_name
    && same_text d.reference body.reference
    && (event_code d.event_kind == event_code body.event_kind)
    && same_fields d.source_fields body.source_fields

-- A row with the body's values.
abbrev pub detail_of : PaymentDetailWrite → (revision now : ℕ) → PaymentDetail
detail_of body revision now = record {
  provider = body.provider;
  source_account_id = body.source_account_id;
  external_id = body.external_id;
  connection_id = body.connection_id;
  ts = body.ts;
  amount = body.amount;
  currency = body.currency;
  merchant_name = body.merchant_name;
  reference = body.reference;
  event_kind = body.event_kind;
  source_fields = body.source_fields;
  revision = revision;
  last_seen_at = now;
}

-- The row that was found: a new revision if a value differs.
unfoldable pub seen : PaymentDetailWrite → (now : ℕ) → PaymentDetail → PaymentDetail
seen body now d =
    if is_same body d
    then record d { connection_id = body.connection_id; last_seen_at = now }
    else detail_of body (suc d.revision) now

-- The row with the key, or a new one.
unfoldable pub upsert_in :
    PaymentDetailWrite → (now fresh : ℕ) → Dict ℕ PaymentDetail → ℕ × Dict ℕ PaymentDetail
unfolding seen
upsert_in body now fresh [] = (fresh, (fresh, detail_of body 1 now) ∷ [])
upsert_in body now fresh ((id, d) ∷ details) =
    let rest = upsert_in body now fresh details in
    if is_for body d then (id, (id, seen body now d) ∷ details) else (rest.0, (id, d) ∷ rest.1)

unfoldable pub upsert_payment_detail : PaymentDetailWrite → (now : ℕ) → Store → ℕ × Store
unfolding upsert_in
upsert_payment_detail body now s =
    let (id, details) = upsert_in body now s.next_id s.details in
    (id, record s { details = details; next_id = suc s.next_id })
