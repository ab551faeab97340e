-- ===== src/Household/Schemas.antt =====
-- src/penge/household/schemas.py and models.py: the records that the household service reads and
-- writes. A UUID is a number; a text that is only compared is a String, a label a list of code
-- points; a point in time is its number. An amount is Numeric(20, 4), so it is its number of
-- ten-thousandths.
use penge.Prelude.{ℕ, String, Bool, List, Option}
use penge.Prelude.Int.{ℤ}
use penge.Household.Labels.{Text}

-- CategoryKind
pub data CategoryKind : Type 0 where
  expense_kind income_kind : CategoryKind

pub data Treatment : Type 0 where
  expense income refund transfer excluded unclassified : Treatment

pub data ReviewState : Type 0 where
  classified needs_review unclassified_review : ReviewState

pub data IdentityKind : Type 0 where
  stable processor marketplace mixed unknown : IdentityKind

pub data Provenance : Type 0 where
  manual by_rule : Provenance

pub data LinkKind : Type 0 where
  transfer_link refund_link : LinkKind

pub data RuleState : Type 0 where
  active conflict disabled insufficient : RuleState

pub record CategoryWrite : Type 0 where
  pub expected_revision : ℕ
  pub name : Text
  pub kind : CategoryKind
  pub parent_id : Option ℕ
  pub sort_order : ℕ
  pub archived : Bool

pub record Category : Type 0 where
  pub name : Text
  pub kind : CategoryKind
  pub parent_id : Option ℕ
  pub sort_order : ℕ
  pub archived : Bool
  pub revision : ℕ

pub record MerchantWrite : Type 0 where
  pub expected_revision : ℕ
  pub name : Text
  pub identity_kind : IdentityKind
  pub confirmed : Bool
  pub archived : Bool
  pub reference_source : Option String
  pub reference_key : Option String
  pub reference_version : Option String

pub record Merchant : Type 0 where
  pub name : Text
  pub identity_kind : IdentityKind
  pub confirmed : Bool
  pub archived : Bool
  pub revision : ℕ
  pub rule_version : ℕ
  pub reference_source : Option String
  pub reference_key : Option String
  pub reference_version : Option String

pub record AliasWrite : Type 0 where
  pub expected_revision : ℕ
  pub merchant_id : ℕ
  pub provider : Text
  pub label : Text
  pub confirmed : Bool

pub record Alias : Type 0 where
  pub merchant_id : ℕ
  pub provider : Text
  pub normalized : Text
  pub confirmed : Bool
  pub revision : ℕ

pub record Account : Type 0 where
  pub provider : Text
  pub currency : String

pub record SourceTransaction : Type 0 where
  pub account_id : ℕ
  pub ts : ℕ
  pub amount : ℤ
  pub kind : String
  pub counterparty : Option Text

pub record Split : Type 0 where
  pub category_id : ℕ
  pub amount : ℤ

pub record ReconciliationLink : Type 0 where
  pub related_transaction_id : ℕ
  pub kind : LinkKind

pub record PaymentDetailLink : Type 0 where
  pub detail_id : ℕ
  pub detail_revision : ℕ
  pub bank_amount : ℤ

pub data EventKind : Type 0 where
  purchase_event refund_event funding_event unknown_event : EventKind

pub record PaymentSourceFields : Type 0 where
  pub entry_reference : Option String
  pub transaction_id : Option String
  pub merchant_category_code : Option String
  pub bank_code : Option String
  pub bank_sub_code : Option String
  pub transaction_date : Option String  -- as `model_dump` writes it to JSON

pub record PaymentDetailWrite : Type 0 where
  pub provider : String
  pub source_account_id : String
  pub external_id : String
  pub connection_id : Option ℕ
  pub ts : ℕ
  pub amount : ℤ
  pub currency : String
  pub merchant_name : Option String
  pub reference : Option String
  pub event_kind : EventKind
  pub source_fields : PaymentSourceFields

pub record PaymentDetail : Type 0 where
  pub provider : String
  pub source_account_id : String
  pub external_id : String
  pub connection_id : Option ℕ
  pub ts : ℕ
  pub amount : ℤ
  pub currency : String
  pub merchant_name : Option String
  pub reference : Option String
  pub event_kind : EventKind
  pub source_fields : PaymentSourceFields
  pub revision : ℕ
  pub last_seen_at : ℕ

pub record ClassificationWrite : Type 0 where
  pub expected_revision : ℕ
  pub treatment : Treatment
  pub merchant_id : Option ℕ
  pub identity_confirmed : Bool
  pub allocations : List Split
  pub links : List ReconciliationLink
  pub detail_links : List PaymentDetailLink
  pub explanation : String

pub record Classification : Type 0 where
  pub treatment : Treatment
  pub review_state : ReviewState
  pub merchant_id : Option ℕ
  pub identity_confirmed : Bool
  pub provenance : Provenance
  pub rule_id : Option ℕ
  pub revision : ℕ
  pub source_amount : ℤ
  pub source_currency : String
  pub source_ts : ℕ
  pub source_counterparty : Option Text
  pub source_kind : String
  pub explanation : String

pub record ClassificationOut : Type 0 where
  pub transaction_id : ℕ
  pub base : Classification
  pub allocations : List Split
  pub links : List ReconciliationLink
  pub detail_links : List PaymentDetailLink
  pub detail_changed : Bool
  pub source_changed : Bool

pub record Evidence : Type 0 where
  pub audit_id : ℕ
  pub transaction_id : ℕ
  pub revision : ℕ

pub record Rule : Type 0 where
  pub merchant_id : ℕ
  pub version : ℕ
  pub state : RuleState
  pub category_id : Option ℕ
  pub treatment : Option Treatment
  pub explanation : String
  pub evidence : List Evidence

pub record Undo : Type 0 where
  pub expected_revision : ℕ
  pub audit_id : ℕ

pub record RuleControl : Type 0 where
  pub expected_version : ℕ
  pub is_disabled : Bool

pub record Candidate : Type 0 where
  pub transaction_id : ℕ
  pub expected_revision : ℕ
  pub source_amount : ℤ
  pub source_currency : String
  pub source_ts : ℕ
  pub source_kind : String
  pub source_counterparty : Option Text
  pub provider : Text
  pub normalized_counterparty : Text
  pub alias_id : Option ℕ
  pub alias_revision : Option ℕ

pub record Preview : Type 0 where
  pub rule_id : ℕ
  pub candidates : List Candidate
  pub applied : Bool
