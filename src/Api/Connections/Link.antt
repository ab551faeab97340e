-- ===== src/Api/Connections/Link.antt =====
-- `start_link` and `authorize` of src/penge/api/connections/service.py. The registry of providers
-- and Enable Banking's answers are parameters; so is the fresh consent state.
use Prim.Native.String.{◌++◌ as append}
use penge.Prelude.{
  ℕ, String, Bool, true, false, ◌&&◌, List, [], ◌∷◌, Option, none, some, Result, ok, err, ◌>>=◌,
  if◌then◌else◌,
}
use penge.Prelude.Eq.{nat_eq, string_eq}
use penge.Prelude.Dict.{Dict}
use penge.Api.Connections.{
  Status, linking, ErrorPayload, AccountSnapshot, ConnectionRecord, Table, linking_row,
  create_linking, select, has_state, one_or_none, mark_authorized, record_error, put,
}

-- The metadata of a provider that the service reads.
pub record Provider : Type 0 where
  pub slug : String
  pub aspsp_name : String
  pub aspsp_country : String
  pub is_payment_detail : Bool
  pub has_adapter : Bool

-- EnableBankingError, with what `_eb_message` reads from its body.
pub record BankError : Type 0 where
  pub status_code : ℕ
  pub code : Option String
  pub message : String

-- What a call raises: a ConnectionError, or the store's error for several rows with one state.
pub record ConnectionError : Type 0 where
  pub payload : ErrorPayload
  pub not_found : Bool

pub data Failure : Type 0 where
  refused : ConnectionError → Failure
  several_rows : Failure
  crashed : String → Failure

-- `_from_eb_error`
abbrev pub from_bank_error : (step : String) → BankError → ErrorPayload
from_bank_error step e = record {
  step = step;
  message = e.message;
  status_code = some e.status_code;
  code = e.code;
}

abbrev pub plain_error : (step message : String) → ErrorPayload
plain_error step message = record {
  step = step;
  message = message;
  status_code = none;
  code = none;
}

abbrev pub refusal : {A : Type 0} → ErrorPayload → (not_found : Bool) → Result Failure A
refusal payload not_found = err (refused (record { payload = payload; not_found = not_found }))

-- The answer to start_authorization.
pub record Consent : Type 0 where
  pub authorization_id : String
  pub url : String

abbrev pub unknown_provider : String → String
unknown_provider provider_slug = append (append "unknown provider '" provider_slug) "'"

-- With the registry's entry for the slug.
unfoldable pub start_link :
    (provider_slug : String)
    → Option Provider
    → Result BankError Consent
    → (entity_name state : String) → (valid_until now : ℕ) → Table
    → Result Failure ((ℕ × ConnectionRecord) × String) × Table
unfolding create_linking
start_link provider_slug none answer entity_name state valid_until now table =
    (refusal (plain_error "link" (unknown_provider provider_slug)) false, table)
start_link provider_slug (some p) (err e) entity_name state valid_until now table =
    (refusal (from_bank_error "link" e) false, table)
start_link provider_slug (some p) (ok consent) entity_name state valid_until now table =
    let (row, after) =
      create_linking
        (linking_row p.slug p.aspsp_name p.aspsp_country entity_name state consent.authorization_id
          valid_until now)
        table in
    (ok (row, consent.url), after)

abbrev pub is_linking : Status → Bool
is_linking linking = true
is_linking _ = false

-- The candidates of `_resolve_pending` without a state.
abbrev pub is_candidate : (aspsp_name : String) → ConnectionRecord → Bool
is_candidate aspsp_name c = is_linking c.status && string_eq.beq c.aspsp_name aspsp_name

abbrev pub only_one : Dict ℕ ConnectionRecord → Option (ℕ × ConnectionRecord)
only_one (x ∷ []) = some x
only_one _ = none

-- A row that is not linking any more does not count.
abbrev pub still_linking : Option (ℕ × ConnectionRecord) → Option (ℕ × ConnectionRecord)
still_linking none = none
still_linking (some (id, c)) = if is_linking c.status then some (id, c) else none

-- The answer to authorize_session.
pub record Session : Type 0 where
  pub session_id : String
  pub aspsp_name : String
  pub valid_until : ℕ
  pub accounts : List AccountSnapshot

-- The answer, recorded on the row it belongs to.
unfoldable pub bind_session :
    Option (ℕ × ConnectionRecord)
    → Result BankError Session
    → (now : ℕ) → Table
    → Result Failure (ℕ × ConnectionRecord) × Table
unfolding mark_authorized record_error put
bind_session (some (id, c)) (err e) now table = (
  refusal (from_bank_error "authorize" e) false,
  put id (record_error (from_bank_error "authorize" e) now c) table,
)
bind_session none (err e) now table = (refusal (from_bank_error "authorize" e) false, table)
bind_session (some (id, c)) (ok session) now table =
    let after : ConnectionRecord =
      mark_authorized session.session_id session.valid_until session.accounts now c in
    (ok (id, after), put id after table)
bind_session none (ok session) now table =
    elim (only_one (select (is_candidate session.aspsp_name) table.connections)) [
      | none ↦ (
        refusal
            (plain_error "authorize"
              "could not unambiguously match this consent; retry with the ?state= value from the callback")
            true,
        table,
      )
      | some x ↦
          let after : ConnectionRecord =
            mark_authorized session.session_id session.valid_until session.accounts now x.1 in
          (ok (x.0, after), put x.0 after table)
    ]

-- Whether the consent code is spent, and what comes of it.
pub record Authorized : Type 0 where
  pub is_spent : Bool
  pub ending : Result Failure (ℕ × ConnectionRecord)
  pub table : Table

abbrev pub spent : Result Failure (ℕ × ConnectionRecord) × Table → Authorized
spent r = record { is_spent = true; ending = r.0; table = r.1 }

-- With a state, the row is found before the code is spent.
unfoldable pub authorize_pending :
    Result Failure (Option (ℕ × ConnectionRecord))
    → Result BankError Session
    → (now : ℕ) → Table
    → Authorized
unfolding bind_session
authorize_pending (err e) answer now table = record {
  is_spent = false;
  ending = err e;
  table = table;
}
authorize_pending (ok none) answer now table = record {
  is_spent = false;
  ending =
      refusal (plain_error "authorize" "no pending connection matched this consent state") true;
  table = table;
}
authorize_pending (ok (some x)) answer now table = spent (bind_session (some x) answer now table)

unfoldable pub authorize :
    (state : Option String) → Result BankError Session → (now : ℕ) → Table → Authorized
unfolding authorize_pending bind_session
authorize none answer now table = spent (bind_session none answer now table)
authorize (some state) answer now table =
    if string_eq.beq state ""
    then spent (bind_session none answer now table)
    else authorize_pending
        (one_or_none several_rows (select (has_state state) table.connections) >>= λ o.
          ok (still_linking o))
        answer now table
