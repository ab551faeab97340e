-- ===== src/Api/Connections/Sync.antt =====
-- `sync` of src/penge/api/connections/service.py. Enable Banking's answer about a session and the
-- registry of providers are parameters.
use Prim.Native.String.{◌++◌ as append}
use penge.Prelude.{
  ℕ, ltb, ◌+◌, String, Bool, true, false, not, ◌&&◌, List, [], ◌∷◌, map, Option, none, some, Result,
  ok, err, ◌>>=◌, ◌>>◌, if◌then◌else◌,
}
use penge.Prelude.Eq.{nat_eq, string_eq}
use penge.Prelude.Dict.{lookup}
use penge.Api.Connections.{
  Status, expired, ErrorPayload, AccountSnapshot, ConnectionRecord, Table, record_sync_ok,
  record_sync_error, put,
}
use penge.Api.Connections.Link.{
  Provider, BankError, Failure, crashed, from_bank_error, plain_error, refusal,
}
use penge.Api.Connections.Pull.{
  fallbacks, Counts, Fault, bank_error, mapping_error, other_error, Pull, try_windows,
}

pub record AccountResource : Type 0 where
  pub uid : Option String
  pub snapshot : AccountSnapshot

pub record BankSession : Type 0 where
  pub status : String
  pub accounts_data : List AccountResource

pub record SyncOutcome : Type 0 where
  pub connection : ConnectionRecord
  pub transactions : ℕ
  pub holding_snapshots : ℕ
  pub writes : ℕ
  pub payment_details : ℕ

-- The writes that the caller was told of, how the call ends, and the table.
pub record SyncRun : Type 0 where
  pub reported : List ℕ
  pub ending : Result Failure SyncOutcome
  pub table : Table

unfoldable pub total : List ℕ → ℕ
total [] = 0
total (n ∷ ns) = n + total ns

-- `[a for a in session.accounts_data if a.uid is not None]`
abbrev pub with_uid : List AccountResource → List AccountResource
with_uid [] = []
with_uid (a ∷ rest) = elim a.uid [ none ↦ with_uid rest | some uid ↦ a ∷ with_uid rest ]

abbrev pub snapshots : List AccountResource → List AccountSnapshot
snapshots = map (λ (a : AccountResource). a.snapshot)

-- `if not record.session_id`
abbrev pub usable : Option String → Option String
usable none = none
usable (some session_id) = if string_eq.beq session_id "" then none else some session_id

abbrev pub is_valid : Option ℕ → (now : ℕ) → Bool
is_valid none now = false
is_valid (some valid_until) now = ltb now valid_until

-- What a check has against the sync: the error, and the status that the row is left with.
pub record Refusal : Type 0 where
  pub payload : ErrorPayload
  pub status : Status

abbrev pub refuse : {A : Type 0} → Status → ErrorPayload → Result Refusal A
refuse status payload = err (record { payload = payload; status = status })

-- `_provider_for_sync`
abbrev pub provider_for_sync : Option Provider → ConnectionRecord → Result Refusal Provider
provider_for_sync none c =
    refuse c.status (plain_error "sync" (append (append "unknown provider '" c.provider) "'"))
provider_for_sync (some p) c =
    if p.has_adapter
    then ok p
    else refuse c.status (plain_error "sync" "detail-only provider sync is not configured")

abbrev pub session_of : ConnectionRecord → Result Refusal String
session_of c = elim (usable c.session_id) [
  | none ↦ refuse c.status (plain_error "sync" "connection is not authorized yet")
  | some session_id ↦ ok session_id
]

-- `_ensure_payment_detail_consent`
abbrev pub ensure_consent : Provider → ConnectionRecord → (now : ℕ) → Result Refusal Unit
ensure_consent p c now =
    if p.is_payment_detail && not (is_valid c.valid_until now)
    then refuse expired (plain_error "sync" "consent has expired; re-consent required")
    else ok tt

-- `_authorized_session`
abbrev pub authorized_session :
    Result BankError BankSession → ConnectionRecord → Result Refusal BankSession
authorized_session (err e) c = refuse c.status (from_bank_error "sync" e)
authorized_session (ok session) c =
    if string_eq.beq session.status "AUTHORIZED"
    then ok session
    else refuse expired (
        plain_error "sync"
          (append (append "session status is " session.status) "; re-consent required"))

abbrev pub accounts_of : BankSession → ConnectionRecord → Result Refusal (List AccountResource)
accounts_of session c = elim (with_uid session.accounts_data) [
  | [] ↦ refuse c.status (plain_error "sync" "no accounts to sync on this session")
  | a ∷ rest ↦ ok (a ∷ rest)
]

module _ (get_provider : String → Option Provider)
    (get_session : String → Result BankError BankSession)
    (sync_account : (window : ℕ) → AccountResource → Result Fault Counts) where
  -- The checks, in their order.
  unfoldable pub admit : ConnectionRecord → (now : ℕ) → Result Refusal (List AccountResource)
  admit c now = do
    p ← provider_for_sync (get_provider c.provider) c
    session_id ← session_of c
    ensure_consent p c now
    session ← authorized_session (get_session session_id) c
    accounts_of session c

  -- The end of the loop over the windows; a fault of another kind is not recorded here.
  unfoldable pub finish :
      (key : ℕ) → ConnectionRecord → List AccountResource → Pull → (now : ℕ) → Table → SyncRun
  unfolding record_sync_ok record_sync_error put total
  finish key c accounts p now table = elim p.ending [
    | ok counts ↦
        let after : ConnectionRecord = record_sync_ok (snapshots accounts) now c in
        record {
          reported = p.reported;
          ending = ok (record {
            connection = after;
            transactions = counts.transactions;
            holding_snapshots = counts.holding_snapshots;
            writes = total p.reported;
            payment_details = counts.payment_details;
          });
          table = put key after table;
        }
    | err (bank_error e) ↦ record {
      reported = p.reported;
      ending = refusal (from_bank_error "sync" e) false;
      table = put key (record_sync_error (from_bank_error "sync" e) c.status now c) table;
    }
    | err (mapping_error message) ↦
        let payload : ErrorPayload = record {
          step = "sync";
          message = message;
          status_code = none;
          code = some "INVALID_PAYMENT_DETAIL";
        } in
        record {
          reported = p.reported;
          ending = refusal payload false;
          table = put key (record_sync_error payload c.status now c) table;
        }
    | err (other_error message) ↦ record {
      reported = p.reported;
      ending = err (crashed message);
      table = table;
    }
  ]

  -- The accounts, or the refusal recorded.
  unfoldable pub sync_admitted :
      (key : ℕ)
      → ConnectionRecord
      → Result Refusal (List AccountResource)
      → (days now : ℕ) → Table
      → SyncRun
  unfolding finish try_windows record_sync_error put
  sync_admitted key c (ok accounts) days now table =
      finish key c accounts (try_windows sync_account days (fallbacks days) accounts) now table
  sync_admitted key c (err r) days now table = record {
    reported = [];
    ending = refusal r.payload false;
    table = put key (record_sync_error r.payload r.status now c) table;
  }

  unfoldable pub sync : (key days now : ℕ) → Table → SyncRun
  unfolding admit sync_admitted
  sync key days now table = elim (lookup key table.connections) [
    | none ↦ record {
      reported = [];
      ending = refusal (plain_error "sync" "connection not found") true;
      table = table;
    }
    | some c ↦ sync_admitted key c (admit c now) days now table
  ]
