-- ===== src/Api/Connections.antt =====
-- src/penge/api/connections/store.py: the table of bank connections. A UUID is a number, a fresh
-- one the next; a point in time is its number; `now` is the clock's reading.
pub mod Link
pub mod Pull
pub mod Sync
pub mod Recovery
pub mod Complete
pub mod Edges
pub mod Calls
pub mod Life
pub mod Moves
use penge.Prelude.{
  ℕ, suc, String, Bool, true, false, List, [], ◌∷◌, ◌++◌, Option, none, some, Result, ok, err,
  if◌then◌else◌,
}
use penge.Prelude.Eq.{nat_eq, string_eq}
use penge.Prelude.Dict.{Dict, lookup, insert}

-- STATUS_LINKING and the others
pub data Status : Type 0 where
  linking authorized expired failed : Status

-- SYNC_STATUS_OK, SYNC_STATUS_ERROR
pub data SyncStatus : Type 0 where
  sync_ok sync_error : SyncStatus

-- The payload of `last_error`, without its time.
pub record ErrorPayload : Type 0 where
  pub step : String
  pub message : String
  pub status_code : Option ℕ
  pub code : Option String

-- One account of the snapshot on a connection.
pub record AccountSnapshot : Type 0 where
  pub name : Option String
  pub iban_masked : Option String
  pub currency : Option String
  pub product : Option String

pub record ConnectionRecord : Type 0 where
  pub provider : String
  pub aspsp_name : String
  pub aspsp_country : String
  pub entity_name : String
  pub status : Status
  pub state : Option String
  pub authorization_id : Option String
  pub session_id : Option String
  pub valid_until : Option ℕ
  pub accounts : List AccountSnapshot
  pub last_sync_at : Option ℕ
  pub last_sync_status : Option SyncStatus
  pub last_error : Option ErrorPayload
  pub created_at : ℕ
  pub updated_at : ℕ

-- The table, in the order of creation.
pub record Table : Type 0 where
  pub connections : Dict ℕ ConnectionRecord
  pub next_id : ℕ

-- The row of a new consent.
abbrev pub linking_row :
    (provider aspsp_name aspsp_country entity_name state authorization_id : String)
    → (valid_until now : ℕ) → ConnectionRecord
linking_row provider aspsp_name aspsp_country entity_name state authorization_id valid_until now =
    record {
      provider = provider;
      aspsp_name = aspsp_name;
      aspsp_country = aspsp_country;
      entity_name = entity_name;
      status = linking;
      state = some state;
      authorization_id = some authorization_id;
      session_id = none;
      valid_until = some valid_until;
      accounts = [];
      last_sync_at = none;
      last_sync_status = none;
      last_error = none;
      created_at = now;
      updated_at = now;
    }

unfoldable pub create_linking : ConnectionRecord → Table → (ℕ × ConnectionRecord) × Table
create_linking row table = (
  (table.next_id, row),
  record {
    connections = table.connections ++ (table.next_id, row) ∷ [];
    next_id = suc table.next_id;
  },
)

-- The rows of a query.
abbrev pub select : (ConnectionRecord → Bool) → Dict ℕ ConnectionRecord → Dict ℕ ConnectionRecord
select p [] = []
select p ((id, c) ∷ d) = if p c then (id, c) ∷ select p d else select p d

abbrev pub has_state : String → ConnectionRecord → Bool
has_state state c = elim c.state [ none ↦ false | some x ↦ string_eq.beq x state ]

-- `one_or_none`, which raises where there are several.
abbrev pub one_or_none : {E A : Type 0} → E → List A → Result E (Option A)
one_or_none several [] = ok none
one_or_none several (x ∷ []) = ok (some x)
one_or_none several (x ∷ y ∷ zs) = err several

unfoldable pub mark_authorized :
    (session_id : String)
    → (valid_until : ℕ) → List AccountSnapshot
    → (now : ℕ) → ConnectionRecord
    → ConnectionRecord
mark_authorized session_id valid_until accounts now c = record c {
  status = authorized;
  session_id = some session_id;
  valid_until = some valid_until;
  accounts = accounts;
  state = none;
  last_error = none;
  updated_at = now;
}

unfoldable pub record_sync_ok :
    List AccountSnapshot → (now : ℕ) → ConnectionRecord → ConnectionRecord
record_sync_ok accounts now c = record c {
  status = authorized;
  last_sync_at = some now;
  last_sync_status = some sync_ok;
  last_error = none;
  updated_at = now;
  accounts = accounts;
}

-- An error of the link or the authorisation.
unfoldable pub record_error : ErrorPayload → (now : ℕ) → ConnectionRecord → ConnectionRecord
record_error error now c = record c { status = failed; last_error = some error; updated_at = now }

-- An error of a sync, with the status that the row is to have.
unfoldable pub record_sync_error :
    ErrorPayload → Status → (now : ℕ) → ConnectionRecord → ConnectionRecord
record_sync_error error status now c = record c {
  status = status;
  last_error = some error;
  updated_at = now;
  last_sync_at = some now;
  last_sync_status = some sync_error;
}

-- `UPDATE … WHERE id = key`: each of them changes one row that is there.
unfoldable pub put : ℕ → ConnectionRecord → Table → Table
unfolding insert
put key c table = record table { connections = insert key c table.connections }
