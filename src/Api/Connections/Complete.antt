-- ===== src/Api/Connections/Complete.antt =====
-- A sync gets through where the bank allows some window (src/penge/api/connections/service.py).
use penge.Prelude.{ℕ, ◌≡◌, refl, String, Option, none, some, List, Result, ok}
use penge.Prelude.Eq.{nat_eq}
use penge.Prelude.Dict.{lookup, lookup-insert_self}
use penge.Api.Connections.{authorized, sync_ok, ConnectionRecord, Table, record_sync_ok, put}
use penge.Api.Connections.Link.{Provider, BankError}
use penge.Api.Connections.Pull.{fallbacks, Counts, Fault, Pull, try_windows}
use penge.Api.Connections.Recovery.{Gets, try_windows_get}
use penge.Api.Connections.Sync.{
  AccountResource, BankSession, SyncOutcome, SyncRun, total, snapshots, admit, finish,
  sync_admitted, sync,
}

-- The run returned: the outcome has the sum of the reported writes, and the row is authorized, with
-- a successful sync and no error.
pub record IsComplete (key : ℕ) (c : ConnectionRecord) (now : ℕ) (run : SyncRun) : Type 0 where
  pub outcome : SyncOutcome
  pub returned : run.ending ≡ ok outcome
  pub writes : outcome.writes ≡ total run.reported
  pub row : ConnectionRecord
  pub here : lookup key run.table.connections ≡ some row
  pub status : row.status ≡ authorized
  pub synced : row.last_sync_status ≡ some sync_ok
  pub at : row.last_sync_at ≡ some now
  pub no_error : row.last_error ≡ none
  pub session : row.session_id ≡ c.session_id

module _ (get_provider : String → Option Provider)
    (get_session : String → Result BankError BankSession)
    (sync_account : (window : ℕ) → AccountResource → Result Fault Counts) where
  finish-IsComplete :
      (key : ℕ) (c : ConnectionRecord) (accounts : List AccountResource) (p : Pull)
      (counts : Counts) (now : ℕ) (table : Table)
      → p.ending ≡ ok counts
      → IsComplete key c now
          (finish get_provider get_session sync_account key c accounts p now table)
  unfolding finish record_sync_ok put
  finish-IsComplete key c accounts p counts now table e =
      let after : ConnectionRecord = record_sync_ok (snapshots accounts) now c in
      let outcome : SyncOutcome = record {
        connection = after;
        transactions = counts.transactions;
        holding_snapshots = counts.holding_snapshots;
        writes = total p.reported;
        payment_details = counts.payment_details;
      } in
      rw (finish, e)
        (record {
          outcome = outcome;
          returned = refl;
          writes = refl;
          row = after;
          here = lookup-insert_self key after table.connections;
          status = refl;
          synced = refl;
          at = refl;
          no_error = refl;
          session = refl;
        })

  -- If the connection passes the checks and the bank answers for all accounts with some window,
  -- having refused the longer ones for their length only, then the sync returns, whatever was
  -- pulled before the refusals; its outcome counts every write that was reported on the way, and
  -- the row is authorized again with its session.
  pub sync-completes :
      (key days now : ℕ) (table : Table) (c : ConnectionRecord) (accounts : List AccountResource)
      → lookup key table.connections ≡ some c
      → admit get_provider get_session sync_account c now ≡ ok accounts
      → Gets sync_account days (fallbacks days) accounts
      → IsComplete key c now (sync get_provider get_session sync_account key days now table)
  unfolding sync sync_admitted
  sync-completes key days now table c accounts found passed gets =
      let (counts, e) = try_windows_get sync_account days (fallbacks days) accounts gets in
      rw (sync, found, passed)
        (finish-IsComplete key c accounts (try_windows sync_account days (fallbacks days) accounts)
          counts now table e)
