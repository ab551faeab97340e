-- ===== src/Ops/Refresh.antt =====
-- `_sync_one_connection` and `run_refresh` (src/penge/ops/net_worth_refresh.py). The sync function
-- and the dbt runner are arguments of the source's functions, as they are here.
pub mod Durable
pub mod Counts
pub mod Intact
pub mod Inspection
use penge.Prelude.{
  ℕ, ◌+◌, ◌-◌, String, Bool, true, false, not, ◌&&◌, ltb, ◌==◌, List, [], ◌∷◌, map, foldl, length,
  Option, none, some, if◌then◌else◌,
}
use penge.Ops.Marker.{Disk, Tracker, new_tracker, observe, prepare, is_refresh_pending, clear}

pub record ConnectionRecord : Type 0 where
  pub id : String
  pub provider : String

-- `service.SyncOutcome`
pub record SyncOutcome : Type 0 where
  pub transactions : ℕ
  pub holding_snapshots : ℕ
  pub payment_details : ℕ
  pub writes : ℕ

-- How a call of the sync function ends: a value, a `service.ConnectionError` with its message, or
-- another exception.
pub data Ending : Type 0 where
  returned : SyncOutcome → Ending
  connection_error : String → Ending
  unexpected : Ending

-- A call: the write counts that it notified, in order, and its end.
pub record SyncRun : Type 0 where
  pub notified : List ℕ
  pub ending : Ending

pub data Status : Type 0 where
  eligible failed succeeded : Status

pub record ConnectionSummary : Type 0 where
  pub connection_id : String
  pub provider : String
  pub status : Status
  pub transactions : ℕ
  pub holding_snapshots : ℕ
  pub payment_details : ℕ
  pub writes : ℕ
  pub error : Option String

unfoldable pub observe_all : Tracker → List ℕ → Tracker
unfolding observe
observe_all t [] = t
observe_all t (n ∷ ns) = observe_all (observe t n) ns

abbrev pub failure : ConnectionRecord → ℕ → Option String → ConnectionSummary
failure r writes error = record {
  connection_id = r.id;
  provider = r.provider;
  status = failed;
  transactions = 0;
  holding_snapshots = 0;
  payment_details = 0;
  writes = writes;
  error = error;
}

-- The marker is cleared when the connection changed nothing and nothing was pending before it.
unfoldable pub clear_if_idle : ℕ → Bool → Tracker → Tracker
unfolding clear
clear_if_idle writes_before was_pending t =
    if (t.writes == writes_before) && not was_pending then clear t else t

-- The writes that the outcome has beyond those notified are counted too.
unfoldable pub count_rest : ℕ → ℕ → Tracker → Tracker
unfolding observe
count_rest before writes t =
    let seen : ℕ = t.writes - before in if ltb seen writes then observe t (writes - seen) else t

-- The summary of a connection, whether it failed, and the tracker afterwards.
abbrev pub Synced : Type 0
Synced = ConnectionSummary × Bool × Tracker

-- After the sync function has ended, with `t` the tracker that saw its notifications.
unfoldable pub conclude : ConnectionRecord → Ending → ℕ → Bool → Tracker → Synced
unfolding clear_if_idle count_rest
conclude r (returned outcome) before was_pending t =
    let all : Tracker = count_rest before outcome.writes t in
    (
      record {
        connection_id = r.id;
        provider = r.provider;
        status = succeeded;
        transactions = outcome.transactions;
        holding_snapshots = outcome.holding_snapshots;
        payment_details = outcome.payment_details;
        writes = all.writes - before;
        error = none;
      },
      false,
      clear_if_idle before was_pending all,
    )
conclude r (connection_error message) before was_pending t =
    (failure r (t.writes - before) (some message), true, clear_if_idle before was_pending t)
conclude r unexpected before was_pending t = (
  failure r (t.writes - before) (some "unexpected internal sync failure"),
  true,
  clear_if_idle before was_pending t,
)

unfoldable pub sync_one_connection : ConnectionRecord → SyncRun → Tracker → Synced
unfolding observe_all conclude is_refresh_pending prepare
sync_one_connection r run t =
    let pending : Bool × Tracker = is_refresh_pending t in
    let ready : Bool × Tracker = prepare pending.1 in
    if ready.0
    then conclude r run.ending t.writes pending.0 (observe_all ready.1 run.notified)
    else (failure r 0 ready.1.error, true, ready.1)

-- The loop of `run_refresh`: the summaries, the number of failures, and the tracker.
pub record Progress : Type 0 where
  pub summaries : List ConnectionSummary
  pub failed_count : ℕ
  pub tracker : Tracker

unfoldable pub sync_all : (ConnectionRecord → SyncRun) → List ConnectionRecord → Tracker → Progress
unfolding sync_one_connection
sync_all sync [] t = record { summaries = []; failed_count = 0; tracker = t }
sync_all sync (r ∷ rs) t =
    let one : Synced = sync_one_connection r (sync r) t in
    let rest : Progress = sync_all sync rs one.2 in
    record {
      summaries = one.0 ∷ rest.summaries;
      failed_count = (if one.1 then 1 else 0) + rest.failed_count;
      tracker = rest.tracker;
    }

-- How a call of the dbt runner's `refresh` ends.
pub data DbtEnding : Type 0 where
  refreshed : DbtEnding
  dbt_refresh_error : String → DbtEnding
  dbt_unexpected : DbtEnding

pub data DbtStatus : Type 0 where
  skipped_dry_run skipped_no_changes dbt_failed dbt_succeeded : DbtStatus

pub record RefreshSummary : Type 0 where
  pub started_at : String
  pub completed_at : String
  pub eligible_connections : ℕ
  pub successful_connections : ℕ
  pub failed_connections : ℕ
  pub data_changed : Bool
  pub dbt_status : DbtStatus
  pub dry_run : Bool
  pub connections : List ConnectionSummary
  pub error : Option String

abbrev pub or_else : Option String → Option String → Option String
or_else none e = e
or_else (some x) e = some x

-- The dbt step: its status, its error, and the tracker.
abbrev pub DbtStep : Type 0
DbtStep = DbtStatus × Option String × Tracker

abbrev pub run_dbt : DbtEnding → Tracker → DbtStep
run_dbt refreshed t = (dbt_succeeded, none, clear t)
run_dbt (dbt_refresh_error message) t = (dbt_failed, some message, t)
run_dbt dbt_unexpected t = (dbt_failed, some "unexpected dbt refresh failure", t)

unfoldable pub dbt_step : DbtEnding → Tracker → DbtStep
unfolding is_refresh_pending clear
dbt_step dbt t =
    let pending : Bool × Tracker = is_refresh_pending t in
    if pending.0 then run_dbt dbt pending.1 else (skipped_no_changes, none, pending.1)

abbrev pub as_eligible : ConnectionRecord → ConnectionSummary
as_eligible r = record {
  connection_id = r.id;
  provider = r.provider;
  status = eligible;
  transactions = 0;
  holding_snapshots = 0;
  payment_details = 0;
  writes = 0;
  error = none;
}

-- `run_refresh`: the summary, and the marker that is left; `connections` is what the store lists.
unfoldable pub run_refresh :
    (sync : ConnectionRecord → SyncRun) (dbt : DbtEnding) (dry_run : Bool)
    (started completed : String) (connections : List ConnectionRecord)
    → Disk
    → RefreshSummary × Disk
unfolding new_tracker sync_all dbt_step
run_refresh sync dbt dry_run started completed connections disk =
    let p : Progress = sync_all sync connections (new_tracker disk) in
    let step : DbtStep = dbt_step dbt p.tracker in
    if dry_run
    then (
      record {
        started_at = started;
        completed_at = completed;
        eligible_connections = length connections;
        successful_connections = 0;
        failed_connections = 0;
        data_changed = false;
        dbt_status = skipped_dry_run;
        dry_run = true;
        connections = map as_eligible connections;
        error = none;
      },
      disk,
    )
    else (
      record {
        started_at = started;
        completed_at = completed;
        eligible_connections = length connections;
        successful_connections = length connections - p.failed_count;
        failed_connections = p.failed_count;
        data_changed = ltb 0 step.2.writes;
        dbt_status = step.0;
        dry_run = false;
        connections = p.summaries;
        error = or_else step.1 step.2.error;
      },
      step.2.disk,
    )

-- `RefreshSummary.ok`
abbrev pub is_ok : RefreshSummary → Bool
is_ok s = (s.failed_connections == 0) && elim s.error [ none ↦ true | some _ ↦ false ]
