-- ===== src/Ops/Refresh/Counts.antt =====
-- The counts in the summary of a run (src/penge/ops/net_worth_refresh.py).
use penge.Prelude.{
  ℕ, ◌+◌, ◌≤◌, ◌≡◌, ap, inl, inr, refl, arith, String, Bool, true, false, ltb, List, [], ◌∷◌,
  length, map, if◌then◌else◌, Bool-cases,
}
use penge.Ops.Marker.{Disk, Tracker, new_tracker, prepare, is_refresh_pending}
use penge.Ops.Refresh.{
  ConnectionRecord, Ending, returned, connection_error, unexpected, SyncRun, ConnectionSummary,
  observe_all, conclude, sync_one_connection, sync_all, DbtEnding, Status, eligible, failed,
  succeeded, RefreshSummary, run_refresh, as_eligible,
}
use penge.Ops.Refresh.Durable.{total_writes, sync_all-writes, dbt_step-writes, readied}

abbrev pub is_failed : Status → Bool
is_failed eligible = false
is_failed failed = true
is_failed succeeded = false

abbrev pub count_failed : List ConnectionSummary → ℕ
count_failed [] = 0
count_failed (s ∷ ss) = (if is_failed s.status then 1 else 0) + count_failed ss

conclude-failed :
    (r : ConnectionRecord) (e : Ending) (before : ℕ) (p : Bool) (t : Tracker)
    → is_failed (conclude r e before p t).0.status ≡ (conclude r e before p t).1
unfolding conclude
conclude-failed r (returned o) before p t = refl
conclude-failed r (connection_error m) before p t = refl
conclude-failed r unexpected before p t = refl

sync_one-failed :
    (r : ConnectionRecord) (run : SyncRun) (t : Tracker)
    → is_failed (sync_one_connection r run t).0.status ≡ (sync_one_connection r run t).1
unfolding sync_one_connection conclude
sync_one-failed r run t = elim (Bool-cases (prepare (is_refresh_pending t).1).0) [
  | inl ready ↦ rw ready (
      conclude-failed r run.ending t.writes (is_refresh_pending t).0
        (observe_all (readied t) run.notified))
  | inr refused ↦ rw refused refl
]

sync_all-counts :
    (sync : ConnectionRecord → SyncRun) (rs : List ConnectionRecord) (t : Tracker)
    → ((sync_all sync rs t).failed_count ≡ count_failed (sync_all sync rs t).summaries)
      × (length (sync_all sync rs t).summaries ≡ length rs)
      × ((sync_all sync rs t).failed_count ≤ length rs)
unfolding sync_all
sync_all-counts sync [] t = (refl, refl, omega arith)
sync_all-counts sync (r ∷ rs) t =
    let (failures, all, bound) = sync_all-counts sync rs (sync_one_connection r (sync r) t).2 in
    (
      rw (sync_one-failed r (sync r) t)
          (ap (λ n. (if (sync_one_connection r (sync r) t).1 then 1 else 0) + n) failures),
      omega arith,
      ground arith,
    )

as_eligible-counts :
    (rs : List ConnectionRecord)
    → (length (map as_eligible rs) ≡ length rs)
      × (count_failed (map as_eligible rs) ≡ 0)
      × (total_writes (map as_eligible rs) ≡ 0)
as_eligible-counts [] = (refl, refl, refl)
as_eligible-counts (r ∷ rs) =
    let (all, failures, writes) = as_eligible-counts rs in (omega arith, omega arith, omega arith)

-- The summary of a run, dry or not, accounts for every eligible connection: it has one summary
-- each, counts as failed as many as have that status, and its data count as changed exactly when
-- some summary has a write. Failures and successes together are all connections, and none of them
-- in a dry run.
pub run_refresh-counts :
    (sync : ConnectionRecord → SyncRun) (dbt : DbtEnding) (dry_run : Bool)
    (started completed : String) (rs : List ConnectionRecord) (disk : Disk)
    → let s : RefreshSummary = (run_refresh sync dbt dry_run started completed rs disk).0 in
      (s.eligible_connections ≡ length rs)
      × (length s.connections ≡ length rs)
      × (s.failed_connections ≡ count_failed s.connections)
      × (s.failed_connections + s.successful_connections ≡ (if dry_run then 0 else length rs))
      × (s.data_changed ≡ ltb 0 (total_writes s.connections))
unfolding run_refresh new_tracker
run_refresh-counts sync dbt true started completed rs disk =
    let (all, failures, writes) = as_eligible-counts rs in
    (refl, all, omega arith, refl, ground arith)
run_refresh-counts sync dbt false started completed rs disk =
    let (failures, all, bound) = sync_all-counts sync rs (new_tracker disk) in
    let total = sync_all-writes sync rs (new_tracker disk) in
    let after = dbt_step-writes dbt (sync_all sync rs (new_tracker disk)).tracker in
    (refl, all, failures, omega arith, ground arith)
