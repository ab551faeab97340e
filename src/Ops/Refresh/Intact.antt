-- ===== src/Ops/Refresh/Intact.antt =====
-- Runs in which every operation on the marker works, and what a failed inspection does
-- (src/penge/ops/net_worth_refresh.py).
use penge.Prelude.{
  ℕ, ◌+◌, ◌≤◌, ◌≡◌, ◌∙◌, ap, sym, subst, refl, arith, String, Bool, true, false, not, ◌&&◌, ◌||◌,
  ltb, List, [], ◌∷◌, none, if◌then◌else◌,
}
use penge.Ops.Marker.{Tracker, operate, new_tracker, observe, is_refresh_pending, clear}
use penge.Ops.Refresh.{
  ConnectionRecord, Ending, returned, connection_error, unexpected, SyncRun, observe_all,
  clear_if_idle, count_rest, conclude, sync_one_connection, Progress, sync_all, DbtEnding,
  refreshed, dbt_refresh_error, dbt_unexpected, run_dbt, dbt_step, DbtStatus, skipped_no_changes,
  skipped_dry_run, dbt_failed, dbt_succeeded, run_refresh,
}
use penge.Ops.Refresh.Durable.{observe_all-writes, sync_all-writes, total_writes}

-- The tracker of a run that began with the marker at `b` and met no fault.
abbrev pub intact : Bool → ℕ → Tracker
intact b n = record { disk = record { present = b; faults = [] }; writes = n; error = none }

-- A refresh is pending: it was at the start, or a write has come.
abbrev due : Bool → ℕ → Tracker
due b n = intact (b || ltb 0 n) n

pending-due : (b : Bool) (n : ℕ) → is_refresh_pending (due b n) ≡ (b || ltb 0 n, due b n)
unfolding is_refresh_pending operate
pending-due b n = ground arith

observe_all-intact :
    (b : Bool) (n : ℕ) (ns : List ℕ)
    → observe_all (intact b n) ns ≡ intact b (observe_all (intact b n) ns).writes
unfolding observe_all observe
observe_all-intact b n [] = refl
observe_all-intact b n (k ∷ ks) = observe_all-intact b (n + k) ks

count_rest-intact :
    (before w : ℕ) (n : ℕ)
    → count_rest before w (intact true n) ≡ intact true (count_rest before w (intact true n)).writes
unfolding count_rest observe
count_rest-intact before w n = ground arith

count_rest-more : (before w : ℕ) (n : ℕ) → n ≤ (count_rest before w (intact true n)).writes
unfolding count_rest observe
count_rest-more before w n = ground arith

clear_if_idle-intact :
    (b : Bool) (before n : ℕ)
    → before ≤ n
    → clear_if_idle before (b || ltb 0 before) (intact true n) ≡ due b n
unfolding clear_if_idle clear operate
clear_if_idle-intact b before n h = ground arith

-- The tracker is that of a run without faults so far.
abbrev pub IsDue : Bool → Tracker → Type 0
IsDue b t = t ≡ due b t.writes

settle : (b : Bool) (n : ℕ) (t : Tracker) → t ≡ due b n → IsDue b t
settle b n t e = e ∙ ap (due b) (sym (ap (λ (x : Tracker). x.writes) e))

conclude-intact :
    (r : ConnectionRecord) (e : Ending) (b : Bool) (before n : ℕ)
    → before ≤ n
    → IsDue b (conclude r e before (b || ltb 0 before) (intact true n)).2
unfolding conclude
conclude-intact r (returned o) b before n h =
    let m : ℕ = (count_rest before o.writes (intact true n)).writes in
    let more : before ≤ m = omega (arith, count_rest-more before o.writes n) in
    rw (count_rest-intact before o.writes n) (settle b m _ (clear_if_idle-intact b before m more))
conclude-intact r (connection_error m) b before n h =
    settle b n _ (clear_if_idle-intact b before n h)
conclude-intact r unexpected b before n h = settle b n _ (clear_if_idle-intact b before n h)

sync_one-intact :
    (r : ConnectionRecord) (run : SyncRun) (b : Bool) (n : ℕ)
    → IsDue b (sync_one_connection r run (due b n)).2
unfolding sync_one_connection
sync_one-intact r run b n =
    rw (pending-due b n, observe_all-intact true n run.notified)
      (conclude-intact r run.ending b n (observe_all (intact true n) run.notified).writes
        (observe_all-writes (intact true n) run.notified))

sync_all-intact :
    (sync : ConnectionRecord → SyncRun) (rs : List ConnectionRecord) (b : Bool) (t : Tracker)
    → IsDue b t
    → IsDue b (sync_all sync rs t).tracker
unfolding sync_all
sync_all-intact sync [] b t h = h
sync_all-intact sync (r ∷ rs) b t h =
    sync_all-intact sync rs b (sync_one_connection r (sync r) t).2 (
      subst (λ x. IsDue b (sync_one_connection r (sync r) x).2) (sym h)
        (sync_one-intact r (sync r) b t.writes))

abbrev is_refreshed : DbtEnding → Bool
is_refreshed refreshed = true
is_refreshed (dbt_refresh_error _) = false
is_refreshed dbt_unexpected = false

-- What the status of the dbt step is to be.
abbrev pub status_of : Bool → DbtEnding → DbtStatus
status_of true refreshed = dbt_succeeded
status_of true (dbt_refresh_error _) = dbt_failed
status_of true dbt_unexpected = dbt_failed
status_of false _ = skipped_no_changes

dbt_outcome :
    (dbt : DbtEnding) (p : Bool) (n : ℕ)
    → ((if p then run_dbt dbt (intact p n) else (skipped_no_changes, none, intact p n)).0
        ≡ status_of p dbt)
      × ((if p
            then run_dbt dbt (intact p n)
            else (skipped_no_changes, none, intact p n)).2.disk.present
          ≡ (p && not (is_refreshed dbt)))
unfolding clear operate
dbt_outcome refreshed true n = (refl, refl)
dbt_outcome (dbt_refresh_error m) true n = (refl, refl)
dbt_outcome dbt_unexpected true n = (refl, refl)
dbt_outcome dbt false n = (refl, refl)

dbt_step-intact :
    (dbt : DbtEnding) (b : Bool) (n : ℕ)
    → ((dbt_step dbt (due b n)).0 ≡ status_of (b || ltb 0 n) dbt)
      × ((dbt_step dbt (due b n)).2.disk.present ≡ ((b || ltb 0 n) && not (is_refreshed dbt)))
unfolding dbt_step
dbt_step-intact dbt b n = rw (pending-due b n) (dbt_outcome dbt (b || ltb 0 n) n)

-- If no operation on the marker fails: a dry run leaves the marker as it was and runs no dbt; after
-- any other run, also one in which syncs have failed, the marker is there exactly if a refresh was
-- due (the marker was there before, or some connection has a write) and dbt did not succeed, and
-- dbt is run exactly if a refresh was due.
pub marker_after_run :
    (sync : ConnectionRecord → SyncRun) (dbt : DbtEnding) (dry_run : Bool)
    (started completed : String) (rs : List ConnectionRecord) (b : Bool)
    → let (s, disk) =
        run_refresh sync dbt dry_run started completed rs (record { present = b; faults = [] }) in
      let is_due : Bool = b || ltb 0 (total_writes s.connections) in
      (disk.present ≡ (if dry_run then b else is_due && not (is_refreshed dbt)))
      × (s.dbt_status ≡ (if dry_run then skipped_dry_run else status_of is_due dbt))
unfolding run_refresh new_tracker
marker_after_run sync dbt true started completed rs b = (refl, refl)
marker_after_run sync dbt false started completed rs b =
    let p : Progress = sync_all sync rs (new_tracker (record { present = b; faults = [] })) in
    let begun : IsDue b (new_tracker (record { present = b; faults = [] })) = ground arith in
    let total : p.tracker.writes ≡ total_writes p.summaries =
      omega (arith, sync_all-writes sync rs (new_tracker (record { present = b; faults = [] }))) in
    let all : p.tracker ≡ due b (total_writes p.summaries) =
      sync_all-intact sync rs b (new_tracker (record { present = b; faults = [] })) begun
      ∙ ap (due b) total in
    let (status, left) = dbt_step-intact dbt b (total_writes p.summaries) in
    (
      ap (λ x. (dbt_step dbt x).2.disk.present) all ∙ left,
      ap (λ x. (dbt_step dbt x).0) all ∙ status,
    )
