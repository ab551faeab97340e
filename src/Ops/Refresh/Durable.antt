-- ===== src/Ops/Refresh/Durable.antt =====
-- What a run leaves of the pending-refresh marker, and the counts of its summary
-- (src/penge/ops/net_worth_refresh.py).
use penge.Prelude.{
  ℕ, ◌+◌, ◌<◌, ◌≤◌, ◌≡◌, ◌≢◌, ◌∙◌, ap, inl, inr, refl, arith, String, Bool, true, false, ◌||◌, ltb,
  List, [], ◌∷◌, Bool-cases, Option-cases,
}
use penge.Ops.Marker.{
  Disk, Tracker, next_fault, operate, new_tracker, observe, record_error, prepare,
  is_refresh_pending, clear,
}
use penge.Ops.Refresh.{
  ConnectionRecord, Ending, returned, connection_error, unexpected, SyncRun, ConnectionSummary,
  observe_all, clear_if_idle, count_rest, conclude, sync_one_connection, sync_all, DbtEnding,
  refreshed, dbt_refresh_error, dbt_unexpected, run_dbt, dbt_step, run_refresh,
}

-- Once a write is counted, the marker is there.
abbrev pub IsDurable : Tracker → Type 0
IsDurable t = 0 < t.writes → t.disk.present ≡ true

pub pending-writes : (t : Tracker) → (is_refresh_pending t).1.writes ≡ t.writes
unfolding is_refresh_pending operate record_error
pending-writes t = elim (Bool-cases (ltb 0 t.writes)) [
  | inl some_writes ↦ rw some_writes refl
  | inr no_writes ↦ rw no_writes (elim (Option-cases (next_fault t.disk.faults).0) [
    | inl e ↦ rw e refl
    | inr (x, e) ↦ rw e refl
  ])
]

pub pending-present : (t : Tracker) → (is_refresh_pending t).1.disk.present ≡ t.disk.present
unfolding is_refresh_pending operate record_error
pending-present t = elim (Bool-cases (ltb 0 t.writes)) [
  | inl some_writes ↦ rw some_writes refl
  | inr no_writes ↦ rw no_writes (elim (Option-cases (next_fault t.disk.faults).0) [
    | inl e ↦ rw (e, operate) (rw (operate, e) refl)
    | inr (x, e) ↦ rw (e, operate) (rw (operate, e) refl)
  ])
]

pub pending-true : (t : Tracker) → 0 < t.writes → (is_refresh_pending t).0 ≡ true
unfolding is_refresh_pending
pending-true t h = ground arith

pub prepare-writes : (t : Tracker) → (prepare t).1.writes ≡ t.writes
unfolding prepare operate record_error
prepare-writes t = elim (Option-cases (next_fault t.disk.faults).0) [
  | inl e ↦ rw (prepare, operate, e) refl
  | inr (x, e) ↦ rw (prepare, operate, e) refl
]

prepare-present : (t : Tracker) → (prepare t).1.disk.present ≡ ((prepare t).0 || t.disk.present)
unfolding prepare operate record_error
prepare-present t = elim (Option-cases (next_fault t.disk.faults).0) [
  | inl e ↦ rw (prepare, operate, e) (rw (operate, e) refl)
  | inr (x, e) ↦ rw (prepare, operate, e) (rw (operate, e) refl)
]

clear-writes : (t : Tracker) → (clear t).writes ≡ t.writes
unfolding clear operate record_error
clear-writes t = elim (Option-cases (next_fault t.disk.faults).0) [
  | inl e ↦ rw (clear, operate, e) refl
  | inr (x, e) ↦ rw (clear, operate, e) refl
]

pub observe_all-present :
    (t : Tracker) (ns : List ℕ) → (observe_all t ns).disk.present ≡ t.disk.present
unfolding observe_all observe
observe_all-present t [] = refl
observe_all-present t (n ∷ ns) = observe_all-present (observe t n) ns

pub observe_all-writes : (t : Tracker) (ns : List ℕ) → t.writes ≤ (observe_all t ns).writes
unfolding observe_all observe
observe_all-writes t [] = omega arith
observe_all-writes t (n ∷ ns) = omega (arith, observe_all-writes (observe t n) ns)

pub clear_if_idle-writes :
    (before : ℕ) (p : Bool) (t : Tracker) → (clear_if_idle before p t).writes ≡ t.writes
unfolding clear_if_idle
clear_if_idle-writes before p t = ground (arith, clear-writes t)

-- Nothing is cleared that stands for a write.
pub clear_if_idle-IsDurable :
    (before : ℕ) (p : Bool) (t : Tracker)
    → t.disk.present ≡ true
    → (0 < before → p ≡ true)
    → IsDurable (clear_if_idle before p t)
unfolding clear_if_idle
clear_if_idle-IsDurable before p t there known = ground (arith, clear-writes t)

count_rest-present :
    (before n : ℕ) (t : Tracker) → (count_rest before n t).disk.present ≡ t.disk.present
unfolding count_rest observe
count_rest-present before n t = ground arith

count_rest-writes : (before n : ℕ) (t : Tracker) → t.writes ≤ (count_rest before n t).writes
unfolding count_rest observe
count_rest-writes before n t = ground arith

conclude-IsDurable :
    (r : ConnectionRecord) (e : Ending) (before : ℕ) (p : Bool) (t : Tracker)
    → t.disk.present ≡ true
    → (0 < before → p ≡ true)
    → IsDurable (conclude r e before p t).2
unfolding conclude
conclude-IsDurable r (returned o) before p t there known =
    clear_if_idle-IsDurable before p (count_rest before o.writes t)
      (count_rest-present before o.writes t ∙ there) known
conclude-IsDurable r (connection_error m) before p t there known =
    clear_if_idle-IsDurable before p t there known
conclude-IsDurable r unexpected before p t there known =
    clear_if_idle-IsDurable before p t there known

conclude-writes :
    (r : ConnectionRecord) (e : Ending) (before : ℕ) (p : Bool) (t : Tracker)
    → before ≤ t.writes
    → before + (conclude r e before p t).0.writes ≡ (conclude r e before p t).2.writes
unfolding conclude
conclude-writes r (returned o) before p t h = omega (
  arith,
  clear_if_idle-writes before p (count_rest before o.writes t),
  count_rest-writes before o.writes t,
)
conclude-writes r (connection_error m) before p t h = omega (arith, clear_if_idle-writes before p t)
conclude-writes r unexpected before p t h = omega (arith, clear_if_idle-writes before p t)

-- The tracker that the sync function gets.
abbrev pub readied : Tracker → Tracker
readied t = (prepare (is_refresh_pending t).1).1

pub readied-writes : (t : Tracker) → (readied t).writes ≡ t.writes
readied-writes t = prepare-writes (is_refresh_pending t).1 ∙ pending-writes t

pub readied-present :
    (t : Tracker)
    → (readied t).disk.present ≡ ((prepare (is_refresh_pending t).1).0 || t.disk.present)
readied-present t =
    prepare-present (is_refresh_pending t).1
    ∙ ap (λ b. (prepare (is_refresh_pending t).1).0 || b) (pending-present t)

sync_one-IsDurable :
    (r : ConnectionRecord) (run : SyncRun) (t : Tracker)
    → IsDurable t
    → IsDurable (sync_one_connection r run t).2
unfolding sync_one_connection
sync_one-IsDurable r run t h = elim (Bool-cases (prepare (is_refresh_pending t).1).0) [
  | inl ready ↦
      let there : (readied t).disk.present ≡ true = rw ready at (readied-present t) in
      rw ready (
        conclude-IsDurable r run.ending t.writes (is_refresh_pending t).0
          (observe_all (readied t) run.notified)
          (observe_all-present (readied t) run.notified ∙ there) (pending-true t))
  | inr refused ↦
      let same : (readied t).disk.present ≡ t.disk.present = rw refused at (readied-present t) in
      rw refused (λ w. same ∙ h (rw (readied-writes t) at w))
]

-- A connection's summary says how many writes it added to the run's.
sync_one-writes :
    (r : ConnectionRecord) (run : SyncRun) (t : Tracker)
    → t.writes + (sync_one_connection r run t).0.writes ≡ (sync_one_connection r run t).2.writes
unfolding sync_one_connection
sync_one-writes r run t = elim (Bool-cases (prepare (is_refresh_pending t).1).0) [
  | inl ready ↦
      let more : t.writes ≤ (observe_all (readied t) run.notified).writes =
        omega (arith, readied-writes t, observe_all-writes (readied t) run.notified) in
      rw ready (
        conclude-writes r run.ending t.writes (is_refresh_pending t).0
          (observe_all (readied t) run.notified) more)
  | inr refused ↦ rw refused (omega (arith, readied-writes t))
]

abbrev pub total_writes : List ConnectionSummary → ℕ
total_writes [] = 0
total_writes (s ∷ ss) = s.writes + total_writes ss

module _ (sync : ConnectionRecord → SyncRun) where
  sync_all-IsDurable :
      (rs : List ConnectionRecord) (t : Tracker)
      → IsDurable t
      → IsDurable (sync_all sync rs t).tracker
  unfolding sync_all
  sync_all-IsDurable [] t h = h
  sync_all-IsDurable (r ∷ rs) t h =
      sync_all-IsDurable rs (sync_one_connection r (sync r) t).2 (sync_one-IsDurable r (sync r) t h)

  pub sync_all-writes :
      (rs : List ConnectionRecord) (t : Tracker)
      → t.writes + total_writes (sync_all sync rs t).summaries ≡ (sync_all sync rs t).tracker.writes
  unfolding sync_all
  sync_all-writes [] t = omega arith
  sync_all-writes (r ∷ rs) t =
      omega (
        arith,
        sync_one-writes r (sync r) t,
        sync_all-writes rs (sync_one_connection r (sync r) t).2,
      )

run_dbt-writes : (dbt : DbtEnding) (t : Tracker) → (run_dbt dbt t).2.writes ≡ t.writes
run_dbt-writes refreshed t = clear-writes t
run_dbt-writes (dbt_refresh_error m) t = refl
run_dbt-writes dbt_unexpected t = refl

run_dbt-present :
    (dbt : DbtEnding) (t : Tracker)
    → dbt ≢ refreshed
    → (run_dbt dbt t).2.disk.present ≡ t.disk.present
run_dbt-present refreshed t broken = absurd (broken refl)
run_dbt-present (dbt_refresh_error m) t broken = refl
run_dbt-present dbt_unexpected t broken = refl

pub dbt_step-writes : (dbt : DbtEnding) (t : Tracker) → (dbt_step dbt t).2.writes ≡ t.writes
unfolding dbt_step
dbt_step-writes dbt t = elim (Bool-cases (is_refresh_pending t).0) [
  | inl pending ↦ rw pending (run_dbt-writes dbt (is_refresh_pending t).1 ∙ pending-writes t)
  | inr idle ↦ rw idle (pending-writes t)
]

pub dbt_step-present :
    (dbt : DbtEnding) (t : Tracker)
    → dbt ≢ refreshed
    → (dbt_step dbt t).2.disk.present ≡ t.disk.present
unfolding dbt_step
dbt_step-present dbt t broken = elim (Bool-cases (is_refresh_pending t).0) [
  | inl pending ↦
      rw pending (run_dbt-present dbt (is_refresh_pending t).1 broken ∙ pending-present t)
  | inr idle ↦ rw idle (pending-present t)
]

-- Whatever the connections do and whichever operations on the marker fail, a run that counted a
-- write and whose dbt step did not succeed leaves the marker for the next run.
pub changed_data-keeps_marker :
    (sync : ConnectionRecord → SyncRun) (dbt : DbtEnding) (started completed : String)
    (rs : List ConnectionRecord) (disk : Disk)
    → (run_refresh sync dbt false started completed rs disk).0.data_changed ≡ true
    → dbt ≢ refreshed
    → (run_refresh sync dbt false started completed rs disk).1.present ≡ true
unfolding run_refresh
changed_data-keeps_marker sync dbt started completed rs disk h broken =
    let t : Tracker = (sync_all sync rs (new_tracker disk)).tracker in
    let durable = sync_all-IsDurable sync rs (new_tracker disk) (λ w. absurd (omega arith)) in
    dbt_step-present dbt t broken ∙ durable (ground (arith, dbt_step-writes dbt t))
