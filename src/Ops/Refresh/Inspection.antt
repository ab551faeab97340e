-- ===== src/Ops/Refresh/Inspection.antt =====
-- What a run does when the inspection of the marker raises once and no connection changes anything
-- (src/penge/ops/net_worth_refresh.py).
use penge.Prelude.{
  ℕ, zero, suc, ◌+◌, ◌≡◌, ◌∙◌, ap, refl, arith, String, true, false, List, [], ◌∷◌, Option, some,
}
use penge.Ops.Marker.{Tracker, operate, new_tracker, observe, prepare, is_refresh_pending, clear}
use penge.Ops.Refresh.{
  ConnectionRecord, Ending, returned, connection_error, unexpected, SyncRun, observe_all,
  clear_if_idle, count_rest, conclude, sync_one_connection, sync_all, DbtEnding, dbt_step,
  skipped_no_changes, run_refresh,
}

-- The writes of a call: those that it notifies, and those of the outcome that it returns.
abbrev notified_total : List ℕ → ℕ
notified_total [] = 0
notified_total (n ∷ ns) = n + notified_total ns

abbrev returned_writes : Ending → ℕ
returned_writes (returned outcome) = outcome.writes
returned_writes (connection_error message) = 0
returned_writes unexpected = 0

abbrev pub written : SyncRun → ℕ
written run = notified_total run.notified + returned_writes run.ending

-- Every call changes nothing, in whatever way it ends.
abbrev pub AllIdle : (ConnectionRecord → SyncRun) → List ConnectionRecord → Type 0
AllIdle sync [] = Unit
AllIdle sync (r ∷ rs) = (written (sync r) ≡ 0) × AllIdle sync rs

-- A tracker without a write or a further fault.
abbrev marked : Option String → Tracker
marked e = record { disk = record { present = true; faults = [] }; writes = 0; error = e }

abbrev unmarked : Option String → Tracker
unmarked e = record { disk = record { present = false; faults = [] }; writes = 0; error = e }

observe_all-idle :
    (e : Option String) (ns : List ℕ) → notified_total ns ≡ 0 → observe_all (marked e) ns ≡ marked e
unfolding observe_all observe
observe_all-idle e [] h = refl
observe_all-idle e (zero ∷ ns) h = observe_all-idle e ns (omega arith)
observe_all-idle e (suc n ∷ ns) h = absurd (omega (arith, h))

conclude-idle :
    (r : ConnectionRecord) (end : Ending) (e : Option String)
    → returned_writes end ≡ 0
    → (conclude r end 0 false (marked e)).2 ≡ unmarked e
unfolding conclude clear_if_idle count_rest observe clear operate
conclude-idle r (returned outcome) e h = rw h refl
conclude-idle r (connection_error message) e h = refl
conclude-idle r unexpected e h = refl

module _ (r : ConnectionRecord) (run : SyncRun) (idle : written run ≡ 0) where
  marked-unmarked :
      (e : Option String)
      → (conclude r run.ending 0 false (observe_all (marked e) run.notified)).2 ≡ unmarked e
  marked-unmarked e =
      rw (observe_all-idle e run.notified (omega arith))
        (conclude-idle r run.ending e (omega arith))

  sync_one-idle : (e : Option String) → (sync_one_connection r run (unmarked e)).2 ≡ unmarked e
  unfolding sync_one_connection is_refresh_pending prepare operate
  sync_one-idle e = marked-unmarked e

  sync_one-uninspected :
      (name : String)
      → (e : Option String) × ((sync_one_connection r run
            (new_tracker (record { present = true; faults = some name ∷ [] }))).2
          ≡ unmarked e)
  unfolding sync_one_connection new_tracker is_refresh_pending prepare operate
  sync_one-uninspected name = (_, marked-unmarked _)

sync_all-idle :
    (sync : ConnectionRecord → SyncRun) (rs : List ConnectionRecord) (e : Option String)
    → AllIdle sync rs
    → (sync_all sync rs (unmarked e)).tracker ≡ unmarked e
unfolding sync_all
sync_all-idle sync [] e h = refl
sync_all-idle sync (r ∷ rs) e h =
    ap (λ x. (sync_all sync rs x).tracker) (sync_one-idle r (sync r) h.0 e)
    ∙ sync_all-idle sync rs e h.1

dbt_step-unmarked :
    (dbt : DbtEnding) (e : Option String)
    → ((dbt_step dbt (unmarked e)).0 ≡ skipped_no_changes)
      × ((dbt_step dbt (unmarked e)).2.disk.present ≡ false)
unfolding dbt_step is_refresh_pending operate
dbt_step-unmarked dbt e = (refl, refl)

-- A run, not a dry one, over at least one connection, in which no connection changes anything,
-- however its sync ends: if the first inspection of the marker raises, and no later operation on
-- it does, the marker of an earlier refresh that has still to be repeated is deleted, and dbt is
-- not run.
pub failed_inspection_loses_marker :
    (sync : ConnectionRecord → SyncRun) (dbt : DbtEnding) (name started completed : String)
    (r : ConnectionRecord) (rs : List ConnectionRecord)
    → AllIdle sync (r ∷ rs)
    → let (s, disk) =
        run_refresh sync dbt false started completed
          (r ∷ rs)
          (record { present = true; faults = some name ∷ [] }) in
      (disk.present ≡ false) × (s.dbt_status ≡ skipped_no_changes)
unfolding run_refresh sync_all
failed_inspection_loses_marker sync dbt name started completed r rs (first, idle) =
    let start : Tracker = new_tracker (record { present = true; faults = some name ∷ [] }) in
    let (e, one) = sync_one-uninspected r (sync r) first name in
    let all : (sync_all sync rs (sync_one_connection r (sync r) start).2).tracker ≡ unmarked e =
      ap (λ x. (sync_all sync rs x).tracker) one ∙ sync_all-idle sync rs e idle in
    let (status, left) = dbt_step-unmarked dbt e in
    (
      ap (λ x. (dbt_step dbt x).2.disk.present) all ∙ left,
      ap (λ x. (dbt_step dbt x).0) all ∙ status,
    )
