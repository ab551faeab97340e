-- ===== src/Tests/Refresh.antt =====
-- A scheduled refresh of two connections, and promotions of two schemas
-- (src/penge/ops/net_worth_refresh.py).
use penge.Prelude.{
  ℕ, String, ◌≡◌, ◌+◌, ◌&&◌, ◌||◌, ltb, length, refl, arith, true, false, List, [], ◌∷◌, none, some,
  ok, err, if◌then◌else◌,
}
use penge.Prelude.Eq.{string_eq}
use penge.Ops.Marker.{Disk}
use penge.Ops.Refresh.{
  ConnectionRecord, SyncOutcome, returned, connection_error, unexpected, SyncRun, DbtEnding,
  refreshed, dbt_unexpected, RefreshSummary, run_refresh, skipped_no_changes,
}
use penge.Ops.Refresh.Durable.{changed_data-keeps_marker, total_writes}
use penge.Ops.Refresh.Counts.{run_refresh-counts, count_failed}
use penge.Ops.Refresh.Intact.{marker_after_run, status_of}
use penge.Ops.Refresh.Inspection.{failed_inspection_loses_marker}
use penge.Ops.Lock.{
  Body, is_entered, lock_at, sync_with_intent, lock_as_before, reported_write-keeps_marker,
}
use penge.Ops.Promotion as Schemas
use penge.Ops.Promotion.{
  Database, Build, refresh_staging, refresh_marts, live_staging, live_marts, promote, refresh,
}
use penge.Ops.Promotion.Atomic.{promote-promoted, promoted}
use penge.Ops.Promotion.Guard.{
  refused_refresh-keeps_live, accepted_refresh-serves_build, is_shadow, WritesShadowsOnly,
}

abbrev bank : ConnectionRecord
bank = record { id = "1"; provider = "bank" }

abbrev broker : ConnectionRecord
broker = record { id = "2"; provider = "broker" }

abbrev outcome : SyncOutcome
outcome = record { transactions = 3; holding_snapshots = 0; payment_details = 1; writes = 4 }

-- The first connection commits an account and then fails; the second one succeeds.
abbrev sync : ConnectionRecord → SyncRun
sync r =
    if string_eq.beq r.id "1"
    then record { notified = 2 ∷ []; ending = unexpected }
    else record { notified = 3 ∷ []; ending = returned outcome }

abbrev calm : Disk
calm = record { present = false; faults = [] }

-- The second connection cannot write the marker.
abbrev stormy : Disk
stormy = record { present = false; faults = none ∷ none ∷ some "PermissionError" ∷ [] }

abbrev both : List ConnectionRecord
both = bank ∷ broker ∷ []

abbrev run : DbtEnding → Disk → RefreshSummary × Disk
run dbt disk = run_refresh sync dbt false "t0" "t1" both disk

-- The run in which the marker could not be written the second time has still counted two writes.
stormy_changed : (run dbt_unexpected stormy).0.data_changed ≡ true
unfolding run_refresh
stormy_changed = refl

-- Three writes were notified and the outcome says four.
calm_writes : total_writes (run refreshed calm).0.connections ≡ 6
unfolding run_refresh
calm_writes = refl

changed_data-keeps_marker_example : (run dbt_unexpected stormy).1.present ≡ true
changed_data-keeps_marker_example =
    changed_data-keeps_marker sync dbt_unexpected "t0" "t1" both stormy stormy_changed
      (λ e. absurd (cc e))

marker_after_run_example :
    ((run refreshed calm).1.present
      ≡ ((false || ltb 0 (total_writes (run refreshed calm).0.connections)) && false))
    × ((run refreshed calm).0.dbt_status
        ≡ status_of (false || ltb 0 (total_writes (run refreshed calm).0.connections)) refreshed)
marker_after_run_example = marker_after_run sync refreshed false "t0" "t1" both false

run_refresh-counts_example :
    ((run refreshed calm).0.eligible_connections ≡ 2)
    × (length (run refreshed calm).0.connections ≡ 2)
    × ((run refreshed calm).0.failed_connections ≡ count_failed (run refreshed calm).0.connections)
    × ((run refreshed calm).0.failed_connections + (run refreshed calm).0.successful_connections
        ≡ 2)
    × ((run refreshed calm).0.data_changed
        ≡ ltb 0 (total_writes (run refreshed calm).0.connections))
run_refresh-counts_example = run_refresh-counts sync refreshed false "t0" "t1" both calm

abbrev unreadable : Disk
unreadable = record { present = true; faults = some "PermissionError" ∷ [] }

-- The consent of the bank has expired, and the broker has nothing new.
abbrev idle_outcome : SyncOutcome
idle_outcome = record { transactions = 0; holding_snapshots = 0; payment_details = 0; writes = 0 }

abbrev idle_sync : ConnectionRecord → SyncRun
idle_sync r =
    if string_eq.beq r.id "1"
    then record { notified = []; ending = connection_error "session expired" }
    else record { notified = 0 ∷ []; ending = returned idle_outcome }

abbrev idle_run : RefreshSummary × Disk
idle_run = run_refresh idle_sync refreshed false "t0" "t1" both unreadable

failed_inspection_loses_marker_example :
    (idle_run.1.present ≡ false) × (idle_run.0.dbt_status ≡ skipped_no_changes)
failed_inspection_loses_marker_example =
    failed_inspection_loses_marker idle_sync refreshed "PermissionError" "t0" "t1" bank
      (broker ∷ []) (refl, (refl, tt))

-- A sync that reports five writes and then raises.
abbrev broken_sync : Body String ℕ
broken_sync = record { reported = 2 ∷ 3 ∷ []; ending = err "timeout" }

lock_as_before_example :
    ((sync_with_intent none false broken_sync calm).lock ≡ lock_at false)
    × ((false && is_entered (sync_with_intent none false broken_sync calm).ending) ≡ false)
lock_as_before_example = lock_as_before broken_sync none false calm

broken_sync_entered : is_entered (sync_with_intent none false broken_sync calm).ending ≡ true
unfolding sync_with_intent
broken_sync_entered = refl

reported_write-keeps_marker_example :
    (sync_with_intent none false broken_sync calm).disk.present ≡ true
reported_write-keeps_marker_example =
    reported_write-keeps_marker broken_sync none false calm broken_sync_entered (omega arith)

-- A database with live marts, and a dbt build that fills both shadow schemas with 7.
abbrev live_only : Database ℕ
live_only = λ n. if string_eq.beq n live_marts then some 1 else none

abbrev shadowed : Database ℕ
shadowed = λ n. if is_shadow n then some 7 else live_only n

abbrev build_seven : Build ℕ
build_seven = λ db. (true, λ n. if is_shadow n then some 7 else db n)

abbrev build_failing : Build ℕ
build_failing = λ db. (false, λ n. if is_shadow n then some 7 else db n)

promote-promoted_example :
    (after : Database ℕ) × (promote shadowed ≡ ok after)
    × ((name : String) → after name ≡ promoted shadowed name)
promote-promoted_example = promote-promoted shadowed 7 7 refl refl

build_failing_lem : WritesShadowsOnly build_failing
build_failing_lem db n h = rw h refl

failing_raises : (refresh build_failing true true live_only).0 ≡ err Schemas.dbt_refresh_error
unfolding refresh
failing_raises = refl

refused_refresh-keeps_live_example :
    (refresh build_failing true true live_only).1 live_marts ≡ some 1
refused_refresh-keeps_live_example =
    refused_refresh-keeps_live build_failing true true live_only build_failing_lem failing_raises
      live_marts refl

seven_returns : (refresh build_seven true false live_only).0 ≡ ok tt
unfolding refresh
seven_returns = refl

accepted_refresh-serves_build_example :
    (true ≡ true)
    × ((refresh build_seven true false live_only).1 live_staging ≡ some 7)
    × ((refresh build_seven true false live_only).1 live_marts ≡ some 7)
    × ((refresh build_seven true false live_only).1 refresh_staging ≡ none)
    × ((refresh build_seven true false live_only).1 refresh_marts ≡ none)
accepted_refresh-serves_build_example =
    accepted_refresh-serves_build build_seven true false live_only seven_returns
