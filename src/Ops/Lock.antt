-- ===== src/Ops/Lock.antt =====
-- `_ExclusiveLock`, `_RefreshWriteIntent` and `sync_connection_with_intent`
-- (src/penge/ops/net_worth_refresh.py): raw writes under a lock, with the durable intent.
use penge.Prelude.{
  ℕ, ◌+◌, ◌<◌, ◌≡◌, ◌∙◌, ap, inl, inr, refl, arith, String, Bool, true, false, List, [], ◌∷◌,
  Option, none, some, Result, ok, err, if◌then◌else◌, ◌&&◌, Bool-cases,
}
use penge.Ops.Marker.{Disk, Tracker, new_tracker, observe, prepare, is_refresh_pending}
use penge.Ops.Refresh.{observe_all, clear_if_idle}
use penge.Ops.Refresh.Durable.{
  readied, observe_all-present, readied-present, clear_if_idle-IsDurable, clear_if_idle-writes,
}

-- LockUnavailableError and RefreshStateError, with the text they have from the failed operation.
pub data Refusal : Type 0 where
  lock_unavailable : Refusal
  refresh_state_error : Option String → Refusal

-- The exceptions on the way in, and those that the body lets out.
pub data IntentError (E : Type 0) : Type 0 where
  refused : Refusal → IntentError E
  raised : E → IntentError E

-- Who has the lock on the file: nobody, another process, or this one.
pub data Holder : Type 0 where
  free other ours : Holder

-- The lock on the file, and whether `_ExclusiveLock._file` is set.
pub record Lock : Type 0 where
  pub holder : Holder
  pub has_file : Bool

-- The lock before the `with` statement; `held` says that another process has it.
abbrev pub lock_at : Bool → Lock
lock_at held = record { holder = if held then other else free; has_file = false }

-- flock with LOCK_EX and LOCK_NB: nothing if it is taken.
abbrev pub flock_exclusive : Holder → Option Holder
flock_exclusive free = some ours
flock_exclusive other = none
flock_exclusive ours = none

-- flock with LOCK_UN, which touches no lock of another process.
abbrev pub flock_unlock : Holder → Holder
flock_unlock free = free
flock_unlock other = other
flock_unlock ours = free

-- `__enter__` of the lock; `fault` is the OSError that mkdir, open or flock raises.
unfoldable pub enter_lock : Option String → Lock → Option Refusal × Lock
enter_lock (some name) lock = (some (refresh_state_error (some name)), lock)
enter_lock none lock = elim (flock_exclusive lock.holder) [
  | none ↦ (some lock_unavailable, lock)
  | some holder ↦ (none, record { holder = holder; has_file = true })
]

-- `__exit__` of the lock.
unfoldable pub exit_lock : Lock → Lock
exit_lock lock =
    if lock.has_file then record { holder = flock_unlock lock.holder; has_file = false } else lock

-- `_RefreshWriteIntent`
pub record Intent : Type 0 where
  pub lock : Lock
  pub tracker : Tracker
  pub was_pending : Bool

-- `_RefreshWriteIntent.__enter__`, once the lock is taken.
unfoldable pub ready_intent : Lock → Tracker → Option Refusal × Intent
unfolding is_refresh_pending prepare exit_lock
ready_intent lock tracker =
    let pending : Bool × Tracker = is_refresh_pending tracker in
    let ready : Bool × Tracker = prepare pending.1 in
    if ready.0
    then (none, record { lock = lock; tracker = ready.1; was_pending = pending.0 })
    else (
      some (refresh_state_error ready.1.error),
      record { lock = exit_lock lock; tracker = ready.1; was_pending = pending.0 },
    )

-- `_RefreshWriteIntent.__enter__`: the exception that it raises, if it does.
unfoldable pub enter_intent : Option String → Intent → Option Refusal × Intent
unfolding enter_lock ready_intent
enter_intent fault i =
    let taken : Option Refusal × Lock = enter_lock fault i.lock in
    elim taken.0 [
      | some e ↦ (some e, record i { lock = taken.1 })
      | none ↦ ready_intent taken.1 i.tracker
    ]

-- `_RefreshWriteIntent.__exit__`
unfoldable pub exit_intent : Intent → Intent
unfolding clear_if_idle exit_lock
exit_intent i = record i {
  tracker = clear_if_idle 0 i.was_pending i.tracker;
  lock = exit_lock i.lock;
}

-- What the body of the `with` block does: the write counts that it reports, and its end.
pub record Body (E A : Type 0) : Type 0 where
  pub reported : List ℕ
  pub ending : Result E A

-- How the block ends, and the lock and the marker afterwards.
pub record Outcome (E A : Type 0) : Type 0 where
  pub ending : Result (IntentError E) A
  pub lock : Lock
  pub disk : Disk

abbrev pub lift : {E A : Type 0} → Result E A → Result (IntentError E) A
lift (ok a) = ok a
lift (err e) = err (raised e)

-- The body was run.
abbrev pub is_entered : {E A : Type 0} → Result (IntentError E) A → Bool
is_entered (ok a) = true
is_entered (err (raised e)) = true
is_entered (err (refused _)) = false

-- The rest of the `with` statement once `__enter__` has ended: unless that has raised, the body
-- with its reports, and then `__exit__`.
unfoldable pub run_body : {E A : Type 0} → Body E A → Option Refusal × Intent → Outcome E A
unfolding observe_all exit_intent
run_body body (some e, i) = record {
  ending = err (refused e);
  lock = i.lock;
  disk = i.tracker.disk;
}
run_body body (none, i) =
    let tracked : Intent = record i { tracker = observe_all i.tracker body.reported } in
    let done : Intent = exit_intent tracked in
    record { ending = lift body.ending; lock = done.lock; disk = done.tracker.disk }

unfoldable pub sync_with_intent :
    {E A : Type 0} → Option String → Bool → Body E A → Disk → Outcome E A
unfolding new_tracker enter_intent run_body
sync_with_intent fault held body disk = run_body body (
    enter_intent fault
      (record { lock = lock_at held; tracker = new_tracker disk; was_pending = false }))

module _ (lock : Lock) (t : Tracker) where
  ready_intent-ready :
      (prepare (is_refresh_pending t).1).0 ≡ true
      → ready_intent lock t ≡ (
        none,
        record { lock = lock; tracker = readied t; was_pending = (is_refresh_pending t).0 },
      )
  unfolding ready_intent
  ready_intent-ready h = rw h refl

  ready_intent-refused :
      (prepare (is_refresh_pending t).1).0 ≡ false
      → ready_intent lock t ≡ (
        some (refresh_state_error (readied t).error),
        record {
          lock = exit_lock lock;
          tracker = readied t;
          was_pending = (is_refresh_pending t).0;
        },
      )
  unfolding ready_intent
  ready_intent-refused h = rw h refl

-- The lock while this process has it.
abbrev ours_open : Lock
ours_open = record { holder = ours; has_file = true }

module _ {E A : Type 0} (body : Body E A) where
  -- With the lock free, by what became of the marker.
  with_free_lock :
      (disk : Disk)
      → sync_with_intent none false body disk
        ≡ run_body body (ready_intent ours_open (new_tracker disk))
  unfolding sync_with_intent enter_intent enter_lock
  with_free_lock disk = refl

  when_ready :
      (disk : Disk)
      → (prepare (is_refresh_pending (new_tracker disk)).1).0 ≡ true
      → sync_with_intent none false body disk
        ≡ run_body body (
          none,
          record {
            lock = ours_open;
            tracker = readied (new_tracker disk);
            was_pending = (is_refresh_pending (new_tracker disk)).0;
          },
        )
  when_ready disk ready =
      with_free_lock disk
      ∙ ap (run_body body) (ready_intent-ready ours_open (new_tracker disk) ready)

  when_refused :
      (disk : Disk)
      → (prepare (is_refresh_pending (new_tracker disk)).1).0 ≡ false
      → sync_with_intent none false body disk ≡ record {
        ending = err (refused (refresh_state_error (readied (new_tracker disk)).error));
        lock = exit_lock ours_open;
        disk = (readied (new_tracker disk)).disk;
      }
  unfolding run_body
  when_refused disk failed =
      with_free_lock disk
      ∙ ap (run_body body) (ready_intent-refused ours_open (new_tracker disk) failed)

  free_lock_released : (disk : Disk) → (sync_with_intent none false body disk).lock ≡ lock_at false
  unfolding run_body exit_intent exit_lock
  free_lock_released disk =
      elim (Bool-cases (prepare (is_refresh_pending (new_tracker disk)).1).0) [
        | inl ready ↦ ap (λ (o : Outcome E A). o.lock) (when_ready disk ready)
        | inr failed ↦ ap (λ (o : Outcome E A). o.lock) (when_refused disk failed)
      ]

  -- However the block ends, by a value, by an exception of the body, by a lock that is taken or
  -- cannot be opened, or by a marker that cannot be written: the lock is afterwards as it was
  -- before, free or the other process's, and `_file` is unset; and the body is never run while
  -- another process has the lock.
  pub lock_as_before :
      (fault : Option String) (held : Bool) (disk : Disk)
      → ((sync_with_intent fault held body disk).lock ≡ lock_at held)
        × ((held && is_entered (sync_with_intent fault held body disk).ending) ≡ false)
  unfolding sync_with_intent run_body enter_intent enter_lock
  lock_as_before none true disk = (refl, refl)
  lock_as_before none false disk = (free_lock_released disk, refl)
  lock_as_before (some name) true disk = (refl, refl)
  lock_as_before (some name) false disk = (refl, refl)

  entered-marker :
      (disk : Disk)
      → is_entered (sync_with_intent none false body disk).ending ≡ true
      → 0 < (observe_all (readied (new_tracker disk)) body.reported).writes
      → (sync_with_intent none false body disk).disk.present ≡ true
  unfolding run_body exit_intent
  entered-marker disk entered h =
      elim (Bool-cases (prepare (is_refresh_pending (new_tracker disk)).1).0) [
        | inl ready ↦
            let t : Tracker = observe_all (readied (new_tracker disk)) body.reported in
            let p : Bool = (is_refresh_pending (new_tracker disk)).0 in
            let there : t.disk.present ≡ true =
              observe_all-present (readied (new_tracker disk)) body.reported
              ∙ rw ready at (readied-present (new_tracker disk)) in
            rw (when_ready disk ready) (
              clear_if_idle-IsDurable 0 p t there (λ w. absurd (omega arith))
                (rw (clear_if_idle-writes 0 p t) h))
        | inr failed ↦ absurd (cc (rw (when_refused disk failed) at entered))
      ]

  -- The count that the body's reports add up to.
  abbrev pub reported_total : List ℕ → ℕ
  reported_total [] = 0
  reported_total (n ∷ ns) = n + reported_total ns

  observed : (ns : List ℕ) (t : Tracker) → (observe_all t ns).writes ≡ t.writes + reported_total ns
  unfolding observe_all observe
  observed [] t = omega arith
  observed (n ∷ ns) t = omega (arith, observed ns (observe t n))

  -- If the body is run and reports a positive count, then whichever operations on the marker
  -- fail and whether the body returns or raises, the marker stands afterwards.
  pub reported_write-keeps_marker :
      (fault : Option String) (held : Bool) (disk : Disk)
      → is_entered (sync_with_intent fault held body disk).ending ≡ true
      → 0 < reported_total body.reported
      → (sync_with_intent fault held body disk).disk.present ≡ true
  unfolding sync_with_intent run_body enter_intent enter_lock
  reported_write-keeps_marker none true disk entered h = absurd (cc entered)
  reported_write-keeps_marker none false disk entered h =
      entered-marker disk entered
        (omega (arith, observed body.reported (readied (new_tracker disk))))
  reported_write-keeps_marker (some name) held disk entered h = absurd (cc entered)
