-- ===== src/Ops/Marker.antt =====
-- The durable marker of a pending refresh and `_WriteTracker`
-- (src/penge/ops/net_worth_refresh.py). The file system is the program's surroundings: each
-- operation on the marker takes the next entry of `faults`, the name of an OSError that is raised
-- or none, and an operation that raises leaves the file as it was.
use Prim.Native.String.{◌++◌ as append}
use penge.Prelude.{
  ℕ, ◌+◌, String, Bool, true, false, ltb, List, [], ◌∷◌, Option, none, some, if◌then◌else◌,
}

pub record Disk : Type 0 where
  pub present : Bool
  pub faults : List (Option String)

-- What an operation meets: its own fault, and those of the later ones.
abbrev pub next_fault : List (Option String) → Option String × List (Option String)
next_fault [] = (none, [])
next_fault (f ∷ fs) = (f, fs)

-- One operation that turns the marker's presence b into `change b`.
unfoldable pub operate : (Bool → Bool) → Disk → Option String × Disk
operate change d =
    let f : Option String × List (Option String) = next_fault d.faults in
    elim f.0 [
      | none ↦ (none, record { present = change d.present; faults = f.1 })
      | some name ↦ (some name, record { present = d.present; faults = f.1 })
    ]

-- mkdir and touch, as one operation.
abbrev pub mark_refresh_pending : Disk → Option String × Disk
mark_refresh_pending = operate (λ _. true)

-- path.exists()
abbrev pub exists : Disk → Option String × Disk
exists = operate (λ b. b)

-- path.unlink(missing_ok=True)
abbrev pub unlink : Disk → Option String × Disk
unlink = operate (λ _. false)

-- A tracker, with what stands at its path.
pub record Tracker : Type 0 where
  pub disk : Disk
  pub writes : ℕ
  pub error : Option String

unfoldable pub new_tracker : Disk → Tracker
new_tracker d = record { disk = d; writes = 0; error = none }

unfoldable pub observe : Tracker → ℕ → Tracker
observe t write_count = record { disk = t.disk; writes = t.writes + write_count; error = t.error }

-- `_record_error`, on the disk as the failed operation left it.
unfoldable pub record_error : String → String → Disk → Tracker → Tracker
record_error action name d t = record {
  disk = d;
  writes = t.writes;
  error = some (append "could not " (append action (append " pending refresh marker: " name)));
}

abbrev pub with_disk : Disk → Tracker → Tracker
with_disk d t = record { disk = d; writes = t.writes; error = t.error }

unfoldable pub prepare : Tracker → Bool × Tracker
unfolding operate record_error
prepare t =
    let r : Option String × Disk = mark_refresh_pending t.disk in
    elim r.0 [
      | none ↦ (true, with_disk r.1 t)
      | some name ↦ (false, record_error "persist" name r.1 t)
    ]

unfoldable pub is_refresh_pending : Tracker → Bool × Tracker
unfolding operate record_error
is_refresh_pending t =
    let r : Option String × Disk = exists t.disk in
    if ltb 0 t.writes then (true, t) else elim r.0 [
      | none ↦ (r.1.present, with_disk r.1 t)
      | some name ↦ (false, record_error "inspect" name r.1 t)
    ]

unfoldable pub clear : Tracker → Tracker
unfolding operate record_error
clear t =
    let r : Option String × Disk = unlink t.disk in
    elim r.0 [ none ↦ with_disk r.1 t | some name ↦ record_error "clear" name r.1 t ]
