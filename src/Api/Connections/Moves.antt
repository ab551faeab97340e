-- ===== src/Api/Connections/Moves.antt =====
-- Sequences of calls of src/penge/api/connections/service.py.
use penge.Prelude.{
  ℕ, ◌≡◌, ◌∙◌, inl, inr, refl, sym, subst, String, Option-cases, Result-cases, List, Option, some,
  Result, ok, err,
}
use penge.Prelude.Eq.{nat_eq}
use penge.Prelude.Dict.{lookup}
use penge.Api.Connections.{
  Status, ErrorPayload, ConnectionRecord, Table, record_sync_ok, record_sync_error, put,
}
use penge.Api.Connections.Link.{
  Provider, BankError, Consent, start_link, Session, authorize, from_bank_error,
}
use penge.Api.Connections.Pull.{
  fallbacks, Counts, Fault, bank_error, mapping_error, other_error, Pull, try_windows,
}
use penge.Api.Connections.Sync.{AccountResource, BankSession, admit, finish, sync_admitted, sync}
use penge.Api.Connections.Edges.{
  Edge, same_status, lapsed, renewed, linked_row, IsTable, IsMove, stays, put-IsMove,
}
use penge.Api.Connections.Calls.{start_link-IsMove, authorize-IsMove}
use penge.Api.Connections.Life.{
  has_session, same-IsCoherent, LeavesOrLapses, admit-LeavesOrLapses, admit-session,
}

module _ (t : Table) (h : IsTable t) (key : ℕ) (c : ConnectionRecord)
    (found : lookup key t.connections ≡ some c) where
  -- An error is recorded: the row keeps its session, and its status but for a lapse.
  sync_error-IsMove :
      (payload : ErrorPayload) (s : Status) (now : ℕ)
      → LeavesOrLapses c s
      → IsMove t (put key (record_sync_error payload s now c) t)
  unfolding record_sync_error
  sync_error-IsMove payload s now (inl same) =
      put-IsMove t key c _ h found
        (same-IsCoherent c (record_sync_error payload s now c) same refl refl
          (h.coherent key c found))
        (subst (Edge c.status) (sym same) (same_status c.status))
  sync_error-IsMove payload s now (inr (over, (id, has))) =
      let (apart_new, apart_failed, no_state) = has_session c id (h.coherent key c found) has in
      put-IsMove t key c _ h found
        (linked_row id (λ e. cc (sym over ∙ e)) (λ e. cc (sym over ∙ e)) no_state has)
        (subst (Edge c.status) (sym over) (lapsed c.status apart_new apart_failed))

  module _ (get_provider : String → Option Provider)
      (get_session : String → Result BankError BankSession)
      (sync_account : (window : ℕ) → AccountResource → Result Fault Counts) where
    finish-IsMove :
        (id : String)
        → c.session_id ≡ some id
        → (accounts : List AccountResource) (ending : Result Fault Counts) (reported : List ℕ)
          (now : ℕ)
        → IsMove t
            (finish get_provider get_session sync_account key c accounts
              (record { reported = reported; ending = ending })
              now
              t).table
    unfolding finish record_sync_ok
    finish-IsMove id has accounts (ok counts) reported now =
        let (apart_new, apart_failed, no_state) = has_session c id (h.coherent key c found) has in
        put-IsMove t key c _ h found (linked_row id (λ e. cc e) (λ e. cc e) no_state has)
          (renewed c.status apart_new apart_failed)
    finish-IsMove id has accounts (err (bank_error e)) reported now =
        sync_error-IsMove (from_bank_error "sync" e) c.status now (inl refl)
    finish-IsMove id has accounts (err (mapping_error message)) reported now =
        sync_error-IsMove _ c.status now (inl refl)
    finish-IsMove id has accounts (err (other_error message)) reported now = stays t h

    sync_admitted-IsMove :
        (days now : ℕ)
        → IsMove t
            (sync_admitted get_provider get_session sync_account key c
              (admit get_provider get_session sync_account c now)
              days
              now
              t).table
    unfolding sync_admitted
    sync_admitted-IsMove days now =
        elim (Result-cases (admit get_provider get_session sync_account c now)) [
          | inl (accounts, passed) ↦
              let (id, has) = admit-session c get_provider get_session sync_account now passed in
              let p : Pull = try_windows sync_account days (fallbacks days) accounts in
              rw (sync_admitted, passed) (finish-IsMove id has accounts p.ending p.reported now)
          | inr (r, refused) ↦
              rw (sync_admitted, refused)
                (sync_error-IsMove r.payload r.status now
                  (admit-LeavesOrLapses c get_provider get_session sync_account now refused))
        ]

sync-IsMove :
    (get_provider : String → Option Provider) (get_session : String → Result BankError BankSession)
    (sync_account : (window : ℕ) → AccountResource → Result Fault Counts) (key days now : ℕ)
    (t : Table)
    → IsTable t
    → IsMove t (sync get_provider get_session sync_account key days now t).table
unfolding sync
sync-IsMove get_provider get_session sync_account key days now t h =
    elim (Option-cases (lookup key t.connections)) [
      | inl missing ↦ rw (sync, missing) (stays t h)
      | inr (c, found) ↦
          rw (sync, found)
            (sync_admitted-IsMove t h key c found get_provider get_session sync_account days now)
    ]

-- Calls one after the other, each with any arguments and any answers of the bank.
pub data Calls : Table → Table → Type 0 where
  nothing : (t : Table) → Calls t t
  link :
      (t u : Table) (slug : String) (p : Option Provider) (answer : Result BankError Consent)
      (entity_name state : String) (valid_until now : ℕ)
      → Calls t u
      → Calls t (start_link slug p answer entity_name state valid_until now u).1
  consent :
      (t u : Table) (state : Option String) (answer : Result BankError Session) (now : ℕ)
      → Calls t u
      → Calls t (authorize state answer now u).table
  pull :
      (t u : Table) (get_provider : String → Option Provider)
      (get_session : String → Result BankError BankSession)
      (sync_account : (window : ℕ) → AccountResource → Result Fault Counts) (key days now : ℕ)
      → Calls t u
      → Calls t (sync get_provider get_session sync_account key days now u).table

-- Any number of moves of a status.
pub data Edges : Status → Status → Type 0 where
  none_yet : (s : Status) → Edges s s
  more : (a b c : Status) → Edges a b → Edge b c → Edges a c

-- The rows that were there are there, moved along edges, and the table is as it should be.
pub record Lives (t u : Table) : Type 0 where
  pub table : IsTable u
  pub rows :
      (k : ℕ) (c : ConnectionRecord)
      → lookup k t.connections ≡ some c
      → (d : ConnectionRecord) × (lookup k u.connections ≡ some d) × Edges c.status d.status

then_moves : {t u v : Table} → Lives t u → IsMove u v → Lives t v
then_moves l m = record {
  table = m.table;
  rows = λ k c found.
      let (d, there, edges) = l.rows k c found in
      let (e, here, edge) = m.edges k d there in
      (e, here, more c.status d.status e.status edges edge);
}

-- Along any calls, failed ones included, from a table whose rows are coherent: no row is lost, and
-- its status moves only from linking to authorized or failed, from authorized or expired to
-- expired or authorized. At the end every row is coherent: it awaits its consent with a state and
-- no session, or has a session and no state, or has failed without a session.
pub Calls-Lives : (t u : Table) → Calls t u → IsTable t → Lives t u
Calls-Lives _ _ (nothing t) h = record {
  table = h;
  rows = λ k c found. (c, found, none_yet c.status);
}
Calls-Lives _ _ (link t u slug p answer entity_name state valid_until now calls) h =
    let l = Calls-Lives t u calls h in
    then_moves l (start_link-IsMove slug p answer entity_name state valid_until now u l.table)
Calls-Lives _ _ (consent t u state answer now calls) h =
    let l = Calls-Lives t u calls h in then_moves l (authorize-IsMove u l.table state answer now)
Calls-Lives _ _ (pull t u get_provider get_session sync_account key days now calls) h =
    let l = Calls-Lives t u calls h in
    then_moves l (sync-IsMove get_provider get_session sync_account key days now u l.table)
