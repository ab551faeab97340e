-- ===== src/Api/Connections/Calls.antt =====
-- What the calls of src/penge/api/connections/service.py make of the connections.
use penge.Prelude.{
  ℕ, ◌≡◌, ◌∙◌, inl, inr, refl, sym, ap, subst, arith, String, true, false, Bool-cases, Option-cases,
  >>=-ok, ok-injective, some-injective, All, [], ◌∷◌, Option, none, some, Result, ok, err, ◌>>=◌,
}
use penge.Prelude.Eq.{nat_eq, string_eq}
use penge.Prelude.Dict.{Dict, lookup}
use penge.Api.Connections.{
  Status, linking, authorized, failed, ConnectionRecord, Table, linking_row, select, has_state,
  one_or_none, mark_authorized, record_error,
}
use penge.Api.Connections.Link.{
  Provider, BankError, Consent, Failure, several_rows, start_link, Session, is_linking,
  is_candidate, only_one, still_linking, bind_session, authorize_pending, authorize,
}
use penge.Api.Connections.Edges.{
  Edge, linked, link_failed, IsCoherent, awaits, linked_row, gave_up, IsTable, IsMove, stays,
  put-IsMove, select-All, create_linking-IsMove,
}

pub start_link-IsMove :
    (slug : String) (p : Option Provider) (answer : Result BankError Consent)
    (entity_name state : String) (valid_until now : ℕ) (t : Table)
    → IsTable t
    → IsMove t (start_link slug p answer entity_name state valid_until now t).1
unfolding start_link
start_link-IsMove slug none answer entity_name state valid_until now t h = stays t h
start_link-IsMove slug (some p) (err e) entity_name state valid_until now t h = stays t h
start_link-IsMove slug (some p) (ok consent) entity_name state valid_until now t h =
    create_linking-IsMove t
      (linking_row p.slug p.aspsp_name p.aspsp_country entity_name state consent.authorization_id
        valid_until now)
      h (awaits state refl refl refl)

is_linking_eq : (s : Status) → is_linking s ≡ true → s ≡ linking
is_linking_eq s h = ground arith

-- A linking row has no session, and neither has one that failed.
linking_session : (c : ConnectionRecord) → IsCoherent c → c.status ≡ linking → c.session_id ≡ none
linking_session c (awaits state s st none_yet) e = none_yet
linking_session c (linked_row id apart other st there) e = absurd (apart e)
linking_session c (gave_up s none_yet) e = none_yet

-- The answer, recorded on a linking row.
bind_session-IsMove :
    (id : ℕ) (c : ConnectionRecord) (answer : Result BankError Session) (now : ℕ) (t : Table)
    → IsTable t
    → lookup id t.connections ≡ some c
    → c.status ≡ linking
    → IsMove t (bind_session (some (id, c)) answer now t).1
unfolding bind_session mark_authorized record_error
bind_session-IsMove id c (err e) now t h found is_new =
    put-IsMove t id c _ h found (gave_up refl (linking_session c (h.coherent id c found) is_new))
      (subst (λ s. Edge s failed) (sym is_new) link_failed)
bind_session-IsMove id c (ok session) now t h found is_new =
    put-IsMove t id c _ h found (linked_row session.session_id (λ e. cc e) (λ e. cc e) refl refl)
      (subst (λ s. Edge s authorized) (sym is_new) linked)

-- Without a state: the only candidate.
only_one-All :
    (P : ℕ × ConnectionRecord → Type 0) (d : Dict ℕ ConnectionRecord) (x : ℕ × ConnectionRecord)
    → All P d
    → only_one d ≡ some x
    → P x
only_one-All P [] x h e = absurd (cc e)
only_one-All P (y ∷ []) x h e = subst P (some-injective _ _ e) h.0
only_one-All P (y ∷ z ∷ d) x h e = absurd (cc e)

one_or_none-All :
    (P : ℕ × ConnectionRecord → Type 0) (d : Dict ℕ ConnectionRecord) (x : ℕ × ConnectionRecord)
    → All P d
    → one_or_none several_rows d ≡ ok (some x)
    → P x
one_or_none-All P [] x h e = absurd (cc e)
one_or_none-All P (y ∷ []) x h e = subst P (some-injective _ _ (ok-injective e)) h.0
one_or_none-All P (y ∷ z ∷ d) x h e = absurd (cc e)

still_linking-some :
    (o : Option (ℕ × ConnectionRecord)) (x : ℕ × ConnectionRecord)
    → still_linking o ≡ some x
    → (o ≡ some x) × (x.1.status ≡ linking)
still_linking-some none x e = absurd (cc e)
still_linking-some (some (id, c)) x e = elim (Bool-cases (is_linking c.status)) [
  | inr other ↦ absurd (cc (rw other at e))
  | inl is_new ↦
      let same : Path (Option (ℕ × ConnectionRecord)) (some (id, c)) (some x) = rw is_new at e in
      (
        same,
        subst (λ (y : ℕ × ConnectionRecord). y.1.status ≡ linking) (some-injective _ _ same)
            (is_linking_eq c.status is_new),
      )
]

authorize_pending-IsMove :
    (o : Result Failure (Option (ℕ × ConnectionRecord))) (answer : Result BankError Session)
    (now : ℕ) (t : Table)
    → IsTable t
    → ((x : ℕ × ConnectionRecord)
        → o ≡ ok (some x)
        → (lookup x.0 t.connections ≡ some x.1) × (x.1.status ≡ linking))
    → IsMove t (authorize_pending o answer now t).table
unfolding authorize_pending
authorize_pending-IsMove (err e) answer now t h p = stays t h
authorize_pending-IsMove (ok none) answer now t h p = stays t h
authorize_pending-IsMove (ok (some (id, c))) answer now t h p =
    bind_session-IsMove id c answer now t h (p (id, c) refl).0 (p (id, c) refl).1

module _ (t : Table) (h : IsTable t) where
  stateless :
      (answer : Result BankError Session) (now : ℕ) → IsMove t (bind_session none answer now t).1
  unfolding bind_session
  stateless (err e) now = stays t h
  stateless (ok session) now =
      elim (Option-cases (only_one (select (is_candidate session.aspsp_name) t.connections))) [
        | inl nothing ↦ rw (bind_session, nothing) (stays t h)
        | inr ((id, c), one) ↦
            let here =
              only_one-All
                (λ x.
                  (lookup x.0 t.connections ≡ some x.1)
                  × (is_candidate session.aspsp_name x.1 ≡ true))
                _ (id, c) (select-All (is_candidate session.aspsp_name) t.connections h.distinct)
                one in
            let is_new : c.status ≡ linking = is_linking_eq c.status (ground (arith, here.1)) in
            rw (bind_session, one) (bind_session-IsMove id c (ok session) now t h here.0 is_new)
      ]

  of_state :
      (state : String) (x : ℕ × ConnectionRecord)
      → Path
          (Result Failure (Option (ℕ × ConnectionRecord)))
          (one_or_none several_rows (select (has_state state) t.connections) >>= λ o.
            ok (still_linking o))
          (ok (some x))
      → (lookup x.0 t.connections ≡ some x.1) × (x.1.status ≡ linking)
  of_state state x e =
      let (o, one, e1) =
        >>=-ok (one_or_none several_rows (select (has_state state) t.connections)) _ e in
      let (same, is_new) = still_linking-some o x (ok-injective e1) in
      let here =
        one_or_none-All (λ y. (lookup y.0 t.connections ≡ some y.1) × (has_state state y.1 ≡ true))
          _ x (select-All (has_state state) t.connections h.distinct) (one ∙ ap ok same) in
      (here.0, is_new)

  pub authorize-IsMove :
      (state : Option String) (answer : Result BankError Session) (now : ℕ)
      → IsMove t (authorize state answer now t).table
  unfolding authorize
  authorize-IsMove none answer now = stateless answer now
  authorize-IsMove (some state) answer now = elim (Bool-cases (string_eq.beq state "")) [
    | inl empty ↦ rw (authorize, empty) (stateless answer now)
    | inr given ↦
        rw (authorize, given)
          (authorize_pending-IsMove _ answer now t h (λ x e. of_state state x e))
  ]

has_state-some :
    (state : String) (c : ConnectionRecord) → has_state state c ≡ true → c.state ≡ some state
has_state-some state c e = elim (Option-cases c.state) [
  | inl nothing ↦ absurd (cc (rw (has_state, nothing) at e))
  | inr (x, there) ↦ there ∙ ap some ((string_eq.beq_iff x state).0 (rw (has_state, there) at e))
]

pending_spends :
    (o : Result Failure (Option (ℕ × ConnectionRecord))) (answer : Result BankError Session)
    (now : ℕ) (t : Table)
    → (authorize_pending o answer now t).is_spent ≡ true
    → (x : ℕ × ConnectionRecord) × (o ≡ ok (some x))
unfolding authorize_pending
pending_spends (err e) answer now t h = absurd (cc h)
pending_spends (ok none) answer now t h = absurd (cc h)
pending_spends (ok (some x)) answer now t h = (x, refl)

-- A single-use code that comes with a consent state is only spent if a row that is still linking
-- has that state; otherwise the bank is not asked.
pub authorize-spends :
    (state : String) (answer : Result BankError Session) (now : ℕ) (t : Table)
    → IsTable t
    → string_eq.beq state "" ≡ false
    → (authorize (some state) answer now t).is_spent ≡ true
    → (x : ℕ × ConnectionRecord) × (lookup x.0 t.connections ≡ some x.1)
      × (x.1.status ≡ linking)
      × (x.1.state ≡ some state)
unfolding authorize
authorize-spends state answer now t h given e =
    let (x, pending) = pending_spends _ answer now t (rw given at e) in
    let (o, one, e1) =
      >>=-ok (one_or_none several_rows (select (has_state state) t.connections)) _ pending in
    let (same, is_new) = still_linking-some o x (ok-injective e1) in
    let (found, has) =
      one_or_none-All (λ y. (lookup y.0 t.connections ≡ some y.1) × (has_state state y.1 ≡ true)) _
        x (select-All (has_state state) t.connections h.distinct) (one ∙ ap ok same) in
    (x, found, is_new, has_state-some state x.1 has)
