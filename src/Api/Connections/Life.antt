-- ===== src/Api/Connections/Life.antt =====
-- The life of a connection through links, authorisations and syncs
-- (src/penge/api/connections/service.py).
use penge.Prelude.{
  ℕ, ◌≡◌, ◌≢◌, ◌∙◌, ◌⊎◌, inl, inr, sym, ap, String, not, ◌&&◌, Bool-cases, Option-cases, List-cases,
  >>=-ok, >>=-err, ok-injective, List, Option, none, some, Result, ok, err,
}
use penge.Prelude.Eq.{nat_eq, string_eq}
use penge.Api.Connections.{Status, linking, expired, failed, ErrorPayload, ConnectionRecord}
use penge.Api.Connections.Link.{Provider, BankError}
use penge.Api.Connections.Pull.{Counts, Fault}
use penge.Api.Connections.Sync.{
  AccountResource, BankSession, with_uid, usable, is_valid, Refusal, refuse, provider_for_sync,
  session_of, ensure_consent, authorized_session, accounts_of, admit,
}
use penge.Api.Connections.Edges.{IsCoherent, awaits, linked_row, gave_up}

-- A row with a session has neither status of those without.
pub has_session :
    (c : ConnectionRecord) (id : String)
    → IsCoherent c
    → c.session_id ≡ some id
    → (c.status ≢ linking) × (c.status ≢ failed) × (c.state ≡ none)
has_session c id (awaits state s st no_session) e = absurd (cc (sym no_session ∙ e))
has_session c id (linked_row other a b state there) e = (a, b, state)
has_session c id (gave_up s no_session) e = absurd (cc (sym no_session ∙ e))

-- The same status, state and session.
pub same-IsCoherent :
    (c d : ConnectionRecord)
    → d.status ≡ c.status
    → d.state ≡ c.state
    → d.session_id ≡ c.session_id
    → IsCoherent c
    → IsCoherent d
same-IsCoherent c d s st e (awaits state new there no_session) =
    awaits state (s ∙ new) (st ∙ there) (e ∙ no_session)
same-IsCoherent c d s st e (linked_row id a b state there) =
    linked_row id (λ x. a (sym s ∙ x)) (λ x. b (sym s ∙ x)) (st ∙ state) (e ∙ there)
same-IsCoherent c d s st e (gave_up lost no_session) = gave_up (s ∙ lost) (e ∙ no_session)

-- A session behind a refusal, unless the refusal leaves the status.
abbrev pub LeavesOrLapses : ConnectionRecord → Status → Type 0
LeavesOrLapses c s = (s ≡ c.status) ⊎ ((s ≡ expired) × ((id : String) × (c.session_id ≡ some id)))

refuse-status :
    {A : Type 0} (s : Status) (e : ErrorPayload) {r : Refusal}
    → Path (Result Refusal A) (refuse s e) (err r)
    → r.status ≡ s
refuse-status s e {r} h =
    let same : record { payload = e; status = s } ≡ r = cc h in
    ap (λ (x : Refusal). x.status) (sym same)

usable-some : (o : Option String) (id : String) → usable o ≡ some id → o ≡ some id
usable-some none id e = absurd (cc e)
usable-some (some x) id e = elim (Bool-cases (string_eq.beq x "")) [
  | inl empty ↦ absurd (cc (rw empty at e))
  | inr given ↦ rw given at e
]

module _ (c : ConnectionRecord) where
  provider-status :
      (o : Option Provider) {r : Refusal} → provider_for_sync o c ≡ err r → r.status ≡ c.status
  provider-status none e = refuse-status {A = Provider} c.status _ e
  provider-status (some p) e = elim (Bool-cases p.has_adapter) [
    | inl there ↦ absurd (cc (rw there at e))
    | inr missing ↦ refuse-status {A = Provider} c.status _ (rw missing at e)
  ]

  session-status : {r : Refusal} → session_of c ≡ err r → r.status ≡ c.status
  session-status e = elim (Option-cases (usable c.session_id)) [
    | inl missing ↦ refuse-status {A = String} c.status _ (rw (session_of, missing) at e)
    | inr (id, there) ↦ absurd (cc (rw (session_of, there) at e))
  ]

  session-some : (id : String) → session_of c ≡ ok id → c.session_id ≡ some id
  session-some id e = elim (Option-cases (usable c.session_id)) [
    | inl missing ↦ absurd (cc (rw (session_of, missing) at e))
    | inr (x, there) ↦
        usable-some c.session_id id (there ∙ ap some (ok-injective (rw (session_of, there) at e)))
  ]

  consent-status :
      (p : Provider) (now : ℕ) {r : Refusal} → ensure_consent p c now ≡ err r → r.status ≡ expired
  consent-status p now e =
      elim (Bool-cases (p.is_payment_detail && not (is_valid c.valid_until now))) [
        | inl over ↦ refuse-status {A = Unit} expired _ (rw (ensure_consent, over) at e)
        | inr valid ↦ absurd (cc (rw (ensure_consent, valid) at e))
      ]

  answer-status :
      (answer : Result BankError BankSession) {r : Refusal}
      → authorized_session answer c ≡ err r
      → (r.status ≡ c.status) ⊎ (r.status ≡ expired)
  answer-status (err x) e = inl (refuse-status {A = BankSession} c.status _ e)
  answer-status (ok session) e = elim (Bool-cases (string_eq.beq session.status "AUTHORIZED")) [
    | inl good ↦ absurd (cc (rw good at e))
    | inr bad ↦ inr (refuse-status {A = BankSession} expired _ (rw bad at e))
  ]

  accounts-status :
      (session : BankSession) {r : Refusal} → accounts_of session c ≡ err r → r.status ≡ c.status
  accounts-status session e = elim (List-cases (with_uid session.accounts_data)) [
    | inl nothing ↦
        refuse-status {A = List AccountResource} c.status _ (rw (accounts_of, nothing) at e)
    | inr (a, rest, there) ↦ absurd (cc (rw (accounts_of, there) at e))
  ]

  module _ (get_provider : String → Option Provider)
      (get_session : String → Result BankError BankSession)
      (sync_account : (window : ℕ) → AccountResource → Result Fault Counts) where
    pub admit-LeavesOrLapses :
        (now : ℕ) {r : Refusal}
        → admit get_provider get_session sync_account c now ≡ err r
        → LeavesOrLapses c r.status
    unfolding admit
    admit-LeavesOrLapses now e =
        elim (>>=-err (provider_for_sync (get_provider c.provider) c) _ e) [
          | inl no_provider ↦ inl (provider-status _ no_provider)
          | inr (p, _, e1) ↦ elim (>>=-err (session_of c) _ e1) [
            | inl no_session ↦ inl (session-status no_session)
            | inr (id, there, e2) ↦
                let has = session-some id there in
                elim (>>=-err (ensure_consent p c now) _ e2) [
                  | inl over ↦ inr (consent-status p now over, (id, has))
                  | inr (_, _, e3) ↦ elim (>>=-err (authorized_session (get_session id) c) _ e3) [
                    | inl answer ↦ elim (answer-status (get_session id) answer) [
                      | inl same ↦ inl same
                      | inr over ↦ inr (over, (id, has))
                    ]
                    | inr (session, _, e4) ↦ inl (accounts-status session e4)
                  ]
                ]
          ]
        ]

    pub admit-session :
        (now : ℕ) {accounts : List AccountResource}
        → admit get_provider get_session sync_account c now ≡ ok accounts
        → (id : String) × (c.session_id ≡ some id)
    unfolding admit
    admit-session now e =
        let (p, _, e1) = >>=-ok (provider_for_sync (get_provider c.provider) c) _ e in
        let (id, there, _) = >>=-ok (session_of c) _ e1 in (id, session-some id there)
