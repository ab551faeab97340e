-- ===== src/Tests/Connections.antt =====
-- One bank: a link, its authorisation, and a sync whose longest window the bank refuses.
use penge.Prelude.{
  ℕ, ◌≡◌, refl, inl, inr, leb, String, true, false, [], ◌∷◌, Option, none, some, Result, ok, err,
  if◌then◌else◌,
}
use penge.Prelude.Eq.{nat_eq, string_eq}
use penge.Prelude.Dict.{lookup}
use penge.Api.Connections.{
  linking, authorized as status_authorized, AccountSnapshot, ConnectionRecord, Table,
}
use penge.Api.Connections.Link.{Provider, BankError, start_link, Session, authorize}
use penge.Api.Connections.Pull.{Counts, Fault, bank_error, sync_accounts}
use penge.Api.Connections.Sync.{AccountResource, BankSession, sync, admit}
use penge.Api.Connections.Edges.{IsTable}
use penge.Api.Connections.Calls.{authorize-spends}
use penge.Api.Connections.Complete.{IsComplete, sync-completes}
use penge.Api.Connections.Moves.{Calls, nothing, link, consent, pull, Lives, Calls-Lives}

abbrev no_table : Table
no_table = record { connections = []; next_id = 1 }

no_table-IsTable : IsTable no_table
no_table-IsTable = record {
  coherent = λ k c e. absurd (cc e);
  distinct = tt;
  below = λ k c e. absurd (cc e);
}

abbrev gls : Provider
gls = record {
  slug = "gls";
  aspsp_name = "GLS";
  aspsp_country = "DE";
  is_payment_detail = false;
  has_adapter = true;
}

abbrev registry : String → Option Provider
registry slug = if string_eq.beq slug "gls" then some gls else none

abbrev giro : AccountSnapshot
giro = record { name = some "Giro"; iban_masked = none; currency = some "EUR"; product = none }

abbrev session : Session
session = record { session_id = "s1"; aspsp_name = "GLS"; valid_until = 900; accounts = giro ∷ [] }

abbrev linked : Table
unfolding start_link
linked =
    (start_link "gls" (some gls) (ok (record { authorization_id = "a1"; url = "https://bank" }))
      "Home" "state-1" 900 5 no_table).1

abbrev authorized_table : Table
unfolding authorize start_link
authorized_table = (authorize (some "state-1") (ok session) 6 linked).table

abbrev bank : String → Result BankError BankSession
bank id = ok (record {
  status = "AUTHORIZED";
  accounts_data = record { uid = some "u1"; snapshot = giro } ∷ [];
})

-- The bank serves at most 90 days.
abbrev adapter : ℕ → AccountResource → Result Fault Counts
adapter window account =
    if leb window 90
    then ok (record { transactions = 4; holding_snapshots = 1; payment_details = 0; writes = 3 })
    else err (
        bank_error (record {
          status_code = 400;
          code = some "WRONG_TRANSACTIONS_PERIOD";
          message = "too long";
        }))

Calls-Lives_example : Lives no_table (sync registry bank adapter 1 365 7 authorized_table).table
unfolding authorize start_link
Calls-Lives_example =
    Calls-Lives no_table (sync registry bank adapter 1 365 7 authorized_table).table
      (pull no_table authorized_table registry bank adapter 1 365 7 (
        consent no_table linked (some "state-1") (ok session) 6 (
          link no_table no_table "gls" (some gls)
            (ok (record { authorization_id = "a1"; url = "https://bank" })) "Home" "state-1" 900 5
            (nothing no_table))))
      no_table-IsTable

abbrev giro_row : ConnectionRecord
giro_row = record {
  provider = "gls";
  aspsp_name = "GLS";
  aspsp_country = "DE";
  entity_name = "Home";
  status = status_authorized;
  state = none;
  authorization_id = some "a1";
  session_id = some "s1";
  valid_until = some 900;
  accounts = giro ∷ [];
  last_sync_at = none;
  last_sync_status = none;
  last_error = none;
  created_at = 5;
  updated_at = 6;
}

abbrev table : Table
table = record { connections = (1, giro_row) ∷ []; next_id = 2 }

abbrev account : AccountResource
account = record { uid = some "u1"; snapshot = giro }

passed : admit registry bank adapter giro_row 7 ≡ ok (account ∷ [])
unfolding admit
passed = refl

abbrev too_long : Fault
too_long =
    bank_error
      (record { status_code = 400; code = some "WRONG_TRANSACTIONS_PERIOD"; message = "too long" })

refused_first : (sync_accounts adapter 365 (account ∷ [])).ending ≡ err too_long
unfolding sync_accounts
refused_first = refl

sync-completes_example : IsComplete 1 giro_row 7 (sync registry bank adapter 1 365 7 table)
sync-completes_example =
    sync-completes registry bank adapter 1 365 7 table giro_row (account ∷ []) refl passed (
      inr (
        (too_long, refused_first, refl),
        inl (
          (
            record { transactions = 4; holding_snapshots = 1; payment_details = 0; writes = 3 },
            refl,
          ),
          tt,
        ),
      ))

link_ok : Calls no_table linked
unfolding start_link
link_ok =
    link no_table no_table "gls" (some gls)
      (ok (record { authorization_id = "a1"; url = "https://bank" })) "Home" "state-1" 900 5
      (nothing no_table)

spent_ok : (authorize (some "state-1") (ok session) 6 linked).is_spent ≡ true
unfolding authorize start_link
spent_ok = refl

authorize-spends_example :
    (x : ℕ × ConnectionRecord) × (lookup x.0 linked.connections ≡ some x.1)
    × (x.1.status ≡ linking)
    × (x.1.state ≡ some "state-1")
authorize-spends_example =
    authorize-spends "state-1" (ok session) 6 linked
      (Calls-Lives no_table linked link_ok no_table-IsTable).table refl spent_ok
