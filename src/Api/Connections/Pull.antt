-- ===== src/Api/Connections/Pull.antt =====
-- `_history_windows`, `_sync_accounts` and the loop over the windows in `sync` of
-- src/penge/api/connections/service.py. The bank's adapter is a parameter: what it answers for an
-- account and a number of days back from today.
use penge.Prelude.{
  ℕ, ltb, ◌+◌, String, Bool, false, List, [], ◌∷◌, ◌++◌, none, some, Result, ok, err, if◌then◌else◌,
}
use penge.Prelude.Eq.{string_eq}
use penge.Api.Connections.Link.{BankError}

-- HISTORY_FALLBACK_DAYS
abbrev pub fallback_days : List ℕ
fallback_days = 90 ∷ 30 ∷ []

abbrev pub narrower : (days : ℕ) → List ℕ → List ℕ
narrower days [] = []
narrower days (w ∷ ws) = if ltb w days then w ∷ narrower days ws else narrower days ws

-- The fallback windows behind the requested one.
abbrev pub fallbacks : (days : ℕ) → List ℕ
fallbacks days = narrower days fallback_days

-- LoadResult, and the running totals.
pub record Counts : Type 0 where
  pub transactions : ℕ
  pub holding_snapshots : ℕ
  pub payment_details : ℕ
  pub writes : ℕ

abbrev pub no_counts : Counts
no_counts = record { transactions = 0; holding_snapshots = 0; payment_details = 0; writes = 0 }

abbrev pub plus : Counts → Counts → Counts
plus a b = record {
  transactions = a.transactions + b.transactions;
  holding_snapshots = a.holding_snapshots + b.holding_snapshots;
  payment_details = a.payment_details + b.payment_details;
  writes = a.writes + b.writes;
}

-- What an adapter raises: EnableBankingError, PayPalDetailMappingError, anything else.
pub data Fault : Type 0 where
  bank_error : BankError → Fault
  mapping_error : String → Fault
  other_error : String → Fault

-- The write counts that were reported, and the totals or what was raised.
pub record Pull : Type 0 where
  pub reported : List ℕ
  pub ending : Result Fault Counts

-- `if result.writes > 0`
abbrev pub report : ℕ → List ℕ
report n = if ltb 0 n then n ∷ [] else []

abbrev pub plus_result : Counts → Result Fault Counts → Result Fault Counts
plus_result a (ok b) = ok (plus a b)
plus_result a (err f) = err f

abbrev pub onto_pull : Counts → Pull → Pull
onto_pull c p = record { reported = report c.writes ++ p.reported; ending = plus_result c p.ending }

-- WRONG_TRANSACTIONS_PERIOD
abbrev pub is_wrong_period : Fault → Bool
is_wrong_period (bank_error e) = elim e.code [
  | none ↦ false
  | some code ↦ string_eq.beq code "WRONG_TRANSACTIONS_PERIOD"
]
is_wrong_period _ = false

-- What was pulled with one window, or what comes of the narrower ones where the bank refused it.
abbrev pub or_narrower : Pull → Pull → Pull
or_narrower p rest = elim p.ending [
  | ok c ↦ p
  | err f ↦
      if is_wrong_period f
      then record { reported = p.reported ++ rest.reported; ending = rest.ending }
      else p
]

module _ {A : Type 0} (sync_account : (window : ℕ) → A → Result Fault Counts) where
  -- The accounts up to the first that raises.
  unfoldable pub sync_accounts : (window : ℕ) → List A → Pull
  sync_accounts window [] = record { reported = []; ending = ok no_counts }
  sync_accounts window (account ∷ accounts) =
      let rest = sync_accounts window accounts in
      elim (sync_account window account) [
        | err f ↦ record { reported = []; ending = err f }
        | ok c ↦ onto_pull c rest
      ]

  -- The loop: the last window has no fallback.
  unfoldable pub try_windows : (window : ℕ) → List ℕ → List A → Pull
  unfolding sync_accounts
  try_windows window [] accounts = sync_accounts window accounts
  try_windows window (next ∷ more) accounts =
      or_narrower (sync_accounts window accounts) (try_windows next more accounts)
