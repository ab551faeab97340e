-- ===== src/Api/Connections/Recovery.antt =====
-- The loop over the history windows of src/penge/api/connections/service.py, against a description
-- of when a sync gets through.
use penge.Prelude.{
  ℕ, ◌<◌, ◌≤◌, ◌≡◌, ◌⊎◌, inl, inr, refl, ap, arith, true, List, [], ◌∷◌, length, All, Result, ok,
  err,
}
use penge.Api.Connections.Pull.{
  fallbacks, Counts, no_counts, plus, Fault, Pull, plus_result, is_wrong_period, sync_accounts,
  or_narrower, try_windows,
}

-- Each window is strictly narrower than the one before.
abbrev pub IsNarrowing : ℕ → List ℕ → Type 0
IsNarrowing w [] = Unit
IsNarrowing w (v ∷ vs) = (v < w) × IsNarrowing v vs

-- The windows of a sync: the requested one first, then strictly narrower ones, at most two of them.
pub fallbacks-IsNarrowing :
    (days : ℕ) → IsNarrowing days (fallbacks days) × (length (fallbacks days) ≤ 2)
fallbacks-IsNarrowing days = ground arith

or_narrower-ok : (p q : Pull) (c : Counts) → p.ending ≡ ok c → (or_narrower p q).ending ≡ ok c
or_narrower-ok p q c e = rw (or_narrower, e) e

or_narrower-refused :
    (p q : Pull) (f : Fault) (c : Counts)
    → p.ending ≡ err f
    → is_wrong_period f ≡ true
    → q.ending ≡ ok c
    → (or_narrower p q).ending ≡ ok c
or_narrower-refused p q f c e period there = rw (or_narrower, e, period) there

module _ {A : Type 0} (sync_account : (window : ℕ) → A → Result Fault Counts) where
  -- The bank answers for every account, or refuses the window at one of them, all before it having
  -- been answered.
  abbrev pub IsAccepted : ℕ → List A → Type 0
  IsAccepted w accounts = All (λ a. (c : Counts) × (sync_account w a ≡ ok c)) accounts

  abbrev pub IsRefused : ℕ → List A → Type 0
  IsRefused w accounts =
      (f : Fault) × ((sync_accounts sync_account w accounts).ending ≡ err f)
      × (is_wrong_period f ≡ true)

  -- A window is accepted, and all before it are refused for their length.
  abbrev pub Gets : ℕ → List ℕ → List A → Type 0
  Gets w [] accounts = IsAccepted w accounts
  Gets w (v ∷ vs) accounts = IsAccepted w accounts ⊎ (IsRefused w accounts × Gets v vs accounts)

  accepted-ok :
      (w : ℕ) (accounts : List A)
      → IsAccepted w accounts
      → (c : Counts) × ((sync_accounts sync_account w accounts).ending ≡ ok c)
  unfolding sync_accounts
  accepted-ok w [] h = (no_counts, refl)
  accepted-ok w (a ∷ accounts) (here, rest) =
      let (c, e) = accepted-ok w accounts rest in
      (plus here.0 c, rw (sync_accounts, here.1) (ap (plus_result here.0) e))

  -- The loop gets through if some window does and all before it are refused for their length only.
  pub try_windows_get :
      (w : ℕ) (ws : List ℕ) (accounts : List A)
      → Gets w ws accounts
      → (c : Counts) × ((try_windows sync_account w ws accounts).ending ≡ ok c)
  unfolding try_windows
  try_windows_get w [] accounts h = accepted-ok w accounts h
  try_windows_get w (v ∷ vs) accounts (inl h) =
      let (c, e) = accepted-ok w accounts h in
      (
        c,
        or_narrower-ok (sync_accounts sync_account w accounts)
            (try_windows sync_account v vs accounts) c e,
      )
  try_windows_get w (v ∷ vs) accounts (inr (refusal, h)) =
      let (c, e) = try_windows_get v vs accounts h in
      (
        c,
        or_narrower-refused (sync_accounts sync_account w accounts)
            (try_windows sync_account v vs accounts) refusal.0 c refusal.1 refusal.2 e,
      )
