-- ===== src/Household/Merchants.antt =====
-- `save_merchant` and `save_alias` of src/penge/household/service.py. A merchant's fields are set
-- from the body, its name without the surrounding white space; the provider of an alias is a text.
use penge.Prelude.{
  ℕ, suc, Bool, true, false, not, ◌&&◌, ◌||◌, ◌==◌, [], ◌∷◌, Option, none, some, Result, ok, ◌>>=◌,
  ◌>>◌, raise_if, if◌then◌else◌,
}
use penge.Prelude.Eq.{nat_eq}
use penge.Prelude.Dict.{Dict, insert}
use penge.Household.Labels.{Text, is_blank, strip, text_eq, normalize_label, processor_only_label}
use penge.Household.Schemas.{Merchant, MerchantWrite, Alias, AliasWrite}
use penge.Household.Store.{
  HouseholdError, blank_name, blank_alias, processor_only, alias_exists, Store, Snapshot,
  merchant_snapshot, alias_snapshot, require, check_revision, audit,
}
use penge.Household.Learn.{learn, disable_rule}

-- The row that the key stands for; without a key there is none yet.
abbrev pub current : {V : Type 0} → Option ℕ → Dict ℕ V → Result HouseholdError (Option V)
current none d = ok none
current (some key) d = do v ← require key d; ok (some v)

abbrev pub id_of : Option ℕ → Store → ℕ
id_of none s = s.next_id
id_of (some key) s = key

abbrev pub merchant_revision : Option Merchant → ℕ
merchant_revision none = 0
merchant_revision (some m) = m.revision

abbrev pub merchant_rule_version : Option Merchant → ℕ
merchant_rule_version none = 0
merchant_rule_version (some m) = m.rule_version

abbrev pub merchant_before : Option Merchant → Option Snapshot
merchant_before none = none
merchant_before (some m) = some (merchant_snapshot m)

abbrev pub merchant_written : MerchantWrite → Option Merchant → Merchant
merchant_written body old = record {
  name = strip body.name;
  identity_kind = body.identity_kind;
  confirmed = body.confirmed;
  archived = body.archived;
  revision = suc (merchant_revision old);
  rule_version = merchant_rule_version old;
  reference_source = body.reference_source;
  reference_key = body.reference_key;
  reference_version = body.reference_version;
}

unfoldable pub put_merchant : ℕ → Merchant → Option Merchant → Store → Store
unfolding insert audit
put_merchant id m old s =
    audit id "save" (merchant_before old) (merchant_snapshot m)
      (record s { merchants = insert id m s.merchants; next_id = suc s.next_id })

abbrev pub alias_revision : Option Alias → ℕ
alias_revision none = 0
alias_revision (some a) = a.revision

abbrev pub alias_before : Option Alias → Option Snapshot
alias_before none = none
alias_before (some a) = some (alias_snapshot a)

abbrev pub alias_merchant : Option Alias → Option ℕ
alias_merchant none = none
alias_merchant (some a) = some a.merchant_id

-- The alias with the provider and the normalized label.
abbrev pub find_alias : Text → Text → Dict ℕ Alias → Option (ℕ × Alias)
find_alias provider normalized [] = none
find_alias provider normalized ((id, a) ∷ d) =
    if text_eq a.provider provider && text_eq a.normalized normalized
    then some (id, a)
    else find_alias provider normalized d

-- There is such an alias, and it is not the one with the key.
abbrev pub is_taken : Option ℕ → Option (ℕ × Alias) → Bool
is_taken key none = false
is_taken none (some (id, a)) = true
is_taken (some key) (some (id, a)) = not (id == key)

unfoldable pub put_alias : ℕ → Alias → Option Alias → Store → Store
unfolding insert audit
put_alias id a old s =
    audit id "save" (alias_before old) (alias_snapshot a)
      (record s { aliases = insert id a s.aliases; next_id = suc s.next_id })

-- The rule of the merchant that the alias has left.
abbrev pub release : (old : Option ℕ) → (new : ℕ) → Store → Result HouseholdError Store
release none new s = ok s
release (some old) new s =
    if old == new
    then ok s
    else disable_rule old "alias identity corrected; review previous assignments" s >>= λ x. ok x.1

module _ (fold : ℕ → Text) where
  unfoldable pub save_merchant :
      MerchantWrite → Option ℕ → Store → Result HouseholdError (ℕ × Store)
  unfolding is_blank strip put_merchant learn
  save_merchant body key s = do
    old ← current key s.merchants
    check_revision (merchant_revision old) body.expected_revision
    raise_if (is_blank body.name) blank_name
    let id = id_of key s
    (_, s1) ← learn fold id (put_merchant id (merchant_written body old) old s)
    ok (id, s1)

  abbrev pub alias_written : AliasWrite → Option Alias → Alias
  alias_written body old = record {
    merchant_id = body.merchant_id;
    provider = body.provider;
    normalized = normalize_label fold body.label;
    confirmed = body.confirmed;
    revision = suc (alias_revision old);
  }

  abbrev pub is_empty : Text → Bool
  is_empty [] = true
  is_empty (c ∷ cs) = false

  unfoldable pub save_alias : AliasWrite → Option ℕ → Store → Result HouseholdError (ℕ × Store)
  unfolding normalize_label is_blank processor_only_label put_alias disable_rule
  save_alias body key s = do
    m ← require body.merchant_id s.merchants
    old ← current key s.aliases
    check_revision (alias_revision old) body.expected_revision
    raise_if (is_empty (normalize_label fold body.label) || is_blank body.provider) blank_alias
    raise_if (body.confirmed && processor_only_label fold body.label) processor_only
    raise_if (is_taken key (find_alias body.provider (normalize_label fold body.label) s.aliases))
        alias_exists
    let id = id_of key s
    s1 ← release (alias_merchant old) body.merchant_id (put_alias id (alias_written body old) old s)
    ok (id, s1)
