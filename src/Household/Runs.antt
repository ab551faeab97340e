-- ===== src/Household/Runs.antt =====
-- Sequences of the household's operations (src/penge/household/service.py), and what holds after
-- each of them.
use penge.Prelude.{
  ℕ, suc, ◌≤◌, ◌≡◌, ◌∙◌, subst, refl, sym, ap, arith, String, Bool, true, false, not, ◌&&◌, ◌||◌,
  ◌==◌, >>=-ok, ok-injective, inl, inr, Bool-cases, Option, none, some, List, All-mono, ok,
  raise_if,
}
use penge.Prelude.Eq.{nat_eq}
use penge.Prelude.Dict.{Dict, lookup, insert}
use penge.Household.Labels.{Text, is_blank, normalize_label, processor_only_label}
use penge.Household.Schemas.{
  Treatment, CategoryKind, Split, CategoryWrite, Category, MerchantWrite, Merchant, AliasWrite,
  Account, SourceTransaction, PaymentDetail, ClassificationWrite, Undo, RuleControl, active, Rule,
}
use penge.Household.Store.{
  blank_name, blank_alias, processor_only, alias_exists, not_current_rule, preview_requires_active,
  Store, require, rows, check_revision,
}
use penge.Household.Rules.{new_rule, same_state}
use penge.Household.Learn.{learn, disable_rule, switch_rule, control_rule, insufficient_verdict}
use penge.Household.Frame.{
  IsNumbered, Keeps, Keeps-refl, Keeps-tables, Keeps-trans, audit-Keeps, new_rule-Keeps,
  learn-Keeps, disable_rule-Keeps,
}
use penge.Household.Categories.{save_category}
use penge.Household.Categories.Forest.{IsForest, IsWellFormed, save_category-IsWellFormed}
use penge.Household.Splits.{wanted_kind, category_ids}
use penge.Household.Splits.Balance.{HasKind, IsBalanced}
use penge.Household.Categories.Kinds.{save_category-KeepsKinds}
use penge.Prelude.Int.{ℤ}
use penge.Household.Merchants
use penge.Household.Merchants.{
  merchant_revision, merchant_before, merchant_written, put_merchant, alias_revision, alias_before,
  alias_merchant, find_alias, is_taken, put_alias, release, save_merchant, alias_written, is_empty,
  save_alias, id_of,
}
use penge.Household.Classifications.{save_classification, undo_classification}
use penge.Household.Classifications.Decided.{Decided, save_classification-Decided}
use penge.Household.Classifications.Undoing.{undo_classification-Undone}
use penge.Household.Classifications.Balanced.{AllBalanced, Keeps-AllBalanced, Decided-AllBalanced}
use penge.Household.Approval.{
  open_category, candidates, take, drop, keys_of, in_order, preview_rule, apply_preview,
}
use penge.Household.Sync.{ids_of_account, on_bank_sync, invalidate_account_sources}
use penge.Household.Evolution.{
  Evolves, Evolves-preserves, put_preview-Keeps, apply_preview-Evolves, on_bank_sync-Evolves,
  sync_all_changed-Keeps,
}

module _ (fold : ℕ → Text) (uuid_text int_text : ℕ → String) where
  -- What operations, each with any arguments, make of a store; those that raise leave it as it is.
  -- Imports and provider syncs write the accounts, movements and payment details as they like.
  pub data Runs : Store → Store → Type 0 where
    start : (s : Store) → Runs s s
    sources :
        (s t : Store) (accounts : Dict ℕ Account) (transactions : Dict ℕ SourceTransaction)
        (details : Dict ℕ PaymentDetail)
        → Runs s t
        → Runs s (record t { accounts = accounts; transactions = transactions; details = details })
    category :
        (s t u : Store) (body : CategoryWrite) (key : Option ℕ) (id : ℕ)
        → Runs s t
        → save_category body key t ≡ ok (id, u)
        → Runs s u
    merchant :
        (s t u : Store) (body : MerchantWrite) (key : Option ℕ) (id : ℕ)
        → Runs s t
        → save_merchant fold body key t ≡ ok (id, u)
        → Runs s u
    named :
        (s t u : Store) (body : AliasWrite) (key : Option ℕ) (id : ℕ)
        → Runs s t
        → save_alias fold body key t ≡ ok (id, u)
        → Runs s u
    corrected_by :
        (s t u : Store) (key : ℕ) (body : ClassificationWrite)
        → Runs s t
        → save_classification fold key body none "save" t ≡ ok u
        → Runs s u
    undone :
        (s t u : Store) (key : ℕ) (body : Undo)
        → Runs s t
        → undo_classification fold uuid_text key body t ≡ ok u
        → Runs s u
    controlled :
        (s t u : Store) (key : ℕ) (body : RuleControl) (r : Rule)
        → Runs s t
        → control_rule fold key body t ≡ ok (r, u)
        → Runs s u
    previewed :
        (s t u : Store) (key limit offset id : ℕ)
        → Runs s t
        → preview_rule fold uuid_text int_text key limit offset t ≡ ok (id, u)
        → Runs s u
    applied :
        (s t u : Store) (key : ℕ)
        → Runs s t
        → apply_preview fold uuid_text int_text key t ≡ ok u
        → Runs s u
    synced :
        (s t u : Store) (inserted changed : List ℕ) (n : ℕ)
        → Runs s t
        → on_bank_sync fold uuid_text int_text inserted changed t ≡ ok (n, u)
        → Runs s u
    invalidated :
        (s t u : Store) (account_id n : ℕ)
        → Runs s t
        → invalidate_account_sources account_id t ≡ ok (n, u)
        → Runs s u

-- The categories form a forest, every classification is balanced and has a revision.
pub record IsConsistent (s : Store) : Type 0 where
  pub tree : IsWellFormed s
  pub balanced : AllBalanced s
  pub numbered : IsNumbered s

later_tree :
    (s t : Store)
    → t.categories ≡ s.categories
    → s.next_id ≤ t.next_id
    → IsWellFormed s
    → IsWellFormed t
later_tree s t cats grows h = record {
  forest = subst IsForest (sym cats) h.forest;
  fresh = λ k c there. let was = h.fresh k c (ap (lookup k) (sym cats) ∙ there) in omega arith;
}

Keeps-IsConsistent : (s t : Store) → Keeps s t → IsConsistent s → IsConsistent t
Keeps-IsConsistent s t k h = record {
  tree = later_tree s t k.categories k.grows h.tree;
  balanced = Keeps-AllBalanced k h.balanced;
  numbered = k.numbered h.numbered;
}

Decided-IsConsistent :
    (key : ℕ) (body : ClassificationWrite) (rule_id : Option ℕ) (s t : Store)
    → Decided key body rule_id s t
    → IsConsistent s
    → IsConsistent t
Decided-IsConsistent key body rule_id s t d h = record {
  tree = later_tree s t d.change.categories d.change.grows h.tree;
  balanced = Decided-AllBalanced key body rule_id s t d h.balanced;
  numbered = d.change.numbered h.numbered;
}

Evolves-IsConsistent :
    {Allowed : Option ℕ → ClassificationWrite → Type 0} (s t : Store)
    → Evolves Allowed s t
    → IsConsistent s
    → IsConsistent t
Evolves-IsConsistent s t steps h =
    Evolves-preserves IsConsistent Keeps-IsConsistent
      (λ key body rule_id a b allowed d. Decided-IsConsistent key body rule_id a b d) s t steps h

IsBalanced-kinds :
    (d e : Dict ℕ Category) (treatment : Treatment) (total : ℤ) (xs : List Split)
    → ((kind : CategoryKind) (id : ℕ) → HasKind d kind id → HasKind e kind id)
    → IsBalanced d treatment total xs
    → IsBalanced e treatment total xs
IsBalanced-kinds d e treatment total xs kinds h = record {
  apart = h.apart;
  economic = λ is_economic.
      let shared = h.economic is_economic in
      record {
        conserved = shared.conserved;
        shares = shared.shares;
        expense_debits = shared.expense_debits;
        others_credit = shared.others_credit;
        typed = All-mono (category_ids xs) (λ id. kinds (wanted_kind treatment) id) shared.typed;
      };
  others = h.others;
}

save_category-IsConsistent :
    (body : CategoryWrite) (key : Option ℕ) (s : Store) {id : ℕ} {t : Store}
    → IsConsistent s
    → save_category body key s ≡ ok (id, t)
    → IsConsistent t
save_category-IsConsistent body key s {id} {t} h e =
    let k = save_category-KeepsKinds body key s h.tree e in
    record {
      tree = save_category-IsWellFormed body key s h.tree e;
      balanced = λ j c here.
          let was = h.balanced j c (ap (lookup j) (sym k.classifications) ∙ here) in
          subst (λ a. IsBalanced t.categories c.treatment c.source_amount (rows j a))
            (sym k.allocations)
            (IsBalanced-kinds s.categories t.categories c.treatment c.source_amount
              (rows j s.allocations) k.kinds was);
      numbered = λ j c here. h.numbered j c (ap (lookup j) (sym k.classifications) ∙ here);
    }

module _ (fold : ℕ → Text) where
  save_merchant-Keeps :
      (body : MerchantWrite) (key : Option ℕ) (s : Store) {id : ℕ} {t : Store}
      → save_merchant fold body key s ≡ ok (id, t)
      → Keeps s t
  unfolding save_merchant put_merchant
  save_merchant-Keeps body key s e =
      let (old, _, e1) = >>=-ok (Merchants.current key s.merchants) _ e in
      let (_, _, e2) =
        >>=-ok (check_revision (merchant_revision old) body.expected_revision) _ e1 in
      let (_, _, e3) = >>=-ok (raise_if (is_blank body.name) blank_name) _ e2 in
      let s1 : Store = put_merchant (id_of key s) (merchant_written body old) old s in
      let ((r, s2), learned, e4) = >>=-ok (learn fold (id_of key s) s1) _ e3 in
      subst (λ (x : ℕ × Store). Keeps s x.1) (ok-injective e4)
        (Keeps-trans
          (Keeps-trans
            (Keeps-tables s
              (record s {
                merchants = insert (id_of key s) (merchant_written body old) s.merchants;
                next_id = suc s.next_id;
              })
              (refl, refl, refl, refl, refl) (omega arith) (λ a event there. there))
            (audit-Keeps _ _ _ _ _))
          (learn-Keeps fold (id_of key s) s1 learned))

  release-Keeps :
      (old : Option ℕ) (new : ℕ) (s : Store) {t : Store} → release old new s ≡ ok t → Keeps s t
  release-Keeps none new s e = subst (Keeps s) (ok-injective e) (Keeps-refl s)
  release-Keeps (some old) new s e = elim (Bool-cases (old == new)) [
    | inl same ↦ subst (Keeps s) (ok-injective (rw (release, same) at e)) (Keeps-refl s)
    | inr left ↦
        let ((r, s1), gone, e1) =
          >>=-ok (disable_rule old "alias identity corrected; review previous assignments" s) _
            (rw (release, left) at e) in
        subst (Keeps s) (ok-injective e1) (disable_rule-Keeps old _ s gone)
  ]

  save_alias-Keeps :
      (body : AliasWrite) (key : Option ℕ) (s : Store) {id : ℕ} {t : Store}
      → save_alias fold body key s ≡ ok (id, t)
      → Keeps s t
  unfolding save_alias put_alias
  save_alias-Keeps body key s e =
      let (m, _, e1) = >>=-ok (require body.merchant_id s.merchants) _ e in
      let (old, _, e2) = >>=-ok (Merchants.current key s.aliases) _ e1 in
      let (_, _, e3) = >>=-ok (check_revision (alias_revision old) body.expected_revision) _ e2 in
      let (_, _, e4) =
        >>=-ok
          (raise_if (is_empty fold (normalize_label fold body.label) || is_blank body.provider)
            blank_alias)
          _ e3 in
      let (_, _, e5) =
        >>=-ok (raise_if (body.confirmed && processor_only_label fold body.label) processor_only) _
          e4 in
      let (_, _, e6) =
        >>=-ok
          (raise_if
            (is_taken key (find_alias body.provider (normalize_label fold body.label) s.aliases))
            alias_exists)
          _ e5 in
      let s1 : Store = put_alias (id_of key s) (alias_written fold body old) old s in
      let (s2, left, e7) = >>=-ok (release (alias_merchant old) body.merchant_id s1) _ e6 in
      subst (λ (x : ℕ × Store). Keeps s x.1) (ok-injective e7)
        (Keeps-trans
          (Keeps-trans
            (Keeps-tables s
              (record s {
                aliases = insert (id_of key s) (alias_written fold body old) s.aliases;
                next_id = suc s.next_id;
              })
              (refl, refl, refl, refl, refl) (omega arith) (λ a event there. there))
            (audit-Keeps _ _ _ _ _))
          (release-Keeps (alias_merchant old) body.merchant_id s1 left))

  switch_rule-Keeps :
      (is_disabled : Bool) (r : Rule) (m : Merchant) (s : Store) {q : Rule} {t : Store}
      → switch_rule fold is_disabled r m s ≡ ok (q, t)
      → Keeps s t
  unfolding switch_rule
  switch_rule-Keeps true r m s e = disable_rule-Keeps r.merchant_id _ s e
  switch_rule-Keeps false r m s e =
      let ((q, s1), fresh, e1) =
        >>=-ok
          (new_rule r.merchant_id m
            (record insufficient_verdict { explanation = "explicit learning re-evaluation" })
            r.evidence s)
          _ e in
      Keeps-trans
        (new_rule-Keeps r.merchant_id m
          (record insufficient_verdict { explanation = "explicit learning re-evaluation" })
          r.evidence s fresh)
        (learn-Keeps fold r.merchant_id s1 e1)

  control_rule-Keeps :
      (key : ℕ) (body : RuleControl) (s : Store) {r : Rule} {t : Store}
      → control_rule fold key body s ≡ ok (r, t)
      → Keeps s t
  unfolding control_rule
  control_rule-Keeps key body s e =
      let (r, _, e1) = >>=-ok (require key s.rules) _ e in
      let (m, _, e2) = >>=-ok (require r.merchant_id s.merchants) _ e1 in
      let (_, _, e3) = >>=-ok (check_revision m.rule_version body.expected_version) _ e2 in
      let (_, _, e4) =
        >>=-ok (raise_if (not (r.version == m.rule_version)) not_current_rule) _ e3 in
      switch_rule-Keeps body.is_disabled r m s e4

  preview_rule-Keeps :
      (uuid_text int_text : ℕ → String) (key limit offset : ℕ) (s : Store) {id : ℕ} {t : Store}
      → preview_rule fold uuid_text int_text key limit offset s ≡ ok (id, t)
      → Keeps s t
  unfolding preview_rule
  preview_rule-Keeps uuid_text int_text key limit offset s e =
      let (r, _, e1) = >>=-ok (require key s.rules) _ e in
      let (m, _, e2) = >>=-ok (require r.merchant_id s.merchants) _ e1 in
      let (is_open, _, e3) = >>=-ok (open_category r.category_id s) _ e2 in
      let (_, _, e4) =
        >>=-ok
          (raise_if
            (not (same_state r.state active) || not (r.version == m.rule_version) || not is_open)
            preview_requires_active)
          _ e3 in
      let (cs, _, e5) =
        >>=-ok
          (candidates fold uuid_text int_text key r
            (take limit (drop offset (keys_of (in_order s.transactions)))) s)
          _ e4 in
      subst (λ (x : ℕ × Store). Keeps s x.1) (ok-injective e5)
        (put_preview-Keeps none "preview" s.next_id
          (record { rule_id = key; candidates = cs; applied = false }) s)

module _ (fold : ℕ → Text) (uuid_text int_text : ℕ → String) where
  undone-IsConsistent :
      (key : ℕ) (body : Undo) (s : Store) {t : Store}
      → IsConsistent s
      → undo_classification fold uuid_text key body s ≡ ok t
      → IsConsistent t
  undone-IsConsistent key body s {t} h e =
      let u = undo_classification-Undone fold uuid_text key body s e in
      Keeps-IsConsistent u.saved t u.after
        (Decided-IsConsistent key u.write none s u.saved u.decided h)

  -- After any sequence of household operations with any arguments, between which imports may write
  -- the accounts, movements and payment details as they like, from a consistent store: the
  -- categories form a forest with one kind per tree, and the allocations of every classification
  -- conserve the amount it was made for, in cents, with the right signs, to distinct categories
  -- that are there and of the right kind.
  pub Runs-IsConsistent :
      (s t : Store) → Runs fold uuid_text int_text s t → IsConsistent s → IsConsistent t
  unfolding invalidate_account_sources
  Runs-IsConsistent _ _ (start s) h = h
  Runs-IsConsistent _ _ (sources s t accounts transactions details r) h =
      let i = Runs-IsConsistent s t r h in
      Keeps-IsConsistent t _
        (Keeps-tables t _ (refl, refl, refl, refl, refl) (omega arith) (λ a event there. there)) i
  Runs-IsConsistent _ _ (category s t u body key id r e) h =
      save_category-IsConsistent body key t (Runs-IsConsistent s t r h) e
  Runs-IsConsistent _ _ (merchant s t u body key id r e) h =
      Keeps-IsConsistent t u (save_merchant-Keeps fold body key t e) (Runs-IsConsistent s t r h)
  Runs-IsConsistent _ _ (named s t u body key id r e) h =
      Keeps-IsConsistent t u (save_alias-Keeps fold body key t e) (Runs-IsConsistent s t r h)
  Runs-IsConsistent _ _ (corrected_by s t u key body r e) h =
      Decided-IsConsistent key body none t u
        (save_classification-Decided fold key body none "save" t e) (Runs-IsConsistent s t r h)
  Runs-IsConsistent _ _ (undone s t u key body r e) h =
      undone-IsConsistent key body t (Runs-IsConsistent s t r h) e
  Runs-IsConsistent _ _ (controlled s t u key body q r e) h =
      Keeps-IsConsistent t u (control_rule-Keeps fold key body t e) (Runs-IsConsistent s t r h)
  Runs-IsConsistent _ _ (previewed s t u key limit offset id r e) h =
      Keeps-IsConsistent t u (preview_rule-Keeps fold uuid_text int_text key limit offset t e)
        (Runs-IsConsistent s t r h)
  Runs-IsConsistent _ _ (applied s t u key r e) h =
      Evolves-IsConsistent t u (apply_preview-Evolves fold uuid_text int_text key t e)
        (Runs-IsConsistent s t r h)
  Runs-IsConsistent _ _ (synced s t u inserted changed n r e) h =
      Evolves-IsConsistent t u (on_bank_sync-Evolves fold uuid_text int_text inserted changed t e)
        (Runs-IsConsistent s t r h)
  Runs-IsConsistent _ _ (invalidated s t u account_id n r e) h =
      Keeps-IsConsistent t u
        (sync_all_changed-Keeps (ids_of_account account_id t.transactions t.classifications) t e)
        (Runs-IsConsistent s t r h)
