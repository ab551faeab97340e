-- ===== src/Prelude/Entries.antt =====
-- Facts about every entry of a dict.
use penge.Prelude.{◌≡◌, inl, inr, Bool-cases, some, [], ◌∷◌, sym, subst, some-injective}
use penge.Prelude.Eq.{Comparable}
use penge.Prelude.Dict.{Dict, lookup, insert, remove}

module _ {ℓ κ} {K V : Type ℓ} ⦃e : Comparable K⦄ (P : K → V → Type κ) where
  abbrev pub Entries : Dict K V → Type κ
  Entries [] = Unit
  Entries ((k, v) ∷ d) = P k v × Entries d

  pub lookup-Entries : (k : K) {v : V} (d : Dict K V) → Entries d → lookup k d ≡ some v → P k v
  lookup-Entries k [] h p = absurd (cc)
  lookup-Entries k {v} ((j, w) ∷ d) h p = elim (Bool-cases (e.beq k j)) [
    | inl same ↦
        subst (λ x. P x v) (sym ((e.beq_iff k j).0 same))
          (subst (P j) (some-injective _ _ (rw same at p)) h.0)
    | inr other ↦ lookup-Entries k d h.1 (rw other at p)
  ]

  pub insert-Entries : (k : K) (v : V) (d : Dict K V) → P k v → Entries d → Entries (insert k v d)
  unfolding insert
  insert-Entries k v [] p h = (p, tt)
  insert-Entries k v ((j, w) ∷ d) p h = elim (Bool-cases (e.beq k j)) [
    | inl same ↦ rw same (subst (λ x. P x v) ((e.beq_iff k j).0 same) p, h.1)
    | inr other ↦ rw other (h.0, insert-Entries k v d p h.1)
  ]

  pub remove-Entries : (k : K) (d : Dict K V) → Entries d → Entries (remove k d)
  unfolding remove
  remove-Entries k [] h = tt
  remove-Entries k ((j, w) ∷ d) h = elim (Bool-cases (e.beq k j)) [
    | inl same ↦ rw same h.1
    | inr other ↦ rw other (h.0, remove-Entries k d h.1)
  ]
