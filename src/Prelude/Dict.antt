-- ===== src/Prelude/Dict.antt =====
-- A Python dict in insertion order, over any type of keys with a decided equality.
use mathlib.Core.Path.{◌≡◌, refl}
use mathlib.Core.Logic.{◌≢◌}
use mathlib.Core.Bool.{Bool, true, false}
use mathlib.Core.Option.{Option, none, some}
use mathlib.Core.List.{List, [], ◌∷◌, ◌++◌}
use native.Mathlib.Omega.{arith}
use penge.Prelude.Tests.{if◌then◌else◌}
use penge.Prelude.Eq.{Comparable}

abbrev pub Dict {ℓ} : Type ℓ → Type ℓ → Type ℓ
Dict K V = List (K × V)

module _ {ℓ} {K V : Type ℓ} ⦃e : Comparable K⦄ where
  abbrev pub lookup : K → Dict K V → Option V
  lookup k [] = none
  lookup k ((j, v) ∷ d) = if e.beq k j then some v else lookup k d

  -- `k in d`
  abbrev pub contains : K → Dict K V → Bool
  contains k d = elim (lookup k d) [ none ↦ false | some _ ↦ true ]

  -- `d[k] = v`: a known key keeps its place.
  unfoldable pub insert : K → V → Dict K V → Dict K V
  insert k v [] = (k, v) ∷ []
  insert k v ((j, w) ∷ d) = if e.beq k j then (j, v) ∷ d else (j, w) ∷ insert k v d

  -- `del d[k]`, `d.pop(k)` for a key that is there.
  unfoldable pub remove : K → Dict K V → Dict K V
  remove k [] = []
  remove k ((j, w) ∷ d) = if e.beq k j then d else (j, w) ∷ remove k d

  -- No key stands twice.
  abbrev pub IsDistinct : Dict K V → Type ℓ
  IsDistinct [] = Unit
  IsDistinct ((k, v) ∷ d) = (lookup k d ≡ none) × IsDistinct d

  pub lookup-insert :
      (j k : K) (v : V) (d : Dict K V)
      → lookup j (insert k v d) ≡ (if e.beq j k then some v else lookup j d)
  unfolding insert
  lookup-insert j k v [] = refl
  lookup-insert j k v ((i, w) ∷ d) =
      ground (arith, e.beq_iff j k, e.beq_iff k i, e.beq_iff j i, lookup-insert j k v d)

  pub lookup-insert_ne :
      (j k : K) (v : V) (d : Dict K V) → j ≢ k → lookup j (insert k v d) ≡ lookup j d
  lookup-insert_ne j k v d h = ground (arith, lookup-insert j k v d, e.beq_iff j k)

  pub lookup-insert_self : (k : K) (v : V) (d : Dict K V) → lookup k (insert k v d) ≡ some v
  lookup-insert_self k v d = ground (arith, lookup-insert k k v d, e.beq_iff k k)

  pub lookup-remove_ne : (j k : K) (d : Dict K V) → j ≢ k → lookup j (remove k d) ≡ lookup j d
  unfolding remove
  lookup-remove_ne j k [] h = refl
  lookup-remove_ne j k ((i, w) ∷ d) h =
      ground (arith, e.beq_iff k i, e.beq_iff j i, lookup-remove_ne j k d h)

  pub lookup-remove_self : (k : K) (d : Dict K V) → IsDistinct d → lookup k (remove k d) ≡ none
  unfolding remove
  lookup-remove_self k [] h = refl
  lookup-remove_self k ((i, w) ∷ d) h = ground (arith, e.beq_iff k i, lookup-remove_self k d h.1)

  pub insert-IsDistinct : (k : K) (v : V) (d : Dict K V) → IsDistinct d → IsDistinct (insert k v d)
  unfolding insert
  insert-IsDistinct k v [] h = (refl, tt)
  insert-IsDistinct k v ((i, w) ∷ d) h =
      ground
        (arith, e.beq_iff k i, e.beq_iff i k, insert-IsDistinct k v d h.1, lookup-insert i k v d)

  lookup-remove-none : (j k : K) (d : Dict K V) → lookup j d ≡ none → lookup j (remove k d) ≡ none
  unfolding remove
  lookup-remove-none j k [] h = refl
  lookup-remove-none j k ((i, w) ∷ d) h =
      ground (arith, e.beq_iff k i, e.beq_iff j i, lookup-remove-none j k d)

  pub remove-IsDistinct : (k : K) (d : Dict K V) → IsDistinct d → IsDistinct (remove k d)
  unfolding remove
  remove-IsDistinct k [] h = tt
  remove-IsDistinct k ((i, w) ∷ d) h =
      ground (arith, e.beq_iff k i, remove-IsDistinct k d h.1, lookup-remove-none i k d)

  pub lookup-append :
      (k : K) (d f : Dict K V) {v : V} → lookup k d ≡ some v → lookup k (d ++ f) ≡ some v
  lookup-append k [] f h = absurd (cc h)
  lookup-append k ((j, w) ∷ d) f {v} h = ground (arith, lookup-append k d f {v = v})
