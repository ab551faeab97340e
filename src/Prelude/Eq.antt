-- ===== src/Prelude/Eq.antt =====
-- Python's `==` on the keys that the program compares.
use Prim.Native.Nat.{ℕ}
use Prim.Native.String.{String}
use mathlib.Core.Path.{◌≡◌}
use mathlib.Core.Logic.{◌↔◌}
use mathlib.Core.Bool.{Bool, true, ◌&&◌}
use native.Mathlib.Omega.{arith}
use text.Mathlib.Text.{◌==◌ as str_eq}
use text.Mathlib.TextEquality.{eq_iff}
use penge.Prelude.Tests.{◌==◌ as nat_beq, ==_iff}

-- Keys of the program's dicts.
pub record Comparable {ℓ} (K : Type ℓ) : Type ℓ where
  pub beq : K → K → Bool
  pub beq_iff : (j k : K) → (beq j k ≡ true) ↔ (j ≡ k)

-- Names, ISINs and account ids.
instance abbrev pub string_eq : Comparable String
string_eq = record { beq_iff = eq_iff; beq = str_eq }

module _ {A B : Type 0} ⦃e : Comparable A⦄ ⦃f : Comparable B⦄ where
  abbrev pub pair_beq : A × B → A × B → Bool
  pair_beq x y = e.beq x.0 y.0 && f.beq x.1 y.1

  pub pair_beq_iff : (x y : A × B) → (pair_beq x y ≡ true) ↔ (x ≡ y)
  pair_beq_iff (a, b) (c, d) = ground (arith, e.beq_iff a c, f.beq_iff b d)

  instance abbrev pub pair_eq : Comparable (A × B)
  pair_eq = record { beq = pair_beq; beq_iff = pair_beq_iff }

-- Years.
instance abbrev pub nat_eq : Comparable ℕ
nat_eq = record { beq_iff = ==_iff; beq = nat_beq }
