-- ===== src/Prelude/Equality.antt =====
-- Go's `==` on the key types of the program's maps, as an interface with its instances.
use Prim.Native.Nat.{ℕ}
use Prim.Native.String.{String}
use mathlib.Core.Path.{◌≡◌, refl}
use mathlib.Core.Logic.{◌↔◌}
use mathlib.Core.Bool.{Bool, true, false, ◌&&◌}
use mathlib.Core.List.{List, [], ◌∷◌}
use native.Mathlib.Omega.{arith}
use text.Mathlib.Text.{◌==◌ as str_beq}
use text.Mathlib.TextEquality.{eq_iff}
use bcrstracking.Prelude.Tests.{nat_beq, nat_beq_iff}

-- A type that Go lets a map use as its key.
pub record Comparable {ℓ} (K : Type ℓ) : Type ℓ where
  pub equals : K → K → Bool
  pub equals_iff : (j k : K) → (equals j k ≡ true) ↔ (j ≡ k)

infix 50 ◌==◌
abbrev pub ◌==◌ {ℓ} : {K : Type ℓ} ⦃keys : Comparable K⦄ → K → K → Bool
◌==◌ ⦃keys⦄ j k = keys.equals j k

-- uint32 and int
instance abbrev pub nat_keys : Comparable ℕ
nat_keys = record { equals = nat_beq; equals_iff = nat_beq_iff }

-- string
instance abbrev pub string_keys : Comparable String
string_keys = record { equals = str_beq; equals_iff = eq_iff }

module _ {ℓ κ} {A : Type ℓ} {B : Type κ} ⦃a : Comparable A⦄ ⦃b : Comparable B⦄ where
  abbrev pub pair_beq : A × B → A × B → Bool
  pair_beq p q = p.0 == q.0 && p.1 == q.1

  pub pair_beq_iff : (p q : A × B) → (pair_beq p q ≡ true) ↔ (p ≡ q)
  pair_beq_iff p q = ground (arith, a.equals_iff p.0 q.0, b.equals_iff p.1 q.1)

  instance abbrev pub pair_keys : Comparable (A × B)
  pair_keys = record { equals = pair_beq; equals_iff = pair_beq_iff }

module _ {ℓ} {A : Type ℓ} ⦃a : Comparable A⦄ where
  abbrev pub list_beq : List A → List A → Bool
  list_beq [] [] = true
  list_beq (x ∷ xs) (y ∷ ys) = x == y && list_beq xs ys
  list_beq _ _ = false

  pub list_beq_iff : (xs ys : List A) → (list_beq xs ys ≡ true) ↔ (xs ≡ ys)
  list_beq_iff [] [] = ground arith
  list_beq_iff [] (y ∷ ys) = ground arith
  list_beq_iff (x ∷ xs) [] = ground arith
  list_beq_iff (x ∷ xs) (y ∷ ys) = ground (arith, a.equals_iff x y, list_beq_iff xs ys)

  instance abbrev pub list_keys : Comparable (List A)
  list_keys = record { equals = list_beq; equals_iff = list_beq_iff }

  pub beq_self : (x : A) → (x == x) ≡ true
  beq_self x = (a.equals_iff x x).1 refl
