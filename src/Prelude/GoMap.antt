-- ===== src/Prelude/GoMap.antt =====
-- Go's `map[K]V` as a list of entries with distinct keys. Go leaves the order of a `range` open: the
-- order of the list is the order that the run at hand takes, and theorems range over all lists.
use mathlib.Core.Path.{◌≡◌, refl}
use mathlib.Core.Option.{Option, none, some}
use mathlib.Core.List.{List, [], ◌∷◌}
use native.Mathlib.Omega.{arith}
use mathlib.Core.Logic.{inl, inr}
use bcrstracking.Prelude.Tests.{if◌then◌else◌, Bool-cases}
use bcrstracking.Prelude.Lists.{All, All-mono}
use bcrstracking.Prelude.Equality.{Comparable, ◌==◌}

abbrev pub Entries {ℓ κ} : Type ℓ → Type κ → Type (ℓ ⊔ κ)
Entries K V = List (K × V)

-- The value of an option, or a default.
abbrev pub value_or {ℓ} : {A : Type ℓ} → A → Option A → A
value_or d none = d
value_or d (some v) = v

module _ {ℓ κ} {K : Type ℓ} {V : Type κ} ⦃e : Comparable K⦄ where
  -- v, ok := m[k]
  unfoldable pub lookup : K → Entries K V → Option V
  lookup k [] = none
  lookup k ((j, v) ∷ m) = if j == k then some v else lookup k m

  -- m[k] = v
  unfoldable pub insert : K → V → Entries K V → Entries K V
  insert k v [] = (k, v) ∷ []
  insert k v ((j, w) ∷ m) = if j == k then (j, v) ∷ m else (j, w) ∷ insert k v m

  pub lookup-insert :
      (k j : K) (v : V) (m : Entries K V)
      → lookup j (insert k v m) ≡ (if k == j then some v else lookup j m)
  unfolding lookup insert
  lookup-insert k j v [] = ground arith
  lookup-insert k j v ((i, w) ∷ m) =
      ground (arith, lookup-insert k j v m, e.equals_iff k j, e.equals_iff i k, e.equals_iff i j)

  -- m[k], with the element type's zero value for a missing key
  unfoldable pub get_or : V → K → Entries K V → V
  get_or zero_value k m = value_or zero_value (lookup k m)

  pub get_or-insert :
      (zero_value v : V) (k j : K) (m : Entries K V)
      → get_or zero_value j (insert k v m) ≡ (if k == j then v else get_or zero_value j m)
  unfolding get_or
  get_or-insert zero_value v k j m = ground (arith, lookup-insert k j v m)

  pub get_or-empty : (zero_value : V) (k : K) → get_or zero_value k [] ≡ zero_value
  unfolding get_or lookup
  get_or-empty zero_value k = refl

  -- The keys are distinct: no entry's key is found behind it.
  abbrev pub HasDistinctKeys : Entries K V → Type κ
  HasDistinctKeys [] = Unit
  HasDistinctKeys ((k, v) ∷ m) = (lookup k m ≡ none) × HasDistinctKeys m

  pub HasDistinctKeys-insert :
      (k : K) (v : V) (m : Entries K V) → HasDistinctKeys m → HasDistinctKeys (insert k v m)
  unfolding insert lookup
  HasDistinctKeys-insert k v [] d = (refl, tt)
  HasDistinctKeys-insert k v ((j, w) ∷ m) d = ground (
    arith,
    lookup-insert k j v m,
    HasDistinctKeys-insert k v m,
    e.equals_iff j k,
    e.equals_iff k j,
  )

  -- In a map with distinct keys every entry is what a lookup of its key finds.
  pub entries-lookup :
      (m : Entries K V) → HasDistinctKeys m → All (λ entry. lookup entry.0 m ≡ some entry.1) m
  unfolding lookup
  entries-lookup [] d = tt
  entries-lookup ((k, v) ∷ m) d =
      (rw ((e.equals_iff k k).1 refl), All-mono behind m (entries-lookup m d.1))
    where
      behind :
          (entry : K × V)
          → lookup entry.0 m ≡ some entry.1
          → (if k == entry.0 then some v else lookup entry.0 m) ≡ some entry.1
      behind entry h = ground (arith, e.equals_iff k entry.0)

-- A property of all values of a map.
module _ {ℓ κ μ} {K : Type ℓ} {V : Type κ} ⦃e : Comparable K⦄ (P : V → Type μ) where
  pub All-insert :
      (k : K) (v : V) (m : Entries K V)
      → P v
      → All (λ entry. P entry.1) m
      → All (λ entry. P entry.1) (insert k v m)
  unfolding insert
  All-insert k v [] p h = (p, tt)
  All-insert k v ((j, w) ∷ m) p h = elim (Bool-cases (j == k)) [
    | inl same ↦ rw same (p, h.1)
    | inr other ↦ rw other (h.0, All-insert k v m p h.1)
  ]

  pub All-get_or :
      (zero_value : V) (k : K) (m : Entries K V)
      → P zero_value
      → All (λ entry. P entry.1) m
      → P (get_or zero_value k m)
  unfolding get_or lookup
  All-get_or zero_value k [] p h = p
  All-get_or zero_value k ((j, w) ∷ m) p h = elim (Bool-cases (j == k)) [
    | inl same ↦ rw same h.0
    | inr other ↦ rw other (unfold get_or in All-get_or zero_value k m p h.1)
  ]
