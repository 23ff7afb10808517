-- ===== src/Model/Index.antt =====
-- Machines by number, as the loops `m[rvm.ID] = rvm` of internal/poller build them.
use bcrstracking.Prelude.{
  ℕ, nat_keys, ◌≡◌, refl, Option, none, some, Bool, false, List, [], ◌∷◌, map, ◌==◌, ◌&&◌, ◌||◌,
  not, if◌then◌else◌, arith, nat_beq_iff, Bool-cases, inl, inr, subst, All, All-mono, beq_self,
  keep_if, is_none, ◌++◌,
}
use bcrstracking.Prelude.GoMap.{
  Entries, lookup, insert, lookup-insert, HasDistinctKeys, HasDistinctKeys-insert,
}
use bcrstracking.Model.{Rvm}

unfoldable pub index_from : List Rvm → Entries ℕ Rvm → Entries ℕ Rvm
index_from [] m = m
index_from (rvm ∷ rest) m = index_from rest (insert rvm.id rvm m)

-- A machine with the number is in the list.
abbrev pub is_listed : ℕ → List Rvm → Bool
is_listed id [] = false
is_listed id (rvm ∷ rest) = rvm.id == id || is_listed id rest

-- The last machine with the number, which is the one that the loop leaves in the map.
unfoldable pub find_last : ℕ → List Rvm → Option Rvm → Option Rvm
find_last id [] found = found
find_last id (rvm ∷ rest) found = find_last id rest (if rvm.id == id then some rvm else found)

pub lookup-index_from :
    (id : ℕ) (rvms : List Rvm) (m : Entries ℕ Rvm)
    → lookup id (index_from rvms m) ≡ find_last id rvms (lookup id m)
unfolding index_from find_last
lookup-index_from id [] m = refl
lookup-index_from id (rvm ∷ rest) m =
    rw (lookup-index_from id rest (insert rvm.id rvm m), lookup-insert rvm.id id rvm m)

pub is_none-find_last :
    (id : ℕ) (rvms : List Rvm) (found : Option Rvm)
    → is_none (find_last id rvms found) ≡ (is_none found && not (is_listed id rvms))
unfolding find_last
is_none-find_last id [] found = ground arith
is_none-find_last id (rvm ∷ rest) found =
    ground (arith, is_none-find_last id rest (if rvm.id == id then some rvm else found))

pub find_last_unlisted :
    (id : ℕ) (rvms : List Rvm) (found : Option Rvm)
    → is_listed id rvms ≡ false
    → find_last id rvms found ≡ found
unfolding find_last
find_last_unlisted id [] found h = refl
find_last_unlisted id (rvm ∷ rest) found h = ground (arith, find_last_unlisted id rest found)

-- No two machines of the list have one number.
abbrev pub HasDistinctIds : List Rvm → Type 0
HasDistinctIds [] = Unit {0}
HasDistinctIds (rvm ∷ rest) = (is_listed rvm.id rest ≡ false) × HasDistinctIds rest

-- Every entry of the map stands under the number of its machine.
abbrev pub IsKeyed : Entries ℕ Rvm → Type 0
IsKeyed = All (λ entry. entry.1.id ≡ entry.0)

insert-IsKeyed :
    (k : ℕ) (rvm : Rvm) (m : Entries ℕ Rvm) → rvm.id ≡ k → IsKeyed m → IsKeyed (insert k rvm m)
unfolding insert
insert-IsKeyed k rvm [] e h = (e, tt)
insert-IsKeyed k rvm ((j, w) ∷ m) e h = ground (arith, insert-IsKeyed k rvm m)

pub index_from-IsKeyed :
    (rvms : List Rvm) (m : Entries ℕ Rvm) → IsKeyed m → IsKeyed (index_from rvms m)
unfolding index_from
index_from-IsKeyed [] m h = h
index_from-IsKeyed (rvm ∷ rest) m h =
    index_from-IsKeyed rest (insert rvm.id rvm m) (insert-IsKeyed rvm.id rvm m refl h)

pub index_from-HasDistinctKeys :
    (rvms : List Rvm) (m : Entries ℕ Rvm) → HasDistinctKeys m → HasDistinctKeys (index_from rvms m)
unfolding index_from
index_from-HasDistinctKeys [] m h = h
index_from-HasDistinctKeys (rvm ∷ rest) m h =
    index_from-HasDistinctKeys rest (insert rvm.id rvm m) (HasDistinctKeys-insert rvm.id rvm m h)

pub find_last-append :
    (id : ℕ) (xs ys : List Rvm) (found : Option Rvm)
    → find_last id (xs ++ ys) found ≡ find_last id ys (find_last id xs found)
unfolding find_last
find_last-append id [] ys found = refl
find_last-append id (x ∷ xs) ys found =
    find_last-append id xs ys (if x.id == id then some x else found)

some_injective : (x y : Rvm) → some x ≡ some y → x ≡ y
some_injective x y e = cc

-- What is found has the number, and whatever all machines of the list have.
pub find_last-All :
    (P : Rvm → Type 0) (id : ℕ) (rvms : List Rvm) (found : Option Rvm) (r : Rvm)
    → All P rvms
    → (found ≡ some r → (r.id ≡ id) × P r)
    → find_last id rvms found ≡ some r
    → (r.id ≡ id) × P r
unfolding find_last
find_last-All P id [] found r all h e = h e
find_last-All P id (x ∷ xs) found r all h e = elim (Bool-cases (x.id == id)) [
  | inl same ↦
      find_last-All P id xs (some x) r all.1
        (λ q.
          subst (λ y. (y.id ≡ id) × P y) (some_injective x r q)
            ((nat_beq_iff x.id id).0 same, all.0))
        (rw same at e)
  | inr other ↦ find_last-All P id xs found r all.1 h (rw other at e)
]

-- The row made of a machine that passes a test, or else what was found before.
abbrev pub row_or : (Rvm → Bool) → (Rvm → Rvm) → Option Rvm → Option Rvm → Option Rvm
row_or p f none found = found
row_or p f (some r) found = if p r then some (f r) else found

-- In a list of distinct numbers, the rows made of the machines that pass a test hold at most one row
-- with a number: that of the machine that has it.
module _ (p : Rvm → Bool) (f : Rvm → Rvm) (keeps : (r : Rvm) → (f r).id ≡ r.id) where
  pub find_last-map :
      (id : ℕ) (rvms : List Rvm) (found : Option Rvm)
      → HasDistinctIds rvms
      → find_last id (map f (keep_if p rvms)) found ≡ row_or p f (find_last id rvms none) found
  unfolding find_last
  find_last-map id [] found d = refl
  find_last-map id (x ∷ xs) found d = ground (
    arith,
    keeps x,
    find_last-map id xs found d.1,
    find_last-map id xs (some (f x)) d.1,
    find_last_unlisted id xs (some x),
    find_last_unlisted id xs none,
  )

-- In a list of distinct numbers every machine is the one found under its number.
pub find_last_self :
    (rvms : List Rvm)
    → HasDistinctIds rvms
    → All (λ r. (found : Option Rvm) → find_last r.id rvms found ≡ some r) rvms
unfolding find_last
find_last_self [] d = tt
find_last_self (x ∷ xs) d = (
  λ found. rw (beq_self x.id) (find_last_unlisted x.id xs (some x) d.0),
  All-mono (λ r h found. h (if x.id == r.id then some x else found)) xs (find_last_self xs d.1),
)
