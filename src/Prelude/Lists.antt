-- ===== src/Prelude/Lists.antt =====
-- Lists measured by native numbers, and predicates on lists by recursion.
use Prim.Native.Nat.{ℕ, zero, suc, ◌+◌, ◌≤◌, ◌<◌}
use mathlib.Core.Path.{◌≡◌, refl, ap, subst}
use mathlib.Core.Bool.{Bool, true, false}
use mathlib.Core.Option.{Option, none, some}
use mathlib.Core.Logic.{◌⊎◌, inl, inr}
use mathlib.Core.List.{List, [], ◌∷◌, ◌++◌, map}
use native.Mathlib.Decide.{dec_lt}
use native.Mathlib.Omega.{arith}
use bcrstracking.Prelude.Tests.{if◌then◌else◌, Bool-cases, nat_beq}

module _ {ℓ} {A : Type ℓ} where
  abbrev pub length : List A → ℕ
  length [] = 0
  length (x ∷ xs) = suc (length xs)

  abbrev pub replicate : ℕ → A → List A
  replicate zero a = []
  replicate (suc n) a = a ∷ replicate n a

  -- The elements that pass a Boolean test, in order.
  abbrev pub keep_if : (A → Bool) → List A → List A
  keep_if p [] = []
  keep_if p (x ∷ xs) = let rest = keep_if p xs in if p x then x ∷ rest else rest

  pub length-append : (xs ys : List A) → length (xs ++ ys) ≡ length xs + length ys
  length-append [] ys = omega arith
  length-append (x ∷ xs) ys = omega (arith, length-append xs ys)

module _ {ℓ κ} {A : Type ℓ} {B : Type κ} where
  pub length-map : (f : A → B) (xs : List A) → length (map f xs) ≡ length xs
  length-map f [] = refl
  length-map f (x ∷ xs) = ap suc (length-map f xs)

-- Every element has the property.
abbrev pub All {ℓ κ} : {A : Type ℓ} → (A → Type κ) → List A → Type κ
All holds [] = Unit
All holds (first ∷ others) = holds first × All holds others

pub All-mono {ℓ κ μ} :
    {A : Type ℓ} {P : A → Type κ} {Q : A → Type μ}
    → ((x : A) → P x → Q x)
    → (xs : List A) → All P xs
    → All Q xs
All-mono f [] h = tt
All-mono f (x ∷ xs) h = (f x h.0, All-mono f xs h.1)

-- One more element at the end.
pub All-snoc {ℓ κ} :
    {A : Type ℓ} (holds : A → Type κ) (others : List A) (last : A)
    → All holds others
    → holds last
    → All holds (others ++ last ∷ [])
All-snoc holds [] last h p = (p, tt)
All-snoc holds (first ∷ others) last h p = (h.0, All-snoc holds others last h.1 p)

pub All-both {ℓ κ μ} :
    {A : Type ℓ} (P : A → Type κ) (Q : A → Type μ) (xs : List A)
    → All P xs
    → All Q xs
    → All (λ x. P x × Q x) xs
All-both P Q [] p q = tt
All-both P Q (x ∷ xs) p q = ((p.0, q.0), All-both P Q xs p.1 q.1)

pub All-Unit {ℓ} : {A : Type ℓ} (xs : List A) → All (λ _. Unit {0}) xs
All-Unit [] = tt
All-Unit (x ∷ xs) = (tt, All-Unit xs)

pub keep_if-nil {ℓ} :
    {A : Type ℓ} (p : A → Bool) (xs : List A) → All (λ x. p x ≡ false) xs → keep_if p xs ≡ []
keep_if-nil p [] h = refl
keep_if-nil p (x ∷ xs) h = rw h.0 (keep_if-nil p xs h.1)

-- To split a computed list and keep the equation.
pub List-cases {ℓ} :
    {A : Type ℓ} (xs : List A) → (xs ≡ []) ⊎ ((x : A) × (rest : List A) × (xs ≡ x ∷ rest))
List-cases [] = inl refl
List-cases (x ∷ rest) = inr (x, rest, refl)

module _ {ℓ} {A : Type ℓ} where
  abbrev pub take : ℕ → List A → List A
  take zero xs = []
  take (suc n) [] = []
  take (suc n) (x ∷ xs) = x ∷ take n xs

  -- A queue that is not overfull is kept whole.
  pub take_of_length-le : (n : ℕ) (queue : List A) → length queue ≤ n → take n queue ≡ queue
  take_of_length-le zero [] fits = refl
  take_of_length-le (suc n) [] fits = refl
  take_of_length-le (suc n) (front ∷ queue) fits =
      ap (λ kept. front ∷ kept) (take_of_length-le n queue (omega arith))
  take_of_length-le zero (front ∷ queue) fits = absurd (omega arith)

  pub take-append_full : (n : ℕ) (xs ys : List A) → length xs ≡ n → take n (xs ++ ys) ≡ xs
  take-append_full zero [] ys h = refl
  take-append_full zero (x ∷ xs) ys h = absurd (omega arith)
  take-append_full (suc n) [] ys h = absurd (omega arith)
  take-append_full (suc n) (x ∷ xs) ys h = ap (◌∷◌ x) (take-append_full n xs ys (omega arith))

  -- What a bounded queue keeps of two batches is what it keeps of both at once.
  pub take-take_append : (n : ℕ) (xs ys : List A) → take n (take n xs ++ ys) ≡ take n (xs ++ ys)
  take-take_append zero xs ys = refl
  take-take_append (suc n) [] ys = refl
  take-take_append (suc n) (x ∷ xs) ys = ap (◌∷◌ x) (take-take_append n xs ys)

-- A property of the results of a function on the elements that pass a test.
pub All-map-keep_if {ℓ κ μ} :
    {A : Type ℓ} {B : Type κ} (P : B → Type μ) (p : A → Bool) (f : A → B) (xs : List A)
    → All (λ x. p x ≡ true → P (f x)) xs
    → All P (map f (keep_if p xs))
All-map-keep_if P p f [] h = tt
All-map-keep_if P p f (x ∷ xs) h = elim (Bool-cases (p x)) [
  | inl e ↦ rw e (h.0 e, All-map-keep_if P p f xs h.1)
  | inr e ↦ rw e (All-map-keep_if P p f xs h.1)
]

pub All-intro {ℓ κ} : {A : Type ℓ} {P : A → Type κ} → ((x : A) → P x) → (xs : List A) → All P xs
All-intro f [] = tt
All-intro f (x ∷ xs) = (f x, All-intro f xs)

pub length-take_long {ℓ} :
    {A : Type ℓ} (n : ℕ) (xs : List A) → n ≤ length xs → length (take n xs) ≡ n
length-take_long zero xs long = refl
length-take_long (suc n) [] long = absurd (omega arith)
length-take_long (suc n) (x ∷ xs) long = ap suc (length-take_long n xs (omega arith))

pub keep_if-append {ℓ} :
    {A : Type ℓ} (p : A → Bool) (xs ys : List A)
    → keep_if p (xs ++ ys) ≡ keep_if p xs ++ keep_if p ys
keep_if-append p [] ys = refl
keep_if-append p (x ∷ xs) ys = elim (Bool-cases (p x)) [
  | inl e ↦ rw e (ap (λ rest. x ∷ rest) (keep_if-append p xs ys))
  | inr e ↦ rw e (keep_if-append p xs ys)
]

-- Access by position, and sums.
module _ {ℓ} {A : Type ℓ} where
  abbrev pub get_elem? : List A → ℕ → Option A
  get_elem? [] i = none
  get_elem? (x ∷ xs) zero = some x
  get_elem? (x ∷ xs) (suc i) = get_elem? xs i

  abbrev pub set : List A → ℕ → A → List A
  set [] i v = []
  set (x ∷ xs) zero v = v ∷ xs
  set (x ∷ xs) (suc i) v = x ∷ set xs i v

  abbrev pub sum_of : (A → ℕ) → List A → ℕ
  sum_of f [] = 0
  sum_of f (x ∷ xs) = f x + sum_of f xs

  pub sum_of-append : (f : A → ℕ) (xs ys : List A) → sum_of f (xs ++ ys) ≡ sum_of f xs + sum_of f ys
  sum_of-append f [] ys = omega arith
  sum_of-append f (x ∷ xs) ys = omega (arith, sum_of-append f xs ys)

  pub sum_of-set :
      (f : A → ℕ) (i : ℕ) (x y : A) (xs : List A)
      → get_elem? xs i ≡ some x
      → sum_of f (set xs i y) + f x ≡ sum_of f xs + f y
  sum_of-set f zero x y (first ∷ rest) e = grind arith
  sum_of-set f (suc i) x y (first ∷ rest) e = omega (arith, sum_of-set f i x y rest e)
  sum_of-set f i x y [] e = ground arith

  pub length-set : (xs : List A) (i : ℕ) (y : A) → length (set xs i y) ≡ length xs
  length-set [] i y = refl
  length-set (x ∷ xs) zero y = refl
  length-set (x ∷ xs) (suc i) y = ap suc (length-set xs i y)

  -- The changed element has the property if the others keep it.
  pub All-set {κ} :
      (P : A → Type κ) (xs : List A) (i : ℕ) (y : A) → All P xs → P y → All P (set xs i y)
  All-set P [] i y h p = tt
  All-set P (x ∷ xs) zero y h p = (p, h.1)
  All-set P (x ∷ xs) (suc i) y h p = (h.0, All-set P xs i y h.1 p)

  pub All-get_elem? {κ} :
      (P : A → Type κ) (xs : List A) (i : ℕ) (x : A) → All P xs → get_elem? xs i ≡ some x → P x
  All-get_elem? P [] i x h e = absurd (ground arith)
  All-get_elem? P (y ∷ xs) zero x h e = subst P (ground arith) h.0
  All-get_elem? P (y ∷ xs) (suc i) x h e = All-get_elem? P xs i x h.1 e

module _ {ℓ} {A : Type ℓ} where
  pub get_elem?-set :
      (xs : List A) (i j : ℕ) (x y : A)
      → get_elem? xs i ≡ some x
      → get_elem? (set xs i y) j ≡ (if nat_beq i j then some y else get_elem? xs j)
  get_elem?-set [] i j x y e = absurd (ground arith)
  get_elem?-set (first ∷ rest) zero zero x y e = ground arith
  get_elem?-set (first ∷ rest) zero (suc j) x y e = ground arith
  get_elem?-set (first ∷ rest) (suc i) zero x y e = ground arith
  get_elem?-set (first ∷ rest) (suc i) (suc j) x y e = ground (arith, get_elem?-set rest i j x y e)

  pub get_elem?-snoc :
      (xs : List A) (y : A) (j : ℕ)
      → get_elem? (xs ++ y ∷ []) j ≡ (if nat_beq (length xs) j then some y else get_elem? xs j)
  get_elem?-snoc [] y zero = ground arith
  get_elem?-snoc [] y (suc j) = ground arith
  get_elem?-snoc (x ∷ xs) y zero = ground arith
  get_elem?-snoc (x ∷ xs) y (suc j) = ground (arith, get_elem?-snoc xs y j)

  pub get_elem?-lt : (xs : List A) (i : ℕ) (x : A) → get_elem? xs i ≡ some x → i < length xs
  get_elem?-lt [] i x e = absurd (ground arith)
  get_elem?-lt (y ∷ xs) zero x e = omega arith
  get_elem?-lt (y ∷ xs) (suc i) x e = omega (arith, get_elem?-lt xs i x e)

  pub lt-get_elem? : (xs : List A) (i : ℕ) → i < length xs → (x : A) × (get_elem? xs i ≡ some x)
  lt-get_elem? [] i h = absurd (omega arith)
  lt-get_elem? (x ∷ xs) zero h = (x, refl)
  lt-get_elem? (x ∷ xs) (suc i) h = lt-get_elem? xs i (omega arith)

-- The front of two lists in one lies in the first, if that is long enough.
pub take-append_long {ℓ} :
    {A : Type ℓ} (n : ℕ) (xs ys : List A) → n ≤ length xs → take n (xs ++ ys) ≡ take n xs
take-append_long zero xs ys long = refl
take-append_long (suc n) [] ys long = absurd (omega arith)
take-append_long (suc n) (x ∷ xs) ys long = ap (◌∷◌ x) (take-append_long n xs ys (omega arith))

-- A sum that is not 0 has a summand that is not.
pub summand {ℓ} :
    {A : Type ℓ} (f : A → ℕ) (xs : List A)
    → 0 < sum_of f xs
    → (i : ℕ) × (x : A) × (get_elem? xs i ≡ some x) × (0 < f x)
summand f [] h = absurd (omega arith)
summand f (x ∷ xs) h = elim (dec_lt 0 (f x)) [
  | yes here ↦ (0, x, refl, here)
  | no later ↦ let (i, y, found, more) = summand f xs (omega arith) in (suc i, y, found, more)
]

pub All-append {ℓ κ} :
    {A : Type ℓ} (P : A → Type κ) (xs ys : List A) → All P xs → All P ys → All P (xs ++ ys)
All-append P [] ys h k = k
All-append P (x ∷ xs) ys h k = (h.0, All-append P xs ys h.1 k)
