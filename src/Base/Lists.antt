-- ===== src/Base/Lists.antt =====
-- Vectors and arrays as lists with native indices.
use Prim.Native.Nat.{ℕ, zero, suc, ◌+◌, ◌-◌, ◌<◌, ◌≤◌, min}
use mathlib.Core.Path.{◌≡◌, refl, ap}
use mathlib.Core.Logic.{◌≢◌}
use mathlib.Core.List.{List, [], ◌∷◌, ◌++◌, map}
use mathlib.Core.Option.{Option, none, some, some-injective}
use mathlib.Core.Bool.{Bool, false, ◌||◌}
use synthizer.Base.Tests.{if◌then◌else◌}
use native.Mathlib.Omega.{arith}

module _ {ℓ} {A : Type ℓ} where
  abbrev pub length : List A → ℕ
  length [] = 0
  length (x ∷ xs) = suc (length xs)

  abbrev pub get_elem? : List A → ℕ → Option A
  get_elem? [] i = none
  get_elem? (x ∷ xs) zero = some x
  get_elem? (x ∷ xs) (suc i) = get_elem? xs i

  -- A write out of bounds changes nothing.
  abbrev pub set : List A → ℕ → A → List A
  set [] i v = []
  set (x ∷ xs) zero v = v ∷ xs
  set (x ∷ xs) (suc i) v = x ∷ set xs i v

  pub length-append : (xs ys : List A) → length (xs ++ ys) ≡ length xs + length ys
  length-append [] ys = omega arith
  length-append (x ∷ xs) ys = omega (arith, length-append xs ys)

module _ {ℓ} {A : Type ℓ} where
  pub length-set : (xs : List A) (i : ℕ) (v : A) → length (set xs i v) ≡ length xs
  length-set [] i v = refl
  length-set (x ∷ xs) zero v = refl
  length-set (x ∷ xs) (suc i) v = ap suc (length-set xs i v)

  pub get_elem?-set_self :
      (xs : List A) (i : ℕ) (v : A) → i < length xs → get_elem? (set xs i v) i ≡ some v
  get_elem?-set_self [] i v h = elim h [ ]
  get_elem?-set_self (x ∷ xs) zero v h = refl
  get_elem?-set_self (x ∷ xs) (suc i) v h = get_elem?-set_self xs i v (omega arith)

  pub get_elem?-set_ne :
      (xs : List A) {i j : ℕ} (v : A) → i ≢ j → get_elem? (set xs i v) j ≡ get_elem? xs j
  get_elem?-set_ne [] v h = refl
  get_elem?-set_ne (x ∷ xs) {i = zero} {j = zero} v h = absurd (h refl)
  get_elem?-set_ne (x ∷ xs) {i = zero} {j = suc j} v h = refl
  get_elem?-set_ne (x ∷ xs) {i = suc i} {j = zero} v h = refl
  get_elem?-set_ne (x ∷ xs) {i = suc i} {j = suc j} v h = get_elem?-set_ne xs v (λ e. h (ap suc e))

module _ {ℓ} {A : Type ℓ} where
  abbrev pub get_or : List A → ℕ → A → A
  get_or [] i d = d
  get_or (x ∷ xs) zero d = x
  get_or (x ∷ xs) (suc i) d = get_or xs i d

  abbrev pub take : ℕ → List A → List A
  take zero xs = []
  take (suc n) [] = []
  take (suc n) (x ∷ xs) = x ∷ take n xs

  abbrev pub drop : ℕ → List A → List A
  drop zero xs = xs
  drop (suc n) [] = []
  drop (suc n) (x ∷ xs) = drop n xs

  abbrev pub replicate : ℕ → A → List A
  replicate zero a = []
  replicate (suc n) a = a ∷ replicate n a

  pub take-append-drop : (n : ℕ) (xs : List A) → take n xs ++ drop n xs ≡ xs
  take-append-drop zero xs = refl
  take-append-drop (suc n) [] = refl
  take-append-drop (suc n) (x ∷ xs) = rw (take-append-drop n xs)

  pub length-take : (n : ℕ) (xs : List A) → length (take n xs) ≡ min n (length xs)
  length-take zero xs = omega arith
  length-take (suc n) [] = omega arith
  length-take (suc n) (x ∷ xs) = omega (arith, length-take n xs)

  pub length-drop : (n : ℕ) (xs : List A) → length (drop n xs) ≡ length xs - n
  length-drop zero xs = omega arith
  length-drop (suc n) [] = omega arith
  length-drop (suc n) (x ∷ xs) = omega (arith, length-drop n xs)

  pub length-replicate : (n : ℕ) (a : A) → length (replicate n a) ≡ n
  length-replicate zero a = refl
  length-replicate (suc n) a = ap suc (length-replicate n a)

  pub length-map {κ} : {B : Type κ} (xs : List A) (f : A → B) → length (map f xs) ≡ length xs
  length-map [] f = refl
  length-map (x ∷ xs) f = ap suc (length-map xs f)

module _ {ℓ} {A : Type ℓ} where
  -- The elements that pass a test, in order.
  abbrev pub select : (A → Bool) → List A → List A
  select p [] = []
  select p (x ∷ xs) = if p x then x ∷ select p xs else select p xs

  abbrev pub any : (A → Bool) → List A → Bool
  any p [] = false
  any p (x ∷ xs) = p x || any p xs

  -- std::swap(xs[i], xs[j])
  abbrev pub swap : List A → ℕ → ℕ → List A
  swap xs i j = elim (get_elem? xs i) [
    | none ↦ xs
    | some x ↦ elim (get_elem? xs j) [ none ↦ xs | some y ↦ set (set xs i y) j x ]
  ]

  pub get_elem?-append :
      (pre post : List A) (x : A) (i : ℕ) → i ≡ length pre → get_elem? (pre ++ x ∷ post) i ≡ some x
  get_elem?-append [] post x i e = rw e
  get_elem?-append (y ∷ pre) post x zero e = absurd (omega arith)
  get_elem?-append (y ∷ pre) post x (suc i) e = get_elem?-append pre post x i (omega arith)

  pub set-append :
      (pre post : List A) (x v : A) (i : ℕ)
      → i ≡ length pre
      → set (pre ++ x ∷ post) i v ≡ pre ++ v ∷ post
  set-append [] post x v i e = rw e
  set-append (y ∷ pre) post x v zero e = absurd (omega arith)
  set-append (y ∷ pre) post x v (suc i) e =
      ap (λ t. y ∷ t) (set-append pre post x v i (omega arith))

  pub take-append : (pre post : List A) (n : ℕ) → n ≡ length pre → take n (pre ++ post) ≡ pre
  take-append [] post n e = rw e
  take-append (y ∷ pre) post zero e = absurd (omega arith)
  take-append (y ∷ pre) post (suc n) e = ap (λ t. y ∷ t) (take-append pre post n (omega arith))

  pub take_all : (xs : List A) (n : ℕ) → length xs ≤ n → take n xs ≡ xs
  take_all [] zero h = refl
  take_all [] (suc n) h = refl
  take_all (y ∷ xs) zero h = absurd (omega arith)
  take_all (y ∷ xs) (suc n) h = ap (λ t. y ∷ t) (take_all xs n (omega arith))

  pub drop-append : (pre post : List A) (n : ℕ) → n ≡ length pre → drop n (pre ++ post) ≡ post
  drop-append [] post n e = rw e
  drop-append (y ∷ pre) post zero e = absurd (omega arith)
  drop-append (y ∷ pre) post (suc n) e = drop-append pre post n (omega arith)

  pub get_elem?-eq_some :
      (xs : List A) (i : ℕ) → i < length xs → (x : A) × (get_elem? xs i ≡ some x)
  get_elem?-eq_some [] i h = absurd (omega arith)
  get_elem?-eq_some (x ∷ xs) zero h = (x, refl)
  get_elem?-eq_some (x ∷ xs) (suc i) h = get_elem?-eq_some xs i (omega arith)

  -- A list with something in it has a last element.
  pub last_split : (x : A) (xs : List A) → (ys : List A) × (y : A) × (x ∷ xs ≡ ys ++ (y ∷ []))
  last_split x [] = ([], x, refl)
  last_split x (z ∷ xs) = let (ys, y, e) = last_split z xs in (x ∷ ys, y, ap (λ t. x ∷ t) e)

  pub drop-get_elem?-none : (xs : List A) (i : ℕ) → get_elem? xs i ≡ none → drop i xs ≡ []
  drop-get_elem?-none [] zero e = refl
  drop-get_elem?-none [] (suc i) e = refl
  drop-get_elem?-none (y ∷ xs) zero e = cc
  drop-get_elem?-none (y ∷ xs) (suc i) e = drop-get_elem?-none xs i e

  pub drop-get_elem? :
      (xs : List A) (i : ℕ) (x : A) → get_elem? xs i ≡ some x → drop i xs ≡ x ∷ drop (suc i) xs
  drop-get_elem? [] i x e = cc
  drop-get_elem? (y ∷ xs) zero x e = ap (λ t. t ∷ xs) (some-injective y x e)
  drop-get_elem? (y ∷ xs) (suc i) x e = drop-get_elem? xs i x e

-- A predicate at every element, as a tuple.
abbrev pub All {ℓ κ} : {A : Type ℓ} → (A → Type κ) → List A → Type κ
All P [] = Unit
All P (x ∷ xs) = P x × All P xs

module _ {ℓ} {A : Type ℓ} where
  -- std::lower_bound on a range that the test partitions: the length of the longest prefix that
  -- passes it.
  abbrev pub lower_bound : (A → Bool) → List A → ℕ
  lower_bound p [] = 0
  lower_bound p (x ∷ xs) = if p x then suc (lower_bound p xs) else 0

  -- std::vector::insert
  abbrev pub insert_at : List A → ℕ → A → List A
  insert_at xs zero v = v ∷ xs
  insert_at [] (suc i) v = v ∷ []
  insert_at (x ∷ xs) (suc i) v = x ∷ insert_at xs i v
