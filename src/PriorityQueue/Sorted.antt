-- ===== src/PriorityQueue/Sorted.antt =====
-- The heap algorithms of include/synthizer/priority_queue.hpp on vectors kept sorted: a concrete
-- implementation of what the standard promises.
use mathlib.Core.List.{Perm}
use mathlib.Core.List.Perm
use synthizer.Base.{
  ℕ, zero, suc, ◌-◌, ◌/◌, ◌<◌, ◌≤◌, ◌≡◌, refl, subst, some, some-injective, List, [], ◌∷◌, ◌++◌,
  get_elem?, All, All-get_elem?, leb, leb→le, ltb_ge, if◌then◌else◌, arith, inl, inr, Bool-cases,
}
use synthizer.PriorityQueue.{IsHeap, HeapAlgorithms}

module _ {E : Type 0} where
  abbrev pub insert_sorted : ℕ × E → List (ℕ × E) → List (ℕ × E)
  insert_sorted x [] = x ∷ []
  insert_sorted x (y ∷ ys) = if leb x.0 y.0 then x ∷ (y ∷ ys) else y ∷ insert_sorted x ys

  abbrev pub sorted : List (ℕ × E) → List (ℕ × E)
  sorted [] = []
  sorted (x ∷ xs) = insert_sorted x (sorted xs)

  abbrev pub pop_sorted : List (ℕ × E) → List (ℕ × E)
  pop_sorted [] = []
  pop_sorted (x ∷ xs) = sorted xs ++ (x ∷ [])

  abbrev AreFrom : ℕ → List (ℕ × E) → Type 0
  AreFrom n = All (λ (x : ℕ × E). n ≤ x.0)

  abbrev Rises : List (ℕ × E) → Type 0
  Rises [] = Unit
  Rises (x ∷ xs) = AreFrom x.0 xs × Rises xs

  AreFrom-le : (m n : ℕ) (xs : List (ℕ × E)) → m ≤ n → AreFrom n xs → AreFrom m xs
  AreFrom-le m n [] h a = tt
  AreFrom-le m n (x ∷ xs) h a = (omega (arith, a.0), AreFrom-le m n xs h a.1)

  insert_sorted-perm : (x : ℕ × E) (xs : List (ℕ × E)) → Perm (insert_sorted x xs) (x ∷ xs)
  insert_sorted-perm x [] = Perm.refl (x ∷ [])
  insert_sorted-perm x (y ∷ ys) = elim (Bool-cases (leb x.0 y.0)) [
    | inl h ↦ rw h (Perm.refl (x ∷ (y ∷ ys)))
    | inr h ↦ rw h (Perm.trans (Perm.cons y (insert_sorted-perm x ys)) (Perm.swap x y ys))
  ]

  AreFrom-insert :
      (n : ℕ) (x : ℕ × E) (xs : List (ℕ × E))
      → n ≤ x.0
      → AreFrom n xs
      → AreFrom n (insert_sorted x xs)
  AreFrom-insert n x [] h a = (h, tt)
  AreFrom-insert n x (y ∷ ys) h a = elim (Bool-cases (leb x.0 y.0)) [
    | inl e ↦ rw e (h, a)
    | inr e ↦ rw e (a.0, AreFrom-insert n x ys h a.1)
  ]

  Rises-insert : (x : ℕ × E) (xs : List (ℕ × E)) → Rises xs → Rises (insert_sorted x xs)
  Rises-insert x [] r = (tt, tt)
  Rises-insert x (y ∷ ys) r = elim (Bool-cases (leb x.0 y.0)) [
    | inl e ↦ let le : x.0 ≤ y.0 = leb→le x.0 y.0 e in rw e ((le, AreFrom-le x.0 y.0 ys le r.0), r)
    | inr e ↦
        let le : y.0 ≤ x.0 = ground arith in
        rw e (AreFrom-insert y.0 x ys le r.0, Rises-insert x ys r.1)
  ]

  Rises-sorted : (xs : List (ℕ × E)) → Rises (sorted xs)
  Rises-sorted [] = tt
  Rises-sorted (x ∷ xs) = Rises-insert x (sorted xs) (Rises-sorted xs)

  pub sorted-perm : (xs : List (ℕ × E)) → Perm (sorted xs) xs
  sorted-perm [] = Perm.refl []
  sorted-perm (x ∷ xs) =
      Perm.trans (insert_sorted-perm x (sorted xs)) (Perm.cons x (sorted-perm xs))

  Rises-le :
      (xs : List (ℕ × E)) (i j : ℕ) (x y : ℕ × E)
      → Rises xs
      → i < j
      → get_elem? xs i ≡ some x
      → get_elem? xs j ≡ some y
      → x.0 ≤ y.0
  Rises-le [] i j x y r h e f = cc
  Rises-le (z ∷ zs) i zero x y r h e f = absurd (omega arith)
  Rises-le (z ∷ zs) zero (suc j) x y r h e f =
      let least : z.0 ≤ y.0 = All-get_elem? (λ (w : ℕ × E). z.0 ≤ w.0) zs j y r.0 f in
      subst (λ (w : ℕ × E). w.0 ≤ y.0) (some-injective z x e) least
  Rises-le (z ∷ zs) (suc i) (suc j) x y r h e f = Rises-le zs i j x y r.1 (omega arith) e f

  pub sorted-IsHeap : (xs : List (ℕ × E)) → IsHeap (sorted xs)
  sorted-IsHeap xs i child parent h e f =
      ltb_ge child.0 parent.0
        (Rises-le (sorted xs) ((i - 1) / 2) i parent child (Rises-sorted xs) (omega arith) f e)

  abbrev pub sorted_heaps : HeapAlgorithms E
  sorted_heaps = record {
    push_heap = sorted;
    pop_heap = pop_sorted;
    make_heap = sorted;
    push_heap-perm = sorted-perm;
    push_heap-IsHeap = λ xs x h. sorted-IsHeap (xs ++ (x ∷ []));
    pop_heap-append = λ x xs h. (sorted xs, refl, sorted-perm xs, sorted-IsHeap xs);
    make_heap-perm = sorted-perm;
    make_heap-IsHeap = sorted-IsHeap;
  }
