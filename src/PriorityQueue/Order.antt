-- ===== src/PriorityQueue/Order.antt =====
-- popUntilPriority of include/synthizer/priority_queue.hpp: what it hands over, and in which order.
use mathlib.Core.Logic.Or
use mathlib.Core.List.{Mem, Perm, not-mem-nil, mem-cons, mem-append_left, perm_append_singleton}
use mathlib.Core.List.Perm
use native.Mathlib.Bridge.{le_prop}
use synthizer.Base.{
  ℕ, zero, suc, ◌+◌, ◌-◌, ◌/◌, ◌<◌, ◌≤◌, ◌≡◌, refl, ap, ◌∙◌, sym, subst, true, false, Option, some,
  some-injective, List, [], ◌∷◌, ◌++◌, length, get_elem?, ltb, lt-length, Mem-least, ltb→lt, arith,
  length-append, length-perm, get_elem?-append, take-append, get_elem?-eq_some, inl, inr,
  Bool-cases,
}
use synthizer.PriorityQueue.{
  IsHeap, HeapAlgorithms, back, pop_back, until_round, pop_until_loop, pop_until_priority,
}

not_less : (a b : ℕ) → ltb a b ≡ false → b ≤ a
not_less a b h = ground arith

module _ {E : Type 0} where
  -- Every element has a priority above the bound, or at most the bound.
  abbrev pub AllAbove : ℕ → List (ℕ × E) → Type 0
  AllAbove n xs = (x : ℕ × E) → Mem x xs → n < x.0

  abbrev pub AllWithin : ℕ → List (ℕ × E) → Type 0
  AllWithin n xs = (x : ℕ × E) → Mem x xs → x.0 ≤ n

  abbrev pub AllFrom : ℕ → List (ℕ × E) → Type 0
  AllFrom n xs = (x : ℕ × E) → Mem x xs → n ≤ x.0

  -- The priorities do not fall.
  abbrev pub IsSorted : List (ℕ × E) → Type 0
  IsSorted [] = Unit
  IsSorted (x ∷ xs) = AllFrom x.0 xs × IsSorted xs

  root_least_below :
      (k : ℕ) (xs : List (ℕ × E)) (i : ℕ) (root x : ℕ × E)
      → IsHeap xs
      → get_elem? xs 0 ≡ some root
      → i < k
      → get_elem? xs i ≡ some x
      → root.0 ≤ x.0
  root_least_below zero xs i root x heap first h e = absurd (omega arith)
  root_least_below (suc k) xs zero root x heap first h e =
      let same : root ≡ x = some-injective root x (sym first ∙ e) in
      let same₀ : root.0 ≡ x.0 = ap (λ (p : ℕ × E). p.0) same in omega arith
  root_least_below (suc k) xs (suc i) root x heap first h e =
      let half : (suc i - 1) / 2 < suc i = omega arith in
      let (parent, at) =
        get_elem?-eq_some xs ((suc i - 1) / 2) (omega (arith, lt-length xs (suc i) x e)) in
      let below : parent.0 ≤ x.0 =
        omega (arith, not_less x.0 parent.0 (heap (suc i) x parent (omega arith) e at)) in
      omega (arith, root_least_below k xs ((suc i - 1) / 2) root parent heap first (omega arith) at)

  pub root_least : (x : ℕ × E) (xs : List (ℕ × E)) → IsHeap (x ∷ xs) → AllFrom x.0 xs
  root_least x xs heap =
      Mem-least (λ y. y.0) x.0 xs
        (λ i y e. root_least_below (suc (suc i)) (x ∷ xs) (suc i) x y heap refl (omega arith) e)

  pub back-append : (ys : List (ℕ × E)) (x : ℕ × E) → back (ys ++ (x ∷ [])) ≡ some x
  back-append ys x =
      get_elem?-append ys [] x (length (ys ++ (x ∷ [])) - 1)
        (omega (arith, length-append ys (x ∷ [])))

  pub pop_back-append : (ys : List (ℕ × E)) (x : ℕ × E) → pop_back (ys ++ (x ∷ [])) ≡ ys
  pop_back-append ys x =
      take-append ys (x ∷ []) (length (ys ++ (x ∷ [])) - 1)
        (omega (arith, length-append ys (x ∷ [])))

  -- The answer `r` of a call that hands over the elements of `q` up to `priority`.
  unfoldable pub HandsOver : ℕ → List (ℕ × E) → Option (List (ℕ × E) × List (ℕ × E)) → Type 0
  HandsOver priority q r =
      (left : List (ℕ × E)) × (called : List (ℕ × E)) × (r ≡ some (left, called))
      × IsHeap left
      × Perm (called ++ left) q
      × IsSorted called
      × AllWithin priority called
      × AllAbove priority left

  IsHeap-of_none : (xs : List (ℕ × E)) → xs ≡ [] → IsHeap xs
  IsHeap-of_none [] e i child parent h f = cc
  IsHeap-of_none (x ∷ xs) e i child parent h f = cc

  AllFrom-self : (x : ℕ × E) (xs : List (ℕ × E)) → AllFrom x.0 xs → AllFrom x.0 (x ∷ xs)
  AllFrom-self x xs h y m = Or.elim le_prop (mem-cons.0 m) (λ e. rw e (omega arith)) (λ n. h y n)

module _ {E : Type 0} (heaps : HeapAlgorithms E) where
  open heaps use {push_heap, pop_heap}

  stop_round :
      (fuel priority : ℕ) (x : ℕ × E) (xs ys : List (ℕ × E))
      → pop_heap (x ∷ xs) ≡ ys ++ (x ∷ [])
      → ltb priority x.0 ≡ true
      → pop_until_loop heaps (suc fuel) priority (x ∷ xs) ≡ some (push_heap (ys ++ (x ∷ [])), [])
  unfolding pop_until_loop until_round
  stop_round fuel priority x xs ys e h =
      subst
        (λ p.
          until_round heaps priority p (pop_until_loop heaps fuel priority (pop_back p))
          ≡ some (push_heap (ys ++ (x ∷ [])), []))
        (sym e) (rw (back-append ys x, until_round) (rw h refl))

  take_round :
      (fuel priority : ℕ) (x : ℕ × E) (xs ys left called : List (ℕ × E))
      → pop_heap (x ∷ xs) ≡ ys ++ (x ∷ [])
      → ltb priority x.0 ≡ false
      → pop_until_loop heaps fuel priority ys ≡ some (left, called)
      → pop_until_loop heaps (suc fuel) priority (x ∷ xs) ≡ some (left, x ∷ called)
  unfolding pop_until_loop until_round
  take_round fuel priority x xs ys left called e h rest =
      subst
        (λ p.
          until_round heaps priority p (pop_until_loop heaps fuel priority (pop_back p))
          ≡ some (left, x ∷ called))
        (sym e)
        (rw (back-append ys x, until_round)
          (rw h (rw (ap (pop_until_loop heaps fuel priority) (pop_back-append ys x) ∙ rest) refl)))

  -- The element taken is at most every element of the rest.
  pop_until_loop-HandsOver :
      (fuel priority : ℕ) (q : List (ℕ × E))
      → length q < fuel
      → IsHeap q
      → HandsOver priority q (pop_until_loop heaps fuel priority q)
  unfolding HandsOver
  pop_until_loop-HandsOver zero priority q h heap = absurd (omega arith)
  pop_until_loop-HandsOver (suc fuel) priority [] h heap = (
    [],
    [],
    unfold pop_until_loop in refl,
    heap,
    Perm.refl [],
    tt,
    λ x m. absurd (not-mem-nil m),
    λ x m. absurd (not-mem-nil m),
  )
  pop_until_loop-HandsOver (suc fuel) priority (x ∷ xs) h heap =
      let (ys, e, perm, rest) = heaps.pop_heap-append x xs heap in
      let least : AllFrom x.0 (x ∷ xs) = AllFrom-self x xs (root_least x xs heap) in
      let same : Perm (ys ++ (x ∷ [])) (x ∷ xs) =
        Perm.trans (perm_append_singleton x ys) (Perm.cons x perm) in
      let size : length ys ≡ length xs = length-perm perm in
      elim (Bool-cases (ltb priority x.0)) [
        | inl later ↦
            let pushed : Perm (push_heap (ys ++ (x ∷ []))) (x ∷ xs) =
              Perm.trans (heaps.push_heap-perm (ys ++ (x ∷ []))) same in
            let above : priority < x.0 = ltb→lt priority x.0 later in
            (
              push_heap (ys ++ (x ∷ [])),
              [],
              stop_round fuel priority x xs ys e later,
              heaps.push_heap-IsHeap ys x rest,
              pushed,
              tt,
              λ y m. absurd (not-mem-nil m),
              λ y m. omega (arith, least y (Perm.subset pushed y m)),
            )
        | inr due ↦
            let (left, called, run, left_heap, all, sorted, within, above) =
              pop_until_loop-HandsOver fuel priority ys (omega arith) rest in
            (
              left,
              x ∷ called,
              take_round fuel priority x xs ys left called e due run,
              left_heap,
              Perm.trans (Perm.cons x all) (Perm.cons x perm),
              (
                λ y m.
                    root_least x xs heap y
                      (Perm.subset perm y (Perm.subset all y (mem-append_left left m))),
                sorted,
              ),
              λ y m.
                  Or.elim le_prop (mem-cons.0 m) (λ f. rw f (not_less priority x.0 due)) (within y),
              above,
            )
      ]

  -- On a heap, popUntilPriority ends without a fault, and its closure gets exactly the elements of
  -- priority at most the bound, lowest priority first; the others stay, each as often as before,
  -- and are a heap again.
  pub pop_until_priority-HandsOver :
      (priority : ℕ) (q : List (ℕ × E))
      → IsHeap q
      → HandsOver priority q (pop_until_priority heaps priority q)
  unfolding pop_until_priority
  pop_until_priority-HandsOver priority q heap =
      pop_until_loop-HandsOver (length q + 1) priority q (omega arith) heap
