-- ===== src/PriorityQueue.antt =====
-- include/synthizer/priority_queue.hpp: a queue of elements with priorities, kept as a heap.
pub mod Order
pub mod Filtering
pub mod Sorted
mod Tests
use synthizer.Base.{
  ℕ, zero, suc, ◌+◌, ◌-◌, ◌/◌, ◌<◌, ◌≡◌, any, Bool, true, false, ◌||◌, Option, none, some, List, [],
  ◌∷◌, ◌++◌, length, get_elem?, take, ltb, not, ◌&&◌, if◌then◌else◌,
}
use synthizer.VectorHelpers.{filter}
use mathlib.Core.List.{Perm}
use mathlib.Core.Option

module _ {E : Type 0} where
  -- The order of the heap algorithms, whose first element is then one of the lowest priority.
  abbrev pub heap_cmp : ℕ × E → ℕ × E → Bool
  heap_cmp a b = ltb b.0 a.0

  -- A heap as the standard defines it: no parent compares less than its child.
  abbrev pub IsHeap : List (ℕ × E) → Type 0
  IsHeap xs =
      (i : ℕ) (child parent : ℕ × E)
      → 0 < i
      → get_elem? xs i ≡ some child
      → get_elem? xs ((i - 1) / 2) ≡ some parent
      → heap_cmp parent child ≡ false

-- std::push_heap, std::pop_heap and std::make_heap with `heap_cmp`, with what the standard
-- promises of them.
pub record HeapAlgorithms (E : Type 0) : Type 0 where
  pub push_heap : List (ℕ × E) → List (ℕ × E)
  pub pop_heap : List (ℕ × E) → List (ℕ × E)
  pub make_heap : List (ℕ × E) → List (ℕ × E)
  pub push_heap-perm : (xs : List (ℕ × E)) → Perm (push_heap xs) xs
  pub push_heap-IsHeap :
      (xs : List (ℕ × E)) (x : ℕ × E) → IsHeap xs → IsHeap (push_heap (xs ++ (x ∷ [])))
  -- The first element goes to the end, and the others are made into a heap.
  pub pop_heap-append :
      (x : ℕ × E) (xs : List (ℕ × E))
      → IsHeap (x ∷ xs)
      → (ys : List (ℕ × E)) × (pop_heap (x ∷ xs) ≡ ys ++ (x ∷ [])) × Perm ys xs × IsHeap ys
  pub make_heap-perm : (xs : List (ℕ × E)) → Perm (make_heap xs) xs
  pub make_heap-IsHeap : (xs : List (ℕ × E)) → IsHeap (make_heap xs)

module _ {E : Type 0} where
  -- std::vector::back, which an empty vector has not.
  abbrev pub back : List (ℕ × E) → Option (ℕ × E)
  back xs = get_elem? xs (length xs - 1)

  abbrev pub pop_back : List (ℕ × E) → List (ℕ × E)
  pop_back xs = take (length xs - 1) xs

  abbrev pub is_empty : List (ℕ × E) → Bool
  is_empty [] = true
  is_empty (x ∷ xs) = false

module _ {E : Type 0} (heaps : HeapAlgorithms E) where
  open heaps use {push_heap, pop_heap, make_heap}

  unfoldable pub push : ℕ → E → List (ℕ × E) → List (ℕ × E)
  push priority element elements = push_heap (elements ++ ((priority, element) ∷ []))

  -- What a round does with the vector after std::pop_heap; `rest` are the rounds after it.
  unfoldable pub until_round :
      ℕ → List (ℕ × E) → Option (List (ℕ × E) × List (ℕ × E)) → Option (List (ℕ × E) × List (ℕ × E))
  until_round priority popped rest = elim (back popped) [
    | none ↦ none
    | some x ↦ elim (ltb priority x.0) [
      | true ↦ some (push_heap popped, [])
      | false ↦ elim rest [ none ↦ none | some (left, called) ↦ some (left, x ∷ called) ]
    ]
  ]

  -- The loop of `popUntilPriority`, its fuel first: the elements left, and those that the closure
  -- got, in order.
  unfoldable pub pop_until_loop : ℕ → ℕ → List (ℕ × E) → Option (List (ℕ × E) × List (ℕ × E))
  unfolding until_round
  pop_until_loop zero priority elements = none
  pop_until_loop (suc fuel) priority elements =
      let popped = pop_heap elements in
      let rest = pop_until_loop fuel priority (pop_back popped) in
      if is_empty elements then some (elements, []) else until_round priority popped rest

  -- Every round but the last removes an element.
  unfoldable pub pop_until_priority : ℕ → List (ℕ × E) → Option (List (ℕ × E) × List (ℕ × E))
  pop_until_priority priority elements = pop_until_loop (length elements + 1) priority elements

  -- The heap is made again only if the closure took something out and something is left.
  unfoldable pub made_again : Bool → List (ℕ × E) → List (ℕ × E)
  made_again did_filter kept = if is_empty kept || not did_filter then kept else make_heap kept

  unfoldable pub filter_all_items : (ℕ × E → Bool) → List (ℕ × E) → Option (List (ℕ × E))
  unfolding made_again
  filter_all_items closure elements =
      let did_filter = any closure elements in
      Option.map (made_again did_filter) (filter closure elements)
