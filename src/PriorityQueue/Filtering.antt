-- ===== src/PriorityQueue/Filtering.antt =====
-- filterAllItems of include/synthizer/priority_queue.hpp: the queue stays a heap.
use mathlib.Core.List.{Perm}
use mathlib.Core.List.Perm
use synthizer.Base.{
  ℕ, ◌≡◌, refl, ap, ◌∙◌, sym, subst, Bool, true, false, not, some, List, [], ◌∷◌, any, select, inl,
  inr, Bool-cases,
}
use synthizer.VectorHelpers.{filter}
use synthizer.VectorHelpers.Untouched.{filter-untouched, select-any}
use synthizer.VectorHelpers.Unordered.{filter-perm-select}
use synthizer.PriorityQueue.{IsHeap, HeapAlgorithms, made_again, filter_all_items}

module _ {E : Type 0} (p : ℕ × E → Bool) where
  filter_all_items-eq :
      (heaps : HeapAlgorithms E) (q kept : List (ℕ × E))
      → filter p q ≡ some kept
      → filter_all_items heaps p q ≡ some (made_again heaps (any p q) kept)
  unfolding filter_all_items
  filter_all_items-eq heaps q kept e = rw (e, filter_all_items) refl

  made_again-IsHeap :
      (heaps : HeapAlgorithms E) (kept : List (ℕ × E))
      → IsHeap (made_again heaps true kept) × Perm (made_again heaps true kept) kept
  unfolding made_again
  made_again-IsHeap heaps [] = (λ i child parent h f. cc, Perm.refl [])
  made_again-IsHeap heaps (x ∷ kept) =
      (heaps.make_heap-IsHeap (x ∷ kept), heaps.make_heap-perm (x ∷ kept))

  made_again-untouched :
      (heaps : HeapAlgorithms E) (kept : List (ℕ × E)) → made_again heaps false kept ≡ kept
  unfolding made_again
  made_again-untouched heaps [] = refl
  made_again-untouched heaps (x ∷ kept) = refl

  -- On a heap, filterAllItems ends without a fault and leaves exactly the elements that the closure
  -- rejects, each as often as before, as a heap: also where it does not make the heap again.
  pub filter_all_items-IsHeap :
      (heaps : HeapAlgorithms E) (q : List (ℕ × E))
      → IsHeap q
      → (left : List (ℕ × E)) × (filter_all_items heaps p q ≡ some left)
        × IsHeap left
        × Perm left (select (λ x. not (p x)) q)
  filter_all_items-IsHeap heaps q heap = elim (Bool-cases (any p q)) [
    | inl did ↦
        let (kept, e, perm) = filter-perm-select p q in
        let (remade, same) = made_again-IsHeap heaps kept in
        (
          made_again heaps true kept,
          filter_all_items-eq heaps q kept e ∙ ap (λ b. some (made_again heaps b kept)) did,
          remade,
          Perm.trans same perm,
        )
    | inr none_of ↦ (
      q,
      filter_all_items-eq heaps q q (filter-untouched p q none_of)
          ∙ ap (λ b. some (made_again heaps b q)) none_of
          ∙ ap some (made_again-untouched heaps q),
      heap,
      subst (λ t. Perm q t) (sym (select-any p q none_of)) (Perm.refl q),
    )
  ]
