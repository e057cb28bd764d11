-- ===== src/PriorityQueue/Tests.antt =====
-- Runs of the priority queue of include/synthizer/priority_queue.hpp.
use mathlib.Core.List.{Perm}
use synthizer.Base.{ℕ, ◌≡◌, refl, not, some, List, [], ◌∷◌, select, ◌==◌}
use synthizer.PriorityQueue.{IsHeap, push, pop_until_loop, pop_until_priority, filter_all_items}
use synthizer.VectorHelpers.{filter}
use synthizer.PriorityQueue.Sorted.{sorted_heaps, sorted-IsHeap}
use synthizer.PriorityQueue.Order.{HandsOver, pop_until_priority-HandsOver}
use synthizer.PriorityQueue.Filtering.{filter_all_items-IsHeap}

abbrev three : List (ℕ × ℕ)
three = (1, 7) ∷ (3, 8) ∷ (5, 9) ∷ []

three-IsHeap : IsHeap three
three-IsHeap = sorted-IsHeap three

push_run : push sorted_heaps 2 6 three ≡ (1, 7) ∷ (2, 6) ∷ (3, 8) ∷ (5, 9) ∷ []
unfolding push
push_run = refl

pop_run : pop_until_priority sorted_heaps 3 three ≡ some ((5, 9) ∷ [], (1, 7) ∷ (3, 8) ∷ [])
unfolding pop_until_priority pop_until_loop
pop_run = refl

filter_run :
    filter_all_items sorted_heaps (λ (x : ℕ × ℕ). x.1 == 7) three ≡ some ((3, 8) ∷ (5, 9) ∷ [])
unfolding filter_all_items filter
filter_run = refl

pop_until_priority-HandsOver_example : HandsOver 3 three (pop_until_priority sorted_heaps 3 three)
pop_until_priority-HandsOver_example =
    pop_until_priority-HandsOver sorted_heaps 3 three three-IsHeap

filter_all_items-IsHeap_example :
    (left : List (ℕ × ℕ)) × (filter_all_items sorted_heaps (λ (x : ℕ × ℕ). x.1 == 7) three
      ≡ some left)
    × IsHeap left
    × Perm left (select (λ (x : ℕ × ℕ). not (x.1 == 7)) three)
filter_all_items-IsHeap_example =
    filter_all_items-IsHeap (λ (x : ℕ × ℕ). x.1 == 7) sorted_heaps three three-IsHeap
