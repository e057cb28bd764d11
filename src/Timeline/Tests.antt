-- ===== src/Timeline/Tests.antt =====
-- Runs of the timeline over whole numbers, each its own time.
use synthizer.Base.{ℕ, ◌≡◌, refl, true, List, [], ◌∷◌, arith, inl}
use synthizer.Samples.{nat_float}
use synthizer.Timeline.{
  Entry, Timeline, empty_timeline, minus_one, get_item, add_items, tick, copy_back_if_needed,
  sort_if_needed, clear, add_item,
}
use synthizer.Timeline.Refinement.{Represents}
use synthizer.Timeline.Calls.{
  adds, ticks, Call, run, specified, timeline-refines, sort_if_needed-never,
}

abbrev same_time : ℕ → ℕ
same_time n = n

abbrev calls : List (Call nat_float same_time)
calls = adds 3 ∷ adds 5 ∷ ticks 4 ∷ adds 9 ∷ ticks 7 ∷ []

calls_hand_over : (run nat_float same_time 1 2 calls empty_timeline).1 ≡ (3 ∷ []) ∷ (5 ∷ []) ∷ []
unfolding run add_item tick synthizer.Timeline.tick_loop copy_back_if_needed
calls_hand_over = refl

timeline-refines_example :
    ((run nat_float same_time 1 2 calls empty_timeline).1
      ≡ (specified nat_float same_time calls [] []).1)
    × Represents 1
        (run nat_float same_time 1 2 calls empty_timeline).0
        (specified nat_float same_time calls [] []).0.0
        (specified nat_float same_time calls [] []).0.1
timeline-refines_example = timeline-refines nat_float same_time 1 2 calls (omega arith)

le_refl : (x : ℕ) → nat_float.fle x x ≡ true
le_refl x = ground arith

sort_if_needed-never_example :
    sort_if_needed (λ es. []) (run nat_float same_time 1 2 (adds 5 ∷ adds 3 ∷ []) empty_timeline).0
    ≡ (run nat_float same_time 1 2 (adds 5 ∷ adds 3 ∷ []) empty_timeline).0
sort_if_needed-never_example =
    sort_if_needed-never nat_float same_time (λ es. []) 1 2 (adds 5 ∷ adds 3 ∷ []) le_refl

-- One item passed and two to come.
abbrev to_come : List ℕ
to_come = 5 ∷ 9 ∷ []

abbrev halfway : Timeline ℕ
halfway = record {
  items =
      record { item = 3; tie_breaker = 0 }
      ∷ record { item = 5; tie_breaker = 1 }
      ∷ record { item = 9; tie_breaker = 2 }
      ∷ [];
  current_item = 1;
  is_sorted = true;
  insert_counter = 3;
}

halfway-Represents : Represents 1 halfway (3 ∷ []) to_come
unfolding Represents
halfway-Represents = ([], refl, refl, omega arith, inl refl)
