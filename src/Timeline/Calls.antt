-- ===== src/Timeline/Calls.antt =====
-- Any sequence of calls of the timeline of include/synthizer/generic_timeline.hpp.
use synthizer.Base.{
  ℕ, ◌<◌, ◌≡◌, refl, ap, sym, ◌∙◌, inl, inr, List, [], ◌∷◌, ◌++◌, length, drop, arith,
  length-append, ap₂, true, get_elem?, ◌-◌, Option-cases, take-first, drop-first,
}
use synthizer.Float.{Float}
use synthizer.Timeline.{
  Entry, Timeline, empty_timeline, clear, add_item, tick, sort_if_needed, copy_back_if_needed,
}
use synthizer.Timeline.Refinement.{
  items_of, items_of-append, Represents, due, not_due, tick-refines,
}

module _ (fl : Float) {Item : Type 0} (get_time : Item → fl.Real) where
  open fl use {Real, fle}

  add_item-refines :
      (h : ℕ) (item : Item) (t : Timeline Item) (past pending : List Item)
      → Represents h t past pending
      → Represents h (add_item fl get_time item t) past (pending ++ (item ∷ []))
  unfolding Represents add_item
  add_item-refines h item t past pending r =
      let last : List (Entry Item) = record { item = item; tie_breaker = t.insert_counter } ∷ [] in
      (
        r.0,
        r.1 ∙ ap (λ l. r.0 ++ items_of l) (sym (take-first t.current_item t.items last r.3)),
        ap items_of (drop-first t.current_item t.items last r.3)
            ∙ items_of-append (drop t.current_item t.items) last
            ∙ ap (λ l. l ++ (item ∷ [])) r.2,
        omega (arith, length-append t.items last, r.3),
        r.4,
      )

  clear-refines : (h : ℕ) (t : Timeline Item) → Represents h (clear t) [] []
  unfolding Represents clear
  clear-refines h t = ([], refl, refl, omega arith, inl refl)

  -- What a client calls.
  pub data Call : Type 0 where
    adds : Item → Call
    ticks : Real → Call
    clears : Call

  -- The calls in order: the timeline they leave and what each tick handed over.
  unfoldable pub run : ℕ → ℕ → List Call → Timeline Item → Timeline Item × List (List Item)
  run h threshold [] t = (t, [])
  run h threshold (adds item ∷ calls) t = run h threshold calls (add_item fl get_time item t)
  run h threshold (ticks time ∷ calls) t =
      let (t', called) = tick fl get_time h threshold time t in
      let (last, all) = run h threshold calls t' in (last, called ∷ all)
  run h threshold (clears ∷ calls) t = run h threshold calls (clear t)

  -- The same calls on the two lists that a timeline stands for.
  unfoldable pub specified :
      List Call → List Item → List Item → (List Item × List Item) × List (List Item)
  specified [] past pending = ((past, pending), [])
  specified (adds item ∷ calls) past pending = specified calls past (pending ++ (item ∷ []))
  specified (ticks time ∷ calls) past pending =
      let (last, all) =
        specified calls (past ++ due fl get_time time pending) (not_due fl get_time time pending) in
      (last, due fl get_time time pending ∷ all)
  specified (clears ∷ calls) past pending = specified calls [] []

  run-refines :
      (h threshold : ℕ) (calls : List Call) (t : Timeline Item) (past pending : List Item)
      → h < threshold
      → Represents h t past pending
      → ((run h threshold calls t).1 ≡ (specified calls past pending).1)
        × Represents h
            (run h threshold calls t).0
            (specified calls past pending).0.0
            (specified calls past pending).0.1
  unfolding run specified
  run-refines h threshold [] t past pending lt r = (refl, r)
  run-refines h threshold (adds item ∷ calls) t past pending lt r =
      run-refines h threshold calls _ _ _ lt (add_item-refines h item t past pending r)
  run-refines h threshold (ticks time ∷ calls) t past pending lt r =
      let step = tick-refines fl get_time h threshold time t past pending lt r in
      let rest = run-refines h threshold calls _ _ _ lt step.1 in
      (ap₂ (λ a b. a ∷ b) step.0 rest.0, rest.1)
  run-refines h threshold (clears ∷ calls) t past pending lt r =
      run-refines h threshold calls _ _ _ lt (clear-refines h t)

  -- From an empty timeline, whatever sequence of additions, ticks and clears is made, each tick
  -- hands over what the two lists say, in order and once, and the timeline stands for the two
  -- lists at the end, where the history length is below the threshold for copying back.
  pub timeline-refines :
      (h threshold : ℕ) (calls : List Call)
      → h < threshold
      → ((run h threshold calls empty_timeline).1 ≡ (specified calls [] []).1)
        × Represents h
            (run h threshold calls empty_timeline).0
            (specified calls [] []).0.0
            (specified calls [] []).0.1
  unfolding Represents
  timeline-refines h threshold calls lt =
      run-refines h threshold calls empty_timeline [] [] lt ([], refl, refl, omega arith, inl refl)

  add_item-sorted :
      (item : Item) (t : Timeline Item)
      → ((x : Real) → fle x x ≡ true)
      → t.is_sorted ≡ true
      → (add_item fl get_time item t).is_sorted ≡ true
  unfolding add_item
  add_item-sorted item t same e =
      let items : List (Entry Item) =
        t.items ++ (record { item = item; tie_breaker = t.insert_counter } ∷ []) in
      elim (Option-cases (get_elem? items (length items - 1))) [
        | inl f ↦ rw f (ground (arith, e))
        | inr (a, f) ↦ rw f (ground (arith, e, same (get_time a.item)))
      ]

  tick-sorted :
      (h threshold : ℕ) (time : Real) (t : Timeline Item)
      → t.is_sorted ≡ true
      → (tick fl get_time h threshold time t).0.is_sorted ≡ true
  unfolding tick copy_back_if_needed
  tick-sorted h threshold time t e = ground (arith, e)

  stays_sorted :
      (h threshold : ℕ) (calls : List Call) (t : Timeline Item)
      → ((x : Real) → fle x x ≡ true)
      → t.is_sorted ≡ true
      → (run h threshold calls t).0.is_sorted ≡ true
  unfolding run clear
  stays_sorted h threshold [] t same e = e
  stays_sorted h threshold (adds item ∷ calls) t same e =
      stays_sorted h threshold calls _ same (add_item-sorted item t same e)
  stays_sorted h threshold (ticks time ∷ calls) t same e =
      stays_sorted h threshold calls _ same (tick-sorted h threshold time t e)
  stays_sorted h threshold (clears ∷ calls) t same e = stays_sorted h threshold calls _ same refl

  -- Where every time is at or before itself, whatever sequence of additions, ticks and clears is
  -- made on an empty timeline, sortIfNeeded leaves the timeline as it is, in whatever order the
  -- items were added.
  pub sort_if_needed-never :
      (pdqsort : List (Entry Item) → List (Entry Item)) (h threshold : ℕ) (calls : List Call)
      → ((x : Real) → fle x x ≡ true)
      → sort_if_needed pdqsort (run h threshold calls empty_timeline).0
        ≡ (run h threshold calls empty_timeline).0
  unfolding sort_if_needed
  sort_if_needed-never pdqsort h threshold calls same =
      rw (stays_sorted h threshold calls empty_timeline same refl) refl
