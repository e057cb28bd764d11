-- ===== src/Timeline/Refinement.antt =====
-- include/synthizer/generic_timeline.hpp as two lists: the items passed and the items to come.
use synthizer.Base.{
  take-split, drop-split, drop_all, ℕ, zero, suc, ◌+◌, ◌-◌, ◌<◌, ◌≤◌, ◌≡◌, refl, ap, sym, subst,
  ◌∙◌, ◌⊎◌, inl, inr, List, [], ◌∷◌, ◌++◌, length, get_elem?, take, drop, leb, if◌then◌else◌, map,
  append_assoc, arith, Bool-cases, Option-cases, drop-get_elem?, drop-get_elem?-none, length-drop,
  length-take, take-append,
}
use synthizer.Float.{Float}
use synthizer.Timeline.{Entry, Timeline, copy_back_if_needed, tick_loop, tick}

module _ {Item : Type 0} where
  abbrev pub items_of : List (Entry Item) → List Item
  items_of = map (λ (e : Entry Item). e.item)

  -- The timeline `t` stands for the items passed, oldest first, and the items to come: of those
  -- passed it holds all, or at least the last `history_length`.
  unfoldable pub Represents : ℕ → Timeline Item → List Item → List Item → Type 0
  Represents history_length t past pending =
      (lost : List Item) × (past ≡ lost ++ items_of (take t.current_item t.items))
      × (items_of (drop t.current_item t.items) ≡ pending)
      × (t.current_item ≤ length t.items)
      × ((lost ≡ []) ⊎ (history_length ≤ t.current_item))

  copied-eq :
      (n : ℕ) (xs : List (Entry Item))
      → n ≤ length xs
      → take (length xs - n) (drop n xs ++ drop (length xs - n) xs) ≡ drop n xs
  copied-eq n xs h =
      take-append (drop n xs) (drop (length xs - n) xs) (length xs - n) (sym (length-drop n xs))

  pub items_of-append :
      (xs ys : List (Entry Item)) → items_of (xs ++ ys) ≡ items_of xs ++ items_of ys
  items_of-append [] ys = refl
  items_of-append (x ∷ xs) ys = ap (λ t. x.item ∷ t) (items_of-append xs ys)

  -- Copying items back forgets only items passed.
  copy_back-Represents :
      (h threshold : ℕ) (t : Timeline Item) (past pending : List Item)
      → h < threshold
      → Represents h t past pending
      → Represents h (copy_back_if_needed h threshold t) past pending
  unfolding Represents copy_back_if_needed
  copy_back-Represents h threshold t past pending lt r =
      elim (Bool-cases (leb t.current_item threshold)) [
        | inl stays ↦ rw stays r
        | inr moves ↦
            let n : ℕ = t.current_item - h in
            let above : threshold < t.current_item = ground arith in
            let bound : t.current_item ≤ length t.items = r.3 in
            let sum : t.current_item ≡ n + h = omega arith in
            rw (moves, copied-eq n t.items (omega arith))
              (
                r.0 ++ items_of (take n t.items),
                r.1
                    ∙ ap (λ l. r.0 ++ l)
                        (ap items_of (take-split t.current_item n h t.items sum)
                          ∙ items_of-append (take n t.items) (take h (drop n t.items)))
                    ∙ sym (
                        append_assoc r.0 (items_of (take n t.items))
                          (items_of (take h (drop n t.items)))),
                ap items_of (sym (drop-split t.current_item n h t.items sum)) ∙ r.2,
                omega (arith, length-drop n t.items),
                inr (omega arith),
              )
      ]

module _ (fl : Float) {Item : Type 0} (get_time : Item → fl.Real) where
  open fl use {Real, fle}

  -- The items that are due: the longest prefix of times at or before `time`, and what is left.
  abbrev pub due : Real → List Item → List Item
  due time [] = []
  due time (x ∷ xs) = if fle (get_time x) time then x ∷ due time xs else []

  abbrev pub not_due : Real → List Item → List Item
  not_due time [] = []
  not_due time (x ∷ xs) = if fle (get_time x) time then not_due time xs else x ∷ xs

  tick_loop-eq :
      (rounds : ℕ) (time : Real) (items : List (Entry Item)) (current : ℕ)
      → length items ≤ rounds + current
      → tick_loop fl get_time rounds time items current ≡ (
        current + length (due time (items_of (drop current items))),
        due time (items_of (drop current items)),
      )
  unfolding tick_loop
  tick_loop-eq zero time items current h =
      rw (drop_all items current (omega arith), tick_loop) (ap (λ n. (n, [])) (omega arith))
  tick_loop-eq (suc rounds) time items current h = elim (Option-cases (get_elem? items current)) [
    | inl e ↦
        rw (e, tick_loop)
          (rw (drop-get_elem?-none items current e) (ap (λ n. (n, [])) (omega arith)))
    | inr (x, e) ↦
        let ih = tick_loop-eq rounds time items (suc current) (omega arith) in
        elim (Bool-cases (fle (get_time x.item) time)) [
          | inl d ↦
              rw (e, tick_loop)
                (rw (drop-get_elem? items current x e) (
                  rw d (
                    rw ih (
                      ap (λ n. (n, x.item ∷ due time (items_of (drop (suc current) items))))
                        (omega arith)))))
          | inr d ↦
              rw (e, tick_loop)
                (rw (drop-get_elem? items current x e) (rw d (ap (λ n. (n, [])) (omega arith))))
        ]
  ]

  take-due :
      (time : Real) (xs : List (Entry Item))
      → items_of (take (length (due time (items_of xs))) xs) ≡ due time (items_of xs)
  take-due time [] = refl
  take-due time (x ∷ xs) = elim (Bool-cases (fle (get_time x.item) time)) [
    | inl d ↦ rw d (ap (λ l. x.item ∷ l) (take-due time xs))
    | inr d ↦ rw d refl
  ]

  drop-due :
      (time : Real) (xs : List (Entry Item))
      → items_of (drop (length (due time (items_of xs))) xs) ≡ not_due time (items_of xs)
  drop-due time [] = refl
  drop-due time (x ∷ xs) = elim (Bool-cases (fle (get_time x.item) time)) [
    | inl d ↦ rw d (drop-due time xs)
    | inr d ↦ rw d refl
  ]

  length-due : (time : Real) (xs : List (Entry Item)) → length (due time (items_of xs)) ≤ length xs
  length-due time [] = omega arith
  length-due time (x ∷ xs) = elim (Bool-cases (fle (get_time x.item) time)) [
    | inl d ↦ rw d (omega (arith, length-due time xs))
    | inr d ↦ rw d (omega arith)
  ]

  advance-Represents :
      (h : ℕ) (time : Real) (t : Timeline Item) (past pending : List Item)
      → Represents h t past pending
      → Represents h
          (record t { current_item = t.current_item + length (due time pending) })
          (past ++ due time pending)
          (not_due time pending)
  unfolding Represents
  advance-Represents h time t past pending r =
      let rest = drop t.current_item t.items in
      let n = length (due time (items_of rest)) in
      let passes : items_of (take (t.current_item + n) t.items)
          ≡ items_of (take t.current_item t.items) ++ due time (items_of rest) =
        ap items_of (take-split (t.current_item + n) t.current_item n t.items refl)
        ∙ items_of-append (take t.current_item t.items) (take n rest)
        ∙ ap (λ l. items_of (take t.current_item t.items) ++ l) (take-due time rest) in
      subst
        (λ p.
          Represents h (record t { current_item = t.current_item + length (due time p) })
            (past ++ due time p) (not_due time p))
        r.2
        (
          r.0,
          ap (λ l. l ++ due time (items_of rest)) r.1
              ∙ append_assoc r.0 (items_of (take t.current_item t.items)) (due time (items_of rest))
              ∙ sym (ap (λ l. r.0 ++ l) passes),
          ap items_of (drop-split (t.current_item + n) t.current_item n t.items refl)
              ∙ drop-due time rest,
          omega (arith, length-due time rest, length-drop t.current_item t.items, r.3),
          elim r.4 [ inl e ↦ inl e | inr e ↦ inr (omega (arith, e)) ],
        )

  tick-eq :
      (h threshold : ℕ) (time : Real) (t : Timeline Item)
      → tick fl get_time h threshold time t ≡ (
        copy_back_if_needed h threshold (record t {
          current_item =
              t.current_item + length (due time (items_of (drop t.current_item t.items)));
        }),
        due time (items_of (drop t.current_item t.items)),
      )
  unfolding tick
  tick-eq h threshold time t =
      ap
        (λ (p : ℕ × List Item).
          (copy_back_if_needed h threshold (record t { current_item = p.0 }), p.1))
        (tick_loop-eq (length t.items) time t.items t.current_item (omega arith))

  -- A tick hands its callback exactly the items to come up to the first that is later than the
  -- time, in order, and these are then the last items passed, whether or not items are copied back.
  pub tick-refines :
      (h threshold : ℕ) (time : Real) (t : Timeline Item) (past pending : List Item)
      → h < threshold
      → Represents h t past pending
      → ((tick fl get_time h threshold time t).1 ≡ due time pending)
        × Represents h
            (tick fl get_time h threshold time t).0
            (past ++ due time pending)
            (not_due time pending)
  unfolding Represents
  tick-refines h threshold time t past pending lt r =
      subst
        (λ (p : Timeline Item × List Item).
          (p.1 ≡ due time pending)
          × Represents h p.0 (past ++ due time pending) (not_due time pending))
        (sym (tick-eq h threshold time t))
        (
          ap (due time) r.2,
          copy_back-Represents h threshold _ _ _ lt (
              subst
                (λ p.
                  Represents h (record t { current_item = t.current_item + length (due time p) })
                    (past ++ due time pending) (not_due time pending))
                (sym r.2) (advance-Represents h time t past pending r)),
        )

  pub length-tick :
      (h threshold : ℕ) (time : Real) (t : Timeline Item)
      → length (tick fl get_time h threshold time t).0.items ≤ length t.items
  unfolding copy_back_if_needed
  length-tick h threshold time t =
      let n = t.current_item + length (due time (items_of (drop t.current_item t.items))) in
      subst (λ (p : Timeline Item × List Item). length p.0.items ≤ length t.items)
        (sym (tick-eq h threshold time t))
        (elim (Bool-cases (leb n threshold)) [
          | inl stays ↦ rw stays (omega arith)
          | inr moves ↦ rw moves (
              omega (
                arith,
                length-take (length t.items - (n - h))
                    (drop (n - h) t.items ++ drop (length t.items - (n - h)) t.items),
              ))
        ])
