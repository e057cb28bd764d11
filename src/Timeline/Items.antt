-- ===== src/Timeline/Items.antt =====
-- What getItem of include/synthizer/generic_timeline.hpp finds next to the current time.
use synthizer.Base.{
  drop_all, ℕ, zero, suc, ◌+◌, ◌-◌, ◌%◌, ◌^◌, ◌<◌, ◌≤◌, ◌≡◌, refl, ap, sym, ◌∙◌, inl, inr, Option,
  none, some, List, [], ◌∷◌, ◌++◌, length, get_elem?, take, drop, ◌==◌, if◌then◌else◌, arith,
  length-append, length-drop, length-take, length-map, dec_lt, leb_lt, le→leb,
}
use mathlib.Core.Option
use synthizer.Fader.{add32, sub32}
use synthizer.Timeline.{Entry, Timeline, minus_one, get_item}
use synthizer.Timeline.Refinement.{items_of, Represents}

zero_plus : (i : ℕ) → 0 + i ≡ i
zero_plus i = omega arith

suc_plus : (n i : ℕ) → suc n + i ≡ suc (n + i)
suc_plus n i = omega arith

module _ {ℓ} {A : Type ℓ} where
  abbrev pub last_of : List A → Option A
  last_of xs = get_elem? xs (length xs - 1)

  get_elem?-beyond :
      (xs ys : List A) (i : ℕ) → get_elem? (xs ++ ys) (length xs + i) ≡ get_elem? ys i
  get_elem?-beyond [] ys i = rw (zero_plus i) refl
  get_elem?-beyond (x ∷ xs) ys i = rw (suc_plus (length xs) i) (get_elem?-beyond xs ys i)

  last_of-append : (xs ys : List A) → 0 < length ys → last_of (xs ++ ys) ≡ last_of ys
  last_of-append xs ys h =
      ap (get_elem? (xs ++ ys)) (omega (arith, length-append xs ys))
      ∙ get_elem?-beyond xs ys (length ys - 1)

  get_elem?-take : (n i : ℕ) (xs : List A) → i < n → get_elem? (take n xs) i ≡ get_elem? xs i
  get_elem?-take zero i xs h = absurd (omega arith)
  get_elem?-take (suc n) i [] h = refl
  get_elem?-take (suc n) zero (x ∷ xs) h = refl
  get_elem?-take (suc n) (suc i) (x ∷ xs) h = get_elem?-take n i xs (omega arith)

module _ {Item : Type 0} where
  get_elem?-items_of :
      (xs : List (Entry Item)) (i : ℕ)
      → get_elem? (items_of xs) i ≡ Option.map (λ (e : Entry Item). e.item) (get_elem? xs i)
  get_elem?-items_of [] i = refl
  get_elem?-items_of (x ∷ xs) zero = refl
  get_elem?-items_of (x ∷ xs) (suc i) = get_elem?-items_of xs i

  abbrev pub first_or : List Item → Option Item → Option Item
  first_or [] o = o
  first_or (x ∷ xs) o = some x

  -- The last item passed is in the vector, just before the current item.
  last_passed :
      (h : ℕ) (t : Timeline Item) (past pending : List Item)
      → 0 < h
      → Represents h t past pending
      → 0 < t.current_item
      → last_of past
        ≡ Option.map (λ (e : Entry Item). e.item) (get_elem? t.items (t.current_item - 1))
  unfolding Represents
  last_passed h t past pending pos r moved =
      let held = items_of (take t.current_item t.items) in
      let n : length held ≡ t.current_item = omega (
        arith,
        length-map (take t.current_item t.items) (λ (e : Entry Item). e.item),
        length-take t.current_item t.items,
        r.3,
      ) in
      ap last_of r.1
      ∙ last_of-append r.0 held (omega arith)
      ∙ ap (get_elem? held) (omega arith)
      ∙ get_elem?-items_of (take t.current_item t.items) (t.current_item - 1)
      ∙ ap (Option.map (λ (e : Entry Item). e.item))
          (get_elem?-take t.current_item (t.current_item - 1) t.items (omega arith))

  none_passed :
      (h : ℕ) (t : Timeline Item) (past pending : List Item)
      → 0 < h
      → Represents h t past pending
      → t.current_item ≡ 0
      → past ≡ []
  unfolding Represents
  none_passed h t past pending pos r start = elim r.4 [
    | inl e ↦ r.1 ∙ rw (e, start) refl
    | inr e ↦ absurd (omega arith)
  ]

  -- The index that getItem computes.
  abbrev actual_index : ℕ → Timeline Item → ℕ
  actual_index offset t =
      add32 (sub32 t.current_item (if t.current_item == length t.items then 1 else 0)) offset

  get_item-at :
      (offset i : ℕ) (t : Timeline Item)
      → actual_index offset t ≡ i
      → i < length t.items
      → length t.items < 2 ^ 31
      → get_item offset t ≡ Option.map (λ (e : Entry Item). e.item) (get_elem? t.items i)
  unfolding get_item
  get_item-at offset i t e h small =
      let fits : length t.items % 2 ^ 32 ≡ length t.items = omega arith in
      rw (e, fits, leb_lt (2 ^ 31) i (omega arith), leb_lt (length t.items) i h) refl

  get_item-negative :
      (offset : ℕ) (t : Timeline Item) → 2 ^ 31 ≤ actual_index offset t → get_item offset t ≡ none
  unfolding get_item
  get_item-negative offset t h = rw (le→leb (2 ^ 31) (actual_index offset t) h) refl

  first_or-drop :
      (i : ℕ) (items : List (Entry Item)) (o : Option Item)
      → i < length items
      → first_or (items_of (drop i items)) o
        ≡ Option.map (λ (e : Entry Item). e.item) (get_elem? items i)
  first_or-drop i [] o h = absurd (omega arith)
  first_or-drop zero (x ∷ xs) o h = refl
  first_or-drop (suc i) (x ∷ xs) o h = first_or-drop i xs o (omega arith)

  -- While fewer than 2^31 items are held, item 0 is the first item to come, or the last item passed
  -- where none is to come, and item -1 is the last item passed where one is to come; both are there
  -- exactly when such an item is.
  pub get_item-refines :
      (h : ℕ) (t : Timeline Item) (past pending : List Item)
      → 0 < h
      → length t.items < 2 ^ 31
      → Represents h t past pending
      → (get_item 0 t ≡ first_or pending (last_of past))
        × ((0 < length pending) → get_item minus_one t ≡ last_of past)
  unfolding Represents
  get_item-refines h t past pending pos small r =
      let n : length pending ≡ length t.items - t.current_item =
        ap length (sym r.2)
        ∙ length-map (drop t.current_item t.items) (λ (e : Entry Item). e.item)
        ∙ length-drop t.current_item t.items in
      elim (dec_lt t.current_item (length t.items)) [
        | yes more ↦ (
          get_item-at 0 t.current_item t (ground arith) more small
              ∙ sym (first_or-drop t.current_item t.items (last_of past) more)
              ∙ ap (λ p. first_or p (last_of past)) r.2,
          λ some_pending. elim (dec_lt 0 t.current_item) [
            | yes moved ↦
                get_item-at minus_one (t.current_item - 1) t (ground arith) (omega arith) small
                ∙ sym (last_passed h t past pending pos r moved)
            | no still ↦
                get_item-negative minus_one t (ground arith)
                ∙ sym (ap last_of (none_passed h t past pending pos r (omega arith)))
          ],
        )
        | no over ↦
            let nothing : pending ≡ [] =
              sym r.2 ∙ ap items_of (drop_all t.items t.current_item (omega arith)) in
            (
              elim (dec_lt 0 t.current_item) [
                | yes moved ↦
                    get_item-at 0 (t.current_item - 1) t (ground (arith, r.3)) (omega (arith, r.3))
                      small
                    ∙ sym (last_passed h t past pending pos r moved)
                    ∙ ap (λ p. first_or p (last_of past)) (sym nothing)
                | no still ↦
                    get_item-negative 0 t (ground (arith, r.3))
                    ∙ sym (ap last_of (none_passed h t past pending pos r (omega arith)))
                    ∙ ap (λ p. first_or p (last_of past)) (sym nothing)
              ],
              λ some_pending. absurd (omega (arith, n)),
            )
      ]
