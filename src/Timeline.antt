-- ===== src/Timeline.antt =====
-- include/synthizer/generic_timeline.hpp: items in order of time, handed over as time passes.
pub mod Refinement
pub mod Calls
pub mod Items
mod Tests
use mathlib.Core.Option
use synthizer.Base.{
  ℕ, zero, suc, ◌+◌, ◌-◌, ◌%◌, ◌^◌, Bool, true, false, ◌||◌, Option, none, some, List, [], ◌∷◌,
  ◌++◌, length, get_elem?, take, drop, ltb, leb, ◌==◌, if◌then◌else◌,
}
use synthizer.Float.{Float}
use synthizer.Fader.{add32, sub32}

pub record Entry (Item : Type 0) : Type 0 where
  pub item : Item
  pub tie_breaker : ℕ

pub record Timeline (Item : Type 0) : Type 0 where
  pub items : List (Entry Item)
  pub current_item : ℕ
  pub is_sorted : Bool
  pub insert_counter : ℕ

-- An int as the 32-bit word that holds it.
abbrev pub minus_one : ℕ
minus_one = 2 ^ 32 - 1

abbrev pub is_negative : ℕ → Bool
is_negative word = leb (2 ^ 31) word

module _ {Item : Type 0} where
  abbrev pub empty_timeline : Timeline Item
  empty_timeline = record { items = []; current_item = 0; is_sorted = true; insert_counter = 0 }

  unfoldable pub clear : Timeline Item → Timeline Item
  clear t = record t { current_item = 0; is_sorted = true; items = [] }

  -- `none` is std::nullopt.
  unfoldable pub get_item : ℕ → Timeline Item → Option Item
  get_item offset t =
      let effective_item =
        sub32 t.current_item (if t.current_item == length t.items then 1 else 0) in
      let actual = add32 effective_item offset in
      if is_negative actual || leb (length t.items % 2 ^ 32) actual
      then none
      else Option.map (λ (e : Entry Item). e.item) (get_elem? t.items actual)

  -- std::copy of the items from `drop_count` on to the front, then an erase at the end.
  unfoldable pub copy_back_if_needed : ℕ → ℕ → Timeline Item → Timeline Item
  copy_back_if_needed history_length copyback_threshold t =
      let drop_count = t.current_item - history_length in
      let left = length t.items - drop_count in
      let copied = drop drop_count t.items ++ drop left t.items in
      if leb t.current_item copyback_threshold
      then t
      else record t { items = take left copied; current_item = history_length }

  -- pdqsort_branchless is a vendored library: `pdqsort` is what it does to the entries.
  unfoldable pub sort_if_needed :
      (List (Entry Item) → List (Entry Item)) → Timeline Item → Timeline Item
  sort_if_needed pdqsort t = if t.is_sorted then t else record t { items = pdqsort t.items }

module _ (fl : Float) {Item : Type 0} (get_time : Item → fl.Real) where
  open fl use {Real, fle}

  -- `last` and `cur` are both read at the end of the vector that `item` was just pushed on.
  unfoldable pub add_item : Item → Timeline Item → Timeline Item
  add_item item t =
      let items = t.items ++ (record { item = item; tie_breaker = t.insert_counter } ∷ []) in
      let last = get_elem? items (length items - 1) in
      let cur = get_elem? items (length items - 1) in
      record t {
        items = items;
        insert_counter = add32 t.insert_counter 1;
        is_sorted =
            if ltb 1 (length items)
            then elim last [
              | none ↦ t.is_sorted
              | some a ↦ elim cur [
                | none ↦ t.is_sorted
                | some b ↦ fle (get_time a.item) (get_time b.item)
              ]
            ]
            else t.is_sorted;
      }

  pub add_items : List Item → Timeline Item → Timeline Item
  add_items [] t = t
  add_items (x ∷ xs) t = add_items xs (add_item x t)

  -- The loop of `tick`, at most `rounds` rounds: the new current item, and what the callback got.
  unfoldable pub tick_loop : ℕ → Real → List (Entry Item) → ℕ → ℕ × List Item
  tick_loop zero time items current = (current, [])
  tick_loop (suc rounds) time items current =
      let rest = tick_loop rounds time items (suc current) in
      elim (get_elem? items current) [
        | none ↦ (current, [])
        | some e ↦ if fle (get_time e.item) time then (rest.0, e.item ∷ rest.1) else (current, [])
      ]

  unfoldable pub tick : ℕ → ℕ → Real → Timeline Item → Timeline Item × List Item
  tick history_length copyback_threshold time t =
      let (current, called) = tick_loop (length t.items) time t.items t.current_item in
      (
        copy_back_if_needed history_length copyback_threshold (record t { current_item = current }),
        called,
      )
