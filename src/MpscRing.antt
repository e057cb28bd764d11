-- ===== src/MpscRing.antt =====
-- include/synthizer/mpsc_ring.hpp: the ring of many producers and one consumer, as the steps that
-- its threads take.
pub mod Queue
pub mod Drain
mod Tests
use synthizer.Base.{
  ℕ, zero, suc, ◌+◌, ◌-◌, ◌%◌, ◌^◌, Bool, true, false, ◌&&◌, Option, none, some, List, [], ◌∷◌,
  length, get_elem?, set, replicate, ltb, leb, ◌==◌, if◌then◌else◌,
}
use synthizer.SpscRing.{add_size, sub_size}

pub data EntryState : Type 0 where
  empty allocated_for_write ready : EntryState

pub record MpscRingEntry (Value : Type 0) : Type 0 where
  pub value : Value
  pub state : EntryState

-- The indices are 64 bits wide.
pub record MpscRing (Value : Type 0) : Type 0 where
  pub ring : List (MpscRingEntry Value)
  pub reader_index : ℕ
  pub writer_index : ℕ

abbrev pub is_empty : EntryState → Bool
is_empty empty = true
is_empty _ = false

abbrev pub is_ready : EntryState → Bool
is_ready ready = true
is_ready _ = false

-- What `write` returns: false, no answer yet where every loaded round lost its exchange, or true
-- with the new ring.
pub data Written (Value : Type 0) : Type 0 where
  full : Written Value
  retrying : Written Value
  written : MpscRing Value → Written Value

module _ {Value : Type 0} where
  abbrev pub capacity : MpscRing Value → ℕ
  capacity m = length m.ring

  unfoldable pub mpsc_ring : ℕ → Value → MpscRing Value
  mpsc_ring n default = record {
    ring = replicate n (record { value = default; state = empty });
    reader_index = 0;
    writer_index = 0;
  }

  -- The rest of `write` once the exchange has taken the cell: the index counted up, the callback,
  -- which leaves `value` in the cell, and the cell made ready.
  unfoldable pub fill_cell : ℕ → Value → MpscRing Value → MpscRing Value
  fill_cell index value m = record m {
    ring = set m.ring index (record { value = value; state = ready });
    writer_index = add_size m.writer_index 1;
  }

  -- One call of `write`: the rounds of its loop, each with the indices of reader and writer that it
  -- loaded, which may be old, against the cells as they are when the round makes its exchange.
  pub write : List (ℕ × ℕ) → Value → MpscRing Value → Written Value
  write [] value m = retrying
  write ((start, end) ∷ loads) value m =
      let again = write loads value m in
      let index = end % capacity m in
      if leb (capacity m) (sub_size end start) then full else elim (get_elem? m.ring index) [
        | none ↦ again
        | some cell ↦ if is_empty cell.state then written (fill_cell index value m) else again
      ]

  -- The scope exit of `processAll`.
  unfoldable pub release_cell : ℕ → MpscRingEntry Value → MpscRing Value → MpscRing Value
  release_cell index cell m = record m {
    ring = set m.ring index (record cell { state = empty });
    reader_index = add_size m.reader_index 1;
  }

  -- The loop of `processAll`, at most `rounds` rounds, for a callback that throws on the values
  -- that pass `throws`: the ring, and the values handed to the callback, in order.
  pub process_loop : (Value → Bool) → ℕ → MpscRing Value → MpscRing Value × List Value
  process_loop throws zero m = (m, [])
  process_loop throws (suc rounds) m =
      let index = m.reader_index % capacity m in
      elim (get_elem? m.ring index) [
        | none ↦ (m, [])
        | some cell ↦
            let released = release_cell index cell m in
            let rest = process_loop throws rounds released in
            if is_ready cell.state
            then (if throws cell.value
                then (released, cell.value ∷ [])
                else (rest.0, cell.value ∷ rest.1))
            else (m, [])
      ]

  -- Each round leaves one cell fewer that is ready.
  unfoldable pub process_all : (Value → Bool) → MpscRing Value → MpscRing Value × List Value
  process_all throws m = process_loop throws (capacity m + 1) m
