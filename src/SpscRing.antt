-- ===== src/SpscRing.antt =====
-- include/synthizer/spsc_ring.hpp: the single producer, single consumer ring.
pub mod Window
pub mod Invariant
pub mod Split
pub mod Contents
pub mod Fifo
mod Tests
use synthizer.Base.{
  ℕ, ◌+◌, ◌-◌, ◌%◌, ◌^◌, Bool, true, false, ◌||◌, ◌&&◌, not, Option, none, some, List, [], ◌∷◌,
  length, ltb, leb, ◌==◌, min, replicate, if◌then◌else◌,
}

-- size_t is 64 bits wide.
abbrev pub add_size : ℕ → ℕ → ℕ
add_size a b = (a + b) % 2 ^ 64

abbrev pub sub_size : ℕ → ℕ → ℕ
sub_size a b = (a + 2 ^ 64 - b) % 2 ^ 64

-- What beginWrite and beginRead return; a pointer is an index into the data, `none` is nullptr.
pub record Segments : Type 0 where
  pub size1 : ℕ
  pub ptr1 : Option ℕ
  pub size2 : ℕ
  pub ptr2 : Option ℕ

abbrev pub no_segments : Segments
no_segments = record { size1 = 0; ptr1 = none; size2 = 0; ptr2 = none }

-- The result of a beginning call: a failed assertion, a writer still waiting for the reader, or
-- the segments with the new state.
pub data Begin {ℓ} (R : Type ℓ) : Type ℓ where
  aborted : Begin R
  waiting : Begin R
  granted : Segments → R → Begin R

-- The two segments of `allocating` elements that start at `pointer`, in either direction.
abbrev pub split_segments : ℕ → ℕ → ℕ → Segments
split_segments n pointer allocating =
    let size1 = min (sub_size n pointer) allocating in
    if size1 == allocating
    then record { size1 = size1; ptr1 = some pointer; size2 = 0; ptr2 = none }
    else record {
      size1 = size1;
      ptr1 = some pointer;
      size2 = sub_size allocating size1;
      ptr2 = some 0;
    }

pub record Ring {ℓ} (A : Type ℓ) : Type ℓ where
  pub data_provider : List A
  pub write_pointer : ℕ
  pub read_pointer : ℕ
  pub samples_in_buffer : ℕ
  pub pending_write_size : ℕ
  pub pending_read_size : ℕ
  pub read_end_event : Bool

module _ {ℓ} {A : Type ℓ} where
  abbrev pub size : Ring A → ℕ
  size r = length r.data_provider

  -- The waiting loop of beginWrite, over the values that its successive loads of the sample count
  -- return; a wait consumes the reader's event.
  pub begin_write_loop : List ℕ → ℕ → Bool → Ring A → Begin (Ring A)
  begin_write_loop [] requested max_available r = waiting
  begin_write_loop (loaded ∷ loads) requested max_available r =
      let available = sub_size (size r) loaded in
      let again =
        begin_write_loop loads requested max_available (record r { read_end_event = false }) in
      let allocating = if max_available then available else requested in
      if ltb available requested
      then again
      else granted (split_segments (size r) r.write_pointer allocating)
          (record r { pending_write_size = allocating })

  unfoldable pub begin_write : List ℕ → ℕ → Bool → Ring A → Begin (Ring A)
  unfolding begin_write_loop
  begin_write loads requested max_available r =
      if (max_available || not (requested == 0)) && leb requested (size r)
      then begin_write_loop loads requested max_available r
      else aborted

  -- `none` is the failed assertion.
  unfoldable pub end_write : ℕ → Ring A → Option (Ring A)
  end_write amount r =
      if leb amount r.pending_write_size
      then some (record r {
        write_pointer = add_size r.write_pointer amount % size r;
        pending_write_size = sub_size r.pending_write_size amount;
        samples_in_buffer = add_size r.samples_in_buffer amount;
      })
      else none

  -- endWrite() with no argument.
  unfoldable pub end_write_all : Ring A → Option (Ring A)
  unfolding end_write
  end_write_all r = end_write r.pending_write_size r

  unfoldable pub begin_read : ℕ → ℕ → Bool → Ring A → Begin (Ring A)
  begin_read loaded requested max_available r =
      let allocating = if max_available then loaded else requested in
      if (max_available || not (requested == 0)) && leb requested (size r)
      then if loaded == 0 || ltb loaded requested && not max_available
        then granted no_segments r
        else granted (split_segments (size r) r.read_pointer allocating)
            (record r { pending_read_size = allocating })
      else aborted

  unfoldable pub end_read : ℕ → Ring A → Option (Ring A)
  end_read amount r =
      if leb amount r.pending_read_size
      then some (record r {
        read_pointer = add_size r.read_pointer amount % size r;
        pending_read_size = sub_size r.pending_read_size amount;
        samples_in_buffer = sub_size r.samples_in_buffer amount;
        read_end_event = true;
      })
      else none

  unfoldable pub end_read_all : Ring A → Option (Ring A)
  unfolding end_read
  end_read_all r = end_read r.pending_read_size r

-- AllocatedSpscRing(n): value-initialised elements; the assertion is `0 < n`.
unfoldable pub allocated_spsc_ring {ℓ} : {A : Type ℓ} → A → ℕ → Option (Ring A)
allocated_spsc_ring zeroed n =
    if ltb 0 n
    then some (record {
      data_provider = replicate n zeroed;
      write_pointer = 0;
      read_pointer = 0;
      samples_in_buffer = 0;
      pending_write_size = 0;
      pending_read_size = 0;
      read_end_event = false;
    })
    else none
