-- ===== src/BlockDelayLine.antt =====
-- include/synthizer/block_delay_line.hpp: delays of up to some blocks, on lanes of samples.
pub mod Index
pub mod History
pub mod Refinement
mod Tests
use synthizer.Base.{
  ℕ, zero, suc, ◌+◌, ◌-◌, ◌*◌, ◌%◌, ◌≡◌, Bool, true, false, not, ◌&&◌, Option, none, some, ltb, leb,
  ◌==◌, if◌then◌else◌,
}
use synthizer.Fader.{add32, sub32, block_size}

-- The frames of all lanes, one after the other.
pub record BlockDelayLine (Real : Type 0) : Type 0 where
  pub samples : ℕ → Real
  pub current_frame : ℕ

-- What a closure does with a reader for one sample: reads of a channel at a delay, writes of a
-- channel, and then its own state.
pub data Program (Real State : Type 0) : Type 0 where
  done : State → Program Real State
  read : ℕ → ℕ → (Real → Program Real State) → Program Real State
  write : ℕ → Real → Program Real State → Program Real State

module _ {Real : Type 0} where
  abbrev pub store : ℕ → Real → (ℕ → Real) → ℕ → Real
  store index value samples i = if i == index then value else samples i

-- The reader of a loop is at `frame`. Results `none` are failed assertions.
module _ (lanes size_in_blocks : ℕ) where
  abbrev pub size : ℕ
  size = block_size * size_in_blocks

  unfoldable pub modulus_index_producer : ℕ → ℕ → Option ℕ
  modulus_index_producer delay frame =
      if ltb delay size then some (sub32 (add32 frame size) delay % size) else none

  unfoldable pub identity_index_producer : ℕ → ℕ → Option ℕ
  identity_index_producer delay frame =
      if ltb delay size && leb delay frame then some (sub32 frame delay) else none

  -- The producer that a block takes: the modulus only where a read may go back past the start.
  unfoldable pub index_producer : ℕ → ℕ → ℕ → ℕ → Option ℕ
  index_producer max_delay current_frame =
      if ltb current_frame max_delay then modulus_index_producer else identity_index_producer

  module _ {Real State : Type 0} where
    -- One call of the closure.
    unfoldable pub run_program :
        (ℕ → ℕ → Option ℕ) → ℕ → Program Real State → (ℕ → Real) → Option (State × (ℕ → Real))
    run_program producer frame (done s) samples = some (s, samples)
    run_program producer frame (read channel delay next) samples =
        if ltb channel lanes
        then (elim (producer delay frame) [
          | none ↦ none
          | some index ↦
              run_program producer frame (next (samples (index * lanes + channel))) samples
        ])
        else none
    run_program producer frame (write channel value next) samples =
        let rest =
          run_program producer frame next (store (frame * lanes + channel) value samples) in
        if ltb channel lanes then rest else none

    -- Reader::runLoop: `n` samples from `index` on, with the reader at `frame`.
    unfoldable pub run_loop :
        (ℕ → ℕ → Option ℕ)
        → (ℕ → State → Program Real State)
        → ℕ
        → ℕ
        → ℕ
        → State
        → (ℕ → Real)
        → Option (State × (ℕ → Real))
    run_loop producer closure zero index frame s samples = some (s, samples)
    run_loop producer closure (suc n) index frame s samples =
        elim (run_program producer frame (closure index s) samples) [
          | none ↦ none
          | some (s', samples') ↦ run_loop producer closure n (suc index) (suc frame) s' samples'
        ]

    -- The two loops of runLoopPrivSplit on the same reader.
    unfoldable pub run_both :
        (ℕ → ℕ → Option ℕ)
        → ℕ
        → (ℕ → State → Program Real State)
        → ℕ
        → (ℕ → State → Program Real State)
        → ℕ
        → State
        → (ℕ → Real)
        → Option (State × (ℕ → Real))
    unfolding run_loop
    run_both producer first first_c second second_c frame s samples =
        elim (run_loop producer first_c first 0 frame s samples) [
          | none ↦ none
          | some (s', samples') ↦
              run_loop producer second_c second first (frame + first) s' samples'
        ]

    -- runLoopPrivSplit, of which the other loops are instances.
    unfoldable pub run_loop_split :
        ℕ
        → ℕ
        → (ℕ → State → Program Real State)
        → ℕ
        → (ℕ → State → Program Real State)
        → State
        → BlockDelayLine Real
        → Option (State × BlockDelayLine Real)
    unfolding run_both index_producer
    run_loop_split max_delay first first_c second second_c s line =
        let frame = line.current_frame in
        if not (first + second == block_size)
        then none
        else elim (run_both (index_producer max_delay frame) first first_c second second_c frame s
            line.samples) [
              | none ↦ none
              | some (s', samples') ↦
                  some
                    (s', record { samples = samples'; current_frame = (frame + block_size) % size })
            ]

    unfoldable pub run_rw_loop :
        ℕ
        → (ℕ → State → Program Real State)
        → State
        → BlockDelayLine Real
        → Option (State × BlockDelayLine Real)
    unfolding run_loop_split
    run_rw_loop max_delay closure s line =
        run_loop_split max_delay block_size closure 0 closure s line
