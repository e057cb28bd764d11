-- ===== src/BufferGeneration.antt =====
-- generateBufferData of src/buffer.cpp: a buffer from a producer of samples.
pub mod Chunks
pub mod RoundTrip
mod Tests
use synthizer.Base.{
  ℕ, zero, suc, ◌+◌, ◌-◌, ◌*◌, Bool, true, false, Option, none, some, List, [], ◌∷◌, ◌++◌, length,
  replicate, ltb, ◌==◌, if◌then◌else◌,
}
use synthizer.Buffer.{BufferData, max_channels}
use synthizer.Context.{sample_rate}

pub data GenerateError : Type 0 where
  too_many_channels zero_length : GenerateError

pub data Generated (Sample : Type 0) : Type 0 where
  built : BufferData Sample → Generated Sample
  throws : GenerateError → Generated Sample

-- What a round gets: the frames in the chunk, their samples, and whether they are the last. At the
-- rate of the library this is what the producer gives; at another one the resampler stands between.
pub record Produced (State Real : Type 0) : Type 0 where
  pub state : State
  pub next_chunk_len : ℕ
  pub working_buf : List Real
  pub last : Bool

module _ {State Real : Type 0} (chunk_size : ℕ) where
  -- Without a resampler; the producer answers with the frames that it has written.
  unfoldable pub produce_directly :
      (State → ℕ → State × ℕ × List Real) → State → Produced State Real
  produce_directly producer s =
      let (s', got, floats) = producer s chunk_size in
      record { state = s'; next_chunk_len = got; working_buf = floats; last = ltb got chunk_size }

module _ {State Real : Type 0} (chunk_size : ℕ) where
  -- The choice by the rate of the stream: `resampled` is a round through the resampler.
  unfoldable pub produce_at :
      ℕ
      → (State → Produced State Real)
      → (State → ℕ → State × ℕ × List Real)
      → State
      → Produced State Real
  unfolding produce_directly
  produce_at sr resampled producer s =
      if sr == sample_rate then produce_directly chunk_size producer s else resampled s

module _ {Real Sample : Type 0} (quantize : ℕ → Real → Sample) where
  -- Each sample with the dither of its place, scaled and clamped.
  abbrev pub quantize_all : ℕ → List Real → List Sample
  quantize_all i [] = []
  quantize_all i (x ∷ xs) = quantize i x ∷ quantize_all (suc i) xs

module _ {Real Sample : Type 0} (silence : Sample) (chunk_size : ℕ)
    (quantize : ℕ → Real → Sample) where
  unfoldable pub next_chunk : ℕ → ℕ → List Real → List Sample
  next_chunk channels dithered floats =
      quantize_all quantize dithered floats
      ++ replicate (channels * chunk_size - length floats) silence

module _ {Sample : Type 0} where
  unfoldable pub check_length : BufferData Sample → Generated Sample
  check_length b = if b.length == 0 then throws zero_length else built b

module _ {State Real Sample : Type 0} (silence : Sample) (chunk_size : ℕ)
    (quantize : ℕ → Real → Sample) where
  -- The loop, at most `rounds` rounds, with the samples dithered so far.
  unfoldable pub generate_loop :
      (State → Produced State Real)
      → ℕ
      → ℕ
      → ℕ
      → State
      → List (List Sample)
      → ℕ
      → Option (BufferData Sample)
  unfolding next_chunk
  generate_loop produce zero channels dithered s chunks len = none
  generate_loop produce (suc rounds) channels dithered s chunks len =
      let p = produce s in
      let chunks' =
        chunks ++ (next_chunk silence chunk_size quantize channels dithered p.working_buf ∷ []) in
      let more =
        generate_loop produce rounds channels (dithered + length p.working_buf) p.state chunks'
          (len + p.next_chunk_len) in
      if p.last
      then some (record { channels = channels; length = len + p.next_chunk_len; chunks = chunks' })
      else more

  unfoldable pub generate_buffer_data :
      (State → Produced State Real) → ℕ → ℕ → State → Option (Generated Sample)
  unfolding generate_loop check_length
  generate_buffer_data produce rounds channels s =
      if ltb max_channels channels
      then some (throws too_many_channels)
      else elim (generate_loop produce rounds channels 0 s [] 0) [
        | none ↦ none
        | some b ↦ some (check_length b)
      ]
