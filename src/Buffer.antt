-- ===== src/Buffer.antt =====
-- include/synthizer/buffer.hpp: audio in chunks, and the reader of its frames.
pub mod Slices
pub mod Frames
pub mod Floats
mod Tests
use synthizer.Base.{
  ℕ, zero, suc, ◌+◌, ◌-◌, ◌*◌, ◌/◌, ◌%◌, ◌≤◌, Bool, true, false, ◌&&◌, Option, none, some, List, [],
  ◌∷◌, ◌++◌, length, get_elem?, take, drop, ltb, leb, ◌==◌, min, replicate, if◌then◌else◌,
}
use synthizer.SpscRing.{add_size, sub_size}

-- `memory` is what a chunk's pointer points to; a null pointer points to nothing.
pub record BufferChunk (Sample : Type 0) : Type 0 where
  pub start : ℕ
  pub end : ℕ
  pub memory : List Sample

pub record BufferData (Sample : Type 0) : Type 0 where
  pub channels : ℕ
  pub length : ℕ
  pub chunks : List (List Sample)

pub record BufferReader (Sample : Type 0) : Type 0 where
  pub buffer : BufferData Sample
  pub channels : ℕ
  pub length : ℕ
  pub chunk : BufferChunk Sample

-- config::MAX_CHANNELS
abbrev pub max_channels : ℕ
max_channels = 16

-- `chunk_size` is config::BUFFER_CHUNK_SIZE, `silence` the sample 0. A result `none` is a failed
-- assertion or a read that is out of bounds.
module _ {Sample : Type 0} (silence : Sample) (chunk_size : ℕ) where
  unfoldable pub get_chunk : ℕ → BufferData Sample → Option (BufferChunk Sample)
  get_chunk index b =
      let actual_index = index / chunk_size in
      let rounded_index = actual_index * chunk_size in
      elim (get_elem? b.chunks actual_index) [
        | none ↦ none
        | some memory ↦ some (record {
          start = rounded_index;
          end = rounded_index + min (sub_size b.length rounded_index) chunk_size;
          memory = memory;
        })
      ]

  -- setBuffer
  unfoldable pub set_buffer : BufferData Sample → Option (BufferReader Sample)
  set_buffer b =
      if ltb b.channels max_channels
      then some (record {
        buffer = b;
        channels = b.channels;
        length = b.length;
        chunk = record { start = 0; end = 0; memory = [] };
      })
      else none

  -- The chunk that holds `pos`, looked up where the reader does not hold it.
  unfoldable pub chunk_for : ℕ → BufferReader Sample → Option (BufferChunk Sample)
  chunk_for pos r =
      if leb r.chunk.start pos && ltb pos r.chunk.end then some r.chunk else get_chunk pos r.buffer

  -- readSampleI16
  unfoldable pub read_sample : ℕ → ℕ → BufferReader Sample → Option (Sample × BufferReader Sample)
  read_sample pos channel r =
      let fast = leb r.chunk.start pos && ltb pos r.chunk.end in
      if ltb channel r.channels
      then (elim (if fast then false else leb r.length pos) [
        | true ↦ some (silence, r)
        | false ↦ elim (chunk_for pos r) [
          | none ↦ none
          | some chunk ↦
              elim (get_elem? chunk.memory ((pos - chunk.start) * r.channels + channel)) [
                | none ↦ none
                | some x ↦ some (x, record r { chunk = chunk })
              ]
        ]
      ])
      else none

  -- std::copy of `n` elements from `memory + from`.
  unfoldable pub copy_out : List Sample → ℕ → ℕ → Option (List Sample)
  copy_out memory from n =
      if leb (from + n) (length memory) then some (take n (drop from memory)) else none

  -- readFrameI16, whose test at the end is `>` where the others have `>=`.
  unfoldable pub read_frame : ℕ → BufferReader Sample → Option (List Sample × BufferReader Sample)
  read_frame pos r =
      let fast = leb r.chunk.start pos && ltb pos r.chunk.end in
      elim (if fast then false else ltb r.length pos) [
        | true ↦ some (replicate r.channels silence, r)
        | false ↦ elim (chunk_for pos r) [
          | none ↦ none
          | some chunk ↦
              elim (copy_out chunk.memory ((pos - chunk.start) * r.channels) r.channels) [
                | none ↦ none
                | some frame ↦ some (frame, record r { chunk = chunk })
              ]
        ]
      ]

  unfoldable pub copy_from :
      ℕ
      → ℕ
      → BufferChunk Sample
      → BufferReader Sample
      → Option (ℕ × (List Sample × BufferChunk Sample))
  copy_from chunk_off will_copy chunk r =
      elim (copy_out chunk.memory (chunk_off * r.channels) (will_copy * r.channels)) [
        | none ↦ none
        | some copied ↦ some (will_copy, (copied, chunk))
      ]

  -- One round of readFramesI16: the frames copied, their samples, and the chunk they are from.
  unfoldable pub read_round :
      ℕ → ℕ → ℕ → BufferReader Sample → Option (ℕ × (List Sample × BufferChunk Sample))
  read_round pos count read r = elim (get_chunk (pos + read) r.buffer) [
    | none ↦ none
    | some chunk ↦
        let chunk_off = pos + read - chunk.start in
        let chunk_avail = chunk.end - chunk.start - chunk_off in
        copy_from chunk_off (min chunk_avail (sub_size count read)) chunk r
  ]

  -- The loop of readFramesI16, at most `rounds` rounds: the frames read, what was copied after
  -- `out`, and the reader.
  pub read_frames_loop :
      ℕ
      → ℕ
      → ℕ
      → ℕ
      → List Sample
      → BufferReader Sample
      → Option (ℕ × (List Sample × BufferReader Sample))
  read_frames_loop zero pos count read out r = none
  read_frames_loop (suc rounds) pos count read out r =
      if sub_size count read == 0
      then some (read, (out, r))
      else elim (read_round pos count read r) [
        | none ↦ none
        | some (will_copy, (copied, chunk)) ↦
            read_frames_loop rounds pos count (read + will_copy) (out ++ copied)
              (record r { chunk = chunk })
      ]

  unfoldable pub read_frames :
      ℕ → ℕ → BufferReader Sample → Option (ℕ × (List Sample × BufferReader Sample))
  read_frames pos count r =
      let available = min (r.length - pos) count in
      if ltb r.length pos
      then some (0, ([], r))
      else read_frames_loop (available + 1) pos available 0 [] r
