-- ===== src/ByteStream.antt =====
-- src/byte_stream.cpp: a stream that records what it has read, so that it can be reset, and the
-- reading of a whole stream.
pub mod Replay
mod Tests
use synthizer.Base.{
  ℕ, zero, suc, ◌+◌, ◌-◌, ◌≡◌, ◌≤◌, Bool, true, false, Option, none, some, List, [], ◌∷◌, ◌++◌,
  length, get_elem?, take, drop, ltb, ◌==◌, min, if◌then◌else◌,
}

-- What the code uses of a ByteStream: `read` gives at most as many bytes as were asked for.
pub record ByteStream : Type 1 where
  pub Stream : Type 0
  pub Byte : Type 0
  pub read_stream : ℕ → Stream → Stream × List Byte
  pub read_bound : (count : ℕ) (s : Stream) → length (read_stream count s).1 ≤ count

abbrev pub lookahead_block_size : ℕ
lookahead_block_size = 1024

-- `block_size` of byteStreamToBuffer.
abbrev pub buffer_block_size : ℕ
buffer_block_size = 8192

module _ (bs : ByteStream) where
  open bs use {Stream, Byte, read_stream}

  -- A MemoryLookaheadStream; a block is the bytes that were read into it.
  pub record Lookahead : Type 0 where
    pub stream : Stream
    pub blocks : List (List Byte)
    pub current_block : ℕ
    pub current_block_pos : ℕ
    pub recording : Bool

  abbrev pub memory_lookahead_stream : Stream → Lookahead
  memory_lookahead_stream stream = record {
    stream = stream;
    blocks = [];
    current_block = 0;
    current_block_pos = 0;
    recording = true;
  }

  -- How a round of the loop of `read` ends, with what was counted, what was copied to the
  -- destination, and the stream: by a return or a break, or by going on.
  pub data Round : Type 0 where
    stops : ℕ → List Byte → Lookahead → Round
    goes_on : ℕ → List Byte → Lookahead → Round

  abbrev pub copied_to : ℕ → List Byte → Lookahead → Lookahead
  copied_to pos cur s =
      if pos == length cur
      then record s { current_block = s.current_block + 1; current_block_pos = 0 }
      else record s { current_block_pos = pos }

  -- The block that was just read, at its end.
  abbrev pub recorded : ℕ → List Byte → Lookahead → Stream → List Byte → Round
  recorded got out s stream [] = stops got out (record s { stream = stream })
  recorded got out s stream (b ∷ bytes) =
      goes_on (got + length (b ∷ bytes)) out (record s {
        stream = stream;
        blocks = s.blocks ++ ((b ∷ bytes) ∷ []);
        current_block_pos = 0;
      })

  unfoldable pub lookahead_round : ℕ → ℕ → List Byte → Lookahead → Round
  lookahead_round count got out s = elim (get_elem? s.blocks s.current_block) [
    | some cur ↦
        let needed = min (count - got) (length cur - s.current_block_pos) in
        goes_on (got + needed) (out ++ take needed (drop s.current_block_pos cur))
          (copied_to (s.current_block_pos + needed) cur s)
    | none ↦
        let fresh = read_stream (count - got) s.stream in
        let block = read_stream lookahead_block_size s.stream in
        if s.recording
        then recorded got out s block.0 block.1
        else stops (got + length fresh.1) (out ++ fresh.1) (record s { stream = fresh.0 })
  ]

  pub read_loop : ℕ → ℕ → ℕ → List Byte → Lookahead → Option (ℕ × (List Byte × Lookahead))
  read_loop zero count got out s = none
  read_loop (suc rounds) count got out s =
      if ltb got count
      then elim (lookahead_round count got out s) [
        | stops got' out' s' ↦ some (got', (out', s'))
        | goes_on got' out' s' ↦ read_loop rounds count got' out' s'
      ]
      else some (got, (out, s))

  -- What `read` returns, what it copied to the destination, and the stream. Every round but the
  -- last counts a byte.
  unfoldable pub read : ℕ → Lookahead → Option (ℕ × (List Byte × Lookahead))
  read count s = read_loop (count + 1) count 0 [] s

  -- `none` is the failed assertion.
  unfoldable pub reset : Lookahead → Option Lookahead
  reset s =
      if s.recording then some (record s { current_block = 0; current_block_pos = 0 }) else none

  unfoldable pub reset_final : Lookahead → Option Lookahead
  reset_final s = elim (reset s) [ none ↦ none | some s' ↦ some (record s' { recording = false }) ]

  -- byteStreamToBuffer, at most `rounds` rounds of its loop: the bytes of every block read.
  unfoldable pub stream_to_buffer : ℕ → Stream → Option (List Byte)
  stream_to_buffer zero s = none
  stream_to_buffer (suc rounds) s =
      let (s', bytes) = read_stream buffer_block_size s in
      let rest = stream_to_buffer rounds s' in
      elim bytes [
        | [] ↦ some []
        | b ∷ more ↦ elim rest [ none ↦ none | some all ↦ some ((b ∷ more) ++ all) ]
      ]
