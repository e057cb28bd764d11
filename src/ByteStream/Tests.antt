-- ===== src/ByteStream/Tests.antt =====
-- Runs of the recording stream over a list of numbers.
use synthizer.Base.{
  ℕ, ◌≤◌, ◌<◌, ◌≡◌, refl, true, false, some, some-injective, List, [], ◌∷◌, length, take, drop,
  arith, length-take, subst,
}
use synthizer.ByteStream.{
  ByteStream, Lookahead, read, memory_lookahead_stream, reset_final, reset, stream_to_buffer,
}
use synthizer.ByteStream.Replay.{IsValid, remaining, reset-replays, read-uncopied}

take_bound : (n : ℕ) (s : List ℕ) → length (take n s) ≤ n
take_bound n s = omega (arith, length-take n s)

abbrev list_stream : ByteStream
list_stream = record {
  Stream = List ℕ;
  Byte = ℕ;
  read_stream = λ n s. (drop n s, take n s);
  read_bound = take_bound;
}

buffer_run : stream_to_buffer list_stream 3 (4 ∷ 5 ∷ []) ≡ some (4 ∷ 5 ∷ [])
unfolding stream_to_buffer
buffer_run = refl

-- Two blocks recorded, of which one byte was read again.
abbrev recorded_stream : Lookahead list_stream
recorded_stream = record {
  stream = [];
  blocks = (1 ∷ 2 ∷ []) ∷ (3 ∷ []) ∷ [];
  current_block = 0;
  current_block_pos = 1;
  recording = true;
}

reset_run :
    reset_final list_stream recorded_stream
    ≡ some (record recorded_stream { current_block_pos = 0; recording = false })
unfolding reset_final reset
reset_run = refl

recorded_stream-IsValid : IsValid list_stream recorded_stream
unfolding IsValid
recorded_stream-IsValid = (
  (omega arith, (omega arith, tt)),
  λ cur e. subst (λ (b : List ℕ). 1 < length b) (some-injective (1 ∷ 2 ∷ []) cur e) (omega arith),
  λ e. cc,
)

reset-replays_example :
    (s₀ : Lookahead list_stream) × (s₁ : Lookahead list_stream) × (s₂ : Lookahead list_stream)
    × (reset list_stream recorded_stream ≡ some s₀)
    × (read list_stream 1 s₀ ≡ some (1, (1 ∷ [], s₁)))
    × (read list_stream 2 s₁ ≡ some (2, (2 ∷ 3 ∷ [], s₂)))
    × (remaining list_stream s₂ ≡ [])
reset-replays_example =
    reset-replays list_stream 1 2 recorded_stream recorded_stream-IsValid refl (omega arith)

read-uncopied_example :
    (s' : Lookahead list_stream) × (read list_stream 1
        (memory_lookahead_stream list_stream (4 ∷ 5 ∷ []))
      ≡ some (2, ([], s')))
read-uncopied_example = read-uncopied list_stream 1 (4 ∷ 5 ∷ []) (omega arith) (omega arith)
