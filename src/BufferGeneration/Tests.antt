-- ===== src/BufferGeneration/Tests.antt =====
-- A buffer of a stereo stream of three frames, in chunks of two.
use synthizer.Base.{
  true, ℕ, ◌+◌, ◌*◌, ◌≡◌, refl, some, List, [], ◌∷◌, length, take, drop, min, arith, length-drop,
}
use synthizer.BufferGeneration.{
  built, throws, zero_length, too_many_channels, produce_directly, generate_buffer_data,
}
use synthizer.BufferGeneration.Chunks.{Serves}
use synthizer.BufferGeneration.RoundTrip.{BuiltFrom, generate_buffer_data-BuiltFrom}

-- A mono stream is the list of what is left of it.
abbrev serve : List ℕ → ℕ → List ℕ × ℕ × List ℕ
serve xs n = (drop n xs, min n (length xs), take n xs)

-- The dither is the place of the sample.
abbrev quantize : ℕ → ℕ → ℕ
quantize i x = x + i

one : (n : ℕ) → n * 1 ≡ n
one n = omega arith

served : Serves 1 serve (λ xs. xs)
served = record {
  frames = length;
  whole = λ s. omega arith;
  writes = λ s n. (refl, rw (one n) refl);
  moves = λ s n. (rw (one n) refl, length-drop n s);
}

generate_run :
    generate_buffer_data 0 2 quantize (produce_directly 2 serve) 3 1 (10 ∷ 20 ∷ 30 ∷ [])
    ≡ some
        (built (record { channels = 1; length = 3; chunks = (10 ∷ 21 ∷ []) ∷ (32 ∷ 0 ∷ []) ∷ [] }))
unfolding generate_buffer_data produce_directly
generate_run = refl

generate_empty :
    generate_buffer_data 0 2 quantize (produce_directly 2 serve) 3 1 [] ≡ some (throws zero_length)
unfolding generate_buffer_data produce_directly
generate_empty = refl

generate_wide :
    generate_buffer_data 0 2 quantize (produce_directly 2 serve) 3 17 []
    ≡ some (throws too_many_channels)
unfolding generate_buffer_data
generate_wide = refl

generate_buffer_data-BuiltFrom_example :
    BuiltFrom 0 2 quantize serve 1
      (λ xs. xs)
      served
      (λ xs. record { state = []; next_chunk_len = 0; working_buf = []; last = true })
      (10 ∷ 20 ∷ 30 ∷ [])
      3
unfolding served
generate_buffer_data-BuiltFrom_example =
    generate_buffer_data-BuiltFrom 0 2 quantize serve 1 (λ xs. xs) served
      (λ xs. record { state = []; next_chunk_len = 0; working_buf = []; last = true })
      (10 ∷ 20 ∷ 30 ∷ []) 3 (omega arith) (omega arith) (omega arith) (omega arith) (omega arith)
