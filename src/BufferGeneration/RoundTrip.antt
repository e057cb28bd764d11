-- ===== src/BufferGeneration/RoundTrip.antt =====
-- A buffer that src/buffer.cpp makes, read through include/synthizer/buffer.hpp.
use synthizer.Base.{
  ℕ, ◌+◌, ◌-◌, ◌*◌, ◌^◌, ◌<◌, ◌≤◌, ◌≡◌, refl, ap, ap₂, sym, subst, ◌∙◌, false, some, List, [],
  length, replicate, take, drop, min, All, concat, ltb_ge, lt→ltb, ◌==◌, if◌then◌else◌, arith,
  length-drop, take-first, drop-first, dec_le,
}
use synthizer.Buffer.{BufferData, BufferReader, read_frames, set_buffer, max_channels}
use synthizer.Buffer.Slices.{IsValid, slice}
use synthizer.Buffer.Frames.{Agrees, read_frames-eq-slice}
use synthizer.BufferGeneration
use synthizer.BufferGeneration.{
  built, Produced, produce_at, quantize_all, generate_loop, check_length, generate_buffer_data,
}
use synthizer.Context.{sample_rate}
use synthizer.BufferGeneration.Chunks.{Serves, Holds, generate_loop-Holds, length-quantize_all}
use native.Mathlib.Nat.{mul-le-mul_right}

module _ {State Real Sample : Type 0} (silence : Sample) (chunk_size : ℕ)
    (quantize : ℕ → Real → Sample) (producer : State → ℕ → State × ℕ × List Real) (channels : ℕ)
    (rest : State → List Real) (serves : Serves channels producer rest) where
  open serves use {frames, whole}

  Holds-IsValid :
      (s : State) (b : BufferData Sample)
      → Holds silence chunk_size quantize producer channels rest serves s [] 0 0 b
      → 0 < chunk_size
      → frames s < 2 ^ 63
      → IsValid silence chunk_size b
  unfolding IsValid
  Holds-IsValid s b h h₀ small = (
    subst (λ c. All (λ (xs : List Sample). length xs ≡ c * chunk_size) b.chunks)
        (sym h.same_channels)
        (subst (All (λ (xs : List Sample). length xs ≡ channels * chunk_size)) (sym h.joined)
          h.wide),
    subst (λ l. b.length ≤ length l * chunk_size) (sym h.joined)
        (omega (arith, h.longer, h.enough)),
    omega (arith, h.longer),
    h₀,
  )

  Holds-slice :
      (s : State) (b : BufferData Sample) (pos n : ℕ)
      → Holds silence chunk_size quantize producer channels rest serves s [] 0 0 b
      → pos + n ≤ frames s
      → slice silence chunk_size pos n b
        ≡ take (n * channels) (drop (pos * channels) (quantize_all quantize 0 (rest s)))
  Holds-slice s b pos n h fits =
      let stream : List Sample = quantize_all quantize 0 (rest s) in
      let pad : List Sample = replicate h.padding silence in
      let size : length stream ≡ frames s * channels =
        length-quantize_all quantize 0 (rest s) ∙ whole s in
      let bound : (pos + n) * channels ≤ frames s * channels = mul-le-mul_right channels fits in
      let parts : (pos + n) * channels ≡ pos * channels + n * channels = omega arith in
      ap (λ c. take (n * c) (drop (pos * c) (concat b.chunks))) h.same_channels
      ∙ ap (λ l. take (n * channels) (drop (pos * channels) l)) (ap concat h.joined ∙ h.held)
      ∙ ap (take (n * channels))
          (drop-first (pos * channels) stream pad (omega (arith, size, bound, parts)))
      ∙ take-first (n * channels) (drop (pos * channels) stream) pad
          (omega (arith, length-drop (pos * channels) stream, size, bound, parts))

  Holds-part :
      (s : State) (b : BufferData Sample) (pos count : ℕ)
      → Holds silence chunk_size quantize producer channels rest serves s [] 0 0 b
      → slice silence chunk_size pos (min (b.length - pos) count) b
        ≡ take
            (min (frames s - pos) count * channels)
            (drop (pos * channels) (quantize_all quantize 0 (rest s)))
  Holds-part s b pos count h =
      let same : min (b.length - pos) count ≡ min (frames s - pos) count =
        omega (arith, h.longer) in
      ap (λ k. slice silence chunk_size pos k b) same ∙ elim (dec_le pos (frames s)) [
        | yes within ↦ Holds-slice s b pos (min (frames s - pos) count) h (omega (arith, within))
        | no beyond ↦
            let nothing : min (frames s - pos) count ≡ 0 = omega (arith, beyond) in
            let zero_frames : (w : ℕ) → 0 * w ≡ 0 = λ w. omega arith in
            ap (λ k. slice silence chunk_size pos k b) nothing
            ∙ ap (λ k. take k (drop (pos * b.channels) (concat b.chunks))) (zero_frames b.channels)
            ∙ sym (
                ap (λ k. take k (drop (pos * channels) (quantize_all quantize 0 (rest s))))
                  (ap (λ k. k * channels) nothing ∙ zero_frames channels))
      ]

  -- A buffer of a stream at the rate of the library, and a reader set to it.
  unfoldable pub BuiltFrom : (State → Produced State Real) → State → ℕ → Type 0
  BuiltFrom resampled s rounds =
      (b : BufferData Sample) × (r : BufferReader Sample) × (generate_buffer_data silence chunk_size
          quantize (produce_at chunk_size sample_rate resampled producer) rounds channels s
        ≡ some (built b))
      × (b.length ≡ frames s)
      × IsValid silence chunk_size b
      × (set_buffer silence chunk_size b ≡ some r)
      × ((pos count : ℕ)
          → (r' : BufferReader Sample) × (r'.buffer ≡ b)
            × (read_frames silence chunk_size pos count r
                ≡ some (
                  min (frames s - pos) count,
                  (
                    take (min (frames s - pos) count * channels)
                        (drop (pos * channels) (quantize_all quantize 0 (rest s))),
                    r',
                  ),
                )))

  reader_of : BufferData Sample → BufferReader Sample
  reader_of b = record {
    buffer = b;
    channels = b.channels;
    length = b.length;
    chunk = record { start = 0; end = 0; memory = [] };
  }

  set_buffer-reader_of :
      (b : BufferData Sample)
      → b.channels < max_channels
      → set_buffer silence chunk_size b ≡ some (reader_of b)
  unfolding set_buffer reader_of
  set_buffer-reader_of b h = rw (lt→ltb b.channels max_channels h) refl

  reads_back :
      (s : State) (b : BufferData Sample) (pos count : ℕ) (r : BufferReader Sample)
      → Holds silence chunk_size quantize producer channels rest serves s [] 0 0 b
      → IsValid silence chunk_size b
      → r.buffer ≡ b
      → Agrees silence chunk_size r
      → (r' : BufferReader Sample) × (r'.buffer ≡ b)
        × (read_frames silence chunk_size pos count r
            ≡ some (
              min (frames s - pos) count,
              (
                take
                    (min (frames s - pos) count * channels)
                    (drop (pos * channels) (quantize_all quantize 0 (rest s))),
                r',
              ),
            ))
  reads_back s b pos count r h v same ok =
      let (r', same', e) =
        read_frames-eq-slice silence chunk_size pos count r
          (subst (IsValid silence chunk_size) (sym same) v) ok in
      (
        r',
        same' ∙ same,
        e
            ∙ ap
                (λ (c : BufferData Sample). some (
                  min (c.length - pos) count,
                  (slice silence chunk_size pos (min (c.length - pos) count) c, r'),
                ))
                same
            ∙ ap₂ (λ k l. some (k, (l, r'))) (omega (arith, h.longer)) (Holds-part s b pos count h),
      )

  -- At the sample rate of the library, so that there is no resampler: a stream of a positive number
  -- of frames below 2^63, with fewer than 16 channels, from a producer that serves it in the chunks
  -- asked for, is made into a buffer without a fault in as many rounds as its frames need chunks and
  -- one more. The buffer has exactly its frames, a reader can be set to it, and what is read through
  -- that from any frame on is the stream, quantized sample by sample, as far as it goes.
  pub generate_buffer_data-BuiltFrom :
      (resampled : State → Produced State Real) (s : State) (rounds : ℕ)
      → 0 < chunk_size
      → channels < max_channels
      → 0 < frames s
      → frames s < 2 ^ 63
      → frames s < rounds * chunk_size
      → BuiltFrom resampled s rounds
  unfolding generate_buffer_data check_length BuiltFrom reader_of produce_at
  generate_buffer_data-BuiltFrom resampled s rounds h₀ h₁ h₂ h₃ h₄ =
      let (b, e, held) =
        generate_loop-Holds silence chunk_size quantize producer channels rest serves rounds s [] 0
          0 h₄ in
      let valid : IsValid silence chunk_size b = Holds-IsValid s b held h₀ h₃ in
      let nonempty : (b.length == 0) ≡ false =
        let size : b.length ≡ 0 + frames s = held.longer in ground arith in
      (
        b,
        reader_of b,
        rw (ltb_ge max_channels channels (omega (arith, h₁))) (
            rw (e, generate_buffer_data)
              (ap
                (λ c.
                  some
                    (if c then BufferGeneration.throws BufferGeneration.zero_length else built b))
                nonempty)),
        held.longer ∙ omega arith,
        valid,
        set_buffer-reader_of b (omega (arith, held.same_channels, h₁)),
        λ pos count. reads_back s b pos count (reader_of b) held valid refl (refl, refl),
      )
