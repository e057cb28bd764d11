-- ===== src/Buffer/Slices.antt =====
-- The samples of a buffer of include/synthizer/buffer.hpp in a row, and the parts of them in one chunk.
use synthizer.Base.{
  All-get_elem?, ℕ, zero, suc, ◌+◌, ◌-◌, ◌*◌, ◌/◌, ◌%◌, ◌^◌, ◌<◌, ◌≤◌, ◌≡◌, refl, ap, sym, ◌∙◌,
  some, List, [], ◌∷◌, ◌++◌, length, get_elem?, take, drop, min, All, concat, arith, length-drop,
  drop-concat, take-split, drop-split, take-first, drop-first, le→leb, dec_lt,
}
use synthizer.SpscRing.{sub_size}
use synthizer.Buffer.{BufferData, get_chunk, copy_out}
use native.Mathlib.Nat.{div-add-mod, mod-lt, mul_comm, mul-le-mul_right}

module _ {Sample : Type 0} (silence : Sample) (chunk_size : ℕ) where
  -- Every chunk has room for `chunk_size` frames, and the chunks hold every frame.
  unfoldable pub IsValid : BufferData Sample → Type 0
  IsValid b =
      All (λ (xs : List Sample). length xs ≡ b.channels * chunk_size) b.chunks
      × (b.length ≤ length b.chunks * chunk_size)
      × (b.length < 2 ^ 63)
      × (0 < chunk_size)

  -- The samples of the buffer in a row, the silence after its end included.
  abbrev pub samples : BufferData Sample → List Sample
  samples b = concat b.chunks

  -- The frames from `pos` on, `count` of them.
  abbrev pub slice : ℕ → ℕ → BufferData Sample → List Sample
  slice pos count b = take (count * b.channels) (drop (pos * b.channels) (samples b))

  get_elem?-below :
      (xss : List (List Sample)) (k : ℕ)
      → k < length xss
      → (xs : List Sample) × (get_elem? xss k ≡ some xs)
  get_elem?-below [] k h = absurd (omega arith)
  get_elem?-below (y ∷ ys) zero h = (y, refl)
  get_elem?-below (y ∷ ys) (suc k) h = get_elem?-below ys k (omega arith)

  -- A frame number as a chunk and a place in it.
  pub place :
      (pos : ℕ)
      → 0 < chunk_size
      → (pos / chunk_size * chunk_size + pos % chunk_size ≡ pos) × (pos % chunk_size < chunk_size)
  place pos h = (
    omega (arith, div-add-mod pos chunk_size, mul_comm chunk_size (pos / chunk_size)),
    mod-lt pos h,
  )

  chunk_below : (q n pos : ℕ) → q * chunk_size ≤ pos → pos < n * chunk_size → q < n
  chunk_below q n pos h₁ h₂ = elim (dec_lt q n) [
    | yes lt ↦ lt
    | no ge ↦
        absurd
          (omega (arith, h₁, h₂, mul-le-mul_right {m = n} {n = q} chunk_size (omega (arith, ge))))
  ]

  -- What getChunk finds for a frame of the buffer.
  pub chunk_at :
      (b : BufferData Sample) (pos : ℕ)
      → IsValid b
      → pos < b.length
      → (memory : List Sample) × (get_elem? b.chunks (pos / chunk_size) ≡ some memory)
        × (get_chunk silence chunk_size pos b
            ≡ some (record {
              start = pos / chunk_size * chunk_size;
              end =
                  pos / chunk_size * chunk_size
                  + min (b.length - pos / chunk_size * chunk_size) chunk_size;
              memory = memory;
            }))
  unfolding IsValid get_chunk
  chunk_at b pos v h =
      let at = place pos v.3 in
      let found = get_elem?-below b.chunks (pos / chunk_size) (
        chunk_below (pos / chunk_size) (length b.chunks) pos (omega (arith, at.0))
          (omega (arith, v.1, h))) in
      let room : sub_size b.length (pos / chunk_size * chunk_size)
          ≡ b.length - pos / chunk_size * chunk_size =
        omega (arith, v.2, h, at.0) in
      (found.0, found.1, rw (found.1, get_chunk) (rw room refl))

  -- A slice within one chunk.
  pub slice_in_chunk :
      (b : BufferData Sample) (pos n : ℕ) (memory : List Sample)
      → IsValid b
      → get_elem? b.chunks (pos / chunk_size) ≡ some memory
      → pos % chunk_size + n ≤ chunk_size
      → copy_out silence chunk_size memory (pos % chunk_size * b.channels) (n * b.channels)
        ≡ some (slice pos n b)
  unfolding IsValid copy_out
  slice_in_chunk b pos n memory v e fits =
      let w = b.channels * chunk_size in
      let q = pos / chunk_size in
      let off = pos % chunk_size * b.channels in
      let wide : length memory ≡ w =
        All-get_elem? (λ (xs : List Sample). length xs ≡ b.channels * chunk_size) b.chunks q memory
          v.0 e in
      let in_chunk : off + n * b.channels ≤ w = omega (arith, mul-le-mul_right b.channels fits) in
      let distributes : (q * chunk_size + pos % chunk_size) * b.channels ≡ q * w + off =
        omega arith in
      let split : pos * b.channels ≡ q * w + off =
        ap (λ k. k * b.channels) (sym (place pos v.3).0) ∙ distributes in
      let found : drop (pos * b.channels) (samples b)
          ≡ drop off memory ++ concat (drop (suc q) b.chunks) =
        drop-split (pos * b.channels) (q * w) off (samples b) split
        ∙ ap (drop off) (drop-concat w q b.chunks memory v.0 e)
        ∙ drop-first off memory (concat (drop (suc q) b.chunks)) (omega (arith, in_chunk, wide)) in
      rw (le→leb (off + n * b.channels) (length memory) (omega (arith, in_chunk, wide))) (
        ap some (
          sym (
            ap (take (n * b.channels)) found
            ∙ take-first (n * b.channels) (drop off memory) (concat (drop (suc q) b.chunks))
                (omega (arith, length-drop off memory, in_chunk, wide)))))

  pub slice_more :
      (b : BufferData Sample) (pos a c : ℕ)
      → slice pos (a + c) b ≡ slice pos a b ++ slice (pos + a) c b
  slice_more b pos a c =
      let ch = b.channels in
      take-split ((a + c) * ch) (a * ch) (c * ch) (drop (pos * ch) (samples b)) (omega arith)
      ∙ ap (λ l. slice pos a b ++ take (c * ch) l)
          (sym (drop-split ((pos + a) * ch) (pos * ch) (a * ch) (samples b) (omega arith)))
