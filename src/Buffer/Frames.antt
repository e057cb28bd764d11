-- ===== src/Buffer/Frames.antt =====
-- Frames read through include/synthizer/buffer.hpp against the samples of the buffer in a row.
use synthizer.Base.{
  lt→ltb, ℕ, zero, suc, ◌+◌, ◌-◌, ◌*◌, ◌/◌, ◌%◌, ◌^◌, ◌<◌, ◌≤◌, ◌≡◌, ◌==◌, refl, ap, ap₂, sym,
  subst, ◌∙◌, false, some, List, [], ◌++◌, take, drop, min, arith, ltb_ge, append_assoc, append-nil,
  dec_le, dec_lt,
}
use synthizer.SpscRing.{sub_size}
use synthizer.Buffer.{
  BufferChunk, BufferData, BufferReader, get_chunk, copy_out, copy_from, read_round,
  read_frames_loop, read_frames,
}
use synthizer.Buffer.Slices.{IsValid, samples, slice, place, chunk_at, slice_in_chunk, slice_more}

module _ {Sample : Type 0} (silence : Sample) (chunk_size : ℕ) where
  abbrev pub Agrees : BufferReader Sample → Type 0
  Agrees r = (r.channels ≡ r.buffer.channels) × (r.length ≡ r.buffer.length)

  loop_done :
      (rounds pos count : ℕ) (out : List Sample) (r : BufferReader Sample)
      → read_frames_loop silence chunk_size (suc rounds) pos count count out r
        ≡ some (count, (out, r))
  unfolding read_frames_loop
  loop_done rounds pos count out r =
      let none_left : sub_size count count ≡ 0 = omega arith in
      rw (none_left, read_frames_loop) refl

  round_copies :
      (pos count read off n : ℕ) (copied : List Sample) (r : BufferReader Sample)
      (chunk : BufferChunk Sample)
      → get_chunk silence chunk_size (pos + read) r.buffer ≡ some chunk
      → pos + read - chunk.start ≡ off
      → min (chunk.end - chunk.start - (pos + read - chunk.start)) (sub_size count read) ≡ n
      → copy_out silence chunk_size chunk.memory (off * r.channels) (n * r.channels) ≡ some copied
      → read_round silence chunk_size pos count read r ≡ some (n, (copied, chunk))
  unfolding read_round copy_from
  round_copies pos count read off n copied r chunk e₂ e₁ e₃ e₄ =
      rw (e₂, read_round)
        (ap₂ (λ o k. copy_from silence chunk_size o k chunk r) e₁ e₃ ∙ rw (e₄, copy_from) refl)

  loop_step :
      (rounds pos count read n : ℕ) (out copied : List Sample) (r : BufferReader Sample)
      (chunk : BufferChunk Sample)
      → read < count
      → count < 2 ^ 63
      → read_round silence chunk_size pos count read r ≡ some (n, (copied, chunk))
      → read_frames_loop silence chunk_size (suc rounds) pos count read out r
        ≡ read_frames_loop silence chunk_size rounds pos count
            (read + n)
            (out ++ copied)
            (record r { chunk = chunk })
  unfolding read_frames_loop
  loop_step rounds pos count read n out copied r chunk more small e =
      let some_left : (sub_size count read == 0) ≡ false = ground arith in rw some_left (rw e refl)

  pub slice-none : (b : BufferData Sample) (pos : ℕ) → slice silence chunk_size pos 0 b ≡ []
  slice-none b pos =
      let nothing : 0 * b.channels ≡ 0 = omega arith in
      ap (λ k. take k (drop (pos * b.channels) (samples silence chunk_size b))) nothing

  loop :
      (rounds pos count read : ℕ) (out : List Sample) (r : BufferReader Sample)
      → IsValid silence chunk_size r.buffer
      → Agrees r
      → pos + count ≤ r.buffer.length
      → read ≤ count
      → count - read < rounds
      → (r' : BufferReader Sample) × (r'.buffer ≡ r.buffer)
        × Agrees r'
        × (read_frames_loop silence chunk_size rounds pos count read out r
            ≡ some
                (count, (out ++ slice silence chunk_size (pos + read) (count - read) r.buffer, r')))
  unfolding IsValid
  loop zero pos count read out r v ok h₁ h₂ h₃ = absurd (omega arith)
  loop (suc rounds) pos count read out r v ok h₁ h₂ h₃ = elim (dec_lt read count) [
    | no all ↦
        let same : read ≡ count = omega (arith, all, h₂) in
        let nothing : count - read ≡ 0 = omega (arith, all) in
        (
          r,
          refl,
          ok,
          subst
                (λ k.
                  read_frames_loop silence chunk_size (suc rounds) pos count k out r
                  ≡ some (count, (out, r)))
                (sym same) (loop_done rounds pos count out r)
              ∙ ap (λ l. some (count, (l, r)))
                  (sym (append-nil out)
                    ∙ ap (λ l. out ++ l) (sym (slice-none r.buffer (pos + read)))
                    ∙ ap (λ k. out ++ slice silence chunk_size (pos + read) k r.buffer)
                        (sym nothing)),
        )
    | yes more ↦
        let at = place silence chunk_size (pos + read) v.3 in
        let q : ℕ = (pos + read) / chunk_size in
        let off : ℕ = (pos + read) % chunk_size in
        let found = chunk_at silence chunk_size r.buffer (pos + read) v (omega (arith, h₁, more)) in
        let n : ℕ = min (min (r.buffer.length - q * chunk_size) chunk_size - off) (count - read) in
        let copies =
          slice_in_chunk silence chunk_size r.buffer (pos + read) n found.0 v found.1
            (omega (arith, at.1)) in
        let step =
          loop_step rounds pos count read n out (slice silence chunk_size (pos + read) n r.buffer) r
            _ more (omega (arith, h₁, v.2))
            (round_copies pos count read off n (slice silence chunk_size (pos + read) n r.buffer) r
              _ found.2 (omega (arith, at.0)) (omega (arith, at.0, h₁, v.2))
              (subst
                (λ c.
                  copy_out silence chunk_size found.0 (off * c) (n * c)
                  ≡ some (slice silence chunk_size (pos + read) n r.buffer))
                (sym ok.0) copies)) in
        let chunk : BufferChunk Sample = record {
          start = q * chunk_size;
          end = q * chunk_size + min (r.buffer.length - q * chunk_size) chunk_size;
          memory = found.0;
        } in
        let rest =
          loop rounds pos count (read + n) (out ++ slice silence chunk_size (pos + read) n r.buffer)
            (record r { chunk = chunk }) v ok h₁ (omega arith) (omega (arith, at, h₁, h₃, more)) in
        let whole : slice silence chunk_size (pos + read) (count - read) r.buffer
            ≡ slice silence chunk_size (pos + read) n r.buffer
              ++ slice silence chunk_size (pos + (read + n)) (count - (read + n)) r.buffer =
          ap (λ k. slice silence chunk_size (pos + read) k r.buffer) (omega arith)
          ∙ slice_more silence chunk_size r.buffer (pos + read) n (count - (read + n))
          ∙ ap
              (λ k.
                slice silence chunk_size (pos + read) n r.buffer
                ++ slice silence chunk_size k (count - (read + n)) r.buffer)
              (omega arith) in
        (
          rest.0,
          rest.1,
          rest.2,
          step
              ∙ rest.3
              ∙ ap (λ l. some (count, (l, rest.0)))
                  (append_assoc out (slice silence chunk_size (pos + read) n r.buffer)
                      (slice silence chunk_size (pos + (read + n)) (count - (read + n)) r.buffer)
                    ∙ ap (λ l. out ++ l) (sym whole)),
        )
  ]

  pub read_frames-stays :
      (pos count : ℕ) (r : BufferReader Sample)
      → IsValid silence chunk_size r.buffer
      → Agrees r
      → (r' : BufferReader Sample) × (r'.buffer ≡ r.buffer)
        × Agrees r'
        × (read_frames silence chunk_size pos count r
            ≡ some (
              min (r.buffer.length - pos) count,
              (slice silence chunk_size pos (min (r.buffer.length - pos) count) r.buffer, r'),
            ))
  unfolding read_frames
  read_frames-stays pos count r v ok = elim (dec_le pos r.buffer.length) [
    | no beyond ↦
        let nothing : min (r.buffer.length - pos) count ≡ 0 = omega (arith, beyond) in
        (
          r,
          refl,
          ok,
          rw (lt→ltb r.length pos (omega (arith, beyond, ok.1)))
              (rw nothing (ap (λ l. some (0, (l, r))) (sym (slice-none r.buffer pos)))),
        )
    | yes within ↦
        let n = min (r.buffer.length - pos) count in
        let result =
          loop (n + 1) pos n 0 [] r v ok (omega (arith, within)) (omega arith) (omega arith) in
        let from_start : slice silence chunk_size (pos + 0) (n - 0) r.buffer
            ≡ slice silence chunk_size pos n r.buffer =
          ap₂ (λ p k. slice silence chunk_size p k r.buffer) (omega arith) (omega arith) in
        (
          result.0,
          result.1,
          result.2,
          rw (ltb_ge r.length pos (omega (arith, within, ok.1))) (
              ap
                (λ l.
                  read_frames_loop silence chunk_size (min (l - pos) count + 1) pos
                    (min (l - pos) count) 0 [] r)
                ok.1
              ∙ result.3
              ∙ ap (λ l. some (n, (l, result.0))) from_start),
        )
  ]

  -- In a valid buffer, a reader set to it reads, from any frame and for any count, exactly the
  -- samples of the frames from there on: as many as were asked for, or those up to the end of the
  -- buffer. It never reads out of bounds, and it stays a reader of the same buffer.
  pub read_frames-eq-slice :
      (pos count : ℕ) (r : BufferReader Sample)
      → IsValid silence chunk_size r.buffer
      → Agrees r
      → (r' : BufferReader Sample) × (r'.buffer ≡ r.buffer)
        × (read_frames silence chunk_size pos count r
            ≡ some (
              min (r.buffer.length - pos) count,
              (slice silence chunk_size pos (min (r.buffer.length - pos) count) r.buffer, r'),
            ))
  read_frames-eq-slice pos count r v ok =
      let (r', same, agrees, e) = read_frames-stays pos count r v ok in (r', same, e)
