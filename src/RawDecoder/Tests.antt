-- ===== src/RawDecoder/Tests.antt =====
-- Runs of the decoder on two stereo frames.
use synthizer.Base.{ℕ, ◌≡◌, refl, List, [], ◌∷◌, ◌++◌, arith}
use synthizer.RawDecoder.{RawDecoder, raw_decoder, write_samples_interleaved, frames_out, seek_pcm}
use synthizer.RawDecoder.Split.{write_samples_interleaved-split}

abbrev stereo : RawDecoder ℕ
stereo = raw_decoder 0 44100 2 2 (1 ∷ 2 ∷ 3 ∷ 4 ∷ [])

-- One channel was asked for, and both are written.
not_truncated : (write_samples_interleaved 0 1 1 stereo).1.0 ≡ 1 ∷ 2 ∷ []
unfolding write_samples_interleaved frames_out
not_truncated = refl

widened : (write_samples_interleaved 0 2 3 (seek_pcm 0 1 stereo)).1.0 ≡ 3 ∷ 4 ∷ 0 ∷ 0 ∷ 0 ∷ 0 ∷ []
unfolding write_samples_interleaved frames_out
widened = refl

write_samples_interleaved-split_example :
    (xs ys : List ℕ) × (d₁ d₂ : RawDecoder ℕ) × (write_samples_interleaved 0 1 3 stereo
      ≡ (1, (xs, d₁)))
    × (write_samples_interleaved 0 1 3 d₁ ≡ (1, (ys, d₂)))
    × (write_samples_interleaved 0 2 3 stereo ≡ (2, (xs ++ ys, d₂)))
write_samples_interleaved-split_example =
    write_samples_interleaved-split 0 1 1 3 stereo (omega arith)
