-- ===== src/RawDecoder/Split.antt =====
-- Reads of src/decoders/raw_decoder.cpp in parts.
use synthizer.Base.{
  ℕ, zero, suc, ◌+◌, ◌-◌, ◌*◌, ◌≤◌, ◌≡◌, refl, ap, sym, ◌∙◌, inl, inr, List, [], ◌++◌, take, drop,
  replicate, ltb, ◌==◌, arith, Bool-cases, take-split, drop-split, append_assoc, append-nil, dec_lt,
  leb_lt, le→leb, ltb_ge,
}
use synthizer.RawDecoder.{
  RawDecoder, each_frame, channels_out, frames_out, write_samples_interleaved,
}

module _ {Sample : Type 0} (silence : Sample) where
  each_frame-split :
      (convert : List Sample → List Sample) (ch : ℕ) (xs : List Sample) (a b at : ℕ)
      → each_frame silence convert ch xs (a + b) at
        ≡ each_frame silence convert ch xs a at ++ each_frame silence convert ch xs b (at + a)
  each_frame-split convert ch xs zero b at =
      let n : 0 + b ≡ b = omega arith in let from : at + 0 ≡ at = omega arith in rw (n, from) refl
  each_frame-split convert ch xs (suc a) b at =
      let n : suc a + b ≡ suc (a + b) = omega arith in
      let from : at + suc a ≡ at + 1 + a = omega arith in
      let first = convert (take ch (drop (at * ch) xs)) in
      rw (n, from)
        (ap (λ l. first ++ l) (each_frame-split convert ch xs a b (at + 1))
          ∙ sym (
              append_assoc first (each_frame silence convert ch xs a (at + 1))
                (each_frame silence convert ch xs b (at + 1 + a))))

  -- The decoder after `n` frames.
  abbrev pub after : ℕ → RawDecoder Sample → RawDecoder Sample
  after n d = record d { position_in_frames = d.position_in_frames + n }

  frames_out-split :
      (out a b : ℕ) (d : RawDecoder Sample)
      → frames_out silence out (a + b) d
        ≡ frames_out silence out a d ++ frames_out silence out b (after a d)
  unfolding frames_out
  frames_out-split out a b d =
      let ch = d.channels in
      let at = d.position_in_frames in
      elim (Bool-cases (out == ch)) [
        | inl same ↦ rw same (
            take-split ((a + b) * ch) (a * ch) (b * ch) (drop (at * ch) d.samples) (omega arith)
            ∙ ap (λ l. take (a * ch) (drop (at * ch) d.samples) ++ take (b * ch) l)
                (sym (drop-split ((at + a) * ch) (at * ch) (a * ch) d.samples (omega arith))))
        | inr other ↦ elim (Bool-cases (ltb ch out)) [
          | inl wide ↦
              rw (other, wide)
                (each_frame-split (λ frame. frame ++ replicate (out - ch) silence) ch d.samples a b
                  at)
          | inr narrow ↦ rw (other, narrow) (each_frame-split (take out) ch d.samples a b at)
        ]
      ]

  frames_out-none : (out : ℕ) (d : RawDecoder Sample) → frames_out silence out 0 d ≡ []
  unfolding frames_out
  frames_out-none out d =
      let nothing : 0 * d.channels ≡ 0 = omega arith in
      elim (Bool-cases (out == d.channels)) [
        | inl same ↦
            rw same (ap (λ k. take k (drop (d.position_in_frames * d.channels) d.samples)) nothing)
        | inr other ↦
            rw other
              (elim (Bool-cases (ltb d.channels out)) [ inl w ↦ rw w refl | inr w ↦ rw w refl ])
      ]

  -- A read of frames that are there.
  write-within :
      (num chans : ℕ) (d : RawDecoder Sample)
      → d.position_in_frames + num ≤ d.frames
      → write_samples_interleaved silence num chans d
        ≡ (num, (frames_out silence (channels_out silence chans d) num d, after num d))
  unfolding write_samples_interleaved
  write-within num chans d h = elim (dec_lt d.position_in_frames d.frames) [
    | yes more ↦
        let out = channels_out silence chans d in
        let none_left : num - num ≡ 0 = omega arith in
        let none_filled : 0 * out ≡ 0 = omega arith in
        let nothing : (num - num) * out ≡ 0 = ap (λ k. k * out) none_left ∙ none_filled in
        rw (leb_lt d.frames d.position_in_frames more) (
          rw (ltb_ge (d.frames - d.position_in_frames) num (omega (arith, h))) (
            ap (λ l. (num, (l, after num d)))
              (ap (λ k. frames_out silence out num d ++ replicate k silence) nothing
                ∙ append-nil (frames_out silence out num d))))
    | no ended ↦
        let none_asked : 0 ≡ num = omega (arith, ended, h) in
        let still : d.position_in_frames ≡ d.position_in_frames + 0 = omega arith in
        rw (le→leb d.frames d.position_in_frames (omega (arith, ended))) (
          ap (λ k. (0, ([], record d { position_in_frames = k }))) still
          ∙ ap (λ l. (0, (l, after 0 d))) (sym (frames_out-none (channels_out silence chans d) d))
          ∙ ap (λ k. (k, (frames_out silence (channels_out silence chans d) k d, after k d)))
              none_asked)
  ]

  -- Where the frames are there, reading `a` frames and then `b` frames, for any number of channels,
  -- gives the samples of reading both at once, in order, counts all of them, and leaves the decoder
  -- at the same place.
  pub write_samples_interleaved-split :
      (a b chans : ℕ) (d : RawDecoder Sample)
      → d.position_in_frames + (a + b) ≤ d.frames
      → (xs ys : List Sample) × (d₁ d₂ : RawDecoder Sample) × (write_samples_interleaved silence a
            chans d
          ≡ (a, (xs, d₁)))
        × (write_samples_interleaved silence b chans d₁ ≡ (b, (ys, d₂)))
        × (write_samples_interleaved silence (a + b) chans d ≡ (a + b, (xs ++ ys, d₂)))
  write_samples_interleaved-split a b chans d h =
      let out = channels_out silence chans d in
      let ends : after (a + b) d ≡ after b (after a d) =
        ap (λ k. record d { position_in_frames = k }) (omega arith) in
      (
        frames_out silence out a d,
        frames_out silence out b (after a d),
        after a d,
        after b (after a d),
        write-within a chans d (omega (arith, h)),
        write-within b chans (after a d) (omega (arith, h)),
        write-within (a + b) chans d h
            ∙ ap (λ l. (a + b, (l, after (a + b) d))) (frames_out-split out a b d)
            ∙ ap
                (λ e.
                  (a + b, (frames_out silence out a d ++ frames_out silence out b (after a d), e)))
                ends,
      )
