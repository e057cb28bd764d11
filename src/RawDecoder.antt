-- ===== src/RawDecoder.antt =====
-- src/decoders/raw_decoder.cpp: frames of samples that are already in memory.
pub mod Split
mod Tests
use synthizer.Base.{
  ℕ, zero, suc, ◌+◌, ◌-◌, ◌*◌, Bool, true, false, List, [], ◌∷◌, ◌++◌, take, drop, replicate, ltb,
  leb, ◌==◌, if◌then◌else◌,
}

pub record RawDecoder (Sample : Type 0) : Type 0 where
  pub samples : List Sample
  pub frames : ℕ
  pub channels : ℕ
  pub sr : ℕ
  pub position_in_frames : ℕ

module _ {Sample : Type 0} (silence : Sample) where
  abbrev pub raw_decoder : ℕ → ℕ → ℕ → List Sample → RawDecoder Sample
  raw_decoder sr channels frames samples = record {
    samples = samples;
    frames = frames;
    channels = channels;
    sr = sr;
    position_in_frames = 0;
  }

  -- A loop over frames that converts each of them: `n` frames from the frame `at` on.
  abbrev pub each_frame : (List Sample → List Sample) → ℕ → List Sample → ℕ → ℕ → List Sample
  each_frame convert channels samples zero at = []
  each_frame convert channels samples (suc n) at =
      convert (take channels (drop (at * channels) samples))
      ++ each_frame convert channels samples n (at + 1)

  abbrev pub channels_out : ℕ → RawDecoder Sample → ℕ
  channels_out chans d =
      let asked = if chans == 0 then d.channels else chans in
      if ltb asked d.channels then d.channels else asked

  -- The three ways to copy `will_read` frames from the position on.
  unfoldable pub frames_out : ℕ → ℕ → RawDecoder Sample → List Sample
  frames_out out will_read d =
      if out == d.channels
      then take (will_read * d.channels) (drop (d.position_in_frames * d.channels) d.samples)
      else if ltb d.channels out
      then each_frame (λ frame. frame ++ replicate (out - d.channels) silence) d.channels d.samples
          will_read d.position_in_frames
      else each_frame (take out) d.channels d.samples will_read d.position_in_frames

  -- writeSamplesInterleaved: what it returns, what it writes to `samples`, and the decoder.
  unfoldable pub write_samples_interleaved :
      ℕ → ℕ → RawDecoder Sample → ℕ × (List Sample × RawDecoder Sample)
  write_samples_interleaved num chans d =
      let remaining_frames = d.frames - d.position_in_frames in
      let will_read = if ltb remaining_frames num then remaining_frames else num in
      let out = channels_out chans d in
      let d' : RawDecoder Sample = record d {
        position_in_frames = d.position_in_frames + will_read;
      } in
      if leb d.frames d.position_in_frames then (0, ([], d)) else (
        will_read,
        (frames_out out will_read d ++ replicate ((num - will_read) * out) silence, d'),
      )

  abbrev pub seek_pcm : ℕ → RawDecoder Sample → RawDecoder Sample
  seek_pcm frame d = record d { position_in_frames = frame }
