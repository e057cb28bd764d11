-- ===== src/BufferGenerator/Blocks.antt =====
-- src/generators/buffer.cpp without looping: many blocks of one buffer.
use synthizer.Base.{ℕ, length, ◌∷◌, ◌+◌, ◌-◌, false, Option, none, some, List, [], ◌++◌, min}
use synthizer.Float.{Float}
use synthizer.Buffer.{BufferData}
use synthizer.Buffer.Floats.{floats}
use synthizer.Fader.{add32, block_size, FadeDriver, drive}
use synthizer.BufferGenerator.{BufferGenerator, PlaybackEvent, generate_block, add_with_gain}

module _ (fl : Float) {Sample : Type 0} (silence : Sample) (chunk_size : ℕ)
    (of_sample : Sample → fl.Real) where
  -- Calls of generateBlock in successive blocks, one for each of the outputs: what they make of
  -- the outputs, and the events they send.
  abbrev pub play_blocks :
      ℕ
      → BufferData Sample
      → FadeDriver fl
      → List (List fl.Real)
      → BufferGenerator Sample
      → Option (BufferGenerator Sample × List (List fl.Real) × List PlaybackEvent)
  play_blocks time b gd [] g = some (g, [], [])
  play_blocks time b gd (output ∷ outputs) g =
      elim (generate_block fl silence chunk_size of_sample time false (some b) false none gd output
        g) [
          | none ↦ none
          | some (g', gd', block, events) ↦ elim (play_blocks (add32 time 1) b gd' outputs g') [
            | none ↦ none
            | some (last, blocks, later) ↦ some (last, block ∷ blocks, events ++ later)
          ]
        ]

  -- What successive blocks from a position should make of their outputs: each adds the next frames
  -- of the buffer, as long as there are any, with the gains of the driver.
  abbrev pub heard :
      BufferData Sample → FadeDriver fl → ℕ → ℕ → List (List fl.Real) → List (List fl.Real)
  heard b gd time pos [] = []
  heard b gd time pos (output ∷ outputs) =
      let got = min (b.length - pos) block_size in
      add_with_gain fl silence chunk_size of_sample (drive fl time gd).1 b.channels 0 output
        (floats fl silence chunk_size of_sample pos got b)
      ∷ heard b gd (add32 time 1) (pos + got) outputs
