-- ===== src/BufferGenerator.antt =====
-- src/generators/buffer.cpp: playing a buffer block by block, without pitch bend.
pub mod Looping
pub mod Finishing
pub mod Blocks
mod Tests
use mathlib.Core.Option
use synthizer.Base.{
  ℕ, zero, suc, ◌+◌, ◌-◌, ◌*◌, ◌/◌, Bool, true, false, not, ◌||◌, Option, none, some, List, [], ◌∷◌,
  ◌++◌, length, min, replicate, ◌==◌, if◌then◌else◌,
}
use synthizer.Float.{Float}
use synthizer.Fader.{FadeDriver, block_size, try_drive}
use synthizer.Buffer.{BufferData, BufferReader, set_buffer}
use synthizer.Buffer.Floats.{read_float_frames}

-- The state of a generator. The position is in samples; without pitch bend it is a whole number.
pub record BufferGenerator (Sample : Type 0) : Type 0 where
  pub reader : BufferReader Sample
  pub position_in_samples : ℕ
  pub sent_finished : Bool
  pub finished_count : ℕ
  pub looped_count : ℕ

pub data PlaybackEvent : Type 0 where
  looped finished : PlaybackEvent

module _ {Sample : Type 0} where
  abbrev pub count_finished : BufferGenerator Sample → BufferGenerator Sample
  count_finished g =
      if g.sent_finished
      then g
      else record g { finished_count = g.finished_count + 1; sent_finished = true }

  -- The end of generateBlock: the events sent, in order.
  unfoldable pub send_events : BufferGenerator Sample → BufferGenerator Sample × List PlaybackEvent
  send_events g = (
    record g { looped_count = 0; finished_count = 0 },
    replicate g.looped_count looped ++ replicate g.finished_count finished,
  )

  -- A new playback position in samples, or none.
  unfoldable pub move_to : Option ℕ → BufferGenerator Sample → BufferGenerator Sample
  move_to none g = g
  move_to (some new_pos) g = record g {
    position_in_samples = min new_pos g.reader.length;
    sent_finished = false;
  }

module _ (fl : Float) {Sample : Type 0} (silence : Sample) (chunk_size : ℕ)
    (of_sample : Sample → fl.Real) where
  -- The frames produced so far, as what the cursor has passed.
  abbrev pub Played : Type 0
  Played = Option (BufferGenerator Sample × List fl.Real)

  -- A round after readFrames gave `got` frames; `rest` are the rounds after it.
  unfoldable pub after_read :
      Bool
      → ℕ
      → Option (ℕ × (List fl.Real × BufferReader Sample))
      → BufferGenerator Sample
      → List fl.Real
      → (ℕ → BufferGenerator Sample → List fl.Real → Played)
      → Played
  after_read looping remaining none g produced rest = none
  after_read looping remaining (some (got, (frames, reader))) g produced rest =
      let g' : BufferGenerator Sample = record g {
        position_in_samples = g.position_in_samples + got;
        reader = reader;
      } in
      let wrapped : BufferGenerator Sample = record g' {
        position_in_samples = 0;
        looped_count = g'.looped_count + 1;
      } in
      let more = rest (remaining - got) wrapped (produced ++ frames) in
      if remaining - got == 0
      then some (g', produced ++ frames)
      else if not looping
      then some (count_finished g', produced ++ frames)
      else more

  -- The loop of generateNoPitchBend, at most `rounds` rounds.
  unfoldable pub play_loop : ℕ → Bool → ℕ → BufferGenerator Sample → List fl.Real → Played
  play_loop zero looping remaining g produced = none
  play_loop (suc rounds) looping remaining g produced =
      let read =
        read_float_frames fl silence chunk_size of_sample 0 true g.position_in_samples remaining
          g.reader in
      let round = after_read looping remaining read g produced (play_loop rounds looping) in
      if remaining == 0 then some (g, produced) else round

  -- The frames produced are added to the output with the gain of their place in the block.
  unfoldable pub add_with_gain : (ℕ → fl.Real) → ℕ → ℕ → List fl.Real → List fl.Real → List fl.Real
  add_with_gain gain channels i [] produced = []
  add_with_gain gain channels i (x ∷ xs) [] = x ∷ xs
  add_with_gain gain channels i (x ∷ xs) (y ∷ ys) =
      fl.fadd x (fl.fmul (gain (i / channels)) y) ∷ add_with_gain gain channels (suc i) xs ys

  -- Every round but the first reads at least one frame of a buffer that is not empty. `none` is a
  -- fault, or a failed assertion of the fader.
  unfoldable pub generate_no_pitch_bend :
      ℕ
      → Bool
      → FadeDriver fl
      → List fl.Real
      → BufferGenerator Sample
      → Option (BufferGenerator Sample × FadeDriver fl × List fl.Real)
  generate_no_pitch_bend block_time looping gd output g = elim (try_drive fl block_time gd) [
    | none ↦ none
    | some (gd', gain) ↦ elim (play_loop (block_size + 2) looping block_size g []) [
      | none ↦ none
      | some (g', produced) ↦
          some (g', gd', add_with_gain gain g'.reader.channels 0 output produced)
    ]
  ]

  -- configureBufferReader, whose write to the playback position is read right after it.
  unfoldable pub configure_buffer_reader :
      BufferData Sample → BufferGenerator Sample → Option (BufferGenerator Sample)
  unfolding move_to
  configure_buffer_reader b g = elim (set_buffer silence chunk_size b) [
    | none ↦ none
    | some reader ↦ some (move_to (some 0) (record g { reader = reader }))
  ]

  -- The guards of generateBlock: the generator that plays, if there is anything to play. `buffer`
  -- is the buffer if it is still alive, with whether it has changed.
  unfoldable pub prepare :
      Option (BufferData Sample)
      → Bool
      → Option ℕ
      → BufferGenerator Sample
      → Option (Option (BufferGenerator Sample))
  unfolding configure_buffer_reader move_to
  prepare none changed new_pos g = some none
  prepare (some b) changed new_pos g =
      if b.length == 0
      then some none
      else if changed
      then Option.map some (configure_buffer_reader b g)
      else some (some (move_to new_pos g))

  unfoldable pub generate_block :
      ℕ
      → Bool
      → Option (BufferData Sample)
      → Bool
      → Option ℕ
      → FadeDriver fl
      → List fl.Real
      → BufferGenerator Sample
      → Option (BufferGenerator Sample × FadeDriver fl × List fl.Real × List PlaybackEvent)
  unfolding prepare generate_no_pitch_bend send_events
  generate_block block_time looping buffer changed new_pos gd output g =
      elim (prepare buffer changed new_pos g) [
        | none ↦ none
        | some none ↦ some (g, gd, output, [])
        | some (some ready) ↦ elim (generate_no_pitch_bend block_time looping gd output ready) [
          | none ↦ none
          | some (g', gd', output') ↦
              let (sent, events) = send_events g' in some (sent, gd', output', events)
        ]
      ]
