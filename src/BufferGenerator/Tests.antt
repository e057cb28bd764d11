-- ===== src/BufferGenerator/Tests.antt =====
-- Runs of the buffer generator on a stereo buffer of three frames, in chunks of two.
use synthizer.Base.{ℕ, ◌+◌, ◌*◌, ◌-◌, ◌≡◌, refl, true, false, none, some, [], ◌∷◌, min, arith}
use synthizer.Samples.{nat_float}
use synthizer.Fader.{FadeDriver, fade_driver, drive}
use synthizer.Buffer.{BufferData, BufferReader}
use synthizer.Buffer.Slices.{IsValid}
use synthizer.Buffer.Floats.{floats, read_float_frames, read_float_frames-eq-slice}
use synthizer.Buffer.Frames.{Agrees}
use synthizer.BufferGenerator.{
  BufferGenerator, looped, finished, play_loop, prepare, send_events, move_to, add_with_gain,
}
use synthizer.BufferGenerator.Looping.{IsReady, cycle, Looped, play_loop-cycles}
use synthizer.BufferGenerator.Blocks.{heard}

-- Numbers that 32768 divides.
abbrev stereo : BufferData ℕ
stereo = record {
  channels = 2;
  length = 3;
  chunks = (1 ∷ 2 ∷ 3 ∷ 4 ∷ []) ∷ (5 ∷ 6 ∷ 0 ∷ 0 ∷ []) ∷ [];
}

abbrev scaled : ℕ → ℕ
scaled x = x * 32768

abbrev generator : BufferGenerator ℕ
generator = record {
  reader = record {
    buffer = stereo;
    channels = 2;
    length = 3;
    chunk = record { start = 0; end = 0; memory = [] };
  };
  position_in_samples = 1;
  sent_finished = false;
  finished_count = 0;
  looped_count = 0;
}

stereo-IsValid : IsValid 0 2 stereo
unfolding IsValid
stereo-IsValid = ((refl, (refl, tt)), omega arith, omega arith, omega arith)

generator-IsReady : IsReady nat_float 0 2 scaled stereo generator
generator-IsReady = record {
  same = refl;
  agrees = (refl, refl);
  valid = stereo-IsValid;
  channels = omega arith;
  few_channels = omega arith;
  longer = omega arith;
}

prepare_nothing :
    prepare nat_float 0 2 scaled (some (record stereo { length = 0 })) true (some 2) generator
    ≡ some none
unfolding prepare
prepare_nothing = refl

move_to_end : (move_to (some 7) generator).position_in_samples ≡ 3
unfolding move_to
move_to_end = refl

send_events_run :
    (send_events (record generator { looped_count = 2; finished_count = 1 })).1
    ≡ looped ∷ looped ∷ finished ∷ []
unfolding send_events
send_events_run = refl

cycle_run : cycle nat_float 0 2 scaled stereo 1 4 ≡ 3 ∷ 4 ∷ 5 ∷ 6 ∷ 1 ∷ 2 ∷ 3 ∷ 4 ∷ []
cycle_run = refl

read_float_frames-eq-slice_example :
    (r' : BufferReader ℕ) × (r'.buffer ≡ stereo)
    × Agrees 0 2 r'
    × (read_float_frames nat_float 0 2 scaled 300 false 1 5 generator.reader
        ≡ some (
          min (stereo.length - 1) 5,
          (floats nat_float 0 2 scaled 1 (min (stereo.length - 1) 5) stereo, r'),
        ))
read_float_frames-eq-slice_example =
    read_float_frames-eq-slice nat_float 0 2 scaled 300 false 1 5 generator.reader stereo-IsValid
      (refl, refl) (omega arith) (omega arith) (omega arith)

play_loop-cycles_example :
    (g' : BufferGenerator ℕ) × (play_loop nat_float 0 2 scaled (4 + 2) true 4 generator []
      ≡ some (g', cycle nat_float 0 2 scaled stereo 1 4))
    × Looped nat_float 0 2 scaled stereo 4 generator g'
play_loop-cycles_example =
    play_loop-cycles nat_float 0 2 scaled 4 stereo generator generator-IsReady (omega arith)
      (omega arith)

abbrev driver : FadeDriver nat_float
driver = fade_driver nat_float 1 1

-- A block after the last frame leaves its output as it is.
heard_run :
    heard nat_float 0 2 scaled stereo driver 7 1 ((0 ∷ 0 ∷ []) ∷ (5 ∷ 5 ∷ []) ∷ [])
    ≡ (3 ∷ 4 ∷ []) ∷ (5 ∷ 5 ∷ []) ∷ []
unfolding fade_driver drive add_with_gain
heard_run = refl
