-- ===== src/Buffer/Tests.antt =====
-- Runs of the buffer reader on stereo chunks of two frames.
use synthizer.Base.{ℕ, ◌≡◌, refl, some, [], ◌∷◌, arith}
use synthizer.Buffer.{BufferData, BufferReader, read_frames, set_buffer}
use synthizer.Buffer.Slices.{IsValid}
use synthizer.Buffer.Frames.{read_frames-eq-slice}

abbrev stereo : BufferData ℕ
stereo = record {
  channels = 2;
  length = 3;
  chunks = (1 ∷ 2 ∷ 3 ∷ 4 ∷ []) ∷ (5 ∷ 6 ∷ 0 ∷ 0 ∷ []) ∷ [];
}

abbrev reader : BufferReader ℕ
reader = record {
  buffer = stereo;
  channels = 2;
  length = 3;
  chunk = record { start = 0; end = 0; memory = [] };
}

set_buffer_run : set_buffer 0 2 stereo ≡ some reader
unfolding set_buffer
set_buffer_run = refl

stereo-IsValid : IsValid 0 2 stereo
unfolding IsValid
stereo-IsValid = ((refl, (refl, tt)), omega arith, omega arith, omega arith)

read_frames-eq-slice_example :
    (r' : BufferReader ℕ) × (r'.buffer ≡ stereo)
    × (read_frames 0 2 1 5 reader ≡ some (2, (3 ∷ 4 ∷ 5 ∷ 6 ∷ [], r')))
read_frames-eq-slice_example = read_frames-eq-slice 0 2 1 5 reader stereo-IsValid (refl, refl)
