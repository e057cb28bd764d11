-- ===== src/Fader.antt =====
-- include/synthizer/faders.hpp and include/synthizer/fade_driver.hpp: values that move linearly
-- over blocks of audio.
pub mod Laws
pub mod Assertions
mod Tests
use synthizer.Base.{
  ℕ, ◌+◌, ◌-◌, ◌%◌, ◌^◌, Bool, true, false, not, ◌&&◌, ◌||◌, Option, none, some, ltb, leb, ◌==◌,
  if◌then◌else◌,
}
use synthizer.Float.{Float}

-- unsigned int is 32 bits wide.
abbrev pub add32 : ℕ → ℕ → ℕ
add32 a b = (a + b) % 2 ^ 32

abbrev pub sub32 : ℕ → ℕ → ℕ
sub32 a b = (a + 2 ^ 32 - b) % 2 ^ 32

-- config::BLOCK_SIZE
abbrev pub block_size : ℕ
block_size = 256

module _ (fl : Float) where
  open fl use {Real, of_unsigned, fadd, fsub, fmul, fdiv, flt}

  pub record LinearFader : Type 0 where
    pub start_time : ℕ
    pub end_time : ℕ
    pub start_value : Real
    pub slope : Real
    pub end_value : Real

  -- The constructor; its assertion, `start_time ≤ end_time`, is in `try_set_value`.
  unfoldable pub linear_fader : ℕ → Real → ℕ → Real → LinearFader
  linear_fader start_time start_value end_time end_value = record {
    start_time = start_time;
    end_time = end_time;
    start_value = start_value;
    slope =
        if start_time == end_time
        then of_unsigned 1
        else fdiv (fsub end_value start_value) (of_unsigned (sub32 end_time start_time));
    end_value = end_value;
  }

  unfoldable pub fixed_fader : Real → LinearFader
  unfolding linear_fader
  fixed_fader value = linear_fader 0 value 0 value

  -- The assertion of `get_value` and `is_fading`, `start_time ≤ block_time`, is in the calls below
  -- that are tried.
  unfoldable pub get_value : LinearFader → ℕ → Real
  get_value f block_time =
      if leb f.end_time block_time
      then f.end_value
      else fadd f.start_value (fmul f.slope (of_unsigned (sub32 block_time f.start_time)))

  unfoldable pub get_final_value : LinearFader → Real
  get_final_value f = f.end_value

  unfoldable pub is_fading : LinearFader → ℕ → Bool
  is_fading f block_time = ltb block_time f.end_time

  pub record FadeDriver : Type 0 where
    pub fader : LinearFader
    pub fade_time_in_blocks : ℕ
    pub was_silent : Bool

  unfoldable pub fade_driver : Real → ℕ → FadeDriver
  unfolding fixed_fader
  fade_driver start_value fade_time = record {
    fader = fixed_fader start_value;
    fade_time_in_blocks = fade_time;
    was_silent = true;
  }

  abbrev pub effective_fade : FadeDriver → ℕ → ℕ
  effective_fade d fade_time = if not (fade_time == 0) then fade_time else d.fade_time_in_blocks

  unfoldable pub set_value : ℕ → Real → ℕ → FadeDriver → FadeDriver
  unfolding linear_fader fixed_fader get_value
  set_value block_time new_value fade_time d =
      let ft = effective_fade d fade_time in
      if d.was_silent then record d { fader = fixed_fader new_value } else record d {
        fader =
            linear_fader block_time (get_value d.fader block_time) (add32 block_time ft) new_value;
      }

  -- `drive` hands its callback the gain of each sample of the block.
  unfoldable pub drive : ℕ → FadeDriver → FadeDriver × (ℕ → Real)
  unfolding get_value is_fading
  drive time_in_blocks d =
      let start = get_value d.fader time_in_blocks in
      let finish = get_value d.fader (add32 time_in_blocks 1) in
      let step = fdiv (fsub finish start) (of_unsigned block_size) in
      (
        record d { was_silent = false },
        if is_fading d.fader time_in_blocks
            then (λ i. fadd start (fmul step (of_unsigned i)))
            else (λ i. start),
      )

  unfoldable pub is_active_at_time : ℕ → Real → FadeDriver → Bool
  unfolding get_value is_fading
  is_active_at_time time_in_blocks threshold d =
      is_fading d.fader time_in_blocks
      || flt threshold (get_value d.fader time_in_blocks)
      || flt threshold (get_value d.fader (add32 time_in_blocks 1))

  -- The calls with their assertions: `none` is one that fails. The functions above are the calls
  -- where they hold.
  unfoldable pub try_set_value : ℕ → Real → ℕ → FadeDriver → Option FadeDriver
  unfolding set_value
  try_set_value block_time new_value fade_time d =
      let asserted =
        d.was_silent
        || (leb d.fader.start_time block_time
            && leb block_time (add32 block_time (effective_fade d fade_time))) in
      if asserted then some (set_value block_time new_value fade_time d) else none

  unfoldable pub try_drive : ℕ → FadeDriver → Option (FadeDriver × (ℕ → Real))
  unfolding drive is_fading
  try_drive time_in_blocks d =
      let start_time = d.fader.start_time in
      let asserted =
        leb start_time time_in_blocks
        && (not (is_fading d.fader time_in_blocks) || leb start_time (add32 time_in_blocks 1)) in
      if asserted then some (drive time_in_blocks d) else none

  unfoldable pub try_is_active_at_time : ℕ → Real → FadeDriver → Option Bool
  unfolding is_active_at_time is_fading get_value
  try_is_active_at_time time_in_blocks threshold d =
      let start_time = d.fader.start_time in
      let asserted =
        leb start_time time_in_blocks
        && (is_fading d.fader time_in_blocks
            || flt threshold (get_value d.fader time_in_blocks)
            || leb start_time (add32 time_in_blocks 1)) in
      if asserted then some (is_active_at_time time_in_blocks threshold d) else none

  unfoldable pub output_is_silent : FadeDriver → FadeDriver
  unfolding fixed_fader get_final_value
  output_is_silent d = record d { fader = fixed_fader (get_final_value d.fader); was_silent = true }
