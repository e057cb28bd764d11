-- ===== src/Fader/Tests.antt =====
-- Runs of the faders over whole numbers.
use synthizer.Base.{ℕ, ◌≡◌, refl, true, false, arith}
use synthizer.Samples.{nat_float}
use synthizer.Fader.{
  FadeDriver, fade_driver, set_value, drive, get_value, is_fading, output_is_silent,
}
use synthizer.Fader.Laws.{set_value_arrives}

-- A driver at 2 that has been heard, with a fade of 4 blocks.
abbrev heard : FadeDriver nat_float
heard = record {
  fader = record { start_time = 0; end_time = 0; start_value = 2; slope = 1; end_value = 2 };
  fade_time_in_blocks = 4;
  was_silent = false;
}

fade_up : get_value nat_float (set_value nat_float 10 22 0 heard).fader 12 ≡ 12
unfolding set_value get_value
fade_up = refl

driver_is_silent : (fade_driver nat_float 3 1).was_silent ≡ true
unfolding fade_driver
driver_is_silent = refl

silence_resets : (output_is_silent nat_float heard).was_silent ≡ true
unfolding output_is_silent
silence_resets = refl

set_value_arrives_example :
    (is_fading nat_float (set_value nat_float 10 22 0 heard).fader 14 ≡ false)
    × (get_value nat_float (set_value nat_float 10 22 0 heard).fader 14 ≡ 22)
    × ((i : ℕ) → (drive nat_float 14 (set_value nat_float 10 22 0 heard)).1 i ≡ 22)
set_value_arrives_example = set_value_arrives nat_float heard 10 14 0 22 (omega arith) (omega arith)
