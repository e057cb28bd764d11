-- ===== src/Pausable/Tests.antt =====
-- Runs of pausing and playing.
use synthizer.Base.{◌≡◌, refl, true, false, [], ◌∷◌}
use synthizer.Pausable.{
  playing, paused, tick_pausable, is_paused, should_incorporate_pausable_gain, get_pausable_gain,
  pause,
}
use synthizer.Pausable.Machine.{calls, last_call_wins}

pause_run : tick_pausable (pause playing) ≡ paused
unfolding tick_pausable pause
pause_run = refl

last_call_wins_example :
    (get_pausable_gain (calls (false ∷ true ∷ []) paused) ≡ 1)
    × (is_paused (tick_pausable (calls (false ∷ true ∷ []) paused)) ≡ false)
    × (should_incorporate_pausable_gain (tick_pausable (calls (false ∷ true ∷ []) paused)) ≡ false)
    × (get_pausable_gain (tick_pausable (calls (false ∷ true ∷ []) paused))
        ≡ get_pausable_gain (calls (false ∷ true ∷ []) paused))
last_call_wins_example = last_call_wins (false ∷ true ∷ []) paused
