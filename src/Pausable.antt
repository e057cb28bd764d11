-- ===== src/Pausable.antt =====
-- include/synthizer/pausable.hpp and src/pausable.cpp: pausing and playing with a block of fade.
pub mod Machine
mod Tests
use synthizer.Base.{ℕ, Bool, true, false}

pub data PauseState : Type 0 where
  playing pausing paused unpausing : PauseState

unfoldable pub tick_pausable : PauseState → PauseState
tick_pausable pausing = paused
tick_pausable unpausing = playing
tick_pausable s = s

unfoldable pub is_paused : PauseState → Bool
is_paused paused = true
is_paused s = false

unfoldable pub should_incorporate_pausable_gain : PauseState → Bool
should_incorporate_pausable_gain pausing = true
should_incorporate_pausable_gain unpausing = true
should_incorporate_pausable_gain s = false

-- The gain is 1 or 0.
unfoldable pub get_pausable_gain : PauseState → ℕ
get_pausable_gain playing = 1
get_pausable_gain unpausing = 1
get_pausable_gain s = 0

unfoldable pub pause : PauseState → PauseState
pause paused = paused
pause s = pausing

unfoldable pub play : PauseState → PauseState
play playing = playing
play s = unpausing
