-- ===== src/Pausable/Machine.antt =====
-- Any calls of src/pausable.cpp in any order: what the block after them hears.
use synthizer.Base.{◌≡◌, refl, Bool, true, false, List, [], ◌∷◌, if◌then◌else◌}
use synthizer.Pausable.{
  PauseState, playing, pausing, paused, unpausing, tick_pausable, is_paused,
  should_incorporate_pausable_gain, get_pausable_gain, pause, play,
}

-- The calls between two ticks: true is `play`, false is `pause`.
abbrev pub calls : List Bool → PauseState → PauseState
calls [] s = s
calls (wants ∷ rest) s = calls rest (if wants then play s else pause s)

-- What the last call asked for, or what the state was before any.
abbrev pub last_wish : List Bool → Bool → Bool
last_wish [] b = b
last_wish (wants ∷ rest) b = last_wish rest wants

abbrev pub wants_to_play : PauseState → Bool
wants_to_play playing = true
wants_to_play unpausing = true
wants_to_play s = false

calls-wants :
    (cs : List Bool) (s : PauseState) → wants_to_play (calls cs s) ≡ last_wish cs (wants_to_play s)
unfolding pause play
calls-wants [] s = refl
calls-wants (true ∷ cs) playing = calls-wants cs playing
calls-wants (true ∷ cs) pausing = calls-wants cs unpausing
calls-wants (true ∷ cs) paused = calls-wants cs unpausing
calls-wants (true ∷ cs) unpausing = calls-wants cs unpausing
calls-wants (false ∷ cs) playing = calls-wants cs pausing
calls-wants (false ∷ cs) pausing = calls-wants cs pausing
calls-wants (false ∷ cs) paused = calls-wants cs paused
calls-wants (false ∷ cs) unpausing = calls-wants cs pausing

tick_settles :
    (s : PauseState)
    → (is_paused (tick_pausable s) ≡ (if wants_to_play s then false else true))
      × (should_incorporate_pausable_gain (tick_pausable s) ≡ false)
      × (get_pausable_gain s ≡ (if wants_to_play s then 1 else 0))
      × (get_pausable_gain (tick_pausable s) ≡ get_pausable_gain s)
unfolding is_paused tick_pausable should_incorporate_pausable_gain get_pausable_gain
tick_settles playing = (refl, refl, refl, refl)
tick_settles pausing = (refl, refl, refl, refl)
tick_settles paused = (refl, refl, refl, refl)
tick_settles unpausing = (refl, refl, refl, refl)

-- After any calls of play and pause, in any order and from any state, the gain that the block is to
-- end at is 1 if the last call was play and 0 if it was pause, and after the tick at the end of the
-- block the object is paused or not as that call asked, at that gain, with no fade left.
pub last_call_wins :
    (cs : List Bool) (s : PauseState)
    → (get_pausable_gain (calls cs s) ≡ (if last_wish cs (wants_to_play s) then 1 else 0))
      × (is_paused (tick_pausable (calls cs s))
          ≡ (if last_wish cs (wants_to_play s) then false else true))
      × (should_incorporate_pausable_gain (tick_pausable (calls cs s)) ≡ false)
      × (get_pausable_gain (tick_pausable (calls cs s)) ≡ get_pausable_gain (calls cs s))
last_call_wins cs s =
    let w = calls-wants cs s in
    let t = tick_settles (calls cs s) in (rw (← w) t.2, rw (← w) t.0, t.1, t.3)
