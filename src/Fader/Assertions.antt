-- ===== src/Fader/Assertions.antt =====
-- The assertions of include/synthizer/faders.hpp, which hold while the clock does not wrap.
use synthizer.Base.{ℕ, ◌+◌, ◌^◌, ◌≤◌, ◌<◌, ◌≡◌, ◌∙◌, some, arith}
use synthizer.Float.{Float}
use synthizer.Fader.{
  add32, FadeDriver, effective_fade, set_value, drive, is_active_at_time, try_set_value, try_drive,
  try_is_active_at_time,
}

-- The fader of a driver has started by a time.
abbrev pub HasStarted : (fl : Float) → ℕ → FadeDriver fl → Type 0
HasStarted fl time d = d.fader.start_time ≤ time

-- A driver whose fader has started by a time and whose fades take one block unless told otherwise.
abbrev pub IsReady : (fl : Float) → ℕ → FadeDriver fl → Type 0
IsReady fl time d = HasStarted fl time d × (d.fade_time_in_blocks ≡ 1)

module _ (fl : Float) where
  pub try_set_value-eq :
      (d : FadeDriver fl) (t ft : ℕ) (v : fl.Real)
      → HasStarted fl t d
      → t + effective_fade fl d ft < 2 ^ 32
      → try_set_value fl t v ft d ≡ some (set_value fl t v ft d)
  unfolding try_set_value
  try_set_value-eq d t ft v h k = ground (arith, h, k)

  pub set_value-HasStarted :
      (d : FadeDriver fl) (t ft : ℕ) (v : fl.Real) → HasStarted fl t (set_value fl t v ft d)
  unfolding set_value
  set_value-HasStarted d t ft v = ground arith

  pub set_value_fade :
      (d : FadeDriver fl) (t ft : ℕ) (v : fl.Real)
      → (set_value fl t v ft d).fade_time_in_blocks ≡ d.fade_time_in_blocks
  unfolding set_value
  set_value_fade d t ft v = ground arith

  pub try_drive-eq :
      (d : FadeDriver fl) (t : ℕ)
      → HasStarted fl t d
      → t + 1 < 2 ^ 32
      → try_drive fl t d ≡ some (drive fl t d)
  unfolding try_drive
  try_drive-eq d t h k = ground (arith, h, k)

  pub try_is_active_at_time-eq :
      (d : FadeDriver fl) (t : ℕ) (v : fl.Real)
      → HasStarted fl t d
      → t + 1 < 2 ^ 32
      → try_is_active_at_time fl t v d ≡ some (is_active_at_time fl t v d)
  unfolding try_is_active_at_time
  try_is_active_at_time-eq d t v h k = ground (arith, h, k)

  pub try_set_value-IsReady :
      (d : FadeDriver fl) (t : ℕ) (v : fl.Real)
      → IsReady fl t d
      → t + 1 < 2 ^ 32
      → (d' : FadeDriver fl) × (try_set_value fl t v 0 d ≡ some d') × IsReady fl t d'
  try_set_value-IsReady d t v r k =
      let one = r.1 in
      (
        set_value fl t v 0 d,
        try_set_value-eq d t 0 v r.0 (omega (arith, one, k)),
        (set_value-HasStarted d t 0 v, set_value_fade d t 0 v ∙ one),
      )

  pub try_drive-IsReady :
      (d : FadeDriver fl) (t : ℕ)
      → IsReady fl t d
      → t + 1 < 2 ^ 32
      → (d' : FadeDriver fl) × (gain : ℕ → fl.Real) × (try_drive fl t d ≡ some (d', gain))
        × IsReady fl (add32 t 1) d'
  unfolding drive
  try_drive-IsReady d t r k =
      let (started, one) = r in
      (
        (drive fl t d).0,
        (drive fl t d).1,
        try_drive-eq d t started k,
        (omega (arith, started, k), one),
      )
