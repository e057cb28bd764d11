-- ===== src/Fader/Laws.antt =====
-- Fades of include/synthizer/faders.hpp and include/synthizer/fade_driver.hpp end on time, start
-- where the value was, and go silent.
use synthizer.Base.{ℕ, ◌+◌, ◌^◌, ◌≤◌, ◌<◌, ◌≡◌, true, false, arith, leb_lt}
use synthizer.Float.{Float}
use synthizer.Fader.{
  add32, sub32, FadeDriver, get_value, is_fading, linear_fader, effective_fade, set_value, drive,
  is_active_at_time,
}

module _ (fl : Float) where
  open fl use {Real, of_unsigned, fadd, fsub, fmul, fdiv, flt}

  -- After `set_value` at time `t` with a fade of `ft` blocks (the driver's own where `ft` is 0)
  -- that does not pass the end of the clock, at every block from the end of the fade on the driver
  -- is not fading, its value is exactly the new value, and so is every gain of the block.
  pub set_value_arrives :
      (d : FadeDriver fl) (t u ft : ℕ) (v : Real)
      → t + effective_fade fl d ft < 2 ^ 32
      → t + effective_fade fl d ft ≤ u
      → (is_fading fl (set_value fl t v ft d).fader u ≡ false)
        × (get_value fl (set_value fl t v ft d).fader u ≡ v)
        × ((i : ℕ) → (drive fl u (set_value fl t v ft d)).1 i ≡ v)
  unfolding set_value drive
  set_value_arrives d t u ft v h₁ h₂ = (ground arith, ground arith, λ i. ground arith)

  linear_starts :
      (x y : Real) (t e : ℕ)
      → ((x s : Real) → fadd x (fmul s (of_unsigned 0)) ≡ x)
      → t < e
      → get_value fl (linear_fader fl t x e y) t ≡ x
  unfolding linear_fader get_value
  linear_starts x y t e flat h =
      let now : sub32 t t ≡ 0 = omega arith in rw (leb_lt e t h) (rw now (flat x _))

  -- A change of a driver that has been heard does not jump, where adding a slope times zero
  -- changes no value: at the block of the change the value is what it was, if the fade takes time
  -- and does not pass the end of the clock.
  pub set_value_continues :
      (d : FadeDriver fl) (t ft : ℕ) (v : Real)
      → ((x s : Real) → fadd x (fmul s (of_unsigned 0)) ≡ x)
      → d.was_silent ≡ false
      → 0 < effective_fade fl d ft
      → t + effective_fade fl d ft < 2 ^ 32
      → get_value fl (set_value fl t v ft d).fader t ≡ get_value fl d.fader t
  unfolding set_value
  set_value_continues d t ft v flat heard h₁ h₂ = rw heard (
      linear_starts (get_value fl d.fader t) v t (add32 t (effective_fade fl d ft)) flat
        (omega arith))

  -- A driver that was silent takes the new value at once, at every block.
  pub set_value_silent :
      (d : FadeDriver fl) (t u ft : ℕ) (v : Real)
      → d.was_silent ≡ true
      → (get_value fl (set_value fl t v ft d).fader u ≡ v)
        × (is_fading fl (set_value fl t v ft d).fader u ≡ false)
  unfolding set_value get_value is_fading
  set_value_silent d t u ft v h = (ground arith, ground arith)

  -- Where no value is less than itself, a driver set to the threshold is inactive once the fade is over.
  pub set_value_inactive :
      (d : FadeDriver fl) (t u ft : ℕ) (v : Real)
      → flt v v ≡ false
      → t + effective_fade fl d ft ≤ u
      → u + 1 < 2 ^ 32
      → is_active_at_time fl u v (set_value fl t v ft d) ≡ false
  unfolding set_value is_active_at_time
  set_value_inactive d t u ft v irr h₁ h₂ = ground arith
