-- ===== src/Primes/Errors.antt =====
-- src/prime_helpers.cpp: the errors of the two candidates.
use synthizer.Base.{
  ℕ, ◌-◌, ◌^◌, ◌<◌, ◌≤◌, ◌≡◌, refl, ap, true, false, some, List, length, get_elem?, ltb,
  if◌then◌else◌, arith, ◌==◌,
}
use synthizer.Fader.{sub32}
use synthizer.Primes.{uint_max, lower_error, upper_error, take_closer}
use synthizer.Primes.Search.{get_lt}

module _ (primes : List ℕ) (input : ℕ) (small : input < 2 ^ 32) where
  pub lower_error-eq :
      (l p : ℕ)
      → 0 < l
      → get_elem? primes l ≡ some p
      → p ≤ input
      → lower_error primes input l ≡ some (input - p)
  unfolding lower_error
  lower_error-eq l p pos e le =
      let nonzero : (l == 0) ≡ false = ground arith in
      let whole : sub32 input p ≡ input - p = omega (arith, le, small) in
      rw nonzero (rw e (ap some whole))

  pub upper_error-eq :
      (u p : ℕ)
      → get_elem? primes u ≡ some p
      → input < p
      → p < 2 ^ 32
      → upper_error primes input u ≡ some (p - input)
  unfolding upper_error
  upper_error-eq u p e lt bound =
      let inside : u < length primes = get_lt primes u p e in
      let other : (u == length primes) ≡ false = ground arith in
      let whole : sub32 p input ≡ p - input = omega (arith, lt, bound) in
      rw other (rw e (ap some whole))

  pub lower_error-end : (l : ℕ) → l ≡ 0 → lower_error primes input l ≡ some uint_max
  unfolding lower_error
  lower_error-end l e = let at_end : (l == 0) ≡ true = ground arith in rw at_end refl

  pub upper_error-end : (u : ℕ) → u ≡ length primes → upper_error primes input u ≡ some uint_max
  unfolding upper_error
  upper_error-end u e = let at_end : (u == length primes) ≡ true = ground arith in rw at_end refl

  -- Where there are two primes the nearer one is taken.
  pub takes_nearer :
      (l u e₁ e₂ : ℕ)
      → lower_error primes input l ≡ some e₁
      → upper_error primes input u ≡ some e₂
      → take_closer primes input l u
        ≡ (if ltb e₁ e₂ then get_elem? primes l else get_elem? primes u)
  unfolding take_closer
  takes_nearer l u e₁ e₂ f g = rw (take_closer, f) (rw g refl)
