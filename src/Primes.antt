-- ===== src/Primes.antt =====
-- src/prime_helpers.cpp: the prime closest to a number that is not in a set.
pub mod Search
pub mod Errors
pub mod Candidates
pub mod Closest
mod Tests
use mathlib.Core.Option
use synthizer.Base.{
  ℕ, zero, suc, ◌+◌, ◌-◌, ◌*◌, ◌^◌, Bool, true, false, not, ◌&&◌, ◌||◌, Option, none, some, List,
  [], ◌∷◌, length, get_elem?, lower_bound, any, ltb, leb, ◌==◌, if◌then◌else◌,
}
use synthizer.Fader.{sub32}

abbrev pub uint_max : ℕ
uint_max = 2 ^ 32 - 1

abbrev pub primes_set_contains : List ℕ → ℕ → Bool
primes_set_contains set value = any (λ v. v == value) set

-- The table of primes is an argument. Results `none` are failed assertions and reads outside it.
module _ (primes : List ℕ) where
  -- The index of the first prime above the input.
  unfoldable pub prime_index : ℕ → ℕ
  prime_index input = lower_bound (λ p. leb p input) primes

  -- The loop down from an index, which is itself what is left to do.
  unfoldable pub lower_loop : List ℕ → ℕ → Option ℕ
  lower_loop set zero = some zero
  lower_loop set (suc i) = elim (get_elem? primes (suc i)) [
    | none ↦ none
    | some p ↦ elim (primes_set_contains set p) [ true ↦ lower_loop set i | false ↦ some (suc i) ]
  ]

  -- The loop up from an index, after the number of indices that are left.
  unfoldable pub upper_loop : List ℕ → ℕ → ℕ → Option ℕ
  upper_loop set zero index = some index
  upper_loop set (suc left) index = elim (get_elem? primes index) [
    | none ↦ none
    | some p ↦ elim (primes_set_contains set p) [
      | true ↦ upper_loop set left (suc index)
      | false ↦ some index
    ]
  ]

  -- How far the primes at the two indices are; an index at its end of the table has none.
  unfoldable pub lower_error : ℕ → ℕ → Option ℕ
  lower_error input lower_index =
      if lower_index == 0
      then some uint_max
      else Option.map (λ p. sub32 input p) (get_elem? primes lower_index)

  unfoldable pub upper_error : ℕ → ℕ → Option ℕ
  upper_error input upper_index =
      if upper_index == length primes
      then some uint_max
      else Option.map (λ p. sub32 p input) (get_elem? primes upper_index)

  unfoldable pub take_closer : ℕ → ℕ → ℕ → Option ℕ
  unfolding lower_error upper_error
  take_closer input lower_index upper_index = elim (lower_error input lower_index) [
    | none ↦ none
    | some e₁ ↦ elim (upper_error input upper_index) [
      | none ↦ none
      | some e₂ ↦ if ltb e₁ e₂ then get_elem? primes lower_index else get_elem? primes upper_index
    ]
  ]

  unfoldable pub get_closest_prime_restricted : ℕ → List ℕ → Option ℕ
  unfolding prime_index lower_loop upper_loop take_closer
  get_closest_prime_restricted input set =
      let start = prime_index input in
      elim (lower_loop set (start - 1)) [
        | none ↦ none
        | some lower_index ↦ elim (upper_loop set (length primes - start) start) [
          | none ↦ none
          | some upper_index ↦
              if (lower_index == 0) && (upper_index == length primes)
              then none
              else take_closer input lower_index upper_index
        ]
      ]

  unfoldable pub get_closest_prime : ℕ → Option ℕ
  unfolding get_closest_prime_restricted
  get_closest_prime input = get_closest_prime_restricted input []
