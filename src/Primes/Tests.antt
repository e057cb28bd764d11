-- ===== src/Primes/Tests.antt =====
-- Runs of the search for the closest prime, in a short table.
use synthizer.Base.{ℕ, ◌≡◌, refl, none, some, [], ◌∷◌, arith, List}
use synthizer.Primes.{get_closest_prime, get_closest_prime_restricted}
use synthizer.Primes.Search.{IsAscending}
use synthizer.Primes.Candidates.{IsClosest}
use synthizer.Primes.Closest.{get_closest_prime_restricted-IsClosest}

abbrev small_primes : List ℕ
small_primes = 2 ∷ 3 ∷ 5 ∷ 7 ∷ 11 ∷ []

takes_nearest : get_closest_prime small_primes 10 ≡ some 11
unfolding get_closest_prime
takes_nearest = refl

skips_the_set : get_closest_prime_restricted small_primes 8 (7 ∷ []) ≡ some 11
unfolding get_closest_prime_restricted
skips_the_set = refl

-- The first prime is passed over where the search goes down.
not_the_first : get_closest_prime small_primes 2 ≡ some 3
unfolding get_closest_prime
not_the_first = refl

all_taken : get_closest_prime_restricted small_primes 20 (3 ∷ 5 ∷ 7 ∷ 11 ∷ []) ≡ none
unfolding get_closest_prime_restricted
all_taken = refl

small_primes-IsAscending : IsAscending small_primes
unfolding IsAscending
small_primes-IsAscending = (
  (omega arith, (omega arith, (omega arith, (omega arith, tt)))),
  (
    (omega arith, (omega arith, (omega arith, tt))),
    ((omega arith, (omega arith, tt)), ((omega arith, tt), (tt, tt))),
  ),
)

get_closest_prime_restricted-IsClosest_example :
    (r : ℕ) × (get_closest_prime_restricted small_primes 8 (7 ∷ []) ≡ some r)
    × IsClosest small_primes (7 ∷ []) 8 r
get_closest_prime_restricted-IsClosest_example =
    get_closest_prime_restricted-IsClosest small_primes (7 ∷ []) 8 small_primes-IsAscending
      (omega arith, (omega arith, (omega arith, (omega arith, (omega arith, tt))))) (omega arith) 4
      11 (omega arith) refl refl
