-- ===== src/Primes/Closest.antt =====
-- src/prime_helpers.cpp: the prime that is found is the closest one.
use synthizer.Base.{
  ℕ, ◌⊎◌, ◌-◌, ◌^◌, ◌<◌, ◌≤◌, ◌≡◌, refl, ◌∙◌, false, some, List, length, get_elem?, arith, inl, inr,
  All, ◌==◌, ◌&&◌,
}
use synthizer.Primes.{
  uint_max, primes_set_contains, prime_index, lower_loop, upper_loop, take_closer,
  get_closest_prime_restricted,
}
use synthizer.Primes.Candidates.{
  IsClosest, Behind, Takes, behind, Takes-upper, Takes-lower, Takes-either,
}
use synthizer.Primes.Search.{
  IsAscending, get_lt, prime_index-le, prime_index_below, prime_index_above, lower_loop-ends,
  upper_loop-ends,
}

module _ (primes set : List ℕ) (input : ℕ) (ascending : IsAscending primes)
    (bounded : All (λ p. p < uint_max) primes) (small : input < 2 ^ 32) where
  runs :
      (l u : ℕ)
      → lower_loop primes set (prime_index primes input - 1) ≡ some l
      → upper_loop primes set (length primes - prime_index primes input) (prime_index primes input)
        ≡ some u
      → (0 < l) ⊎ (u < length primes)
      → get_closest_prime_restricted primes input set ≡ take_closer primes input l u
  unfolding get_closest_prime_restricted
  runs l u e f either =
      let some_left : ((l == 0) && (u == length primes)) ≡ false = ground arith in
      rw (get_closest_prime_restricted, e) (rw f (rw some_left refl))

  finished :
      (l u : ℕ)
      → lower_loop primes set (prime_index primes input - 1) ≡ some l
      → upper_loop primes set (length primes - prime_index primes input) (prime_index primes input)
        ≡ some u
      → (0 < l) ⊎ (u < length primes)
      → Takes primes set input l u
      → (r : ℕ) × (get_closest_prime_restricted primes input set ≡ some r)
        × IsClosest primes set input r
  finished l u e f either (r, taken, closest) = (r, runs l u e f either ∙ taken, closest)

  -- In a table of primes that ascends and stays below 2^32 - 1, for an input below 2^32, and where
  -- some prime after the first one is not in the set, the search returns a prime of the table that
  -- is not in the set, and no prime after the first one that is not in the set is nearer to the
  -- input.
  pub get_closest_prime_restricted-IsClosest :
      (j q : ℕ)
      → 0 < j
      → get_elem? primes j ≡ some q
      → primes_set_contains set q ≡ false
      → (r : ℕ) × (get_closest_prime_restricted primes input set ≡ some r)
        × IsClosest primes set input r
  get_closest_prime_restricted-IsClosest j q pos e free =
      let idx : ℕ = prime_index primes input in
      let inside : idx ≤ length primes = prime_index-le primes input in
      let (l, ran, le, at, below) =
        lower_loop-ends primes set (idx - 1) (omega (arith, inside, get_lt primes j q e)) in
      let (u, ran', le', at', above) =
        upper_loop-ends primes set (length primes - idx) idx (omega (arith, inside)) in
      let others : Behind primes set l u =
        behind primes set input ascending bounded small l u below above in
      elim at [
        | inl start ↦ elim at' [
          | inl end ↦ absurd (elim (others j q pos e free) [
            | inl h ↦ omega (arith, h, pos, start)
            | inr h ↦ omega (arith, h, end, get_lt primes j q e)
          ])
          | inr (p', f', free') ↦
              let lt' = prime_index_above primes input u p' ascending f' le' in
              finished l u ran ran' (inr (get_lt primes u p' f')) (
                Takes-upper primes set input ascending bounded small l u p' start f' free' lt'
                  others)
        ]
        | inr (above_zero, (p, f, free₁)) ↦
            let below_input =
              prime_index_below primes input l p f (omega (arith, le, above_zero)) in
            finished l u ran ran' (inl above_zero) (elim at' [
              | inl end ↦
                  Takes-lower primes set input ascending bounded small l u p end above_zero f free₁
                    below_input others
              | inr (p', f', free') ↦
                  Takes-either primes set input ascending bounded small l u p p' above_zero f free₁
                    below_input f' free' (prime_index_above primes input u p' ascending f' le')
                    others
            ])
      ]
