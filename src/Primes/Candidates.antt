-- ===== src/Primes/Candidates.antt =====
-- src/prime_helpers.cpp: taking the nearer of two candidates.
use synthizer.Base.{
  ℕ, suc, ◌⊎◌, ◌+◌, ◌-◌, ◌^◌, ◌<◌, ◌≤◌, ◌≡◌, ◌∙◌, true, false, some, List, length, get_elem?,
  get_elem?-eq_some, ltb, lt→ltb, ltb→lt, arith, inl, inr, Bool-cases, All, dec_lt, dec_le, ltb_ge,
}
use synthizer.Primes.{uint_max, primes_set_contains, prime_index, take_closer}
use synthizer.Primes.Errors.{
  lower_error-eq, upper_error-eq, lower_error-end, upper_error-end, takes_nearer,
}
use synthizer.Primes.Search.{IsAscending, All-get, ascends, ascends_weakly, get_lt, AllTaken}

abbrev pub distance : ℕ → ℕ → ℕ
distance a b = (a - b) + (b - a)

-- A prime of the table that is not in the set and no farther from the input than any other such
-- prime but the first of the table.
pub record IsClosest (primes set : List ℕ) (input r : ℕ) : Type 0 where
  pub place : ℕ
  pub is_prime : get_elem? primes place ≡ some r
  pub is_free : primes_set_contains set r ≡ false
  pub is_closest :
      (j q : ℕ)
      → 0 < j
      → get_elem? primes j ≡ some q
      → primes_set_contains set q ≡ false
      → distance input r ≤ distance input q

module _ (primes set : List ℕ) where
  -- Every other prime is behind one of two indices.
  abbrev pub Behind : ℕ → ℕ → Type 0
  Behind l u =
      (j q : ℕ)
      → 0 < j
      → get_elem? primes j ≡ some q
      → primes_set_contains set q ≡ false
      → (j ≤ l) ⊎ (u ≤ j)

  -- Of the primes at two indices the closest one is taken.
  abbrev pub Takes : ℕ → ℕ → ℕ → Type 0
  Takes input l u = (r : ℕ) × (take_closer primes input l u ≡ some r) × IsClosest primes set input r

module _ (primes set : List ℕ) (input : ℕ) (ascending : IsAscending primes)
    (bounded : All (λ p. p < uint_max) primes) (small : input < 2 ^ 32) where
  pub behind :
      (l u : ℕ)
      → AllTaken primes set (suc l) (suc (prime_index primes input - 1))
      → AllTaken primes set (prime_index primes input) u
      → Behind primes set l u
  behind l u below above j q pos e free = elim (dec_le j l) [
    | yes le ↦ inl le
    | no gt ↦ elim (dec_le u j) [
      | yes le ↦ inr le
      | no lt ↦ elim (dec_lt j (prime_index primes input)) [
        | yes before ↦
            let taken = below j q (omega (arith, gt)) (omega (arith, before)) e in cc (taken, free)
        | no after ↦
            let taken = above j q (omega (arith, after)) (omega (arith, lt)) e in cc (taken, free)
      ]
    ]
  ]

  near_lower :
      (l p j q : ℕ)
      → get_elem? primes l ≡ some p
      → p ≤ input
      → get_elem? primes j ≡ some q
      → j ≤ l
      → input - p ≤ distance input q
  near_lower l p j q e le f h = omega (arith, le, ascends_weakly primes j l q p ascending f e h)

  near_upper :
      (u p j q : ℕ)
      → get_elem? primes u ≡ some p
      → input < p
      → get_elem? primes j ≡ some q
      → u ≤ j
      → p - input ≤ distance input q
  near_upper u p j q e lt f h = omega (arith, lt, ascends_weakly primes u j p q ascending e f h)

  pub Takes-upper :
      (l u p : ℕ)
      → l ≡ 0
      → get_elem? primes u ≡ some p
      → primes_set_contains set p ≡ false
      → input < p
      → Behind primes set l u
      → Takes primes set input l u
  Takes-upper l u p zero_index e free lt others =
      let bound : p < uint_max = All-get (λ p. p < uint_max) primes u p bounded e in
      let nearer : ltb uint_max (p - input) ≡ false =
        ltb_ge uint_max (p - input) (omega (arith, bound)) in
      (
        p,
        takes_nearer primes input small l u uint_max (p - input)
              (lower_error-end primes input small l zero_index)
              (upper_error-eq primes input small u p e lt (omega (arith, bound)))
            ∙ rw nearer e,
        record {
          place = u;
          is_prime = e;
          is_free = free;
          is_closest = λ j q pos f free'. elim (others j q pos f free') [
            | inl le ↦ absurd (omega (arith, le, pos, zero_index))
            | inr le ↦ omega (arith, near_upper u p j q e lt f le, lt)
          ];
        },
      )

  pub Takes-lower :
      (l u p : ℕ)
      → u ≡ length primes
      → 0 < l
      → get_elem? primes l ≡ some p
      → primes_set_contains set p ≡ false
      → p ≤ input
      → Behind primes set l u
      → Takes primes set input l u
  Takes-lower l u p at_end above_zero e free le others =
      let (first, e₀) = get_elem?-eq_some primes 0 (omega (arith, get_lt primes l p e)) in
      let positive : first < p = ascends primes 0 l first p ascending e₀ e above_zero in
      let nearer : ltb (input - p) uint_max ≡ true =
        lt→ltb (input - p) uint_max (omega (arith, positive, small, le)) in
      (
        p,
        takes_nearer primes input small l u (input - p) uint_max
              (lower_error-eq primes input small l p above_zero e le)
              (upper_error-end primes input small u at_end)
            ∙ rw nearer e,
        record {
          place = l;
          is_prime = e;
          is_free = free;
          is_closest = λ j q pos f free'. elim (others j q pos f free') [
            | inl le' ↦ omega (arith, near_lower l p j q e le f le', le)
            | inr le' ↦ absurd (omega (arith, le', at_end, get_lt primes j q f))
          ];
        },
      )

  pub Takes-either :
      (l u p p' : ℕ)
      → 0 < l
      → get_elem? primes l ≡ some p
      → primes_set_contains set p ≡ false
      → p ≤ input
      → get_elem? primes u ≡ some p'
      → primes_set_contains set p' ≡ false
      → input < p'
      → Behind primes set l u
      → Takes primes set input l u
  Takes-either l u p p' above_zero e free le e' free' lt others =
      let bound : p' < uint_max = All-get (λ p. p < uint_max) primes u p' bounded e' in
      let compared =
        takes_nearer primes input small l u (input - p) (p' - input)
          (lower_error-eq primes input small l p above_zero e le)
          (upper_error-eq primes input small u p' e' lt (omega (arith, bound))) in
      elim (Bool-cases (ltb (input - p) (p' - input))) [
        | inl nearer ↦
            let less : input - p < p' - input = ltb→lt (input - p) (p' - input) nearer in
            (
              p,
              compared ∙ rw nearer e,
              record {
                place = l;
                is_prime = e;
                is_free = free;
                is_closest = λ j q pos f free''. elim (others j q pos f free'') [
                  | inl le' ↦ omega (arith, near_lower l p j q e le f le', le)
                  | inr le' ↦ omega (arith, near_upper u p' j q e' lt f le', le, less)
                ];
              },
            )
        | inr farther ↦
            let more : p' - input ≤ input - p = ground arith in
            (
              p',
              compared ∙ rw farther e',
              record {
                place = u;
                is_prime = e';
                is_free = free';
                is_closest = λ j q pos f free''. elim (others j q pos f free'') [
                  | inl le' ↦ omega (arith, near_lower l p j q e le f le', lt, more)
                  | inr le' ↦ omega (arith, near_upper u p' j q e' lt f le', lt)
                ];
              },
            )
      ]
