-- ===== src/Primes/Search.antt =====
-- src/prime_helpers.cpp: what the search and the two loops over the table of primes find.
use synthizer.Base.{
  ℕ, zero, suc, ◌⊎◌, ◌+◌, ◌-◌, ◌<◌, ◌≤◌, ◌≡◌, refl, ap, sym, subst, ◌∙◌, true, false, some, List,
  [], ◌∷◌, length, get_elem?, get_elem?-eq_some, leb, leb→le, arith, inl, inr, Bool-cases, All,
  some-injective, dec_lt,
}
use synthizer.Primes.{primes_set_contains, prime_index, lower_loop, upper_loop}

-- The table of primes ascends.
unfoldable pub IsAscending : List ℕ → Type 0
IsAscending [] = Unit
IsAscending (p ∷ ps) = All (λ q. p < q) ps × IsAscending ps

pub All-get : (P : ℕ → Type 0) (ps : List ℕ) (i p : ℕ) → All P ps → get_elem? ps i ≡ some p → P p
All-get P [] i p h e = cc
All-get P (x ∷ ps) zero p (h, hs) e = subst P (some-injective x p e) h
All-get P (x ∷ ps) (suc i) p (h, hs) e = All-get P ps i p hs e

-- Later primes are larger.
pub ascends :
    (ps : List ℕ) (i j p q : ℕ)
    → IsAscending ps
    → get_elem? ps i ≡ some p
    → get_elem? ps j ≡ some q
    → i < j
    → p < q
unfolding IsAscending
ascends [] i j p q h e f lt = cc
ascends (x ∷ ps) i zero p q h e f lt = absurd (omega arith)
ascends (x ∷ ps) zero (suc j) p q (h, hs) e f lt =
    subst (λ n. n < q) (some-injective x p e) (All-get (λ q. x < q) ps j q h f)
ascends (x ∷ ps) (suc i) (suc j) p q (h, hs) e f lt = ascends ps i j p q hs e f (omega arith)

pub ascends_weakly :
    (ps : List ℕ) (i j p q : ℕ)
    → IsAscending ps
    → get_elem? ps i ≡ some p
    → get_elem? ps j ≡ some q
    → i ≤ j
    → p ≤ q
ascends_weakly ps i j p q h e f le = elim (dec_lt i j) [
  | yes lt ↦ omega (arith, ascends ps i j p q h e f lt)
  | no ge ↦
      let same : i ≡ j = omega (arith, le, ge) in
      let equal : p ≡ q = some-injective p q (sym e ∙ ap (λ n. get_elem? ps n) same ∙ f) in
      omega (arith, equal)
]

pub get_lt : (ps : List ℕ) (i p : ℕ) → get_elem? ps i ≡ some p → i < length ps
get_lt [] i p e = cc
get_lt (x ∷ ps) zero p e = omega arith
get_lt (x ∷ ps) (suc i) p e = omega (arith, get_lt ps i p e)

pub prime_index-le : (ps : List ℕ) (input : ℕ) → prime_index ps input ≤ length ps
unfolding prime_index
prime_index-le [] input = omega arith
prime_index-le (p ∷ ps) input = elim (Bool-cases (leb p input)) [
  | inl e ↦ rw e (omega (arith, prime_index-le ps input))
  | inr e ↦ rw e (omega arith)
]

passes :
    (x : ℕ) (ps : List ℕ) (input : ℕ)
    → leb x input ≡ true
    → prime_index (x ∷ ps) input ≡ suc (prime_index ps input)
unfolding prime_index
passes x ps input e = rw e refl

stops : (x : ℕ) (ps : List ℕ) (input : ℕ) → leb x input ≡ false → prime_index (x ∷ ps) input ≡ 0
unfolding prime_index
stops x ps input e = rw e refl

-- The primes before the index are not above the input, and those from the index on are.
pub prime_index_below :
    (ps : List ℕ) (input i p : ℕ) → get_elem? ps i ≡ some p → i < prime_index ps input → p ≤ input
prime_index_below [] input i p e h = cc
prime_index_below (x ∷ ps) input zero p e h = elim (Bool-cases (leb x input)) [
  | inr f ↦ absurd (omega (arith, stops x ps input f, h))
  | inl f ↦ omega (arith, leb→le x input f, some-injective x p e)
]
prime_index_below (x ∷ ps) input (suc i) p e h = elim (Bool-cases (leb x input)) [
  | inr f ↦ absurd (omega (arith, stops x ps input f, h))
  | inl f ↦ prime_index_below ps input i p e (omega (arith, passes x ps input f, h))
]

pub prime_index_above :
    (ps : List ℕ) (input i p : ℕ)
    → IsAscending ps
    → get_elem? ps i ≡ some p
    → prime_index ps input ≤ i
    → input < p
unfolding IsAscending
prime_index_above [] input i p a e h = cc
prime_index_above (x ∷ ps) input i p (a, as') e h = elim (Bool-cases (leb x input)) [
  | inr f ↦
      let above : input < x = ground arith in
      omega (arith, above, ascends_weakly (x ∷ ps) 0 i x p (a, as') refl e (omega arith))
  | inl f ↦ elim (dec_lt 0 i) [
    | no z ↦ absurd (omega (arith, z, passes x ps input f, h))
    | yes pos ↦
        let before : i ≡ suc (i - 1) = omega (arith, pos) in
        prime_index_above ps input (i - 1) p as'
          (subst (λ n. get_elem? (x ∷ ps) n ≡ some p) before e)
          (omega (arith, passes x ps input f, h, pos))
  ]
]

module _ (primes set : List ℕ) where
  -- The primes at indices over one bound and below another are all in the set.
  abbrev pub AllTaken : ℕ → ℕ → Type 0
  AllTaken low high =
      (j q : ℕ)
      → low ≤ j
      → j < high
      → get_elem? primes j ≡ some q
      → primes_set_contains set q ≡ true

  -- A prime at an index that is not in the set.
  abbrev pub IsFree : ℕ → Type 0
  IsFree i = (p : ℕ) × (get_elem? primes i ≡ some p) × (primes_set_contains set p ≡ false)

  AllTaken-none : (n : ℕ) → AllTaken n n
  AllTaken-none n j q le lt e = absurd (omega (arith, le, lt))

  AllTaken-above :
      (low high p : ℕ)
      → get_elem? primes high ≡ some p
      → primes_set_contains set p ≡ true
      → AllTaken low high
      → AllTaken low (suc high)
  AllTaken-above low high p e f taken j q le lt g = elim (dec_lt j high) [
    | yes below ↦ taken j q le below g
    | no top ↦
        let same : high ≡ j = omega (arith, top, lt) in
        let equal : p ≡ q = some-injective p q (sym e ∙ ap (λ n. get_elem? primes n) same ∙ g) in
        subst (λ v. primes_set_contains set v ≡ true) equal f
  ]

  AllTaken-below :
      (low high p : ℕ)
      → get_elem? primes low ≡ some p
      → primes_set_contains set p ≡ true
      → AllTaken (suc low) high
      → AllTaken low high
  AllTaken-below low high p e f taken j q le lt g = elim (dec_lt low j) [
    | yes above ↦ taken j q above lt g
    | no bottom ↦
        let same : low ≡ j = omega (arith, bottom, le) in
        let equal : p ≡ q = some-injective p q (sym e ∙ ap (λ n. get_elem? primes n) same ∙ g) in
        subst (λ v. primes_set_contains set v ≡ true) equal f
  ]

  -- The loop down ends at the first index of the table or at a prime that is not in the set.
  pub lower_loop-ends :
      (start : ℕ)
      → start < length primes
      → (l : ℕ) × (lower_loop primes set start ≡ some l)
        × (l ≤ start)
        × ((l ≡ 0) ⊎ ((0 < l) × IsFree l))
        × AllTaken (suc l) (suc start)
  unfolding lower_loop
  lower_loop-ends zero h = (0, refl, omega arith, inl refl, AllTaken-none 1)
  lower_loop-ends (suc i) h =
      let (p, e) = get_elem?-eq_some primes (suc i) h in
      elim (Bool-cases (primes_set_contains set p)) [
        | inr free ↦ (
          suc i,
          rw (lower_loop, e) (rw free refl),
          omega arith,
          inr (omega arith, (p, e, free)),
          AllTaken-none (suc (suc i)),
        )
        | inl taken ↦
            let (l, ran, le, at, all) = lower_loop-ends i (omega (arith, h)) in
            (
              l,
              rw (lower_loop, e) (rw taken ran),
              omega (arith, le),
              at,
              AllTaken-above (suc l) (suc i) p e taken all,
            )
      ]

  -- The loop up ends at the end of the table or at a prime that is not in the set.
  pub upper_loop-ends :
      (left index : ℕ)
      → index + left ≡ length primes
      → (u : ℕ) × (upper_loop primes set left index ≡ some u)
        × (index ≤ u)
        × ((u ≡ length primes) ⊎ IsFree u)
        × AllTaken index u
  unfolding upper_loop
  upper_loop-ends zero index h =
      (index, refl, omega arith, inl (omega (arith, h)), AllTaken-none index)
  upper_loop-ends (suc left) index h =
      let (p, e) = get_elem?-eq_some primes index (omega (arith, h)) in
      elim (Bool-cases (primes_set_contains set p)) [
        | inr free ↦ (
          index,
          rw (upper_loop, e) (rw free refl),
          omega arith,
          inr (p, e, free),
          AllTaken-none index,
        )
        | inl taken ↦
            let (u, ran, le, at, all) = upper_loop-ends left (suc index) (omega (arith, h)) in
            (
              u,
              rw (upper_loop, e) (rw taken ran),
              omega (arith, le),
              at,
              AllTaken-below index u p e taken all,
            )
      ]
