-- ===== src/Router/Sorted.antt =====
-- The order of the routes of src/router.cpp, and the search for a pair in it.
use synthizer.Base.{
  ℕ, suc, ◌<◌, ◌≡◌, refl, ap, sym, ◌∙◌, ◌⊎◌, inl, inr, false, ◌&&◌, Option, none, some, List, [],
  ◌∷◌, get_elem?, ◌==◌, if◌then◌else◌, lower_bound, arith,
}
use synthizer.Float.{Float}
use synthizer.Router.{
  Biquad, less, equal, greater, compare_keys, is_less, Route, compare_routes, before,
  find_route_for_pair,
}

-- The order of the keys of the routes.
abbrev pub KeyLt : ℕ → ℕ → ℕ → ℕ → Type 0
KeyLt o₁ i₁ o₂ i₂ = (o₁ < o₂) ⊎ (o₁ ≡ o₂) × (i₁ < i₂)

KeyLt-trans : (o₁ i₁ o₂ i₂ o₃ i₃ : ℕ) → KeyLt o₁ i₁ o₂ i₂ → KeyLt o₂ i₂ o₃ i₃ → KeyLt o₁ i₁ o₃ i₃
KeyLt-trans o₁ i₁ o₂ i₂ o₃ i₃ h k = omega arith

-- compareRoutes decides this order.
pub compare_keys_cases :
    (o₁ i₁ o₂ i₂ : ℕ)
    → (compare_keys o₁ i₁ o₂ i₂ ≡ less) × KeyLt o₁ i₁ o₂ i₂
      ⊎ (compare_keys o₁ i₁ o₂ i₂ ≡ equal) × (o₁ ≡ o₂) × (i₁ ≡ i₂)
      ⊎ (compare_keys o₁ i₁ o₂ i₂ ≡ greater) × KeyLt o₂ i₂ o₁ i₁
unfolding compare_keys
compare_keys_cases o₁ i₁ o₂ i₂ = ground arith

module _ (fl : Float) (bq : Biquad fl) where
  -- Every route lies strictly after the key.
  abbrev pub AllAbove : ℕ → ℕ → List (Route fl bq) → Type 0
  AllAbove o i [] = Unit
  AllAbove o i (x ∷ xs) = KeyLt o i x.output x.input × AllAbove o i xs

  -- Strictly sorted by output and input, so at most one route for each pair.
  abbrev pub IsSorted : List (Route fl bq) → Type 0
  IsSorted [] = Unit
  IsSorted (x ∷ xs) = AllAbove x.output x.input xs × IsSorted xs

  pub AllAbove-trans :
      (o i o' i' : ℕ) (xs : List (Route fl bq))
      → KeyLt o i o' i'
      → AllAbove o' i' xs
      → AllAbove o i xs
  AllAbove-trans o i o' i' [] h k = tt
  AllAbove-trans o i o' i' (x ∷ xs) h k =
      (KeyLt-trans o i o' i' x.output x.input h k.0, AllAbove-trans o i o' i' xs h k.1)

  -- The route of a pair, the abstract view of the vector of routes.
  abbrev pub lookup : ℕ → ℕ → List (Route fl bq) → Option (Route fl bq)
  lookup o i [] = none
  lookup o i (x ∷ xs) = if x.output == o && x.input == i then some x else lookup o i xs

  pub lookup-above : (o i : ℕ) (xs : List (Route fl bq)) → AllAbove o i xs → lookup o i xs ≡ none
  lookup-above o i [] h = refl
  lookup-above o i (x ∷ xs) h = ground (arith, lookup-above o i xs h.1)

  -- What the search returns, read back from the vector.
  abbrev pub found : ℕ → ℕ → List (Route fl bq) → Option (Route fl bq)
  found o i xs = elim (find_route_for_pair fl bq o i xs) [ none ↦ none | some k ↦ get_elem? xs k ]

  -- The route at a place, if its pair is the one looked for.
  abbrev pub read_at : ℕ → ℕ → List (Route fl bq) → ℕ → Option (Route fl bq)
  read_at o i xs k = elim (get_elem? xs k) [
    | none ↦ none
    | some r ↦ if r.output == o && r.input == i then some r else none
  ]

  read_back :
      (o i : ℕ) (xs : List (Route fl bq)) (k : ℕ) (q : Option ℕ)
      → q ≡ elim (get_elem? xs k) [
        | none ↦ none
        | some r ↦ if r.output == o && r.input == i then some k else none
      ]
      → elim q [ none ↦ none | some j ↦ get_elem? xs j ] ≡ read_at o i xs k
  read_back o i xs k q e = ground arith

  found-read :
      (o i : ℕ) (xs : List (Route fl bq))
      → found o i xs ≡ read_at o i xs (lower_bound (before fl bq o i) xs)
  unfolding find_route_for_pair
  found-read o i xs = read_back o i xs (lower_bound (before fl bq o i) xs) _ refl

  pub lower_bound-less :
      (o i : ℕ) (x : Route fl bq) (xs : List (Route fl bq))
      → compare_routes fl bq x o i ≡ less
      → lower_bound (before fl bq o i) (x ∷ xs) ≡ suc (lower_bound (before fl bq o i) xs)
  lower_bound-less o i x xs h = rw h

  pub lower_bound-stop :
      (o i : ℕ) (x : Route fl bq) (xs : List (Route fl bq))
      → is_less (compare_routes fl bq x o i) ≡ false
      → lower_bound (before fl bq o i) (x ∷ xs) ≡ 0
  lower_bound-stop o i x xs h = rw h

  found-less :
      (o i : ℕ) (x : Route fl bq) (xs : List (Route fl bq))
      → compare_routes fl bq x o i ≡ less
      → found o i (x ∷ xs) ≡ found o i xs
  found-less o i x xs h =
      found-read o i (x ∷ xs)
      ∙ ap (read_at o i (x ∷ xs)) (lower_bound-less o i x xs h)
      ∙ sym (found-read o i xs)

  found-stop :
      (o i : ℕ) (x : Route fl bq) (xs : List (Route fl bq))
      → is_less (compare_routes fl bq x o i) ≡ false
      → found o i (x ∷ xs) ≡ read_at o i (x ∷ xs) 0
  found-stop o i x xs h =
      found-read o i (x ∷ xs) ∙ ap (read_at o i (x ∷ xs)) (lower_bound-stop o i x xs h)

  -- In a sorted vector the search by `lower_bound` finds the route of a pair exactly when there is
  -- one: it agrees with looking through all the routes.
  pub found-eq-lookup :
      (o i : ℕ) (xs : List (Route fl bq)) → IsSorted xs → found o i xs ≡ lookup o i xs
  unfolding compare_routes
  found-eq-lookup o i [] h = found-read o i []
  found-eq-lookup o i (x ∷ xs) h = elim (compare_keys_cases x.output x.input o i) [
    | inl (e, lt) ↦ found-less o i x xs e ∙ found-eq-lookup o i xs h.1 ∙ ground arith
    | inr (inl (e, e₁, e₂)) ↦ found-stop o i x xs (ap is_less e) ∙ ground arith
    | inr (inr (e, gt)) ↦
        found-stop o i x xs (ap is_less e)
        ∙ ground (arith, lookup-above o i xs (AllAbove-trans o i x.output x.input xs gt h.0))
  ]
