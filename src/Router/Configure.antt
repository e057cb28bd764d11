-- ===== src/Router/Configure.antt =====
-- configureRoute of src/router.cpp as an update of the map from pairs of handles to routes.
use synthizer.Base.{
  ℕ, suc, ◌≡◌, refl, ap, sym, ◌∙◌, inl, inr, ◌&&◌, Option, none, some, List, [], ◌∷◌, get_elem?,
  set, ◌==◌, if◌then◌else◌, lower_bound, insert_at, arith, Bool-cases, Option-cases, subst,
}
use synthizer.Float.{Float}
use synthizer.Router.{
  Biquad, less, equal, greater, is_less, Route, Router, compare_routes, before, find_route_for_pair,
  configure_found, new_route, configure_routes, configure_route,
}
use synthizer.Router.Sorted.{
  KeyLt, compare_keys_cases, AllAbove, IsSorted, AllAbove-trans, lookup, lookup-above,
  lower_bound-less, lower_bound-stop,
}

module _ (fl : Float) (bq : Biquad fl) where
  module _ (o i : ℕ) (write : Route fl bq → Route fl bq) (new : Route fl bq) where
    -- configureRoute's search, write and insertion, over any write.
    place : List (Route fl bq) → ℕ → List (Route fl bq)
    place xs k = elim (get_elem? xs k) [
      | none ↦ insert_at xs k (write new)
      | some r ↦
          if r.output == o && r.input == i then set xs k (write r) else insert_at xs k (write new)
    ]

    -- The same by recursion along the order.
    abbrev pub upsert : List (Route fl bq) → List (Route fl bq)
    upsert [] = write new ∷ []
    upsert (x ∷ xs) = elim (compare_routes fl bq x o i) [
      | less ↦ x ∷ upsert xs
      | equal ↦ write x ∷ xs
      | greater ↦ write new ∷ x ∷ xs
    ]

    place-suc :
        (x : Route fl bq) (xs : List (Route fl bq)) (k : ℕ)
        → place (x ∷ xs) (suc k) ≡ x ∷ place xs k
    unfolding place
    place-suc x xs k = elim (Option-cases (get_elem? xs k)) [
      | inl e ↦ rw (e, place)
      | inr (r, e) ↦ elim (Bool-cases (r.output == o && r.input == i)) [
        | inl same ↦ rw (e, place) (rw same)
        | inr other ↦ rw (e, place) (rw other)
      ]
    ]

    place-eq-upsert :
        (xs : List (Route fl bq)) → place xs (lower_bound (before fl bq o i) xs) ≡ upsert xs
    unfolding place compare_routes
    place-eq-upsert [] = refl
    place-eq-upsert (x ∷ xs) = elim (compare_keys_cases x.output x.input o i) [
      | inl (e, lt) ↦
          ap (place (x ∷ xs)) (lower_bound-less fl bq o i x xs e)
          ∙ place-suc x xs _
          ∙ ap (λ t. x ∷ t) (place-eq-upsert xs)
          ∙ ground arith
      | inr (inl (e, e₁, e₂)) ↦
          ap (place (x ∷ xs)) (lower_bound-stop fl bq o i x xs (ap is_less e)) ∙ ground arith
      | inr (inr (e, gt)) ↦
          ap (place (x ∷ xs)) (lower_bound-stop fl bq o i x xs (ap is_less e)) ∙ ground arith
    ]

    configure_place :
        (xs : List (Route fl bq)) (k : ℕ) (q : Option ℕ)
        → q ≡ elim (get_elem? xs k) [
          | none ↦ none
          | some r ↦ if r.output == o && r.input == i then some k else none
        ]
        → elim q [
          | some j ↦ elim (get_elem? xs j) [ none ↦ xs | some r ↦ set xs j (write r) ]
          | none ↦ insert_at xs k (write new)
        ]
          ≡ place xs k
    unfolding place
    configure_place xs k q e = elim (Option-cases (get_elem? xs k)) [
      | inl h ↦ rw (h, place) (rw (e, h))
      | inr (r, h) ↦ elim (Bool-cases (r.output == o && r.input == i)) [
        | inl same ↦ rw (h, place) (rw e (rw h (rw same (rw h))))
        | inr other ↦ rw (h, place) (rw e (rw h (rw other)))
      ]
    ]

    upsert-less :
        (x : Route fl bq) (xs : List (Route fl bq))
        → compare_routes fl bq x o i ≡ less
        → upsert (x ∷ xs) ≡ x ∷ upsert xs
    upsert-less x xs e = rw (e, upsert)

    upsert-equal :
        (x : Route fl bq) (xs : List (Route fl bq))
        → compare_routes fl bq x o i ≡ equal
        → upsert (x ∷ xs) ≡ write x ∷ xs
    upsert-equal x xs e = rw (e, upsert)

    upsert-greater :
        (x : Route fl bq) (xs : List (Route fl bq))
        → compare_routes fl bq x o i ≡ greater
        → upsert (x ∷ xs) ≡ write new ∷ x ∷ xs
    upsert-greater x xs e = rw (e, upsert)

    module _ (keys : (r : Route fl bq) → ((write r).output ≡ o) × ((write r).input ≡ i)) where
      AllAbove-upsert :
          (o' i' : ℕ) (xs : List (Route fl bq))
          → KeyLt o' i' o i
          → AllAbove fl bq o' i' xs
          → AllAbove fl bq o' i' (upsert xs)
      unfolding compare_routes
      AllAbove-upsert o' i' [] lt h = (ground (arith, keys new), tt)
      AllAbove-upsert o' i' (x ∷ xs) lt h = elim (compare_keys_cases x.output x.input o i) [
        | inl (e, c) ↦
            subst (AllAbove fl bq o' i') (sym (upsert-less x xs e))
              (h.0, AllAbove-upsert o' i' xs lt h.1)
        | inr (inl (e, e₁, e₂)) ↦
            subst (AllAbove fl bq o' i') (sym (upsert-equal x xs e)) (ground (arith, keys x), h.1)
        | inr (inr (e, c)) ↦
            subst (AllAbove fl bq o' i') (sym (upsert-greater x xs e)) (ground (arith, keys new), h)
      ]

      written_above :
          (r : Route fl bq) (xs : List (Route fl bq))
          → AllAbove fl bq o i xs
          → AllAbove fl bq (write r).output (write r).input xs
      written_above r xs h =
          subst (λ k. AllAbove fl bq k (write r).input xs) (sym (keys r).0)
            (subst (λ k. AllAbove fl bq o k xs) (sym (keys r).1) h)

      upsert-IsSorted : (xs : List (Route fl bq)) → IsSorted fl bq xs → IsSorted fl bq (upsert xs)
      unfolding compare_routes
      upsert-IsSorted [] h = (tt, tt)
      upsert-IsSorted (x ∷ xs) h = elim (compare_keys_cases x.output x.input o i) [
        | inl (e, c) ↦
            subst (IsSorted fl bq) (sym (upsert-less x xs e))
              (AllAbove-upsert x.output x.input xs c h.0, upsert-IsSorted xs h.1)
        | inr (inl (e, e₁, e₂)) ↦ subst (IsSorted fl bq) (sym (upsert-equal x xs e)) (
          written_above x xs (
              subst (λ k. AllAbove fl bq k i xs) e₁
                (subst (λ k. AllAbove fl bq x.output k xs) e₂ h.0)),
          h.1,
        )
        | inr (inr (e, c)) ↦
            subst (IsSorted fl bq) (sym (upsert-greater x xs e)) (
              written_above new (x ∷ xs) (c, AllAbove-trans fl bq o i x.output x.input xs c h.0),
              h,
            )
      ]

      lookup-upsert :
          (o' i' : ℕ) (xs : List (Route fl bq))
          → IsSorted fl bq xs
          → lookup fl bq o' i' (upsert xs) ≡ (
              if o' == o && i' == i
              then some (write (elim (lookup fl bq o i xs) [ none ↦ new | some r ↦ r ]))
              else lookup fl bq o' i' xs)
      unfolding compare_routes
      lookup-upsert o' i' [] h = ground (arith, keys new)
      lookup-upsert o' i' (x ∷ xs) h = elim (compare_keys_cases x.output x.input o i) [
        | inl (e, c) ↦
            ap (lookup fl bq o' i') (upsert-less x xs e)
            ∙ ground (arith, lookup-upsert o' i' xs h.1)
        | inr (inl (e, e₁, e₂)) ↦
            ap (lookup fl bq o' i') (upsert-equal x xs e)
            ∙ ground (arith, keys x, lookup-above fl bq o i xs)
        | inr (inr (e, c)) ↦
            ap (lookup fl bq o' i') (upsert-greater x xs e)
            ∙ ground (
              arith,
              keys new,
              lookup-above fl bq o i xs (AllAbove-trans fl bq o i x.output x.input xs c h.0),
            )
      ]

  configure_routes-eq-upsert :
      (time o i : ℕ) (gain : fl.Real) (fade : ℕ) (cfg : bq.Config) (xs : List (Route fl bq))
      → configure_routes fl bq time o i gain fade cfg xs
        ≡ upsert o i (configure_found fl bq time o i gain fade cfg) (new_route fl bq o i cfg) xs
  unfolding configure_routes find_route_for_pair
  configure_routes-eq-upsert time o i gain fade cfg xs =
      let write = configure_found fl bq time o i gain fade cfg in
      let new = new_route fl bq o i cfg in
      configure_place o i write new xs (lower_bound (before fl bq o i) xs) _ refl
      ∙ place-eq-upsert o i write new xs

  configured_keys :
      (time o i : ℕ) (gain : fl.Real) (fade : ℕ) (cfg : bq.Config) (r : Route fl bq)
      → ((configure_found fl bq time o i gain fade cfg r).output ≡ o)
        × ((configure_found fl bq time o i gain fade cfg r).input ≡ i)
  unfolding configure_found
  configured_keys time o i gain fade cfg r = (refl, refl)

  pub configure_route-IsSorted :
      (o i : ℕ) (gain : fl.Real) (fade : ℕ) (cfg : bq.Config) (r : Router fl bq)
      → IsSorted fl bq r.routes
      → IsSorted fl bq (configure_route fl bq o i gain fade cfg r).routes
  unfolding configure_route
  configure_route-IsSorted o i gain fade cfg r h =
      subst (IsSorted fl bq) (sym (configure_routes-eq-upsert r.time o i gain fade cfg r.routes)) (
        upsert-IsSorted o i (configure_found fl bq r.time o i gain fade cfg)
          (new_route fl bq o i cfg) (configured_keys r.time o i gain fade cfg) r.routes h)

  -- On sorted routes, configureRoute is an update of the map from pairs to routes: the pair
  -- configured then has a route, the old one or a new one with the new fade and filter
  -- configuration written over it, and every other pair has the route or the absence it had.
  pub lookup-configure_route :
      (o i o' i' : ℕ) (gain : fl.Real) (fade : ℕ) (cfg : bq.Config) (r : Router fl bq)
      → IsSorted fl bq r.routes
      → lookup fl bq o' i' (configure_route fl bq o i gain fade cfg r).routes ≡ (
          if o' == o && i' == i
          then some (
              configure_found fl bq r.time o i gain fade cfg
                (elim (lookup fl bq o i r.routes) [ none ↦ new_route fl bq o i cfg | some x ↦ x ]))
          else lookup fl bq o' i' r.routes)
  unfolding configure_route
  lookup-configure_route o i o' i' gain fade cfg r h =
      ap (lookup fl bq o' i') (configure_routes-eq-upsert r.time o i gain fade cfg r.routes)
      ∙ lookup-upsert o i (configure_found fl bq r.time o i gain fade cfg) (new_route fl bq o i cfg)
          (configured_keys r.time o i gain fade cfg) o' i' r.routes h
