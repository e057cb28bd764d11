-- ===== src/Router/Blocks.antt =====
-- What finishBlock and the unregistering of handles leave of the routes of src/router.cpp.
use synthizer.Base.{
  ℕ, ◌+◌, ◌^◌, ◌<◌, ◌≡◌, refl, sym, ◌∙◌, inl, inr, Bool, not, ◌&&◌, ◌||◌, Option, none, some,
  some-injective, List, [], ◌∷◌, ◌==◌, if◌then◌else◌, select, arith, Bool-cases, subst,
}
use synthizer.VectorHelpers.Stable.{filter_stable-eq-select}
use synthizer.Float.{Float}
use mathlib.Core.List.{Mem}
use synthizer.Fader.{add32, is_active_at_time, try_is_active_at_time}
use synthizer.Fader.Assertions.{HasStarted, try_is_active_at_time-eq}
use synthizer.Router.{
  Biquad, Route, Router, is_alive, finish_block, unregister_output_handle, unregister_input_handle,
}
use synthizer.Router.Sorted.{AllAbove, IsSorted, lookup, lookup-above}

module _ (fl : Float) (bq : Biquad fl) where
  AllAbove-select :
      (p : Route fl bq → Bool) (o i : ℕ) (xs : List (Route fl bq))
      → AllAbove fl bq o i xs
      → AllAbove fl bq o i (select p xs)
  AllAbove-select p o i [] h = tt
  AllAbove-select p o i (x ∷ xs) h = elim (Bool-cases (p x)) [
    | inl e ↦ rw (e, AllAbove) (h.0, AllAbove-select p o i xs h.1)
    | inr e ↦ rw (e, AllAbove) (AllAbove-select p o i xs h.1)
  ]

  pub select-IsSorted :
      (p : Route fl bq → Bool) (xs : List (Route fl bq))
      → IsSorted fl bq xs
      → IsSorted fl bq (select p xs)
  select-IsSorted p [] h = tt
  select-IsSorted p (x ∷ xs) h = elim (Bool-cases (p x)) [
    | inl e ↦ rw (e, IsSorted) (AllAbove-select p x.output x.input xs h.0, select-IsSorted p xs h.1)
    | inr e ↦ rw (e, IsSorted) (select-IsSorted p xs h.1)
  ]

  pub lookup-select :
      (p : Route fl bq → Bool) (o i : ℕ) (xs : List (Route fl bq))
      → IsSorted fl bq xs
      → lookup fl bq o i (select p xs)
        ≡ elim (lookup fl bq o i xs) [ none ↦ none | some x ↦ if p x then some x else none ]
  lookup-select p o i [] h = refl
  lookup-select p o i (x ∷ xs) h =
      let ih = lookup-select p o i xs h.1 in
      elim (Bool-cases (x.output == o && x.input == i)) [
        | inl same ↦
            let keys : (x.output ≡ o) × (x.input ≡ i) = (ground arith, ground arith) in
            let gone = lookup-above fl bq o i xs (
              subst (λ k. AllAbove fl bq k i xs) keys.0
                (subst (λ k. AllAbove fl bq x.output k xs) keys.1 h.0)) in
            ground (arith, ih, gone)
        | inr other ↦ ground (arith, ih)
      ]

  pub finish_block-eq :
      (r : Router fl bq)
      → finish_block fl bq r
        ≡ some (record {
          routes = select (is_alive fl bq (add32 r.time 1)) r.routes;
          time = add32 r.time 1;
        })
  unfolding finish_block
  finish_block-eq r =
      rw (filter_stable-eq-select (is_alive fl bq (add32 r.time 1)) r.routes, finish_block)

  pub unregister_output_handle-eq :
      (o : ℕ) (r : Router fl bq)
      → unregister_output_handle fl bq o r
        ≡ some (record r { routes = select (λ (x : Route fl bq). not (x.output == o)) r.routes })
  unfolding unregister_output_handle
  unregister_output_handle-eq o r = rw (
    filter_stable-eq-select (λ (x : Route fl bq). not (x.output == o)) r.routes,
    unregister_output_handle,
  )

  pub unregister_input_handle-eq :
      (i : ℕ) (r : Router fl bq)
      → unregister_input_handle fl bq i r
        ≡ some (record r { routes = select (λ (x : Route fl bq). not (x.input == i)) r.routes })
  unfolding unregister_input_handle
  unregister_input_handle-eq i r = rw (
    filter_stable-eq-select (λ (x : Route fl bq). not (x.input == i)) r.routes,
    unregister_input_handle,
  )

  pub selected-IsSorted :
      (p : Route fl bq → Bool) (t : ℕ) (r r' : Router fl bq) (q : Option (Router fl bq))
      → q ≡ some (record { routes = select p r.routes; time = t })
      → q ≡ some r'
      → IsSorted fl bq r.routes
      → IsSorted fl bq r'.routes
  selected-IsSorted p t r r' q e₁ e₂ h =
      subst (λ (x : Router fl bq). IsSorted fl bq x.routes) (some-injective _ _ (sym e₁ ∙ e₂))
        (select-IsSorted p r.routes h)

  -- On sorted routes whose faders have started, and while the clock does not wrap, finishBlock ends
  -- and no assertion of a fader fails when it asks whether a route is alive at the new time. It
  -- moves the clock on by one, and each pair of handles keeps its route unchanged if that is alive
  -- at the new time, and has none else.
  pub lookup-finish_block :
      (r : Router fl bq)
      → IsSorted fl bq r.routes
      → ((x : Route fl bq) → Mem x r.routes → HasStarted fl r.time x.gain_driver)
      → r.time + 2 < 2 ^ 32
      → (r' : Router fl bq) × (finish_block fl bq r ≡ some r')
        × ((x : Route fl bq)
            → Mem x r.routes
            → (active : Bool) × (try_is_active_at_time fl r'.time (fl.of_unsigned 0) x.gain_driver
                ≡ some active)
              × (is_alive fl bq r'.time x ≡ not (x.output == 0 || x.input == 0 || not active)))
        × (r'.time ≡ r.time + 1)
        × ((o i : ℕ)
            → lookup fl bq o i r'.routes ≡ elim (lookup fl bq o i r.routes) [
              | none ↦ none
              | some x ↦ if is_alive fl bq (r.time + 1) x then some x else none
            ])
  unfolding is_alive
  lookup-finish_block r h started fits =
      let now : add32 r.time 1 ≡ r.time + 1 = omega (arith, fits) in
      (
        record {
          routes = select (is_alive fl bq (add32 r.time 1)) r.routes;
          time = add32 r.time 1;
        },
        finish_block-eq r,
        λ x m. (
          is_active_at_time fl (add32 r.time 1) (fl.of_unsigned 0) x.gain_driver,
          try_is_active_at_time-eq fl x.gain_driver (add32 r.time 1) (fl.of_unsigned 0)
              (omega (arith, started x m, now)) (omega (arith, fits, now)),
          refl,
        ),
        now,
        λ o i.
            subst
              (λ t.
                lookup fl bq o i (select (is_alive fl bq (add32 r.time 1)) r.routes)
                ≡ elim (lookup fl bq o i r.routes) [
                  | none ↦ none
                  | some x ↦ if is_alive fl bq t x then some x else none
                ])
              now (lookup-select (is_alive fl bq (add32 r.time 1)) o i r.routes h),
      )

  -- On sorted routes, unregistering an output removes exactly the routes from it.
  pub lookup-unregister_output_handle :
      (output : ℕ) (r : Router fl bq)
      → IsSorted fl bq r.routes
      → (r' : Router fl bq) × (unregister_output_handle fl bq output r ≡ some r')
        × ((o i : ℕ)
            → lookup fl bq o i r'.routes
              ≡ (if o == output then none else lookup fl bq o i r.routes))
  lookup-unregister_output_handle output r h = (
    record r { routes = select (λ (x : Route fl bq). not (x.output == output)) r.routes },
    unregister_output_handle-eq output r,
    λ o i. lookup-select (λ x. not (x.output == output)) o i r.routes h ∙ kept o i r.routes,
  )
    where
      kept :
          (o i : ℕ) (xs : List (Route fl bq))
          → elim (lookup fl bq o i xs) [
            | none ↦ none
            | some x ↦ if not (x.output == output) then some x else none
          ]
            ≡ (if o == output then none else lookup fl bq o i xs)
      kept o i [] = ground arith
      kept o i (x ∷ xs) = ground (arith, kept o i xs)
