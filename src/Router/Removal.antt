-- ===== src/Router/Removal.antt =====
-- How long a removed route of src/router.cpp stays.
use synthizer.Base.{
  dec_le, ℕ, zero, suc, ◌+◌, ◌^◌, ◌<◌, ◌≤◌, ◌≡◌, refl, ap, ◌∙◌, ◌⊎◌, inl, inr, false, Option, none,
  some, get_elem?, select, arith, Bool-cases, Option-cases,
}
use synthizer.Float.{Float}
use synthizer.Fader.{add32, FadeDriver, effective_fade, set_value, is_active_at_time}
use synthizer.Fader.Laws.{set_value_inactive}
use synthizer.Router.{
  Biquad, Route, Router, find_route_for_pair, configure_found, configure_route, remove_route,
  is_alive, finish_block,
}
use synthizer.Router.Sorted.{IsSorted, lookup, found, found-eq-lookup}
use synthizer.Router.Configure.{configure_route-IsSorted, lookup-configure_route}
use synthizer.Router.Blocks.{select-IsSorted, lookup-select, finish_block-eq}

module _ (fl : Float) (bq : Biquad fl) where
  -- Any number of blocks.
  pub finish_blocks : ℕ → Router fl bq → Option (Router fl bq)
  finish_blocks zero r = some r
  finish_blocks (suc n) r = elim (finish_block fl bq r) [
    | none ↦ none
    | some r' ↦ finish_blocks n r'
  ]

  -- The pair has no route, or one with this driver.
  abbrev Fading : ℕ → ℕ → FadeDriver fl → Router fl bq → Type 0
  Fading o i d r =
      (lookup fl bq o i r.routes ≡ none)
      ⊎ ((x : Route fl bq) × (lookup fl bq o i r.routes ≡ some x) × (x.gain_driver ≡ d))

  -- The router after a block.
  abbrev finished : Router fl bq → Router fl bq
  finished r = record {
    routes = select (is_alive fl bq (add32 r.time 1)) r.routes;
    time = add32 r.time 1;
  }

  finish_blocks-suc :
      (n : ℕ) (r : Router fl bq) → finish_blocks (suc n) r ≡ finish_blocks n (finished r)
  unfolding finish_blocks
  finish_blocks-suc n r = rw (finish_block-eq fl bq r, finish_blocks)

  gone_stays :
      (o i n : ℕ) (r : Router fl bq)
      → IsSorted fl bq r.routes
      → lookup fl bq o i r.routes ≡ none
      → (r' : Router fl bq) × (finish_blocks n r ≡ some r') × (lookup fl bq o i r'.routes ≡ none)
  unfolding finish_blocks
  gone_stays o i zero r h e = (r, refl, e)
  gone_stays o i (suc n) r h e =
      let alive = is_alive fl bq (add32 r.time 1) in
      let (r', done, gone) =
        gone_stays o i n (finished r) (select-IsSorted fl bq alive r.routes h)
          (lookup-select fl bq alive o i r.routes h ∙ rw e) in
      (r', finish_blocks-suc n r ∙ done, gone)

  still-Fading :
      (o i : ℕ) (d : FadeDriver fl) (r : Router fl bq)
      → IsSorted fl bq r.routes
      → Fading o i d r
      → Fading o i d (finished r)
  still-Fading o i d r h (inl e) =
      inl (lookup-select fl bq (is_alive fl bq (add32 r.time 1)) o i r.routes h ∙ rw e)
  still-Fading o i d r h (inr (x, e, same)) =
      let kept = lookup-select fl bq (is_alive fl bq (add32 r.time 1)) o i r.routes h in
      elim (Bool-cases (is_alive fl bq (add32 r.time 1) x)) [
        | inl alive ↦ inr (x, kept ∙ rw e (rw alive), same)
        | inr dead ↦ inl (kept ∙ rw e (rw dead))
      ]

  now_gone :
      (o i : ℕ) (d : FadeDriver fl) (r : Router fl bq)
      → IsSorted fl bq r.routes
      → is_active_at_time fl (add32 r.time 1) (fl.of_unsigned 0) d ≡ false
      → Fading o i d r
      → lookup fl bq o i (finished r).routes ≡ none
  unfolding is_alive
  now_gone o i d r h quiet (inl e) =
      lookup-select fl bq (is_alive fl bq (add32 r.time 1)) o i r.routes h ∙ rw e
  now_gone o i d r h quiet (inr (x, e, same)) =
      let dead : is_alive fl bq (add32 r.time 1) x ≡ false =
        ground (arith, ap (is_active_at_time fl (add32 r.time 1) (fl.of_unsigned 0)) same) in
      lookup-select fl bq (is_alive fl bq (add32 r.time 1)) o i r.routes h ∙ rw e (rw dead)

  Fading-ends :
      (o i end_time n : ℕ) (d : FadeDriver fl) (r : Router fl bq)
      → ((u : ℕ)
          → end_time ≤ u
          → u + 1 < 2 ^ 32
          → is_active_at_time fl u (fl.of_unsigned 0) d ≡ false)
      → IsSorted fl bq r.routes
      → end_time ≤ r.time + n
      → 0 < n
      → r.time + n + 1 < 2 ^ 32
      → Fading o i d r
      → (r' : Router fl bq) × (finish_blocks n r ≡ some r') × (lookup fl bq o i r'.routes ≡ none)
  unfolding finish_blocks
  Fading-ends o i end_time zero d r quiet h e₁ e₂ e₃ f = absurd (omega arith)
  Fading-ends o i end_time (suc n) d r quiet h e₁ e₂ e₃ f =
      let clock : add32 r.time 1 ≡ r.time + 1 = omega arith in
      let sorted = select-IsSorted fl bq (is_alive fl bq (add32 r.time 1)) r.routes h in
      elim (dec_le end_time (r.time + 1)) [
        | yes over ↦
            let silent = quiet (add32 r.time 1) (omega arith) (omega arith) in
            let (r', done, gone) =
              gone_stays o i n (finished r) sorted (now_gone o i d r h silent f) in
            (r', finish_blocks-suc n r ∙ done, gone)
        | no more ↦
            let (r', done, gone) =
              Fading-ends o i end_time n d (finished r) quiet sorted (omega arith) (omega arith)
                (omega arith) (still-Fading o i d r h f) in
            (r', finish_blocks-suc n r ∙ done, gone)
      ]

  remove_route-eq :
      (o i fade : ℕ) (r : Router fl bq) (x : Route fl bq)
      → found fl bq o i r.routes ≡ some x
      → remove_route fl bq o i fade r
        ≡ configure_route fl bq o i (fl.of_unsigned 0) fade x.external_filter_config r
  unfolding remove_route
  remove_route-eq o i fade r x e = elim (Option-cases (find_route_for_pair fl bq o i r.routes)) [
    | inl none_found ↦ let e' : none ≡ some x = rw (none_found, found) at e in cc e'
    | inr (k, at_k) ↦
        let e' : get_elem? r.routes k ≡ some x = rw (at_k, found) at e in
        rw (at_k, remove_route) (rw e')
  ]

  configured_driver :
      (time o i : ℕ) (gain : fl.Real) (fade : ℕ) (cfg : bq.Config) (x : Route fl bq)
      → (configure_found fl bq time o i gain fade cfg x).gain_driver
        ≡ set_value fl time gain fade x.gain_driver
  unfolding configure_found
  configured_driver time o i gain fade cfg x = refl

  configured_time :
      (o i : ℕ) (gain : fl.Real) (fade : ℕ) (cfg : bq.Config) (r : Router fl bq)
      → (configure_route fl bq o i gain fade cfg r).time ≡ r.time
  unfolding configure_route
  configured_time o i gain fade cfg r = refl

  -- Where zero is not less than zero: on sorted routes, a route that is removed with a fade is gone
  -- once as many blocks have been finished as the fade takes (the driver's own fade where it is 0),
  -- and at least one, if the clock does not wrap meanwhile.
  pub removed_in_time :
      (o i fade n : ℕ) (r : Router fl bq) (x : Route fl bq)
      → fl.flt (fl.of_unsigned 0) (fl.of_unsigned 0) ≡ false
      → IsSorted fl bq r.routes
      → lookup fl bq o i r.routes ≡ some x
      → effective_fade fl x.gain_driver fade ≤ n
      → 0 < n
      → r.time + n + 1 < 2 ^ 32
      → (r' : Router fl bq) × (finish_blocks n (remove_route fl bq o i fade r) ≡ some r')
        × (lookup fl bq o i r'.routes ≡ none)
  removed_in_time o i fade n r x irr h e e₁ e₂ e₃ =
      let zero_gain = fl.of_unsigned 0 in
      let cfg = x.external_filter_config in
      let removed = remove_route-eq o i fade r x (found-eq-lookup fl bq o i r.routes h ∙ e) in
      let after = configure_route fl bq o i zero_gain fade cfg r in
      let same_time : after.time ≡ r.time = configured_time o i zero_gain fade cfg r in
      let at_pair : lookup fl bq o i after.routes
          ≡ some (configure_found fl bq r.time o i zero_gain fade cfg x) =
        lookup-configure_route fl bq o i o i zero_gain fade cfg r h ∙ ground (arith, e) in
      let (r', done, gone) =
        Fading-ends o i (r.time + effective_fade fl x.gain_driver fade) n
          (set_value fl r.time zero_gain fade x.gain_driver) after
          (λ u late room. set_value_inactive fl x.gain_driver r.time u fade zero_gain irr late room)
          (configure_route-IsSorted fl bq o i zero_gain fade cfg r h) (omega (arith, same_time)) e₂
          (omega (arith, same_time))
          (inr (
            configure_found fl bq r.time o i zero_gain fade cfg x,
            at_pair,
            configured_driver r.time o i zero_gain fade cfg x,
          )) in
      (r', ap (finish_blocks n) removed ∙ done, gone)
