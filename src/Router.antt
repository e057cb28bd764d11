-- ===== src/Router.antt =====
-- include/synthizer/router.hpp and src/router.cpp: routes between outputs and inputs.
-- A handle is its address, and 0 is nullptr.
pub mod Sorted
pub mod Configure
pub mod Invariant
pub mod Blocks
pub mod Removal
pub mod Audio
mod Tests
use synthizer.Base.{
  ℕ, zero, suc, ◌+◌, ◌/◌, ◌%◌, ◌^◌, Bool, true, false, not, ◌||◌, ◌&&◌, Option, none, some, List,
  [], ◌∷◌, ◌++◌, length, get_elem?, set, ltb, leb, ◌==◌, if◌then◌else◌, take, drop, lower_bound,
  insert_at,
}
use synthizer.VectorHelpers.{filter_stable}
use synthizer.Float.{Float}
use synthizer.Fader.{FadeDriver, fade_driver, set_value, drive, is_active_at_time, add32}

-- What the router uses of src/biquad.cpp, which is not modelled: making a filter for a number of
-- channels, configuring one, and running one over a block.
pub record Biquad (fl : Float) : Type 1 where
  pub Config : Type 0
  pub Filter : Type 0
  pub create : ℕ → Filter
  pub configure : Config → Filter → Filter
  pub process_block : Filter → (ℕ → fl.Real) → Filter × (ℕ → fl.Real)

-- The order of `compareRoutes`, on the addresses of the two handles.
pub data Comparison : Type 0 where
  less equal greater : Comparison

unfoldable pub compare_keys : ℕ → ℕ → ℕ → ℕ → Comparison
compare_keys o₁ i₁ o₂ i₂ =
    if o₁ == o₂ && i₁ == i₂
    then equal
    else if ltb o₁ o₂ || o₁ == o₂ && ltb i₁ i₂
    then less
    else greater

abbrev pub is_less : Comparison → Bool
is_less less = true
is_less _ = false

module _ (fl : Float) (bq : Biquad fl) where
  open fl use {Real, of_unsigned, fmul}
  open bq use {Config, Filter, create, configure, process_block}

  pub record Route : Type 0 where
    pub input : ℕ
    pub output : ℕ
    pub gain_driver : FadeDriver fl
    pub last_channels : ℕ
    pub filter : Option Filter
    pub external_filter_config : Config

  pub record Router : Type 0 where
    pub routes : List Route
    pub time : ℕ

  unfoldable pub compare_routes : Route → ℕ → ℕ → Comparison
  compare_routes r output input = compare_keys r.output r.input output input

  abbrev pub before : ℕ → ℕ → Route → Bool
  before output input r = is_less (compare_routes r output input)

  -- Positions stand for iterators; `none` is routes.end().
  unfoldable pub find_route_for_pair : ℕ → ℕ → List Route → Option ℕ
  find_route_for_pair output input routes =
      let k = lower_bound (before output input) routes in
      elim (get_elem? routes k) [
        | none ↦ none
        | some r ↦ if r.output == output && r.input == input then some k else none
      ]

  unfoldable pub find_run : ℕ → List Route → Option ℕ
  find_run output routes =
      let k = lower_bound (before output 0) routes in
      elim (get_elem? routes k) [
        | none ↦ none
        | some r ↦ if r.output == output then some k else none
      ]

  -- The part of configureRoute that writes the route.
  unfoldable pub configure_found : ℕ → ℕ → ℕ → Real → ℕ → Config → Route → Route
  configure_found time output input gain fade_blocks filter_cfg r = record r {
    output = output;
    input = input;
    gain_driver = set_value fl time gain fade_blocks r.gain_driver;
    external_filter_config = filter_cfg;
    filter = elim r.filter [ none ↦ none | some f ↦ some (configure filter_cfg f) ];
  }

  -- A default constructed route; its filter configuration is set before it is read.
  unfoldable pub new_route : ℕ → ℕ → Config → Route
  new_route output input unset = record {
    input = input;
    output = output;
    gain_driver = fade_driver fl (of_unsigned 0) 1;
    last_channels = 0;
    filter = none;
    external_filter_config = unset;
  }

  unfoldable pub configure_routes : ℕ → ℕ → ℕ → Real → ℕ → Config → List Route → List Route
  configure_routes time output input gain fade_blocks filter_cfg routes =
      let write = configure_found time output input gain fade_blocks filter_cfg in
      elim (find_route_for_pair output input routes) [
        | some k ↦ elim (get_elem? routes k) [ none ↦ routes | some r ↦ set routes k (write r) ]
        | none ↦
            insert_at routes (lower_bound (before output input) routes)
              (write (new_route output input filter_cfg))
      ]

  unfoldable pub configure_route : ℕ → ℕ → Real → ℕ → Config → Router → Router
  configure_route output input gain fade_blocks filter_cfg r = record r {
    routes = configure_routes r.time output input gain fade_blocks filter_cfg r.routes;
  }

  unfoldable pub remove_route : ℕ → ℕ → ℕ → Router → Router
  remove_route output input fade_out r = elim (find_route_for_pair output input r.routes) [
    | none ↦ r
    | some k ↦ elim (get_elem? r.routes k) [
      | none ↦ r
      | some x ↦ configure_route output input (of_unsigned 0) fade_out x.external_filter_config r
    ]
  ]

  -- Fading out the route at one place of the vector, the body of both removeAllRoutes loops.
  unfoldable pub fade_out_route : ℕ → Route → Router → Router
  fade_out_route fade_out x r =
      configure_route x.output x.input (of_unsigned 0) fade_out x.external_filter_config r

  -- removeAllRoutes(output): from place `i` on while the output matches, at most `rounds` places.
  pub remove_run : ℕ → ℕ → ℕ → ℕ → Router → Router
  remove_run zero output fade_out i r = r
  remove_run (suc rounds) output fade_out i r = elim (get_elem? r.routes i) [
    | none ↦ r
    | some x ↦ elim (x.output == output) [
      | false ↦ r
      | true ↦ remove_run rounds output fade_out (i + 1) (fade_out_route fade_out x r)
    ]
  ]

  unfoldable pub remove_all_output_routes : ℕ → ℕ → Router → Router
  remove_all_output_routes output fade_out r = elim (find_run output r.routes) [
    | none ↦ r
    | some i ↦ remove_run (length r.routes) output fade_out i r
  ]

  -- removeAllRoutes(input): over every place.
  pub remove_matching : ℕ → ℕ → ℕ → ℕ → Router → Router
  remove_matching zero input fade_out i r = r
  remove_matching (suc rounds) input fade_out i r = elim (get_elem? r.routes i) [
    | none ↦ r
    | some x ↦
        remove_matching rounds input fade_out (i + 1)
          (if x.input == input then fade_out_route fade_out x r else r)
  ]

  unfoldable pub remove_all_input_routes : ℕ → ℕ → Router → Router
  remove_all_input_routes input fade_out r = remove_matching (length r.routes) input fade_out 0 r

  -- One pass of the loop of routeAudio for a route with an input: the gain over the buffer, the
  -- filter made anew where there is none for this number of channels, and what is mixed to the input.
  unfoldable pub process_route : ℕ → (ℕ → Real) → ℕ → Route → Route × (ℕ × (ℕ → Real))
  process_route time buffer channels x =
      let (gain_driver, gain) = drive fl time x.gain_driver in
      let working_buf : ℕ → Real = λ i. fmul (gain (i / channels)) (buffer i) in
      let fresh = create channels in
      let filter : Filter = elim x.filter [
        | none ↦ fresh
        | some f ↦ if x.last_channels == channels then f else fresh
      ] in
      let (after, out) = process_block (configure x.external_filter_config filter) working_buf in
      (
        record x { gain_driver = gain_driver; filter = some after; last_channels = channels },
        (x.input, out),
      )

  -- The loop, over the routes from the run on; what each input is sent, in order.
  pub route_run : ℕ → ℕ → (ℕ → Real) → ℕ → List Route → List Route × List (ℕ × (ℕ → Real))
  route_run this time buffer channels [] = ([], [])
  route_run this time buffer channels (x ∷ xs) =
      let (rest, sent) = route_run this time buffer channels xs in
      let (x', message) = process_route time buffer channels x in
      if x.output == this
      then (if x.input == 0 then (x ∷ rest, sent) else (x' ∷ rest, message ∷ sent))
      else (x ∷ xs, [])

  unfoldable pub route_audio : ℕ → (ℕ → Real) → ℕ → Router → Router × List (ℕ × (ℕ → Real))
  route_audio this buffer channels r = elim (find_run this r.routes) [
    | none ↦ (r, [])
    | some k ↦
        let (rest, sent) = route_run this r.time buffer channels (drop k r.routes) in
        (record r { routes = take k r.routes ++ rest }, sent)
  ]

  -- The test of finishBlock: the route is kept.
  unfoldable pub is_alive : ℕ → Route → Bool
  is_alive time r = not (
      r.output == 0
      || r.input == 0
      || not (is_active_at_time fl time (of_unsigned 0) r.gain_driver))

  unfoldable pub finish_block : Router → Option Router
  finish_block r =
      let time = add32 r.time 1 in
      elim (filter_stable (is_alive time) r.routes) [
        | none ↦ none
        | some routes ↦ some (record { routes = routes; time = time })
      ]

  unfoldable pub unregister_output_handle : ℕ → Router → Option Router
  unregister_output_handle output r =
      elim (filter_stable (λ (x : Route). not (x.output == output)) r.routes) [
        | none ↦ none
        | some routes ↦ some (record r { routes = routes })
      ]

  unfoldable pub unregister_input_handle : ℕ → Router → Option Router
  unregister_input_handle input r =
      elim (filter_stable (λ (x : Route). not (x.input == input)) r.routes) [
        | none ↦ none
        | some routes ↦ some (record r { routes = routes })
      ]
