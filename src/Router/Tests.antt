-- ===== src/Router/Tests.antt =====
-- Runs of the router over whole numbers.
use mathlib.Core.Logic.Or
use native.Mathlib.Bridge.{le_prop}
use mathlib.Core.List.{Mem, mem-cons, not-mem-nil}
use synthizer.Base.{
  ℕ, ◌+◌, sym, subst, not, ◌||◌, Bool, ◌≡◌, refl, false, none, some, [], ◌∷◌, arith, ◌==◌, ◌&&◌,
  if◌then◌else◌,
}
use synthizer.Samples.{nat_float, nat_biquad}
use synthizer.Fader.{FadeDriver, try_is_active_at_time}
use synthizer.Fader.Assertions.{HasStarted}
use synthizer.Router.{
  Route, Router, configure_found, new_route, configure_route, remove_route, is_alive, finish_block,
}
use synthizer.Router.Sorted.{lookup}
use synthizer.Router.Configure.{lookup-configure_route}
use synthizer.Router.Blocks.{lookup-finish_block}
use synthizer.Router.Removal.{finish_blocks, removed_in_time}

abbrev SampleRoute : Type 0
SampleRoute = Route nat_float nat_biquad

abbrev SampleRouter : Type 0
SampleRouter = Router nat_float nat_biquad

-- A driver that has been heard at full gain.
abbrev full : FadeDriver nat_float
full = record {
  fader = record { start_time = 0; end_time = 0; start_value = 1; slope = 1; end_value = 1 };
  fade_time_in_blocks = 1;
  was_silent = false;
}

abbrev route : ℕ → ℕ → SampleRoute
route o i = record {
  input = i;
  output = o;
  gain_driver = full;
  last_channels = 0;
  filter = none;
  external_filter_config = 5;
}

abbrev three : SampleRouter
three = record { routes = route 2 1 ∷ route 2 4 ∷ route 7 1 ∷ []; time = 10 }

abbrev no_routes : SampleRouter
no_routes = record { routes = []; time = 0 }

lookup-configure_route_example :
    lookup nat_float nat_biquad 2 4 (configure_route nat_float nat_biquad 2 3 9 0 6 three).routes
    ≡ (if 2 == 2 && 4 == 3
        then some (
            configure_found nat_float nat_biquad 10 2 3 9 0 6
              (elim (lookup nat_float nat_biquad 2 3 three.routes) [
                | none ↦ new_route nat_float nat_biquad 2 3 6
                | some x ↦ x
              ]))
        else lookup nat_float nat_biquad 2 4 three.routes)
lookup-configure_route_example =
    lookup-configure_route nat_float nat_biquad 2 3 2 4 9 0 6 three (omega arith)

-- Every route of the sample has the same driver.
abbrev HasFull : SampleRoute → Type 0
HasFull x = HasStarted nat_float 10 x.gain_driver

HasFull-prop : (x : SampleRoute) → IsProp (HasFull x)
HasFull-prop x = le_prop

same_driver : (x y : SampleRoute) → x ≡ y → HasFull y → HasFull x
same_driver x y e h = subst HasFull (sym e) h

all_started : (x : SampleRoute) → Mem x three.routes → HasStarted nat_float three.time x.gain_driver
all_started x m =
    Or.elim (HasFull-prop x) (mem-cons.0 m) (λ e. same_driver x (route 2 1) e (omega arith))
      (λ n.
        Or.elim (HasFull-prop x) (mem-cons.0 n) (λ e. same_driver x (route 2 4) e (omega arith))
          (λ l.
            Or.elim (HasFull-prop x) (mem-cons.0 l) (λ e. same_driver x (route 7 1) e (omega arith))
              (λ q. absurd (not-mem-nil q))))

lookup-finish_block_example :
    (r' : SampleRouter) × (finish_block nat_float nat_biquad three ≡ some r')
    × ((x : SampleRoute)
        → Mem x three.routes
        → (active : Bool) × (try_is_active_at_time nat_float r'.time 0 x.gain_driver ≡ some active)
          × (is_alive nat_float nat_biquad r'.time x
              ≡ not (x.output == 0 || x.input == 0 || not active)))
    × (r'.time ≡ 10 + 1)
    × ((o i : ℕ)
        → lookup nat_float nat_biquad o i r'.routes
          ≡ elim (lookup nat_float nat_biquad o i three.routes) [
            | none ↦ none
            | some x ↦ if is_alive nat_float nat_biquad (10 + 1) x then some x else none
          ])
lookup-finish_block_example =
    lookup-finish_block nat_float nat_biquad three (omega arith) all_started (omega arith)

removed_in_time_example :
    (r' : SampleRouter) × (finish_blocks nat_float nat_biquad 3
        (remove_route nat_float nat_biquad 2 4 3 three)
      ≡ some r')
    × (lookup nat_float nat_biquad 2 4 r'.routes ≡ none)
removed_in_time_example =
    removed_in_time nat_float nat_biquad 2 4 3 3 three (route 2 4) refl (omega arith) refl
      (omega arith) (omega arith) (omega arith)
