-- ===== src/Router/Audio.antt =====
-- OutputHandle::routeAudio of src/router.cpp: which routes a block of audio goes through.
use synthizer.Base.{
  ℕ, Bool, not, ◌&&◌, List, ◌++◌, take, drop, ◌==◌, map, select, if◌then◌else◌, All, ◌≤◌,
}
use synthizer.Float.{Float}
use synthizer.Router.{Biquad, Route, Router, process_route, route_run}

module _ (fl : Float) (bq : Biquad fl) (this time : ℕ) (buffer : ℕ → fl.Real) (channels : ℕ) where
  abbrev Sent : Type 0
  Sent = ℕ × (ℕ → fl.Real)

  -- A route that the block goes through.
  abbrev pub carries : Route fl bq → Bool
  carries x = x.output == this && not (x.input == 0)

  abbrev pub processed : Route fl bq → Route fl bq
  processed x = if carries x then (process_route fl bq time buffer channels x).0 else x

  abbrev pub message : Route fl bq → Sent
  message x = (process_route fl bq time buffer channels x).1

  -- The routes after the block, and what is sent.
  abbrev pub routed : List (Route fl bq) → List (Route fl bq) × List Sent
  routed xs = (map processed xs, map message (select carries xs))

  abbrev AtLeast : List (Route fl bq) → Type 0
  AtLeast xs = All (λ (x : Route fl bq). this ≤ x.output) xs

  -- The same with the part before the run.
  split_at : List (Route fl bq) → ℕ → List (Route fl bq) × List Sent
  split_at xs k =
      let (rest, sent) = route_run fl bq this time buffer channels (drop k xs) in
      (take k xs ++ rest, sent)

module _ (fl : Float) (bq : Biquad fl) where
  with_routes :
      Router fl bq
      → List (Route fl bq) × List (ℕ × (ℕ → fl.Real))
      → Router fl bq × List (ℕ × (ℕ → fl.Real))
  with_routes r t = (record r { routes = t.0 }, t.1)
