-- ===== src/Automation.antt =====
-- include/synthizer/property_automation_timeline.hpp and src/event_timeline.cpp: values that follow
-- the points of a timeline, and events sent at their time.
pub mod Values
mod Tests
use synthizer.Base.{
  ℕ, zero, suc, Bool, true, false, ◌||◌, not, Option, none, some, List, [], ◌∷◌, take, map, ◌==◌,
  if◌then◌else◌,
}
use synthizer.Float.{Float}
use synthizer.Timeline.{Timeline, minus_one, get_item, clear, empty_timeline}
use synthizer.Timeline

-- SYZ_INTERPOLATION_TYPE_NONE
abbrev pub interpolation_type_none : ℕ
interpolation_type_none = 0

-- Template arguments of the two timelines: one item of history, items copied back past 128.
abbrev pub history_length : ℕ
history_length = 1

abbrev pub copyback_threshold : ℕ
copyback_threshold = 128

-- `param` of an event, at its time.
pub record ScheduledEvent (Real : Type 0) : Type 0 where
  pub time : Real
  pub param : ℕ

pub record PropertyAutomationPoint (Real : Type 0) : Type 0 where
  pub interpolation_type : ℕ
  pub automation_time : Real
  pub values : List Real

pub record PropertyAutomationTimeline (Real : Type 0) : Type 0 where
  pub inner : Timeline (PropertyAutomationPoint Real)
  pub current_value : Option (List Real)
  pub finished : Bool

module _ {Real : Type 0} where
  -- The constructors from a point of the C API and from a point of six values keep the first N.
  abbrev pub automation_point : ℕ → Real → ℕ → List Real → PropertyAutomationPoint Real
  automation_point n time interpolation_type values = record {
    interpolation_type = interpolation_type;
    automation_time = time;
    values = take n values;
  }

  abbrev pub narrow : ℕ → PropertyAutomationPoint Real → PropertyAutomationPoint Real
  narrow n other = record other { values = take n other.values }

  unfoldable pub clear_points : PropertyAutomationTimeline Real → PropertyAutomationTimeline Real
  clear_points t = record t { inner = clear t.inner; current_value = none }

module _ (fl : Float) where
  open fl use {Real, of_unsigned, fadd, fsub, fmul, fdiv, fle}

  abbrev pub point_time : PropertyAutomationPoint Real → Real
  point_time p = p.automation_time

  abbrev pub event_time : ScheduledEvent Real → Real
  event_time e = e.time

  unfoldable pub add_point :
      PropertyAutomationPoint Real
      → PropertyAutomationTimeline Real
      → PropertyAutomationTimeline Real
  add_point point t = record t { inner = Timeline.add_item fl point_time point t.inner }

  -- The loop over the N values.
  abbrev pub weighted : Real → Real → List Real → List Real → List Real
  weighted w1 w2 (l ∷ ls) (c ∷ cs) = fadd (fmul w1 l) (fmul w2 c) ∷ weighted w1 w2 ls cs
  weighted w1 w2 ls cs = []

  -- The end of `tick`, between the points `last` and `cur`.
  unfoldable pub interpolate :
      Real
      → PropertyAutomationPoint Real
      → PropertyAutomationPoint Real
      → Option (List Real)
      → Option (List Real)
  interpolate time last cur current_value =
      let jumped =
        if last.interpolation_type == interpolation_type_none
          || cur.interpolation_type == interpolation_type_none
        then some last.values
        else current_value in
      let time_diff = fsub cur.automation_time last.automation_time in
      let w2 = fdiv (fsub time last.automation_time) time_diff in
      let w1 = fsub (of_unsigned 1) w2 in
      if not (cur.interpolation_type == interpolation_type_none)
      then (if fle time_diff (of_unsigned 0)
          then some cur.values
          else some (weighted w1 w2 last.values cur.values))
      else jumped

  -- `tick` after it has advanced the inner timeline, from the items `cur` and `last` it looks up.
  abbrev pub evaluate :
      Real
      → Timeline (PropertyAutomationPoint Real)
      → Option (List Real)
      → Option (PropertyAutomationPoint Real)
      → Option (PropertyAutomationPoint Real)
      → PropertyAutomationTimeline Real
  evaluate time inner current_value none maybe_last = record {
    inner = inner;
    current_value = none;
    finished = true;
  }
  evaluate time inner current_value (some cur) maybe_last =
      let held : PropertyAutomationTimeline Real = record {
        inner = inner;
        current_value = some cur.values;
        finished = true;
      } in
      if fle cur.automation_time time then held else elim maybe_last [
        | none ↦ record { inner = inner; current_value = none; finished = false }
        | some last ↦ record {
          inner = inner;
          current_value = interpolate time last cur current_value;
          finished = false;
        }
      ]

  unfoldable pub tick : Real → PropertyAutomationTimeline Real → PropertyAutomationTimeline Real
  tick time t =
      let inner = (Timeline.tick fl point_time history_length copyback_threshold time t.inner).0 in
      evaluate time inner t.current_value (get_item 0 inner) (get_item minus_one inner)

  -- EventTimeline: the timeline after a tick and the parameters of the events sent, in order.
  unfoldable pub tick_events :
      Real → Timeline (ScheduledEvent Real) → Timeline (ScheduledEvent Real) × List ℕ
  tick_events time t =
      let (timeline, called) =
        Timeline.tick fl event_time history_length copyback_threshold time t in
      (timeline, map (λ (e : ScheduledEvent Real). e.param) called)

  unfoldable pub add_event :
      ScheduledEvent Real → Timeline (ScheduledEvent Real) → Timeline (ScheduledEvent Real)
  add_event e t = Timeline.add_item fl event_time e t
