-- ===== src/Automation/Values.antt =====
-- The value of include/synthizer/property_automation_timeline.hpp at a time, from all its points.
use synthizer.Base.{
  All-get_elem?, ◌-◌, ◌^◌, ◌<◌, ◌≡◌, refl, ap, inl, inr, Bool, true, false, Option, none, some,
  List, [], ◌∷◌, ◌++◌, length, ◌==◌, if◌then◌else◌, map, arith, Bool-cases, Option-cases, All,
}
use synthizer.Float.{Float}
use synthizer.Timeline.{Timeline, minus_one, get_item, copy_back_if_needed}
use synthizer.Timeline
use synthizer.Timeline.Refinement.{Represents, length-tick, due, not_due, tick-refines}
use synthizer.Timeline.Items.{last_of, first_or, get_item-refines}
use synthizer.Automation.{
  PropertyAutomationPoint, PropertyAutomationTimeline, ScheduledEvent, history_length,
  copyback_threshold, interpolation_type_none, point_time, event_time, weighted, interpolate,
  evaluate, tick, tick_events,
}

module _ (fl : Float) where
  open fl use {Real, of_unsigned, fadd, fsub, fmul, fdiv, fle}

  -- The value between two points: the old value up to a point of type none, and otherwise the
  -- weighted sum, or the new value where the points do not lie apart.
  abbrev pub between :
      Real → PropertyAutomationPoint Real → PropertyAutomationPoint Real → List Real
  between time last cur =
      let time_diff = fsub cur.automation_time last.automation_time in
      let w2 = fdiv (fsub time last.automation_time) time_diff in
      if cur.interpolation_type == interpolation_type_none
      then last.values
      else if fle time_diff (of_unsigned 0)
      then cur.values
      else weighted fl (fsub (of_unsigned 1) w2) w2 last.values cur.values

  -- The value and whether the timeline is finished, from the last point passed and the first to come.
  abbrev pub value_at :
      Real
      → Option (PropertyAutomationPoint Real)
      → List (PropertyAutomationPoint Real)
      → Option (List Real) × Bool
  value_at time none [] = (none, true)
  value_at time (some last) [] = (some last.values, true)
  value_at time none (cur ∷ rest) = (none, false)
  value_at time (some last) (cur ∷ rest) = (some (between time last cur), false)

  abbrev pub IsDue : Real → PropertyAutomationPoint Real → Type 0
  IsDue time p = fle p.automation_time time ≡ true

  interpolate-eq-between :
      (time : Real) (last cur : PropertyAutomationPoint Real) (old : Option (List Real))
      → interpolate fl time last cur old ≡ some (between time last cur)
  unfolding interpolate
  interpolate-eq-between time last cur old = ground arith

  All-append_due :
      (time : Real) (past pending : List (PropertyAutomationPoint Real))
      → All (IsDue time) past
      → All (IsDue time) (past ++ due fl (point_time fl) time pending)
  All-append_due time [] [] h = tt
  All-append_due time [] (x ∷ xs) h = elim (Bool-cases (fle x.automation_time time)) [
    | inl d ↦ rw d (d, All-append_due time [] xs tt)
    | inr d ↦ rw d tt
  ]
  All-append_due time (p ∷ past) pending h = (h.0, All-append_due time past pending h.1)

  abbrev StartsLate : Real → List (PropertyAutomationPoint Real) → Type 0
  StartsLate time [] = Unit
  StartsLate time (x ∷ xs) = fle x.automation_time time ≡ false

  not_due-StartsLate :
      (time : Real) (pending : List (PropertyAutomationPoint Real))
      → StartsLate time (not_due fl (point_time fl) time pending)
  not_due-StartsLate time [] = tt
  not_due-StartsLate time (x ∷ xs) = elim (Bool-cases (fle x.automation_time time)) [
    | inl d ↦ rw d (not_due-StartsLate time xs)
    | inr d ↦ rw d d
  ]

  abbrev pub outcome : PropertyAutomationTimeline Real → Option (List Real) × Bool
  outcome t = (t.current_value, t.finished)

  evaluate-eq :
      (time : Real) (inner : Timeline (PropertyAutomationPoint Real)) (old : Option (List Real))
      (cur last : Option (PropertyAutomationPoint Real))
      (past pending : List (PropertyAutomationPoint Real))
      → cur ≡ first_or pending (last_of past)
      → ((0 < length pending) → last ≡ last_of past)
      → All (IsDue time) past
      → StartsLate time pending
      → outcome (evaluate fl time inner old cur last) ≡ value_at time (last_of past) pending
  evaluate-eq time inner old cur last past [] e₀ e₁ passed late =
      elim (Option-cases (last_of past)) [
        | inl e ↦ rw (e₀, e) refl
        | inr (x, e) ↦
            rw (e₀, e) (rw (All-get_elem? (IsDue time) past (length past - 1) x passed e) refl)
      ]
  evaluate-eq time inner old cur last past (next ∷ rest) e₀ e₁ passed late =
      elim (Option-cases (last_of past)) [
        | inl e ↦ rw (e₀, e₁ (omega arith), e) (rw late refl)
        | inr (x, e) ↦
            rw (e₀, e₁ (omega arith), e)
              (rw late (rw (interpolate-eq-between time x next old) refl))
      ]

  -- After a tick of a timeline whose passed points are all due, its value and whether it is
  -- finished depend only on the last point passed by the new time and the first point to come:
  -- nothing where there is neither or the first lies ahead, the last point's values held and
  -- finished at the end, and between two points the values interpolated as the types of the points
  -- say. Fewer than 2^31 points are held.
  pub tick-value :
      (time : Real) (t : PropertyAutomationTimeline Real)
      (past pending : List (PropertyAutomationPoint Real))
      → length t.inner.items < 2 ^ 31
      → Represents history_length t.inner past pending
      → All (IsDue time) past
      → outcome (tick fl time t)
        ≡ value_at time
            (last_of (past ++ due fl (point_time fl) time pending))
            (not_due fl (point_time fl) time pending)
  unfolding tick
  tick-value time t past pending small r passed =
      let inner =
        (Timeline.tick fl (point_time fl) history_length copyback_threshold time t.inner).0 in
      let step =
        tick-refines fl (point_time fl) history_length copyback_threshold time t.inner past pending
          (omega arith) r in
      let found =
        get_item-refines history_length inner _ _ (omega arith)
          (omega (
            arith,
            small,
            length-tick fl (point_time fl) history_length copyback_threshold time t.inner,
          ))
          step.1 in
      evaluate-eq time inner t.current_value _ _ _ _ found.0 found.1
        (All-append_due time past pending passed) (not_due-StartsLate time pending)

  -- A tick of an event timeline sends the parameters of exactly the events that are due, in order,
  -- and these are then passed, so that no later tick sends them again.
  pub tick_events-sends :
      (time : Real) (t : Timeline (ScheduledEvent Real)) (past pending : List (ScheduledEvent Real))
      → Represents history_length t past pending
      → ((tick_events fl time t).1
          ≡ map (λ (e : ScheduledEvent Real). e.param) (due fl (event_time fl) time pending))
        × Represents history_length
            (tick_events fl time t).0
            (past ++ due fl (event_time fl) time pending)
            (not_due fl (event_time fl) time pending)
  unfolding tick_events
  tick_events-sends time t past pending r =
      let step =
        tick-refines fl (event_time fl) history_length copyback_threshold time t past pending
          (omega arith) r in
      (ap (map (λ (e : ScheduledEvent Real). e.param)) step.0, step.1)
