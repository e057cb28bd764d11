-- ===== src/Automation/Tests.antt =====
-- Runs of the automation over whole numbers.
use synthizer.Base.{ℕ, ◌≡◌, refl, true, false, none, [], ◌∷◌, ◌++◌, arith, inl}
use synthizer.Samples.{nat_float}
use synthizer.Timeline.{Timeline}
use synthizer.Timeline.Refinement.{Represents, due, not_due}
use synthizer.Timeline.Items.{last_of}
use synthizer.Automation.{
  PropertyAutomationPoint, PropertyAutomationTimeline, ScheduledEvent, tick, point_time,
}
use synthizer.Automation.Values.{value_at, outcome, tick-value}

abbrev first_point : PropertyAutomationPoint ℕ
first_point = record { interpolation_type = 1; automation_time = 2; values = 10 ∷ [] }

abbrev second_point : PropertyAutomationPoint ℕ
second_point = record { interpolation_type = 1; automation_time = 4; values = 20 ∷ [] }

abbrev started : PropertyAutomationTimeline ℕ
started = record {
  inner = record {
    items =
        record { item = first_point; tie_breaker = 0 }
        ∷ record { item = second_point; tie_breaker = 1 }
        ∷ [];
    current_item = 1;
    is_sorted = true;
    insert_counter = 2;
  };
  current_value = none;
  finished = false;
}

started-Represents : Represents 1 started.inner (first_point ∷ []) (second_point ∷ [])
unfolding Represents
started-Represents = ([], refl, refl, omega arith, inl refl)

tick-value_example :
    outcome nat_float (tick nat_float 3 started)
    ≡ value_at nat_float 3
        (last_of ((first_point ∷ []) ++ due nat_float (point_time nat_float) 3 (second_point ∷ [])))
        (not_due nat_float (point_time nat_float) 3 (second_point ∷ []))
tick-value_example =
    tick-value nat_float 3 started (first_point ∷ []) (second_point ∷ []) (omega arith)
      started-Represents (refl, tt)

abbrev events : Timeline (ScheduledEvent ℕ)
events = record {
  items = record { item = record { time = 2; param = 7 }; tie_breaker = 0 } ∷ [];
  current_item = 0;
  is_sorted = true;
  insert_counter = 1;
}

events-Represents : Represents 1 events [] (record { time = 2; param = 7 } ∷ [])
unfolding Represents
events-Represents = ([], refl, refl, omega arith, inl refl)
