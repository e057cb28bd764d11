-- ===== src/AutomationBatch.antt =====
-- src/automation_batch.cpp: automation commands gathered by the user and executed together.
pub mod Commands
pub mod Refinement
mod Tests
use synthizer.Base.{
  ◌≡◌, ◌≢◌, ℕ, Bool, true, false, not, ◌&&◌, ◌||◌, Option, none, some, List, [], ◌∷◌, ◌++◌, ◌==◌,
  if◌then◌else◌,
}
use synthizer.Float.{Float}
use synthizer.Fader.{block_size}
use synthizer.Context.{sample_rate}

pub data BatchError : Type 0 where
  consumed_already wrong_context not_supported invalid_target : BatchError
  invalid : ℕ → BatchError

abbrev pub of_validation : Option ℕ → Option BatchError
of_validation none = none
of_validation (some e) = some (invalid e)

abbrev pub first_error : Option BatchError → Option BatchError → Option BatchError
first_error none f = f
first_error (some e) f = some e

-- What the objects know: whether a handle is valid, the context of an object, and what its virtual
-- validateAutomation throws for a property, with a point or without.
pub record Objects (Point : Type 0) : Type 0 where
  pub is_valid : ℕ → Bool
  pub context_of : ℕ → ℕ
  pub validate_automation : ℕ → ℕ → Option Point → Option ℕ

-- An event at a time in samples, with its parameter.
pub record UserEvent (fl : Float) : Type 0 where
  pub time : fl.Real
  pub param : ℕ

-- The maps and sets by their keys: objects by address, and properties.
pub record AutomationBatch (fl : Float) (Point : Type 0) : Type 0 where
  pub context : ℕ
  pub consumed : Bool
  pub property_automation : ℕ → ℕ → Option (List Point)
  pub scheduled_events : ℕ → List (UserEvent fl)
  pub cleared_properties : ℕ → ℕ → Bool
  pub clear_all_properties : ℕ → Bool
  pub clear_events : ℕ → Bool

-- syz_AutomationCommand: the target, and what to do. The point of an append is already converted
-- to samples.
pub data AutomationCommand (fl : Float) (Point : Type 0) : Type 0 where
  append_property : ℕ → ℕ → Point → AutomationCommand fl Point
  clear_property_command : ℕ → ℕ → AutomationCommand fl Point
  clear_all_properties_command : ℕ → AutomationCommand fl Point
  send_user_event_command : ℕ → fl.Real → ℕ → AutomationCommand fl Point
  clear_events_command : ℕ → AutomationCommand fl Point
  unknown_command : ℕ → AutomationCommand fl Point

-- The timelines of the objects: the points of each property and the events, in the order in which
-- they were added.
pub record Timelines (fl : Float) (Point : Type 0) : Type 0 where
  pub points : ℕ → ℕ → List Point
  pub events : ℕ → List (UserEvent fl)

module _ {Point : Type 0} where
  abbrev pub points_of : Option (List Point) → List Point
  points_of none = []
  points_of (some ps) = ps

  abbrev pub empty_if_found : Option (List Point) → Option (List Point)
  empty_if_found none = none
  empty_if_found (some ps) = some []

module _ {fl : Float} {Point : Type 0} where
  abbrev pub automation_batch : ℕ → AutomationBatch fl Point
  automation_batch context = record {
    context = context;
    consumed = false;
    property_automation = λ o p. none;
    scheduled_events = λ o. [];
    cleared_properties = λ o p. false;
    clear_all_properties = λ o. false;
    clear_events = λ o. false;
  }

  abbrev pub target_of : AutomationCommand fl Point → ℕ
  target_of (append_property o p x) = o
  target_of (clear_property_command o p) = o
  target_of (clear_all_properties_command o) = o
  target_of (send_user_event_command o t x) = o
  target_of (clear_events_command o) = o
  target_of (unknown_command o) = o

  unfoldable pub consume : AutomationBatch fl Point → AutomationBatch fl Point
  consume b = record b { consumed = true }

  -- What the check throws.
  unfoldable pub throw_if_consumed : AutomationBatch fl Point → Option BatchError
  throw_if_consumed b = if b.consumed then some consumed_already else none

  abbrev pub unless :
      Option BatchError
      → AutomationBatch fl Point
      → AutomationBatch fl Point
      → AutomationBatch fl Point × Option BatchError
  unless none b b' = (b', none)
  unless (some e) b b' = (b, some e)

  abbrev pub push_point : ℕ → ℕ → Point → AutomationBatch fl Point → AutomationBatch fl Point
  push_point obj property point b = record b {
    property_automation = λ o p.
        if (o == obj) && (p == property)
        then some (points_of (b.property_automation o p) ++ (point ∷ []))
        else b.property_automation o p;
  }

  abbrev pub drop_points : ℕ → ℕ → AutomationBatch fl Point → AutomationBatch fl Point
  drop_points obj property b = record b {
    cleared_properties = λ o p. ((o == obj) && (p == property)) || b.cleared_properties o p;
    property_automation = λ o p.
        if (o == obj) && (p == property)
        then empty_if_found (b.property_automation o p)
        else b.property_automation o p;
  }

  unfoldable pub clear_all_properties_of : ℕ → AutomationBatch fl Point → AutomationBatch fl Point
  clear_all_properties_of obj b = record b {
    property_automation = λ o p. if o == obj then none else b.property_automation o p;
    cleared_properties = λ o p. if o == obj then false else b.cleared_properties o p;
    clear_all_properties = λ o. (o == obj) || b.clear_all_properties o;
  }

  unfoldable pub send_user_event :
      ℕ → fl.Real → ℕ → AutomationBatch fl Point → AutomationBatch fl Point
  send_user_event obj time param b =
      let event : UserEvent fl = record {
        time = fl.fmul time (fl.of_unsigned sample_rate);
        param = param;
      } in
      record b {
        scheduled_events =
            λ o. if o == obj then b.scheduled_events o ++ (event ∷ []) else b.scheduled_events o;
      }

  unfoldable pub clear_events_of : ℕ → AutomationBatch fl Point → AutomationBatch fl Point
  clear_events_of obj b = record b {
    scheduled_events = λ o. if o == obj then [] else b.scheduled_events o;
    clear_events = λ o. (o == obj) || b.clear_events o;
  }

  -- executeOnContextThread takes the address of the first point of every list that it finds for a
  -- living object, so that none of them may be empty.
  abbrev pub HasPoints : (ℕ → Bool) → AutomationBatch fl Point → Type 0
  HasPoints alive b = (o p : ℕ) → alive o ≡ true → b.property_automation o p ≢ some []

  -- executeOnContextThread where `HasPoints` holds; without it the behaviour of the code is
  -- undefined. Each loop changes only the timelines of its own keys; `alive` is whether a weak
  -- pointer can be locked.
  unfoldable pub execute_on_context_thread :
      (ℕ → Bool) → AutomationBatch fl Point → Timelines fl Point → Timelines fl Point
  execute_on_context_thread alive b t =
      let all_cleared = record t {
        points = λ o p. if alive o && b.clear_all_properties o then [] else t.points o p;
      } in
      let events_cleared = record all_cleared {
        events = λ o. if alive o && b.clear_events o then [] else all_cleared.events o;
      } in
      let cleared = record events_cleared {
        points =
            λ o p. if alive o && b.cleared_properties o p then [] else events_cleared.points o p;
      } in
      let automated = record cleared {
        points = λ o p.
            if alive o
            then cleared.points o p ++ points_of (b.property_automation o p)
            else cleared.points o p;
      } in
      record automated {
        events =
            λ o. if alive o then automated.events o ++ b.scheduled_events o else automated.events o;
      }

module _ {fl : Float} {Point : Type 0} (objects : Objects Point) where
  unfoldable pub automate_property :
      ℕ → ℕ → Point → AutomationBatch fl Point → AutomationBatch fl Point × Option BatchError
  unfolding throw_if_consumed
  automate_property obj property point b =
      let wrong = if objects.context_of obj == b.context then none else some wrong_context in
      let bad = of_validation (objects.validate_automation obj property (some point)) in
      unless (first_error (throw_if_consumed b) (first_error wrong bad)) b
        (push_point obj property point b)

  unfoldable pub clear_property :
      ℕ → ℕ → AutomationBatch fl Point → AutomationBatch fl Point × Option BatchError
  unfolding throw_if_consumed
  clear_property obj property b =
      let bad = of_validation (objects.validate_automation obj property none) in
      unless (first_error (throw_if_consumed b) bad) b (drop_points obj property b)

  -- The switch of `addCommands`.
  unfoldable pub add_command :
      AutomationCommand fl Point
      → AutomationBatch fl Point
      → AutomationBatch fl Point × Option BatchError
  unfolding automate_property clear_property clear_all_properties_of send_user_event clear_events_of
  add_command (append_property o p x) b = automate_property o p x b
  add_command (clear_property_command o p) b = clear_property o p b
  add_command (clear_all_properties_command o) b = (clear_all_properties_of o b, none)
  add_command (send_user_event_command o t x) b = (send_user_event o t x b, none)
  add_command (clear_events_command o) b = (clear_events_of o b, none)
  add_command (unknown_command o) b = (b, some not_supported)

  unfoldable pub add_from_handle :
      AutomationCommand fl Point
      → AutomationBatch fl Point
      → AutomationBatch fl Point × Option BatchError
  unfolding add_command
  add_from_handle cmd b =
      if objects.is_valid (target_of cmd) then add_command cmd b else (b, some invalid_target)

  unfoldable pub add_loop :
      List (AutomationCommand fl Point)
      → AutomationBatch fl Point
      → AutomationBatch fl Point × Option BatchError
  add_loop [] b = (b, none)
  add_loop (cmd ∷ cmds) b =
      let added = add_from_handle cmd b in
      elim added.1 [ some e ↦ (added.0, some e) | none ↦ add_loop cmds added.0 ]

  unfoldable pub add_commands :
      List (AutomationCommand fl Point)
      → AutomationBatch fl Point
      → AutomationBatch fl Point × Option BatchError
  unfolding throw_if_consumed add_loop
  add_commands cmds b = elim (throw_if_consumed b) [ some e ↦ (b, some e) | none ↦ add_loop cmds b ]

module _ {fl : Float} {Point : Type 0} where
  -- syz_automationBatchExecute: the batch after it, and either what it throws or whether the
  -- execution is queued, which needs the context to be alive.
  unfoldable pub execute_batch :
      Bool → AutomationBatch fl Point → AutomationBatch fl Point × Option BatchError × Bool
  unfolding throw_if_consumed consume
  execute_batch context_is_alive b = elim (throw_if_consumed b) [
    | some e ↦ (b, some e, false)
    | none ↦ (consume b, none, context_is_alive)
  ]
