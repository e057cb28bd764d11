-- ===== src/Events.antt =====
-- include/synthizer/events.hpp and src/events.cpp: events that reach the program only with every
-- object that they refer to.
pub mod Extract
pub mod Builder
mod Tests
use synthizer.Base.{
  ℕ, Bool, true, false, not, Option, none, some, List, [], ◌∷◌, ◌++◌, length, ltb, ◌==◌,
  if◌then◌else◌,
}
use synthizer.Memory.{Exposable, Store, put, lock, is_permanently_dead, inc_ref, dec_ref}

-- A syz_Event; its type is 0 in the zero-initialised event, which is invalid.
pub record Event : Type 0 where
  pub event_type : ℕ
  pub source : ℕ
  pub context : ℕ
  pub payload : ℕ

abbrev pub invalid_event : Event
invalid_event = record { event_type = 0; source = 0; context = 0; payload = 0 }

pub record PendingEvent : Type 0 where
  pub event : Event
  pub referenced_handles : List ℕ

-- The inner loop of `extract`, over the handles before the one that could not be revived.
unfoldable pub dec_all : List ℕ → Store → Option Store
dec_all [] s = some s
dec_all (a ∷ handles) s = elim (dec_ref (s a)) [
  | none ↦ none
  | some x ↦ dec_all handles (put a x s)
]

-- The loop of `extract`, over the handles done and to do.
unfoldable pub revive : List ℕ → List ℕ → Event → Store → Option (Event × Store)
revive done [] event s = some (event, s)
revive done (a ∷ handles) event s = elim (if lock (s a) then inc_ref (s a) else none) [
  | none ↦ elim (dec_all done s) [ none ↦ none | some s' ↦ some (invalid_event, s') ]
  | some x ↦ revive (done ++ (a ∷ [])) handles event (put a x s)
]

-- What `extract` writes to the event, and the objects after it.
unfoldable pub extract : PendingEvent → Store → Option (Event × Store)
extract p s = revive [] p.referenced_handles p.event s

-- The queue of an EventSender, oldest first.
pub record EventSender : Type 0 where
  pub pending_events : List PendingEvent
  pub enabled : Bool

abbrev pub set_enabled : Bool → EventSender → EventSender
set_enabled val sender = record sender { enabled = val }

unfoldable pub get_next_event : EventSender → Store → Option (Event × (EventSender × Store))
get_next_event sender s = elim sender.pending_events [
  | [] ↦ some (invalid_event, (sender, s))
  | p ∷ rest ↦ elim (extract p s) [
    | none ↦ none
    | some (event, s') ↦ some (event, (record sender { pending_events = rest }, s'))
  ]
]

unfoldable pub enqueue : Event → List ℕ → EventSender → EventSender
enqueue event handles sender =
    if sender.enabled
    then record sender {
      pending_events =
          sender.pending_events ++ (record { event = event; referenced_handles = handles } ∷ []);
    }
    else sender

-- EVENT_HANDLE_CAPACITY
abbrev pub event_handle_capacity : ℕ
event_handle_capacity = 4

-- SYZ_EVENT_TYPES
abbrev pub event_type_finished : ℕ
event_type_finished = 2

abbrev pub event_type_looped : ℕ
event_type_looped = 1

abbrev pub event_type_user_automation : ℕ
event_type_user_automation = 3

pub record EventBuilder : Type 0 where
  pub event : Event
  pub referenced_objects : List ℕ
  pub will_send : Bool
  pub has_source : Bool

abbrev pub event_builder : EventBuilder
event_builder = record {
  event = invalid_event;
  referenced_objects = [];
  will_send = true;
  has_source = false;
}

-- associateObject of a pointer that may be null, with whether it was valid; a `none` result is the
-- failed assertion.
unfoldable pub associate_object : Option ℕ → Store → EventBuilder → Option (Bool × EventBuilder)
associate_object none s b = some (false, b)
associate_object (some a) s b =
    if is_permanently_dead (s a)
    then some (false, b)
    else if ltb (length b.referenced_objects) event_handle_capacity
    then some (true, record b { referenced_objects = b.referenced_objects ++ (a ∷ []) })
    else none

-- The handle of an object is its address.
abbrev pub handle_of : Option ℕ → ℕ
handle_of none = 0
handle_of (some a) = a

unfoldable pub set_source : Option ℕ → Store → EventBuilder → Option EventBuilder
set_source source s b = elim (associate_object source s b) [
  | none ↦ none
  | some (valid, b') ↦
      if valid
      then some
          (record b' { event = record b'.event { source = handle_of source }; has_source = true })
      else some b'
]

unfoldable pub translate_handle : Option ℕ → Store → EventBuilder → Option (ℕ × EventBuilder)
translate_handle object s b = elim (associate_object object s b) [
  | none ↦ none
  | some (valid, b') ↦
      if valid then some (handle_of object, b') else some (0, record b' { will_send = false })
]

unfoldable pub set_context : Option ℕ → Store → EventBuilder → Option EventBuilder
set_context ctx s b = elim (translate_handle ctx s b) [
  | none ↦ none
  | some (handle, b') ↦ some (record b' { event = record b'.event { context = handle } })
]

abbrev pub set_type : ℕ → EventBuilder → EventBuilder
set_type type_ b = record b { event = record b.event { event_type = type_ } }

abbrev pub set_payload : ℕ → EventBuilder → EventBuilder
set_payload param b = record b {
  event = record b.event { payload = param; event_type = event_type_user_automation };
}

-- `none` is the failed assertion.
unfoldable pub dispatch : EventSender → EventBuilder → Option EventSender
dispatch sender b =
    if not b.will_send
    then some sender
    else if not b.has_source
    then some sender
    else if b.event.event_type == 0
    then none
    else some (enqueue b.event b.referenced_objects sender)

-- Context::sendEvent with the builder's callback.
unfoldable pub send_event : (EventBuilder → Option EventBuilder) → EventSender → Option EventSender
send_event callback sender =
    if sender.enabled
    then (elim (callback event_builder) [ none ↦ none | some b ↦ dispatch sender b ])
    else some sender

-- The callback that the common senders share: source, context and type.
unfoldable pub build_event : ℕ → Option ℕ → Option ℕ → Store → EventBuilder → Option EventBuilder
build_event type_ ctx source s b = elim (set_source source s b) [
  | none ↦ none
  | some b₁ ↦ elim (set_context ctx s b₁) [ none ↦ none | some b₂ ↦ some (set_type type_ b₂) ]
]

unfoldable pub send_finished_event : Option ℕ → Option ℕ → Store → EventSender → Option EventSender
send_finished_event ctx source s sender =
    send_event (build_event event_type_finished ctx source s) sender

unfoldable pub send_looped_event : Option ℕ → Option ℕ → Store → EventSender → Option EventSender
send_looped_event ctx source s sender =
    send_event (build_event event_type_looped ctx source s) sender

unfoldable pub send_user_automation_event :
    Option ℕ → Option ℕ → ℕ → Store → EventSender → Option EventSender
send_user_automation_event ctx source param s sender =
    send_event
      (λ b. elim (build_event event_type_user_automation ctx source s b) [
        | none ↦ none
        | some b' ↦ some (set_payload param b')
      ])
      sender
