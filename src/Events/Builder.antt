-- ===== src/Events/Builder.antt =====
-- When the events of src/events.cpp are queued.
use synthizer.Base.{
  ℕ, ◌≡◌, Bool, false, not, Option, none, some, [], ◌∷◌, ◌++◌, if◌then◌else◌, arith, ◌&&◌,
}
use synthizer.Memory.{Store, is_permanently_dead}
use synthizer.Events.{
  EventSender, associate_object, set_source, translate_handle, set_context, dispatch, enqueue,
  send_event, build_event, send_user_automation_event, event_type_user_automation,
}

abbrev pub visible : Option ℕ → Store → Bool
visible none s = false
visible (some a) s = not (is_permanently_dead (s a))

-- The event of the type, from the source and the context, at the end of the queue.
abbrev pub queued : ℕ → ℕ → ℕ → ℕ → EventSender → EventSender
queued type_ ctx source param sender = record sender {
  pending_events =
      sender.pending_events
      ++ (record {
        event = record { event_type = type_; source = source; context = ctx; payload = param };
        referenced_handles = source ∷ ctx ∷ [];
      }
          ∷ []);
}

-- An automation event is queued, once and at the end, with its source and its context as the
-- objects that it refers to, exactly if events are enabled and both are still visible to the
-- program; otherwise nothing is queued. No assertion fails.
pub send_user_automation_event-queued :
    (ctx source param : ℕ) (s : Store) (sender : EventSender)
    → send_user_automation_event (some ctx) (some source) param s sender
      ≡ some (
          if sender.enabled && (visible (some source) s && visible (some ctx) s)
          then queued event_type_user_automation ctx source param sender
          else sender)
unfolding send_user_automation_event send_event build_event set_source set_context translate_handle
    associate_object dispatch enqueue
send_user_automation_event-queued ctx source param s sender = ground arith
