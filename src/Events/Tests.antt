-- ===== src/Events/Tests.antt =====
-- Runs of events on two living objects.
use synthizer.Base.{ℕ, ◌+◌, ◌^◌, ◌<◌, ◌≡◌, refl, true, false, some, [], ◌∷◌, length, arith}
use synthizer.Memory.{Exposable, Store}
use synthizer.Events.{Event, PendingEvent, EventSender, extract, revive}
use synthizer.Events.Extract.{Extracted, extract-all_or_none}

abbrev living : Exposable
living = record {
  reference_count = 1;
  internal_reference = true;
  linger_reference = false;
  held = false;
}

abbrev objects : Store
objects a = living

abbrev nothing_queued : EventSender
nothing_queued = record { pending_events = []; enabled = true }

abbrev pending : PendingEvent
pending = record {
  event = record { event_type = 3; source = 1; context = 2; payload = 9 };
  referenced_handles = 1 ∷ 2 ∷ [];
}

extract_run :
    (r : Event × Store) × (extract pending objects ≡ some r)
    × (r.0.payload ≡ 9)
    × ((r.1 2).reference_count ≡ 2)
unfolding extract revive
extract_run = (_, refl, refl, refl)

objects_small : (a : ℕ) → (objects a).reference_count + length pending.referenced_handles < 2 ^ 32
objects_small a = omega arith

extract-all_or_none_example :
    (r : Event × Store) × (extract pending objects ≡ some r)
    × Extracted objects pending.referenced_handles pending.event r
extract-all_or_none_example = extract-all_or_none pending objects objects_small
