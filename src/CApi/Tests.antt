-- ===== src/CApi/Tests.antt =====
-- Runs of the C API.
use synthizer.Base.{ℕ, ◌≡◌, refl, true, false, none, some, if◌then◌else◌, arith}
use synthizer.Samples.{nat_float}
use synthizer.PriorityQueue.Sorted.{sorted_heaps}
use synthizer.Context.Samples.{engine, context}
use synthizer.CApi.{
  pos, negsuc, ok, throws, uninitialized, range_error, already_initialized, Lingering,
  initialize_with_config, begin_initialized_call, shutdown_library,
}
use synthizer.CApi.Calls.{shutdown_library-lets_in}
use synthizer.CApi.Handles.{Dropped, drop_references-lingers_once}

initialize_run : initialize_with_config true (negsuc 0) ≡ ok (pos 0)
unfolding initialize_with_config
initialize_run = refl

initialize_twice : initialize_with_config true (pos 3) ≡ throws already_initialized
unfolding initialize_with_config
initialize_twice = refl

initialize_unknown_backend : initialize_with_config false (negsuc 0) ≡ throws range_error
unfolding initialize_with_config
initialize_unknown_backend = refl

shutdown_library-lets_in_example :
    (shutdown_library 2 true (pos 2) ≡ some (pos 0, if true then none else some uninitialized))
    × (begin_initialized_call true (pos 0) ≡ ok (pos 1))
shutdown_library-lets_in_example = shutdown_library-lets_in 2 true (pos 2) (omega arith)

abbrev lingering : ℕ → Lingering nat_float
lingering a = record {
  is_base_object = true;
  wants_linger = true;
  config = record { linger = true; linger_timeout = 2 };
}

drop_references-lingers_once_example :
    Dropped sorted_heaps engine lingering 1 (omega arith) context.command_queue 1 2 context
drop_references-lingers_once_example =
    drop_references-lingers_once sorted_heaps engine lingering 1 (omega arith)
      (record { base = refl; wants = refl; configured = refl }) context.command_queue 1 1 context
      (record { internal = refl; references = refl; runs = refl; plays = refl; waiting = refl })
