-- ===== src/Context/Samples.antt =====
-- A context whose numbers are whole, for tests and examples.
use synthizer.Base.{ℕ, ◌+◌, true, false, some, [], ◌∷◌, ◌==◌, if◌then◌else◌}
use synthizer.Samples.{nat_float}
use synthizer.Fader.{fade_driver}
use synthizer.Memory.{Exposable}
use synthizer.Pausable.{paused}
use synthizer.Context.{Shared, Called, Engine, Context, play_context, start_linger, register_source}

abbrev called : Shared nat_float ℕ → Called nat_float ℕ
called s = record { shared = s; stopped = []; released = [] }

-- Every source adds 1 to the world, which the panners write to the output. Deleting the object 3
-- releases the object 2.
abbrev pub engine : Engine nat_float ℕ
engine = record {
  start_lingering = λ a t w. (w, some 3000);
  tick_context = λ now w. w;
  destroy = λ a s. record { shared = s; stopped = []; released = if a == 3 then 2 ∷ [] else [] };
  tick_source = λ now a s. called s;
  run_source = λ now a s. called (record s { world = s.world + 1 });
  run_panners = λ channels w destination. (w, λ i. destination i + w);
  run_effect = λ channels a s. called s;
  finish_block = λ now w. w;
  acquire_gain = λ w. (w, 1, true);
  ceil = λ x. x;
  to_unsigned = λ x. x;
}

abbrev pub object : Exposable
object = record {
  reference_count = 2;
  internal_reference = true;
  linger_reference = false;
  held = false;
}

abbrev pub context : Context nat_float ℕ
context = record {
  headless = false;
  running = true;
  delete_directly = false;
  command_queue = play_context ∷ register_source 1 ∷ start_linger 1 512 ∷ [];
  pending_deletes = 3 ∷ [];
  block_time = 10;
  pause_state = paused;
  sources = [];
  global_effects = [];
  lingering_objects = (9, 4) ∷ (10, 5) ∷ (12, 6) ∷ [];
  gain_driver = fade_driver nat_float 1 1;
  shared = record { store = λ a. object; direct_buffer = λ i. 0; world = 0 };
}
