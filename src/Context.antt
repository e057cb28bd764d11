-- ===== src/Context.antt =====
-- include/synthizer/context.hpp and src/context.cpp: the context, which runs all other objects.
pub mod Linger
pub mod Schedule
pub mod Block
pub mod Invariant
pub mod Totality
pub mod Samples
mod Tests
use mathlib.Core.Option
use synthizer.Base.{
  ℕ, zero, suc, ◌+◌, ◌-◌, ◌*◌, ◌/◌, Bool, true, false, not, ◌&&◌, ◌||◌, Option, none, some, List,
  [], ◌∷◌, ◌++◌, any, ◌==◌, if◌then◌else◌,
}
use synthizer.Float.{Float}
use synthizer.Fader.{FadeDriver, add32, block_size, fade_driver, set_value, drive}
use synthizer.Pausable.{
  PauseState, is_paused, tick_pausable, should_incorporate_pausable_gain, get_pausable_gain, pause,
  play,
}
use synthizer.Memory.{Store, Exposable, put, lock, die_now}
use synthizer.VectorHelpers.{iterate_removing}
use synthizer.PriorityQueue.{HeapAlgorithms, push, pop_until_priority, filter_all_items}

-- config::SR
abbrev pub sample_rate : ℕ
sample_rate = 44100

-- What the objects of a context share: the objects by address, the direct buffer, and the rest of
-- their state.
pub record Shared (fl : Float) (World : Type 0) : Type 0 where
  pub store : Store
  pub direct_buffer : ℕ → fl.Real
  pub world : World

-- What a call of an object leaves: the objects that it asks the context to stop lingering for, and
-- those whose last reference it drops.
pub record Called (fl : Float) (World : Type 0) : Type 0 where
  pub shared : Shared fl World
  pub stopped : List ℕ
  pub released : List ℕ

-- The commands that the audio thread runs. A callback carries the objects that it refers to.
pub data Command (fl : Float) (World : Type 0) : Type 0 where
  register_source register_global_effect : ℕ → Command fl World
  start_linger : ℕ → fl.Real → Command fl World
  pause_context play_context : Command fl World
  callback : List ℕ → (Shared fl World → Shared fl World) → Command fl World

-- The virtual functions and other components that a context calls.
pub record Engine (fl : Float) (World : Type 0) : Type 0 where
  pub start_lingering : ℕ → fl.Real → World → World × Option fl.Real
  pub tick_context : ℕ → World → World
  pub destroy : ℕ → Shared fl World → Called fl World
  pub tick_source : ℕ → ℕ → Shared fl World → Called fl World
  pub run_source : ℕ → ℕ → Shared fl World → Called fl World
  pub run_panners : ℕ → World → (ℕ → fl.Real) → World × (ℕ → fl.Real)
  pub run_effect : ℕ → ℕ → Shared fl World → Called fl World
  pub finish_block : ℕ → World → World
  pub acquire_gain : World → World × fl.Real × Bool
  pub ceil : fl.Real → fl.Real
  pub to_unsigned : fl.Real → ℕ

-- The sources are the values of a map from their addresses, in the order in which it goes
-- through them.
pub record Context (fl : Float) (World : Type 0) : Type 0 where
  pub headless : Bool
  pub running : Bool
  pub delete_directly : Bool
  pub command_queue : List (Command fl World)
  pub pending_deletes : List ℕ
  pub block_time : ℕ
  pub pause_state : PauseState
  pub sources : List ℕ
  pub global_effects : List ℕ
  pub lingering_objects : List (ℕ × ℕ)
  pub gain_driver : FadeDriver fl
  pub shared : Shared fl World

-- syz_DeleteBehaviorConfig
pub record DeleteBehaviorConfig (fl : Float) : Type 0 where
  pub linger : Bool
  pub linger_timeout : fl.Real

abbrev pub add_key : ℕ → List ℕ → List ℕ
add_key a keys = if any (λ b. b == a) keys then keys else keys ++ (a ∷ [])

abbrev pub all_alive : Store → List ℕ → Bool
all_alive s refs = not (any (λ a. not (lock (s a))) refs)

abbrev pub stash_linger_reference : ℕ → Store → Store
stash_linger_reference a s = put a (record (s a) { linger_reference = true }) s

module _ {fl : Float} {World : Type 0} where
  open fl use {Real, of_unsigned, fadd, fmul, fdiv, flt, fle}

  abbrev pub with_store : Store → Context fl World → Context fl World
  with_store s ctx = record ctx { shared = record ctx.shared { store = s } }

  abbrev pub with_world : World → Context fl World → Context fl World
  with_world w ctx = record ctx { shared = record ctx.shared { world = w } }

  -- The deleter of the objects of a context, once their last reference is gone. In a context whose
  -- deletion is direct the queue stands for the objects that are deleted at once.
  abbrev pub enqueue_deletion_record : ℕ → Context fl World → Context fl World
  enqueue_deletion_record a ctx = record ctx { pending_deletes = ctx.pending_deletes ++ (a ∷ []) }

  -- dieNow through a weak pointer.
  unfoldable pub kill : ℕ → Context fl World → Context fl World
  kill a ctx =
      let killed = with_store (put a (die_now (ctx.shared.store a)) ctx.shared.store) ctx in
      if lock (ctx.shared.store a)
      then (if lock (die_now (ctx.shared.store a))
          then killed
          else enqueue_deletion_record a killed)
      else ctx

  pub kill_all : List (ℕ × ℕ) → Context fl World → Context fl World
  kill_all [] ctx = ctx
  kill_all (x ∷ xs) ctx = kill_all xs (kill x.1 ctx)

module _ (fl : Float) where
  open fl use {Real, of_unsigned, flt, fle}

  -- The timeout in seconds that `startLingering` and the user's configuration give.
  unfoldable pub linger_timeout : Real → Option Real → Real
  linger_timeout configured suggested =
      let zero_seconds = of_unsigned 0 in
      let suggested_timeout = Option.get_or suggested configured in
      if flt zero_seconds configured
      then (if flt configured suggested_timeout then configured else suggested_timeout)
      else suggested_timeout

  abbrev pub is_zero : Real → Bool
  is_zero x = fle x (of_unsigned 0) && fle (of_unsigned 0) x

  -- The object ends its linger by itself.
  abbrev pub ends_itself : Real → Option Real → Bool
  ends_itself configured none = fle configured (of_unsigned 0)
  ends_itself configured (some suggested) = false

module _ {fl : Float} {World : Type 0} (heaps : HeapAlgorithms ℕ) (engine : Engine fl World) where
  open fl use {Real, of_unsigned, fadd, fmul, fdiv, flt, fle}

  unfoldable pub linger_block : ℕ → Real → ℕ
  linger_block now timeout =
      let block_timeout =
        engine.ceil (fdiv (fmul timeout (of_unsigned sample_rate)) (of_unsigned block_size)) in
      engine.to_unsigned (fadd (of_unsigned now) block_timeout)

  unfoldable pub enqueue_linger_stop : ℕ → Context fl World → Context fl World
  enqueue_linger_stop a ctx = record ctx {
    lingering_objects = push heaps 0 a ctx.lingering_objects;
  }

  -- What the command of `doLinger` does in the audio thread.
  unfoldable pub begin_linger : ℕ → Real → Context fl World → Context fl World
  unfolding kill linger_timeout linger_block
  begin_linger a configured ctx =
      let (world, suggested) = engine.start_lingering a configured ctx.shared.world in
      let started = with_world world (with_store (stash_linger_reference a ctx.shared.store) ctx) in
      let timeout = linger_timeout fl configured suggested in
      if ends_itself fl configured suggested
      then started
      else if is_zero fl timeout
      then kill a started
      else record started {
        lingering_objects =
            push heaps (linger_block ctx.block_time timeout) a started.lingering_objects;
      }

  unfoldable pub execute_command : Command fl World → Context fl World → Context fl World
  unfolding begin_linger pause play
  execute_command (register_source a) ctx =
      if lock (ctx.shared.store a) then record ctx { sources = add_key a ctx.sources } else ctx
  execute_command (register_global_effect a) ctx =
      if lock (ctx.shared.store a)
      then record ctx { global_effects = ctx.global_effects ++ (a ∷ []) }
      else ctx
  execute_command (start_linger a configured) ctx = begin_linger a configured ctx
  execute_command pause_context ctx = record ctx { pause_state = pause ctx.pause_state }
  execute_command play_context ctx = record ctx { pause_state = play ctx.pause_state }
  execute_command (callback refs f) ctx =
      if all_alive ctx.shared.store refs then record ctx { shared = f ctx.shared } else ctx

  -- A ring that is full makes the caller wait until there is room.
  unfoldable pub enqueue_callback_command : Command fl World → Context fl World → Context fl World
  unfolding execute_command
  enqueue_callback_command cmd ctx =
      if ctx.headless
      then execute_command cmd ctx
      else if not ctx.running
      then ctx
      else record ctx { command_queue = ctx.command_queue ++ (cmd ∷ []) }

  unfoldable pub do_linger :
      ℕ → Bool → DeleteBehaviorConfig fl → Context fl World → Context fl World
  unfolding enqueue_callback_command
  do_linger a wants_linger cfg ctx =
      if not wants_linger
      then ctx
      else if not cfg.linger
      then ctx
      else enqueue_callback_command (start_linger a cfg.linger_timeout) ctx

  unfoldable pub execute_all : List (Command fl World) → Context fl World → Context fl World
  execute_all [] ctx = ctx
  execute_all (cmd ∷ cmds) ctx = execute_all cmds (execute_command cmd ctx)

  unfoldable pub run_commands : Context fl World → Context fl World
  unfolding execute_all
  run_commands ctx = execute_all ctx.command_queue (record ctx { command_queue = [] })

  pub stop_all : List ℕ → Context fl World → Context fl World
  unfolding enqueue_linger_stop
  stop_all [] ctx = ctx
  stop_all (a ∷ as') ctx = stop_all as' (enqueue_linger_stop a ctx)

  -- What a call of an object does to the context.
  unfoldable pub after_call : Called fl World → Context fl World → Context fl World
  unfolding stop_all
  after_call called ctx =
      let ctx' = stop_all called.stopped (record ctx { shared = called.shared }) in
      record ctx' { pending_deletes = ctx'.pending_deletes ++ called.released }

  -- The end of a block for the objects that linger.
  unfoldable pub expire_lingering : Context fl World → Option (Context fl World)
  unfolding kill_all pop_until_priority filter_all_items
  expire_lingering ctx = elim (pop_until_priority heaps ctx.block_time ctx.lingering_objects) [
    | none ↦ none
    | some (left, due) ↦
        let killed = kill_all due ctx in
        Option.map (λ (q : List (ℕ × ℕ)). record killed { lingering_objects = q })
          (filter_all_items heaps (λ (x : ℕ × ℕ). not (lock (killed.shared.store x.1))) left)
  ]
