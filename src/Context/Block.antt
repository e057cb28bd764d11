-- ===== src/Context/Block.antt =====
-- src/context.cpp: a block of audio, deletion, and shutting down.
use mathlib.Core.Option
use synthizer.Base.{
  ℕ, zero, suc, ◌*◌, ◌/◌, Bool, true, false, not, ◌&&◌, ◌||◌, Option, none, some, List, [], ◌∷◌,
  ◌++◌, ltb, if◌then◌else◌,
}
use synthizer.Float.{Float}
use synthizer.Fader.{add32, block_size, FadeDriver, try_set_value, try_drive}
use synthizer.Pausable.{
  is_paused, tick_pausable, should_incorporate_pausable_gain, get_pausable_gain,
}
use synthizer.Memory.{lock}
use synthizer.VectorHelpers.{iterate_removing}
use synthizer.PriorityQueue.{HeapAlgorithms}
use synthizer.Context.{Engine, Context, with_world, after_call, run_commands, expire_lingering}

-- The objects to delete after one whose deletion has released others.
abbrev pub released_to : Bool → List ℕ → List ℕ → List ℕ
released_to delete_directly released rest =
    if delete_directly then released ++ rest else rest ++ released

module _ {fl : Float} {World : Type 0} (heaps : HeapAlgorithms ℕ) (engine : Engine fl World) where
  open fl use {Real, of_unsigned, fadd, fmul}

  -- The loop over `pending_deletes`, its fuel first: what an object releases as it is deleted is
  -- queued behind the rest, or deleted before it where deletion is direct. `none` means that the
  -- fuel ran out.
  unfoldable pub delete_loop : ℕ → List ℕ → Context fl World → Option (Context fl World)
  unfolding after_call
  delete_loop zero pending ctx = none
  delete_loop (suc fuel) [] ctx = some ctx
  delete_loop (suc fuel) (a ∷ rest) ctx =
      let ctx' = after_call heaps engine (engine.destroy a ctx.shared) ctx in
      delete_loop fuel (released_to ctx.delete_directly ctx'.pending_deletes rest)
        (record ctx' { pending_deletes = [] })

  unfoldable pub run_deletes : ℕ → Context fl World → Option (Context fl World)
  unfolding delete_loop
  run_deletes fuel ctx = delete_loop fuel ctx.pending_deletes (record ctx { pending_deletes = [] })

  unfoldable pub run_source_at : ℕ → Context fl World → Context fl World
  unfolding after_call
  run_source_at a ctx =
      let ticked = after_call heaps engine (engine.tick_source ctx.block_time a ctx.shared) ctx in
      after_call heaps engine (engine.run_source ctx.block_time a ticked.shared) ticked

  -- The loop over the sources: those kept, and the context after it.
  unfoldable pub run_sources : List ℕ → Context fl World → List ℕ × Context fl World
  unfolding run_source_at
  run_sources [] ctx = ([], ctx)
  run_sources (a ∷ rest) ctx = elim (lock (ctx.shared.store a)) [
    | false ↦ run_sources rest ctx
    | true ↦ let (kept, ctx') = run_sources rest (run_source_at a ctx) in (a ∷ kept, ctx')
  ]

  unfoldable pub run_effects : ℕ → Context fl World → Option (Context fl World)
  unfolding after_call iterate_removing
  run_effects channels ctx =
      Option.map (λ (p : List ℕ × Context fl World). record p.1 { global_effects = p.0 })
        (iterate_removing (λ (c : Context fl World) a. lock (c.shared.store a))
          (λ a (c : Context fl World).
            after_call heaps engine (engine.run_effect channels a c.shared) c)
          ctx.global_effects ctx)

  -- The new gain, if the property has changed or the context is between playing and paused.
  -- `none` is a failed assertion of the fader.
  unfoldable pub update_gain : Context fl World → Option (Context fl World)
  update_gain ctx =
      let (world, new_gain, changed) = engine.acquire_gain ctx.shared.world in
      let acquired = with_world world ctx in
      if changed || should_incorporate_pausable_gain ctx.pause_state
      then Option.map (λ (d : FadeDriver fl). record acquired { gain_driver = d })
          (try_set_value fl ctx.block_time
            (fmul new_gain (of_unsigned (get_pausable_gain ctx.pause_state))) 0 ctx.gain_driver)
      else some acquired

  abbrev pub clear_direct_buffer : ℕ → Context fl World → Context fl World
  clear_direct_buffer channels ctx = record ctx {
    shared = record ctx.shared {
      direct_buffer =
          λ k. if ltb k (block_size * channels) then of_unsigned 0 else ctx.shared.direct_buffer k;
    };
  }

  -- The sources and the panners, which write to a block of silence.
  unfoldable pub run_panned : ℕ → Context fl World → Context fl World × (ℕ → Real)
  run_panned channels ctx =
      let cleared = clear_direct_buffer channels ctx in
      let (kept, sourced) = run_sources cleared.sources cleared in
      let (world, destination) =
        engine.run_panners channels sourced.shared.world (λ k. of_unsigned 0) in
      (with_world world (record sourced { sources = kept }), destination)

  -- The gain, as `drive` hands it out, and the objects that linger.
  unfoldable pub drive_gain : Context fl World → Option (Context fl World × (ℕ → Real))
  drive_gain gained =
      let ticked = record gained { pause_state = tick_pausable gained.pause_state } in
      elim (try_drive fl ticked.block_time ticked.gain_driver) [
        | none ↦ none
        | some driven ↦
            Option.map
              (λ (c : Context fl World). (record c { block_time = add32 c.block_time 1 }, driven.1))
              (expire_lingering heaps engine (record ticked { gain_driver = driven.0 }))
      ]

  -- The router, the direct buffer, the gain, and the objects that linger.
  unfoldable pub finish_block :
      ℕ → (ℕ → Real) → Context fl World → Option (Context fl World × (ℕ → Real))
  finish_block channels destination effected =
      let finished =
        with_world (engine.finish_block effected.block_time effected.shared.world) effected in
      let direct = finished.shared.direct_buffer in
      elim (update_gain finished) [
        | none ↦ none
        | some gained ↦
            Option.map
              (λ (p : Context fl World × (ℕ → Real)).
                (p.0, λ k. fmul (fadd (destination k) (direct k)) (p.1 (k / channels))))
              (drive_gain gained)
      ]

  -- The part of a block after the check for a pause; `none` is a fault.
  unfoldable pub generate_block : ℕ → Context fl World → Option (Context fl World × (ℕ → Real))
  generate_block channels ctx =
      let (panned, destination) = run_panned channels ctx in
      elim (run_effects channels panned) [
        | none ↦ none
        | some effected ↦ finish_block channels destination effected
      ]

  -- This is the first safe place to pause.
  unfoldable pub after_deletes :
      ℕ → Option (Context fl World) → Option (Context fl World × Option (ℕ → Real))
  after_deletes channels none = none
  after_deletes channels (some ctx) =
      if is_paused ctx.pause_state
      then some (ctx, some (λ k. of_unsigned 0))
      else Option.map (λ (p : Context fl World × (ℕ → Real)). (p.0, some p.1))
          (generate_block channels ctx)

  -- One call of the audio callback: the context after it, and what it writes, if it writes. The
  -- fuel is for the deletions.
  unfoldable pub generate_audio :
      ℕ → ℕ → Context fl World → Option (Context fl World × Option (ℕ → Real))
  generate_audio fuel channels ctx =
      let commanded = run_commands heaps engine ctx in
      let automated =
        with_world (engine.tick_context commanded.block_time commanded.shared.world) commanded in
      if not ctx.running && not ctx.headless
      then some (ctx, none)
      else after_deletes channels (run_deletes fuel automated)

  -- Waiting for the audio callback to end, and for deletions in progress, is over when this starts.
  unfoldable pub shutdown : ℕ → Context fl World → Option (Context fl World)
  unfolding run_deletes
  shutdown fuel ctx =
      let stopped =
        if not ctx.headless then record ctx { running = false; delete_directly = true } else ctx in
      Option.map (λ (c : Context fl World). record c { command_queue = [] })
        (run_deletes fuel stopped)
