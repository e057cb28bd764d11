-- ===== src/Context/Invariant.antt =====
-- src/context.cpp: what every part of a block of audio keeps, and that a block ends.
use synthizer.Base.{
  ℕ, zero, suc, ◌+◌, ◌<◌, ◌≡◌, refl, ap, ◌∙◌, sym, subst, Bool, true, false, some, List, [], ◌∷◌,
  ◌++◌, if◌then◌else◌, arith,
}
use synthizer.Float.{Float}
use synthizer.Fader.Assertions.{IsReady}
use synthizer.Memory.{lock}
use synthizer.PriorityQueue.{IsHeap, HeapAlgorithms}
use synthizer.Context.{
  Shared, Called, Command, Context, Engine, kill, linger_timeout, ends_itself, is_zero,
  linger_block, enqueue_linger_stop, begin_linger, execute_command, execute_all, run_commands,
  stop_all, after_call, all_alive, with_store, with_world, stash_linger_reference,
}
use synthizer.Context.Block.{released_to, delete_loop, run_deletes}
use synthizer.Context.Linger.{kill-queue, kill-time, kill-driver}
use synthizer.Context.Schedule.{push-IsHeap}

module _ {fl : Float} {World : Type 0} where
  -- The lingering objects are a heap, it is still block `now`, and the fader of the gain is ready.
  pub record Keeps (now : ℕ) (ctx : Context fl World) : Type 0 where
    pub heap : IsHeap ctx.lingering_objects
    pub time : ctx.block_time ≡ now
    pub fades : IsReady fl now ctx.gain_driver

  kill-Keeps : (now a : ℕ) (ctx : Context fl World) → Keeps now ctx → Keeps now (kill a ctx)
  kill-Keeps now a ctx k = record {
    heap = subst IsHeap (sym (kill-queue a ctx)) k.heap;
    time = kill-time a ctx ∙ k.time;
    fades = subst (IsReady fl now) (sym (kill-driver a ctx)) k.fades;
  }

  pub if_Keeps :
      (now : ℕ) (b : Bool) (x y : Context fl World)
      → Keeps now x
      → Keeps now y
      → Keeps now (if b then x else y)
  if_Keeps now true x y p q = p
  if_Keeps now false x y p q = q

module _ {fl : Float} {World : Type 0} (heaps : HeapAlgorithms ℕ) (engine : Engine fl World) where
  begin_linger-Keeps :
      (now a : ℕ) (configured : fl.Real) (ctx : Context fl World)
      → Keeps now ctx
      → Keeps now (begin_linger heaps engine a configured ctx)
  unfolding begin_linger
  begin_linger-Keeps now a configured ctx k =
      let call = engine.start_lingering a configured ctx.shared.world in
      let started : Context fl World =
        with_world call.0 (with_store (stash_linger_reference a ctx.shared.store) ctx) in
      let timeout : fl.Real = linger_timeout fl configured call.1 in
      let kept : Keeps now started = record { heap = k.heap; time = k.time; fades = k.fades } in
      if_Keeps now (ends_itself fl configured call.1) _ _ kept (
        if_Keeps now (is_zero fl timeout) _ _ (kill-Keeps now a started kept) (record {
          heap =
              push-IsHeap heaps (linger_block heaps engine ctx.block_time timeout) a
                ctx.lingering_objects k.heap;
          time = k.time;
          fades = k.fades;
        }))

  execute_command-Keeps :
      (now : ℕ) (cmd : Command fl World) (ctx : Context fl World)
      → Keeps now ctx
      → Keeps now (execute_command heaps engine cmd ctx)
  unfolding execute_command
  execute_command-Keeps now (Command.register_source a) ctx k =
      if_Keeps now (lock (ctx.shared.store a)) _ _
        (record { heap = k.heap; time = k.time; fades = k.fades }) k
  execute_command-Keeps now (Command.register_global_effect a) ctx k =
      if_Keeps now (lock (ctx.shared.store a)) _ _
        (record { heap = k.heap; time = k.time; fades = k.fades }) k
  execute_command-Keeps now (Command.start_linger a configured) ctx k =
      begin_linger-Keeps now a configured ctx k
  execute_command-Keeps now Command.pause_context ctx k = record {
    heap = k.heap;
    time = k.time;
    fades = k.fades;
  }
  execute_command-Keeps now Command.play_context ctx k = record {
    heap = k.heap;
    time = k.time;
    fades = k.fades;
  }
  execute_command-Keeps now (Command.callback refs f) ctx k =
      if_Keeps now (all_alive ctx.shared.store refs) _ _
        (record { heap = k.heap; time = k.time; fades = k.fades }) k

  execute_all-Keeps :
      (now : ℕ) (cmds : List (Command fl World)) (ctx : Context fl World)
      → Keeps now ctx
      → Keeps now (execute_all heaps engine cmds ctx)
  unfolding execute_all
  execute_all-Keeps now [] ctx k = k
  execute_all-Keeps now (cmd ∷ cmds) ctx k =
      execute_all-Keeps now cmds (execute_command heaps engine cmd ctx)
        (execute_command-Keeps now cmd ctx k)

  pub run_commands-Keeps :
      (now : ℕ) (ctx : Context fl World) → Keeps now ctx → Keeps now (run_commands heaps engine ctx)
  unfolding run_commands
  run_commands-Keeps now ctx k =
      execute_all-Keeps now ctx.command_queue (record ctx { command_queue = [] })
        (record { heap = k.heap; time = k.time; fades = k.fades })

  stop_all-Keeps :
      (now : ℕ) (stopped : List ℕ) (ctx : Context fl World)
      → Keeps now ctx
      → Keeps now (stop_all heaps engine stopped ctx)
  unfolding stop_all enqueue_linger_stop
  stop_all-Keeps now [] ctx k = k
  stop_all-Keeps now (a ∷ rest) ctx k =
      stop_all-Keeps now rest (enqueue_linger_stop heaps engine a ctx) (record {
        heap = push-IsHeap heaps 0 a ctx.lingering_objects k.heap;
        time = k.time;
        fades = k.fades;
      })

  pub after_call-Keeps :
      (now : ℕ) (called : Called fl World) (ctx : Context fl World)
      → Keeps now ctx
      → Keeps now (after_call heaps engine called ctx)
  unfolding after_call
  after_call-Keeps now called ctx k =
      let stopped =
        stop_all-Keeps now called.stopped (record ctx { shared = called.shared })
          (record { heap = k.heap; time = k.time; fades = k.fades }) in
      record { heap = stopped.heap; time = stopped.time; fades = stopped.fades }

  stop_all-pending :
      (stopped : List ℕ) (ctx : Context fl World)
      → (stop_all heaps engine stopped ctx).pending_deletes ≡ ctx.pending_deletes
  unfolding stop_all enqueue_linger_stop
  stop_all-pending [] ctx = refl
  stop_all-pending (a ∷ rest) ctx = stop_all-pending rest (enqueue_linger_stop heaps engine a ctx)

  stop_all-pause_state :
      (stopped : List ℕ) (ctx : Context fl World)
      → (stop_all heaps engine stopped ctx).pause_state ≡ ctx.pause_state
  unfolding stop_all enqueue_linger_stop
  stop_all-pause_state [] ctx = refl
  stop_all-pause_state (a ∷ rest) ctx =
      stop_all-pause_state rest (enqueue_linger_stop heaps engine a ctx)

  after_call-pause_state :
      (called : Called fl World) (ctx : Context fl World)
      → (after_call heaps engine called ctx).pause_state ≡ ctx.pause_state
  unfolding after_call
  after_call-pause_state called ctx =
      stop_all-pause_state called.stopped (record ctx { shared = called.shared })

  after_call-pending :
      (called : Called fl World) (ctx : Context fl World)
      → ctx.pending_deletes ≡ []
      → (after_call heaps engine called ctx).pending_deletes ≡ called.released
  unfolding after_call
  after_call-pending called ctx e =
      ap (λ l. l ++ called.released)
        (stop_all-pending called.stopped (record ctx { shared = called.shared }) ∙ e)

  -- A measure of what is still to be deleted, given a weight for every object.
  module _ (weight : ℕ → ℕ) where
    abbrev pub total : List ℕ → ℕ
    total [] = 0
    total (a ∷ as') = weight a + total as'

    total-append : (xs ys : List ℕ) → total (xs ++ ys) ≡ total xs + total ys
    total-append [] ys = omega arith
    total-append (x ∷ xs) ys = omega (arith, total-append xs ys)

    total-released_to :
        (b : Bool) (xs ys : List ℕ) → total (released_to b xs ys) ≡ total xs + total ys
    total-released_to true xs ys = total-append xs ys
    total-released_to false xs ys = omega (arith, total-append ys xs)

    -- Deleting an object releases only lighter ones, together.
    abbrev pub ReleasesLess : Type 0
    ReleasesLess = (a : ℕ) (s : Shared fl World) → total (engine.destroy a s).released < weight a

    delete_loop-ends :
        ReleasesLess
        → (now fuel : ℕ) (pending : List ℕ) (ctx : Context fl World) → total pending < fuel
        → ctx.pending_deletes ≡ []
        → Keeps now ctx
        → (ctx' : Context fl World) × (delete_loop heaps engine fuel pending ctx ≡ some ctx')
          × (ctx'.pending_deletes ≡ [])
          × (ctx'.pause_state ≡ ctx.pause_state)
          × Keeps now ctx'
    unfolding delete_loop
    delete_loop-ends less now zero pending ctx h e k = absurd (omega arith)
    delete_loop-ends less now (suc fuel) [] ctx h e k = (ctx, refl, e, refl, k)
    delete_loop-ends less now (suc fuel) (a ∷ rest) ctx h e k =
        let called = engine.destroy a ctx.shared in
        let ctx' : Context fl World = after_call heaps engine called ctx in
        let new : ctx'.pending_deletes ≡ called.released = after_call-pending called ctx e in
        let kept : Keeps now ctx' = after_call-Keeps now called ctx k in
        let light : total called.released < weight a = less a ctx.shared in
        let sum : total ctx'.pending_deletes ≡ total called.released = ap total new in
        let (last, f, done, state, kept') =
          delete_loop-ends less now fuel (released_to ctx.delete_directly ctx'.pending_deletes rest)
            (record ctx' { pending_deletes = [] })
            (omega (arith, total-released_to ctx.delete_directly ctx'.pending_deletes rest)) refl
            (record { heap = kept.heap; time = kept.time; fades = kept.fades }) in
        (last, f, done, state ∙ after_call-pause_state called ctx, kept')

    -- Deleting ends if objects own others without a cycle, so that they can be given weights, and
    -- then nothing is left to delete.
    pub run_deletes-ends :
        ReleasesLess
        → (now fuel : ℕ) (ctx : Context fl World) → total ctx.pending_deletes < fuel
        → Keeps now ctx
        → (ctx' : Context fl World) × (run_deletes heaps engine fuel ctx ≡ some ctx')
          × (ctx'.pending_deletes ≡ [])
          × (ctx'.pause_state ≡ ctx.pause_state)
          × Keeps now ctx'
    unfolding run_deletes
    run_deletes-ends less now fuel ctx h k =
        delete_loop-ends less now fuel ctx.pending_deletes (record ctx { pending_deletes = [] }) h
          refl (record { heap = k.heap; time = k.time; fades = k.fades })
