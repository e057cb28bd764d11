-- ===== src/Context/Totality.antt =====
-- generateAudio of src/context.cpp: every block ends, and passes the assertions of the gain.
use mathlib.Core.Option
use synthizer.Base.{
  ℕ, ◌+◌, ◌^◌, ◌/◌, ◌<◌, ◌≡◌, refl, ap, ◌∙◌, subst, sym, false, not, ◌||◌, ◌&&◌, some, List, [],
  ◌∷◌, if◌then◌else◌, inl, inr, Bool-cases,
}
use synthizer.Float.{Float}
use synthizer.Fader.{add32, FadeDriver, try_set_value, try_drive}
use synthizer.Fader.Assertions.{IsReady, try_set_value-IsReady, try_drive-IsReady}
use synthizer.Memory.{lock}
use synthizer.Pausable.{
  is_paused, should_incorporate_pausable_gain, tick_pausable, get_pausable_gain,
}
use synthizer.VectorHelpers.Iterate.{iterate_removing-ends}
use synthizer.PriorityQueue.{IsHeap, HeapAlgorithms}
use synthizer.Context.{Context, Engine, run_commands, after_call, with_world}
use synthizer.Context.Block.{
  run_source_at, run_sources, run_effects, update_gain, clear_direct_buffer, run_panned, drive_gain,
  finish_block, generate_block, after_deletes, generate_audio,
}
use synthizer.Context.Linger.{expire_lingering-Expired}
use synthizer.Context.Invariant.{
  Keeps, after_call-Keeps, run_commands-Keeps, total, ReleasesLess, run_deletes-ends,
}

module _ {fl : Float} {World : Type 0} (heaps : HeapAlgorithms ℕ) (engine : Engine fl World) where
  run_source_at-Keeps :
      (now a : ℕ) (ctx : Context fl World)
      → Keeps now ctx
      → Keeps now (run_source_at heaps engine a ctx)
  unfolding run_source_at
  run_source_at-Keeps now a ctx k =
      let ticked : Context fl World =
        after_call heaps engine (engine.tick_source ctx.block_time a ctx.shared) ctx in
      after_call-Keeps heaps engine now (engine.run_source ctx.block_time a ticked.shared) ticked
        (after_call-Keeps heaps engine now (engine.tick_source ctx.block_time a ctx.shared) ctx k)

  run_sources-Keeps :
      (now : ℕ) (sources : List ℕ) (ctx : Context fl World)
      → Keeps now ctx
      → Keeps now (run_sources heaps engine sources ctx).1
  unfolding run_sources
  run_sources-Keeps now [] ctx k = k
  run_sources-Keeps now (a ∷ rest) ctx k = elim (Bool-cases (lock (ctx.shared.store a))) [
    | inl e ↦
        rw (e, run_sources)
          (run_sources-Keeps now rest (run_source_at heaps engine a ctx)
            (run_source_at-Keeps now a ctx k))
    | inr e ↦ rw (e, run_sources) (run_sources-Keeps now rest ctx k)
  ]

  run_effects-Keeps :
      (now channels : ℕ) (ctx : Context fl World)
      → Keeps now ctx
      → (ctx' : Context fl World) × (run_effects heaps engine channels ctx ≡ some ctx')
        × Keeps now ctx'
  unfolding run_effects
  run_effects-Keeps now channels ctx k =
      let (left, ctx', e, kept) =
        iterate_removing-ends (λ (c : Context fl World) a. lock (c.shared.store a))
          (λ a (c : Context fl World).
            after_call heaps engine (engine.run_effect channels a c.shared) c)
          (Keeps now)
          (λ a c p. after_call-Keeps heaps engine now (engine.run_effect channels a c.shared) c p)
          ctx.global_effects ctx k in
      (
        record ctx' { global_effects = left },
        ap (Option.map (λ (p : List ℕ × Context fl World). record p.1 { global_effects = p.0 })) e,
        record { heap = kept.heap; time = kept.time; fades = kept.fades },
      )

  update_gain-Keeps :
      (now : ℕ) (ctx : Context fl World)
      → now + 1 < 2 ^ 32
      → Keeps now ctx
      → (ctx' : Context fl World) × (update_gain heaps engine ctx ≡ some ctx') × Keeps now ctx'
  unfolding update_gain
  update_gain-Keeps now ctx fits k =
      let (world, new_gain, changed) = engine.acquire_gain ctx.shared.world in
      let acquired : Context fl World = with_world world ctx in
      let gain = fl.fmul new_gain (fl.of_unsigned (get_pausable_gain ctx.pause_state)) in
      let (d, e, ready) = try_set_value-IsReady fl ctx.gain_driver now gain k.fades fits in
      let set = subst (λ t. try_set_value fl t gain 0 ctx.gain_driver ≡ some d) (sym k.time) e in
      elim (Bool-cases (changed || should_incorporate_pausable_gain ctx.pause_state)) [
        | inl f ↦ (
          record acquired { gain_driver = d },
          rw f (ap (Option.map (λ (x : FadeDriver fl). record acquired { gain_driver = x })) set),
          record { heap = k.heap; time = k.time; fades = ready },
        )
        | inr f ↦ (acquired, rw f refl, record { heap = k.heap; time = k.time; fades = k.fades })
      ]

  run_panned-Keeps :
      (now channels : ℕ) (ctx : Context fl World)
      → Keeps now ctx
      → Keeps now (run_panned heaps engine channels ctx).0
  unfolding run_panned
  run_panned-Keeps now channels ctx k =
      let cleared : Context fl World = clear_direct_buffer heaps engine channels ctx in
      let kept =
        run_sources-Keeps now cleared.sources cleared
          (record { heap = k.heap; time = k.time; fades = k.fades }) in
      record { heap = kept.heap; time = kept.time; fades = kept.fades }

  drive_gain-ends :
      (now : ℕ) (ctx : Context fl World)
      → now + 1 < 2 ^ 32
      → Keeps now ctx
      → (ctx' : Context fl World) × (gain : ℕ → fl.Real) × (drive_gain heaps engine ctx
          ≡ some (ctx', gain))
        × Keeps (add32 now 1) ctx'
  unfolding drive_gain
  drive_gain-ends now ctx fits k =
      let (d, gain, e, ready) = try_drive-IsReady fl ctx.gain_driver now k.fades fits in
      let driven = subst (λ t. try_drive fl t ctx.gain_driver ≡ some (d, gain)) (sym k.time) e in
      let (last, f, expired) =
        expire_lingering-Expired heaps engine
          (record ctx { pause_state = tick_pausable ctx.pause_state; gain_driver = d }) k.heap in
      (
        record last { block_time = add32 last.block_time 1 },
        gain,
        rw (driven, drive_gain)
            (ap
              (Option.map
                (λ (c : Context fl World). (record c { block_time = add32 c.block_time 1 }, gain)))
              f),
        record {
          heap = expired.heap;
          time = ap (λ t. add32 t 1) (expired.time ∙ k.time);
          fades = subst (IsReady fl (add32 now 1)) (sym expired.driver) ready;
        },
      )

  finish_block-ends :
      (now channels : ℕ) (destination : ℕ → fl.Real) (ctx : Context fl World)
      → now + 1 < 2 ^ 32
      → Keeps now ctx
      → (ctx' : Context fl World) × (out : ℕ → fl.Real) × (finish_block heaps engine channels
            destination ctx
          ≡ some (ctx', out))
        × Keeps (add32 now 1) ctx'
  unfolding finish_block
  finish_block-ends now channels destination ctx fits k =
      let finished : Context fl World =
        with_world (engine.finish_block ctx.block_time ctx.shared.world) ctx in
      let (gained, e, kept) =
        update_gain-Keeps now finished fits
          (record { heap = k.heap; time = k.time; fades = k.fades }) in
      let (ctx', gain, f, last) = drive_gain-ends now gained fits kept in
      let out : (ℕ → fl.Real) → ℕ → fl.Real = λ g i.
        fl.fmul (fl.fadd (destination i) (finished.shared.direct_buffer i)) (g (i / channels)) in
      (
        ctx',
        out gain,
        rw (e, finish_block)
            (ap (Option.map (λ (p : Context fl World × (ℕ → fl.Real)). (p.0, out p.1))) f),
        last,
      )

  generate_block-ends :
      (now channels : ℕ) (ctx : Context fl World)
      → now + 1 < 2 ^ 32
      → Keeps now ctx
      → (ctx' : Context fl World) × (out : ℕ → fl.Real) × (generate_block heaps engine channels ctx
          ≡ some (ctx', out))
        × Keeps (add32 now 1) ctx'
  unfolding generate_block
  generate_block-ends now channels ctx fits k =
      let panned = run_panned heaps engine channels ctx in
      let (effected, e, kept) =
        run_effects-Keeps now channels panned.0 (run_panned-Keeps now channels ctx k) in
      let (ctx', out, f, last) = finish_block-ends now channels panned.1 effected fits kept in
      (ctx', out, rw (e, generate_block) f, last)

  -- The block after the deletions: paused, it is silent and the time stands still.
  after_deletes-ends :
      (now channels : ℕ) (ctx : Context fl World)
      → now + 1 < 2 ^ 32
      → Keeps now ctx
      → (ctx' : Context fl World) × (out : ℕ → fl.Real) × (after_deletes heaps engine channels
            (some ctx)
          ≡ some (ctx', some out))
        × Keeps (if is_paused ctx.pause_state then now else add32 now 1) ctx'
        × ((i : ℕ)
            → (if is_paused ctx.pause_state then out i else fl.of_unsigned 0) ≡ fl.of_unsigned 0)
  unfolding after_deletes
  after_deletes-ends now channels ctx fits k = elim (Bool-cases (is_paused ctx.pause_state)) [
    | inl e ↦ (ctx, λ i. fl.of_unsigned 0, rw e refl, rw e k, λ i. rw e refl)
    | inr e ↦
        let (ctx', out, f, last) = generate_block-ends now channels ctx fits k in
        (
          ctx',
          out,
          rw e (ap (Option.map (λ (p : Context fl World × (ℕ → fl.Real)). (p.0, some p.1))) f),
          rw e last,
          λ i. rw e refl,
        )
  ]

  -- While the context runs, its block time does not wrap and the fader of its gain, whose fades
  -- take one block, has started, one call of the audio callback ends, passes the assertions of that
  -- fader and writes a block: given weights by which an object outweighs all that its deletion
  -- releases, the sum of the weights of what is to be deleted after the commands is enough fuel for
  -- the deletions. The lingering objects stay a heap and the fader stays ready. The block time goes
  -- up by one, unless the context is paused once its commands have run: then it stands still and
  -- the block is silent.
  pub generate_audio-ends :
      (weight : ℕ → ℕ)
      → ReleasesLess heaps engine weight
      → (fuel channels : ℕ) (ctx : Context fl World) → (not ctx.running && not ctx.headless) ≡ false
      → IsHeap ctx.lingering_objects
      → IsReady fl ctx.block_time ctx.gain_driver
      → ctx.block_time + 1 < 2 ^ 32
      → total heaps engine weight (run_commands heaps engine ctx).pending_deletes < fuel
      → (ctx' : Context fl World) × (out : ℕ → fl.Real) × (generate_audio heaps engine fuel channels
            ctx
          ≡ some (ctx', some out))
        × Keeps
            (if is_paused (run_commands heaps engine ctx).pause_state
              then ctx.block_time
              else add32 ctx.block_time 1)
            ctx'
        × ((i : ℕ)
            → (if is_paused (run_commands heaps engine ctx).pause_state
                then out i
                else fl.of_unsigned 0)
              ≡ fl.of_unsigned 0)
  unfolding generate_audio
  generate_audio-ends weight less fuel channels ctx runs heap fades fits enough =
      let now = ctx.block_time in
      let commanded : Context fl World = run_commands heaps engine ctx in
      let kept : Keeps now commanded =
        run_commands-Keeps heaps engine now ctx
          (record { heap = heap; time = refl; fades = fades }) in
      let automated : Context fl World =
        with_world (engine.tick_context commanded.block_time commanded.shared.world) commanded in
      let (deleted, e, none_left, state, kept') =
        run_deletes-ends heaps engine weight less now fuel automated enough
          (record { heap = kept.heap; time = kept.time; fades = kept.fades }) in
      let (ctx', out, f, last, silent) = after_deletes-ends now channels deleted fits kept' in
      (
        ctx',
        out,
        rw runs (ap (after_deletes heaps engine channels) e ∙ f),
        subst (λ p. Keeps (if is_paused p then now else add32 now 1) ctx') state last,
        subst (λ p. (i : ℕ) → (if is_paused p then out i else fl.of_unsigned 0) ≡ fl.of_unsigned 0)
            state silent,
      )
