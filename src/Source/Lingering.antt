-- ===== src/Source/Lingering.antt =====
-- src/source.cpp: how long a source lingers.
use mathlib.Core.Option
use synthizer.Base.{
  ℕ, zero, suc, ◌^◌, ◌<◌, ◌≡◌, refl, ap, ◌∙◌, Bool, true, false, Option, none, some, List, [], ◌∷◌,
  ◌++◌, replicate, ◌==◌, arith, ◌+◌, ◌*◌, ◌/◌, ◌||◌, ltb, if◌then◌else◌, inl, inr, Bool-cases,
}
use synthizer.Float.{Float}
use synthizer.Fader.{add32, sub32, block_size, FadeDriver}
use synthizer.Fader.Assertions.{IsReady, try_set_value-IsReady, try_drive-IsReady}
use synthizer.Pausable.{
  playing, is_paused, tick_pausable, should_incorporate_pausable_gain, get_pausable_gain,
}
use synthizer.VectorHelpers.{iterate_removing}
use synthizer.Source.{
  SourceEngine, Source, prepare_block, filter_block, mix_block, count_down, fill_block,
}

module _ {fl : Float} {World : Type 0} (engine : SourceEngine fl World) where
  -- Blocks of a source one after the other, with what each of them signals.
  pub fill_blocks : ℕ → ℕ → ℕ → Source fl World → Option (Source fl World × List Bool)
  fill_blocks zero time channels s = some (s, [])
  fill_blocks (suc n) time channels s = elim (fill_block engine time channels s) [
    | none ↦ none
    | some (s', signal) ↦ elim (fill_blocks n (add32 time 1) channels s') [
      | none ↦ none
      | some (s'', signals) ↦ some (s'', signal ∷ signals)
    ]
  ]

-- A source that lingers and has no generators left.
pub record IsSpent (fl : Float) (World : Type 0) (s : Source fl World) : Type 0 where
  pub no_generators : s.generators ≡ []
  pub lingers : s.is_lingering ≡ true
  pub plays : s.pause_state ≡ playing

module _ {fl : Float} {World : Type 0} (engine : SourceEngine fl World) where
  prepare_block-IsReady :
      (time channels : ℕ) (s : Source fl World)
      → IsSpent fl World s
      → IsReady fl time s.gain_fader
      → time + 1 < 2 ^ 32
      → (s' : Source fl World) × (prepare_block engine time channels s ≡ some s')
        × IsSpent fl World s'
        × IsReady fl time s'.gain_fader
        × (s'.linger_countdown ≡ s.linger_countdown)
  unfolding prepare_block
  prepare_block-IsReady time channels s spent ready fits =
      let world : World =
        if channels == s.last_channels then s.world else engine.create_filters channels s.world in
      let (acquired, gain, changed) = engine.acquire_gain world in
      let new_gain = fl.fmul gain (fl.of_unsigned (get_pausable_gain s.pause_state)) in
      let with_fader : FadeDriver fl → Source fl World = λ d. record s {
        last_channels = channels;
        gain_fader = d;
        world = acquired;
        block = λ k. if ltb k (channels * block_size) then fl.of_unsigned 0 else s.block k;
      } in
      let same : (d : FadeDriver fl) → IsSpent fl World (with_fader d) = λ d. record {
        no_generators = spent.no_generators;
        lingers = spent.lingers;
        plays = spent.plays;
      } in
      let (d, e, ready') = try_set_value-IsReady fl s.gain_fader time new_gain ready fits in
      elim (Bool-cases (changed || should_incorporate_pausable_gain s.pause_state)) [
        | inl f ↦ (with_fader d, rw f (ap (Option.map with_fader) e), same d, ready', refl)
        | inr f ↦ (with_fader s.gain_fader, rw f refl, same s.gain_fader, ready, refl)
      ]

  nothing_to_mix :
      (time channels : ℕ) (s : Source fl World)
      → IsSpent fl World s
      → IsReady fl time s.gain_fader
      → time + 1 < 2 ^ 32
      → (s' : Source fl World) × (mix_block engine time channels s ≡ some s')
        × IsSpent fl World s'
        × IsReady fl (add32 time 1) s'.gain_fader
        × (s'.linger_countdown ≡ s.linger_countdown)
  unfolding mix_block iterate_removing filter_block
  nothing_to_mix time channels s spent ready fits =
      let (d, gain, e, ready') = try_drive-IsReady fl s.gain_fader time ready fits in
      let filtered : FadeDriver fl × (ℕ → fl.Real) → Source fl World = λ driven.
        let gained : ℕ → fl.Real = λ k.
          if ltb k (channels * block_size)
          then fl.fmul (s.block k) (driven.1 (k / channels))
          else s.block k in
        let (world, filtered) = engine.filter_and_route channels (s.world, gained) in
        record s { generators = []; gain_fader = driven.0; world = world; block = filtered } in
      (
        filtered (d, gain),
        rw (mix_block, iterate_removing, spent.no_generators) (ap (Option.map filtered) e),
        record { no_generators = refl; lingers = spent.lingers; plays = spent.plays },
        ready',
        refl,
      )

  counted :
      (n : ℕ) (s : Source fl World)
      → s.generators ≡ []
      → s.is_lingering ≡ true
      → s.linger_countdown ≡ suc n
      → suc n < 2 ^ 32
      → count_down engine s ≡ (record s { linger_countdown = n }, n == 0)
  unfolding count_down
  counted n s empty lingers counts small =
      let less : sub32 s.linger_countdown 1 ≡ n = omega (arith, counts, small) in
      rw (count_down, empty) (rw lingers (rw less refl))

  not_paused :
      (time channels : ℕ) (s prepared mixed : Source fl World)
      → prepare_block engine time channels s ≡ some prepared
      → is_paused prepared.pause_state ≡ false
      → mix_block engine time channels
          (record prepared { pause_state = tick_pausable prepared.pause_state })
        ≡ some mixed
      → fill_block engine time channels s ≡ some (count_down engine mixed)
  unfolding fill_block
  not_paused time channels s prepared mixed e f m =
      rw (e, fill_block) (rw f (ap (Option.map (count_down engine)) m))

  IsSpent-block :
      (time channels n : ℕ) (s : Source fl World)
      → IsSpent fl World s
      → IsReady fl time s.gain_fader
      → time + 1 < 2 ^ 32
      → s.linger_countdown ≡ suc n
      → suc n < 2 ^ 32
      → (s' : Source fl World) × (fill_block engine time channels s ≡ some (s', n == 0))
        × IsSpent fl World s'
        × IsReady fl (add32 time 1) s'.gain_fader
        × (s'.linger_countdown ≡ n)
  unfolding is_paused tick_pausable
  IsSpent-block time channels n s spent ready fits counts small =
      let (prepared, e, spent₁, ready₁, counts₁) =
        prepare_block-IsReady time channels s spent ready fits in
      let ticked : Source fl World = record prepared {
        pause_state = tick_pausable prepared.pause_state;
      } in
      let ticked-IsSpent : IsSpent fl World ticked = record {
        no_generators = spent₁.no_generators;
        lingers = spent₁.lingers;
        plays = ap tick_pausable spent₁.plays;
      } in
      let (mixed, ran, spent₂, ready₂, counts₂) =
        nothing_to_mix time channels ticked ticked-IsSpent ready₁ fits in
      (
        record mixed { linger_countdown = n },
        not_paused time channels s prepared mixed e (ap is_paused spent₁.plays) ran
            ∙ ap some (
                counted n mixed spent₂.no_generators spent₂.lingers (counts₂ ∙ counts₁ ∙ counts)
                  small),
        record {
          no_generators = spent₂.no_generators;
          lingers = spent₂.lingers;
          plays = spent₂.plays;
        },
        ready₂,
        refl,
      )

  fills :
      (n time channels : ℕ) (s s' s'' : Source fl World) (signal : Bool) (signals : List Bool)
      → fill_block engine time channels s ≡ some (s', signal)
      → fill_blocks engine n (add32 time 1) channels s' ≡ some (s'', signals)
      → fill_blocks engine (suc n) time channels s ≡ some (s'', signal ∷ signals)
  unfolding fill_blocks
  fills n time channels s s' s'' signal signals e f = rw (fill_blocks, e) (rw f refl)

  -- While the block time does not wrap: a source that plays, lingers and has no generators left,
  -- whose fader has started and takes one block for a fade, signals that its linger is over at the
  -- end of the last block of its countdown and at no block before it, and no assertion of the fader
  -- fails.
  pub fill_blocks-signals :
      (n time channels : ℕ) (s : Source fl World)
      → IsSpent fl World s
      → IsReady fl time s.gain_fader
      → s.linger_countdown ≡ suc n
      → time + suc n < 2 ^ 32
      → (s' : Source fl World) × (fill_blocks engine (suc n) time channels s
          ≡ some (s', replicate n false ++ (true ∷ [])))
  unfolding fill_blocks
  fill_blocks-signals zero time channels s spent ready counts small =
      let (s', ran, spent', ready', counts') =
        IsSpent-block time channels 0 s spent ready (omega (arith, small)) counts
          (omega (arith, small)) in
      (s', rw (fill_blocks, ran) refl)
  fill_blocks-signals (suc n) time channels s spent ready counts small =
      let (s', ran, spent', ready', counts') =
        IsSpent-block time channels (suc n) s spent ready (omega (arith, small)) counts
          (omega (arith, small)) in
      let (s'', rest) =
        fill_blocks-signals n (add32 time 1) channels s' spent' ready' counts'
          (omega (arith, small)) in
      let not_last : (suc n == 0) ≡ false = ground arith in
      (
        s'',
        fills (suc n) time channels s s' s'' false (replicate n false ++ (true ∷ []))
            (ran ∙ ap (λ b. some (s', b)) not_last) rest,
      )
