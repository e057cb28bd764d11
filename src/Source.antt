-- ===== src/Source.antt =====
-- include/synthizer/sources.hpp and src/source.cpp: a source, which mixes its generators.
pub mod Lingering
mod Tests
use mathlib.Core.Option
use synthizer.Base.{
  ℕ, zero, suc, ◌+◌, ◌-◌, ◌*◌, ◌/◌, Bool, true, false, not, ◌&&◌, ◌||◌, Option, none, some, List,
  [], ◌∷◌, ◌++◌, length, lower_bound, swap, take, ltb, ◌==◌, if◌then◌else◌,
}
use synthizer.Float.{Float}
use synthizer.Fader.{FadeDriver, sub32, block_size, try_set_value, try_drive}
use synthizer.Pausable.{
  PauseState, is_paused, tick_pausable, should_incorporate_pausable_gain, get_pausable_gain,
}
use synthizer.VectorHelpers.{contains, iterate_removing}

-- The generators, properties and filters that a source calls. A generator adds its audio to the
-- block, mixed to the channels of the block.
pub record SourceEngine (fl : Float) (World : Type 0) : Type 0 where
  pub is_alive : World → ℕ → Bool
  pub create_filters : ℕ → World → World
  pub acquire_gain : World → World × fl.Real × Bool
  pub run_generator : ℕ → ℕ → World × (ℕ → fl.Real) → World × (ℕ → fl.Real)
  pub filter_and_route : ℕ → World × (ℕ → fl.Real) → World × (ℕ → fl.Real)

pub record Source (fl : Float) (World : Type 0) : Type 0 where
  pub generators : List ℕ
  pub last_channels : ℕ
  pub gain_fader : FadeDriver fl
  pub pause_state : PauseState
  pub is_lingering : Bool
  pub linger_countdown : ℕ
  pub block : ℕ → fl.Real
  pub world : World

module _ {fl : Float} {World : Type 0} (engine : SourceEngine fl World) where
  open fl use {Real, of_unsigned, fmul}

  unfoldable pub has_generator : ℕ → Source fl World → Bool
  unfolding contains
  has_generator g s = contains (engine.is_alive s.world) g s.generators

  unfoldable pub add_generator : ℕ → Source fl World → Source fl World
  unfolding has_generator
  add_generator g s =
      if has_generator g s then s else record s { generators = s.generators ++ (g ∷ []) }

  -- The index of the first reference that locks to the generator.
  abbrev pub index_of : ℕ → Source fl World → ℕ
  index_of g s = lower_bound (λ a. not (engine.is_alive s.world a && (a == g))) s.generators

  unfoldable pub remove_generator : ℕ → Source fl World → Source fl World
  unfolding has_generator
  remove_generator g s =
      let last = length s.generators - 1 in
      if length s.generators == 0
      then s
      else if not (has_generator g s)
      then s
      else record s { generators = take last (swap s.generators last (index_of g s)) }

  unfoldable pub start_lingering : Source fl World → Source fl World
  start_lingering s = record s { is_lingering = true }

  -- The part of fillBlock before the check for a pause; `none` is a failed assertion of the fader.
  unfoldable pub prepare_block : ℕ → ℕ → Source fl World → Option (Source fl World)
  prepare_block time channels s =
      let world =
        if channels == s.last_channels then s.world else engine.create_filters channels s.world in
      let (acquired, gain, changed) = engine.acquire_gain world in
      let fader =
        if changed || should_incorporate_pausable_gain s.pause_state
        then try_set_value fl time (fmul gain (of_unsigned (get_pausable_gain s.pause_state))) 0
            s.gain_fader
        else some s.gain_fader in
      Option.map
        (λ (d : FadeDriver fl). record s {
          last_channels = channels;
          gain_fader = d;
          world = acquired;
          block = λ k. if ltb k (channels * block_size) then of_unsigned 0 else s.block k;
        })
        fader

  -- The end of fillBlock: the countdown, and whether the source signals that its linger is over.
  unfoldable pub count_down : Source fl World → Source fl World × Bool
  count_down s =
      let countdown = sub32 s.linger_countdown 1 in
      if s.is_lingering && (length s.generators == 0)
      then (record s { linger_countdown = countdown }, countdown == 0)
      else (s, false)

  -- The gain and the filters, after the loop over the generators.
  unfoldable pub filter_block :
      ℕ → ℕ → Source fl World → List ℕ × (World × (ℕ → Real)) → Option (Source fl World)
  filter_block time channels s (kept, (world, mixed)) =
      Option.map
        (λ (driven : FadeDriver fl × (ℕ → Real)).
          let gained : ℕ → Real = λ k.
            if ltb k (channels * block_size)
            then fmul (mixed k) (driven.1 (k / channels))
            else mixed k in
          let (world', filtered) = engine.filter_and_route channels (world, gained) in
          record s { generators = kept; gain_fader = driven.0; world = world'; block = filtered })
        (try_drive fl time s.gain_fader)

  unfoldable pub mix_block : ℕ → ℕ → Source fl World → Option (Source fl World)
  unfolding iterate_removing filter_block
  mix_block time channels s =
      elim (iterate_removing (λ (p : World × (ℕ → Real)) a. engine.is_alive p.0 a)
        (λ a (p : World × (ℕ → Real)). engine.run_generator channels a p) s.generators
        (s.world, s.block)) [ none ↦ none | some mixed ↦ filter_block time channels s mixed ]

  unfoldable pub fill_block : ℕ → ℕ → Source fl World → Option (Source fl World × Bool)
  unfolding prepare_block mix_block count_down
  fill_block time channels s = elim (prepare_block time channels s) [
    | none ↦ none
    | some prepared ↦
        if is_paused prepared.pause_state
        then some (prepared, false)
        else Option.map count_down (
            mix_block time channels
              (record prepared { pause_state = tick_pausable prepared.pause_state }))
  ]
