-- ===== src/Source/Tests.antt =====
-- Runs of a source over whole numbers, with generators that add 1.
use synthizer.Base.{
  ℕ, ◌+◌, ◌≡◌, refl, true, false, some, List, [], ◌∷◌, ◌++◌, replicate, ◌==◌, arith, not,
}
use synthizer.Samples.{nat_float}
use synthizer.Fader.{fade_driver}
use synthizer.Fader.Assertions.{IsReady}
use synthizer.Pausable.{playing}
use synthizer.Source.{SourceEngine, Source, has_generator, add_generator, remove_generator}
use synthizer.Source.Lingering.{fill_blocks, fill_blocks-signals}

-- The world is a generator that is gone.
abbrev ones : SourceEngine nat_float ℕ
ones = record {
  is_alive = λ gone a. not (a == gone);
  create_filters = λ channels w. w;
  acquire_gain = λ w. (w, 1, false);
  run_generator = λ channels a p. (p.0, λ k. p.1 k + 1);
  filter_and_route = λ channels p. p;
}

abbrev source : List ℕ → Source nat_float ℕ
source generators = record {
  generators = generators;
  last_channels = 0;
  gain_fader = fade_driver nat_float 1 1;
  pause_state = playing;
  is_lingering = true;
  linger_countdown = 3;
  block = λ k. 0;
  world = 9;
}

adds_once : (add_generator ones 4 (source (7 ∷ 4 ∷ []))).generators ≡ 7 ∷ 4 ∷ []
unfolding add_generator
adds_once = refl

removes : (remove_generator ones 7 (source (7 ∷ 4 ∷ 5 ∷ []))).generators ≡ 5 ∷ 4 ∷ []
unfolding remove_generator
removes = refl

gone_is_not_there : has_generator ones 9 (source (9 ∷ [])) ≡ false
unfolding has_generator
gone_is_not_there = refl

source-IsReady : IsReady nat_float 0 (source []).gain_fader
unfolding fade_driver
source-IsReady = (omega arith, refl)

fill_blocks-signals_example :
    (s' : Source nat_float ℕ) × (fill_blocks ones 3 0 2 (source [])
      ≡ some (s', replicate 2 false ++ (true ∷ [])))
fill_blocks-signals_example =
    fill_blocks-signals ones 2 0 2 (source [])
      (record { no_generators = refl; lingers = refl; plays = refl }) source-IsReady refl
      (omega arith)
