-- ===== src/Context/Tests.antt =====
-- Runs of a context whose numbers are whole, with an object at the address 1 that lingers.
use synthizer.Base.{ℕ, ◌≡◌, refl, some, [], ◌∷◌, ◌==◌, arith, if◌then◌else◌}
use synthizer.Samples.{nat_float}
use synthizer.Fader.{add32, fade_driver}
use synthizer.Fader.Assertions.{IsReady}
use synthizer.Pausable.{is_paused}
use synthizer.PriorityQueue.{IsHeap, push}
use synthizer.PriorityQueue.Sorted.{sorted_heaps, sorted-IsHeap}
use synthizer.Context.{Context, begin_linger, run_commands, execute_command, expire_lingering}
use synthizer.Context.Samples.{engine, context}
use synthizer.Context.Block.{generate_audio}
use synthizer.Context.Linger.{Expired, expire_lingering-Expired}
use synthizer.Context.Invariant.{Keeps, ReleasesLess}
use synthizer.Context.Totality.{generate_audio-ends}

queue-IsHeap : IsHeap context.lingering_objects
queue-IsHeap = sorted-IsHeap context.lingering_objects

-- A second has 44100 samples in blocks of 256.
begin_linger_run :
    (begin_linger sorted_heaps engine 1 2 context).lingering_objects
    ≡ (9, 4) ∷ (10, 5) ∷ (12, 6) ∷ (354, 1) ∷ []
unfolding begin_linger push
begin_linger_run = refl

expire_lingering-Expired_example :
    (ctx' : Context nat_float ℕ) × (expire_lingering sorted_heaps engine context ≡ some ctx')
    × Expired context ctx'
expire_lingering-Expired_example = expire_lingering-Expired sorted_heaps engine context queue-IsHeap

abbrev weight : ℕ → ℕ
weight a = if a == 3 then 2 else 1

releases_less : ReleasesLess sorted_heaps engine weight
releases_less a s = ground arith

gain-IsReady : IsReady nat_float 10 context.gain_driver
unfolding fade_driver
gain-IsReady = (omega arith, refl)

generate_audio-ends_example :
    (ctx' : Context nat_float ℕ) × (out : ℕ → ℕ) × (generate_audio sorted_heaps engine 5 2 context
      ≡ some (ctx', some out))
    × Keeps
        (if is_paused (run_commands sorted_heaps engine context).pause_state
          then 10
          else add32 10 1)
        ctx'
    × ((i : ℕ)
        → (if is_paused (run_commands sorted_heaps engine context).pause_state then out i else 0)
          ≡ 0)
unfolding run_commands execute_command
generate_audio-ends_example =
    generate_audio-ends sorted_heaps engine weight releases_less 5 2 context refl queue-IsHeap
      gain-IsReady (omega arith) (omega arith)
