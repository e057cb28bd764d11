-- ===== src/BlockDelayLine/Tests.antt =====
-- Runs of a block delay line over whole numbers.
use synthizer.Base.{ℕ, ◌+◌, ◌≡◌, refl, none, some, arith}
use synthizer.BlockDelayLine.{
  BlockDelayLine, Program, done, read, write, modulus_index_producer, identity_index_producer,
  run_program, run_loop_split,
}
use synthizer.BlockDelayLine.History.{IsWithin, Agrees}
use synthizer.BlockDelayLine.Refinement.{Holds, history_split, run_loop_split-refines}

-- An echo of five samples, which adds up what it reads.
abbrev echo : ℕ → ℕ → Program ℕ ℕ
echo i s = write 0 i (read 0 5 (λ x. done (s + x)))

abbrev silent : BlockDelayLine ℕ
silent = record { samples = λ i. 0; current_frame = 256 }

modulus_wraps : modulus_index_producer 1 2 5 3 ≡ some 510
unfolding modulus_index_producer
modulus_wraps = refl

identity_fails : identity_index_producer 1 2 5 3 ≡ none
unfolding identity_index_producer
identity_fails = refl

reads_back :
    run_program 1 2 (modulus_index_producer 1 2) 3 (read 0 5 (λ x. done x)) (λ i. i)
    ≡ some (510, λ i. i)
unfolding run_program modulus_index_producer
reads_back = refl

echo-IsWithin : (i s : ℕ) → IsWithin 1 5 (echo i s)
unfolding IsWithin
echo-IsWithin i s = (omega arith, (omega arith, omega arith, λ x. tt))

silent-Agrees : Agrees {Real = ℕ} 1 512 256 (λ i. 0) (λ c d. 0)
unfolding Agrees
silent-Agrees c d hc hd = refl

run_loop_split-refines_example :
    (line' : BlockDelayLine ℕ) × (run_loop_split 1 2 5 100 echo 156 echo 0 silent
      ≡ some ((history_split 1 2 100 echo 156 echo 0 (λ c d. 0)).0, line'))
    × Holds 1 2 line' (history_split 1 2 100 echo 156 echo 0 (λ c d. 0)).1
run_loop_split-refines_example =
    run_loop_split-refines 1 2 5 (omega arith) (omega arith) 100 156 echo echo 0 silent (λ c d. 0)
      refl echo-IsWithin echo-IsWithin
      (record { block = 1; block_below = omega arith; starts = refl }, silent-Agrees)
