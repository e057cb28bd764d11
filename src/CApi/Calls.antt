-- ===== src/CApi/Calls.antt =====
-- src/c_api.cpp: the count of calls in progress, and what shutting the library down leaves of it.
use synthizer.Base.{
  ℕ, zero, suc, ◌≡◌, ◌≤◌, refl, Bool, true, if◌then◌else◌, Option, none, some, List, [], ◌∷◌, arith,
}
use synthizer.CApi.{
  ℤ, pos, negsuc, Result, ok, throws, begin_initialized_call, end_initialized_call,
  shutdown_library, shutdown_loop, uninitialized,
}

-- What the threads of a program do: calls that begin, of which each ends.
pub data Event : Type 0 where
  begins ends : Event

-- The calls in progress after some events, where an end without a beginning is impossible.
abbrev pub in_progress : ℕ → List Event → Option ℕ
in_progress n [] = some n
in_progress n (begins ∷ es) = in_progress (suc n) es
in_progress zero (ends ∷ es) = none
in_progress (suc n) (ends ∷ es) = in_progress n es

-- The count after the same events.
abbrev pub count_after : ℤ → List Event → Result ℤ
count_after z [] = ok z
count_after z (begins ∷ es) = elim (begin_initialized_call true z) [
  | throws e ↦ throws e
  | ok z' ↦ count_after z' es
]
count_after z (ends ∷ es) = count_after (end_initialized_call true z) es

-- From a library with `n` calls in progress on, whatever calls begin and end on its threads, no
-- call is refused, and the count is the number of calls in progress.
pub count_after-in_progress :
    (n m : ℕ) (es : List Event) → in_progress n es ≡ some m → count_after (pos n) es ≡ ok (pos m)
unfolding begin_initialized_call end_initialized_call
count_after-in_progress n m [] e = cc (e)
count_after-in_progress n m (begins ∷ es) e = count_after-in_progress (suc n) m es e
count_after-in_progress zero m (ends ∷ es) e = cc
count_after-in_progress (suc n) m (ends ∷ es) e = count_after-in_progress n m es e

-- Shutting down waits for no call: the loop ends by itself in at most two rounds, whatever the
-- count, so also with calls in progress and where the library was never initialized. The count that
-- it leaves is 0, where -2 is meant, and a call that wants an initialized library is then let in.
pub shutdown_library-lets_in :
    (fuel : ℕ) (has_output_device : Bool) (count : ℤ)
    → 2 ≤ fuel
    → (shutdown_library fuel has_output_device count
        ≡ some (pos 0, if has_output_device then none else some uninitialized))
      × (begin_initialized_call true (pos 0) ≡ ok (pos 1))
unfolding shutdown_library begin_initialized_call shutdown_loop
shutdown_library-lets_in zero d count h = absurd (omega (arith, h))
shutdown_library-lets_in (suc zero) d count h = absurd (omega (arith, h))
shutdown_library-lets_in (suc (suc f)) d (pos zero) h = (refl, refl)
shutdown_library-lets_in (suc (suc f)) d (pos (suc n)) h = (ground arith, refl)
shutdown_library-lets_in (suc (suc f)) d (negsuc n) h = (refl, refl)
