-- ===== src/Context/Schedule.antt =====
-- doLinger of src/context.cpp: what the command in the audio thread schedules.
use mathlib.Core.List.{Perm, perm_append_singleton}
use mathlib.Core.List.Perm
use mathlib.Core.Option
use synthizer.Base.{ℕ, ◌≡◌, true, false, Option, none, List, [], ◌∷◌, ◌++◌}
use synthizer.Float.{Float}
use synthizer.PriorityQueue.{IsHeap, HeapAlgorithms, push}
use synthizer.Context.{Context, Engine, linger_timeout, is_zero, linger_block}
use synthizer.Context.Linger.{IsReleased}

pub push-perm :
    (heaps : HeapAlgorithms ℕ) (p a : ℕ) (q : List (ℕ × ℕ)) → Perm (push heaps p a q) ((p, a) ∷ q)
unfolding push
push-perm heaps p a q =
    Perm.trans (heaps.push_heap-perm (q ++ ((p, a) ∷ []))) (perm_append_singleton (p, a) q)

pub push-IsHeap :
    (heaps : HeapAlgorithms ℕ) (p a : ℕ) (q : List (ℕ × ℕ)) → IsHeap q → IsHeap (push heaps p a q)
unfolding push
push-IsHeap heaps p a q h = heaps.push_heap-IsHeap q (p, a) h

module _ {fl : Float} {World : Type 0} (heaps : HeapAlgorithms ℕ) (engine : Engine fl World) where
  -- How the object at `a`, which suggests a timeout or none, lingers from `ctx` on, to `ctx'`.
  pub data Lingers (a : ℕ) (configured : fl.Real) (suggested : Option fl.Real)
      (ctx ctx' : Context fl World) : Type 0 where
    by_itself :
        suggested ≡ none
        → fl.fle configured (fl.of_unsigned 0) ≡ true
        → ctx'.lingering_objects ≡ ctx.lingering_objects
        → (ctx'.shared.store a).linger_reference ≡ true
        → Lingers a configured suggested ctx ctx'
    not_at_all :
        is_zero fl (linger_timeout fl configured suggested) ≡ true
        → ctx'.lingering_objects ≡ ctx.lingering_objects
        → IsReleased (ctx'.shared.store a)
        → Lingers a configured suggested ctx ctx'
    until_block :
        is_zero fl (linger_timeout fl configured suggested) ≡ false
        → (fl.flt (fl.of_unsigned 0) configured ≡ true
            → fl.flt configured (linger_timeout fl configured suggested) ≡ false)
        → Perm ctx'.lingering_objects (
            (linger_block heaps engine ctx.block_time (linger_timeout fl configured suggested), a)
            ∷ ctx.lingering_objects)
        → IsHeap ctx'.lingering_objects
        → (ctx'.shared.store a).linger_reference ≡ true
        → Lingers a configured suggested ctx ctx'
