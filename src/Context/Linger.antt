-- ===== src/Context/Linger.antt =====
-- doLinger of src/context.cpp and the end of generateAudio: when objects that linger die.
use mathlib.Core.Logic.Or
use mathlib.Core.List.{
  Mem, Mem-prop, not-mem-nil, mem-cons, mem-cons_self, mem-cons_of_mem, mem-append, mem-append_left,
  mem-append_right,
}
use mathlib.Core.List.Perm
use synthizer.Base.{
  ℕ, ◌<◌, ◌≤◌, ◌≡◌, ◌≢◌, refl, ap, ◌∙◌, sym, subst, Bool, true, false, not, ◌||◌, some, List, [],
  ◌∷◌, ◌==◌, if◌then◌else◌, arith, inl, inr, Bool-cases, mem-select, mem_of_select,
  passes_of_select,
}
use synthizer.Float.{Float}
use synthizer.Memory.{Store, Exposable, put, lock, die_now}
use synthizer.PriorityQueue.{IsHeap, HeapAlgorithms, pop_until_priority, filter_all_items}
use synthizer.PriorityQueue.Order.{HandsOver, pop_until_priority-HandsOver}
use synthizer.PriorityQueue.Filtering.{filter_all_items-IsHeap}
use synthizer.Context.{Context, kill, kill_all, expire_lingering, Engine}

-- Neither reference that keeps an object alive by itself is left.
abbrev pub IsReleased : Exposable → Type 0
IsReleased x = (x.internal_reference ≡ false) × (x.linger_reference ≡ false)

IsReleased-prop : (x : Exposable) → IsProp (IsReleased x)
IsReleased-prop x = hlevel

not_gone : (b : Bool) → not (not b) ≡ true → b ≡ true
not_gone true e = refl
not_gone false e = cc

le-lt : (a b : ℕ) → a ≤ b → b < a → ⊥
le-lt a b h k = omega arith

lock-IsReleased : (x : Exposable) → lock x ≡ false → IsReleased x
lock-IsReleased x h = parts x.internal_reference x.linger_reference x.held h
  where
    parts : (a b c : Bool) → (a || b || c) ≡ false → (a ≡ false) × (b ≡ false)
    parts true b c e = cc
    parts false true c e = cc
    parts false false c e = (refl, refl)

abbrev pub killed_in : ℕ → Store → Store
killed_in a s = if lock (s a) then put a (die_now (s a)) s else s

pub killed_in-self : (a : ℕ) (s : Store) → IsReleased (killed_in a s a)
killed_in-self a s = elim (Bool-cases (lock (s a))) [
  | inl e ↦ let same : (a == a) ≡ true = ground arith in rw e (rw same (refl, refl))
  | inr e ↦ rw e (lock-IsReleased (s a) e)
]

killed_in-other : (a b : ℕ) (s : Store) → b ≢ a → killed_in a s b ≡ s b
killed_in-other a b s h = elim (Bool-cases (lock (s a))) [
  | inl e ↦ let other : (b == a) ≡ false = ground arith in rw e (rw other refl)
  | inr e ↦ rw e refl
]

killed_in-stays : (a b : ℕ) (s : Store) → IsReleased (s b) → IsReleased (killed_in a s b)
killed_in-stays a b s h = elim (Bool-cases (b == a)) [
  | inl e ↦
      let same : b ≡ a = ground arith in
      subst (λ c. IsReleased (killed_in a s c)) (sym same) (killed_in-self a s)
  | inr e ↦
      let other : b ≢ a = ground arith in subst IsReleased (sym (killed_in-other a b s other)) h
]

module _ {fl : Float} {World : Type 0} where
  pub kill-store :
      (a : ℕ) (ctx : Context fl World) → (kill a ctx).shared.store ≡ killed_in a ctx.shared.store
  unfolding kill
  kill-store a ctx = elim (Bool-cases (lock (ctx.shared.store a))) [
    | inl e ↦ elim (Bool-cases (lock (die_now (ctx.shared.store a)))) [
      | inl f ↦ rw e (rw f refl)
      | inr f ↦ rw e (rw f refl)
    ]
    | inr e ↦ rw e refl
  ]

  pub kill-queue :
      (a : ℕ) (ctx : Context fl World) → (kill a ctx).lingering_objects ≡ ctx.lingering_objects
  unfolding kill
  kill-queue a ctx = elim (Bool-cases (lock (ctx.shared.store a))) [
    | inl e ↦ elim (Bool-cases (lock (die_now (ctx.shared.store a)))) [
      | inl f ↦ rw e (rw f refl)
      | inr f ↦ rw e (rw f refl)
    ]
    | inr e ↦ rw e refl
  ]

  pub kill-time : (a : ℕ) (ctx : Context fl World) → (kill a ctx).block_time ≡ ctx.block_time
  unfolding kill
  kill-time a ctx = elim (Bool-cases (lock (ctx.shared.store a))) [
    | inl e ↦ elim (Bool-cases (lock (die_now (ctx.shared.store a)))) [
      | inl f ↦ rw e (rw f refl)
      | inr f ↦ rw e (rw f refl)
    ]
    | inr e ↦ rw e refl
  ]

  pub kill-driver : (a : ℕ) (ctx : Context fl World) → (kill a ctx).gain_driver ≡ ctx.gain_driver
  unfolding kill
  kill-driver a ctx = elim (Bool-cases (lock (ctx.shared.store a))) [
    | inl e ↦ elim (Bool-cases (lock (die_now (ctx.shared.store a)))) [
      | inl f ↦ rw e (rw f refl)
      | inr f ↦ rw e (rw f refl)
    ]
    | inr e ↦ rw e refl
  ]

  kill_all-driver :
      (due : List (ℕ × ℕ)) (ctx : Context fl World)
      → (kill_all due ctx).gain_driver ≡ ctx.gain_driver
  unfolding kill_all
  kill_all-driver [] ctx = refl
  kill_all-driver (x ∷ xs) ctx = kill_all-driver xs (kill x.1 ctx) ∙ kill-driver x.1 ctx

  kill_all-time :
      (due : List (ℕ × ℕ)) (ctx : Context fl World) → (kill_all due ctx).block_time ≡ ctx.block_time
  unfolding kill_all
  kill_all-time [] ctx = refl
  kill_all-time (x ∷ xs) ctx = kill_all-time xs (kill x.1 ctx) ∙ kill-time x.1 ctx

  kill_all-stays :
      (due : List (ℕ × ℕ)) (b : ℕ) (ctx : Context fl World)
      → IsReleased (ctx.shared.store b)
      → IsReleased ((kill_all due ctx).shared.store b)
  unfolding kill_all
  kill_all-stays [] b ctx h = h
  kill_all-stays (x ∷ xs) b ctx h = kill_all-stays xs b (kill x.1 ctx) (
      subst (λ (s : Store). IsReleased (s b)) (sym (kill-store x.1 ctx))
        (killed_in-stays x.1 b ctx.shared.store h))

  kill_all-releases :
      (due : List (ℕ × ℕ)) (x : ℕ × ℕ) (ctx : Context fl World)
      → Mem x due
      → IsReleased ((kill_all due ctx).shared.store x.1)
  unfolding kill_all
  kill_all-releases [] x ctx m = absurd (not-mem-nil m)
  kill_all-releases (y ∷ ys) x ctx m =
      Or.elim (IsReleased-prop ((kill_all (y ∷ ys) ctx).shared.store x.1)) (mem-cons.0 m)
        (λ e. kill_all-stays ys x.1 (kill y.1 ctx) (
          subst (λ (s : Store). IsReleased (s x.1)) (sym (kill-store y.1 ctx))
            (subst (λ (z : ℕ × ℕ). IsReleased (killed_in z.1 ctx.shared.store x.1)) e
              (killed_in-self x.1 ctx.shared.store))))
        (λ n. kill_all-releases ys x (kill y.1 ctx) n)

  kill_all-other :
      (due : List (ℕ × ℕ)) (b : ℕ) (ctx : Context fl World)
      → ((x : ℕ × ℕ) → Mem x due → x.1 ≢ b)
      → (kill_all due ctx).shared.store b ≡ ctx.shared.store b
  unfolding kill_all
  kill_all-other [] b ctx h = refl
  kill_all-other (x ∷ xs) b ctx h =
      kill_all-other xs b (kill x.1 ctx) (λ y m. h y (mem-cons_of_mem x m))
      ∙ ap (λ (s : Store). s b) (kill-store x.1 ctx)
      ∙ killed_in-other x.1 b ctx.shared.store (λ e. h x mem-cons_self (sym e))

  -- What the end of a block does to the objects that linger: `ctx` before it, `ctx'` after it.
  pub record Expired (ctx ctx' : Context fl World) : Type 0 where
    pub time : ctx'.block_time ≡ ctx.block_time
    pub driver : ctx'.gain_driver ≡ ctx.gain_driver
    pub heap : IsHeap ctx'.lingering_objects
    pub released :
        (x : ℕ × ℕ)
        → Mem x ctx.lingering_objects
        → x.0 ≤ ctx.block_time
        → IsReleased (ctx'.shared.store x.1)
    pub spared :
        (b : ℕ)
        → ((x : ℕ × ℕ) → Mem x ctx.lingering_objects → x.0 ≤ ctx.block_time → x.1 ≢ b)
        → ctx'.shared.store b ≡ ctx.shared.store b
    pub kept :
        (x : ℕ × ℕ)
        → Mem x ctx.lingering_objects
        → ctx.block_time < x.0
        → lock (ctx'.shared.store x.1) ≡ true
        → Mem x ctx'.lingering_objects
    pub queued :
        (x : ℕ × ℕ)
        → Mem x ctx'.lingering_objects
        → Mem x ctx.lingering_objects × (ctx.block_time < x.0) × lock (ctx'.shared.store x.1) ≡ true

module _ {fl : Float} {World : Type 0} (heaps : HeapAlgorithms ℕ) (engine : Engine fl World) where
  expire_lingering-eq :
      (ctx : Context fl World) (left due q : List (ℕ × ℕ))
      → pop_until_priority heaps ctx.block_time ctx.lingering_objects ≡ some (left, due)
      → filter_all_items heaps
          (λ (x : ℕ × ℕ). not (lock ((kill_all due ctx).shared.store x.1)))
          left
        ≡ some q
      → expire_lingering heaps engine ctx
        ≡ some (record (kill_all due ctx) { lingering_objects = q })
  unfolding expire_lingering
  expire_lingering-eq ctx left due q e f = rw (e, expire_lingering) (rw f refl)

  -- Where the lingering objects are a heap, the end of a block drops both references to every
  -- object whose block has come and touches no other object. An entry is then in the queue exactly
  -- if it was in it, is of a later block, and its object is still alive; the queue is a heap.
  pub expire_lingering-Expired :
      (ctx : Context fl World)
      → IsHeap ctx.lingering_objects
      → (ctx' : Context fl World) × (expire_lingering heaps engine ctx ≡ some ctx')
        × Expired ctx ctx'
  unfolding HandsOver
  expire_lingering-Expired ctx heap =
      let now = ctx.block_time in
      let (left, due, run, left_heap, all, sorted, within, above) =
        pop_until_priority-HandsOver heaps now ctx.lingering_objects heap in
      let killed = kill_all due ctx in
      let gone = λ (x : ℕ × ℕ). not (lock (killed.shared.store x.1)) in
      let (q, f, q_heap, same) = filter_all_items-IsHeap gone heaps left left_heap in
      (
        record killed { lingering_objects = q },
        expire_lingering-eq ctx left due q run f,
        record {
          time = kill_all-time due ctx;
          driver = kill_all-driver due ctx;
          heap = q_heap;
          released = λ x m h.
              Or.elim (IsReleased-prop (killed.shared.store x.1))
                (mem-append.0 (Perm.subset (Perm.symm all) x m))
                (λ n. kill_all-releases due x ctx n) (λ n. absurd (le-lt x.0 now h (above x n)));
          spared = λ b h.
              kill_all-other due b ctx
                (λ x m. h x (Perm.subset all x (mem-append_left left m)) (within x m));
          kept = λ x m h alive.
              Or.elim Mem-prop (mem-append.0 (Perm.subset (Perm.symm all) x m))
                (λ n. absurd (le-lt x.0 now (within x n) h))
                (λ n.
                  Perm.subset (Perm.symm same) x
                    (mem-select (λ y. not (gone y)) x left n (ap (λ b. not (not b)) alive)));
          queued = λ x m.
              let n = mem_of_select (λ y. not (gone y)) x left (Perm.subset same x m) in
              (
                Perm.subset all x (mem-append_right due n),
                above x n,
                not_gone (lock (killed.shared.store x.1))
                    (passes_of_select (λ y. not (gone y)) x left (Perm.subset same x m)),
              );
        },
      )
