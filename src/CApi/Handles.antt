-- ===== src/CApi/Handles.antt =====
-- syz_handleIncRef and syz_handleDecRef of src/c_api.cpp, down to the queue of the context.
use synthizer.Base.{
  ℕ, zero, suc, ◌-◌, ◌<◌, ◌≡◌, ◌≢◌, refl, ap, ◌∙◌, true, false, ◌&&◌, some, List, [], ◌∷◌, ◌++◌,
  ◌==◌, if◌then◌else◌, arith,
}
use synthizer.Float.{Float}
use synthizer.Memory.{Exposable, Store, put, dec_ref}
use synthizer.PriorityQueue.{HeapAlgorithms}
use synthizer.Context.{
  Command, Context, Engine, start_linger, with_store, do_linger, enqueue_callback_command,
}
use synthizer.CApi.{
  ℤ, pos, Result, ok, throws, invalid_handle, Lingering, get_exposable_from_handle, after_dec_ref,
  handle_dec_ref,
}

dec_ref-last :
    (x : Exposable)
    → x.reference_count ≡ 1
    → dec_ref x ≡ some (record x { reference_count = 0; internal_reference = false })
dec_ref-last x e = ground arith

dec_ref-more :
    (x : Exposable)
    → 1 < x.reference_count
    → dec_ref x ≡ some (record x { reference_count = x.reference_count - 1 })
dec_ref-more x h = ground arith

module _ {fl : Float} {World : Type 0} (heaps : HeapAlgorithms ℕ) (engine : Engine fl World)
    (lingering : ℕ → Lingering fl) (handle : ℕ) (real : handle ≢ 0) where
  -- A running context with `queue` before it, and an object with `k` references.
  pub record Held (queue : List (Command fl World)) (k : ℕ) (ctx : Context fl World) : Type 0 where
    pub internal : (ctx.shared.store handle).internal_reference ≡ true
    pub references : (ctx.shared.store handle).reference_count ≡ k
    pub runs : ctx.running ≡ true
    pub plays : ctx.headless ≡ false
    pub waiting : ctx.command_queue ≡ queue

  -- The same call again and again, until one fails.
  abbrev pub drop_references : ℤ → ℕ → Context fl World → Result (Context fl World)
  drop_references count zero ctx = ok ctx
  drop_references count (suc k) ctx =
      elim (handle_dec_ref heaps engine lingering count handle ctx) [
        | throws e ↦ throws e
        | ok ctx' ↦ drop_references count k ctx'
      ]

  found :
      (k : ℕ) (s : Store)
      → (s handle).internal_reference ≡ true
      → (s handle).reference_count ≡ suc k
      → get_exposable_from_handle handle s ≡ ok (s handle)
  unfolding get_exposable_from_handle
  found k s e f = ground arith

  lost :
      (s : Store)
      → (s handle).internal_reference ≡ false
      → get_exposable_from_handle handle s ≡ throws invalid_handle
  unfolding get_exposable_from_handle
  lost s e = ground arith

  not_null : (handle == 0) ≡ false
  not_null = ground arith

  dec_ref-found :
      (n : ℕ) (ctx : Context fl World) (x' : Exposable)
      → get_exposable_from_handle handle ctx.shared.store ≡ ok (ctx.shared.store handle)
      → dec_ref (ctx.shared.store handle) ≡ some x'
      → handle_dec_ref heaps engine lingering (pos n) handle ctx
        ≡ after_dec_ref heaps engine lingering handle (some x') ctx
  unfolding handle_dec_ref
  dec_ref-found n ctx x' e f =
      rw not_null
        (rw (e, handle_dec_ref) (ap (λ o. after_dec_ref heaps engine lingering handle o ctx) f))

  dec_ref-lost :
      (n : ℕ) (ctx : Context fl World)
      → (ctx.shared.store handle).internal_reference ≡ false
      → handle_dec_ref heaps engine lingering (pos n) handle ctx ≡ throws invalid_handle
  unfolding handle_dec_ref
  dec_ref-lost n ctx e = rw not_null (rw (lost ctx.shared.store e, handle_dec_ref) refl)

  put_same : (x : Exposable) (s : Store) → put handle x s handle ≡ x
  put_same x s = let same : (handle == handle) ≡ true = ground arith in rw same refl

  after_more :
      (k : ℕ) (x : Exposable) (ctx : Context fl World)
      → x.reference_count ≡ suc k
      → after_dec_ref heaps engine lingering handle (some x) ctx
        ≡ ok (with_store (put handle x ctx.shared.store) ctx)
  unfolding after_dec_ref
  after_more k x ctx e =
      let more : (x.reference_count == 0) ≡ false = ground arith in
      ap
        (λ b.
          if b && (lingering handle).is_base_object
          then ok (
              do_linger heaps engine handle (lingering handle).wants_linger
                (lingering handle).config (with_store (put handle x ctx.shared.store) ctx))
          else ok (with_store (put handle x ctx.shared.store) ctx))
        more

  step_more :
      (queue : List (Command fl World)) (n k : ℕ) (ctx : Context fl World)
      → Held queue (suc (suc k)) ctx
      → (ctx' : Context fl World) × (handle_dec_ref heaps engine lingering (pos n) handle ctx
          ≡ ok ctx')
        × Held queue (suc k) ctx'
  step_more queue n k ctx h =
      let x = ctx.shared.store handle in
      let count : x.reference_count ≡ suc (suc k) = h.references in
      let x' : Exposable = record x { reference_count = x.reference_count - 1 } in
      let left : x'.reference_count ≡ suc k = omega arith in
      let now : put handle x' ctx.shared.store handle ≡ x' = put_same x' ctx.shared.store in
      (
        with_store (put handle x' ctx.shared.store) ctx,
        dec_ref-found n ctx x' (found (suc k) ctx.shared.store h.internal h.references)
              (dec_ref-more x (omega arith))
            ∙ after_more k x' ctx left,
        record {
          internal = ap (λ (y : Exposable). y.internal_reference) now ∙ h.internal;
          references = ap (λ (y : Exposable). y.reference_count) now ∙ left;
          runs = h.runs;
          plays = h.plays;
          waiting = h.waiting;
        },
      )

  -- The object is one that lingers.
  pub record WantsLinger : Type 0 where
    pub base : (lingering handle).is_base_object ≡ true
    pub wants : (lingering handle).wants_linger ≡ true
    pub configured : (lingering handle).config.linger ≡ true

  abbrev pub linger_command : Command fl World
  linger_command = start_linger handle (lingering handle).config.linger_timeout

  after_last :
      WantsLinger
      → (x : Exposable) (ctx : Context fl World) → x.reference_count ≡ 0
      → ctx.running ≡ true
      → ctx.headless ≡ false
      → after_dec_ref heaps engine lingering handle (some x) ctx
        ≡ ok (record (with_store (put handle x ctx.shared.store) ctx) {
          command_queue = ctx.command_queue ++ (linger_command ∷ []);
        })
  unfolding after_dec_ref do_linger enqueue_callback_command
  after_last w x ctx e runs plays =
      let none_left : (x.reference_count == 0) ≡ true = ground arith in
      rw none_left (rw w.base (rw w.wants (rw w.configured (simp (runs, plays)))))

  step_last :
      WantsLinger
      → (queue : List (Command fl World)) (n : ℕ) (ctx : Context fl World) → Held queue 1 ctx
      → (ctx' : Context fl World) × (handle_dec_ref heaps engine lingering (pos n) handle ctx
          ≡ ok ctx')
        × (ctx'.command_queue ≡ queue ++ (linger_command ∷ []))
        × ((ctx'.shared.store handle).internal_reference ≡ false)
  step_last w queue n ctx h =
      let x = ctx.shared.store handle in
      let x' : Exposable = record x { reference_count = 0; internal_reference = false } in
      let now : put handle x' ctx.shared.store handle ≡ x' = put_same x' ctx.shared.store in
      (
        record (with_store (put handle x' ctx.shared.store) ctx) {
          command_queue = ctx.command_queue ++ (linger_command ∷ []);
        },
        dec_ref-found n ctx x' (found 0 ctx.shared.store h.internal h.references)
              (dec_ref-last x h.references)
            ∙ after_last w x' ctx refl h.runs h.plays,
        ap (λ q. q ++ (linger_command ∷ [])) h.waiting,
        ap (λ (y : Exposable). y.internal_reference) now,
      )

  -- What the calls leave.
  abbrev pub Dropped : List (Command fl World) → ℕ → ℕ → Context fl World → Type 0
  Dropped queue n k ctx =
      (ctx' : Context fl World) × (drop_references (pos n) k ctx ≡ ok ctx')
      × (ctx'.command_queue ≡ queue ++ (linger_command ∷ []))
      × ((ctx'.shared.store handle).internal_reference ≡ false)
      × (handle_dec_ref heaps engine lingering (pos n) handle ctx' ≡ throws invalid_handle)

  -- In a library that is initialized, with a context that runs: an object that lingers and has
  -- `k + 1` references can be released `k + 1` times. Only then its internal reference goes, and of
  -- all these calls exactly one command to linger comes behind those queued before. A further call
  -- is refused as one on an invalid handle.
  pub drop_references-lingers_once :
      WantsLinger
      → (queue : List (Command fl World)) (n k : ℕ) (ctx : Context fl World)
      → Held queue (suc k) ctx
      → Dropped queue n (suc k) ctx
  drop_references-lingers_once w queue n zero ctx h =
      let (ctx', e, waits, gone) = step_last w queue n ctx h in
      (ctx', rw (e, drop_references) refl, waits, gone, dec_ref-lost n ctx' gone)
  drop_references-lingers_once w queue n (suc k) ctx h =
      let (ctx', e, kept) = step_more queue n k ctx h in
      let (last, f, waits, gone, refused) = drop_references-lingers_once w queue n k ctx' kept in
      (last, rw (e, drop_references) f, waits, gone, refused)
