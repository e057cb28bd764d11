-- ===== src/BlockDelayLine/History.antt =====
-- include/synthizer/block_delay_line.hpp: what the loops do to the history of each channel.
use synthizer.Base.{
  ℕ, zero, suc, ◌+◌, ◌-◌, ◌*◌, ◌<◌, ◌≤◌, ◌≡◌, refl, ap, subst, ◌∙◌, false, Option, some, lt→ltb,
  ◌&&◌, ◌==◌, if◌then◌else◌, arith, inl, inr, Bool-cases,
}
use synthizer.BlockDelayLine.{Program, done, read, write, size, store, run_program, run_loop}
use synthizer.BlockDelayLine.Index.{
  slot, slot-current, slot_self, slot-next, slot-oldest, place_injective,
}

-- What was written to a channel a number of frames ago.
abbrev pub History : Type 0 → Type 0
History Real = ℕ → ℕ → Real

-- The producer finds the frames of a block that starts at `from`.
abbrev pub Finds : ℕ → ℕ → ℕ → (ℕ → ℕ → Option ℕ) → Type 0
Finds len max_delay from producer =
    (frame d : ℕ)
    → from ≤ frame
    → frame < len
    → d ≤ max_delay
    → producer d frame ≡ some (slot len frame d)

other_place :
    (lanes len frame c' c d : ℕ)
    → frame < len
    → suc d < len
    → c' < lanes
    → c < lanes
    → (slot len frame (suc d) * lanes + c' == frame * lanes + c) ≡ false
other_place lanes len frame c' c d f hd hc' hc =
    let older : ℕ = slot len frame (suc d) in
    elim (Bool-cases (older * lanes + c' == frame * lanes + c)) [
      | inr miss ↦ miss
      | inl hit ↦
          let same : older * lanes + c' ≡ frame * lanes + c = ground arith in
          absurd (
            slot_self len frame (suc d) f hd (omega arith)
              (place_injective lanes older frame c' c hc' hc same).0)
    ]

module _ {Real : Type 0} where
  -- A program reads within the largest delay, and its channels are there.
  unfoldable pub IsWithin : {State : Type 0} → ℕ → ℕ → Program Real State → Type 0
  IsWithin lanes max_delay (done s) = Unit
  IsWithin lanes max_delay (read c d next) =
      (c < lanes) × (d ≤ max_delay) × ((x : Real) → IsWithin lanes max_delay (next x))
  IsWithin lanes max_delay (write c v next) = (c < lanes) × IsWithin lanes max_delay next

  abbrev pub written : ℕ → Real → History Real → History Real
  written c v h c' d = if c' == c && d == 0 then v else h c' d

  -- A frame on, what is as old as the line is long comes round again.
  abbrev pub aged : ℕ → History Real → History Real
  aged len h c zero = h c (len - 1)
  aged len h c (suc d) = h c d

  module _ {State : Type 0} where
    pub run_history : Program Real State → History Real → State × History Real
    run_history (done s) h = (s, h)
    run_history (read c d next) h = run_history (next (h c d)) h
    run_history (write c v next) h = run_history next (written c v h)

    pub history_loop :
        ℕ → (ℕ → State → Program Real State) → ℕ → ℕ → State → History Real → State × History Real
    history_loop len closure zero index s h = (s, h)
    history_loop len closure (suc n) index s h =
        let (s', h') = run_history (closure index s) h in
        history_loop len closure n (suc index) s' (aged len h')

  -- The samples hold a history where the current frame is `frame`.
  unfoldable pub Agrees : ℕ → ℕ → ℕ → (ℕ → Real) → History Real → Type 0
  Agrees lanes len frame samples h =
      (c d : ℕ) → c < lanes → d < len → samples (slot len frame d * lanes + c) ≡ h c d

  -- A run gives what the history gives.
  abbrev pub Simulates :
      {State : Type 0} → ℕ → ℕ → ℕ → Option (State × (ℕ → Real)) → State × History Real → Type 0
  Simulates lanes len frame result x =
      (samples : ℕ → Real) × (result ≡ some (x.0, samples)) × Agrees lanes len frame samples x.1

  Agrees-store :
      (lanes len frame c : ℕ) (v : Real) (samples : ℕ → Real) (h : History Real)
      → frame < len
      → c < lanes
      → Agrees lanes len frame samples h
      → Agrees lanes len frame (store (frame * lanes + c) v samples) (written c v h)
  unfolding Agrees
  Agrees-store lanes len frame c v samples h f hc a c' zero hc' hd =
      let old : samples (frame * lanes + c') ≡ h c' 0 =
        subst (λ n. samples (n * lanes + c') ≡ h c' 0) (slot-current len frame f) (a c' 0 hc' hd) in
      rw (slot-current len frame f) (ground (arith, old))
  Agrees-store lanes len frame c v samples h f hc a c' (suc d) hc' hd =
      let old = a c' (suc d) hc' hd in
      rw (other_place lanes len frame c' c d f hd hc' hc) (ground (arith, old))

  Agrees-aged :
      (lanes len frame : ℕ) (samples : ℕ → Real) (h : History Real)
      → 0 < len
      → Agrees lanes len frame samples h
      → Agrees lanes len (suc frame) samples (aged len h)
  unfolding Agrees
  Agrees-aged lanes len frame samples h pos a c zero hc hd =
      ap (λ n. samples (n * lanes + c)) (slot-oldest len frame pos)
      ∙ a c (len - 1) hc (omega (arith, pos))
  Agrees-aged lanes len frame samples h pos a c (suc d) hc hd =
      ap (λ n. samples (n * lanes + c)) (slot-next len frame d) ∙ a c d hc (omega (arith, hd))

module _ {Real State : Type 0} (lanes size_in_blocks max_delay from : ℕ)
    (producer : ℕ → ℕ → Option ℕ)
    (found : Finds (size lanes size_in_blocks) max_delay from producer)
    (h_max : max_delay < size lanes size_in_blocks) where
  run_program-Simulates :
      (frame : ℕ) (p : Program Real State) (samples : ℕ → Real) (h : History Real)
      → from ≤ frame
      → frame < size lanes size_in_blocks
      → IsWithin lanes max_delay p
      → Agrees lanes (size lanes size_in_blocks) frame samples h
      → Simulates lanes
          (size lanes size_in_blocks)
          frame
          (run_program lanes size_in_blocks producer frame p samples)
          (run_history p h)
  unfolding IsWithin run_program run_history Agrees
  run_program-Simulates frame (done s) samples h le lt w a = (samples, refl, a)
  run_program-Simulates frame (read c d next) samples h le lt (hc, hd, w) a =
      rw (lt→ltb c lanes hc) (
        rw (found frame d le lt hd) (
          rw (a c d hc (omega (arith, hd, h_max)))
            (run_program-Simulates frame (next (h c d)) samples h le lt (w (h c d)) a)))
  run_program-Simulates frame (write c v next) samples h le lt (hc, w) a = rw (lt→ltb c lanes hc) (
      run_program-Simulates frame next (store (frame * lanes + c) v samples) (written c v h) le lt w
        (Agrees-store lanes (size lanes size_in_blocks) frame c v samples h lt hc a))

  pub run_loop-Simulates :
      (closure : ℕ → State → Program Real State) (n index frame : ℕ) (s : State)
      (samples : ℕ → Real) (h : History Real)
      → from ≤ frame
      → frame + n ≤ size lanes size_in_blocks
      → ((i : ℕ) (s : State) → IsWithin lanes max_delay (closure i s))
      → Agrees lanes (size lanes size_in_blocks) frame samples h
      → Simulates lanes
          (size lanes size_in_blocks)
          (frame + n)
          (run_loop lanes size_in_blocks producer closure n index frame s samples)
          (history_loop (size lanes size_in_blocks) closure n index s h)
  unfolding run_loop history_loop
  run_loop-Simulates closure zero index frame s samples h le lt w a = (
    samples,
    refl,
    subst (λ k. Agrees lanes (size lanes size_in_blocks) k samples h) (omega arith) a,
  )
  run_loop-Simulates closure (suc n) index frame s samples h le lt w a =
      let len : ℕ = size lanes size_in_blocks in
      let (s', h') = run_history (closure index s) h in
      let (samples', ran, agrees) =
        run_program-Simulates frame (closure index s) samples h le (omega (arith, lt)) (w index s)
          a in
      let (after, looped, agrees') =
        run_loop-Simulates closure n (suc index) (suc frame) s' samples' (aged len h')
          (omega (arith, le)) (omega (arith, lt)) w
          (Agrees-aged lanes len frame samples' h' (omega (arith, lt)) agrees) in
      (
        after,
        rw (run_loop, ran) looped,
        subst
            (λ k.
              Agrees lanes len k after (history_loop len closure n (suc index) s' (aged len h')).1)
            (omega arith) agrees',
      )
