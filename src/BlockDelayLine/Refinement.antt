-- ===== src/BlockDelayLine/Refinement.antt =====
-- runLoopPrivSplit of include/synthizer/block_delay_line.hpp: a block on a line is a block on the
-- history of its channels.
use synthizer.Base.{
  ℕ, suc, ◌+◌, ◌*◌, ◌%◌, ◌^◌, ◌<◌, ◌≤◌, ◌≡◌, refl, ap, sym, subst, ◌∙◌, Option, some, ltb, arith,
  inl, inr, Bool-cases, dec_lt,
}
use native.Mathlib.Nat.{mod-eq_of_lt, add-mod_right}
use synthizer.Fader.{block_size}
use synthizer.BlockDelayLine.{
  BlockDelayLine, Program, size, modulus_index_producer, identity_index_producer, index_producer,
  run_both, run_loop_split,
}
use synthizer.BlockDelayLine.Index.{slot, slot-around, modulus-slot, identity-slot}
use synthizer.BlockDelayLine.History.{
  History, IsWithin, Agrees, Finds, Simulates, history_loop, run_loop-Simulates,
}

-- A line between two blocks: its frame starts one of its blocks.
pub record IsAligned (Real : Type 0) (size_in_blocks : ℕ) (line : BlockDelayLine Real)
    : Type 0 where
  pub block : ℕ
  pub block_below : block < size_in_blocks
  pub starts : line.current_frame ≡ block_size * block

around : (len : ℕ) → 0 < len → len % len ≡ 0
around len h =
    let from_zero : len ≡ 0 + len = omega arith in
    ap (λ n. n % len) from_zero ∙ add-mod_right 0 len ∙ mod-eq_of_lt h

-- The frame after a block starts a block again.
next_start :
    (size_in_blocks block : ℕ)
    → block < size_in_blocks
    → (b : ℕ) × (b < size_in_blocks)
      × ((block_size * block + block_size) % (block_size * size_in_blocks) ≡ block_size * b)
next_start size_in_blocks block h = elim (dec_lt (suc block) size_in_blocks) [
  | yes below ↦ (suc block, below, mod-eq_of_lt (omega (arith, below)) ∙ omega arith)
  | no above ↦
      let whole : block_size * block + block_size ≡ block_size * size_in_blocks =
        omega (arith, h, above) in
      (
        0,
        omega (arith, h),
        ap (λ n. n % (block_size * size_in_blocks)) whole
            ∙ around (block_size * size_in_blocks) (omega (arith, h)),
      )
]

module _ {Real : Type 0} where
  Agrees-around :
      (lanes len frame : ℕ) (samples : ℕ → Real) (h : History Real)
      → 0 < len
      → frame ≤ len
      → Agrees lanes len frame samples h
      → Agrees lanes len (frame % len) samples h
  unfolding Agrees
  Agrees-around lanes len frame samples h pos le a c d hc hd = elim (dec_lt frame len) [
    | yes below ↦
        subst (λ n. samples (slot len n d * lanes + c) ≡ h c d) (sym (mod-eq_of_lt below))
          (a c d hc hd)
    | no above ↦
        let last : len ≡ frame = omega (arith, le, above) in
        let zero_frame : frame % len ≡ 0 = ap (λ n. n % len) (sym last) ∙ around len pos in
        let at_end : samples (slot len len d * lanes + c) ≡ h c d =
          subst (λ n. samples (slot len n d * lanes + c) ≡ h c d) (sym last) (a c d hc hd) in
        ap (λ n. samples (slot len n d * lanes + c)) zero_frame
        ∙ ap (λ n. samples (n * lanes + c)) (sym (slot-around len d hd))
        ∙ at_end
  ]

module _ {Real : Type 0} (lanes size_in_blocks : ℕ) where
  -- A line holds a history.
  abbrev pub Holds : BlockDelayLine Real → History Real → Type 0
  Holds line h =
      IsAligned Real size_in_blocks line
      × Agrees lanes (size lanes size_in_blocks) line.current_frame line.samples h

  module _ {State : Type 0} where
    -- A block on a history: `first` samples with one closure and `second` with another.
    abbrev pub history_split :
        ℕ
        → (ℕ → State → Program Real State)
        → ℕ
        → (ℕ → State → Program Real State)
        → State
        → History Real
        → State × History Real
    history_split first first_c second second_c s h =
        let (s', h') = history_loop (size lanes size_in_blocks) first_c first 0 s h in
        history_loop (size lanes size_in_blocks) second_c second first s' h'

module _ (lanes size_in_blocks max_delay : ℕ) (h_max : max_delay < size lanes size_in_blocks)
    (small : size lanes size_in_blocks < 2 ^ 31) where
  modulus-Finds :
      Finds (size lanes size_in_blocks) max_delay 0 (modulus_index_producer lanes size_in_blocks)
  modulus-Finds frame d le lt hd =
      modulus-slot lanes size_in_blocks d frame (omega (arith, hd, h_max)) lt small

  identity-Finds :
      (from : ℕ)
      → max_delay ≤ from
      → Finds
          (size lanes size_in_blocks)
          max_delay
          from
          (identity_index_producer lanes size_in_blocks)
  identity-Finds from h frame d le lt hd =
      identity-slot lanes size_in_blocks d frame (omega (arith, hd, h_max))
        (omega (arith, hd, h, le)) lt small

  chosen-Finds :
      (from : ℕ)
      → Finds
          (size lanes size_in_blocks)
          max_delay
          from
          (index_producer lanes size_in_blocks max_delay from)
  unfolding index_producer
  chosen-Finds from = elim (Bool-cases (ltb from max_delay)) [
    | inl wraps ↦ rw wraps (λ frame d le lt hd. modulus-Finds frame d (omega arith) lt hd)
    | inr stays ↦ rw stays (identity-Finds from (ground arith))
  ]

  module _ {Real State : Type 0} where
    split-Agrees :
        (producer : ℕ → ℕ → Option ℕ) (first second : ℕ)
        (first_c second_c : ℕ → State → Program Real State) (from : ℕ) (s : State)
        (samples : ℕ → Real) (h : History Real)
        → Finds (size lanes size_in_blocks) max_delay from producer
        → from + (first + second) ≤ size lanes size_in_blocks
        → ((i : ℕ) (s : State) → IsWithin lanes max_delay (first_c i s))
        → ((i : ℕ) (s : State) → IsWithin lanes max_delay (second_c i s))
        → Agrees lanes (size lanes size_in_blocks) from samples h
        → Simulates lanes
            (size lanes size_in_blocks)
            (from + (first + second))
            (run_both lanes size_in_blocks producer first first_c second second_c from s samples)
            (history_split lanes size_in_blocks first first_c second second_c s h)
    unfolding run_both
    split-Agrees producer first second first_c second_c from s samples h finds le w₁ w₂ a =
        let len : ℕ = size lanes size_in_blocks in
        let (s₁, h₁) = history_loop len first_c first 0 s h in
        let (samples₁, ran₁, agrees₁) =
          run_loop-Simulates lanes size_in_blocks max_delay from producer finds h_max first_c first
            0 from s samples h (omega arith) (omega (arith, le)) w₁ a in
        let (samples₂, ran₂, agrees₂) =
          run_loop-Simulates lanes size_in_blocks max_delay from producer finds h_max second_c
            second first (from + first) s₁ samples₁ h₁ (omega arith) (omega (arith, le)) w₂
            agrees₁ in
        (
          samples₂,
          rw (run_both, ran₁) ran₂,
          subst (λ k. Agrees lanes len k samples₂ (history_loop len second_c second first s₁ h₁).1)
              (omega arith) agrees₂,
        )

    -- A block on a line that is aligned and holds a history never fails, whichever of the two index
    -- producers the frame asks for: where the line is shorter than 2^31 frames, the closures make
    -- up a block, read at most `max_delay` back, which is less than the line's length, and use
    -- channels that the line has, their state and the history that the line holds afterwards are
    -- those of the same block on the history itself, and the line is aligned again.
    pub run_loop_split-refines :
        (first second : ℕ) (first_c second_c : ℕ → State → Program Real State) (s : State)
        (line : BlockDelayLine Real) (h : History Real)
        → first + second ≡ block_size
        → ((i : ℕ) (s : State) → IsWithin lanes max_delay (first_c i s))
        → ((i : ℕ) (s : State) → IsWithin lanes max_delay (second_c i s))
        → Holds lanes size_in_blocks line h
        → (line' : BlockDelayLine Real) × (run_loop_split lanes size_in_blocks max_delay first
              first_c second second_c s line
            ≡ some
                ((history_split lanes size_in_blocks first first_c second second_c s h).0, line'))
          × Holds lanes size_in_blocks line'
              (history_split lanes size_in_blocks first first_c second second_c s h).1
    unfolding run_loop_split
    run_loop_split-refines first second first_c second_c s line h whole w₁ w₂ (aligned, a) =
        let len : ℕ = size lanes size_in_blocks in
        let frame : ℕ = line.current_frame in
        let (samples', ran, agrees) =
          split-Agrees (index_producer lanes size_in_blocks max_delay frame) first second first_c
            second_c frame s line.samples h (chosen-Finds frame) (omega (arith, whole)) w₁ w₂ a in
        let agrees' =
          Agrees-around lanes len (frame + block_size) samples'
            (history_split lanes size_in_blocks first first_c second second_c s h).1
            (omega (arith, aligned.block_below)) (omega arith)
            (subst
              (λ n.
                Agrees lanes len (frame + n) samples'
                  (history_split lanes size_in_blocks first first_c second second_c s h).1)
              whole agrees) in
        let (block, below, starts) = next_start size_in_blocks aligned.block aligned.block_below in
        (
          record { samples = samples'; current_frame = (frame + block_size) % len },
          rw (whole, run_loop_split, ran) refl,
          (
            record {
              block = block;
              block_below = below;
              starts = ap (λ n. (n + block_size) % len) aligned.starts ∙ starts;
            },
            agrees',
          ),
        )
