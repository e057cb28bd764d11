-- ===== src/BufferGenerator/Looping.antt =====
-- generateNoPitchBend of src/generators/buffer.cpp with looping: the buffer again and again.
use synthizer.Base.{
  ℕ, zero, suc, ◌+◌, ◌-◌, ◌*◌, ◌%◌, ◌<◌, ◌≤◌, ◌≡◌, refl, ap, ap₂, sym, subst, ◌∙◌, Bool, true,
  false, some, List, [], ◌++◌, min, ◌==◌, arith, append_assoc, dec_lt,
}
use synthizer.Float.{Float}
use synthizer.Buffer.{BufferReader, BufferData, max_channels}
use synthizer.Buffer.Slices.{IsValid}
use synthizer.Buffer.Frames.{Agrees}
use synthizer.Buffer.Floats.{
  read_float_frames, floats, floats-more, floats-none, read_float_frames-eq-slice,
}
use synthizer.BufferGenerator.{BufferGenerator, Played, after_read, play_loop}
use native.Mathlib.Nat.{mod-eq_of_lt, add-mod_right}

module _ (fl : Float) {Sample : Type 0} (silence : Sample) (chunk_size : ℕ)
    (of_sample : Sample → fl.Real) where
  -- A generator that is set to a buffer which is not empty.
  pub record IsReady (b : BufferData Sample) (g : BufferGenerator Sample) : Type 0 where
    pub same : g.reader.buffer ≡ b
    pub agrees : Agrees silence chunk_size g.reader
    pub valid : IsValid silence chunk_size b
    pub channels : 0 < g.reader.channels
    pub few_channels : g.reader.channels < max_channels
    pub longer : 0 < b.length

  -- The frames of the buffer from `pos` on, one by one, starting again at its end.
  abbrev pub cycle : BufferData Sample → ℕ → ℕ → List fl.Real
  cycle b pos zero = []
  cycle b pos (suc n) =
      floats fl silence chunk_size of_sample (pos % b.length) 1 b ++ cycle b (suc pos) n

  cycle-linear :
      (b : BufferData Sample) (pos n : ℕ)
      → pos + n ≤ b.length
      → cycle b pos n ≡ floats fl silence chunk_size of_sample pos n b
  cycle-linear b pos zero h = sym (floats-none fl silence chunk_size of_sample b pos)
  cycle-linear b pos (suc n) h =
      let here : pos % b.length ≡ pos = mod-eq_of_lt (omega arith) in
      let next : suc pos ≡ pos + 1 = omega arith in
      let size : 1 + n ≡ suc n = omega arith in
      ap₂ (λ p l. floats fl silence chunk_size of_sample p 1 b ++ l) here
        (cycle-linear b (suc pos) n (omega arith)
          ∙ ap (λ p. floats fl silence chunk_size of_sample p n b) next)
      ∙ sym (floats-more fl silence chunk_size of_sample b pos 1 n)
      ∙ ap (λ k. floats fl silence chunk_size of_sample pos k b) size

  cycle-split :
      (b : BufferData Sample) (pos m n k : ℕ)
      → k ≡ m + n
      → cycle b pos k ≡ cycle b pos m ++ cycle b (pos + m) n
  cycle-split b pos zero n k e = ap₂ (cycle b) (omega arith) (omega (arith, e))
  cycle-split b pos (suc m) n zero e = absurd (omega (arith, e))
  cycle-split b pos (suc m) n (suc k) e =
      let next : suc pos + m ≡ pos + suc m = omega arith in
      ap (λ l. floats fl silence chunk_size of_sample (pos % b.length) 1 b ++ l)
        (cycle-split b (suc pos) m n k (omega (arith, e))
          ∙ ap (λ p. cycle b (suc pos) m ++ cycle b p n) next)
      ∙ sym (
          append_assoc (floats fl silence chunk_size of_sample (pos % b.length) 1 b)
            (cycle b (suc pos) m) (cycle b (pos + suc m) n))

  cycle-period : (b : BufferData Sample) (pos n : ℕ) → cycle b (pos + b.length) n ≡ cycle b pos n
  cycle-period b pos zero = refl
  cycle-period b pos (suc n) =
      ap₂ (λ p l. floats fl silence chunk_size of_sample p 1 b ++ l) (add-mod_right pos b.length)
        (ap (λ p. cycle b p n) (omega arith) ∙ cycle-period b (suc pos) n)

  -- What is left of a block after `n` more frames: `w` rounds of the buffer were completed.
  pub record Looped (b : BufferData Sample) (n : ℕ) (g g' : BufferGenerator Sample) : Type 0 where
    pub ready : IsReady b g'
    pub rounds : ℕ
    pub counted : g'.looped_count ≡ g.looped_count + rounds
    pub moved : g'.position_in_samples + rounds * b.length ≡ g.position_in_samples + n
    pub within : g'.position_in_samples ≤ b.length
    pub sent : g'.sent_finished ≡ g.sent_finished
    pub unfinished : g'.finished_count ≡ g.finished_count

  -- The answer `r` of the loop after `produced`, from `g` with `n` frames to go.
  Loops :
      BufferData Sample
      → ℕ
      → BufferGenerator Sample
      → List fl.Real
      → Played fl silence chunk_size of_sample
      → Type 0
  Loops b n g produced r =
      (g' : BufferGenerator Sample) × (r ≡ some (g', produced ++ cycle b g.position_in_samples n))
      × Looped b n g g'

  -- Reading in a generator that is ready.
  pub read-IsReady :
      (b : BufferData Sample) (n : ℕ) (g : BufferGenerator Sample)
      → IsReady b g
      → (r : BufferReader Sample) × ((g' : BufferGenerator Sample) → g'.reader ≡ r → IsReady b g')
        × (read_float_frames fl silence chunk_size of_sample 0 true g.position_in_samples n g.reader
            ≡ some (
              min (b.length - g.position_in_samples) n,
              (
                floats fl silence chunk_size of_sample g.position_in_samples
                    (min (b.length - g.position_in_samples) n)
                    b,
                r,
              ),
            ))
  read-IsReady b n g h =
      let pos = g.position_in_samples in
      let (r, same, agrees, e) =
        read_float_frames-eq-slice fl silence chunk_size of_sample 0 true pos n g.reader
          (subst (IsValid silence chunk_size) (sym h.same) h.valid) h.agrees h.channels
          h.few_channels (omega arith) in
      let width : r.channels ≡ g.reader.channels =
        agrees.0 ∙ ap (λ (c : BufferData Sample). c.channels) same ∙ sym h.agrees.0 in
      (
        r,
        λ g' f. record {
          same = ap (λ (q : BufferReader Sample). q.buffer) f ∙ same ∙ h.same;
          agrees = subst (Agrees silence chunk_size) (sym f) agrees;
          valid = h.valid;
          channels =
              subst (λ (q : BufferReader Sample). 0 < q.channels) (sym f)
                (omega (arith, width, h.channels));
          few_channels =
              subst (λ (q : BufferReader Sample). q.channels < max_channels) (sym f)
                (omega (arith, width, h.few_channels));
          longer = h.longer;
        },
        subst
            (λ (c : BufferData Sample).
              read_float_frames fl silence chunk_size of_sample 0 true pos n g.reader
              ≡ some (
                min (c.length - pos) n,
                (floats fl silence chunk_size of_sample pos (min (c.length - pos) n) c, r),
              ))
            h.same e,
      )

  pub end_round :
      (rounds n got : ℕ) (looping : Bool) (g : BufferGenerator Sample)
      (produced frames : List fl.Real) (r : BufferReader Sample)
      → 0 < n
      → read_float_frames fl silence chunk_size of_sample 0 true g.position_in_samples n g.reader
        ≡ some (got, (frames, r))
      → n ≤ got
      → play_loop fl silence chunk_size of_sample (suc rounds) looping n g produced
        ≡ some (
          record g { position_in_samples = g.position_in_samples + got; reader = r },
          produced ++ frames,
        )
  unfolding play_loop after_read
  end_round rounds n got looping g produced frames r h e all =
      let some_left : (n == 0) ≡ false = ground arith in
      let none_left : (n - got == 0) ≡ true = ground arith in
      rw some_left (rw (e, after_read) (rw none_left refl))

  wrap_round :
      (rounds n got : ℕ) (g : BufferGenerator Sample) (produced frames : List fl.Real)
      (r : BufferReader Sample)
      → read_float_frames fl silence chunk_size of_sample 0 true g.position_in_samples n g.reader
        ≡ some (got, (frames, r))
      → got < n
      → play_loop fl silence chunk_size of_sample (suc rounds) true n g produced
        ≡ play_loop fl silence chunk_size of_sample rounds true
            (n - got)
            (record g { position_in_samples = 0; looped_count = g.looped_count + 1; reader = r })
            (produced ++ frames)
  unfolding play_loop after_read
  wrap_round rounds n got g produced frames r e less =
      let some_left : (n == 0) ≡ false = ground arith in
      let more_left : (n - got == 0) ≡ false = ground arith in
      rw some_left (rw (e, after_read) (rw more_left refl))

  loop :
      (rounds e n : ℕ) (b : BufferData Sample) (g : BufferGenerator Sample)
      (produced : List fl.Real)
      → IsReady b g
      → 0 < n
      → g.position_in_samples < b.length + e
      → e ≤ 1
      → n + e < rounds
      → Loops b n g produced (play_loop fl silence chunk_size of_sample rounds true n g produced)
  unfolding Loops
  loop zero e n b g produced h h₀ h₁ h₂ h₃ = absurd (omega arith)
  loop (suc rounds) e n b g produced h h₀ h₁ h₂ h₃ =
      let pos : ℕ = g.position_in_samples in
      let L : ℕ = b.length in
      let got : ℕ = min (L - pos) n in
      let (r, ready, read) = read-IsReady b n g h in
      elim (dec_lt got n) [
        | no all ↦
            let whole : got ≡ n = omega (arith, all) in
            let g' : BufferGenerator Sample = record g {
              position_in_samples = pos + got;
              reader = r;
            } in
            (
              g',
              end_round rounds n got true g produced _ r h₀ read (omega (arith, all))
                  ∙ ap (λ l. some (g', produced ++ l))
                      (ap (λ k. floats fl silence chunk_size of_sample pos k b) whole
                        ∙ sym (cycle-linear b pos n (omega (arith, whole)))),
              record {
                ready = ready g' refl;
                rounds = 0;
                counted = omega arith;
                moved = omega (arith, whole);
                within = omega (arith, whole);
                sent = refl;
                unfinished = refl;
              },
            )
        | yes less ↦
            let rest : got ≡ L - pos = omega (arith, less) in
            let g₁ : BufferGenerator Sample = record g {
              position_in_samples = 0;
              looped_count = g.looped_count + 1;
              reader = r;
            } in
            let frames = floats fl silence chunk_size of_sample pos got b in
            let (g', f, done) =
              loop rounds 0 (n - got) b g₁ (produced ++ frames) (ready g₁ refl)
                (omega (arith, less)) (omega (arith, h.longer)) (omega arith)
                (omega (arith, less, rest)) in
            let turn : pos + got ≡ 0 + L = omega (arith, rest, h₁, h₂) in
            let tail : cycle b (pos + got) (n - got) ≡ cycle b 0 (n - got) =
              ap (λ p. cycle b p (n - got)) turn ∙ cycle-period b 0 (n - got) in
            (
              g',
              wrap_round rounds n got g produced frames r read less
                  ∙ f
                  ∙ ap (λ l. some (g', l))
                      (append_assoc produced frames (cycle b 0 (n - got))
                        ∙ ap (λ l. produced ++ l)
                            (ap₂ (λ x y. x ++ y)
                                (sym (cycle-linear b pos got (omega (arith, turn)))) (sym tail)
                              ∙ sym (cycle-split b pos got (n - got) n (omega (arith, less))))),
              record {
                ready = done.ready;
                rounds = done.rounds + 1;
                counted = omega (arith, done.counted);
                moved = omega (arith, done.moved, turn, less);
                within = done.within;
                sent = done.sent;
                unfinished = done.unfinished;
              },
            )
      ]

  -- A generator that loops a buffer which is not empty produces a block of `n` frames without a
  -- fault: the frames of the buffer from the position on, again and again from the start. The
  -- position moves by `n`, less the length of the buffer for each loop counted, and stays in the
  -- buffer or at its end; no end is counted.
  pub play_loop-cycles :
      (n : ℕ) (b : BufferData Sample) (g : BufferGenerator Sample)
      → IsReady b g
      → 0 < n
      → g.position_in_samples ≤ b.length
      → (g' : BufferGenerator Sample) × (play_loop fl silence chunk_size of_sample
            (n + 2)
            true
            n
            g
            []
          ≡ some (g', cycle b g.position_in_samples n))
        × Looped b n g g'
  unfolding Loops
  play_loop-cycles n b g h h₀ h₁ =
      loop (n + 2) 1 n b g [] h h₀ (omega arith) (omega arith) (omega arith)
