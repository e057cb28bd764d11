-- ===== src/BufferGenerator/Finishing.antt =====
-- generateNoPitchBend of src/generators/buffer.cpp without looping: the end of the buffer.
use synthizer.Base.{
  ℕ, suc, ◌+◌, ◌-◌, ◌<◌, ◌≤◌, ◌≡◌, refl, ap, ap₂, sym, ◌∙◌, Bool, true, false, ◌||◌, some, List, [],
  ◌∷◌, ◌++◌, replicate, min, ltb, lt→ltb, ltb_ge, ◌==◌, if◌then◌else◌, arith, inl, inr, Bool-cases,
  dec_lt,
}
use synthizer.Float.{Float}
use synthizer.Buffer.{BufferReader, BufferData}
use synthizer.Buffer.Floats.{read_float_frames, floats}
use synthizer.BufferGenerator.{
  BufferGenerator, after_read, play_loop, count_finished, PlaybackEvent, looped, finished,
  send_events,
}
use synthizer.BufferGenerator.Looping.{IsReady, read-IsReady, end_round}

-- The event for a buffer of `len` frames that is played up to `pos`, unless one was sent before.
abbrev pub end_events : Bool → ℕ → ℕ → List PlaybackEvent
end_events sent len pos = if sent then [] else if ltb len pos then finished ∷ [] else []

module _ (fl : Float) {Sample : Type 0} (silence : Sample) (chunk_size : ℕ)
    (of_sample : Sample → fl.Real) where
  finish_round :
      (rounds n got : ℕ) (g : BufferGenerator Sample) (produced frames : List fl.Real)
      (r : BufferReader Sample)
      → read_float_frames fl silence chunk_size of_sample 0 true g.position_in_samples n g.reader
        ≡ some (got, (frames, r))
      → got < n
      → play_loop fl silence chunk_size of_sample (suc rounds) false n g produced
        ≡ some (
          count_finished
              (record g { position_in_samples = g.position_in_samples + got; reader = r }),
          produced ++ frames,
        )
  unfolding play_loop after_read
  finish_round rounds n got g produced frames r e less =
      let some_left : (n == 0) ≡ false = ground arith in
      let more_left : (n - got == 0) ≡ false = ground arith in
      rw some_left (rw (e, after_read) (rw more_left refl))

  -- Between blocks, no event is left to send.
  pub record IsIdle (b : BufferData Sample) (g : BufferGenerator Sample) : Type 0 where
    pub ready : IsReady fl silence chunk_size of_sample b g
    pub none_finished : g.finished_count ≡ 0
    pub none_looped : g.looped_count ≡ 0
    pub within : g.position_in_samples ≤ b.length

  -- One block, up to and including its events.
  unfoldable pub OneBlock : BufferData Sample → ℕ → BufferGenerator Sample → Type 0
  OneBlock b n g =
      (g' : BufferGenerator Sample) × (play_loop fl silence chunk_size of_sample (n + 2) false n g
          []
        ≡ some (
          g',
          floats fl silence chunk_size of_sample g.position_in_samples
              (min (b.length - g.position_in_samples) n) b,
        ))
      × IsIdle b (send_events g').0
      × ((send_events g').1 ≡ end_events g.sent_finished b.length (g.position_in_samples + n))
      × (g'.position_in_samples ≡ g.position_in_samples + min (b.length - g.position_in_samples) n)
      × (g'.sent_finished ≡ (g.sent_finished || ltb b.length (g.position_in_samples + n)))

  counted-IsIdle :
      (b : BufferData Sample) (g : BufferGenerator Sample)
      → IsReady fl silence chunk_size of_sample b g
      → g.looped_count ≡ 0
      → g.position_in_samples ≤ b.length
      → IsIdle b (send_events g).0
  unfolding send_events
  counted-IsIdle b g h e le = record {
    ready = record {
      same = h.same;
      agrees = h.agrees;
      valid = h.valid;
      channels = h.channels;
      few_channels = h.few_channels;
      longer = h.longer;
    };
    none_finished = refl;
    none_looped = refl;
    within = le;
  }

  no_events :
      (g : BufferGenerator Sample)
      → g.finished_count ≡ 0
      → g.looped_count ≡ 0
      → (send_events g).1 ≡ []
  unfolding send_events
  no_events g e f = ap₂ (λ m n. replicate m looped ++ replicate n finished) f e

  one_event :
      (g : BufferGenerator Sample)
      → g.finished_count ≡ 1
      → g.looped_count ≡ 0
      → (send_events g).1 ≡ finished ∷ []
  unfolding send_events
  one_event g e f = ap₂ (λ m n. replicate m looped ++ replicate n finished) f e

  ended :
      (b : BufferData Sample) (n : ℕ) (g : BufferGenerator Sample)
      → IsIdle b g
      → 0 < n
      → b.length - g.position_in_samples < n
      → OneBlock b n g
  unfolding OneBlock
  ended b n g h h₀ less =
      let pos : ℕ = g.position_in_samples in
      let got : ℕ = min (b.length - pos) n in
      let fuel : n + 2 ≡ suc (n + 1) = omega arith in
      let (r, ready, read) = read-IsReady fl silence chunk_size of_sample b n g h.ready in
      let beyond : ltb b.length (pos + n) ≡ true =
        lt→ltb b.length (pos + n) (omega (arith, less)) in
      let g₁ : BufferGenerator Sample = record g { position_in_samples = pos + got; reader = r } in
      let at_end : pos + got ≤ b.length = omega (arith, h.within) in
      elim (Bool-cases g.sent_finished) [
        | inl sent ↦
            let same : count_finished g₁ ≡ g₁ =
              ap
                (λ c.
                  if c
                  then g₁
                  else record g₁ { finished_count = g₁.finished_count + 1; sent_finished = true })
                sent in
            (
              g₁,
              ap (λ k. play_loop fl silence chunk_size of_sample k false n g []) fuel
                  ∙ finish_round (n + 1) n got g [] _ r read (omega (arith, less))
                  ∙ ap (λ c. some (c, floats fl silence chunk_size of_sample pos got b)) same,
              counted-IsIdle b g₁ (ready g₁ refl) h.none_looped at_end,
              no_events g₁ h.none_finished h.none_looped
                  ∙ sym (ap (λ c. end_events c b.length (pos + n)) sent),
              refl,
              sent ∙ sym (ap (λ c. c || ltb b.length (pos + n)) sent),
            )
        | inr unsent ↦
            let g₂ : BufferGenerator Sample = record g₁ {
              finished_count = g₁.finished_count + 1;
              sent_finished = true;
            } in
            let marked : count_finished g₁ ≡ g₂ = ap (λ c. if c then g₁ else g₂) unsent in
            (
              g₂,
              ap (λ k. play_loop fl silence chunk_size of_sample k false n g []) fuel
                  ∙ finish_round (n + 1) n got g [] _ r read (omega (arith, less))
                  ∙ ap (λ c. some (c, floats fl silence chunk_size of_sample pos got b)) marked,
              counted-IsIdle b g₂ (ready g₂ refl) h.none_looped at_end,
              one_event g₂ (omega (arith, h.none_finished)) h.none_looped
                  ∙ sym (
                      ap₂ (λ c d. if c then [] else if d then finished ∷ [] else []) unsent beyond),
              refl,
              sym (ap₂ (λ c d. c || d) unsent beyond),
            )
      ]

  unended :
      (b : BufferData Sample) (n : ℕ) (g : BufferGenerator Sample)
      → IsIdle b g
      → 0 < n
      → n ≤ b.length - g.position_in_samples
      → OneBlock b n g
  unfolding OneBlock
  unended b n g h h₀ all =
      let pos : ℕ = g.position_in_samples in
      let got : ℕ = min (b.length - pos) n in
      let fuel : n + 2 ≡ suc (n + 1) = omega arith in
      let (r, ready, read) = read-IsReady fl silence chunk_size of_sample b n g h.ready in
      let before : ltb b.length (pos + n) ≡ false =
        ltb_ge b.length (pos + n) (omega (arith, all, h.within)) in
      let g₁ : BufferGenerator Sample = record g { position_in_samples = pos + got; reader = r } in
      (
        g₁,
        ap (λ k. play_loop fl silence chunk_size of_sample k false n g []) fuel
            ∙ end_round fl silence chunk_size of_sample (n + 1) n got false g [] _ r h₀ read
                (omega (arith, all)),
        counted-IsIdle b g₁ (ready g₁ refl) h.none_looped (omega (arith, h.within)),
        no_events g₁ h.none_finished h.none_looped ∙ sym (no_end g.sent_finished before),
        refl,
        sym (ap (λ d. g.sent_finished || d) before ∙ or_false g.sent_finished),
      )
    where
      no_end :
          (c : Bool) {d : Bool}
          → d ≡ false
          → (if c then [] else if d then finished ∷ [] else []) ≡ []
      no_end true e = refl
      no_end false e = ap (λ d. if d then finished ∷ [] else []) e

      or_false : (c : Bool) → (c || false) ≡ c
      or_false true = refl
      or_false false = refl

  pub one_block :
      (b : BufferData Sample) (n : ℕ) (g : BufferGenerator Sample)
      → IsIdle b g
      → 0 < n
      → OneBlock b n g
  one_block b n g h h₀ = elim (dec_lt (b.length - g.position_in_samples) n) [
    | yes less ↦ ended b n g h h₀ less
    | no all ↦ unended b n g h h₀ (omega (arith, all))
  ]
