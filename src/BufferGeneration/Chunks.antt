-- ===== src/BufferGeneration/Chunks.antt =====
-- generateBufferData of src/buffer.cpp: the chunks that it makes of a stream of samples.
use synthizer.Base.{
  ℕ, zero, suc, ◌+◌, ◌-◌, ◌*◌, ◌<◌, ◌≤◌, ◌≡◌, refl, ap, ap₂, sym, ◌∙◌, true, false, Option, some,
  List, [], ◌∷◌, ◌++◌, length, replicate, take, drop, min, All, concat, ltb, lt→ltb, ltb_ge,
  if◌then◌else◌, arith, append_assoc, append-nil, length-append, length-replicate, length-take,
  take-append-drop, take_all, dec_lt,
}
use synthizer.Buffer.{BufferData}
use synthizer.BufferGeneration.{Produced, produce_directly, quantize_all, next_chunk, generate_loop}
use native.Mathlib.Nat.{mul-le-mul_right}

-- A producer of the samples of a stream, in frames of `channels` samples: `rest` are the samples to
-- come. It writes as many frames as it is asked for, or those that are left.
pub record Serves {State Real : Type 0} (channels : ℕ)
    (producer : State → ℕ → State × ℕ × List Real) (rest : State → List Real) : Type 0 where
  pub frames : State → ℕ
  pub whole : (s : State) → length (rest s) ≡ frames s * channels
  pub writes :
      (s : State) (n : ℕ)
      → ((producer s n).1 ≡ min n (frames s)) × ((producer s n).2 ≡ take (n * channels) (rest s))
  pub moves :
      (s : State) (n : ℕ)
      → (rest (producer s n).0 ≡ drop (n * channels) (rest s))
        × (frames (producer s n).0 ≡ frames s - n)

module _ {Real Sample : Type 0} (quantize : ℕ → Real → Sample) where
  pub length-quantize_all :
      (i : ℕ) (xs : List Real) → length (quantize_all quantize i xs) ≡ length xs
  length-quantize_all i [] = refl
  length-quantize_all i (x ∷ xs) = ap suc (length-quantize_all (suc i) xs)

  quantize_all-append :
      (i : ℕ) (xs ys : List Real)
      → quantize_all quantize i (xs ++ ys)
        ≡ quantize_all quantize i xs ++ quantize_all quantize (i + length xs) ys
  quantize_all-append i [] ys = ap (λ k. quantize_all quantize k ys) (omega arith)
  quantize_all-append i (x ∷ xs) ys =
      ap (λ l. quantize i x ∷ l)
        (quantize_all-append (suc i) xs ys
          ∙ ap (λ k. quantize_all quantize (suc i) xs ++ quantize_all quantize k ys) (omega arith))

module _ {State Real Sample : Type 0} (silence : Sample) (chunk_size : ℕ)
    (quantize : ℕ → Real → Sample) (producer : State → ℕ → State × ℕ × List Real) (channels : ℕ)
    (rest : State → List Real) (serves : Serves channels producer rest) where
  open serves use {frames, whole, writes, moves}

  -- The buffer after `chunks`, whose `len` frames are made of `dithered` samples: new chunks that
  -- hold the rest of the stream, and silence after it.
  pub record Holds (s : State) (chunks : List (List Sample)) (dithered len : ℕ)
      (b : BufferData Sample) : Type 0 where
    pub new : List (List Sample)
    pub padding : ℕ
    pub same_channels : b.channels ≡ channels
    pub longer : b.length ≡ len + frames s
    pub joined : b.chunks ≡ chunks ++ new
    pub wide : All (λ (c : List Sample). length c ≡ channels * chunk_size) new
    pub enough : frames s < length new * chunk_size
    pub held : concat new ≡ quantize_all quantize dithered (rest s) ++ replicate padding silence

  length-got :
      (s : State) (n : ℕ) → length (take (n * channels) (rest s)) ≡ min n (frames s) * channels
  length-got s n = elim (dec_lt n (frames s)) [
    | yes less ↦
        let below : n * channels ≤ frames s * channels =
          mul-le-mul_right channels (omega (arith, less)) in
        let inner : min n (frames s) ≡ n = omega (arith, less) in
        length-take (n * channels) (rest s)
        ∙ omega (arith, whole s, below)
        ∙ sym (ap (λ k. k * channels) inner)
    | no all ↦
        let below : frames s * channels ≤ n * channels =
          mul-le-mul_right channels (omega (arith, all)) in
        let inner : min n (frames s) ≡ frames s = omega (arith, all) in
        length-take (n * channels) (rest s)
        ∙ omega (arith, whole s, below)
        ∙ sym (ap (λ k. k * channels) inner)
  ]

  chunk-wide :
      (s : State) (dithered : ℕ)
      → length (
          next_chunk silence chunk_size quantize channels dithered
            (take (chunk_size * channels) (rest s)))
        ≡ channels * chunk_size
  unfolding next_chunk
  chunk-wide s dithered =
      let got : List Real = take (chunk_size * channels) (rest s) in
      let swap : chunk_size * channels ≡ channels * chunk_size = omega arith in
      let fits : length got ≤ chunk_size * channels =
        omega (arith, length-take (chunk_size * channels) (rest s)) in
      length-append (quantize_all quantize dithered got)
        (replicate (channels * chunk_size - length got) silence)
      ∙ ap₂ (λ m n. m + n) (length-quantize_all quantize dithered got)
          (length-replicate (channels * chunk_size - length got) silence)
      ∙ omega (arith, fits, swap)

  produced :
      (s : State)
      → produce_directly chunk_size producer s ≡ record {
        state = (producer s chunk_size).0;
        next_chunk_len = min chunk_size (frames s);
        working_buf = take (chunk_size * channels) (rest s);
        last = ltb (min chunk_size (frames s)) chunk_size;
      }
  unfolding produce_directly
  produced s =
      ap₂
        (λ (got : ℕ) (floats : List Real).
          let p : Produced State Real = record {
            state = (producer s chunk_size).0;
            next_chunk_len = got;
            working_buf = floats;
            last = ltb got chunk_size;
          } in
          p)
        (writes s chunk_size).0 (writes s chunk_size).1

  abbrev here : State → ℕ → List Sample
  here s dithered =
      next_chunk silence chunk_size quantize channels dithered
        (take (chunk_size * channels) (rest s))

  -- A round, with what the producer gives put in.
  abbrev round :
      ℕ → State → List (List Sample) → ℕ → ℕ → Produced State Real → Option (BufferData Sample)
  round rounds s chunks dithered len p =
      let chunks' =
        chunks ++ (next_chunk silence chunk_size quantize channels dithered p.working_buf ∷ []) in
      let more =
        generate_loop silence chunk_size quantize (produce_directly chunk_size producer) rounds
          channels (dithered + length p.working_buf) p.state chunks' (len + p.next_chunk_len) in
      if p.last
      then some (record { channels = channels; length = len + p.next_chunk_len; chunks = chunks' })
      else more

  loop_last :
      (rounds : ℕ) (s : State) (chunks : List (List Sample)) (dithered len : ℕ)
      → frames s < chunk_size
      → generate_loop silence chunk_size quantize
          (produce_directly chunk_size producer)
          (suc rounds)
          channels
          dithered
          s
          chunks
          len
        ≡ some (record {
          channels = channels;
          length = len + min chunk_size (frames s);
          chunks = chunks ++ (here s dithered ∷ []);
        })
  unfolding generate_loop
  loop_last rounds s chunks dithered len h =
      let done : ltb (min chunk_size (frames s)) chunk_size ≡ true =
        lt→ltb (min chunk_size (frames s)) chunk_size (omega (arith, h)) in
      ap (round rounds s chunks dithered len) (produced s) ∙ rw done refl

  loop_more :
      (rounds : ℕ) (s : State) (chunks : List (List Sample)) (dithered len : ℕ)
      → chunk_size ≤ frames s
      → generate_loop silence chunk_size quantize
          (produce_directly chunk_size producer)
          (suc rounds)
          channels
          dithered
          s
          chunks
          len
        ≡ generate_loop silence chunk_size quantize
            (produce_directly chunk_size producer)
            rounds
            channels
            (dithered + length (take (chunk_size * channels) (rest s)))
            (producer s chunk_size).0
            (chunks ++ (here s dithered ∷ []))
            (len + min chunk_size (frames s))
  unfolding generate_loop
  loop_more rounds s chunks dithered len h =
      let goes_on : ltb (min chunk_size (frames s)) chunk_size ≡ false =
        ltb_ge (min chunk_size (frames s)) chunk_size (omega (arith, h)) in
      ap (round rounds s chunks dithered len) (produced s) ∙ rw goes_on refl

  last-Holds :
      (s : State) (chunks : List (List Sample)) (dithered len : ℕ)
      → frames s < chunk_size
      → Holds s chunks dithered len (record {
        channels = channels;
        length = len + min chunk_size (frames s);
        chunks = chunks ++ (here s dithered ∷ []);
      })
  unfolding next_chunk
  last-Holds s chunks dithered len h =
      let short : frames s * channels ≤ chunk_size * channels =
        mul-le-mul_right channels (omega (arith, h)) in
      let all : take (chunk_size * channels) (rest s) ≡ rest s =
        take_all (rest s) (chunk_size * channels) (omega (arith, whole s, short)) in
      record {
        new = here s dithered ∷ [];
        padding = channels * chunk_size - length (rest s);
        same_channels = refl;
        longer = omega (arith, h);
        joined = refl;
        wide = (chunk-wide s dithered, tt);
        enough = omega (arith, h);
        held =
            append-nil (here s dithered)
            ∙ ap (next_chunk silence chunk_size quantize channels dithered) all;
      }

  more-Holds :
      (s : State) (chunks : List (List Sample)) (dithered len : ℕ) (b : BufferData Sample)
      → chunk_size ≤ frames s
      → Holds
          (producer s chunk_size).0
          (chunks ++ (here s dithered ∷ []))
          (dithered + length (take (chunk_size * channels) (rest s)))
          (len + min chunk_size (frames s))
          b
      → Holds s chunks dithered len b
  unfolding next_chunk
  more-Holds s chunks dithered len b h held' =
      let got : List Real = take (chunk_size * channels) (rest s) in
      let after = (producer s chunk_size).0 in
      let left : frames after ≡ frames s - chunk_size = (moves s chunk_size).1 in
      let full : min chunk_size (frames s) ≡ chunk_size = omega (arith, h) in
      let size : length got ≡ channels * chunk_size =
        length-got s chunk_size ∙ ap (λ k. k * channels) full ∙ omega arith in
      let no_padding : channels * chunk_size - length got ≡ 0 = omega (arith, size) in
      let exact : here s dithered ≡ quantize_all quantize dithered got =
        ap (λ k. quantize_all quantize dithered got ++ replicate k silence) no_padding
        ∙ append-nil (quantize_all quantize dithered got) in
      let stream : got ++ rest after ≡ rest s =
        ap (λ l. got ++ l) (moves s chunk_size).0
        ∙ take-append-drop (chunk_size * channels) (rest s) in
      record {
        new = here s dithered ∷ held'.new;
        padding = held'.padding;
        same_channels = held'.same_channels;
        longer = omega (arith, held'.longer, left, h);
        joined = held'.joined ∙ append_assoc chunks (here s dithered ∷ []) held'.new;
        wide = (chunk-wide s dithered, held'.wide);
        enough = omega (arith, held'.enough, left, h);
        held =
            ap₂ (λ x y. x ++ y) exact held'.held
            ∙ sym (
                append_assoc (quantize_all quantize dithered got)
                  (quantize_all quantize (dithered + length got) (rest after))
                  (replicate held'.padding silence))
            ∙ ap (λ l. l ++ replicate held'.padding silence)
                (sym (quantize_all-append quantize dithered got (rest after))
                  ∙ ap (quantize_all quantize dithered) stream);
      }

  -- The loop ends once the stream does.
  pub generate_loop-Holds :
      (rounds : ℕ) (s : State) (chunks : List (List Sample)) (dithered len : ℕ)
      → frames s < rounds * chunk_size
      → (b : BufferData Sample) × (generate_loop silence chunk_size quantize
            (produce_directly chunk_size producer)
            rounds
            channels
            dithered
            s
            chunks
            len
          ≡ some b)
        × Holds s chunks dithered len b
  generate_loop-Holds zero s chunks dithered len h = absurd (omega (arith, h))
  generate_loop-Holds (suc rounds) s chunks dithered len h = elim (dec_lt (frames s) chunk_size) [
    | yes less ↦
        (_, loop_last rounds s chunks dithered len less, last-Holds s chunks dithered len less)
    | no more ↦
        let left : frames (producer s chunk_size).0 ≡ frames s - chunk_size =
          (moves s chunk_size).1 in
        let all : chunk_size ≤ frames s = omega (arith, more) in
        let (b, e, held) =
          generate_loop-Holds rounds (producer s chunk_size).0 (chunks ++ (here s dithered ∷ []))
            (dithered + length (take (chunk_size * channels) (rest s)))
            (len + min chunk_size (frames s)) (omega (arith, left, h, more)) in
        (
          b,
          loop_more rounds s chunks dithered len all ∙ e,
          more-Holds s chunks dithered len b all held,
        )
  ]
