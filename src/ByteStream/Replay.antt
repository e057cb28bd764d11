-- ===== src/ByteStream/Replay.antt =====
-- Reads of the recording stream of src/byte_stream.cpp from its recorded blocks, and past them.
use synthizer.Base.{
  some-injective, ℕ, zero, suc, ◌+◌, ◌-◌, ◌<◌, ◌≤◌, ◌≡◌, refl, ap, ap₂, sym, subst, ◌∙◌, true, inl,
  inr, none, some, List, [], ◌∷◌, ◌++◌, length, get_elem?, take, drop, ◌==◌, min, All, concat,
  arith, Bool-cases, Option-cases, length-drop, drop-get_elem?, drop-get_elem?-none, take-split,
  drop-split, take-first, drop-first, drop_all, append_assoc, append-nil, dec_lt, lt→ltb, ltb_ge,
  All-get_elem?,
}
use synthizer.ByteStream.{
  ByteStream, Lookahead, goes_on, copied_to, recorded, lookahead_round, read_loop, read,
  memory_lookahead_stream, lookahead_block_size, reset,
}

module _ (bs : ByteStream) where
  open bs use {Stream, Byte, read_stream}

  -- No block is empty, and the place in the current block lies in it.
  unfoldable pub IsValid : Lookahead bs → Type 0
  IsValid s =
      All (λ (b : List Byte). 0 < length b) s.blocks
      × ((cur : List Byte)
          → get_elem? s.blocks s.current_block ≡ some cur
          → s.current_block_pos < length cur)
      × (get_elem? s.blocks s.current_block ≡ none → s.current_block_pos ≡ 0)

  -- The recorded bytes that are still to be read.
  abbrev pub remaining : Lookahead bs → List Byte
  remaining s = drop s.current_block_pos (concat (drop s.current_block s.blocks))

  remaining-in_block :
      (s : Lookahead bs) (cur : List Byte) (pos : ℕ)
      → get_elem? s.blocks s.current_block ≡ some cur
      → pos ≤ length cur
      → drop pos (concat (drop s.current_block s.blocks))
        ≡ drop pos cur ++ concat (drop (suc s.current_block) s.blocks)
  remaining-in_block s cur pos e h =
      ap (λ l. drop pos (concat l)) (drop-get_elem? s.blocks s.current_block cur e)
      ∙ drop-first pos cur (concat (drop (suc s.current_block) s.blocks)) h

  -- What a copy of `n` bytes from the current block leaves to be read.
  copied_to-remaining :
      (s : Lookahead bs) (cur : List Byte) (n : ℕ)
      → get_elem? s.blocks s.current_block ≡ some cur
      → s.current_block_pos + n ≤ length cur
      → remaining (copied_to bs (s.current_block_pos + n) cur s) ≡ drop n (remaining s)
  copied_to-remaining s cur n e h =
      let pos = s.current_block_pos + n in
      let whole : drop pos (concat (drop s.current_block s.blocks)) ≡ drop n (remaining s) =
        drop-split pos s.current_block_pos n (concat (drop s.current_block s.blocks)) refl in
      elim (Bool-cases (pos == length cur)) [
        | inl ends ↦
            let at_end : pos ≡ length cur = ground arith in
            let next : s.current_block + 1 ≡ suc s.current_block = omega arith in
            rw ends (
              ap (λ k. concat (drop k s.blocks)) next
              ∙ ap (λ l. l ++ concat (drop (suc s.current_block) s.blocks))
                  (sym (drop_all cur pos (omega (arith, at_end))))
              ∙ sym (remaining-in_block s cur pos e h)
              ∙ whole)
        | inr inside ↦ rw inside whole
      ]

  copied_to-IsValid :
      (s : Lookahead bs) (cur : List Byte) (pos : ℕ)
      → IsValid s
      → get_elem? s.blocks s.current_block ≡ some cur
      → pos ≤ length cur
      → IsValid (copied_to bs pos cur s)
  unfolding IsValid
  copied_to-IsValid s cur pos v e h = elim (Bool-cases (pos == length cur)) [
    | inl ends ↦ rw ends (
      v.0,
      λ next f.
          All-get_elem? (λ (b : List Byte). 0 < length b) s.blocks (s.current_block + 1) next v.0 f,
      λ f. refl,
    )
    | inr inside ↦
        let below : pos < length cur = ground arith in
        rw inside (
          v.0,
          λ next f.
              subst (λ (b : List Byte). pos < length b) (some-injective cur next (sym e ∙ f)) below,
          λ f. cc,
        )
  ]

  round-copies :
      (count got : ℕ) (out : List Byte) (s : Lookahead bs) (cur : List Byte)
      → IsValid s
      → get_elem? s.blocks s.current_block ≡ some cur
      → lookahead_round bs count got out s
        ≡ goes_on
            (got + min (count - got) (length cur - s.current_block_pos))
            (out ++ take (min (count - got) (length cur - s.current_block_pos)) (remaining s))
            (copied_to bs
              (s.current_block_pos + min (count - got) (length cur - s.current_block_pos))
              cur
              s)
  unfolding lookahead_round IsValid
  round-copies count got out s cur v e =
      let n = min (count - got) (length cur - s.current_block_pos) in
      let fits : n ≤ length (drop s.current_block_pos cur) =
        omega (arith, length-drop s.current_block_pos cur) in
      let same : take n (remaining s) ≡ take n (drop s.current_block_pos cur) =
        ap (take n) (remaining-in_block s cur s.current_block_pos e (omega (arith, v.1 cur e)))
        ∙ take-first n (drop s.current_block_pos cur) (concat (drop (suc s.current_block) s.blocks))
            fits in
      rw (e, lookahead_round)
        (ap (λ l. goes_on (got + n) (out ++ l) (copied_to bs (s.current_block_pos + n) cur s))
          (sym same))

  -- Two takes in a row.
  take-more :
      (a b c : ℕ) (out xs : List Byte) (s : Lookahead bs)
      → remaining s ≡ drop a xs
      → c ≡ a + b
      → (out ++ take a xs) ++ take b (remaining s) ≡ out ++ take c xs
  take-more a b c out xs s e h =
      append_assoc out (take a xs) (take b (remaining s))
      ∙ ap (λ l. out ++ (take a xs ++ take b l)) e
      ∙ ap (λ l. out ++ l) (sym (take-split c a b xs h))

  none_left : (s : Lookahead bs) → get_elem? s.blocks s.current_block ≡ none → remaining s ≡ []
  none_left s e =
      ap (λ l. drop s.current_block_pos (concat l)) (drop-get_elem?-none s.blocks s.current_block e)
      ∙ drop_all [] s.current_block_pos (omega arith)

  loop-replays :
      (rounds count got : ℕ) (out : List Byte) (s : Lookahead bs)
      → IsValid s
      → got ≤ count
      → count - got < rounds
      → count - got ≤ length (remaining s)
      → (s' : Lookahead bs) × (read_loop bs rounds count got out s
          ≡ some (count, (out ++ take (count - got) (remaining s), s')))
        × (remaining s' ≡ drop (count - got) (remaining s))
        × IsValid s'
  unfolding read_loop IsValid
  loop-replays zero count got out s v h₁ h₂ h₃ = absurd (omega arith)
  loop-replays (suc rounds) count got out s v h₁ h₂ h₃ = elim (dec_lt got count) [
    | no all ↦
        let nothing : count - got ≡ 0 = omega (arith, all) in
        let same : got ≡ count = omega (arith, all, h₁) in
        (
          s,
          rw (ltb_ge got count (omega (arith, all)), read_loop)
              (ap₂ (λ k l. some (k, (l, s))) same
                (sym (append-nil out) ∙ ap (λ k. out ++ take k (remaining s)) (sym nothing))),
          ap (λ k. drop k (remaining s)) (sym nothing),
          v,
        )
    | yes more ↦ elim (Option-cases (get_elem? s.blocks s.current_block)) [
      | inl e ↦ absurd (omega (arith, more, h₃, ap length (none_left s e)))
      | inr (cur, e) ↦
          let n = min (count - got) (length cur - s.current_block_pos) in
          let s₁ = copied_to bs (s.current_block_pos + n) cur s in
          let fits : s.current_block_pos + n ≤ length cur = omega (arith, v.1 cur e) in
          let moved : remaining s₁ ≡ drop n (remaining s) = copied_to-remaining s cur n e fits in
          let rest =
            loop-replays rounds count (got + n) (out ++ take n (remaining s)) s₁
              (copied_to-IsValid s cur (s.current_block_pos + n) v e fits) (omega arith)
              (omega (arith, v.1 cur e, more, h₂))
              (omega (arith, h₃, ap length moved, length-drop n (remaining s))) in
          let sum : count - got ≡ n + (count - (got + n)) = omega arith in
          (
            rest.0,
            rw (lt→ltb got count more, read_loop)
                (rw (round-copies count got out s cur v e) (
                  rest.1
                  ∙ ap (λ l. some (count, (l, rest.0)))
                      (take-more n (count - (got + n)) (count - got) out (remaining s) s₁ moved
                        sum))),
            rest.2
                ∙ ap (drop (count - (got + n))) moved
                ∙ sym (drop-split (count - got) n (count - (got + n)) (remaining s) sum),
            rest.3,
          )
    ]
  ]

  -- A read of no more bytes than are recorded and still to be read gives exactly the next of them,
  -- and leaves the others to be read.
  pub read-replays :
      (count : ℕ) (s : Lookahead bs)
      → IsValid s
      → count ≤ length (remaining s)
      → (s' : Lookahead bs) × (read bs count s ≡ some (count, (take count (remaining s), s')))
        × (remaining s' ≡ drop count (remaining s))
        × IsValid s'
  unfolding read
  read-replays count s v h =
      let all : count - 0 ≡ count = omega arith in
      subst
        (λ k.
          (s' : Lookahead bs) × (read_loop bs (count + 1) count 0 [] s
            ≡ some (count, (take k (remaining s), s')))
          × (remaining s' ≡ drop k (remaining s))
          × IsValid s')
        all (loop-replays (count + 1) count 0 [] s v (omega arith) (omega arith) (omega (arith, h)))

  -- A stream that has recorded is set back to the start of its first block.
  reset-IsValid :
      (s : Lookahead bs)
      → IsValid s
      → s.recording ≡ true
      → (s₀ : Lookahead bs) × (reset bs s ≡ some s₀) × (remaining s₀ ≡ concat s.blocks) × IsValid s₀
  unfolding reset IsValid
  reset-IsValid s v on = (
    record s { current_block = 0; current_block_pos = 0 },
    rw on refl,
    refl,
    (v.0, λ cur e. All-get_elem? (λ (b : List Byte). 0 < length b) s.blocks 0 cur v.0 e, λ e. refl),
  )

  -- While a stream records, a reset succeeds, and the stream then repeats what it has recorded: a
  -- first read and a second one after it, of no more bytes together than all its blocks hold, give
  -- exactly the first bytes of the blocks and the next ones after them, and all that follows is
  -- still to be read.
  pub reset-replays :
      (first second : ℕ) (s : Lookahead bs)
      → IsValid s
      → s.recording ≡ true
      → first + second ≤ length (concat s.blocks)
      → (s₀ : Lookahead bs) × (s₁ : Lookahead bs) × (s₂ : Lookahead bs) × (reset bs s ≡ some s₀)
        × (read bs first s₀ ≡ some (first, (take first (concat s.blocks), s₁)))
        × (read bs second s₁ ≡ some (second, (take second (drop first (concat s.blocks)), s₂)))
        × (remaining s₂ ≡ drop second (drop first (concat s.blocks)))
  reset-replays first second s v on h =
      let all : List Byte = concat s.blocks in
      let (s₀, e, start, v₀) = reset-IsValid s v on in
      let (s₁, read₁, left₁, v₁) = read-replays first s₀ v₀ (omega (arith, h, ap length start)) in
      let left : remaining s₁ ≡ drop first all = left₁ ∙ ap (drop first) start in
      let (s₂, read₂, left₂, v₂) =
        read-replays second s₁ v₁ (omega (arith, h, ap length left, length-drop first all)) in
      (
        s₀,
        s₁,
        s₂,
        e,
        read₁ ∙ ap (λ l. some (first, (take first l, s₁))) start,
        read₂ ∙ ap (λ l. some (second, (take second l, s₂))) left,
        left₂ ∙ ap (drop second) left,
      )

  uncopied :
      (count : ℕ) (stream after : Stream) (bytes : List Byte)
      → 0 < count
      → count ≤ length bytes
      → read_stream lookahead_block_size stream ≡ (after, bytes)
      → (s' : Lookahead bs) × (read bs count (memory_lookahead_stream bs stream)
          ≡ some (length bytes, ([], s')))
  unfolding read read_loop lookahead_round
  uncopied zero stream after bytes pos h e = absurd (omega arith)
  uncopied (suc c) stream after [] pos h e = absurd (omega (arith, h))
  uncopied (suc c) stream after (b ∷ bytes) pos h e =
      let begun = memory_lookahead_stream bs stream in
      let s' : Lookahead bs = record begun {
        stream = after;
        blocks = (b ∷ bytes) ∷ [];
        current_block_pos = 0;
      } in
      let two : suc c + 1 ≡ suc (suc c) = omega arith in
      let counted : 0 + length (b ∷ bytes) ≡ length (b ∷ bytes) = omega arith in
      let begins : lookahead_round bs (suc c) 0 [] begun ≡ goes_on (length (b ∷ bytes)) [] s' =
        ap (λ (p : Stream × List Byte). recorded bs 0 [] begun p.0 p.1) e
        ∙ ap (λ k. goes_on k [] s') counted in
      (
        s',
        ap (λ k. read_loop bs k (suc c) 0 [] begun) two
            ∙ rw (lt→ltb 0 (suc c) (omega arith), read_loop)
                (rw begins (rw (ltb_ge (length (b ∷ bytes)) (suc c) h, read_loop) refl)),
      )

  -- The first read of a new stream that gets a block of at least as many bytes as were asked for
  -- copies none of them to the destination, and returns the length of the block.
  pub read-uncopied :
      (count : ℕ) (stream : Stream)
      → 0 < count
      → count ≤ length (read_stream lookahead_block_size stream).1
      → (s' : Lookahead bs) × (read bs count (memory_lookahead_stream bs stream)
          ≡ some (length (read_stream lookahead_block_size stream).1, ([], s')))
  read-uncopied count stream pos h = uncopied count stream _ _ pos h refl
