-- ===== src/Buffer/Floats.antt =====
-- readFrames and readFrame of include/synthizer/buffer.hpp: samples as floats.
use synthizer.Base.{
  ℕ, zero, suc, ◌+◌, ◌-◌, ◌*◌, ◌/◌, ◌%◌, ◌^◌, Bool, not, ◌||◌, ◌<◌, ◌≤◌, ◌≡◌, refl, ap, ap₂, sym,
  subst, ◌∙◌, Option, none, some, List, [], ◌∷◌, ◌++◌, map, min, ltb, lt→ltb, ltb_ge, if◌then◌else◌,
  arith, append_assoc, append-nil, inl, inr, Bool-cases, dec_lt, dec_le,
}
use native.Mathlib.Nat.{
  mul_comm, div-add-mod, mod-lt, mod-eq_of_lt, mul-le-mul_right, mul-le-mul_left,
}
use synthizer.Float.{Float}
use synthizer.Buffer.{max_channels, BufferReader, BufferData, read_frames, read_frame}
use synthizer.Buffer.Slices.{IsValid, slice, slice_more}
use synthizer.Buffer.Frames.{Agrees, read_frames-stays, slice-none}

-- The elements of the default workspace.
abbrev pub default_workspace_size : ℕ
default_workspace_size = 256

-- size_t is 64 bits wide.
abbrev pub mul_size : ℕ → ℕ → ℕ
mul_size a b = (a * b) % 2 ^ 64

-- The elements of the workspace used: those of the caller's, unless it is too small or a null
-- pointer.
abbrev pub used_workspace : ℕ → Bool → ℕ → ℕ
used_workspace workspace_len is_null channels =
    if ltb (mul_size workspace_len channels) default_workspace_size || is_null
    then default_workspace_size
    else workspace_len

quotient_pos : (a b : ℕ) → 0 < b → b ≤ a → 0 < a / b
quotient_pos a b h le = elim (dec_lt 0 (a / b)) [
  | yes p ↦ p
  | no p ↦
      let zero_quotient : a / b ≡ 0 = omega (arith, p) in
      let product : b * (a / b) ≡ 0 = ap (λ k. b * k) zero_quotient ∙ omega arith in
      absurd (omega (arith, product, div-add-mod a b, mod-lt a h, le))
]

-- A workspace that is used has room for a frame.
workspace_frames_pos :
    (workspace_len : ℕ) (is_null : Bool) (channels : ℕ)
    → 0 < channels
    → channels < max_channels
    → workspace_len < 2 ^ 32
    → 0 < used_workspace workspace_len is_null channels / channels
workspace_frames_pos workspace_len is_null channels h₁ h₂ h₃ =
    elim (Bool-cases (ltb (mul_size workspace_len channels) default_workspace_size || is_null)) [
      | inl small ↦ rw small (quotient_pos default_workspace_size channels h₁ (omega arith))
      | inr large ↦
          let wide : workspace_len * channels ≤ workspace_len * 15 =
            mul-le-mul_left workspace_len (omega (arith, h₂)) in
          let exact : mul_size workspace_len channels ≡ workspace_len * channels =
            mod-eq_of_lt (omega (arith, wide, h₃)) in
          let checked : default_workspace_size ≤ mul_size workspace_len channels = ground arith in
          let elements : default_workspace_size ≤ workspace_len * channels =
            omega (arith, checked, exact) in
          rw large (
            quotient_pos workspace_len channels h₁ (elim (dec_le channels workspace_len) [
              | yes le ↦ le
              | no gt ↦
                  let bound : workspace_len * channels ≤ 15 * channels =
                    mul-le-mul_right channels (omega (arith, gt)) in
                  absurd (omega (arith, bound, elements))
            ]))
    ]

-- No round copies more elements than the workspace has.
workspace_frames_fit :
    (workspace_len : ℕ) (is_null : Bool) (channels : ℕ)
    → 0 < channels
    → workspace_len < 2 ^ 32
    → used_workspace workspace_len is_null channels / channels * channels < 2 ^ 32
workspace_frames_fit workspace_len is_null channels h₁ h₂ =
    let used : ℕ = used_workspace workspace_len is_null channels in
    let small : used < 2 ^ 32 = ground (arith, h₂) in
    let swapped : used / channels * channels ≡ channels * (used / channels) =
      mul_comm (used / channels) channels in
    omega (arith, div-add-mod used channels, mod-lt used h₁, small, swapped)

copy_fits :
    {Sample : Type 0} (wf got : ℕ) (r r₁ : BufferReader Sample)
    → r₁.buffer ≡ r.buffer
    → r₁.channels ≡ r₁.buffer.channels
    → got ≤ wf
    → wf * r.buffer.channels < 2 ^ 32
    → mul_size got r₁.channels < 2 ^ 32
copy_fits {Sample} wf got r r₁ same agrees le h =
    let c : r₁.channels ≡ r.buffer.channels =
      agrees ∙ ap (λ (b : BufferData Sample). b.channels) same in
    let product : got * r.buffer.channels ≤ wf * r.buffer.channels =
      mul-le-mul_right r.buffer.channels le in
    let exact : mul_size got r.buffer.channels ≡ got * r.buffer.channels =
      mod-eq_of_lt (omega (arith, product, h)) in
    subst (λ k. mul_size got k < 2 ^ 32) (sym c) (omega (arith, exact, product, h))

module _ (fl : Float) {Sample : Type 0} (silence : Sample) (chunk_size : ℕ)
    (of_sample : Sample → fl.Real) where
  abbrev pub to_float : Sample → fl.Real
  to_float x = fl.fdiv (of_sample x) (fl.of_unsigned 32768)

  unfoldable pub read_float_frame :
      ℕ → BufferReader Sample → Option (List fl.Real × BufferReader Sample)
  unfolding read_frame
  read_float_frame pos r = elim (read_frame silence chunk_size pos r) [
    | none ↦ none
    | some (frame, r') ↦ some (map to_float frame, r')
  ]

  -- What a round does with what readFramesI16 gave; `rest` are the rounds after it. The copy counts
  -- in 32 bits, and `none` stands also for a copy that never ends because its counter wraps.
  unfoldable pub float_round :
      ℕ
      → ℕ
      → List fl.Real
      → Option (ℕ × (List Sample × BufferReader Sample))
      → (ℕ → List fl.Real → BufferReader Sample → Option (ℕ × (List fl.Real × BufferReader Sample)))
      → Option (ℕ × (List fl.Real × BufferReader Sample))
  float_round requested written out none rest = none
  float_round requested written out (some (got, (copied, r))) rest =
      let out' = out ++ map to_float copied in
      let more = rest (written + got) out' r in
      if not (ltb (mul_size got r.channels) (2 ^ 32))
      then none
      else if ltb got requested
      then some (written + got, (out', r))
      else more

  -- The loop of readFrames, at most `rounds` rounds.
  unfoldable pub float_loop :
      ℕ
      → ℕ
      → ℕ
      → ℕ
      → ℕ
      → List fl.Real
      → BufferReader Sample
      → Option (ℕ × (List fl.Real × BufferReader Sample))
  float_loop zero workspace_frames pos count written out r = none
  float_loop (suc rounds) workspace_frames pos count written out r =
      let requested = min (count - written) workspace_frames in
      let round =
        float_round requested written out
          (read_frames silence chunk_size (pos + written) requested r)
          (float_loop rounds workspace_frames pos count) in
      if ltb written count then round else some (written, (out, r))

  -- A workspace of `workspace_len` elements, or a null pointer, as the caller gives it.
  unfoldable pub read_float_frames :
      ℕ → Bool → ℕ → ℕ → BufferReader Sample → Option (ℕ × (List fl.Real × BufferReader Sample))
  unfolding float_loop float_round
  read_float_frames workspace_len is_null pos count r =
      let used = used_workspace workspace_len is_null r.channels in
      float_loop (count + 1) (used / r.channels) pos count 0 [] r

  -- The floats of a slice.
  abbrev pub floats : ℕ → ℕ → BufferData Sample → List fl.Real
  floats pos count b = map to_float (slice silence chunk_size pos count b)

  map-append : (xs ys : List Sample) → map to_float (xs ++ ys) ≡ map to_float xs ++ map to_float ys
  map-append [] ys = refl
  map-append (x ∷ xs) ys = ap (λ l. to_float x ∷ l) (map-append xs ys)

  pub floats-more :
      (b : BufferData Sample) (pos a c : ℕ)
      → floats pos (a + c) b ≡ floats pos a b ++ floats (pos + a) c b
  floats-more b pos a c =
      ap (map to_float) (slice_more silence chunk_size b pos a c)
      ∙ map-append (slice silence chunk_size pos a b) (slice silence chunk_size (pos + a) c b)

  pub floats-none : (b : BufferData Sample) (pos : ℕ) → floats pos 0 b ≡ []
  floats-none b pos = ap (map to_float) (slice-none silence chunk_size b pos)

  last_round :
      (rounds wf pos count written got : ℕ) (out : List fl.Real) (copied : List Sample)
      (r r₁ : BufferReader Sample)
      → written < count
      → read_frames silence chunk_size (pos + written) (min (count - written) wf) r
        ≡ some (got, (copied, r₁))
      → mul_size got r₁.channels < 2 ^ 32
      → got < min (count - written) wf
      → float_loop (suc rounds) wf pos count written out r
        ≡ some (written + got, (out ++ map to_float copied, r₁))
  unfolding float_loop float_round
  last_round rounds wf pos count written got out copied r r₁ more e fits short =
      rw (lt→ltb written count more) (
        rw (e, float_round)
          (rw (lt→ltb (mul_size got r₁.channels) (2 ^ 32) fits)
            (rw (lt→ltb got (min (count - written) wf) short) refl)))

  full_round :
      (rounds wf pos count written got : ℕ) (out : List fl.Real) (copied : List Sample)
      (r r₁ : BufferReader Sample)
      → written < count
      → read_frames silence chunk_size (pos + written) (min (count - written) wf) r
        ≡ some (got, (copied, r₁))
      → mul_size got r₁.channels < 2 ^ 32
      → min (count - written) wf ≤ got
      → float_loop (suc rounds) wf pos count written out r
        ≡ float_loop rounds wf pos count (written + got) (out ++ map to_float copied) r₁
  unfolding float_loop float_round
  full_round rounds wf pos count written got out copied r r₁ more e fits full =
      rw (lt→ltb written count more) (
        rw (e, float_round)
          (rw (lt→ltb (mul_size got r₁.channels) (2 ^ 32) fits)
            (rw (ltb_ge got (min (count - written) wf) full) refl)))

  float_loop-reads :
      (rounds workspace_frames pos count written : ℕ) (out : List fl.Real) (r : BufferReader Sample)
      → IsValid silence chunk_size r.buffer
      → Agrees silence chunk_size r
      → 0 < workspace_frames
      → workspace_frames * r.buffer.channels < 2 ^ 32
      → count - written < rounds
      → (r' : BufferReader Sample) × (r'.buffer ≡ r.buffer)
        × Agrees silence chunk_size r'
        × (float_loop rounds workspace_frames pos count written out r
            ≡ some (
              written + min (r.buffer.length - (pos + written)) (count - written),
              (
                out
                    ++ floats
                        (pos + written)
                        (min (r.buffer.length - (pos + written)) (count - written))
                        r.buffer,
                r',
              ),
            ))
  unfolding float_loop float_round
  float_loop-reads zero wf pos count written out r v ok h₁ h₂ h₃ = absurd (omega arith)
  float_loop-reads (suc rounds) wf pos count written out r v ok h₁ h₂ h₃ =
      let L : ℕ = r.buffer.length in
      let requested : ℕ = min (count - written) wf in
      let got : ℕ = min (L - (pos + written)) requested in
      let all : ℕ = min (L - (pos + written)) (count - written) in
      elim (dec_lt written count) [
        | no done ↦
            let nothing : all ≡ 0 = omega (arith, done) in
            (
              r,
              refl,
              ok,
              rw (ltb_ge written count (omega (arith, done))) (
                  ap₂ (λ w l. some (w, (l, r))) (omega (arith, done))
                    (sym (append-nil out)
                      ∙ ap (λ l. out ++ l)
                          (sym (floats-none r.buffer (pos + written))
                            ∙ ap (λ k. floats (pos + written) k r.buffer) (sym nothing)))),
            )
        | yes more ↦
            let (r₁, same, agrees, e) =
              read_frames-stays silence chunk_size (pos + written) requested r v ok in
            let fits = copy_fits wf got r r₁ same agrees.0 (omega arith) h₂ in
            elim (dec_lt got requested) [
              | yes short ↦
                  let last : got ≡ all = omega (arith, short) in
                  (
                    r₁,
                    same,
                    agrees,
                    last_round rounds wf pos count written got out _ r r₁ more e fits short
                        ∙ ap
                            (λ k.
                              some (written + k, (out ++ floats (pos + written) k r.buffer, r₁)))
                            last,
                  )
              | no enough ↦
                  let (r', same', agrees', f) =
                    float_loop-reads rounds wf pos count (written + got)
                      (out ++ floats (pos + written) got r.buffer) r₁
                      (subst (IsValid silence chunk_size) (sym same) v) agrees h₁
                      (subst (λ (b : BufferData Sample). wf * b.channels < 2 ^ 32) (sym same) h₂)
                      (omega (arith, enough)) in
                  let rest : ℕ = min (L - (pos + (written + got))) (count - (written + got)) in
                  let sum : all ≡ got + rest = omega (arith, enough) in
                  let count_sum : written + got + rest ≡ written + all = omega (arith, sum) in
                  let next : pos + (written + got) ≡ pos + written + got = omega arith in
                  let appended : (out ++ floats (pos + written) got r.buffer)
                        ++ floats (pos + (written + got)) rest r.buffer
                      ≡ out ++ floats (pos + written) all r.buffer =
                    append_assoc out (floats (pos + written) got r.buffer)
                      (floats (pos + (written + got)) rest r.buffer)
                    ∙ ap
                        (λ k.
                          out ++ (floats (pos + written) got r.buffer ++ floats k rest r.buffer))
                        next
                    ∙ ap (λ l. out ++ l) (sym (floats-more r.buffer (pos + written) got rest))
                    ∙ ap (λ k. out ++ floats (pos + written) k r.buffer) (sym sum) in
                  (
                    r',
                    same' ∙ same,
                    agrees',
                    full_round rounds wf pos count written got out _ r r₁ more e fits
                          (omega (arith, enough))
                        ∙ subst
                            (λ b.
                              float_loop rounds wf pos count (written + got)
                                (out ++ floats (pos + written) got r.buffer) r₁
                              ≡ some (
                                written
                                    + got
                                    + min (b.length - (pos + (written + got)))
                                        (count - (written + got)),
                                (
                                  (out ++ floats (pos + written) got r.buffer)
                                      ++ floats (pos + (written + got))
                                          (min (b.length - (pos + (written + got)))
                                            (count - (written + got)))
                                          b,
                                  r',
                                ),
                              ))
                            same f
                        ∙ ap₂ (λ k l. some (k, (l, r'))) count_sum appended,
                  )
            ]
      ]

  -- In a valid buffer with 1 to 15 channels, readFrames gives for every frame and count, and with
  -- any workspace of fewer than 2^32 elements or none, the floats of the frames from there on, as
  -- many as were asked for or are left, and leaves a reader of the same buffer.
  pub read_float_frames-eq-slice :
      (workspace_len : ℕ) (is_null : Bool) (pos count : ℕ) (r : BufferReader Sample)
      → IsValid silence chunk_size r.buffer
      → Agrees silence chunk_size r
      → 0 < r.channels
      → r.channels < max_channels
      → workspace_len < 2 ^ 32
      → (r' : BufferReader Sample) × (r'.buffer ≡ r.buffer)
        × Agrees silence chunk_size r'
        × (read_float_frames workspace_len is_null pos count r
            ≡ some (
              min (r.buffer.length - pos) count,
              (floats pos (min (r.buffer.length - pos) count) r.buffer, r'),
            ))
  unfolding read_float_frames
  read_float_frames-eq-slice workspace_len is_null pos count r v ok h₁ h₂ h₃ =
      let wf : ℕ = used_workspace workspace_len is_null r.channels / r.channels in
      let (r', same, agrees, e) =
        float_loop-reads (count + 1) wf pos count 0 [] r v ok
          (workspace_frames_pos workspace_len is_null r.channels h₁ h₂ h₃)
          (subst (λ c. wf * c < 2 ^ 32) ok.0
            (workspace_frames_fit workspace_len is_null r.channels h₁ h₃))
          (omega arith) in
      let start : pos + 0 ≡ pos = omega arith in
      let whole : min (r.buffer.length - (pos + 0)) (count - 0)
          ≡ min (r.buffer.length - pos) count =
        omega arith in
      (
        r',
        same,
        agrees,
        e
            ∙ ap₂ (λ k l. some (k, (l, r'))) (omega arith)
                (ap₂ (λ k n. floats k n r.buffer) start whole),
      )
