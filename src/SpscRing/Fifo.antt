-- ===== src/SpscRing/Fifo.antt =====
-- include/synthizer/spsc_ring.hpp: the ring is a queue of the elements written and not yet read.
use native.Mathlib.Nat.{mod-add-mod}
use synthizer.Base.{
  ℕ, ◌+◌, ◌-◌, ◌%◌, ◌≤◌, ◌<◌, ◌≡◌, ◌≢◌, refl, ap, ap₂, sym, ◌∙◌, subst, Bool, true, false, ◌||◌,
  ◌&&◌, not, ◌⊎◌, ◌↔◌, dec_lt, lt→ltb, ltb_ge, some, List, [], ◌∷◌, ◌++◌, arith, length, ltb, leb,
  ◌==◌, take, drop, if◌then◌else◌, All, inl, inr, Bool-cases,
}
use synthizer.SpscRing.{
  Ring, Segments, no_segments, aborted, waiting, granted, size, split_segments, begin_write_loop,
  begin_write, end_write, begin_read, end_read,
}
use synthizer.SpscRing.Window.{fill, mod_ne}
use synthizer.SpscRing.Invariant.{
  IsValid, WriterSees, committed, released, filled-IsValid, begin_write-IsValid, sub_size_exact,
  end_write-eq, end_read-eq,
}
use synthizer.SpscRing.Split.{read_segments, write_segments, write_split}
use synthizer.SpscRing.Contents.{
  contents, contents-fill, contents-committed, contents-released, granted_write, begin_write_inner,
  window_prefix, read_prefix,
}

module _ {ℓ} {A : Type ℓ} where
  loop_waits :
      (loads : List ℕ) (requested : ℕ) (max_available : Bool) (r : Ring A)
      → IsValid r
      → All (WriterSees r) loads
      → (begin_write_loop loads requested max_available r ≡ waiting)
        ↔ All (λ loaded. size r < loaded + requested) loads
  unfolding begin_write_loop
  loop_waits [] requested max_available r v sees = (λ _. tt, λ _. refl)
  loop_waits (loaded ∷ loads) requested max_available r v sees =
      let after = record r { read_end_event = false } in
      let v' : IsValid after = omega arith in
      let exact = sub_size_exact (size r) loaded sees.0.1 (omega arith) in
      let ih = loop_waits loads requested max_available after v' sees.1 in
      elim (dec_lt (size r - loaded) requested) [
        | yes short ↦
            rw (exact, begin_write_loop, lt→ltb (size r - loaded) requested short)
              (λ e. (omega arith, ih.0 e), λ h. ih.1 h.1)
        | no room ↦
            rw (exact, begin_write_loop, ltb_ge (size r - loaded) requested (omega arith))
              (λ e. cc, λ h. absurd (omega arith))
      ]

  -- From a valid ring: once beginWrite has granted segments, a client that writes `vs` through the
  -- two pointers and commits any `amount` of them succeeds, and the ring then holds what it held
  -- before followed by the first `amount` elements of `vs`. The sample counts that the writer
  -- loaded may be stale.
  pub write_appends :
      (loads : List ℕ) (requested amount : ℕ) (max_available : Bool) (r r' : Ring A)
      (seg : Segments) (vs : List A)
      → IsValid r
      → All (WriterSees r) loads
      → begin_write loads requested max_available r ≡ granted seg r'
      → length vs ≡ r'.pending_write_size
      → amount ≤ length vs
      → (r'' : Ring A) × (end_write amount
            (record r' { data_provider = write_segments r'.data_provider seg vs })
          ≡ some r'')
        × (contents r'' ≡ contents r ++ take amount vs)
  write_appends loads requested amount max_available r r' seg vs v sees e h₁ h₂ =
      let v' = begin_write-IsValid loads requested max_available r r' seg v sees e in
      let inner = begin_write_inner loads requested max_available r r' seg e in
      let (split, fits, kept) = granted_write loads requested max_available r r' seg v sees inner in
      let xs = r'.data_provider in
      let w = r'.write_pointer in
      let written : write_segments xs seg vs ≡ fill xs w vs =
        ap (λ t. write_segments xs t vs) split
        ∙ write_split xs w r'.pending_write_size vs v'.write_in v'.limit h₁ (omega arith) in
      let filled : Ring A = record r' { data_provider = fill xs w vs } in
      let valid : IsValid filled = filled-IsValid vs r' v' in
      (
        committed amount filled,
        ap (λ t. end_write amount (record r' { data_provider = t })) written
            ∙ end_write-eq amount filled valid (omega arith),
        contents-committed filled amount valid
            ∙ ap₂ ◌++◌ (contents-fill r' vs v' (omega arith) ∙ kept)
                (window_prefix xs w vs amount v'.nonempty (omega arith) h₂),
      )

  -- A read that passes the assertions either sees too few samples or reserves the oldest.
  begin_read_granted :
      (loaded requested : ℕ) (max_available : Bool) (r r' : Ring A) (seg : Segments)
      → begin_read loaded requested max_available r ≡ granted seg r'
      → (loaded == 0 || ltb loaded requested && not max_available) ≡ false
      → (seg ≡ split_segments (size r) r.read_pointer (if max_available then loaded else requested))
        × (r' ≡ record r { pending_read_size = if max_available then loaded else requested })
        × (max_available || not (requested == 0)) ≡ true
  unfolding begin_read
  begin_read_granted loaded requested max_available r r' seg e enough =
      elim (Bool-cases ((max_available || not (requested == 0)) && leb requested (size r))) [
        | inl good ↦
            let n : ℕ = if max_available then loaded else requested in
            let e' : granted (split_segments (size r) r.read_pointer n)
                  (record r { pending_read_size = n })
                ≡ granted seg r' =
              rw (good, begin_read, enough) at e in
            (cc e', cc e', ground arith)
        | inr bad ↦ let e' : aborted ≡ granted seg r' = rw (bad, begin_read) at e in cc e'
      ]

  begin_read_refused :
      (loaded requested : ℕ) (max_available : Bool) (r r' : Ring A) (seg : Segments)
      → begin_read loaded requested max_available r ≡ granted seg r'
      → (loaded == 0 || ltb loaded requested && not max_available) ≡ true
      → (seg ≡ no_segments) × (r' ≡ r)
  unfolding begin_read
  begin_read_refused loaded requested max_available r r' seg e few =
      elim (Bool-cases ((max_available || not (requested == 0)) && leb requested (size r))) [
        | inl good ↦
            let e' : granted no_segments r ≡ granted seg r' = rw (good, begin_read, few) at e in
            (cc e', cc e')
        | inr bad ↦ let e' : aborted ≡ granted seg r' = rw (bad, begin_read) at e in cc e'
      ]

  -- From a valid ring, a read that sees no more samples than there are either returns no segments
  -- and changes nothing, having seen none or fewer than a strict request, or returns through its
  -- two pointers the oldest elements of the ring, as many as it reserved: all it sees for a greedy
  -- request, else what was requested. The second happens only where it has seen some, and no fewer
  -- than a strict request.
  pub read_oldest :
      (loaded requested : ℕ) (max_available : Bool) (r r' : Ring A) (seg : Segments)
      → IsValid r
      → loaded ≤ r.samples_in_buffer
      → begin_read loaded requested max_available r ≡ granted seg r'
      → ((loaded ≡ 0) ⊎ (loaded < requested) × (max_available ≡ false))
          × (seg ≡ no_segments)
          × (r' ≡ r)
        ⊎ (read_segments r.data_provider seg ≡ take r'.pending_read_size (contents r))
          × (r'.pending_read_size ≡ (if max_available then loaded else requested))
          × (0 < r'.pending_read_size)
          × (contents r' ≡ contents r)
          × (0 < loaded)
          × (max_available || leb requested loaded) ≡ true
  read_oldest loaded requested max_available r r' seg v h e =
      elim (Bool-cases (loaded == 0 || ltb loaded requested && not max_available)) [
        | inl few ↦
            let (no_seg, same) = begin_read_refused loaded requested max_available r r' seg e few in
            inl (ground arith, no_seg, same)
        | inr enough ↦
            let (split, after, checked) =
              begin_read_granted loaded requested max_available r r' seg e enough in
            let n : ℕ = if max_available then loaded else requested in
            let n' : r'.pending_read_size ≡ n = ap (λ (t : Ring A). t.pending_read_size) after in
            let bounds : (n ≤ r.samples_in_buffer) × (0 < n) = (ground arith, ground arith) in
            inr (
              ap (read_segments r.data_provider) split
                  ∙ read_prefix r n v bounds.0
                  ∙ ap (λ t. take t (contents r)) (sym n'),
              n',
              subst (λ t. 0 < t) (sym n') bounds.1,
              ap contents after,
              ground arith,
              ground arith,
            )
      ]

  -- In a valid ring, committing a read of any part of what is pending succeeds and removes exactly
  -- that many of the oldest elements; the writer's event is signalled.
  pub read_removes :
      (amount : ℕ) (r : Ring A)
      → IsValid r
      → amount ≤ r.pending_read_size
      → (r' : Ring A) × (end_read amount r ≡ some r')
        × (contents r' ≡ drop amount (contents r))
        × (r'.read_end_event ≡ true)
  read_removes amount r v h =
      (released amount r, end_read-eq amount r v h, contents-released r amount v h, refl)

  -- In a valid ring, no element that the writer may be writing is one that the reader may be reading.
  pub pending_disjoint :
      (r : Ring A) (i j : ℕ)
      → IsValid r
      → i < r.pending_write_size
      → j < r.pending_read_size
      → (r.write_pointer + i) % size r ≢ (r.read_pointer + j) % size r
  pending_disjoint r i j v hi hj e =
      let k = r.samples_in_buffer + i - j in
      let same : r.read_pointer + j + k ≡ r.read_pointer + r.samples_in_buffer + i = omega arith in
      mod_ne (r.read_pointer + j) k (size r) (omega arith) (omega arith) (
        ap (λ t. t % size r) same
        ∙ sym (mod-add-mod (r.read_pointer + r.samples_in_buffer) (size r) i)
        ∙ ap (λ t. (t + i) % size r) (sym v.meets)
        ∙ e)

  -- For a request that passes the assertions on a valid ring, the writer still waits after some
  -- loads exactly when each of them showed too little room: one load that shows enough ends the wait.
  pub begin_write_waits :
      (loads : List ℕ) (requested : ℕ) (max_available : Bool) (r : Ring A)
      → IsValid r
      → All (WriterSees r) loads
      → 0 < requested
      → requested ≤ size r
      → (begin_write loads requested max_available r ≡ waiting)
        ↔ All (λ loaded. size r < loaded + requested) loads
  unfolding begin_write
  begin_write_waits loads requested max_available r v sees h₁ h₂ =
      let checked : ((max_available || not (requested == 0)) && leb requested (size r)) ≡ true =
        ground arith in
      rw (checked, begin_write) (loop_waits loads requested max_available r v sees)
