-- ===== src/MpscRing/Drain.antt =====
-- What processAll of include/synthizer/mpsc_ring.hpp hands over, and a write on an old index.
use native.Mathlib.Nat.{mod-lt, add-mod_right}
use synthizer.Base.{
  ℕ, zero, suc, ◌+◌, ◌-◌, ◌%◌, ◌<◌, ◌≤◌, ◌≡◌, refl, ap, sym, subst, ◌∙◌, inl, inr, Bool, some, List,
  [], ◌∷◌, length, get_elem?, set, if◌then◌else◌, arith, Bool-cases, length-set, get_elem?-set_self,
  get_elem?-set_ne, dec_lt, leb_lt,
}
use synthizer.SpscRing.{add_size, sub_size}
use synthizer.MpscRing.{
  empty, ready, MpscRingEntry, MpscRing, written, capacity, fill_cell, write, release_cell,
  process_loop, process_all,
}
use synthizer.MpscRing.Queue.{Stand, Holds, Stand-set_before, other_cell}

module _ {Value : Type 0} where
  release_cell-Holds :
      (m : MpscRing Value) (v : Value) (q : List Value)
      → Holds m (v ∷ q)
      → Holds (release_cell (m.reader_index % capacity m) (record { value = v; state = ready }) m) q
  unfolding release_cell
  release_cell-Holds m v q h =
      let n = capacity m in
      let r = m.reader_index in
      let c : MpscRingEntry Value = record { value = v; state = empty } in
      let cells = set m.ring (r % n) c in
      let same : length cells ≡ n = length-set m.ring (r % n) c in
      let moved : r + suc (length q) ≡ m.writer_index = h.count in
      let counted : add_size r 1 ≡ r + 1 = omega (arith, moved, h.limit) in
      record {
        nonempty = omega (arith, h.nonempty, same);
        limit = omega (arith, same, h.limit);
        count = omega (arith, counted, moved);
        fits = omega (arith, same, h.fits);
        stand =
            subst (λ k. Stand k cells (add_size r 1) q) (sym same)
              (subst (λ k. Stand n cells k q) (sym counted)
                (Stand-set_before n m.ring (r + 1) r q c (omega arith) (omega (arith, h.fits))
                  h.stand.1));
        free = λ i below above. elim (dec_lt i (r + n)) [
          | yes held ↦
              let old = h.free i below held in
              (
                old.0,
                ap (λ k. get_elem? cells (i % k)) same
                    ∙ get_elem?-set_ne m.ring c
                        (λ e. other_cell n r i (omega (arith, below, moved)) held (sym e))
                    ∙ old.1,
                old.2,
              )
          | no freed ↦
              let last : i ≡ r + n = omega (arith, freed, above, same, counted) in
              (
                c,
                ap (λ k. get_elem? cells (i % k)) same
                    ∙ ap (λ k. get_elem? cells (k % n)) last
                    ∙ ap (get_elem? cells) (add-mod_right r n)
                    ∙ get_elem?-set_self m.ring (r % n) c (mod-lt r h.nonempty),
                refl,
              )
        ];
      }

  -- The values handed over, up to the first that the callback throws on, and those left.
  abbrev pub delivered : (Value → Bool) → List Value → List Value
  delivered throws [] = []
  delivered throws (v ∷ q) = if throws v then v ∷ [] else v ∷ delivered throws q

  abbrev pub left_over : (Value → Bool) → List Value → List Value
  left_over throws [] = []
  left_over throws (v ∷ q) = if throws v then q else left_over throws q

  loop-drains :
      (throws : Value → Bool) (rounds : ℕ) (m : MpscRing Value) (q : List Value)
      → length q < rounds
      → Holds m q
      → ((process_loop throws rounds m).1 ≡ delivered throws q)
        × Holds (process_loop throws rounds m).0 (left_over throws q)
  unfolding process_loop
  loop-drains throws zero m q lt h = absurd (omega arith)
  loop-drains throws (suc rounds) m [] lt h =
      let cell = h.free m.reader_index (omega (arith, h.count)) (omega (arith, h.nonempty)) in
      rw (cell.1, process_loop) (rw cell.2 (refl, h))
  loop-drains throws (suc rounds) m (v ∷ q) lt h =
      let released = release_cell-Holds m v q h in
      let rest = loop-drains throws rounds _ q (omega arith) released in
      rw (h.stand.0, process_loop)
        (elim (Bool-cases (throws v)) [
          | inl t ↦ rw t (refl, released)
          | inr f ↦ rw f (ap (λ l. v ∷ l) rest.0, rest.1)
        ])

  -- processAll hands over every value of the queue, oldest first, up to and with the first that
  -- the callback throws on; these are gone from the ring, and the others stay in it in order.
  pub process_all-drains :
      (throws : Value → Bool) (m : MpscRing Value) (q : List Value)
      → Holds m q
      → ((process_all throws m).1 ≡ delivered throws q)
        × Holds (process_all throws m).0 (left_over throws q)
  unfolding process_all
  process_all-drains throws m q h =
      loop-drains throws (capacity m + 1) m q (omega (arith, h.fits)) h

  process_all-stops :
      (throws : Value → Bool) (m : MpscRing Value) (cell : MpscRingEntry Value)
      → get_elem? m.ring (m.reader_index % capacity m) ≡ some cell
      → cell.state ≡ empty
      → process_all throws m ≡ (m, [])
  unfolding process_all process_loop
  process_all-stops throws m cell e₁ e₂ =
      let one : capacity m + 1 ≡ suc (capacity m) = omega arith in
      ap (λ k. process_loop throws k m) one ∙ rw (e₁, process_loop) (rw e₂ refl)

  -- In a ring of two or more cells whose queue is empty, a writer that loaded the writer's index
  -- before the last value was written, and exchanges after that value was processed, takes the old
  -- cell: its write returns true, and processAll then hands over nothing.
  pub write-old_index :
      (throws : Value → Bool) (m : MpscRing Value) (v : Value) (start : ℕ) (loads : List (ℕ × ℕ))
      → Holds m []
      → 1 < capacity m
      → 0 < m.writer_index
      → start < m.writer_index
      → m.writer_index ≤ start + capacity m
      → (m' : MpscRing Value) × (write ((start, m.writer_index - 1) ∷ loads) v m ≡ written m')
        × (process_all throws m' ≡ (m', []))
  unfolding write fill_cell
  write-old_index throws m v start loads h two later old room =
      let n = capacity m in
      let end = m.writer_index - 1 in
      let at_writer : m.reader_index ≡ m.writer_index = omega (arith, h.count) in
      let dist : sub_size end start ≡ end - start = omega (arith, old, h.limit) in
      let turn : (end + n) % n ≡ end % n = add-mod_right end n in
      let cell = h.free (end + n) (omega (arith, two, later)) (omega (arith, at_writer, later)) in
      let c : MpscRingEntry Value = record { value = v; state = ready } in
      let here = h.free m.reader_index (omega (arith, at_writer)) (omega (arith, h.nonempty)) in
      let m' = fill_cell (end % n) v m in
      (
        m',
        rw (leb_lt n (sub_size end start) (omega (arith, dist, room, later, old)), write)
            (rw (sym (ap (get_elem? m.ring) turn) ∙ cell.1) (rw cell.2 refl)),
        process_all-stops throws m' here.0
            (ap (λ k. get_elem? (set m.ring (end % n) c) (m.reader_index % k))
                (length-set m.ring (end % n) c)
              ∙ get_elem?-set_ne m.ring c (λ e.
                other_cell n end m.reader_index (omega (arith, at_writer, later))
                  (omega (arith, at_writer, two, later)) (sym e))
              ∙ here.1)
            here.2,
      )
