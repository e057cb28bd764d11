-- ===== src/MpscRing/Queue.antt =====
-- The ring of include/synthizer/mpsc_ring.hpp as a queue.
use native.Mathlib.Nat.{mod-lt}
use synthizer.Base.{
  ℕ, suc, ◌+◌, ◌-◌, ◌%◌, ◌^◌, ◌<◌, ◌≤◌, ◌≡◌, ◌≢◌, refl, ap, sym, subst, ◌∙◌, inl, inr, some, List,
  [], ◌∷◌, ◌++◌, length, get_elem?, set, arith, length-set, get_elem?-set_self, get_elem?-set_ne,
  length-append, ◌⊎◌, dec_lt, leb_lt, le→leb,
}
use synthizer.SpscRing.{add_size, sub_size}
use synthizer.SpscRing.Window.{mod_ne}
use synthizer.MpscRing.{
  empty, ready, MpscRingEntry, MpscRing, full, written, capacity, fill_cell, write,
}

pub other_cell : (n i k : ℕ) → i < k → k < i + n → k % n ≢ i % n
other_cell n i k h₁ h₂ e =
    let apart : k ≡ i + (k - i) = omega (arith, h₁) in
    mod_ne i (k - i) n (omega (arith, h₁)) (omega (arith, h₁, h₂))
      (subst (λ t. t % n ≡ i % n) apart e)

module _ {Value : Type 0} where
  -- The values of `q` stand ready in the cells from index `i` on.
  abbrev pub Stand : ℕ → List (MpscRingEntry Value) → ℕ → List Value → Type 0
  Stand n cells i [] = Unit
  Stand n cells i (v ∷ q) =
      (get_elem? cells (i % n) ≡ some (record { value = v; state = ready }))
      × Stand n cells (i + 1) q

  -- The ring holds the queue `q`, oldest first: its values stand ready between the reader's and the
  -- writer's index, and the cells after them are empty.
  pub record Holds (m : MpscRing Value) (q : List Value) : Type 0 where
    pub nonempty : 0 < capacity m
    pub limit : m.writer_index + capacity m < 2 ^ 64
    pub count : m.reader_index + length q ≡ m.writer_index
    pub fits : length q ≤ capacity m
    pub stand : Stand (capacity m) m.ring m.reader_index q
    pub free :
        (i : ℕ)
        → m.writer_index ≤ i
        → i < m.reader_index + capacity m
        → (cell : MpscRingEntry Value) × (get_elem? m.ring (i % capacity m) ≡ some cell)
          × (cell.state ≡ empty)

  -- A write to a cell behind the values or after them leaves them standing.
  Stand-set_after :
      (n : ℕ) (cells : List (MpscRingEntry Value)) (i k : ℕ) (q : List Value)
      (c : MpscRingEntry Value)
      → i + length q ≤ k
      → k < i + n
      → Stand n cells i q
      → Stand n (set cells (k % n) c) i q
  Stand-set_after n cells i k [] c h₁ h₂ s = tt
  Stand-set_after n cells i k (v ∷ q) c h₁ h₂ s = (
    get_elem?-set_ne cells c (other_cell n i k (omega (arith, h₁)) h₂) ∙ s.0,
    Stand-set_after n cells (i + 1) k q c (omega (arith, h₁)) (omega (arith, h₂)) s.1,
  )

  pub Stand-set_before :
      (n : ℕ) (cells : List (MpscRingEntry Value)) (i k : ℕ) (q : List Value)
      (c : MpscRingEntry Value)
      → k < i
      → i + length q ≤ k + n
      → Stand n cells i q
      → Stand n (set cells (k % n) c) i q
  Stand-set_before n cells i k [] c h₁ h₂ s = tt
  Stand-set_before n cells i k (v ∷ q) c h₁ h₂ s = (
    get_elem?-set_ne cells c (λ e. other_cell n k i h₁ (omega (arith, h₂)) (sym e)) ∙ s.0,
    Stand-set_before n cells (i + 1) k q c (omega (arith, h₁)) (omega (arith, h₂)) s.1,
  )

  Stand-append :
      (n : ℕ) (cells : List (MpscRingEntry Value)) (i : ℕ) (q : List Value) (v : Value)
      → Stand n cells i q
      → get_elem? cells ((i + length q) % n) ≡ some (record { value = v; state = ready })
      → Stand n cells i (q ++ (v ∷ []))
  Stand-append n cells i [] v s e =
      let start : i + 0 ≡ i = omega arith in
      (
        subst (λ k. get_elem? cells (k % n) ≡ some (record { value = v; state = ready })) start e,
        tt,
      )
  Stand-append n cells i (x ∷ q) v s e =
      let next : i + suc (length q) ≡ i + 1 + length q = omega arith in
      (
        s.0,
        Stand-append n cells (i + 1) q v s.1 (
            subst (λ k. get_elem? cells (k % n) ≡ some (record { value = v; state = ready })) next
              e),
      )

  -- Filling the cell at the writer's index puts the value at the end of the queue.
  fill_cell-Holds :
      (m : MpscRing Value) (q : List Value) (v : Value)
      → Holds m q
      → length q < capacity m
      → m.writer_index + 1 + capacity m < 2 ^ 64
      → Holds (fill_cell (m.writer_index % capacity m) v m) (q ++ (v ∷ []))
  unfolding fill_cell
  fill_cell-Holds m q v h room limit =
      let n = capacity m in
      let c : MpscRingEntry Value = record { value = v; state = ready } in
      let cells = set m.ring (m.writer_index % n) c in
      let same : length cells ≡ n = length-set m.ring (m.writer_index % n) c in
      let counted : add_size m.writer_index 1 ≡ m.writer_index + 1 = omega (arith, limit) in
      let longer = length-append q (v ∷ []) in
      let moved : m.reader_index + length q ≡ m.writer_index = h.count in
      record {
        nonempty = omega (arith, h.nonempty, same);
        limit = omega (arith, same, counted, limit);
        count = omega (arith, longer, counted, moved);
        fits = omega (arith, longer, same, room);
        stand =
            subst (λ k. Stand k cells m.reader_index (q ++ (v ∷ []))) (sym same)
              (Stand-append n cells m.reader_index q v
                (Stand-set_after n m.ring m.reader_index m.writer_index q c (omega (arith, moved))
                  (omega (arith, moved, room)) h.stand)
                (ap (λ k. get_elem? cells (k % n)) moved
                  ∙ get_elem?-set_self m.ring (m.writer_index % n) c
                      (mod-lt m.writer_index h.nonempty)));
        free = λ i below above.
            let old = h.free i (omega (arith, below, counted)) (omega (arith, above, same)) in
            (
              old.0,
              ap (λ k. get_elem? cells (i % k)) same
                  ∙ get_elem?-set_ne m.ring c (λ e.
                    other_cell n m.writer_index i (omega (arith, below, counted))
                      (omega (arith, above, same, moved)) (sym e))
                  ∙ old.1,
              old.2,
            );
      }

  -- A write whose loads are not old puts its value at the end of the queue exactly if there is room,
  -- and otherwise returns false. An old reader's index can make the ring look full when it is not.
  pub write-appends :
      (m : MpscRing Value) (q : List Value) (v : Value) (start : ℕ) (loads : List (ℕ × ℕ))
      → Holds m q
      → start ≤ m.reader_index
      → m.writer_index + 1 + capacity m < 2 ^ 64
      → ((m.writer_index < start + capacity m)
          × ((m' : MpscRing Value) × (write ((start, m.writer_index) ∷ loads) v m ≡ written m')
              × Holds m' (q ++ (v ∷ []))))
        ⊎ ((start + capacity m ≤ m.writer_index)
            × (write ((start, m.writer_index) ∷ loads) v m ≡ full))
  unfolding write
  write-appends m q v start loads h old limit =
      let dist : sub_size m.writer_index start ≡ m.writer_index - start =
        omega (arith, old, limit, h.count) in
      elim (dec_lt m.writer_index (start + capacity m)) [
        | yes room ↦
            let cell = h.free m.writer_index (omega arith) (omega (arith, room, old)) in
            inl (
              room,
              (
                fill_cell (m.writer_index % capacity m) v m,
                rw
                    (
                      leb_lt (capacity m) (sub_size m.writer_index start)
                          (omega (arith, dist, room, h.nonempty, old, h.count)),
                      write,
                    )
                    (rw cell.1 (rw cell.2 refl)),
                fill_cell-Holds m q v h (omega (arith, room, old, h.count)) limit,
              ),
            )
        | no crowded ↦ inr (
          omega (arith, crowded),
          rw
              (
                le→leb (capacity m) (sub_size m.writer_index start) (omega (arith, dist, crowded)),
                write,
              )
              refl,
        )
      ]
