-- ===== src/MpscRing/Tests.antt =====
-- Runs of the ring of two cells.
use synthizer.Base.{
  ℕ, ◌+◌, ◌%◌, ◌<◌, ◌≤◌, ◌≡◌, ◌⊎◌, refl, false, some, [], ◌∷◌, arith, dec_lt, get_elem?, ap,
}
use synthizer.MpscRing.{
  empty, ready, MpscRingEntry, MpscRing, full, written, write, process_all, mpsc_ring,
}
use synthizer.MpscRing.Queue.{Holds, write-appends}
use synthizer.MpscRing.Drain.{process_all-drains, write-old_index}

abbrev free_cell : MpscRingEntry ℕ
free_cell = record { value = 0; state = empty }

-- The cells' values are those of an earlier turn.
abbrev drained : MpscRing ℕ
drained = record { ring = free_cell ∷ free_cell ∷ []; reader_index = 2; writer_index = 2 }

abbrev holding : MpscRing ℕ
holding = record {
  ring = record { value = 7; state = ready } ∷ free_cell ∷ [];
  reader_index = 2;
  writer_index = 3;
}

mpsc_ring_run :
    mpsc_ring 2 0 ≡ record { ring = free_cell ∷ free_cell ∷ []; reader_index = 0; writer_index = 0 }
unfolding mpsc_ring
mpsc_ring_run = refl

drained_free :
    (i : ℕ)
    → 2 ≤ i
    → i < 4
    → (cell : MpscRingEntry ℕ) × (get_elem? drained.ring (i % 2) ≡ some cell) × (cell.state ≡ empty)
drained_free i h₁ h₂ = elim (dec_lt i 3) [
  | yes second ↦
      let at : i % 2 ≡ 0 = omega arith in (free_cell, ap (get_elem? drained.ring) at, refl)
  | no third ↦ let at : i % 2 ≡ 1 = omega arith in (free_cell, ap (get_elem? drained.ring) at, refl)
]

drained-Holds : Holds drained []
drained-Holds = record {
  nonempty = omega arith;
  limit = omega arith;
  count = refl;
  fits = omega arith;
  stand = tt;
  free = drained_free;
}

holding_free :
    (i : ℕ)
    → 3 ≤ i
    → i < 4
    → (cell : MpscRingEntry ℕ) × (get_elem? holding.ring (i % 2) ≡ some cell) × (cell.state ≡ empty)
holding_free i h₁ h₂ =
    let at : i % 2 ≡ 1 = omega arith in (free_cell, ap (get_elem? holding.ring) at, refl)

holding-Holds : Holds holding (7 ∷ [])
holding-Holds = record {
  nonempty = omega arith;
  limit = omega arith;
  count = refl;
  fits = omega arith;
  stand = (refl, tt);
  free = holding_free;
}

write-appends_example :
    ((3 < 2 + 2)
      × ((m' : MpscRing ℕ) × (write ((2, 3) ∷ []) 9 holding ≡ written m') × Holds m' (7 ∷ 9 ∷ [])))
    ⊎ ((2 + 2 ≤ 3) × (write ((2, 3) ∷ []) 9 holding ≡ full))
write-appends_example =
    write-appends holding (7 ∷ []) 9 2 [] holding-Holds (omega arith) (omega arith)

process_all-drains_example :
    ((process_all (λ v. false) holding).1 ≡ 7 ∷ []) × Holds (process_all (λ v. false) holding).0 []
process_all-drains_example = process_all-drains (λ v. false) holding (7 ∷ []) holding-Holds

write-old_index_example :
    (m' : MpscRing ℕ) × (write ((1, 1) ∷ []) 9 drained ≡ written m')
    × (process_all (λ v. false) m' ≡ (m', []))
write-old_index_example =
    write-old_index (λ v. false) drained 9 1 [] drained-Holds (omega arith) (omega arith)
      (omega arith) (omega arith)
