-- ===== src/SpscRing/Tests.antt =====
-- Runs of the single producer, single consumer ring.
use synthizer.Base.{
  ℕ, ◌<◌, ◌≡◌, ◌⊎◌, refl, true, false, none, some, [], ◌∷◌, ◌++◌, arith, take, if◌then◌else◌, leb,
  ◌||◌,
}
use synthizer.SpscRing.{
  Ring, Segments, no_segments, begin_write, end_write, begin_read, allocated_spsc_ring,
}
use synthizer.SpscRing.Invariant.{
  IsValid, writer_begins, here, next, allocated_spsc_ring-Reach-IsValid,
}
use synthizer.SpscRing.Split.{read_segments, write_segments}
use synthizer.SpscRing.Contents.{contents}
use synthizer.SpscRing.Fifo.{write_appends, read_oldest}

abbrev fresh : Ring ℕ
fresh = record {
  data_provider = 0 ∷ 0 ∷ 0 ∷ 0 ∷ [];
  write_pointer = 0;
  read_pointer = 0;
  samples_in_buffer = 0;
  pending_write_size = 0;
  pending_read_size = 0;
  read_end_event = false;
}

-- Two samples are stored at the end of the data and one may be written after them.
abbrev wrapped : Ring ℕ
wrapped = record {
  data_provider = 9 ∷ 0 ∷ 7 ∷ 8 ∷ [];
  write_pointer = 1;
  read_pointer = 2;
  samples_in_buffer = 3;
  pending_write_size = 1;
  pending_read_size = 2;
  read_end_event = false;
}

wrapped-contents : contents wrapped ≡ 7 ∷ 8 ∷ 9 ∷ []
wrapped-contents = refl

abbrev wrapped_write : Segments
wrapped_write = record { size1 = 2; ptr1 = some 3; size2 = 1; ptr2 = some 0 }

-- Its read pointer is 3, so three more elements go to two segments.
abbrev turning : Ring ℕ
turning = record fresh { write_pointer = 3; read_pointer = 2; samples_in_buffer = 1 }

allocated_spsc_ring-Reach-IsValid_example : IsValid (record fresh { pending_write_size = 2 })
unfolding begin_write allocated_spsc_ring
allocated_spsc_ring-Reach-IsValid_example =
    allocated_spsc_ring-Reach-IsValid 0 4 fresh (record fresh { pending_write_size = 2 })
      (omega arith) refl
      (next here (
        writer_begins {seg = record { size1 = 2; ptr1 = some 0; size2 = 0; ptr2 = none }} (0 ∷ []) 2
          false (omega arith) refl))

write_appends_example :
    (r' : Ring ℕ) × (end_write 2 (record turning {
      pending_write_size = 3;
      data_provider =
          write_segments turning.data_provider
            (record { size1 = 1; ptr1 = some 3; size2 = 2; ptr2 = some 0 })
            (4 ∷ 5 ∷ 6 ∷ []);
    })
      ≡ some r')
    × (contents r' ≡ contents turning ++ take 2 (4 ∷ 5 ∷ 6 ∷ []))
unfolding begin_write
write_appends_example =
    write_appends (2 ∷ 1 ∷ []) 3 2 false turning (record turning { pending_write_size = 3 })
      (record { size1 = 1; ptr1 = some 3; size2 = 2; ptr2 = some 0 }) (4 ∷ 5 ∷ 6 ∷ []) (omega arith)
      (omega arith) refl refl (omega arith)

read_oldest_example :
    ((◌≡◌ {A = ℕ} 3 0) ⊎ (3 < 3) × (◌≡◌ {A = _} false false))
      × (record { size1 = 2; ptr1 = some 2; size2 = 1; ptr2 = some 0 } ≡ no_segments)
      × (record wrapped { pending_read_size = 3 } ≡ wrapped)
    ⊎ (read_segments wrapped.data_provider
          (record { size1 = 2; ptr1 = some 2; size2 = 1; ptr2 = some 0 })
        ≡ take 3 (contents wrapped))
      × (◌≡◌ {A = ℕ} 3 (if false then 3 else 3))
      × (0 < 3)
      × (contents (record wrapped { pending_read_size = 3 }) ≡ contents wrapped)
      × (0 < 3)
      × (false || leb 3 3) ≡ true
unfolding begin_read
read_oldest_example =
    read_oldest 3 3 false wrapped (record wrapped { pending_read_size = 3 })
      (record { size1 = 2; ptr1 = some 2; size2 = 1; ptr2 = some 0 }) (omega arith) (omega arith)
      refl
