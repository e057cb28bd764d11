-- ===== src/SpscRing/Invariant.antt =====
-- include/synthizer/spsc_ring.hpp: the invariant of the ring, kept by every call of either side.
use native.Mathlib.Nat.{mod-lt, mod-add-mod, add_assoc}
use synthizer.Base.{
  ℕ, ◌+◌, ◌-◌, ◌%◌, ◌^◌, ◌≤◌, ◌<◌, ◌≡◌, ap, sym, ◌∙◌, subst, Bool, true, false, some, List, [], ◌∷◌,
  arith, length, All, length-replicate, le→leb, some-injective, true,
}
use synthizer.SpscRing.{
  Ring, Segments, granted, size, add_size, sub_size, begin_write_loop, begin_write, end_write,
  begin_read, end_read, allocated_spsc_ring,
}
use synthizer.SpscRing.Window.{fill, length-fill}

add_size_exact : (a b : ℕ) → a + b < 2 ^ 64 → add_size a b ≡ a + b
add_size_exact a b h = omega arith

pub sub_size_exact : (a b : ℕ) → b ≤ a → a < 2 ^ 64 → sub_size a b ≡ a - b
sub_size_exact a b h₁ h₂ = omega arith

module _ {ℓ} {A : Type ℓ} where
  pub record IsValid (r : Ring A) : Type 0 where
    pub nonempty : 0 < size r
    pub limit : size r < 2 ^ 63
    pub write_in : r.write_pointer < size r
    pub read_in : r.read_pointer < size r
    pub meets : r.write_pointer ≡ (r.read_pointer + r.samples_in_buffer) % size r
    pub write_fits : r.samples_in_buffer + r.pending_write_size ≤ size r
    pub read_fits : r.pending_read_size ≤ r.samples_in_buffer

  -- What the writer may see of the sample count: only the reader lowers it, so a stale value is
  -- too high. The reader's stale value is too low.
  abbrev pub WriterSees : Ring A → ℕ → Type 0
  WriterSees r loaded = (r.samples_in_buffer ≤ loaded) × (loaded ≤ size r)

  -- A step of either thread. `writer_fills` is the client's write through the pointers.
  pub data Step : Ring A → Ring A → Type ℓ where
    writer_begins :
        {r r' : Ring A} {seg : Segments} (loads : List ℕ) (requested : ℕ) (max_available : Bool)
        → All (WriterSees r) loads
        → begin_write loads requested max_available r ≡ granted seg r'
        → Step r r'
    writer_fills :
        {r : Ring A} (vs : List A)
        → length vs ≤ r.pending_write_size
        → Step r (record r { data_provider = fill r.data_provider r.write_pointer vs })
    writer_ends : {r r' : Ring A} (amount : ℕ) → end_write amount r ≡ some r' → Step r r'
    reader_begins :
        {r r' : Ring A} {seg : Segments} (loaded requested : ℕ) (max_available : Bool)
        → loaded ≤ r.samples_in_buffer
        → begin_read loaded requested max_available r ≡ granted seg r'
        → Step r r'
    reader_ends : {r r' : Ring A} (amount : ℕ) → end_read amount r ≡ some r' → Step r r'

  pub data Reach (r : Ring A) : Ring A → Type ℓ where
    here : Reach r r
    next : {s t : Ring A} → Reach r s → Step s t → Reach r t

  -- The states after a commit, with no machine arithmetic left.
  abbrev pub committed : ℕ → Ring A → Ring A
  committed amount r = record r {
    write_pointer = (r.write_pointer + amount) % size r;
    pending_write_size = r.pending_write_size - amount;
    samples_in_buffer = r.samples_in_buffer + amount;
  }

  abbrev pub released : ℕ → Ring A → Ring A
  released amount r = record r {
    read_pointer = (r.read_pointer + amount) % size r;
    pending_read_size = r.pending_read_size - amount;
    samples_in_buffer = r.samples_in_buffer - amount;
    read_end_event = true;
  }

  pub end_write-eq :
      (amount : ℕ) (r : Ring A)
      → IsValid r
      → amount ≤ r.pending_write_size
      → end_write amount r ≡ some (committed amount r)
  unfolding end_write
  end_write-eq amount r v h = rw (
    le→leb amount r.pending_write_size h,
    add_size_exact r.write_pointer amount (omega arith),
    sub_size_exact r.pending_write_size amount h (omega arith),
    add_size_exact r.samples_in_buffer amount (omega arith),
  )

  pub end_read-eq :
      (amount : ℕ) (r : Ring A)
      → IsValid r
      → amount ≤ r.pending_read_size
      → end_read amount r ≡ some (released amount r)
  unfolding end_read
  end_read-eq amount r v h = rw (
    le→leb amount r.pending_read_size h,
    add_size_exact r.read_pointer amount (omega arith),
    sub_size_exact r.pending_read_size amount h (omega arith),
    sub_size_exact r.samples_in_buffer amount (omega arith) (omega arith),
  )

  committed-IsValid :
      (amount : ℕ) (r : Ring A)
      → IsValid r
      → amount ≤ r.pending_write_size
      → IsValid (committed amount r)
  committed-IsValid amount r v h = record {
    nonempty = v.nonempty;
    limit = v.limit;
    write_in = mod-lt (r.write_pointer + amount) v.nonempty;
    read_in = v.read_in;
    meets =
        ap (λ t. (t + amount) % size r) v.meets
        ∙ mod-add-mod (r.read_pointer + r.samples_in_buffer) (size r) amount
        ∙ ap (λ t. t % size r) (add_assoc r.read_pointer r.samples_in_buffer amount);
    write_fits = omega arith;
    read_fits = omega arith;
  }

  released-IsValid :
      (amount : ℕ) (r : Ring A)
      → IsValid r
      → amount ≤ r.pending_read_size
      → IsValid (released amount r)
  released-IsValid amount r v h =
      let regroup : r.read_pointer + r.samples_in_buffer
          ≡ r.read_pointer + amount + (r.samples_in_buffer - amount) =
        omega arith in
      record {
        nonempty = v.nonempty;
        limit = v.limit;
        write_in = v.write_in;
        read_in = mod-lt (r.read_pointer + amount) v.nonempty;
        meets =
            v.meets
            ∙ ap (λ t. t % size r) regroup
            ∙ sym (mod-add-mod (r.read_pointer + amount) (size r) (r.samples_in_buffer - amount));
        write_fits = omega arith;
        read_fits = omega arith;
      }

  -- A commit succeeds exactly within what is pending.
  end_write_within :
      (amount : ℕ) (r r' : Ring A) → end_write amount r ≡ some r' → amount ≤ r.pending_write_size
  unfolding end_write
  end_write_within amount r r' e = ground arith

  end_read_within :
      (amount : ℕ) (r r' : Ring A) → end_read amount r ≡ some r' → amount ≤ r.pending_read_size
  unfolding end_read
  end_read_within amount r r' e = ground arith

  end_write-IsValid :
      (amount : ℕ) (r r' : Ring A) → IsValid r → end_write amount r ≡ some r' → IsValid r'
  end_write-IsValid amount r r' v e =
      let h = end_write_within amount r r' e in
      subst IsValid (some-injective _ _ (sym (end_write-eq amount r v h) ∙ e))
        (committed-IsValid amount r v h)

  end_read-IsValid :
      (amount : ℕ) (r r' : Ring A) → IsValid r → end_read amount r ≡ some r' → IsValid r'
  end_read-IsValid amount r r' v e =
      let h = end_read_within amount r r' e in
      subst IsValid (some-injective _ _ (sym (end_read-eq amount r v h) ∙ e))
        (released-IsValid amount r v h)

  begin_read-IsValid :
      (loaded requested : ℕ) (max_available : Bool) (r r' : Ring A) (seg : Segments)
      → IsValid r
      → loaded ≤ r.samples_in_buffer
      → begin_read loaded requested max_available r ≡ granted seg r'
      → IsValid r'
  unfolding begin_read
  begin_read-IsValid loaded requested max_available r r' seg v h e = ground arith

  begin_write_loop-IsValid :
      (loads : List ℕ) (requested : ℕ) (max_available : Bool) (r r' : Ring A) (seg : Segments)
      → IsValid r
      → All (WriterSees r) loads
      → begin_write_loop loads requested max_available r ≡ granted seg r'
      → IsValid r'
  unfolding begin_write_loop
  begin_write_loop-IsValid [] requested max_available r r' seg v h e = cc
  begin_write_loop-IsValid (loaded ∷ loads) requested max_available r r' seg v h e =
      let after = record r { read_end_event = false } in
      let v' : IsValid after = omega arith in
      let exact = sub_size_exact (size r) loaded h.0.1 (omega arith) in
      ground
        (arith, exact, begin_write_loop-IsValid loads requested max_available after r' seg v' h.1)

  pub begin_write-IsValid :
      (loads : List ℕ) (requested : ℕ) (max_available : Bool) (r r' : Ring A) (seg : Segments)
      → IsValid r
      → All (WriterSees r) loads
      → begin_write loads requested max_available r ≡ granted seg r'
      → IsValid r'
  unfolding begin_write
  begin_write-IsValid loads requested max_available r r' seg v h e =
      ground (arith, begin_write_loop-IsValid loads requested max_available r r' seg v h)

  pub filled-IsValid :
      (vs : List A) (r : Ring A)
      → IsValid r
      → IsValid (record r { data_provider = fill r.data_provider r.write_pointer vs })
  filled-IsValid vs r v =
      let same = length-fill r.data_provider r.write_pointer vs in
      record {
        nonempty = omega arith;
        limit = omega arith;
        write_in = omega arith;
        read_in = omega arith;
        meets = v.meets ∙ ap (λ t. (r.read_pointer + r.samples_in_buffer) % t) (sym same);
        write_fits = omega arith;
        read_fits = v.read_fits;
      }

  Step-IsValid : {r r' : Ring A} → Step r r' → IsValid r → IsValid r'
  Step-IsValid (writer_begins {r} {r'} {seg} loads requested max_available sees e) v =
      begin_write-IsValid loads requested max_available r r' seg v sees e
  Step-IsValid (writer_fills {r} vs h) v = filled-IsValid vs r v
  Step-IsValid (writer_ends {r} {r'} amount e) v = end_write-IsValid amount r r' v e
  Step-IsValid (reader_begins {r} {r'} {seg} loaded requested max_available sees e) v =
      begin_read-IsValid loaded requested max_available r r' seg v sees e
  Step-IsValid (reader_ends {r} {r'} amount e) v = end_read-IsValid amount r r' v e

  Reach-IsValid : {r r' : Ring A} → Reach r r' → IsValid r → IsValid r'
  Reach-IsValid here v = v
  Reach-IsValid (next p s) v = Step-IsValid s (Reach-IsValid p v)

  allocated-IsValid :
      (zeroed : A) (n : ℕ) (r : Ring A)
      → n < 2 ^ 63
      → allocated_spsc_ring zeroed n ≡ some r
      → IsValid r
  unfolding allocated_spsc_ring
  allocated-IsValid zeroed n r h e = ground (arith, length-replicate n zeroed)

  -- From a new ring of fewer than 2^63 elements, any interleaving of the writer's and the reader's
  -- calls keeps the ring valid: both pointers lie in the data, the write pointer is the read
  -- pointer plus the sample count round the ring, and what is pending on either side is really
  -- free for writing or really filled for reading. The calls may see stale sample counts.
  pub allocated_spsc_ring-Reach-IsValid :
      (zeroed : A) (n : ℕ) (start r : Ring A)
      → n < 2 ^ 63
      → allocated_spsc_ring zeroed n ≡ some start
      → Reach start r
      → IsValid r
  allocated_spsc_ring-Reach-IsValid zeroed n start r h e p =
      Reach-IsValid p (allocated-IsValid zeroed n start h e)
