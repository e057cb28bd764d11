-- ===== src/SpscRing/Contents.antt =====
-- The contents of the ring of include/synthizer/spsc_ring.hpp: what a commit of either side does to them.
use synthizer.Base.{
  ℕ, ◌+◌, ◌-◌, ◌≤◌, ◌<◌, ◌≡◌, ap, sym, ◌∙◌, Bool, false, List, [], ◌∷◌, ◌++◌, arith, length, take,
  drop, All, take-append, drop-append,
}
use synthizer.SpscRing.{
  Ring, Segments, granted, size, split_segments, begin_write_loop, begin_write,
}
use synthizer.SpscRing.Window.{
  window, fill, length-fill, window-append, window-mod, window-fill_before, window-fill_self,
  fill-mod, length-window,
}
use synthizer.SpscRing.Invariant.{IsValid, WriterSees, committed, released, sub_size_exact}
use synthizer.SpscRing.Split.{read_segments, read_split}

module _ {ℓ} {A : Type ℓ} where
  -- The abstract view: the elements written and not yet read, oldest first.
  abbrev pub contents : Ring A → List A
  contents r = window r.data_provider r.read_pointer r.samples_in_buffer

  -- Filling what is pending does not touch what is stored.
  pub contents-fill :
      (r : Ring A) (vs : List A)
      → IsValid r
      → length vs ≤ r.pending_write_size
      → contents (record r { data_provider = fill r.data_provider r.write_pointer vs }) ≡ contents r
  contents-fill r vs v h =
      ap (λ t. window t r.read_pointer r.samples_in_buffer)
        (ap (λ t. fill r.data_provider t vs) v.meets
          ∙ fill-mod r.data_provider (r.read_pointer + r.samples_in_buffer) vs)
      ∙ window-fill_before r.data_provider r.read_pointer r.samples_in_buffer
          (r.read_pointer + r.samples_in_buffer) vs (omega arith) (omega arith)

  pub contents-committed :
      (r : Ring A) (amount : ℕ)
      → IsValid r
      → contents (committed amount r) ≡ contents r ++ window r.data_provider r.write_pointer amount
  contents-committed r amount v =
      window-append r.data_provider r.read_pointer r.samples_in_buffer amount
      ∙ ap (λ t. contents r ++ t)
          (sym (window-mod r.data_provider (r.read_pointer + r.samples_in_buffer) amount)
            ∙ ap (λ t. window r.data_provider t amount) (sym v.meets))

  pub contents-released :
      (r : Ring A) (amount : ℕ)
      → IsValid r
      → amount ≤ r.pending_read_size
      → contents (released amount r) ≡ drop amount (contents r)
  contents-released r amount v h =
      let xs = r.data_provider in
      let p = r.read_pointer in
      let rest : ℕ = r.samples_in_buffer - amount in
      let whole : r.samples_in_buffer ≡ amount + rest = omega arith in
      window-mod xs (p + amount) rest
      ∙ sym (
          drop-append (window xs p amount) (window xs (p + amount) rest) amount
            (sym (length-window xs p amount v.nonempty)))
      ∙ ap (drop amount) (sym (window-append xs p amount rest) ∙ ap (window xs p) (sym whole))

  -- What a granted write reserves.
  pub granted_write :
      (loads : List ℕ) (requested : ℕ) (max_available : Bool) (r r' : Ring A) (seg : Segments)
      → IsValid r
      → All (WriterSees r) loads
      → begin_write_loop loads requested max_available r ≡ granted seg r'
      → (seg ≡ split_segments (size r') r'.write_pointer r'.pending_write_size)
        × (r'.samples_in_buffer + r'.pending_write_size ≤ size r')
        × (contents r' ≡ contents r)
  unfolding begin_write_loop
  granted_write [] requested max_available r r' seg v h e = cc
  granted_write (loaded ∷ loads) requested max_available r r' seg v h e =
      let after = record r { read_end_event = false } in
      let v' : IsValid after = omega arith in
      let exact = sub_size_exact (size r) loaded h.0.1 (omega arith) in
      ground (arith, exact, granted_write loads requested max_available after r' seg v' h.1)

  pub begin_write_inner :
      (loads : List ℕ) (requested : ℕ) (max_available : Bool) (r r' : Ring A) (seg : Segments)
      → begin_write loads requested max_available r ≡ granted seg r'
      → begin_write_loop loads requested max_available r ≡ granted seg r'
  unfolding begin_write
  begin_write_inner loads requested max_available r r' seg e = ground arith

  -- A commit of part of what was filled stores that part.
  pub window_prefix :
      (xs : List A) (w : ℕ) (vs : List A) (amount : ℕ)
      → 0 < length xs
      → length vs ≤ length xs
      → amount ≤ length vs
      → window (fill xs w vs) w amount ≡ take amount vs
  window_prefix xs w vs amount h₀ h₁ h₂ =
      let ys : List A = fill xs w vs in
      let rest : ℕ = length vs - amount in
      let whole : length vs ≡ amount + rest = omega arith in
      let size : amount ≡ length (window ys w amount) =
        sym (length-window ys w amount (omega (arith, length-fill xs w vs))) in
      sym (take-append (window ys w amount) (window ys (w + amount) rest) amount size)
      ∙ ap (take amount) (
          sym (window-append ys w amount rest)
          ∙ ap (window ys w) (sym whole)
          ∙ window-fill_self xs w vs h₁)

  pub read_prefix :
      (r : Ring A) (n : ℕ)
      → IsValid r
      → n ≤ r.samples_in_buffer
      → read_segments r.data_provider (split_segments (size r) r.read_pointer n)
        ≡ take n (contents r)
  read_prefix r n v h =
      let xs = r.data_provider in
      let p = r.read_pointer in
      let rest : ℕ = r.samples_in_buffer - n in
      let whole : r.samples_in_buffer ≡ n + rest = omega arith in
      read_split xs p n v.read_in v.limit (omega arith)
      ∙ sym (
          take-append (window xs p n) (window xs (p + n) rest) n
            (sym (length-window xs p n v.nonempty)))
      ∙ ap (take n) (sym (window-append xs p n rest) ∙ ap (window xs p) (sym whole))
