-- ===== src/SpscRing/Split.antt =====
-- The two segments of a grant of include/synthizer/spsc_ring.hpp are one stretch of the ring.
use native.Mathlib.Nat.{add-mod_right}
use synthizer.Base.{
  ℕ, ◌+◌, ◌-◌, ◌%◌, ◌^◌, ◌≤◌, ◌<◌, ◌≡◌, ap, ap₂, sym, ◌∙◌, Option, none, some, List, [], ◌++◌,
  arith, length, take, drop, take_all, append-nil, dec_le, length-take, take-append-drop,
  length-drop,
}
use synthizer.SpscRing.{Segments, split_segments}
use synthizer.SpscRing.Window.{
  window, fill, length-fill, window-append, window-mod, fill-mod, fill-append, fill_straight,
  window_straight, write_run,
}

-- The elements of a segment.
abbrev pub read_segment {ℓ} : {A : Type ℓ} → List A → ℕ → Option ℕ → List A
read_segment xs n none = []
read_segment xs n (some p) = take n (drop p xs)

-- What a client reads through the two pointers, and what it writes through them.
abbrev pub read_segments {ℓ} : {A : Type ℓ} → List A → Segments → List A
read_segments xs seg = read_segment xs seg.size1 seg.ptr1 ++ read_segment xs seg.size2 seg.ptr2

abbrev pub write_segment {ℓ} : {A : Type ℓ} → List A → Option ℕ → List A → List A
write_segment xs none vs = xs
write_segment xs (some p) vs = write_run xs p vs

abbrev pub write_segments {ℓ} : {A : Type ℓ} → List A → Segments → List A → List A
write_segments xs seg vs =
    write_segment (write_segment xs seg.ptr1 (take seg.size1 vs)) seg.ptr2 (drop seg.size1 vs)

split_straight :
    (n p k : ℕ)
    → p < n
    → n < 2 ^ 63
    → p + k ≤ n
    → split_segments n p k ≡ record { size1 = k; ptr1 = some p; size2 = 0; ptr2 = none }
split_straight n p k h₁ h₂ h₃ = ground arith

split_wrapping :
    (n p k : ℕ)
    → p < n
    → n < 2 ^ 63
    → k ≤ n
    → n < p + k
    → split_segments n p k
      ≡ record { size1 = n - p; ptr1 = some p; size2 = k - (n - p); ptr2 = some 0 }
split_wrapping n p k h₁ h₂ h₃ h₄ = ground arith

module _ {ℓ} {A : Type ℓ} where
  window_turn : (xs : List A) (s t n : ℕ) → s ≡ t + length xs → window xs t n ≡ window xs s n
  window_turn xs s t n e =
      sym (window-mod xs t n)
      ∙ ap (λ k. window xs k n)
          (sym (add-mod_right t (length xs)) ∙ ap (λ k. k % length xs) (sym e))
      ∙ window-mod xs s n

  fill_turn :
      (xs : List A) (s t : ℕ) (vs : List A) → s ≡ t + length xs → fill xs t vs ≡ fill xs s vs
  fill_turn xs s t vs e =
      sym (fill-mod xs t vs)
      ∙ ap (λ k. fill xs k vs) (sym (add-mod_right t (length xs)) ∙ ap (λ k. k % length xs) (sym e))
      ∙ fill-mod xs s vs

  -- The two segments together are the window of that many elements.
  pub read_split :
      (xs : List A) (p n : ℕ)
      → p < length xs
      → length xs < 2 ^ 63
      → n ≤ length xs
      → read_segments xs (split_segments (length xs) p n) ≡ window xs p n
  read_split xs p n h₁ h₂ h₃ = elim (dec_le (p + n) (length xs)) [
    | yes fits ↦
        ap (read_segments xs) (split_straight (length xs) p n h₁ h₂ fits)
        ∙ append-nil (take n (drop p xs))
        ∙ sym (window_straight xs p n fits)
    | no wraps ↦
        let k = length xs - p in
        let whole : n ≡ k + (n - k) = omega arith in
        let turn : p + k ≡ 0 + length xs = omega arith in
        ap (read_segments xs) (split_wrapping (length xs) p n h₁ h₂ h₃ (omega arith))
        ∙ ap₂ ◌++◌ (sym (window_straight xs p k (omega arith)))
            (sym (window_straight xs 0 (n - k) (omega arith)))
        ∙ ap (λ t. window xs p k ++ t) (window_turn xs (p + k) 0 (n - k) turn)
        ∙ sym (window-append xs p k (n - k))
        ∙ ap (window xs p) (sym whole)
  ]

  pub write_split :
      (xs : List A) (p n : ℕ) (vs : List A)
      → p < length xs
      → length xs < 2 ^ 63
      → length vs ≡ n
      → n ≤ length xs
      → write_segments xs (split_segments (length xs) p n) vs ≡ fill xs p vs
  write_split xs p n vs h₁ h₂ h₃ h₄ = elim (dec_le (p + n) (length xs)) [
    | yes fits ↦
        ap (λ t. write_segments xs t vs) (split_straight (length xs) p n h₁ h₂ fits)
        ∙ ap (write_run xs p) (take_all vs n (omega arith))
        ∙ sym (fill_straight xs p vs (omega arith))
    | no wraps ↦
        let k = length xs - p in
        let us : List A = take k vs in
        let ws : List A = drop k vs in
        let size : length us ≡ k = omega (arith, length-take k vs) in
        let turn : p + length us ≡ 0 + length xs = omega arith in
        let ys : List A = fill xs p us in
        ap (λ t. write_segments xs t vs) (split_wrapping (length xs) p n h₁ h₂ h₄ (omega arith))
        ∙ ap (λ t. write_run t 0 ws) (sym (fill_straight xs p us (omega arith)))
        ∙ sym (fill_straight ys 0 ws (omega (arith, length-drop k vs, length-fill xs p us)))
        ∙ fill_turn ys (p + length us) 0 ws (turn ∙ ap (λ t. 0 + t) (sym (length-fill xs p us)))
        ∙ sym (fill-append xs p us ws)
        ∙ ap (fill xs p) (take-append-drop k vs)
  ]
