-- ===== src/VectorHelpers/Stable.antt =====
-- filter_stable of include/synthizer/vector_helpers.hpp against the plain selection of a list.
use synthizer.Base.{
  ℕ, zero, suc, ◌+◌, ◌-◌, ◌<◌, ◌≡◌, refl, ap, ◌∙◌, sym, Bool, some, List, [], ◌∷◌, ◌++◌, length,
  get_elem?, set, take, lt→ltb, ltb_ge, select, arith, length-append, append_assoc, append-nil,
  get_elem?-append, set-append, take-append, inl, inr, Bool-cases,
}
use synthizer.VectorHelpers.{filter_stable_loop, filter_stable}

module _ {ℓ} {A : Type ℓ} (p : A → Bool) where
  -- Writing an element back over the junk leaves as much junk behind it.
  copy_back :
      (kept junk rest : List A) (x : A)
      → (junk' : List A) × (set (kept ++ (junk ++ x ∷ rest)) (length kept) x
          ≡ (kept ++ (x ∷ [])) ++ (junk' ++ rest))
        × (length junk' ≡ length junk)
  copy_back kept [] rest x = (
    [],
    set-append kept rest x x (length kept) refl ∙ sym (append_assoc kept (x ∷ []) rest),
    refl,
  )
  copy_back kept (j ∷ junk) rest x = (
    junk ++ (x ∷ []),
    set-append kept (junk ++ x ∷ rest) j x (length kept) refl ∙ simp append_assoc,
    omega (arith, length-append junk (x ∷ [])),
  )

  loop :
      (rest kept junk : List A) (fuel i vsize copyback : ℕ)
      → length rest < fuel
      → i ≡ length kept + length junk
      → vsize ≡ i + length rest
      → copyback ≡ length junk
      → filter_stable_loop p fuel (kept ++ (junk ++ rest)) i vsize copyback
        ≡ some (kept ++ select p rest)
  unfolding filter_stable_loop
  loop rest kept junk zero i vsize copyback h e₁ e₂ e₃ = absurd (omega arith)
  loop [] kept junk (suc fuel) i vsize copyback h e₁ e₂ e₃ =
      rw (ltb_ge i vsize (omega arith), filter_stable_loop)
        (ap some (
          ap (λ t. take (vsize - copyback) (kept ++ t)) (append-nil junk)
          ∙ take-append kept junk (vsize - copyback) (omega arith)
          ∙ sym (append-nil kept)))
  loop (x ∷ rest) kept junk (suc fuel) i vsize copyback h e₁ e₂ e₃ =
      rw (lt→ltb i vsize (omega arith), filter_stable_loop, get_at)
        (elim (Bool-cases (p x)) [
          | inl keep ↦ rw keep (
              rw at_write (
                rw copied.1 (
                  loop rest (kept ++ (x ∷ [])) copied.0 fuel (i + 1) vsize copyback (omega arith)
                    (omega (arith, length-append kept (x ∷ []), copied.2)) (omega arith)
                    (omega (arith, copied.2))
                  ∙ ap some (append_assoc kept (x ∷ []) (select p rest)))))
          | inr drop ↦ rw drop (
              rw (← append_assoc junk (x ∷ []) rest) (
                loop rest kept (junk ++ (x ∷ [])) fuel (i + 1) vsize (copyback + 1) (omega arith)
                  (omega (arith, length-append junk (x ∷ []))) (omega arith)
                  (omega (arith, length-append junk (x ∷ [])))))
        ])
    where
      at_write : i - copyback ≡ length kept
      at_write = omega arith

      get_at : get_elem? (kept ++ (junk ++ x ∷ rest)) i ≡ some x
      get_at =
          rw (← append_assoc kept junk (x ∷ rest))
            (get_elem?-append (kept ++ junk) rest x i (omega (arith, length-append kept junk)))

      copied :
          (junk2 : List A) × (set (kept ++ (junk ++ x ∷ rest)) (length kept) x
            ≡ (kept ++ (x ∷ [])) ++ (junk2 ++ rest))
          × (length junk2 ≡ length junk)
      copied = copy_back kept junk rest x

-- For every test, `filter_stable` ends without a fault and leaves exactly the elements
-- that pass the test, in their order.
pub filter_stable-eq-select {ℓ} :
    {A : Type ℓ} (p : A → Bool) (xs : List A) → filter_stable p xs ≡ some (select p xs)
unfolding filter_stable
filter_stable-eq-select p xs =
    loop p xs [] [] (length xs + 1) 0 (length xs) 0 (omega arith) refl (omega arith) refl
