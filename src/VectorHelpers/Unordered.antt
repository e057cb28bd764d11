-- ===== src/VectorHelpers/Unordered.antt =====
-- filter of include/synthizer/vector_helpers.hpp: what the unstable filter leaves.
use mathlib.Core.List.{Perm, perm_append_singleton}
use mathlib.Core.List.Perm
use synthizer.Base.{
  ℕ, zero, suc, ◌+◌, ◌-◌, ◌^◌, ◌<◌, ◌≡◌, refl, ap, ◌∙◌, sym, subst, Bool, true, false, not, Option,
  some, List, [], ◌∷◌, ◌++◌, length, get_elem?, set, swap, lt→ltb, ltb_ge, select, arith,
  length-append, append_assoc, append-nil, get_elem?-append, set-append, take-append, last_split,
  inl, inr, Bool-cases,
}
use synthizer.VectorHelpers.{filter_loop, filter}

module _ {ℓ} {A : Type ℓ} where
  -- Swapping two different places.
  swap-append :
      (pre mid post : List A) (x y : A) (i j : ℕ)
      → i ≡ length pre
      → j ≡ length pre + suc (length mid)
      → swap (pre ++ (x ∷ (mid ++ (y ∷ post)))) j i ≡ pre ++ (y ∷ (mid ++ (x ∷ post)))
  swap-append pre mid post x y i j e₁ e₂ = rw (at_j, swap, at_i) (ap (λ t. set t i y) set_j ∙ set_i)
    where
      long : (z : A) → pre ++ (z ∷ (mid ++ (y ∷ post))) ≡ (pre ++ (z ∷ mid)) ++ (y ∷ post)
      long z = sym (append_assoc pre (z ∷ mid) (y ∷ post))

      long' : (z : A) → pre ++ (z ∷ (mid ++ (x ∷ post))) ≡ (pre ++ (z ∷ mid)) ++ (x ∷ post)
      long' z = sym (append_assoc pre (z ∷ mid) (x ∷ post))

      at_j : get_elem? (pre ++ (x ∷ (mid ++ (y ∷ post)))) j ≡ some y
      at_j = rw (long x) (
          get_elem?-append (pre ++ (x ∷ mid)) post y j (omega (arith, length-append pre (x ∷ mid))))

      at_i : get_elem? (pre ++ (x ∷ (mid ++ (y ∷ post)))) i ≡ some x
      at_i = get_elem?-append pre (mid ++ (y ∷ post)) x i e₁

      set_j : set (pre ++ (x ∷ (mid ++ (y ∷ post)))) j x ≡ pre ++ (x ∷ (mid ++ (x ∷ post)))
      set_j = rw (long x) (
          set-append (pre ++ (x ∷ mid)) post y x j (omega (arith, length-append pre (x ∷ mid)))
          ∙ sym (long' x))

      set_i : set (pre ++ (x ∷ (mid ++ (x ∷ post)))) i y ≡ pre ++ (y ∷ (mid ++ (x ∷ post)))
      set_i = set-append pre (mid ++ (x ∷ post)) x y i e₁

  -- Swapping a place with itself.
  swap_self :
      (pre post : List A) (x : A) (i j : ℕ)
      → i ≡ length pre
      → j ≡ length pre
      → swap (pre ++ (x ∷ post)) j i ≡ pre ++ (x ∷ post)
  swap_self pre post x i j e₁ e₂ =
      rw (get_elem?-append pre post x j e₂, swap, get_elem?-append pre post x i e₁)
        (ap (λ t. set t i x) (set-append pre post x x j e₂) ∙ set-append pre post x x i e₁)

  module _ (p : A → Bool) where
    abbrev rejected : List A → List A
    rejected xs = select (λ x. not (p x)) xs

    -- What the loop leaves of `kept ++ mid` when `mid` is still to be looked at.
    Leaves : List A → List A → Option (List A) → Type ℓ
    Leaves kept mid r = (ys : List A) × (r ≡ some (kept ++ ys)) × Perm ys (rejected mid)

    select-append : (xs ys : List A) → rejected (xs ++ ys) ≡ rejected xs ++ rejected ys
    select-append [] ys = refl
    select-append (x ∷ xs) ys = elim (Bool-cases (p x)) [
      | inl e ↦ rw e (select-append xs ys)
      | inr e ↦ rw e (ap (λ t. x ∷ t) (select-append xs ys))
    ]

    rejected_rotate : (xs : List A) (y : A) → Perm (rejected (y ∷ xs)) (rejected (xs ++ (y ∷ [])))
    rejected_rotate xs y = rw (select-append xs (y ∷ [])) (elim (Bool-cases (p y)) [
      | inl e ↦ rw e (rw (append-nil (rejected xs)) (Perm.refl (rejected xs)))
      | inr e ↦ rw e (Perm.symm (perm_append_singleton y (rejected xs)))
    ])

    skip :
        (kept mid : List A) (x : A) (r : Option (List A))
        → p x ≡ false
        → Leaves (kept ++ (x ∷ [])) mid r
        → Leaves kept (x ∷ mid) r
    unfolding Leaves
    skip kept mid x r e (ys, h, perm) =
        (x ∷ ys, h ∙ ap some (append_assoc kept (x ∷ []) ys), rw e (Perm.cons x perm))

    drop_head :
        (kept mid mid' : List A) (x : A) (r : Option (List A))
        → p x ≡ true
        → Perm (rejected mid') (rejected mid)
        → Leaves kept mid' r
        → Leaves kept (x ∷ mid) r
    unfolding Leaves
    drop_head kept mid mid' x r e same (ys, h, perm) = (ys, h, rw e (Perm.trans perm same))

    -- The swap moves the element out of the part still to be looked at.
    swap_out :
        (kept mid post : List A) (x : A) (i j : ℕ)
        → i ≡ length kept
        → j ≡ i + length mid
        → (mid' : List A) × (swap (kept ++ (x ∷ (mid ++ post))) j i ≡ kept ++ (mid' ++ (x ∷ post)))
          × (length mid' ≡ length mid)
          × Perm (rejected mid') (rejected mid)
    swap_out kept [] post x i j e₁ e₂ =
        ([], swap_self kept post x i j e₁ (omega arith), refl, Perm.refl [])
    swap_out kept (z ∷ mid) post x i j e₁ e₂ =
        let (ys, y, split) = last_split z mid in
        let size : length (z ∷ mid) ≡ length ys + 1 = ap length split ∙ length-append ys (y ∷ []) in
        (
          y ∷ ys,
          subst (λ t. swap (kept ++ (x ∷ (t ++ post))) j i ≡ kept ++ (y ∷ (ys ++ (x ∷ post))))
              (sym split)
              (rw (append_assoc ys (y ∷ []) post)
                (swap-append kept ys post x y i j e₁ (omega arith))),
          omega arith,
          subst (λ t. Perm (rejected (y ∷ ys)) (rejected t)) (sym split) (rejected_rotate ys y),
        )

    -- One round at an element that the test accepts, and one at an element that it rejects.
    step_remove :
        (fuel : ℕ) (kept rest : List A) (x : A) (i vsize : ℕ)
        → i ≡ length kept
        → i < vsize
        → p x ≡ true
        → filter_loop p (suc fuel) (kept ++ (x ∷ rest)) i vsize
          ≡ filter_loop p fuel (swap (kept ++ (x ∷ rest)) (vsize - 1) i) i (vsize - 1)
    unfolding filter_loop
    step_remove fuel kept rest x i vsize e h bad =
        rw (lt→ltb i vsize h, filter_loop, get_elem?-append kept rest x i e) (rw bad)

    step_keep :
        (fuel : ℕ) (kept rest : List A) (x : A) (i vsize : ℕ)
        → i ≡ length kept
        → i < vsize
        → p x ≡ false
        → filter_loop p (suc fuel) (kept ++ (x ∷ rest)) i vsize
          ≡ filter_loop p fuel ((kept ++ (x ∷ [])) ++ rest) (i + 1) vsize
    unfolding filter_loop
    step_keep fuel kept rest x i vsize e h good =
        rw (lt→ltb i vsize h, filter_loop, get_elem?-append kept rest x i e)
          (rw good
            (ap (λ t. filter_loop p fuel t (i + 1) vsize) (sym (append_assoc kept (x ∷ []) rest))))

    loop :
        (fuel : ℕ) (kept mid post : List A) (i vsize : ℕ)
        → length mid < fuel
        → i ≡ length kept
        → vsize ≡ i + length mid
        → Leaves kept mid (filter_loop p fuel (kept ++ (mid ++ post)) i vsize)
    unfolding filter_loop Leaves
    loop zero kept mid post i vsize h e₁ e₂ = absurd (omega arith)
    loop (suc fuel) kept [] post i vsize h e₁ e₂ = (
      [],
      rw (ltb_ge i vsize (omega arith), filter_loop)
          (ap some (take-append kept post vsize (omega arith) ∙ sym (append-nil kept))),
      Perm.refl [],
    )
    loop (suc fuel) kept (x ∷ mid) post i vsize h e₁ e₂ = elim (Bool-cases (p x)) [
      | inl bad ↦
          subst (Leaves kept (x ∷ mid))
            (sym (step_remove fuel kept (mid ++ post) x i vsize e₁ (omega arith) bad))
            (subst (λ t. Leaves kept (x ∷ mid) (filter_loop p fuel t i (vsize - 1))) (sym moved.1)
              (drop_head kept mid moved.0 x _ bad moved.3 (
                loop fuel kept moved.0 (x ∷ post) i (vsize - 1) (omega (arith, moved.2)) e₁
                  (omega (arith, moved.2)))))
      | inr good ↦
          subst (Leaves kept (x ∷ mid))
            (sym (step_keep fuel kept (mid ++ post) x i vsize e₁ (omega arith) good))
            (skip kept mid x _ good (
              loop fuel (kept ++ (x ∷ [])) mid post (i + 1) vsize (omega arith)
                (omega (arith, length-append kept (x ∷ []))) (omega arith)))
    ]
      where
        moved :
            (mid' : List A) × (swap (kept ++ (x ∷ (mid ++ post))) (vsize - 1) i
              ≡ kept ++ (mid' ++ (x ∷ post)))
            × (length mid' ≡ length mid)
            × Perm (rejected mid') (rejected mid)
        moved = swap_out kept mid post x i (vsize - 1) e₁ (omega arith)

pub filter-perm-select {ℓ} :
    {A : Type ℓ} (p : A → Bool) (xs : List A)
    → (ys : List A) × (filter p xs ≡ some ys) × Perm ys (select (λ x. not (p x)) xs)
unfolding filter Leaves
filter-perm-select p xs =
    subst (λ t. Leaves p [] xs (filter_loop p (length xs + 1) t 0 (length xs))) (append-nil xs)
      (loop p (length xs + 1) [] xs [] 0 (length xs) (omega arith) refl (omega arith))

-- For every test and every vector of fewer than 2^32 elements, whose size fits the counters of the
-- code, `filter` ends without a fault and leaves exactly the elements that the test rejects, each as
-- often as before, in some order.
pub filter-perm-rejected {ℓ} :
    {A : Type ℓ} (p : A → Bool) (xs : List A)
    → length xs < 2 ^ 32
    → (ys : List A) × (filter p xs ≡ some ys) × Perm ys (select (λ x. not (p x)) xs)
filter-perm-rejected p xs h = filter-perm-select p xs
