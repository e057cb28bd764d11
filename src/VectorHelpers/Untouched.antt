-- ===== src/VectorHelpers/Untouched.antt =====
-- filter of include/synthizer/vector_helpers.hpp on a vector of which nothing is taken out.
use synthizer.Base.{
  ℕ, zero, suc, ◌+◌, ◌<◌, ◌≡◌, refl, ap, subst, Bool, true, false, not, some, List, [], ◌∷◌, ◌++◌,
  length, lt→ltb, ltb_ge, select, any, arith, length-append, append_assoc, get_elem?-append,
  take_all, inl, inr, Bool-cases, ◌||◌,
}
use synthizer.VectorHelpers.{filter_loop, filter}

false_of_hit : {a : Bool} (b : Bool) → a ≡ true → (a || b) ≡ false → ⊥
false_of_hit {a = true} b h e = cc
false_of_hit {a = false} b h e = cc

hit_rest : {a b : Bool} → a ≡ false → (a || b) ≡ false → b ≡ false
hit_rest {a = true} h e = cc
hit_rest {a = false} h e = e

module _ {ℓ} {A : Type ℓ} (p : A → Bool) where
  filter_loop-untouched :
      (fuel : ℕ) (kept mid : List A) (i vsize : ℕ)
      → length mid < fuel
      → i ≡ length kept
      → vsize ≡ i + length mid
      → any p mid ≡ false
      → filter_loop p fuel (kept ++ mid) i vsize ≡ some (kept ++ mid)
  unfolding filter_loop
  filter_loop-untouched zero kept mid i vsize h e₁ e₂ none_of = absurd (omega arith)
  filter_loop-untouched (suc fuel) kept [] i vsize h e₁ e₂ none_of =
      rw (ltb_ge i vsize (omega arith), filter_loop)
        (ap some (take_all (kept ++ []) vsize (omega (arith, length-append kept []))))
  filter_loop-untouched (suc fuel) kept (x ∷ mid) i vsize h e₁ e₂ none_of =
      elim (Bool-cases (p x)) [
        | inl bad ↦ absurd (false_of_hit _ bad none_of)
        | inr good ↦
            rw (lt→ltb i vsize (omega arith), filter_loop, get_elem?-append kept mid x i e₁)
              (rw good (
                subst (λ t. filter_loop p fuel t (i + 1) vsize ≡ some t)
                  (append_assoc kept (x ∷ []) mid)
                  (filter_loop-untouched fuel (kept ++ (x ∷ [])) mid (i + 1) vsize (omega arith)
                    (omega (arith, length-append kept (x ∷ []))) (omega arith)
                    (hit_rest good none_of))))
      ]

  pub filter-untouched : (xs : List A) → any p xs ≡ false → filter p xs ≡ some xs
  unfolding filter
  filter-untouched xs e =
      filter_loop-untouched (length xs + 1) [] xs 0 (length xs) (omega arith) refl (omega arith) e

  pub select-any : (xs : List A) → any p xs ≡ false → select (λ x. not (p x)) xs ≡ xs
  select-any [] e = refl
  select-any (x ∷ xs) e = elim (Bool-cases (p x)) [
    | inl bad ↦ absurd (false_of_hit _ bad e)
    | inr good ↦ rw good (ap (λ t. x ∷ t) (select-any xs (hit_rest good e)))
  ]
