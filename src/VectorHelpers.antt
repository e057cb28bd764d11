-- ===== src/VectorHelpers.antt =====
-- include/synthizer/vector_helpers.hpp: filtering vectors in place. The sizes and indices, which the
-- code keeps in 32 bits, do not wrap here: they are those of vectors of fewer than 2^32 elements.
pub mod Stable
pub mod Unordered
pub mod Untouched
pub mod Iterate
mod Tests
use mathlib.Core.Option
use synthizer.Base.{
  ℕ, zero, suc, ◌+◌, ◌-◌, ◌≡◌, Bool, true, false, Option, none, some, List, [], ◌∷◌, length,
  get_elem?, set, take, swap, ltb, any, ◌==◌, ◌&&◌,
}

module _ {ℓ} {A : Type ℓ} where
  -- The loop of `filter`, its fuel first; `none` is a read out of bounds or fuel that ran out.
  pub filter_loop : (A → Bool) → ℕ → List A → ℕ → ℕ → Option (List A)
  filter_loop callable zero vec i vsize = none
  filter_loop callable (suc fuel) vec i vsize = elim (ltb i vsize) [
    | false ↦ some (take vsize vec)
    | true ↦ elim (get_elem? vec i) [
      | none ↦ none
      | some x ↦ elim (callable x) [
        | false ↦ filter_loop callable fuel vec (i + 1) vsize
        | true ↦ filter_loop callable fuel (swap vec (vsize - 1) i) i (vsize - 1)
      ]
    ]
  ]

  -- Each round moves `i` up or `vsize` down, so one round more than the length is enough.
  unfoldable pub filter : (A → Bool) → List A → Option (List A)
  unfolding filter_loop
  filter callable vec = filter_loop callable (length vec + 1) vec 0 (length vec)

  -- The loop of `filter_stable`.
  pub filter_stable_loop : (A → Bool) → ℕ → List A → ℕ → ℕ → ℕ → Option (List A)
  filter_stable_loop callable zero vec i vsize copyback = none
  filter_stable_loop callable (suc fuel) vec i vsize copyback = elim (ltb i vsize) [
    | false ↦ some (take (vsize - copyback) vec)
    | true ↦ elim (get_elem? vec i) [
      | none ↦ none
      | some x ↦ elim (callable x) [
        | true ↦ filter_stable_loop callable fuel (set vec (i - copyback) x) (i + 1) vsize copyback
        | false ↦ filter_stable_loop callable fuel vec (i + 1) vsize (copyback + 1)
      ]
    ]
  ]

  unfoldable pub filter_stable : (A → Bool) → List A → Option (List A)
  unfolding filter_stable_loop
  filter_stable callable vec = filter_stable_loop callable (length vec + 1) vec 0 (length vec) 0

module _ {ℓ κ} {A : Type ℓ} {S : Type κ} where
  -- weak_vector::iterate_removing: `alive` locks a weak pointer in the state as it then is, and
  -- `call` is the callable. Its fuel comes first; `none` is a read out of bounds or no fuel left.
  pub iterate_removing_loop :
      (S → A → Bool) → (A → S → S) → ℕ → List A → ℕ → ℕ → S → Option (List A × S)
  iterate_removing_loop alive call zero v i size s = none
  iterate_removing_loop alive call (suc fuel) v i size s = elim (ltb i size) [
    | false ↦ some (take size v, s)
    | true ↦ elim (get_elem? v i) [
      | none ↦ none
      | some x ↦ elim (alive s x) [
        | true ↦ iterate_removing_loop alive call fuel v (i + 1) size (call x s)
        | false ↦ iterate_removing_loop alive call fuel (swap v (size - 1) i) i (size - 1) s
      ]
    ]
  ]

  unfoldable pub iterate_removing : (S → A → Bool) → (A → S → S) → List A → S → Option (List A × S)
  unfolding iterate_removing_loop
  iterate_removing alive call v s = iterate_removing_loop alive call (length v + 1) v 0 (length v) s

-- weak_vector::contains, on the addresses of objects.
unfoldable pub contains : (ℕ → Bool) → ℕ → List ℕ → Bool
contains alive x v = any (λ i. alive i && (i == x)) v
