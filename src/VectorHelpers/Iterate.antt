-- ===== src/VectorHelpers/Iterate.antt =====
-- weak_vector::iterate_removing of include/synthizer/vector_helpers.hpp.
use synthizer.Base.{
  ℕ, zero, suc, ◌+◌, ◌-◌, ◌<◌, ◌≤◌, ◌≡◌, refl, ◌∙◌, sym, subst, Bool, true, false, Option, some,
  List, length, get_elem?, swap, take, set, length-set, get_elem?-eq_some, lt→ltb, arith, inl, inr,
  Bool-cases, Option-cases, ltb→lt, ltb,
}
use synthizer.VectorHelpers.{iterate_removing_loop, iterate_removing}

module _ {ℓ} {A : Type ℓ} where
  length-swap : (xs : List A) (i j : ℕ) → length (swap xs i j) ≡ length xs
  length-swap xs i j = elim (Option-cases (get_elem? xs i)) [
    | inl e ↦ rw (e, swap) refl
    | inr (x, e) ↦ elim (Option-cases (get_elem? xs j)) [
      | inl f ↦ rw (e, swap, f) refl
      | inr (y, f) ↦ rw (e, swap, f) (length-set (set xs i y) j x ∙ length-set xs i y)
    ]
  ]

module _ {ℓ κ μ} {A : Type ℓ} {S : Type κ} (alive : S → A → Bool) (call : A → S → S)
    (P : S → Type μ) (keeps : (a : A) (s : S) → P s → P (call a s)) where
  Ends : Option (List A × S) → Type (ℓ ⊔ κ ⊔ μ)
  Ends r = (v : List A) × (s : S) × (r ≡ some (v, s)) × P s

  keep_step :
      (fuel : ℕ) (v : List A) (i size : ℕ) (s : S) (x : A)
      → i < size
      → get_elem? v i ≡ some x
      → alive s x ≡ true
      → iterate_removing_loop alive call (suc fuel) v i size s
        ≡ iterate_removing_loop alive call fuel v (i + 1) size (call x s)
  unfolding iterate_removing_loop
  keep_step fuel v i size s x h e f = rw (lt→ltb i size h, iterate_removing_loop, e) (rw f refl)

  drop_step :
      (fuel : ℕ) (v : List A) (i size : ℕ) (s : S) (x : A)
      → i < size
      → get_elem? v i ≡ some x
      → alive s x ≡ false
      → iterate_removing_loop alive call (suc fuel) v i size s
        ≡ iterate_removing_loop alive call fuel (swap v (size - 1) i) i (size - 1) s
  unfolding iterate_removing_loop
  drop_step fuel v i size s x h e f = rw (lt→ltb i size h, iterate_removing_loop, e) (rw f refl)

  end_step :
      (fuel : ℕ) (v : List A) (i size : ℕ) (s : S)
      → ltb i size ≡ false
      → iterate_removing_loop alive call (suc fuel) v i size s ≡ some (take size v, s)
  unfolding iterate_removing_loop
  end_step fuel v i size s e = rw (e, iterate_removing_loop) refl

  loop :
      (fuel : ℕ) (v : List A) (i size : ℕ) (s : S)
      → size ≤ length v
      → i ≤ size
      → size < i + fuel
      → P s
      → Ends (iterate_removing_loop alive call fuel v i size s)
  unfolding Ends
  loop zero v i size s h le g p = absurd (omega arith)
  loop (suc fuel) v i size s h le g p = elim (Bool-cases (ltb i size)) [
    | inr e ↦ (take size v, s, end_step fuel v i size s e, p)
    | inl e ↦
        let lt : i < size = ltb→lt i size e in
        let (x, f) = get_elem?-eq_some v i (omega arith) in
        elim (Bool-cases (alive s x)) [
          | inl live ↦
              subst Ends (sym (keep_step fuel v i size s x lt f live))
                (loop fuel v (i + 1) size (call x s) h (omega arith) (omega arith) (keeps x s p))
          | inr dead ↦ subst Ends (sym (drop_step fuel v i size s x lt f dead)) (
              loop fuel (swap v (size - 1) i) i (size - 1) s
                (omega (arith, length-swap v (size - 1) i)) (omega arith) (omega arith) p)
        ]
  ]

  -- `iterate_removing` ends without a fault, and what every call keeps holds afterwards.
  pub iterate_removing-ends :
      (v : List A) (s : S)
      → P s
      → (left : List A) × (s' : S) × (iterate_removing alive call v s ≡ some (left, s')) × P s'
  unfolding iterate_removing Ends
  iterate_removing-ends v s p =
      loop (length v + 1) v 0 (length v) s (omega arith) (omega arith) (omega arith) p
