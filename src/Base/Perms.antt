-- ===== src/Base/Perms.antt =====
-- Lists with the same elements in some order.
use Prim.Native.Nat.{ℕ, zero, suc, ◌<◌, ◌≤◌}
use mathlib.Core.Path.{◌≡◌, refl, ap, subst, ◌∙◌}
use mathlib.Core.Logic.{∥∥₁_elim, inl, inr}
use mathlib.Core.List.{
  List, [], ◌∷◌, Perm, Permᴰ, Mem, Mem-prop, not-mem-nil, mem-cons, mem-cons_self, mem-cons_of_mem,
}
use mathlib.Core.Option.{some}
use mathlib.Core.Logic.Or
use synthizer.Base.Lists.{length, get_elem?, select}
use synthizer.Base.Tests.{Bool-cases}
use mathlib.Core.Bool.{Bool, true, false}
use native.Mathlib.Nat.{ℕ_set}
use native.Mathlib.Bridge.{le_prop}
use native.Mathlib.Omega.{arith}

module _ {ℓ} {A : Type ℓ} where
  Permᴰ-length : {xs ys : List A} → Permᴰ xs ys → length xs ≡ length ys
  Permᴰ-length Permᴰ.nil = refl
  Permᴰ-length (Permᴰ.cons e p) = ap suc (Permᴰ-length p)
  Permᴰ-length (Permᴰ.swap e f) = refl
  Permᴰ-length (Permᴰ.trans p q) = Permᴰ-length p ∙ Permᴰ-length q

  pub length-perm : {xs ys : List A} → Perm xs ys → length xs ≡ length ys
  length-perm p = ∥∥₁_elim p (ℕ_set _ _) Permᴰ-length

  pub lt-length : (xs : List A) (i : ℕ) (x : A) → get_elem? xs i ≡ some x → i < length xs
  lt-length [] i x e = cc
  lt-length (y ∷ ys) zero x e = omega arith
  lt-length (y ∷ ys) (suc i) x e = omega (arith, lt-length ys i x e)

  -- A bound on a key of each element, from the elements by their places.
  pub Mem-least :
      (key : A → ℕ) (n : ℕ) (xs : List A)
      → ((i : ℕ) (x : A) → get_elem? xs i ≡ some x → n ≤ key x)
      → (x : A) → Mem x xs
      → n ≤ key x
  Mem-least key n [] h x m = absurd (not-mem-nil m)
  Mem-least key n (y ∷ ys) h x m =
      Or.elim le_prop (mem-cons.0 m) (λ e. rw e (h 0 y refl))
        (Mem-least key n ys (λ i z. h (suc i) z) x)

  module _ (p : A → Bool) where
    same_truth : (b : Bool) → IsProp (b ≡ true)
    same_truth b = hlevel

    taken : (y : A) (ys : List A) → p y ≡ true → select p (y ∷ ys) ≡ y ∷ select p ys
    taken y ys e = rw e refl

    passed : (y : A) (ys : List A) → p y ≡ false → select p (y ∷ ys) ≡ select p ys
    passed y ys e = rw e refl

    pub mem-select : (x : A) (xs : List A) → Mem x xs → p x ≡ true → Mem x (select p xs)
    mem-select x [] m e = absurd (not-mem-nil m)
    mem-select x (y ∷ ys) m e = elim (Bool-cases (p y)) [
      | inl hit ↦ rw hit (
          Or.elim Mem-prop (mem-cons.0 m)
            (λ f. subst (λ z. Mem x (z ∷ select p ys)) f mem-cons_self)
            (λ n. mem-cons_of_mem y (mem-select x ys n e)))
      | inr miss ↦ rw miss (
          Or.elim Mem-prop (mem-cons.0 m) (λ f. absurd (cc (ap p f, e, miss)))
            (λ n. mem-select x ys n e))
    ]

    pub mem_of_select : (x : A) (xs : List A) → Mem x (select p xs) → Mem x xs
    mem_of_select x [] m = m
    mem_of_select x (y ∷ ys) m = elim (Bool-cases (p y)) [
      | inl hit ↦
          Or.elim Mem-prop (mem-cons.0 (subst (Mem x) (taken y ys hit) m))
            (λ f. subst (λ z. Mem x (z ∷ ys)) f mem-cons_self)
            (λ n. mem-cons_of_mem y (mem_of_select x ys n))
      | inr miss ↦ mem-cons_of_mem y (mem_of_select x ys (subst (Mem x) (passed y ys miss) m))
    ]

    pub passes_of_select : (x : A) (xs : List A) → Mem x (select p xs) → p x ≡ true
    passes_of_select x [] m = absurd (not-mem-nil m)
    passes_of_select x (y ∷ ys) m = elim (Bool-cases (p y)) [
      | inl hit ↦
          Or.elim (same_truth (p x)) (mem-cons.0 (subst (Mem x) (taken y ys hit) m))
            (λ f. ap p f ∙ hit) (λ n. passes_of_select x ys n)
      | inr miss ↦ passes_of_select x ys (subst (Mem x) (passed y ys miss) m)
    ]
