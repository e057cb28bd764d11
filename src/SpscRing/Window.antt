-- ===== src/SpscRing/Window.antt =====
-- Reading and writing an array that wraps round: the memory of include/synthizer/spsc_ring.hpp.
use native.Mathlib.Nat.{mod-lt, mod-eq_of_lt, mod-add-mod, mod-eq-sub-mod, mod-mod}
use synthizer.Base.{
  ℕ, zero, suc, ◌+◌, ◌-◌, ◌%◌, ◌≤◌, ◌<◌, ◌≡◌, refl, ap, sym, ◌∙◌, ◌≢◌, ap₂, inl, inr, Option-cases,
  subst, none, some, List, [], ◌∷◌, ◌++◌, arith, length, drop-get_elem?, get_elem?, set, take, drop,
  length-set, get_elem?-set_self, get_elem?-set_ne, get_elem?-eq_some, dec_lt,
}

-- A sum of two indices below the size wraps at most once.
mod_wrap_lt : (a d n : ℕ) → a + d < n → (a + d) % n ≡ a + d
mod_wrap_lt a d n h = mod-eq_of_lt h

mod_wrap_ge : (a d n : ℕ) → a < n → d ≤ n → n ≤ a + d → (a + d) % n ≡ a + d - n
mod_wrap_ge a d n ha hd h = mod-eq-sub-mod h ∙ mod-eq_of_lt (omega arith)

-- Positions less than a whole turn apart are different places.
pub mod_ne : (a d n : ℕ) → 0 < d → d < n → (a + d) % n ≢ a % n
mod_ne a d n h₁ h₂ e =
    let low : a % n < n = mod-lt a (omega arith) in
    let turn : (a % n + d) % n ≡ a % n = mod-add-mod a n d ∙ e in
    elim (dec_lt (a % n + d) n) [
      | yes lt ↦ absurd (omega (arith, mod_wrap_lt (a % n) d n lt, turn))
      | no ge ↦
          absurd (omega (arith, mod_wrap_ge (a % n) d n low (omega arith) (omega arith), turn))
    ]

-- Only the place of a position matters.
next_congr : (s t n : ℕ) → s % n ≡ t % n → (s + 1) % n ≡ (t + 1) % n
next_congr s t n e = sym (mod-add-mod s n 1) ∙ ap (λ k. (k + 1) % n) e ∙ mod-add-mod t n 1

module _ {ℓ} {A : Type ℓ} where
  -- The `n` elements from position `s` on, wrapping.
  abbrev pub window : List A → ℕ → ℕ → List A
  window xs s zero = []
  window xs s (suc n) = elim (get_elem? xs (s % length xs)) [
    | none ↦ window xs (s + 1) n
    | some x ↦ x ∷ window xs (s + 1) n
  ]

  -- Writing elements one after the other, wrapping.
  abbrev pub fill : List A → ℕ → List A → List A
  fill xs s [] = xs
  fill xs s (v ∷ vs) = fill (set xs (s % length xs) v) (s + 1) vs

  pub length-fill : (xs : List A) (s : ℕ) (vs : List A) → length (fill xs s vs) ≡ length xs
  length-fill xs s [] = refl
  length-fill xs s (v ∷ vs) =
      length-fill (set xs (s % length xs) v) (s + 1) vs ∙ length-set xs (s % length xs) v

  window-cons :
      (xs : List A) (s n : ℕ) (x : A)
      → get_elem? xs (s % length xs) ≡ some x
      → window xs s (suc n) ≡ x ∷ window xs (s + 1) n
  window-cons xs s n x e = rw (e, window)

  pub window-append :
      (xs : List A) (s n m : ℕ) → window xs s (n + m) ≡ window xs s n ++ window xs (s + n) m
  window-append xs s zero m =
      let e₁ : 0 + m ≡ m = omega arith in
      let e₂ : s ≡ s + 0 = omega arith in ap (window xs s) e₁ ∙ ap (λ t. window xs t m) e₂
  window-append xs s (suc n) m =
      let e₁ : suc n + m ≡ suc (n + m) = omega arith in
      let e₂ : s + 1 + n ≡ s + suc n = omega arith in
      let ih : window xs (s + 1) (n + m) ≡ window xs (s + 1) n ++ window xs (s + suc n) m =
        window-append xs (s + 1) n m ∙ ap (λ t. window xs (s + 1) n ++ window xs t m) e₂ in
      ap (window xs s) e₁ ∙ elim (Option-cases (get_elem? xs (s % length xs))) [
        | inl e ↦ rw (e, window) ih
        | inr (x, e) ↦ rw (e, window) (ap (λ t. x ∷ t) ih)
      ]

  window_congr :
      (xs : List A) (s t n : ℕ) → s % length xs ≡ t % length xs → window xs s n ≡ window xs t n
  window_congr xs s t zero e = refl
  window_congr xs s t (suc n) e =
      let ih : window xs (s + 1) n ≡ window xs (t + 1) n =
        window_congr xs (s + 1) (t + 1) n (next_congr s t (length xs) e) in
      elim (Option-cases (get_elem? xs (t % length xs))) [
        | inl h ↦ rw (e, window) (rw (h, window) ih)
        | inr (x, h) ↦ rw (e, window) (rw (h, window) (ap (λ w. x ∷ w) ih))
      ]

  pub window-mod : (xs : List A) (s n : ℕ) → window xs (s % length xs) n ≡ window xs s n
  window-mod xs s n = window_congr xs (s % length xs) s n (mod-mod s (length xs))

  pub length-window : (xs : List A) (s n : ℕ) → 0 < length xs → length (window xs s n) ≡ n
  length-window xs s zero h = refl
  length-window xs s (suc n) h =
      let (x, e) = get_elem?-eq_some xs (s % length xs) (mod-lt s h) in
      rw (window-cons xs s n x e) (ap suc (length-window xs (s + 1) n h))

  -- A write to a later place of the same turn is not seen.
  window-set :
      (xs : List A) (s n j : ℕ) (v : A)
      → s + n ≤ j
      → j < s + length xs
      → window (set xs (j % length xs) v) s n ≡ window xs s n
  window-set xs s zero j v h₁ h₂ = refl
  window-set xs s (suc n) j v h₁ h₂ =
      let ys : List A = set xs (j % length xs) v in
      let size : length ys ≡ length xs = length-set xs (j % length xs) v in
      let far : j % length xs ≢ s % length xs = λ e.
        let d : s + (j - s) ≡ j = omega arith in
        mod_ne s (j - s) (length xs) (omega arith) (omega arith) (ap (λ t. t % length xs) d ∙ e) in
      let same : get_elem? ys (s % length ys) ≡ get_elem? xs (s % length xs) =
        ap (λ t. get_elem? ys (s % t)) size ∙ get_elem?-set_ne xs v far in
      let ih : window ys (s + 1) n ≡ window xs (s + 1) n =
        window-set xs (s + 1) n j v (omega arith) (omega arith) in
      elim (Option-cases (get_elem? xs (s % length xs))) [
        | inl h ↦ rw (same, window) (rw (h, window) ih)
        | inr (x, h) ↦ rw (same, window) (rw (h, window) (ap (λ w. x ∷ w) ih))
      ]

  pub window-fill_before :
      (xs : List A) (s n j : ℕ) (vs : List A)
      → s + n ≤ j
      → j + length vs ≤ s + length xs
      → window (fill xs j vs) s n ≡ window xs s n
  window-fill_before xs s n j [] h₁ h₂ = refl
  window-fill_before xs s n j (v ∷ vs) h₁ h₂ =
      window-fill_before (set xs (j % length xs) v) s n (j + 1) vs (omega arith)
        (omega (arith, length-set xs (j % length xs) v))
      ∙ window-set xs s n j v h₁ (omega arith)

  pub window-fill_self :
      (xs : List A) (j : ℕ) (vs : List A)
      → length vs ≤ length xs
      → window (fill xs j vs) j (length vs) ≡ vs
  window-fill_self xs j [] h = refl
  window-fill_self xs j (v ∷ vs) h =
      let ys : List A = set xs (j % length xs) v in
      let zs : List A = fill ys (j + 1) vs in
      let size : length ys ≡ length xs = length-set xs (j % length xs) v in
      let size' : length zs ≡ length xs = length-fill ys (j + 1) vs ∙ size in
      let put : get_elem? ys (j % length ys) ≡ some v =
        ap (λ t. get_elem? ys (j % t)) size
        ∙ get_elem?-set_self xs (j % length xs) v (mod-lt j (omega arith)) in
      let first : window zs j 1 ≡ v ∷ [] =
        window-fill_before ys j 1 (j + 1) vs (omega arith) (omega arith)
        ∙ window-cons ys j 0 v put in
      let rest : window zs (j + 1) (length vs) ≡ vs =
        window-fill_self ys (j + 1) vs (omega arith) in
      let e : suc (length vs) ≡ 1 + length vs = omega arith in
      ap (window zs j) e ∙ window-append zs j 1 (length vs) ∙ ap₂ ◌++◌ first rest

  fill_congr :
      (xs : List A) (s t : ℕ) (vs : List A)
      → s % length xs ≡ t % length xs
      → fill xs s vs ≡ fill xs t vs
  fill_congr xs s t [] e = refl
  fill_congr xs s t (v ∷ vs) e =
      let ys : List A = set xs (t % length xs) v in
      let size : length xs ≡ length ys = sym (length-set xs (t % length xs) v) in
      ap (λ k. fill (set xs k v) (s + 1) vs) e
      ∙ fill_congr ys (s + 1) (t + 1) vs
          (subst (λ k. (s + 1) % k ≡ (t + 1) % k) size (next_congr s t (length xs) e))

  pub fill-mod : (xs : List A) (s : ℕ) (vs : List A) → fill xs (s % length xs) vs ≡ fill xs s vs
  fill-mod xs s vs = fill_congr xs (s % length xs) s vs (mod-mod s (length xs))

  -- Where nothing wraps, a window is a slice of the array.
  pub window_straight :
      (xs : List A) (s n : ℕ) → s + n ≤ length xs → window xs s n ≡ take n (drop s xs)
  window_straight xs s zero h = refl
  window_straight xs s (suc n) h =
      let (x, e) = get_elem?-eq_some xs s (omega arith) in
      let inside : s % length xs ≡ s = mod-eq_of_lt (omega arith) in
      let next : s + 1 ≡ suc s = omega arith in
      window-cons xs s n x (ap (get_elem? xs) inside ∙ e)
      ∙ ap (λ t. x ∷ t)
          (window_straight xs (s + 1) n (omega arith) ∙ ap (λ t. take n (drop t xs)) next)
      ∙ ap (take (suc n)) (sym (drop-get_elem? xs s x e))

  -- And filling is writing element after element.
  abbrev pub write_run : List A → ℕ → List A → List A
  write_run xs off [] = xs
  write_run xs off (v ∷ vs) = write_run (set xs off v) (off + 1) vs

  pub fill_straight :
      (xs : List A) (s : ℕ) (vs : List A)
      → s + length vs ≤ length xs
      → fill xs s vs ≡ write_run xs s vs
  fill_straight xs s [] h = refl
  fill_straight xs s (v ∷ vs) h =
      let inside : s % length xs ≡ s = mod-eq_of_lt (omega arith) in
      ap (λ k. fill (set xs k v) (s + 1) vs) inside
      ∙ fill_straight (set xs s v) (s + 1) vs (omega (arith, length-set xs s v))

  pub fill-append :
      (xs : List A) (s : ℕ) (us vs : List A)
      → fill xs s (us ++ vs) ≡ fill (fill xs s us) (s + length us) vs
  fill-append xs s [] vs = let e : s ≡ s + 0 = omega arith in ap (λ t. fill xs t vs) e
  fill-append xs s (u ∷ us) vs =
      let e : s + 1 + length us ≡ s + suc (length us) = omega arith in
      fill-append (set xs (s % length xs) u) (s + 1) us vs
      ∙ ap (λ t. fill (fill (set xs (s % length xs) u) (s + 1) us) t vs) e
