-- ===== src/Base/Slices.antt =====
-- Parts of a list: a take or a drop in two steps.
use Prim.Native.Nat.{ℕ, zero, suc, ◌+◌, ◌*◌, ◌≤◌}
use mathlib.Core.Path.{◌≡◌, refl, ap, sym, subst, ◌∙◌}
use mathlib.Core.List.{List, [], ◌∷◌, ◌++◌}
use mathlib.Core.Option.{some, some-injective}
use synthizer.Base.Tests.{if◌then◌else◌, ◌==◌}
use synthizer.Base.Lists.{length, get_elem?, take, drop, All, length-append, drop-append}
use native.Mathlib.Omega.{arith}

module _ {ℓ} {A : Type ℓ} where
  pub take-split :
      (m n k : ℕ) (xs : List A) → m ≡ n + k → take m xs ≡ take n xs ++ take k (drop n xs)
  take-split m zero k xs e = ap (λ j. take j xs) (omega (arith, e))
  take-split zero (suc n) k xs e = absurd (omega (arith, e))
  take-split (suc m) (suc n) zero [] e = refl
  take-split (suc m) (suc n) (suc k) [] e = refl
  take-split (suc m) (suc n) k (x ∷ xs) e = ap (λ l. x ∷ l) (take-split m n k xs (omega (arith, e)))

  pub drop-split : (m n k : ℕ) (xs : List A) → m ≡ n + k → drop m xs ≡ drop k (drop n xs)
  drop-split m zero k xs e = ap (λ j. drop j xs) (omega (arith, e))
  drop-split zero (suc n) k xs e = absurd (omega (arith, e))
  drop-split (suc m) (suc n) zero [] e = refl
  drop-split (suc m) (suc n) (suc k) [] e = refl
  drop-split (suc m) (suc n) k (x ∷ xs) e = drop-split m n k xs (omega (arith, e))

  pub drop_all : (xs : List A) (n : ℕ) → length xs ≤ n → drop n xs ≡ []
  drop_all [] zero h = refl
  drop_all [] (suc n) h = refl
  drop_all (x ∷ xs) zero h = absurd (omega arith)
  drop_all (x ∷ xs) (suc n) h = drop_all xs n (omega arith)

  pub take-first : (n : ℕ) (xs ys : List A) → n ≤ length xs → take n (xs ++ ys) ≡ take n xs
  take-first zero xs ys h = refl
  take-first (suc n) [] ys h = absurd (omega arith)
  take-first (suc n) (x ∷ xs) ys h = ap (λ l. x ∷ l) (take-first n xs ys (omega arith))

  pub drop-first : (n : ℕ) (xs ys : List A) → n ≤ length xs → drop n (xs ++ ys) ≡ drop n xs ++ ys
  drop-first zero xs ys h = refl
  drop-first (suc n) [] ys h = absurd (omega arith)
  drop-first (suc n) (x ∷ xs) ys h = drop-first n xs ys (omega arith)

  abbrev pub concat : List (List A) → List A
  concat [] = []
  concat (xs ∷ xss) = xs ++ concat xss

  length-concat :
      (w : ℕ) (xss : List (List A))
      → All (λ (xs : List A). length xs ≡ w) xss
      → length (concat xss) ≡ length xss * w
  length-concat w [] h = omega arith
  length-concat w (xs ∷ xss) h =
      omega (arith, length-append xs (concat xss), h.0, length-concat w xss h.1)

  -- In a list of blocks of one width, the rest of the blocks from one of them on.
  pub drop-concat :
      (w k : ℕ) (xss : List (List A)) (xs : List A)
      → All (λ (ys : List A). length ys ≡ w) xss
      → get_elem? xss k ≡ some xs
      → drop (k * w) (concat xss) ≡ xs ++ concat (drop (suc k) xss)
  drop-concat w k [] xs h e = cc
  drop-concat w zero (y ∷ ys) xs h e =
      let start : 0 * w ≡ 0 = omega arith in
      ap (λ n. drop n (y ++ concat ys)) start ∙ ap (λ l. l ++ concat ys) (some-injective y xs e)
  drop-concat w (suc k) (y ∷ ys) xs h e =
      drop-split (suc k * w) w (k * w) (y ++ concat ys) (omega arith)
      ∙ ap (drop (k * w)) (drop-append y (concat ys) w (sym h.0))
      ∙ drop-concat w k ys xs h.1 e

module _ {ℓ κ} {A : Type ℓ} (P : A → Type κ) where
  pub All-get_elem? : (xs : List A) (i : ℕ) (x : A) → All P xs → get_elem? xs i ≡ some x → P x
  All-get_elem? [] i x h e = cc
  All-get_elem? (y ∷ ys) zero x h e = subst P (some-injective y x e) h.0
  All-get_elem? (y ∷ ys) (suc i) x h e = All-get_elem? ys i x h.1 e

-- How often a number stands in a list.
abbrev pub occurrences : ℕ → List ℕ → ℕ
occurrences a [] = 0
occurrences a (b ∷ bs) = (if a == b then 1 else 0) + occurrences a bs

pub occurrences-of_append :
    (a : ℕ) (xs ys : List ℕ) → occurrences a (xs ++ ys) ≡ occurrences a xs + occurrences a ys
occurrences-of_append a [] ys = omega arith
occurrences-of_append a (x ∷ xs) ys = omega (arith, occurrences-of_append a xs ys)
