-- ===== src/VectorHelpers/Tests.antt =====
-- Runs of the vector helpers.
use mathlib.Core.List.{Perm}
use synthizer.Base.{ℕ, ◌≡◌, refl, some, List, [], ◌∷◌, ltb, select, not, arith}
use synthizer.VectorHelpers.{filter, filter_stable}
use synthizer.VectorHelpers.Unordered.{filter-perm-rejected}

abbrev readings : List ℕ
readings = 5 ∷ 1 ∷ 7 ∷ 2 ∷ 9 ∷ []

-- `filter` removes what passes its test; `filter_stable` keeps it.
filter_small : filter (λ x. ltb x 6) readings ≡ some (9 ∷ 7 ∷ [])
unfolding filter
filter_small = refl

filter_stable_small : filter_stable (λ x. ltb x 6) readings ≡ some (5 ∷ 1 ∷ 2 ∷ [])
unfolding filter_stable
filter_stable_small = refl

filter-perm-rejected_example :
    (ys : List ℕ) × (filter (λ x. ltb x 6) readings ≡ some ys)
    × Perm ys (select (λ x. not (ltb x 6)) readings)
filter-perm-rejected_example = filter-perm-rejected (λ x. ltb x 6) readings (omega arith)
