-- ===== src/Spec/HartMask/Examples.antt =====
-- Instances of the theorems about `HartMask` and `HartIds`, and tests from the source's own.
use rustsbi.Base.{ℕ, ◌≡◌, refl, false, some, [], ◌∷◌, arith}
use rustsbi.Base.{elem, IsAscending}
use rustsbi.Base.Words.{bit, trailing_zeros, leading_zeros}
use rustsbi.Spec.HartMask.{
  HartMask, contains, from_mask_base, iter, next, next_back, collect, collect_back, range,
}
use rustsbi.Spec.HartMask.Bits.{IsOrdinary}
use rustsbi.Spec.HartMask.Forward.{elem-collect}
use rustsbi.Spec.HartMask.Backward.{range_ends_disagree}

abbrev sparse : HartMask
sparse = from_mask_base 43 1

collect-sparse : collect 64 (iter sparse) ≡ 1 ∷ 2 ∷ 4 ∷ 6 ∷ []
unfolding collect next iter trailing_zeros
collect-sparse = refl

collect_back-sparse : collect_back 64 (iter sparse) ≡ 6 ∷ 4 ∷ 2 ∷ 1 ∷ []
unfolding collect_back next_back iter leading_zeros bit
collect_back-sparse = refl

sparse-IsOrdinary : IsOrdinary sparse
sparse-IsOrdinary = omega arith

elem-collect_example :
    IsAscending 0 (collect 64 (iter sparse))
    × ((j : ℕ) → elem j (collect 64 (iter sparse)) ≡ contains sparse j)
elem-collect_example = elem-collect sparse 64 (sparse-IsOrdinary, omega arith) (omega arith)

range_ends_disagree_example :
    (next_back (range 0 4) ≡ some (4, range 0 3)) × (elem 4 (collect 9 (range 0 4)) ≡ false)
range_ends_disagree_example = range_ends_disagree 0 4 9 (omega arith)
