-- ===== src/Ipi/Examples.antt =====
-- Eight harts of which the first two are enabled.
use rustsbi.Base.{◌≡◌, refl, true, false, not, ◌&&◌, ◌||◌, [], ◌∷◌, arith, ◌==◌, elem}
use rustsbi.Base.Words.{trailing_zeros}
use rustsbi.Spec.Ret.{ok, err, invalid_param}
use rustsbi.Spec.HartMask.{HartMask, from_mask_base, contains, ignore_mask, collect, iter, next}
use rustsbi.Hart.{from_raw}
use rustsbi.Ipi.{
  or_false, Board, target_requests, targets, available, assigned, active_bits, one_request,
}
use rustsbi.Ipi.Targets.{target_requests-selects}

abbrev board : Board
board = record {
  enabled = true ∷ true ∷ false ∷ false ∷ false ∷ false ∷ false ∷ false ∷ [];
  privilege_checked = λ i. true;
  can_receive_ipi = λ i. not (i == 0);
}

abbrev both : HartMask
both = from_mask_base 3 0

abbrev beyond : HartMask
beyond = from_mask_base 6 1

both_run : target_requests board both ≡ ok (from_mask_base 2 0 ∷ [])
unfolding target_requests active_bits one_request collect iter next from_raw available assigned
    or_false trailing_zeros
both_run = refl

target_requests-selects_example :
    (elem 1 (targets (from_mask_base 2 0 ∷ [])) ≡ (contains both 1 && available board 1))
    × ((both.hart_mask_base == ignore_mask || (not (contains both 1) || assigned board 1)) ≡ true)
target_requests-selects_example =
    target_requests-selects board both (from_mask_base 2 0 ∷ []) 1 refl (omega arith) both_run

beyond_run : target_requests board beyond ≡ err invalid_param
unfolding target_requests active_bits one_request collect iter next from_raw available assigned
    or_false trailing_zeros
beyond_run = refl
