-- ===== src/Spec/HartMask.antt =====
-- library/sbi-spec/src/binary/hart_mask.rs: `HartMask` at `T = usize`, and its iterator `HartIds`.
pub mod Bits
pub mod Forward
pub mod Backward
mod Examples
use rustsbi.Base.{
  ℕ, zero, suc, ◌+◌, ◌-◌, ◌*◌, ◌/◌, ◌%◌, ◌^◌, ◌≤◌, ◌<◌, min, max, bit_and, bit_or, ◌≡◌, refl, sym,
  ap, ◌∙◌, subst, ◌≢◌, ◌↔◌, ◌⊎◌, inl, inr, Bool, true, false, not, ◌&&◌, ◌||◌, Option, none, some,
  List, [], ◌∷◌, ◌++◌, map, arith, ltb, leb, ◌==◌, if◌then◌else◌, ltb→lt, leb→le, ==_iff,
  Bool-cases, Option-cases, length, get_elem?, set, All, length-append, length-map, All-append,
}
use rustsbi.Base.Usize.{usize_bits, usize_max, wrapping_add}
use rustsbi.Base.Words.{one_shl, not_word, trailing_zeros, leading_zeros, count_ones}
use rustsbi.Spec.Mask.{valid_bit, has_bit, MaskError, ignored, invalid_bit, Change, done, refused}

pub record HartMask : Type 0 where
  pub hart_mask : ℕ
  pub hart_mask_base : ℕ

abbrev pub ignore_mask : ℕ
ignore_mask = usize_max

abbrev pub from_mask_base : ℕ → ℕ → HartMask
from_mask_base mask base = record { hart_mask = mask; hart_mask_base = base }

-- `HartMask::all`.
abbrev pub all_harts : HartMask
all_harts = record { hart_mask = 0; hart_mask_base = usize_max }

abbrev pub into_inner : HartMask → ℕ × ℕ
into_inner m = (m.hart_mask, m.hart_mask_base)

-- `HartMask::has_bit`.
unfoldable pub contains : HartMask → ℕ → Bool
contains m hart_id = has_bit m.hart_mask m.hart_mask_base ignore_mask hart_id

-- `HartMask::insert`.
unfoldable pub insert : HartMask → ℕ → Change HartMask
insert m hart_id =
    if m.hart_mask_base == ignore_mask
    then done m
    else if valid_bit m.hart_mask_base hart_id
    then done (record m { hart_mask = bit_or m.hart_mask (one_shl (hart_id - m.hart_mask_base)) })
    else refused m invalid_bit

-- `HartMask::remove`.
unfoldable pub remove : HartMask → ℕ → Change HartMask
remove m hart_id =
    if m.hart_mask_base == ignore_mask
    then refused m ignored
    else if valid_bit m.hart_mask_base hart_id
    then done (record m {
      hart_mask = bit_and m.hart_mask (not_word usize_bits (one_shl (hart_id - m.hart_mask_base)));
    })
    else refused m invalid_bit

-- What `HartIds` has still to visit.
pub data UnvisitedMask : Type 0 where
  mask_base : ℕ → ℕ → UnvisitedMask
  range : ℕ → ℕ → UnvisitedMask

-- `HartMask::iter`.
unfoldable pub iter : HartMask → UnvisitedMask
iter m =
    if m.hart_mask_base == ignore_mask
    then range 0 usize_max
    else mask_base m.hart_mask m.hart_mask_base

-- `Iterator::next`. The assertion `start <= end` is an invariant of `iter` and of both ends'
-- steps, and no separate case.
unfoldable pub next : UnvisitedMask → Option (ℕ × UnvisitedMask)
next (mask_base mask base) =
    let low_bit = trailing_zeros usize_bits mask in
    if mask == 0
    then none
    else some (
      wrapping_add low_bit base,
      mask_base (bit_and mask (not_word usize_bits (one_shl low_bit))) base,
    )
next (range start end) = if ltb start end then some (start, range (start + 1) end) else none

-- `DoubleEndedIterator::next_back`.
unfoldable pub next_back : UnvisitedMask → Option (ℕ × UnvisitedMask)
next_back (mask_base mask base) =
    let high_bit = usize_bits - leading_zeros usize_bits mask - 1 in
    if mask == 0
    then none
    else some (
      wrapping_add high_bit base,
      mask_base (bit_and mask (not_word usize_bits (one_shl high_bit))) base,
    )
next_back (range start end) = if ltb start end then some (end, range start (end - 1)) else none

-- The exact value of `size_hint`, which is also `count`.
unfoldable pub size_hint : UnvisitedMask → ℕ
size_hint (mask_base mask base) = count_ones usize_bits mask
size_hint (range start end) = end - start

-- `last` and `max` are `next_back`, `min` is `next`.
pub last : UnvisitedMask → Option ℕ
last ids = elim (next_back ids) [ none ↦ none | some (h, rest) ↦ some h ]

-- All that `next` yields, with fuel for the number of calls.
unfoldable pub collect : ℕ → UnvisitedMask → List ℕ
collect zero ids = []
collect (suc fuel) ids = elim (next ids) [ none ↦ [] | some (h, rest) ↦ h ∷ collect fuel rest ]

-- The same through `rev`, which calls `next_back`.
unfoldable pub collect_back : ℕ → UnvisitedMask → List ℕ
collect_back zero ids = []
collect_back (suc fuel) ids = elim (next_back ids) [
  | none ↦ []
  | some (h, rest) ↦ h ∷ collect_back fuel rest
]
