-- ===== src/Spec/HartMask/Forward.antt =====
-- Iteration from low to high: what `next` yields, one call after the other.
use rustsbi.Base.{
  ℕ, zero, suc, ◌+◌, ◌-◌, ◌*◌, ◌/◌, ◌%◌, ◌^◌, ◌≤◌, ◌<◌, bit_and, ◌≡◌, ap, ◌≢◌, inl, inr, false,
  ◌&&◌, List, ◌∷◌, map, arith, ltb, leb, ◌==◌, ==_iff, Bool-cases, length, length-map,
}
use native.Mathlib.Nat.{zero-add, add-zero}
use rustsbi.Base.{nil_of_length, elem, IsAscending}
use rustsbi.Base.Usize.{usize_bits, IsUsize, wrapping_add}
use rustsbi.Base.Words.{
  bit, one_shl, not_word, trailing_zeros, set_bits, set_bits-zero, set_bits-step, clear_bit-eq-sub,
  bit-trailing_zeros, trailing_zeros-lt, length-set_bits, count_ones, count_ones-le, bit_lem,
}
use rustsbi.Spec.HartMask.{
  HartMask, contains, iter, next, collect, size_hint, mask_base, ignore_mask,
}
use rustsbi.Spec.HartMask.Bits.{contains_lem, IsOrdinary}

-- Taking the lowest set bit of a word out subtracts it.
clear_lowest :
    (x : ℕ)
    → x < 2 ^ 64
    → x ≢ 0
    → bit_and x (not_word usize_bits (one_shl (trailing_zeros usize_bits x)))
      ≡ x - one_shl (trailing_zeros usize_bits x)
clear_lowest x h ne = omega (
  arith,
  clear_bit-eq-sub usize_bits x (trailing_zeros usize_bits x) h
      (trailing_zeros-lt usize_bits x h ne),
  ap (λ (t : ℕ). t * 2 ^ trailing_zeros usize_bits x) (bit-trailing_zeros usize_bits x h ne),
)

abbrev pub ids_from : ℕ → List ℕ → List ℕ
ids_from base = map (λ i. wrapping_add i base)

collect-mask_base :
    (fuel mask base : ℕ)
    → IsUsize mask
    → length (set_bits usize_bits 0 mask) ≤ fuel
    → collect fuel (mask_base mask base) ≡ ids_from base (set_bits usize_bits 0 mask)
unfolding collect next
collect-mask_base zero mask base h f = rw (nil_of_length (set_bits usize_bits 0 mask) f)
collect-mask_base (suc fuel) mask base h f = elim (Bool-cases (mask == 0)) [
  | inl empty ↦ rw (empty, collect, (==_iff mask 0).0 empty, set_bits-zero usize_bits 0)
  | inr more ↦
      let ne : mask ≢ 0 = ground arith in
      let first = set_bits-step usize_bits 0 mask h ne in
      rw (more, collect, clear_lowest mask h ne, first, zero-add (trailing_zeros usize_bits mask))
        (ap (λ (t : List ℕ). wrapping_add (trailing_zeros usize_bits mask) base ∷ t)
          (collect-mask_base fuel (mask - one_shl (trailing_zeros usize_bits mask)) base
            (omega arith) (omega (arith, ap (length {0}) first))))
]

elem-ids_from :
    (w k x base j : ℕ)
    → base + k + w ≤ 2 ^ 64
    → elem j (ids_from base (set_bits w k x))
      ≡ (leb (base + k) j && ltb j (base + k + w) && bit x (j - (base + k)) == 1)
unfolding elem set_bits
elem-ids_from zero k x base j h = ground arith
elem-ids_from (suc w) k x base j h = ground (
  arith,
  elem-ids_from w (suc k) (x / 2) base j,
  bit_lem x (j - (base + k)),
  ap (λ (t : ℕ). bit (x / 2) t) {x = j - (base + k) - 1} {y = j - (base + suc k)} (omega arith),
)

IsAscending-ids_from :
    (w k x base b : ℕ)
    → base + k + w ≤ 2 ^ 64
    → b ≤ base + k
    → IsAscending b (ids_from base (set_bits w k x))
unfolding set_bits
IsAscending-ids_from zero k x base b h le = tt
IsAscending-ids_from (suc w) k x base b h le = elim (Bool-cases (x % 2 == 1)) [
  | inl odd ↦
      rw odd
        (omega arith, IsAscending-ids_from w (suc k) (x / 2) base _ (omega arith) (omega arith))
  | inr even ↦ rw even (IsAscending-ids_from w (suc k) (x / 2) base b (omega arith) (omega arith))
]

-- An ordinary mask whose window does not wrap.
abbrev pub IsIterable : HartMask → Type 0
IsIterable m = IsOrdinary m × (m.hart_mask_base + usize_bits ≤ 2 ^ 64)

pub collect-iter :
    (m : HartMask) (fuel : ℕ)
    → IsOrdinary m
    → usize_bits ≤ fuel
    → collect fuel (iter m) ≡ ids_from m.hart_mask_base (set_bits usize_bits 0 m.hart_mask)
unfolding iter
collect-iter m fuel h f =
    let ordinary : (m.hart_mask_base == ignore_mask) ≡ false = ground arith in
    rw ordinary (
      collect-mask_base fuel m.hart_mask m.hart_mask_base h.0 (
        omega
          (arith, length-set_bits usize_bits 0 m.hart_mask, count_ones-le usize_bits m.hart_mask)))

-- With fuel for 64 calls, repeated `next` on an ordinary mask whose window does not wrap yields
-- exactly the harts that the mask contains, in strictly increasing order.
pub elem-collect :
    (m : HartMask) (fuel : ℕ)
    → IsIterable m
    → usize_bits ≤ fuel
    → IsAscending 0 (collect fuel (iter m))
      × ((j : ℕ) → elem j (collect fuel (iter m)) ≡ contains m j)
elem-collect m fuel h f = rw (collect-iter m fuel h.0 f) (
  IsAscending-ids_from usize_bits 0 m.hart_mask m.hart_mask_base 0 (omega arith) (omega arith),
  λ j. ground (
    arith,
    elem-ids_from usize_bits 0 m.hart_mask m.hart_mask_base j,
    contains_lem m j h.0.1,
    add-zero m.hart_mask_base,
  ),
)

size_hint-iter :
    (m : HartMask) → IsOrdinary m → size_hint (iter m) ≡ count_ones usize_bits m.hart_mask
unfolding size_hint iter
size_hint-iter m h =
    let ordinary : (m.hart_mask_base == ignore_mask) ≡ false = ground arith in rw ordinary

-- `size_hint` of an ordinary mask is the number of harts that repeated `next` yields.
pub length-collect :
    (m : HartMask) (fuel : ℕ)
    → IsOrdinary m
    → usize_bits ≤ fuel
    → length (collect fuel (iter m)) ≡ size_hint (iter m)
length-collect m fuel h f =
    rw (collect-iter m fuel h f, size_hint-iter m h, ← length-set_bits usize_bits 0 m.hart_mask)
      (length-map _ _)
