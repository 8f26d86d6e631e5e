-- ===== src/Pmu/Offsets.antt =====
-- The offset of a counter, as the two loops of pmu.rs find it: the place of a set bit of the mask.
use rustsbi.Base.{
  ℕ, zero, suc, ◌+◌, ◌-◌, ◌/◌, ◌%◌, ◌^◌, ◌≤◌, ◌<◌, ◌≡◌, refl, sym, ap, ◌∙◌, ◌≢◌, inl, inr, Option,
  none, some, [], arith, ltb, leb, ◌==◌, if◌then◌else◌, Bool-cases, length, get_elem?,
}
use rustsbi.Base.Words.{
  bit, one_shl, trailing_zeros, count_ones, set_bits, set_bits-step, set_bits-zero, length-set_bits,
  count_ones-le, bit_and-pred, get_elem?-set_bits, get_elem?-below, get_elem?-beyond, bit_zero,
  bit-suc,
}
use rustsbi.Spec.Ret.{SbiRet, success}
use rustsbi.Pmu.Hardware.{Hardware, offset_from, get_mhpm_csr_offset}
use rustsbi.Pmu.Calls.{
  Machine, info_loop, counter_get_info, with_hardware_info, with_firmware_info, csr_cycle, refuse,
}

offset_from_lem :
    (n mask idx k count x : ℕ)
    → count ≤ idx
    → ((j : ℕ) → bit mask (k + j) ≡ bit x j)
    → offset_from mask idx k count n ≡ get_elem? (set_bits n k x) (idx - count)
unfolding offset_from set_bits
offset_from_lem zero mask idx k count x le same = refl
offset_from_lem (suc n) mask idx k count x le same =
    let here : bit mask k ≡ x % 2 =
      ap (bit mask) {x = k} {y = k + 0} (omega arith) ∙ same 0 ∙ bit_zero x in
    let same' : (j : ℕ) → bit mask (suc k + j) ≡ bit (x / 2) j = λ j.
      ap (bit mask) {x = suc k + j} {y = k + suc j} (omega arith) ∙ same (suc j) ∙ bit-suc x j in
    elim (Bool-cases (x % 2 == 1)) [
      | inr even ↦ rw (here, even) (offset_from_lem n mask idx (suc k) count (x / 2) le same')
      | inl odd ↦ elim (Bool-cases (count == idx)) [
        | inl found ↦
            let zero_left : idx - count ≡ 0 = ground arith in rw (here, odd, found, zero_left)
        | inr other ↦
            let left : idx - count ≡ suc (idx - suc count) = ground arith in
            rw (here, odd, other, left)
              (offset_from_lem n mask idx (suc k) (suc count) (x / 2) (ground arith) same')
      ]
    ]

-- The offset of a counter is the place of the set bit of the mask with its index.
pub offset_lem :
    (hw : Hardware) (idx : ℕ)
    → get_mhpm_csr_offset hw idx ≡ get_elem? (set_bits 32 0 hw.mhpm_mask) idx
unfolding get_mhpm_csr_offset
offset_lem hw idx =
    offset_from_lem 32 hw.mhpm_mask idx 0 0 hw.mhpm_mask (omega arith)
      (λ j. ap (bit hw.mhpm_mask) (omega arith))
    ∙ ap (get_elem? (set_bits 32 0 hw.mhpm_mask)) (omega arith)

-- Every index below the number of set bits has an offset, which is the place of a set bit.
pub offset_below :
    (hw : Hardware) (idx : ℕ)
    → idx < count_ones 32 hw.mhpm_mask
    → (o : ℕ) × (get_mhpm_csr_offset hw idx ≡ some o) × (o < 32) × (bit hw.mhpm_mask o ≡ 1)
offset_below hw idx h =
    let (o, found) =
      get_elem?-below (set_bits 32 0 hw.mhpm_mask) idx
        (omega (arith, length-set_bits 32 0 hw.mhpm_mask)) in
    let place = get_elem?-set_bits 32 0 hw.mhpm_mask idx o found in
    let same = ap (bit hw.mhpm_mask) {x = o - 0} {y = o} (omega arith) in
    (o, offset_lem hw idx ∙ found, omega (arith, place.1), sym same ∙ place.2)

pub offset_beyond :
    (hw : Hardware) (idx : ℕ) → count_ones 32 hw.mhpm_mask ≤ idx → get_mhpm_csr_offset hw idx ≡ none
offset_beyond hw idx h =
    offset_lem hw idx
    ∙ get_elem?-beyond (set_bits 32 0 hw.mhpm_mask) idx
        (omega (arith, length-set_bits 32 0 hw.mhpm_mask))

-- What `counter_get_info` says of an offset: the time counter and no counter are refused.
abbrev pub info_at : Option ℕ → SbiRet
info_at none = refuse
info_at (some offset) =
    if offset == 1 then refuse else success (with_hardware_info (csr_cycle + offset) 63)

info_loop_lem :
    (n idx x count : ℕ)
    → x < 2 ^ 32
    → count ≤ idx
    → length (set_bits 32 0 x) < n
    → info_loop idx x count n ≡ info_at (get_elem? (set_bits 32 0 x) (idx - count))
unfolding info_loop
info_loop_lem zero idx x count small le fuel = absurd (omega arith)
info_loop_lem (suc n) idx x count small le fuel = elim (Bool-cases (x == 0)) [
  | inl empty ↦
      let none_left : set_bits 32 0 x ≡ [] =
        ap (set_bits 32 0) (ground arith) ∙ set_bits-zero 32 0 in
      rw (empty, none_left)
  | inr more ↦
      let ne : x ≢ 0 = ground arith in
      let first = set_bits-step 32 0 x small ne in
      let shorter = ap (length {0}) first in
      let place : 0 + trailing_zeros 32 x ≡ trailing_zeros 32 x = omega arith in
      elim (Bool-cases (count == idx)) [
        | inl found ↦
            let zero_left : idx - count ≡ 0 = ground arith in
            rw (more, found, zero_left, first, place)
        | inr other ↦
            let left : idx - count ≡ suc (idx - suc count) = ground arith in
            rw (more, other, left, first, bit_and-pred 32 x small ne)
              (info_loop_lem n idx (x - one_shl (trailing_zeros 32 x)) (suc count) (omega arith)
                (ground arith) (omega arith))
      ]
]

-- With a mask of 32 bits, `counter_get_info` describes a hardware counter
-- by the offset that `get_mhpm_csr_offset` finds for it, though the two search the mask by
-- different loops; it refuses the time counter and the indices past the last counter, and
-- describes all others as firmware counters.
pub counter_get_info_lem :
    (m : Machine) (idx : ℕ)
    → m.hardware.mhpm_mask < 2 ^ 32
    → counter_get_info m idx ≡ (
        if leb m.pmu_state.total_counters_num idx
        then refuse
        else if ltb idx m.pmu_state.hw_counters_num
        then info_at (get_mhpm_csr_offset m.hardware idx)
        else success with_firmware_info)
unfolding counter_get_info
counter_get_info_lem m idx small =
    let mask = m.hardware.mhpm_mask in
    let few : length (set_bits 32 0 mask) < 33 =
      omega (arith, length-set_bits 32 0 mask, count_ones-le 32 mask) in
    let loop = info_loop_lem 33 idx mask 0 small (omega arith) few in
    let start = ap (get_elem? (set_bits 32 0 mask)) {x = idx - 0} {y = idx} (omega arith) in
    rw (loop, start, offset_lem m.hardware idx) refl
