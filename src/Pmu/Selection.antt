-- ===== src/Pmu/Selection.antt =====
-- The counters that a base and a mask select, and that the loops over them meet no panic.
use rustsbi.Base.{
  ℕ, zero, suc, ◌+◌, ◌-◌, ◌*◌, ◌/◌, ◌^◌, ◌≤◌, ◌<◌, ◌≡◌, refl, ap, ◌∙◌, ◌≢◌, inl, inr, Bool, true,
  false, ◌&&◌, [], arith, ltb, leb, ◌==◌, Bool-cases, Option-cases, length, elem,
}
use native.Mathlib.Nat.{lt-div-mul-add, one-le-pow, zero-mul}
use rustsbi.Base.Usize.{IsUsize}
use rustsbi.Base.{nil_of_length}
use rustsbi.Base.Words.{
  bit, one_shl, trailing_zeros, count_ones, set_bits, set_bits-step, set_bits-zero, length-set_bits,
  count_ones-le, bit_and-clear_lowest, bit_above, bit_lem,
}
use rustsbi.Pmu.State.{PmuState, counters, start_fw_counter, stop_fw_counter, firmware_counter_max}
use rustsbi.Pmu.Hardware.{
  Hardware, start_hardware_counter, stop_hardware_counter, try_from_offset, write_mhpmcounter,
  write_mhpmevent, start, stop,
}
use rustsbi.Pmu.Calls.{Machine, bad_selection}

counters-set_bits :
    (n base mask : ℕ)
    → IsUsize mask
    → length (set_bits 64 base mask) ≤ n
    → counters base mask n ≡ set_bits 64 base mask
unfolding counters
counters-set_bits zero base mask h few = rw (nil_of_length (set_bits 64 base mask) few)
counters-set_bits (suc n) base mask h few = elim (Bool-cases (mask == 0)) [
  | inl empty ↦
      let none_left : set_bits 64 base mask ≡ [] =
        ap (set_bits 64 base) (ground arith) ∙ set_bits-zero 64 base in
      rw (counters, empty, none_left)
  | inr more ↦
      let ne : mask ≢ 0 = ground arith in
      let first = set_bits-step 64 base mask h ne in
      let shorter = ap (length {0}) first in
      let swap : trailing_zeros 64 mask + base ≡ base + trailing_zeros 64 mask = omega arith in
      let rest =
        counters-set_bits n base (mask - one_shl (trailing_zeros 64 mask)) (omega arith)
          (omega arith) in
      rw (counters, more, first, bit_and-clear_lowest 64 mask h ne, rest, swap)
]

elem-set_bits :
    (w k x j : ℕ) → elem j (set_bits w k x) ≡ (leb k j && ltb j (k + w) && bit x (j - k) == 1)
unfolding elem set_bits
elem-set_bits zero k x j = ground arith
elem-set_bits (suc w) k x j = ground (
  arith,
  elem-set_bits w (suc k) (x / 2) j,
  bit_lem x (j - k),
  ap (λ (t : ℕ). bit (x / 2) t) {x = j - k - 1} {y = j - suc k} (omega arith),
)

-- The selected counters are those of the set bits of the mask.
pub elem-counters :
    (base mask j : ℕ)
    → IsUsize mask
    → elem j (counters base mask 64) ≡ (leb base j && ltb j (base + 64) && bit mask (j - base) == 1)
elem-counters base mask j h =
    rw
      (counters-set_bits 64 base mask h
        (omega (arith, length-set_bits 64 base mask, count_ones-le 64 mask)))
      (elem-set_bits 64 base mask j)

small_of_shift : (x d : ℕ) → x / 2 ^ d ≡ 0 → x < 2 ^ d
small_of_shift x d e =
    let bound = lt-div-mul-add {a = x} {b = 2 ^ d} (omega (arith, one-le-pow d 2)) in
    let none_whole : x / 2 ^ d * 2 ^ d ≡ 0 = ap (λ (t : ℕ). t * 2 ^ d) e ∙ zero-mul (2 ^ d) in
    omega (arith, bound, none_whole)

-- A base and a mask that pass the check of the calls select only counters that there are,
-- whatever the mask word.
pub bad_selection-bounds :
    (s : PmuState) (base mask j : ℕ)
    → IsUsize mask
    → bad_selection s base mask ≡ false
    → elem j (counters base mask 64) ≡ true
    → (base ≤ j) × (j < s.total_counters_num)
unfolding bad_selection
bad_selection-bounds s base mask j h good e =
    let chosen = elem-counters base mask j h in
    let room = s.total_counters_num - base in
    elim (Bool-cases (ltb j s.total_counters_num)) [
      | inl below ↦ ground (arith, chosen)
      | inr beyond ↦ elim (Bool-cases (ltb room 64)) [
        | inl narrow ↦
            let shifted : mask / 2 ^ room ≡ 0 = ground arith in
            let clear =
              bit_above room mask (j - base) (small_of_shift mask room shifted) (ground arith) in
            ground (arith, chosen, clear)
        | inr wide ↦ ground (arith, chosen)
      ]
    ]

-- The numbers of counters are those of the mask of the hart.
pub record IsCounted (m : Machine) : Type 0 where
  pub word : m.hardware.mhpm_mask < 2 ^ 32
  pub hardware_counters : m.pmu_state.hw_counters_num ≡ count_ones 32 m.hardware.mhpm_mask
  pub all_counters :
      m.pmu_state.total_counters_num ≡ m.pmu_state.hw_counters_num + firmware_counter_max

-- What the calls never change.
pub record Same (m m' : Machine) : Type 0 where
  pub same_mask : m'.hardware.mhpm_mask ≡ m.hardware.mhpm_mask
  pub same_hw : m'.pmu_state.hw_counters_num ≡ m.pmu_state.hw_counters_num
  pub same_total : m'.pmu_state.total_counters_num ≡ m.pmu_state.total_counters_num

pub IsCounted-Same : {m m' : Machine} → IsCounted m → Same m m' → IsCounted m'
IsCounted-Same {m} {m'} c k = record {
  word = rw (k.same_mask) c.word;
  hardware_counters = rw (k.same_mask, k.same_hw) c.hardware_counters;
  all_counters = rw (k.same_hw, k.same_total) c.all_counters;
}

pub start_fw-same :
    (s : PmuState) (i v : ℕ) (u : Bool)
    → ((start_fw_counter s i v u).0.hw_counters_num ≡ s.hw_counters_num)
      × ((start_fw_counter s i v u).0.total_counters_num ≡ s.total_counters_num)
unfolding start_fw_counter
start_fw-same s i v u = ground arith

pub stop_fw-same :
    (s : PmuState) (i : ℕ) (r : Bool)
    → ((stop_fw_counter s i r).0.hw_counters_num ≡ s.hw_counters_num)
      × ((stop_fw_counter s i r).0.total_counters_num ≡ s.total_counters_num)
unfolding stop_fw_counter
stop_fw-same s i r = ground arith

pub start_hardware-same :
    (hw : Hardware) (o v : ℕ) (u : Bool)
    → (start_hardware_counter hw o v u).0.mhpm_mask ≡ hw.mhpm_mask
unfolding start_hardware_counter write_mhpmcounter start
start_hardware-same hw o v u = elim (Option-cases (try_from_offset o)) [
  | inl e ↦ rw (start_hardware_counter, e) refl
  | inr (c, e) ↦ rw (start_hardware_counter, e) (ground arith)
]

pub stop_hardware-same :
    (hw : Hardware) (o : ℕ) (r : Bool) → (stop_hardware_counter hw o r).0.mhpm_mask ≡ hw.mhpm_mask
unfolding stop_hardware_counter write_mhpmevent stop
stop_hardware-same hw o r = elim (Option-cases (try_from_offset o)) [
  | inl e ↦ rw (stop_hardware_counter, e) refl
  | inr (c, e) ↦ rw (stop_hardware_counter, e) (ground arith)
]
