-- ===== src/Pmp/Slots.antt =====
-- library/pmpm/src/bitmap.rs: `PMPSlotAllocator`. Each compare-and-exchange loop takes a list with
-- one entry for each round that another writer may disturb: the bitmap that is found at the
-- exchange. When the list ends nobody interferes, so the next exchange succeeds.
pub mod Alloc
pub mod Free
use rustsbi.Base.{
  ℕ, zero, suc, ◌+◌, ◌-◌, ◌*◌, ◌/◌, ◌%◌, ◌^◌, ◌≤◌, ◌<◌, min, max, bit_and, bit_or, ◌≡◌, refl, sym,
  ap, ◌∙◌, subst, ◌≢◌, ◌↔◌, ◌⊎◌, inl, inr, Bool, true, false, not, ◌&&◌, ◌||◌, Option, none, some,
  List, [], ◌∷◌, ◌++◌, map, arith, ltb, leb, ◌==◌, if◌then◌else◌, ltb→lt, leb→le, ==_iff,
  Bool-cases, Option-cases, length, get_elem?, set, All, length-append, length-map, All-append,
}
use rustsbi.Base.Usize.{usize_bits}
use rustsbi.Base.Words.{one_shl, not_word, trailing_zeros}
use rustsbi.Pmp.{max_pmp_entry_count}

pub data PmpError : Type 0 where
  index_out_of_range no_free_slot : PmpError

pub data Outcome {ℓ} (A : Type ℓ) : Type ℓ where
  ok : A → Outcome A
  err : PmpError → Outcome A

pub record PmpSlotAllocator : Type 0 where
  pub pmp_slots : ℕ
  pub alloc_mask : ℕ
  pub manage_mask : ℕ

abbrev pub new : ℕ → ℕ → PmpSlotAllocator
new alloc_mask manage_mask = record {
  pmp_slots = 0;
  alloc_mask = alloc_mask;
  manage_mask = manage_mask;
}

-- The slots that are free and may be handed out.
abbrev pub available_slots : ℕ → ℕ → ℕ
available_slots mask slots = bit_and (not_word 64 slots) mask

-- The loop of `alloc`, on the bitmap alone.
unfoldable pub alloc_loop : ℕ → ℕ → List ℕ → ℕ × Outcome ℕ
alloc_loop mask slots [] =
    let free = available_slots mask slots in
    let idx = trailing_zeros 64 free in
    if free == 0 then (slots, err no_free_slot) else (bit_or slots (one_shl idx), ok idx)
alloc_loop mask slots (found ∷ others) =
    let free = available_slots mask slots in
    let idx = trailing_zeros 64 free in
    let retry = alloc_loop mask found others in
    if free == 0
    then (slots, err no_free_slot)
    else if found == slots
    then (bit_or slots (one_shl idx), ok idx)
    else retry

unfoldable pub alloc : PmpSlotAllocator → List ℕ → PmpSlotAllocator × Outcome ℕ
alloc a others =
    let (slots, r) = alloc_loop a.alloc_mask a.pmp_slots others in
    (record a { pmp_slots = slots }, r)

-- `1u64 << (idx & (MAX_PMP_ENTRY_COUNT - 1))`.
abbrev pub slot_bit : ℕ → ℕ
slot_bit idx = one_shl (bit_and idx (max_pmp_entry_count - 1))

-- The loop of `free`.
pub free_loop : ℕ → ℕ → ℕ → List ℕ → ℕ × Outcome (Unit {0})
free_loop mask bit slots [] =
    if bit_and (bit_and slots bit) mask == 0
    then (slots, err index_out_of_range)
    else (bit_and slots (not_word 64 bit), ok tt)
free_loop mask bit slots (found ∷ others) =
    let retry = free_loop mask bit found others in
    if bit_and (bit_and slots bit) mask == 0
    then (slots, err index_out_of_range)
    else if found == slots
    then (bit_and slots (not_word 64 bit), ok tt)
    else retry

pub free : PmpSlotAllocator → ℕ → List ℕ → PmpSlotAllocator × Outcome (Unit {0})
free a idx others =
    let (slots, r) = free_loop a.alloc_mask (slot_bit idx) a.pmp_slots others in
    (record a { pmp_slots = slots }, r)

pub is_alloc : PmpSlotAllocator → ℕ → Outcome Bool
is_alloc a idx =
    if bit_and (slot_bit idx) a.alloc_mask == 0
    then err index_out_of_range
    else ok (not (bit_and a.pmp_slots (slot_bit idx) == 0))

-- A shift by a `u32` of 64 or more is masked in release builds.
pub is_managed : PmpSlotAllocator → ℕ → Bool
is_managed a idx = not (bit_and a.manage_mask (one_shl (idx % 64)) == 0)
