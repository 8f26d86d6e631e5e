-- ===== src/Pmp/Slots/Free.antt =====
-- What `free` gives back, and that it undoes `alloc`.
use rustsbi.Base.{
  ℕ, ◌^◌, ◌<◌, min, bit_and, ◌≡◌, refl, sym, ap, ◌∙◌, subst, ◌≢◌, inl, inr, true, false, List, [],
  ◌∷◌, arith, ◌==◌, ==_iff, Bool-cases, All,
}
use rustsbi.Base.{Among}
use rustsbi.Base.Words.{
  bit, one_shl, not_word, trailing_zeros-lt, bit-bit_and, bit-one_shl_self, test_bit, bit-lt_two,
  bit-clear_bit_self, bit-clear_bit_ne, bit_and-le, bit_or-lt, pow-lt, bit_ext, bit_and_full,
  bit-one_shl_ne, bit-zero,
}
use rustsbi.Pmp.Slots.{
  PmpSlotAllocator, alloc, alloc_loop, free, free_loop, is_alloc, available_slots, Outcome, ok, err,
  index_out_of_range,
}
use rustsbi.Pmp.Slots.Alloc.{Allocates, alloc_attempt, available-lt}

-- A slot that the mask covers and the bitmap holds.
abbrev pub IsHeld : ℕ → ℕ → ℕ → Type 0
IsHeld mask slots i = (bit slots i ≡ 1) × (bit mask i ≡ 1)

abbrev pub Frees : ℕ → ℕ → ℕ → ℕ × Outcome (Unit {0}) → Type 0
Frees mask i before (after, ok u) =
    IsHeld mask before i × (bit after i ≡ 0) × ((j : ℕ) → i ≢ j → bit after j ≡ bit before j)
Frees mask i before (after, err e) =
    (e ≡ index_out_of_range) × (after ≡ before) × ¬ IsHeld mask before i

held_bits :
    (mask slots i : ℕ)
    → bit (bit_and (bit_and slots (one_shl i)) mask) i ≡ min (bit slots i) (bit mask i)
held_bits mask slots i = omega (
  arith,
  bit-bit_and (bit_and slots (one_shl i)) mask i,
  bit-bit_and slots (one_shl i) i,
  bit-one_shl_self i,
  bit-lt_two slots i,
)

held_bits_ne : (mask slots i j : ℕ) → i ≢ j → bit (bit_and (bit_and slots (one_shl i)) mask) j ≡ 0
held_bits_ne mask slots i j ne = omega (
  arith,
  bit-bit_and (bit_and slots (one_shl i)) mask j,
  bit-bit_and slots (one_shl i) j,
  bit-one_shl_ne i j ne,
)

not-IsHeld :
    (mask slots i : ℕ) → bit_and (bit_and slots (one_shl i)) mask ≡ 0 → ¬ IsHeld mask slots i
not-IsHeld mask slots i e h =
    omega (arith, held_bits mask slots i, ap (λ (t : ℕ). bit t i) e, bit-zero i)

held_bits-lt :
    (mask slots i : ℕ) → slots < 2 ^ 64 → bit_and (bit_and slots (one_shl i)) mask < 2 ^ 64
held_bits-lt mask slots i h = omega (
  arith,
  bit_and-le (bit_and slots (one_shl i)) (bit_and slots (one_shl i)) mask,
  bit_and-le slots slots (one_shl i),
)

-- A non-zero test means that the slot is held.
IsHeld-of_test :
    (mask slots i : ℕ)
    → slots < 2 ^ 64
    → bit_and (bit_and slots (one_shl i)) mask ≢ 0
    → IsHeld mask slots i
IsHeld-of_test mask slots i h ne = elim (Bool-cases (min (bit slots i) (bit mask i) == 1)) [
  | inl both ↦ ground (arith, bit-lt_two slots i, bit-lt_two mask i)
  | inr neither ↦ absurd (
      ne (
        bit_ext 64 _ 0 (held_bits-lt mask slots i h) (omega arith) (λ j.
          elim (Bool-cases (i == j)) [
            | inl same ↦
                subst (λ (t : ℕ). bit (bit_and (bit_and slots (one_shl i)) mask) t ≡ bit 0 t)
                  ((==_iff i j).0 same)
                  (ground (
                    arith,
                    held_bits mask slots i,
                    bit-lt_two slots i,
                    bit-lt_two mask i,
                    bit-zero i,
                  ))
            | inr other ↦ held_bits_ne mask slots i j (ground arith) ∙ sym (bit-zero j)
          ])))
]

releases :
    (mask slots i : ℕ)
    → slots < 2 ^ 64
    → i < 64
    → IsHeld mask slots i
    → Frees mask i slots (bit_and slots (not_word 64 (one_shl i)), ok tt)
releases mask slots i h l held =
    (held, bit-clear_bit_self 64 slots i l, λ j ne. bit-clear_bit_ne 64 slots i j h l ne)

-- Whatever bitmaps other writers leave between a load and its exchange, `free` of a slot acts on
-- a bitmap `before` that it met: it clears the slot and nothing else if that bitmap holds it and
-- the mask covers it, and otherwise reports `IndexOutOfRange` and leaves the bitmap alone.
pub free_loop_lem :
    (mask i slots : ℕ) (others : List ℕ)
    → i < 64
    → slots < 2 ^ 64
    → All (λ s. s < 2 ^ 64) others
    → (before : ℕ) × Among before (slots ∷ others)
      × Frees mask i before (free_loop mask (one_shl i) slots others)
unfolding free_loop
free_loop_lem mask i slots [] l h hs =
    elim (Bool-cases (bit_and (bit_and slots (one_shl i)) mask == 0)) [
      | inl absent ↦ (
        slots,
        inl refl,
        rw (absent, free_loop) (refl, refl, not-IsHeld mask slots i ((==_iff _ 0).0 absent)),
      )
      | inr present ↦ (
        slots,
        inl refl,
        rw (present, free_loop)
            (releases mask slots i h l (IsHeld-of_test mask slots i h (ground arith))),
      )
    ]
free_loop_lem mask i slots (found ∷ others) l h hs =
    let (before, met, does) = free_loop_lem mask i found others l hs.0 hs.1 in
    elim (Bool-cases (bit_and (bit_and slots (one_shl i)) mask == 0)) [
      | inl absent ↦ (
        slots,
        inl refl,
        rw (absent, free_loop) (refl, refl, not-IsHeld mask slots i ((==_iff _ 0).0 absent)),
      )
      | inr present ↦ elim (Bool-cases (found == slots)) [
        | inl same ↦ (
          slots,
          inl refl,
          rw (present, same, free_loop)
              (releases mask slots i h l (IsHeld-of_test mask slots i h (ground arith))),
        )
        | inr other ↦ (before, inr met, rw (present, other, free_loop) does)
      ]
    ]

free_loop_back :
    (mask i before after : ℕ)
    → i < 64
    → before < 2 ^ 64
    → after < 2 ^ 64
    → Allocates mask before (after, ok i)
    → free_loop mask (one_shl i) after [] ≡ (before, ok tt)
unfolding free_loop
free_loop_back mask i before after l hb ha (lt, was_free, lowest, now_held, others) =
    elim (Bool-cases (bit_and (bit_and after (one_shl i)) mask == 0)) [
      | inl absent ↦ absurd (not-IsHeld mask after i ((==_iff _ 0).0 absent) (now_held, was_free.1))
      | inr present ↦
          let back : bit_and after (not_word 64 (one_shl i)) ≡ before =
            bit_ext 64 _ before (omega (arith, bit_and-le after after (not_word 64 (one_shl i)))) hb
              (λ j. elim (Bool-cases (i == j)) [
                | inl same ↦
                    subst
                      (λ (t : ℕ). bit (bit_and after (not_word 64 (one_shl i))) t ≡ bit before t)
                      ((==_iff i j).0 same)
                      (omega (arith, bit-clear_bit_self 64 after i l, was_free.0))
                | inr other ↦
                    bit-clear_bit_ne 64 after i j ha l (ground arith) ∙ others j (ground arith)
              ]) in
          rw (present, back)
    ]

-- `alloc` keeps the bitmap within its 64 bits.
alloc_loop-lt : (mask slots : ℕ) → slots < 2 ^ 64 → (alloc_loop mask slots []).0 < 2 ^ 64
unfolding alloc_loop
alloc_loop-lt mask slots h = elim (Bool-cases (available_slots mask slots == 0)) [
  | inl full ↦ rw full h
  | inr more ↦ rw more (
      bit_or-lt 64 slots _ h (
        pow-lt 64 _ (
          trailing_zeros-lt 64 (available_slots mask slots) (available-lt mask slots)
            (ground arith))))
]

covered : (mask i : ℕ) → bit mask i ≡ 1 → (bit_and (one_shl i) mask == 0) ≡ false
covered mask i h = elim (Bool-cases (bit_and (one_shl i) mask == 0)) [
  | inl zeroed ↦ absurd (
      omega (
        arith,
        ap (λ (t : ℕ). bit t i) ((==_iff _ 0).0 zeroed),
        bit-zero i,
        bit-bit_and (one_shl i) mask i,
        bit-one_shl_self i,
      ))
  | inr fine ↦ fine
]

-- Without interference, a slot below 16 that `alloc` hands out is then reported as allocated, and
-- freeing it gives the allocator back as it was.
pub free-alloc :
    (a : PmpSlotAllocator) (idx : ℕ)
    → a.pmp_slots < 2 ^ 64
    → idx < 16
    → (alloc a []).1 ≡ ok idx
    → (is_alloc (alloc a []).0 idx ≡ ok true) × (free (alloc a []).0 idx [] ≡ (a, ok tt))
unfolding alloc free is_alloc
free-alloc a idx h l e =
    let slots = (alloc_loop a.alloc_mask a.pmp_slots []).0 in
    let does : Allocates a.alloc_mask a.pmp_slots (slots, ok idx) =
      subst (λ (t : Outcome ℕ). Allocates a.alloc_mask a.pmp_slots (slots, t)) e
        (alloc_attempt a.alloc_mask a.pmp_slots h) in
    let index : bit_and idx 15 ≡ idx = bit_and_full 4 idx l in
    (
      rw (index, covered a.alloc_mask idx does.1.1, test_bit slots idx, does.3),
      rw index (
          ap (λ (t : ℕ × Outcome (Unit {0})). (record a { pmp_slots = t.0 }, t.1))
            (free_loop_back a.alloc_mask idx a.pmp_slots slots does.0 h
              (alloc_loop-lt a.alloc_mask a.pmp_slots h) does)),
    )

-- The calls without interference, for the clients of the allocator.
pub alloc_lem :
    (a : PmpSlotAllocator)
    → a.pmp_slots < 2 ^ 64
    → let (a', r) = alloc a [] in
      (a'.alloc_mask ≡ a.alloc_mask)
      × (a'.pmp_slots < 2 ^ 64)
      × Allocates a.alloc_mask a.pmp_slots (a'.pmp_slots, r)
unfolding alloc
alloc_lem a h =
    (refl, alloc_loop-lt a.alloc_mask a.pmp_slots h, alloc_attempt a.alloc_mask a.pmp_slots h)

free_attempt :
    (mask i slots : ℕ)
    → i < 64
    → slots < 2 ^ 64
    → ((free_loop mask (one_shl i) slots []).0 < 2 ^ 64)
      × Frees mask i slots (free_loop mask (one_shl i) slots [])
unfolding free_loop
free_attempt mask i slots l h = elim (Bool-cases (bit_and (bit_and slots (one_shl i)) mask == 0)) [
  | inl absent ↦ rw absent (h, (refl, refl, not-IsHeld mask slots i ((==_iff _ 0).0 absent)))
  | inr present ↦ rw present (
    omega (arith, bit_and-le slots slots (not_word 64 (one_shl i))),
    releases mask slots i h l (IsHeld-of_test mask slots i h (ground arith)),
  )
]

pub free_lem :
    (a : PmpSlotAllocator) (idx : ℕ)
    → idx < 16
    → a.pmp_slots < 2 ^ 64
    → let (a', r) = free a idx [] in
      (a'.alloc_mask ≡ a.alloc_mask)
      × (a'.pmp_slots < 2 ^ 64)
      × Frees a.alloc_mask idx a.pmp_slots (a'.pmp_slots, r)
unfolding free
free_lem a idx l h =
    let index : bit_and idx 15 ≡ idx = bit_and_full 4 idx l in
    let does = free_attempt a.alloc_mask idx a.pmp_slots (omega arith) h in
    rw index (refl, does.0, does.1)
