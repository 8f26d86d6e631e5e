-- ===== src/Pmp/Slots/Alloc.antt =====
-- What `alloc` hands out, whoever interferes.
use rustsbi.Base.{
  ◌∷◌, true, false, sym, subst, ℕ, ◌-◌, ◌^◌, ◌<◌, min, bit_or, ◌≡◌, refl, ap, ◌≢◌, inl, inr, List,
  [], ◌∷◌, arith, ◌==◌, ==_iff, Bool-cases, All,
}
use rustsbi.Base.{Among, All, ==_iff, inl, inr}
use rustsbi.Base.Words.{
  bit, one_shl, not_word, trailing_zeros, trailing_zeros-lt, bit-trailing_zeros,
  bit_below_trailing_zeros, bit-bit_and, bit-not_word, bit-lt_two, bit-set_bit_self, bit-set_bit_ne,
  bit_and-le, bit-zero,
}
use rustsbi.Pmp.Slots.{alloc_loop, available_slots, Outcome, ok, err, no_free_slot}

-- A slot is free in a bitmap and may be handed out.
abbrev pub IsFree : ℕ → ℕ → ℕ → Type 0
IsFree mask slots i = (bit slots i ≡ 0) × (bit mask i ≡ 1)

-- What a call promises of the bitmap `before`, which it met last, and the one that it left.
abbrev pub Allocates : ℕ → ℕ → ℕ × Outcome ℕ → Type 0
Allocates mask before (after, ok idx) =
    (idx < 64)
    × IsFree mask before idx
    × ((i : ℕ) → i < idx → ¬ IsFree mask before i)
    × (bit after idx ≡ 1)
    × ((i : ℕ) → idx ≢ i → bit after i ≡ bit before i)
Allocates mask before (after, err e) =
    (e ≡ no_free_slot) × (after ≡ before) × ((i : ℕ) → i < 64 → ¬ IsFree mask before i)

bit-available :
    (mask slots i : ℕ)
    → slots < 2 ^ 64
    → i < 64
    → bit (available_slots mask slots) i ≡ min (1 - bit slots i) (bit mask i)
bit-available mask slots i h l =
    omega (arith, bit-bit_and (not_word 64 slots) mask i, bit-not_word 64 slots i h l)

pub available-lt : (mask slots : ℕ) → available_slots mask slots < 2 ^ 64
available-lt mask slots = omega (arith, bit_and-le (not_word 64 slots) (not_word 64 slots) mask)

none-IsFree :
    (mask slots i : ℕ)
    → slots < 2 ^ 64
    → available_slots mask slots ≡ 0
    → i < 64
    → ¬ IsFree mask slots i
none-IsFree mask slots i h e l f =
    omega (arith, bit-available mask slots i h l, ap (λ (t : ℕ). bit t i) e, bit-zero i)

takes_lowest :
    (mask slots : ℕ)
    → slots < 2 ^ 64
    → available_slots mask slots ≢ 0
    → let idx = trailing_zeros 64 (available_slots mask slots) in
      Allocates mask slots (bit_or slots (one_shl idx), ok idx)
takes_lowest mask slots h ne =
    let free = available_slots mask slots in
    let idx = trailing_zeros 64 free in
    let lt = trailing_zeros-lt 64 free (available-lt mask slots) ne in
    let at = bit-available mask slots idx h lt in
    let here = bit-trailing_zeros 64 free (available-lt mask slots) ne in
    (
      lt,
      (omega (arith, at, here, bit-lt_two slots idx), omega (arith, at, here, bit-lt_two mask idx)),
      λ i l f.
          omega (
            arith,
            bit-available mask slots i h (omega arith),
            bit_below_trailing_zeros 64 free i l,
          ),
      bit-set_bit_self slots idx,
      λ i n. bit-set_bit_ne slots idx i n,
    )

pub alloc_attempt :
    (mask slots : ℕ) → slots < 2 ^ 64 → Allocates mask slots (alloc_loop mask slots [])
unfolding alloc_loop
alloc_attempt mask slots h = elim (Bool-cases (available_slots mask slots == 0)) [
  | inl full ↦ rw full (refl, refl, λ i l. none-IsFree mask slots i h ((==_iff _ 0).0 full) l)
  | inr more ↦ rw more (takes_lowest mask slots h (ground arith))
]

-- The bitmap that a call settles on when it first loads `slots` and then, at each exchange in turn,
-- finds those of a list in place, and what it loaded last after the list: the first bitmap without
-- a free slot of the mask, or that an exchange finds as it was loaded.
pub data Settles (mask : ℕ) : ℕ → List ℕ → ℕ → Type 0 where
  alone : (slots : ℕ) → Settles mask slots [] slots
  full :
      (slots : ℕ) (others : List ℕ)
      → available_slots mask slots ≡ 0
      → Settles mask slots others slots
  undisturbed : (slots : ℕ) (others : List ℕ) → Settles mask slots (slots ∷ others) slots
  disturbed :
      (slots found : ℕ) (others : List ℕ) (before : ℕ)
      → available_slots mask slots ≢ 0
      → found ≢ slots
      → Settles mask found others before
      → Settles mask slots (found ∷ others) before

alloc_loop-settled :
    (mask slots : ℕ) (others : List ℕ) (before : ℕ)
    → slots < 2 ^ 64
    → All (λ s. s < 2 ^ 64) others
    → Settles mask slots others before
    → Allocates mask before (alloc_loop mask slots others)
unfolding alloc_loop
alloc_loop-settled mask slots others before h hs (alone _) = alloc_attempt mask slots h
alloc_loop-settled mask slots [] before h hs (full _ _ e) = alloc_attempt mask slots h
alloc_loop-settled mask slots (found ∷ others) before h hs (full _ _ e) =
    rw (e, alloc_loop) (refl, refl, λ i l. none-IsFree mask slots i h e l)
alloc_loop-settled mask slots (found ∷ others) before h hs (undisturbed _ _) =
    elim (Bool-cases (available_slots mask slots == 0)) [
      | inl none_left ↦
          rw (none_left, alloc_loop)
            (refl, refl, λ i l. none-IsFree mask slots i h ((==_iff _ 0).0 none_left) l)
      | inr more ↦
          let same : (slots == slots) ≡ true = ground arith in
          rw (more, same, alloc_loop) (takes_lowest mask slots h (ground arith))
    ]
alloc_loop-settled mask slots (found ∷ others) before h hs
      (disturbed _ _ _ _ some_left moved later) =
    let more : (available_slots mask slots == 0) ≡ false = ground arith in
    let other : (found == slots) ≡ false = ground arith in
    rw (more, other, alloc_loop) (alloc_loop-settled mask found others before hs.0 hs.1 later)

-- Every run settles on one of the bitmaps that it met.
Settles-exists :
    (mask slots : ℕ) (others : List ℕ)
    → (before : ℕ) × Among before (slots ∷ others) × Settles mask slots others before
Settles-exists mask slots [] = (slots, inl refl, alone slots)
Settles-exists mask slots (found ∷ others) = elim (Bool-cases (available_slots mask slots == 0)) [
  | inl none_left ↦ (slots, inl refl, full slots (found ∷ others) ((==_iff _ 0).0 none_left))
  | inr more ↦ elim (Bool-cases (found == slots)) [
    | inl same ↦ (
      slots,
      inl refl,
      subst (λ (x : ℕ). Settles mask slots (x ∷ others) slots) (sym ((==_iff found slots).0 same))
          (undisturbed slots others),
    )
    | inr moved ↦
        let rest = Settles-exists mask found others in
        (
          rest.0,
          inr rest.1,
          disturbed slots found others rest.0 (ground arith) (ground arith) rest.2,
        )
  ]
]

-- Whatever bitmaps other writers leave between a load and its exchange, `alloc` acts on the bitmap
-- that it settles on, the first that no other writer replaced between the load and the exchange or
-- that has no free slot of the mask: it hands out the lowest free slot of the mask in it, which it
-- marks and changes nothing else, so that what the others wrote is kept, or it reports that no slot
-- is free and leaves the bitmap alone.
pub alloc_loop_lem :
    (mask slots : ℕ) (others : List ℕ)
    → slots < 2 ^ 64
    → All (λ s. s < 2 ^ 64) others
    → (before : ℕ) × Among before (slots ∷ others)
      × Settles mask slots others before
      × Allocates mask before (alloc_loop mask slots others)
alloc_loop_lem mask slots others h hs =
    let (before, met, settles) = Settles-exists mask slots others in
    (before, met, settles, alloc_loop-settled mask slots others before h hs settles)
