-- ===== src/Spec/HartMask/Bits.antt =====
-- Membership, insertion and removal: the mask is a finite set of hart ids.
use rustsbi.Base.{
  ℕ, ◌+◌, ◌-◌, ◌≤◌, ◌<◌, bit_and, bit_or, ◌≡◌, refl, ◌≢◌, true, false, not, ◌&&◌, ◌||◌, arith, ltb,
  leb, ◌==◌,
}
use rustsbi.Base.Usize.{usize_bits, IsUsize}
use rustsbi.Base.Words.{
  bit, one_shl, not_word, bit-set_bit_self, bit-set_bit_ne, bit-clear_bit_self, bit-clear_bit_ne,
  test_bit,
}
use rustsbi.Spec.Mask.{valid_bit, has_bit, done, refused, ignored, invalid_bit}
use rustsbi.Spec.HartMask.{HartMask, contains, insert, remove, ignore_mask}

-- The window of an ordinary mask.
abbrev pub IsInWindow : HartMask → ℕ → Type 0
IsInWindow m h = (m.hart_mask_base ≤ h) × (h < m.hart_mask_base + usize_bits)

abbrev pub IsOrdinary : HartMask → Type 0
IsOrdinary m = IsUsize m.hart_mask × (m.hart_mask_base ≢ ignore_mask)

-- Membership in an ordinary mask is a bit of the word, inside the window.
pub contains_lem :
    (m : HartMask) (j : ℕ)
    → m.hart_mask_base ≢ ignore_mask
    → contains m j ≡ (
        leb m.hart_mask_base j
        && ltb j (m.hart_mask_base + usize_bits)
        && bit m.hart_mask (j - m.hart_mask_base) == 1)
unfolding contains has_bit
contains_lem m j h = ground (arith, test_bit m.hart_mask (j - m.hart_mask_base))

-- Inserting a hart of the window of an ordinary mask succeeds, keeps the base, and the new mask
-- contains that hart and those that it contained before.
pub contains-insert :
    (m : HartMask) (h : ℕ)
    → IsOrdinary m
    → IsInWindow m h
    → (m' : HartMask) × (insert m h ≡ done m')
      × (m'.hart_mask_base ≡ m.hart_mask_base)
      × ((j : ℕ) → contains m' j ≡ (j == h || contains m j))
unfolding insert valid_bit
contains-insert m h o w =
    let m' : HartMask = record m {
      hart_mask = bit_or m.hart_mask (one_shl (h - m.hart_mask_base));
    } in
    (
      m',
      ground arith,
      refl,
      λ j. ground (
        arith,
        contains_lem m j o.1,
        contains_lem m' j o.1,
        bit-set_bit_self m.hart_mask (h - m.hart_mask_base),
        bit-set_bit_ne m.hart_mask (h - m.hart_mask_base) (j - m.hart_mask_base),
      ),
    )

-- Removing a hart of the window of an ordinary mask succeeds, keeps the base, and the new mask
-- contains what the old one did but that hart.
pub contains-remove :
    (m : HartMask) (h : ℕ)
    → IsOrdinary m
    → IsInWindow m h
    → (m' : HartMask) × (remove m h ≡ done m')
      × (m'.hart_mask_base ≡ m.hart_mask_base)
      × ((j : ℕ) → contains m' j ≡ (not (j == h) && contains m j))
unfolding remove valid_bit
contains-remove m h o w =
    let i = h - m.hart_mask_base in
    let m' : HartMask = record m {
      hart_mask = bit_and m.hart_mask (not_word usize_bits (one_shl i));
    } in
    (
      m',
      ground arith,
      refl,
      λ j. ground (
        arith,
        contains_lem m j o.1,
        contains_lem m' j o.1,
        bit-clear_bit_self usize_bits m.hart_mask i,
        bit-clear_bit_ne usize_bits m.hart_mask i (j - m.hart_mask_base) o.0,
      ),
    )

-- Outside the window both methods refuse with `InvalidBit` and leave an ordinary mask as it is;
-- on the mask of all harts, which contains every hart, an insertion changes nothing and a removal
-- is refused with `Ignored`.
pub insert-remove_refused :
    (m : HartMask) (h : ℕ)
    → (m.hart_mask_base ≡ ignore_mask
        → (insert m h ≡ done m) × (remove m h ≡ refused m ignored) × (contains m h ≡ true))
      × (m.hart_mask_base ≢ ignore_mask
          → ¬ IsInWindow m h
          → (insert m h ≡ refused m invalid_bit)
            × (remove m h ≡ refused m invalid_bit)
            × (contains m h ≡ false))
unfolding insert remove valid_bit contains has_bit
insert-remove_refused m h = ground arith
