-- ===== src/Trap/Decode/Extend.antt =====
-- The extension of a loaded value, bit by bit.
use rustsbi.Base.{
  ℕ, zero, suc, ◌+◌, ◌-◌, ◌*◌, ◌/◌, ◌%◌, ◌^◌, ◌≤◌, ◌<◌, ◌≡◌, refl, sym, ap, ◌∙◌, inl, inr, Bool,
  true, false, arith, ltb, if◌then◌else◌, Bool-cases,
}
use native.Mathlib.Nat.{pow-suc, one-le-pow, div-add-mod', mod-lt}
use rustsbi.Base.Words.{bit, mul_pow_suc, bit_above}
use rustsbi.Trap.Decode.{
  ValueKind, signed8, unsigned8, signed16, unsigned16, signed32, unsigned32, signed64, width,
  extend, cast_signed,
}

-- The bits of a word that is made of a low field of `n` bits and of the rest.
bit-low : (n a b i : ℕ) → i < n → bit (a + b * 2 ^ n) i ≡ bit a i
unfolding bit
bit-low zero a b i h = absurd (omega arith)
bit-low (suc n) a b zero h = omega (arith, mul_pow_suc b n)
bit-low (suc n) a b (suc i) h =
    let half : (a + b * 2 ^ suc n) / 2 ≡ a / 2 + b * 2 ^ n = omega (arith, mul_pow_suc b n) in
    rw half (bit-low n (a / 2) b i (omega arith))

bit-high : (n a b j : ℕ) → a < 2 ^ n → bit (a + b * 2 ^ n) (n + j) ≡ bit b j
unfolding bit
bit-high zero a b j h =
    ap (bit (a + b * 2 ^ 0)) {x = 0 + j} {y = j} (omega arith)
    ∙ ap (λ (t : ℕ). bit t j) {x = a + b * 2 ^ 0} {y = b} (omega arith)
bit-high (suc n) a b j h =
    let half : (a + b * 2 ^ suc n) / 2 ≡ a / 2 + b * 2 ^ n = omega (arith, mul_pow_suc b n) in
    ap (bit (a + b * 2 ^ suc n)) {x = suc n + j} {y = suc (n + j)} (omega arith)
    ∙ ap (λ (t : ℕ). bit t (n + j)) half
    ∙ bit-high n (a / 2) b j (omega (arith, pow-suc 2 n))

bit-ones : (k j : ℕ) → j < k → bit (2 ^ k - 1) j ≡ 1
unfolding bit
bit-ones zero j h = absurd (omega arith)
bit-ones (suc k) zero h = omega (arith, pow-suc 2 k, one-le-pow k 2)
bit-ones (suc k) (suc j) h =
    let half : (2 ^ suc k - 1) / 2 ≡ 2 ^ k - 1 = omega (arith, pow-suc 2 k, one-le-pow k 2) in
    rw half (bit-ones k j (omega arith))

bit-mod : (n x i : ℕ) → i < n → bit (x % 2 ^ n) i ≡ bit x i
bit-mod n x i h =
    sym (bit-low n (x % 2 ^ n) (x / 2 ^ n) i h)
    ∙ ap (λ (t : ℕ). bit t i) (omega (arith, div-add-mod' x (2 ^ n)))

bit_one : bit 1 0 ≡ 1
unfolding bit
bit_one = refl

module _ (n k raw : ℕ) (width_fits : 2 ^ k * 2 ^ suc n ≡ 2 ^ 64) (bound : suc n + k ≡ 64) where
  abbrev low_field : ℕ
  low_field = raw % 2 ^ suc n

  sign_clear : low_field < 2 ^ n → bit raw n ≡ 0
  sign_clear h = sym (bit-mod (suc n) raw n (omega arith)) ∙ bit_above n low_field n h (omega arith)

  sign_set : 2 ^ n ≤ low_field → bit raw n ≡ 1
  sign_set h =
      let low : ℕ = low_field - 2 ^ n in
      let split : low_field ≡ low + 1 * 2 ^ n = omega arith in
      let small : low < 2 ^ n =
        omega
          (arith, mod-lt raw {m = 2 ^ suc n} (one-le-pow (suc n) 2 (omega arith)), pow-suc 2 n) in
      sym (bit-mod (suc n) raw n (omega arith))
      ∙ ap (λ (t : ℕ). bit t n) split
      ∙ ap (bit (low + 1 * 2 ^ n)) {x = n} {y = n + 0} (omega arith)
      ∙ bit-high n low 1 0 small
      ∙ bit_one

  filled :
      (i : ℕ)
      → i < 64
      → bit (low_field + (2 ^ 64 - 2 ^ suc n)) i ≡ (if ltb i (suc n) then bit raw i else 1)
  filled i h =
      let e : low_field + (2 ^ 64 - 2 ^ suc n) ≡ low_field + (2 ^ k - 1) * 2 ^ suc n = omega (
        arith,
        width_fits,
        one-le-pow k 2,
        ap (λ (t : ℕ). t * 2 ^ suc n) {x = 2 ^ k - 1 + 1} {y = 2 ^ k}
            (omega (arith, one-le-pow k 2)),
      ) in
      elim (Bool-cases (ltb i (suc n))) [
        | inl low ↦
            rw (e, low)
              (bit-low (suc n) low_field (2 ^ k - 1) i (ground arith)
                ∙ bit-mod (suc n) raw i (ground arith))
        | inr high ↦
            let j : ℕ = i - suc n in
            rw (e, high)
              (ap (bit (low_field + (2 ^ k - 1) * 2 ^ suc n)) {x = i} {y = suc n + j} (ground arith)
                ∙ bit-high (suc n) low_field (2 ^ k - 1) j
                    (mod-lt raw {m = 2 ^ suc n} (one-le-pow (suc n) 2 (omega arith)))
                ∙ bit-ones k j (ground arith))
      ]

  cast_signed-bits :
      (i : ℕ) → i < 64 → bit (cast_signed (2 ^ n) raw) i ≡ bit raw (if ltb i (suc n) then i else n)
  cast_signed-bits i h =
      let double : 2 * 2 ^ n ≡ 2 ^ suc n = omega (arith, pow-suc 2 n) in
      rw (cast_signed, double)
        (elim (Bool-cases (ltb low_field (2 ^ n))) [
          | inl positive ↦ rw positive (elim (Bool-cases (ltb i (suc n))) [
            | inl low ↦ rw low (bit-mod (suc n) raw i (ground arith))
            | inr high ↦ rw high (
                bit_above n low_field i (ground arith) (ground arith)
                ∙ sym (sign_clear (ground arith)))
          ])
          | inr negative ↦ rw negative (elim (Bool-cases (ltb i (suc n))) [
            | inl low ↦ rw low (rw low at (filled i h))
            | inr high ↦ rw high (rw high at (filled i h) ∙ sym (sign_set (ground arith)))
          ])
        ])

sign :
    (n k raw i : ℕ)
    → i < 64
    → 2 ^ k * 2 ^ suc n ≡ 2 ^ 64
    → suc n + k ≡ 64
    → bit (cast_signed (2 ^ n) raw) i ≡ (if ltb i (suc n) then bit raw i else bit raw n)
sign n k raw i h fits bound = elim (Bool-cases (ltb i (suc n))) [
  | inl low ↦ rw low (rw low at (cast_signed-bits n k raw fits bound i h))
  | inr high ↦ rw high (rw high at (cast_signed-bits n k raw fits bound i h))
]

clear : (n raw i : ℕ) → bit (raw % 2 ^ n) i ≡ (if ltb i n then bit raw i else 0)
clear n raw i = elim (Bool-cases (ltb i n)) [
  | inl low ↦ rw low (bit-mod n raw i (ground arith))
  | inr high ↦ rw high (
      bit_above n (raw % 2 ^ n) i (mod-lt raw {m = 2 ^ n} (one-le-pow n 2 (omega arith)))
        (ground arith))
]

-- The kinds that are sign-extended.
abbrev pub is_signed : ValueKind → Bool
is_signed signed8 = true
is_signed signed16 = true
is_signed signed32 = true
is_signed signed64 = true
is_signed _ = false

abbrev pub bits_of : ValueKind → ℕ
bits_of k = 8 * width k

-- Bit by bit, an extended value has the bits of the memory value within its width; above it a
-- signed kind repeats the sign bit and an unsigned kind has zeros.
pub extend-bits :
    (k : ValueKind) (raw i : ℕ)
    → i < 64
    → bit (extend k raw) i ≡ (
        if ltb i (bits_of k) then bit raw i else if is_signed k then bit raw (bits_of k - 1) else 0)
unfolding extend width
extend-bits signed8 raw i h = sign 7 56 raw i h refl refl
extend-bits unsigned8 raw i h = clear 8 raw i
extend-bits signed16 raw i h = sign 15 48 raw i h refl refl
extend-bits unsigned16 raw i h = clear 16 raw i
extend-bits signed32 raw i h = sign 31 32 raw i h refl refl
extend-bits unsigned32 raw i h = clear 32 raw i
extend-bits signed64 raw i h = ground arith
