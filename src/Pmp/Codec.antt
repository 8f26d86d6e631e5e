-- ===== src/Pmp/Codec.antt =====
-- Encoding a NAPOT area and decoding the register gives the area back.
use native.Mathlib.Nat.{mul-mod_left}
use rustsbi.Base.Words.{power_of_two_mask}
use rustsbi.Base.{◌↔◌}
use rustsbi.Base.{
  ℕ, zero, suc, ◌+◌, ◌-◌, ◌*◌, ◌/◌, ◌%◌, ◌^◌, ◌≤◌, ◌<◌, bit_and, bit_or, ◌≡◌, refl, sym, ap, ◌∙◌,
  true, false, some, arith, ltb, leb, ◌==◌,
}
use native.Mathlib.Nat.{pow-suc, one-le-pow, div-add-mod'}
use rustsbi.Base.Usize.{usize_bits, usize_max, IsUsize}
use rustsbi.Base.Words.{
  one_shl, not_word, bit_or_fields, clear_low_bits, trailing_zeros-not_word, bit_and_full,
  leading_zeros-one_shl, power_of_two_cases, mul_pow_suc,
}
use rustsbi.Pmp.{
  napot, slice, encode_pmp_addr, decode_pmp_addr, addr_mask, encode_napot, decode_napot,
  check_pmp_area_available, log2_of_len, ilog2, shl_pmp_shift, pmp_shift,
}

-- The register value of the area `q * 2^(j+3)` of `2^(j+3)` bytes.
abbrev napot_value : ℕ → ℕ → ℕ
napot_value q j = q * 2 ^ suc j + (2 ^ j - 1)

shift_out : (q j : ℕ) → q * 2 ^ suc (suc (suc j)) ≡ 4 * (q * 2 ^ suc j)
shift_out q j = omega (arith, mul_pow_suc q (suc (suc j)), mul_pow_suc q (suc j))

encode_napot_area :
    (q j : ℕ)
    → j < 61
    → q * 2 ^ suc (suc (suc j)) < 2 ^ 64
    → encode_napot (q * 2 ^ suc (suc (suc j))) (suc (suc (suc j))) ≡ some (napot_value q j)
unfolding encode_napot addr_mask
encode_napot_area q j h fits =
    let not_all : (suc (suc (suc j)) == usize_bits) ≡ false = ground arith in
    let in_shift : ltb (suc (suc (suc j))) pmp_shift ≡ false = ground arith in
    let in_word : leb usize_bits (suc (suc (suc j)) - pmp_shift) ≡ false = ground arith in
    let power : suc (suc (suc j)) - pmp_shift ≡ suc j = omega arith in
    let high : q * 2 ^ suc (suc (suc j)) / 2 ^ pmp_shift ≡ q * 2 ^ suc j + 0 =
      omega (arith, shift_out q j) in
    let low : (one_shl (suc j) - 1) / 2 ≡ 2 ^ j - 1 = omega (arith, pow-suc 2 j) in
    rw
      (
        not_all,
        in_shift,
        in_word,
        power,
        high,
        clear_low_bits usize_bits (suc j) q 0 (omega arith) (omega (arith, shift_out q j))
            (omega (arith, one-le-pow (suc j) 2)),
        low,
        bit_or_fields (suc j) q (2 ^ j - 1) (omega (arith, pow-suc 2 j, one-le-pow j 2)),
      )
      refl

decode_napot_value :
    (q j : ℕ)
    → j < 61
    → q * 2 ^ suc (suc (suc j)) + 2 ^ suc (suc (suc j)) ≤ 2 ^ 64
    → decode_napot (napot_value q j) ≡ slice (suc (suc (suc j))) (q * 2 ^ suc (suc (suc j))) 0
unfolding decode_napot
decode_napot_value q j h fits =
    let small : 4 * napot_value q j + 4 ≤ 2 ^ 64 = omega (
      arith,
      shift_out q j,
      pow-suc 2 j,
      pow-suc 2 (suc j),
      pow-suc 2 (suc (suc j)),
      one-le-pow j 2,
    ) in
    let not_all : (napot_value q j == usize_max) ≡ false = ground arith in
    let ones = trailing_zeros-not_word usize_bits j q (omega arith) (omega arith) in
    let split : napot_value q j ≡ 2 * q * 2 ^ j + (2 ^ j - 1) = omega (arith, mul_pow_suc q j) in
    let base : bit_and (napot_value q j) (not_word usize_bits (one_shl j - 1)) ≡ 2 * q * 2 ^ j =
      ap (λ (t : ℕ). bit_and t (not_word usize_bits (one_shl j - 1))) split
      ∙ clear_low_bits usize_bits j (2 * q) (2 ^ j - 1) (omega arith) (omega arith)
          (omega (arith, one-le-pow j 2)) in
    let shifted : shl_pmp_shift (2 * q * 2 ^ j) ≡ q * 2 ^ suc (suc (suc j)) =
      omega (arith, shift_out q j, mul_pow_suc q j, one-le-pow (suc (suc (suc j))) 2) in
    let log : j + pmp_shift + 1 ≡ suc (suc (suc j)) = omega arith in
    rw (not_all, ones, base, shifted, log)

-- What the checks establish: the length is a power of two that the area is aligned to.
abbrev pub IsNapotArea : ℕ → ℕ → Type 0
IsNapotArea addr len =
    (j : ℕ) × (q : ℕ) × (j < 61)
    × (len ≡ 2 ^ suc (suc (suc j)))
    × (addr ≡ q * 2 ^ suc (suc (suc j)))

at_least_three : (k : ℕ) → 8 ≤ 2 ^ k → (j : ℕ) × (k ≡ suc (suc (suc j)))
at_least_three zero h = absurd (omega arith)
at_least_three (suc zero) h = absurd (omega arith)
at_least_three (suc (suc zero)) h = absurd (omega arith)
at_least_three (suc (suc (suc j))) h = (j, refl)

check-IsNapotArea :
    (addr len : ℕ)
    → IsUsize len
    → check_pmp_area_available addr len napot ≡ true
    → IsNapotArea addr len
unfolding check_pmp_area_available
check-IsNapotArea addr len lw c =
    let (k, lt, e) = power_of_two_cases 64 len lw (ground arith) (ground arith) in
    let (j, ke) = at_least_three k (ground arith) in
    let pow : len ≡ 2 ^ suc (suc (suc j)) = e ∙ ap (λ (t : ℕ). 2 ^ t) ke in
    let aligned : addr % len ≡ 0 = ground arith in
    let whole : addr ≡ addr / len * len = omega (arith, div-add-mod' addr len) in
    (j, addr / len, omega arith, pow, whole ∙ ap (λ (t : ℕ). addr / len * t) pow)

log2_of_len-pow : (k : ℕ) → 0 < k → k < 64 → log2_of_len (2 ^ k) ≡ some k
unfolding log2_of_len ilog2
log2_of_len-pow zero p h = absurd (omega arith)
log2_of_len-pow (suc k) p h =
    let some_len : (2 ^ suc k == usize_max) ≡ false = ground (arith, pow-suc 2 k) in
    let not_empty : (2 ^ suc k == 0) ≡ false = ground (arith, one-le-pow (suc k) 2) in
    let log : usize_bits - 1 - (usize_bits - 1 - suc k) ≡ suc k = omega arith in
    rw (some_len, not_empty, leading_zeros-one_shl usize_bits (suc k) h, log)

masked_log : (k : ℕ) → k < 128 → bit_and k (bit_or usize_bits (usize_bits - 1)) ≡ k
masked_log k h = bit_and_full 7 k h

encode-decode_area :
    (q j : ℕ)
    → j < 61
    → q * 2 ^ suc (suc (suc j)) + 2 ^ suc (suc (suc j)) ≤ 2 ^ 64
    → let area = slice (suc (suc (suc j))) (q * 2 ^ suc (suc (suc j))) 0 in
      (p : ℕ) × (log2_of_len (2 ^ suc (suc (suc j))) ≡ some (suc (suc (suc j))))
      × (encode_pmp_addr area napot ≡ some p)
      × (decode_pmp_addr p napot ≡ area)
unfolding encode_pmp_addr decode_pmp_addr
encode-decode_area q j h fits = (
  napot_value q j,
  log2_of_len-pow (suc (suc (suc j))) (omega arith) (omega arith),
  rw (masked_log (suc (suc (suc j))) (omega arith))
      (encode_napot_area q j h (omega (arith, one-le-pow (suc (suc (suc j))) 2))),
  decode_napot_value q j h fits,
)

-- An area that passes the NAPOT check and ends within the address space is protected exactly:
-- its length has a logarithm, the encoding of its slice succeeds, and decoding the register value
-- gives the slice back, so the area that the hardware sees starts at `addr` and has `len` bytes.
pub decode-encode_napot :
    (addr len : ℕ)
    → IsUsize len
    → addr + len ≤ 2 ^ 64
    → check_pmp_area_available addr len napot ≡ true
    → (k : ℕ) × (p : ℕ) × (log2_of_len len ≡ some k)
      × (encode_pmp_addr (slice k addr 0) napot ≡ some p)
      × (decode_pmp_addr p napot ≡ slice k addr 0)
      × (2 ^ k ≡ len)
decode-encode_napot addr len lw fits c =
    let (j, q, lt, le, ae) = check-IsNapotArea addr len lw c in
    let (p, log, enc, dec) = encode-decode_area q j lt (omega arith) in
    (
      suc (suc (suc j)),
      p,
      ap log2_of_len le ∙ log,
      ap (λ (t : ℕ). encode_pmp_addr (slice (suc (suc (suc j))) t 0) napot) ae ∙ enc,
      dec ∙ ap (λ (t : ℕ). slice (suc (suc (suc j))) t 0) (sym ae),
      sym le,
    )

-- The NAPOT check accepts exactly the areas whose length is a power of two from 8 on, within the
-- word, and whose address is a multiple of the length.
pub check_pmp_area_available_iff :
    (addr len : ℕ)
    → IsUsize len
    → (check_pmp_area_available addr len napot ≡ true) ↔ IsNapotArea addr len
unfolding check_pmp_area_available
check_pmp_area_available_iff addr len lw = (
  check-IsNapotArea addr len lw,
  λ a.
      let mask : bit_and len (len - 1) ≡ 0 =
        ap (λ (t : ℕ). bit_and t (t - 1)) a.3 ∙ power_of_two_mask (suc (suc (suc a.0))) in
      let multiple : addr ≡ a.1 * len = a.4 ∙ ap (λ (t : ℕ). a.1 * t) (sym a.3) in
      let aligned : addr % len ≡ 0 = ap (λ (t : ℕ). t % len) multiple ∙ mul-mod_left a.1 len in
      let large : 8 ≤ len = omega (
        arith,
        a.3,
        pow-suc 2 a.0,
        pow-suc 2 (suc a.0),
        pow-suc 2 (suc (suc a.0)),
        one-le-pow a.0 2,
      ) in
      ground arith,
)
