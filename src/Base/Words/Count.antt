-- ===== src/Base/Words/Count.antt =====
-- `trailing_zeros`, `leading_zeros` and `count_ones` of a word of `w` bits, and the list of its
-- set bits.
use native.Mathlib.Nat.{pow-suc, one-le-pow, add-zero, add-suc, suc-add, le_refl}
use Prim.Native.Nat.{ℕ, zero, suc, ◌+◌, ◌-◌, ◌*◌, ◌/◌, ◌%◌, ◌^◌, ◌≤◌, ◌<◌, bit_and}
use mathlib.Core.Path.{◌≡◌, refl, ap, ◌∙◌}
use mathlib.Core.Logic.{◌≢◌, inl, inr}
use mathlib.Core.Bool.{false}
use mathlib.Core.List.{List, [], ◌∷◌}
use native.Mathlib.Omega.{arith}
use rustsbi.Base.Tests.{◌==◌, ==_iff, if◌then◌else◌, Bool-cases}
use rustsbi.Base.Lists.{length}
use rustsbi.Base.Words.Steps.{bit_and_step}
use rustsbi.Base.Words.Laws.{
  bit, one_shl, not_word, pow-lt, bit_and-zero, bit_and-one_shl, bit_and-le,
}

-- `w` for the word 0, as in Rust.
unfoldable pub trailing_zeros : ℕ → ℕ → ℕ
trailing_zeros zero x = 0
trailing_zeros (suc w) x = if x % 2 == 1 then 0 else suc (trailing_zeros w (x / 2))

unfoldable pub leading_zeros : ℕ → ℕ → ℕ
leading_zeros zero x = 0
leading_zeros (suc w) x = if bit x w == 1 then 0 else suc (leading_zeros w x)

unfoldable pub count_ones : ℕ → ℕ → ℕ
count_ones zero x = 0
count_ones (suc w) x = x % 2 + count_ones w (x / 2)

-- The places of the set bits below `w`, lowest first, counted from `k`.
unfoldable pub set_bits : ℕ → ℕ → ℕ → List ℕ
set_bits zero k x = []
set_bits (suc w) k x =
    if x % 2 == 1 then k ∷ set_bits w (suc k) (x / 2) else set_bits w (suc k) (x / 2)

pub trailing_zeros-lt : (w x : ℕ) → x < 2 ^ w → x ≢ 0 → trailing_zeros w x < w
unfolding trailing_zeros
trailing_zeros-lt zero x h ne = absurd (ne (omega arith))
trailing_zeros-lt (suc w) x h ne = ground (arith, pow-suc 2 w, trailing_zeros-lt w (x / 2))

pub bit-trailing_zeros : (w x : ℕ) → x < 2 ^ w → x ≢ 0 → bit x (trailing_zeros w x) ≡ 1
unfolding trailing_zeros bit
bit-trailing_zeros zero x h ne = absurd (ne (omega arith))
bit-trailing_zeros (suc w) x h ne = ground (arith, pow-suc 2 w, bit-trailing_zeros w (x / 2))

-- Below the lowest set bit all bits are clear.
pub bit_below_trailing_zeros : (w x i : ℕ) → i < trailing_zeros w x → bit x i ≡ 0
unfolding trailing_zeros bit
bit_below_trailing_zeros zero x i h = absurd (omega arith)
bit_below_trailing_zeros (suc w) x zero h = ground arith
bit_below_trailing_zeros (suc w) x (suc i) h = ground (arith, bit_below_trailing_zeros w (x / 2) i)

-- `x & (2^w - 1)` of a word that fits.
pub bit_and_full : (w x : ℕ) → x < 2 ^ w → bit_and x (2 ^ w - 1) ≡ x
bit_and_full zero x h =
    ap (λ (t : ℕ). bit_and t 0) {x = x} {y = 0} (omega arith) ∙ omega (arith, bit_and-zero 0)
bit_and_full (suc w) x h =
    bit_and_step x (2 ^ suc w - 1)
    ∙ omega (
      arith,
      pow-suc 2 w,
      one-le-pow w 2,
      ap (λ (t : ℕ). bit_and (x / 2) t) {x = (2 ^ suc w - 1) / 2} {y = 2 ^ w - 1}
          (omega (arith, pow-suc 2 w, one-le-pow w 2)),
      bit_and_full w (x / 2) (omega (arith, pow-suc 2 w)),
    )

pub bit-suc : (x i : ℕ) → bit x (suc i) ≡ bit (x / 2) i
unfolding bit
bit-suc x i = refl

pub bit_zero : (x : ℕ) → bit x 0 ≡ x % 2
unfolding bit
bit_zero x = refl

pub mul_pow_suc : (b i : ℕ) → b * 2 ^ suc i ≡ b * 2 ^ i * 2
mul_pow_suc b i = omega (arith, ap (λ (t : ℕ). b * t) (pow-suc 2 i))

-- Clearing a set bit subtracts it.
pub clear_bit-eq-sub :
    (w x i : ℕ) → x < 2 ^ w → i < w → bit_and x (not_word w (one_shl i)) ≡ x - bit x i * 2 ^ i
clear_bit-eq-sub zero x i hx hi = absurd (omega arith)
clear_bit-eq-sub (suc w) x zero hx hi =
    bit_and_step x (not_word (suc w) 1)
    ∙ omega (
      arith,
      bit_zero x,
      pow-suc 2 w,
      one-le-pow w 2,
      ap (λ (t : ℕ). bit_and (x / 2) t) {x = not_word (suc w) 1 / 2} {y = 2 ^ w - 1}
          (omega (arith, pow-suc 2 w, one-le-pow w 2)),
      bit_and_full w (x / 2) (omega (arith, pow-suc 2 w)),
    )
clear_bit-eq-sub (suc w) x (suc i) hx hi =
    let high : not_word (suc w) (one_shl (suc i)) / 2 ≡ not_word w (one_shl i) =
      omega (arith, pow-suc 2 w, pow-suc 2 i) in
    let low : not_word (suc w) (one_shl (suc i)) % 2 ≡ 1 =
      omega (arith, pow-suc 2 w, pow-suc 2 i, pow-lt w i (omega arith)) in
    bit_and_step x (not_word (suc w) (one_shl (suc i)))
    ∙ rw
        (
          high,
          low,
          clear_bit-eq-sub w (x / 2) i (omega (arith, pow-suc 2 w)) (omega arith),
          bit-suc x i,
          mul_pow_suc (bit (x / 2) i) i,
        )
        (omega
          (arith, bit_and-one_shl (x / 2) i, bit_and-le (x / 2) (x / 2) (one_shl i) (le_refl _)))

pub one_shl-trailing_zeros-le : (w x : ℕ) → x < 2 ^ w → x ≢ 0 → one_shl (trailing_zeros w x) ≤ x
unfolding trailing_zeros
one_shl-trailing_zeros-le zero x h ne = absurd (ne (omega arith))
one_shl-trailing_zeros-le (suc w) x h ne = elim (Bool-cases (x % 2 == 1)) [
  | inl odd ↦ rw odd (omega arith)
  | inr even ↦ rw even (
      omega (
        arith,
        (==_iff (x % 2) 1).1,
        pow-suc 2 (trailing_zeros w (x / 2)),
        one_shl-trailing_zeros-le w (x / 2) (omega (arith, pow-suc 2 w)) (ground arith),
      ))
]

pub set_bits-zero : (w k : ℕ) → set_bits w k 0 ≡ []
unfolding set_bits
set_bits-zero zero k = refl
set_bits-zero (suc w) k = set_bits-zero w (suc k)

-- The lowest set bit heads the list, and clearing it leaves the rest.
pub set_bits-step :
    (w k x : ℕ)
    → x < 2 ^ w
    → x ≢ 0
    → set_bits w k x ≡ (k + trailing_zeros w x) ∷ set_bits w k (x - one_shl (trailing_zeros w x))
unfolding set_bits trailing_zeros
set_bits-step zero k x h ne = absurd (ne (omega arith))
set_bits-step (suc w) k x h ne = elim (Bool-cases (x % 2 == 1)) [
  | inl odd ↦
      let half : (x - 1) / 2 ≡ x / 2 = ground arith in
      let clear : ((x - 1) % 2 == 1) ≡ false = ground arith in rw (odd, clear, half, add-zero k)
  | inr even ↦
      let t : ℕ = trailing_zeros w (x / 2) in
      let le : one_shl t ≤ x / 2 =
        one_shl-trailing_zeros-le w (x / 2) (omega (arith, pow-suc 2 w)) (ground arith) in
      let half : (x - one_shl (suc t)) / 2 ≡ x / 2 - one_shl t = ground (arith, pow-suc 2 t) in
      let clear : ((x - one_shl (suc t)) % 2 == 1) ≡ false = ground (arith, pow-suc 2 t) in
      rw (even, clear, half, add-suc k t, ← suc-add k t)
        (set_bits-step w (suc k) (x / 2) (omega (arith, pow-suc 2 w)) (ground arith))
]

pub length-set_bits : (w k x : ℕ) → length (set_bits w k x) ≡ count_ones w x
unfolding set_bits count_ones
length-set_bits zero k x = refl
length-set_bits (suc w) k x = ground (arith, length-set_bits w (suc k) (x / 2))

pub count_ones-le : (w x : ℕ) → count_ones w x ≤ w
unfolding count_ones
count_ones-le zero x = omega arith
count_ones-le (suc w) x = omega (arith, count_ones-le w (x / 2))
