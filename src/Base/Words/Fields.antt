-- ===== src/Base/Words/Fields.antt =====
-- Words as a high part and a field of low bits.
use Prim.Native.Nat.{ℕ, zero, suc, ◌+◌, ◌-◌, ◌*◌, ◌/◌, ◌%◌, ◌^◌, ◌≤◌, ◌<◌, bit_and, bit_or}
use mathlib.Core.Path.{◌≡◌, refl, ap, ◌∙◌}
use mathlib.Core.Logic.{◌≢◌, inl, inr}
use native.Mathlib.Nat.{
  div-div-eq-div-mul, pow-suc, one-le-pow, div-add-mod', mul_assoc, mod-lt, mul-add-mod_self_right,
  mod-eq_of_lt,
}
use native.Mathlib.Omega.{arith}
use rustsbi.Base.Tests.{◌==◌, ==_iff, Bool-cases}
use rustsbi.Base.Words.Steps.{bit_or_step, bit_and_step}
use rustsbi.Base.Words.Laws.{one_shl, not_word, bit_and-zero, bit-one_shl_self, bit-one_shl_ne}
use rustsbi.Base.Words.Count.{trailing_zeros, leading_zeros, bit_and_full, mul_pow_suc}

pub bit_or-zero_fuel : (n x : ℕ) → x ≤ n → bit_or x 0 ≡ x
bit_or-zero_fuel n zero h = refl
bit_or-zero_fuel zero (suc x) h = absurd (omega arith)
bit_or-zero_fuel (suc n) (suc x) h =
    omega (arith, bit_or_step (suc x) 0, bit_or-zero_fuel n (suc x / 2) (omega arith))

-- `(q << k) | r` is a sum when `r` fits `k` bits.
pub bit_or_fields : (k q r : ℕ) → r < 2 ^ k → bit_or (q * 2 ^ k) r ≡ q * 2 ^ k + r
bit_or_fields zero q r h =
    let e : r ≡ 0 = omega arith in
    rw e (bit_or-zero_fuel (q * 1) (q * 1) (omega arith) ∙ omega arith)
bit_or_fields (suc k) q r h =
    let half : q * 2 ^ suc k / 2 ≡ q * 2 ^ k = omega (arith, mul_pow_suc q k) in
    bit_or_step (q * 2 ^ suc k) r
    ∙ rw (half, bit_or_fields k q (r / 2) (omega (arith, pow-suc 2 k)))
        (omega (arith, mul_pow_suc q k))

-- `x & !(2^k - 1)` drops the low `k` bits.
pub clear_low_bits :
    (w k q r : ℕ)
    → k ≤ w
    → q * 2 ^ k + r < 2 ^ w
    → r < 2 ^ k
    → bit_and (q * 2 ^ k + r) (not_word w (2 ^ k - 1)) ≡ q * 2 ^ k
clear_low_bits w zero q r le h f =
    let e : r ≡ 0 = omega arith in
    let x : q * 2 ^ 0 + 0 ≡ q = omega arith in
    let mask : not_word w (2 ^ 0 - 1) ≡ 2 ^ w - 1 = omega arith in
    rw (e, x, mask) (bit_and_full w q (omega arith) ∙ omega arith)
clear_low_bits zero (suc k) q r le h f = absurd (omega arith)
clear_low_bits (suc w) (suc k) q r le h f =
    let high : (q * 2 ^ suc k + r) / 2 ≡ q * 2 ^ k + r / 2 = omega (arith, mul_pow_suc q k) in
    let mask : not_word (suc w) (2 ^ suc k - 1) / 2 ≡ not_word w (2 ^ k - 1) =
      omega (arith, pow-suc 2 w, pow-suc 2 k, one-le-pow k 2) in
    let low : not_word (suc w) (2 ^ suc k - 1) % 2 ≡ 0 =
      omega (arith, pow-suc 2 w, pow-suc 2 k, one-le-pow k 2, one-le-pow w 2) in
    bit_and_step (q * 2 ^ suc k + r) (not_word (suc w) (2 ^ suc k - 1))
    ∙ rw
        (
          high,
          mask,
          low,
          clear_low_bits w k q (r / 2) (omega arith) (omega (arith, pow-suc 2 w, mul_pow_suc q k))
              (omega (arith, pow-suc 2 k)),
        )
        (omega (arith, mul_pow_suc q k))

-- The trailing ones of a word that ends in 0 and `k` ones.
pub trailing_zeros-not_word :
    (w k q : ℕ)
    → k < w
    → q * 2 ^ suc k + (2 ^ k - 1) < 2 ^ w
    → trailing_zeros w (not_word w (q * 2 ^ suc k + (2 ^ k - 1))) ≡ k
unfolding trailing_zeros
trailing_zeros-not_word zero k q lt h = absurd (omega arith)
trailing_zeros-not_word (suc w) zero q lt h =
    let odd : not_word (suc w) (q * 2 ^ 1 + (2 ^ 0 - 1)) % 2 ≡ 1 = omega (arith, pow-suc 2 w) in
    rw odd
trailing_zeros-not_word (suc w) (suc k) q lt h =
    let even : not_word (suc w) (q * 2 ^ suc (suc k) + (2 ^ suc k - 1)) % 2 ≡ 0 =
      omega (arith, pow-suc 2 w, pow-suc 2 k, mul_pow_suc q (suc k), one-le-pow k 2) in
    let half : not_word (suc w) (q * 2 ^ suc (suc k) + (2 ^ suc k - 1)) / 2
        ≡ not_word w (q * 2 ^ suc k + (2 ^ k - 1)) =
      omega (arith, pow-suc 2 w, pow-suc 2 k, mul_pow_suc q (suc k), one-le-pow k 2) in
    rw (even, half)
      (ap suc (
        trailing_zeros-not_word w k q (omega arith)
          (omega (arith, pow-suc 2 w, pow-suc 2 k, mul_pow_suc q (suc k), one-le-pow k 2))))

-- The logarithm of a power of two.
pub leading_zeros-one_shl : (w k : ℕ) → k < w → leading_zeros w (one_shl k) ≡ w - 1 - k
unfolding leading_zeros
leading_zeros-one_shl zero k h = absurd (omega arith)
leading_zeros-one_shl (suc w) k h = elim (Bool-cases (k == w)) [
  | inl same ↦ let e : k ≡ w = (==_iff k w).0 same in rw (e, bit-one_shl_self w) (omega arith)
  | inr other ↦
      let ne : k ≢ w = ground arith in
      rw (bit-one_shl_ne k w ne) (omega (arith, leading_zeros-one_shl w k (omega arith)))
]

bit_and_self : (w x : ℕ) → x < 2 ^ w → bit_and x x ≡ x
bit_and_self zero x h =
    ap (λ (t : ℕ). bit_and t t) {x = x} {y = 0} (omega arith) ∙ omega (arith, bit_and-zero 0)
bit_and_self (suc w) x h =
    omega (arith, bit_and_step x x, bit_and_self w (x / 2) (omega (arith, pow-suc 2 w)))

-- `x & (x - 1)` is 0 for powers of two only.
pub power_of_two_cases :
    (w x : ℕ) → x < 2 ^ w → x ≢ 0 → bit_and x (x - 1) ≡ 0 → (k : ℕ) × (k < w) × (x ≡ 2 ^ k)
power_of_two_cases zero x h ne e = absurd (ne (omega arith))
power_of_two_cases (suc w) x h ne e = elim (Bool-cases (x % 2 == 1)) [
  | inl odd ↦
      let half : (x - 1) / 2 ≡ x / 2 = ground arith in
      let one : x ≡ 1 = ground (
        arith,
        bit_and_step x (x - 1),
        ap (λ (t : ℕ). bit_and (x / 2) t) half,
        bit_and_self w (x / 2) (omega (arith, pow-suc 2 w)),
      ) in
      (0, omega arith, omega arith)
  | inr even ↦
      let half : (x - 1) / 2 ≡ x / 2 - 1 = ground arith in
      let (k, lt, p) =
        power_of_two_cases w (x / 2) (omega (arith, pow-suc 2 w)) (ground arith)
          (omega (arith, bit_and_step x (x - 1), ap (λ (t : ℕ). bit_and (x / 2) t) half)) in
      (suc k, omega arith, ground (arith, pow-suc 2 k))
]

pub power_of_two_mask : (k : ℕ) → bit_and (2 ^ k) (2 ^ k - 1) ≡ 0
power_of_two_mask zero = omega (arith, bit_and-zero 1)
power_of_two_mask (suc k) =
    let half : 2 ^ suc k / 2 ≡ 2 ^ k = omega (arith, pow-suc 2 k) in
    let less : (2 ^ suc k - 1) / 2 ≡ 2 ^ k - 1 = omega (arith, pow-suc 2 k, one-le-pow k 2) in
    bit_and_step (2 ^ suc k) (2 ^ suc k - 1)
    ∙ rw (half, less, power_of_two_mask k) (omega (arith, pow-suc 2 k))

-- The remainder by a doubled modulus, from the lowest digit and the rest.
double_mod : (m x : ℕ) → 0 < m → x % (m * 2) ≡ x / 2 % m * 2 + x % 2
double_mod m x h =
    let q = x / 2 / m in
    let r = x / 2 % m in
    let split : x ≡ q * (m * 2) + (r * 2 + x % 2) =
      omega (arith, div-add-mod' (x / 2) m, mul_assoc q m 2) in
    let small : r * 2 + x % 2 < m * 2 = omega (arith, mod-lt (x / 2) h) in
    ap (λ (t : ℕ). t % (m * 2)) split
    ∙ (mul-add-mod_self_right q (m * 2) (r * 2 + x % 2) ∙ mod-eq_of_lt small)

-- A mask of low ones takes the remainder.
pub bit_and-low_ones : (k x : ℕ) → bit_and x (2 ^ k - 1) ≡ x % 2 ^ k
bit_and-low_ones zero x = bit_and-zero x ∙ omega arith
bit_and-low_ones (suc k) x =
    let half : (2 ^ suc k - 1) / 2 ≡ 2 ^ k - 1 = omega (arith, pow-suc 2 k, one-le-pow k 2) in
    let rest = bit_and-low_ones k (x / 2) in
    let step = bit_and_step x (2 ^ suc k - 1) in
    let tail = ap (λ (t : ℕ). bit_and (x / 2) t) half in
    let double = double_mod (2 ^ k) x (omega (arith, one-le-pow k 2)) in
    let same = ap (λ (t : ℕ). x % t) (pow-suc 2 k) in
    omega (arith, step, tail, rest, double, same, pow-suc 2 k, one-le-pow k 2)

-- A mask that starts at bit `k`.
pub bit_and-shifted : (k x m : ℕ) → bit_and x (m * 2 ^ k) ≡ bit_and (x / 2 ^ k) m * 2 ^ k
bit_and-shifted zero x m =
    let one : m * 2 ^ 0 ≡ m = omega arith in
    let whole : x / 2 ^ 0 ≡ x = omega arith in rw (one, whole) (omega arith)
bit_and-shifted (suc k) x m =
    let half : m * 2 ^ suc k / 2 ≡ m * 2 ^ k = omega (arith, mul_pow_suc m k) in
    let even : m * 2 ^ suc k % 2 ≡ 0 = omega (arith, mul_pow_suc m k) in
    let deeper : x / 2 / 2 ^ k ≡ x / 2 ^ suc k =
      div-div-eq-div-mul x 2 (2 ^ k) ∙ ap (λ (t : ℕ). x / t) (omega (arith, pow-suc 2 k)) in
    bit_and_step x (m * 2 ^ suc k)
    ∙ rw (half, even, bit_and-shifted k (x / 2) m, deeper)
        (omega (arith, mul_pow_suc (bit_and (x / 2 ^ suc k) m) k))
