-- ===== src/Base/Words/Laws.antt =====
-- The bit `i` of a number, and how each operation of the source changes the bits.
use Prim.Native.Nat.{
  ℕ, zero, suc, ◌-◌, ◌*◌, ◌/◌, ◌%◌, ◌^◌, ◌≤◌, ◌<◌, min, max, bit_and, bit_or, bit_and-bitwise,
}
use mathlib.Core.Bool.{not}
use rustsbi.Base.Tests.{◌==◌, if◌then◌else◌}
use mathlib.Core.Path.{◌≡◌, refl, ap, ◌∙◌}
use mathlib.Core.Logic.{◌≢◌}
use native.Mathlib.Nat.{pow-suc, one-le-pow}
use native.Mathlib.Decide.{dec_lt}
use native.Mathlib.Omega.{arith}
use rustsbi.Base.Words.Steps.{bit_or_step, bit_and_step}

-- Bit `i` of `x`, as 0 or 1.
unfoldable pub bit : ℕ → ℕ → ℕ
bit x zero = x % 2
bit x (suc i) = bit (x / 2) i

pub bit_lem : (x i : ℕ) → bit x i ≡ (if i == 0 then x % 2 else bit (x / 2) (i - 1))
unfolding bit
bit_lem x zero = refl
bit_lem x (suc i) =
    ground (arith, ap (λ (t : ℕ). bit (x / 2) t) {x = i} {y = suc i - 1} (omega arith))

-- `1 << i`.
abbrev pub one_shl : ℕ → ℕ
one_shl i = 2 ^ i

-- `!x` at a width of `w` bits.
abbrev pub not_word : ℕ → ℕ → ℕ
not_word w x = 2 ^ w - 1 - x

pub bit-lt_two : (x i : ℕ) → bit x i < 2
unfolding bit
bit-lt_two x zero = omega arith
bit-lt_two x (suc i) = bit-lt_two (x / 2) i

pub bit-zero : (i : ℕ) → bit 0 i ≡ 0
unfolding bit
bit-zero zero = refl
bit-zero (suc i) = bit-zero i

pub bit-bit_or : (a b i : ℕ) → bit (bit_or a b) i ≡ max (bit a i) (bit b i)
unfolding bit
bit-bit_or a b zero = omega (arith, bit_or_step a b)
bit-bit_or a b (suc i) =
    ap (λ (t : ℕ). bit t i) (omega (arith, bit_or_step a b)) ∙ bit-bit_or (a / 2) (b / 2) i

pub bit-bit_and : (a b i : ℕ) → bit (bit_and a b) i ≡ min (bit a i) (bit b i)
unfolding bit
bit-bit_and a b zero = omega (arith, bit_and_step a b)
bit-bit_and a b (suc i) =
    ap (λ (t : ℕ). bit t i) (omega (arith, bit_and_step a b)) ∙ bit-bit_and (a / 2) (b / 2) i

pub bit-one_shl_self : (i : ℕ) → bit (one_shl i) i ≡ 1
unfolding bit
bit-one_shl_self zero = refl
bit-one_shl_self (suc i) = ap (λ (t : ℕ). bit t i) (omega (arith, pow-suc 2 i)) ∙ bit-one_shl_self i

pub bit-one_shl_ne : (i j : ℕ) → i ≢ j → bit (one_shl i) j ≡ 0
unfolding bit
bit-one_shl_ne zero zero h = absurd (h refl)
bit-one_shl_ne zero (suc j) h = bit-zero j
bit-one_shl_ne (suc i) zero h = omega (arith, pow-suc 2 i)
bit-one_shl_ne (suc i) (suc j) h =
    ap (λ (t : ℕ). bit t j) (omega (arith, pow-suc 2 i)) ∙ bit-one_shl_ne i j (λ e. h (ap suc e))

pub bit-not_word : (w x i : ℕ) → x < 2 ^ w → i < w → bit (not_word w x) i ≡ 1 - bit x i
unfolding bit
bit-not_word zero x i h k = absurd (omega arith)
bit-not_word (suc w) x zero h k = omega (arith, pow-suc 2 w)
bit-not_word (suc w) x (suc i) h k =
    ap (λ (t : ℕ). bit t i) (omega (arith, pow-suc 2 w))
    ∙ bit-not_word w (x / 2) i (omega (arith, pow-suc 2 w)) (omega arith)

pub bit_above : (w x i : ℕ) → x < 2 ^ w → w ≤ i → bit x i ≡ 0
unfolding bit
bit_above zero x i h k = ap (λ (t : ℕ). bit t i) {y = 0} (omega arith) ∙ bit-zero i
bit_above (suc w) x zero h k = absurd (omega arith)
bit_above (suc w) x (suc i) h k = bit_above w (x / 2) i (omega (arith, pow-suc 2 w)) (omega arith)

pub pow-lt : (w i : ℕ) → i < w → 2 ^ i < 2 ^ w
pow-lt zero i h = absurd (omega arith)
pow-lt (suc w) zero h = omega (arith, pow-suc 2 w, one-le-pow w 2)
pow-lt (suc w) (suc i) h = omega (arith, pow-suc 2 w, pow-suc 2 i, pow-lt w i (omega arith))

-- A word whose top bit is clear fits one bit less.
pub lt_of_bit : (w x : ℕ) → x < 2 ^ suc w → bit x w ≡ 0 → x < 2 ^ w
unfolding bit
lt_of_bit zero x h e = omega arith
lt_of_bit (suc w) x h e = omega (
  arith,
  pow-suc 2 w,
  pow-suc 2 (suc w),
  lt_of_bit w (x / 2) (omega (arith, pow-suc 2 (suc w))) e,
)

-- Two words with the same bits are equal.
pub bit_ext : (w x y : ℕ) → x < 2 ^ w → y < 2 ^ w → ((i : ℕ) → bit x i ≡ bit y i) → x ≡ y
unfolding bit
bit_ext zero x y hx hy h = omega arith
bit_ext (suc w) x y hx hy h = omega (
  arith,
  h 0,
  pow-suc 2 w,
  bit_ext w (x / 2) (y / 2) (omega (arith, pow-suc 2 w)) (omega (arith, pow-suc 2 w))
      (λ i. h (suc i)),
)

bit_and-zero_fuel : (n x : ℕ) → x ≤ n → bit_and x 0 ≡ 0
bit_and-zero_fuel zero x h = ap (λ (t : ℕ). bit_and t 0) {y = 0} (omega arith)
bit_and-zero_fuel (suc n) zero h = refl
bit_and-zero_fuel (suc n) (suc x) h =
    omega (arith, bit_and_step (suc x) 0, bit_and-zero_fuel n (suc x / 2) (omega arith))

pub bit_and-zero : (x : ℕ) → bit_and x 0 ≡ 0
bit_and-zero x = bit_and-zero_fuel x x (omega arith)

-- `x & (1 << i)` keeps bit `i` in its place.
pub bit_and-one_shl : (x i : ℕ) → bit_and x (one_shl i) ≡ bit x i * 2 ^ i
unfolding bit
bit_and-one_shl x zero = omega (arith, bit_and_step x 1, bit_and-zero (x / 2))
bit_and-one_shl x (suc i) =
    bit_and_step x (one_shl (suc i))
    ∙ omega (
      arith,
      ap (λ (t : ℕ). bit_and (x / 2) t) {x = one_shl (suc i) / 2} {y = one_shl i}
          (omega (arith, pow-suc 2 i)),
      bit_and-one_shl (x / 2) i,
      pow-suc 2 i,
      ap (λ (t : ℕ). bit (x / 2) i * t) (pow-suc 2 i),
    )

pub bit_or-lt : (w a b : ℕ) → a < 2 ^ w → b < 2 ^ w → bit_or a b < 2 ^ w
bit_or-lt zero a b ha hb = omega (
  arith,
  ap (λ (t : ℕ). bit_or t b) {x = a} {y = 0} (omega arith),
  ap (λ (t : ℕ). bit_or 0 t) {x = b} {y = 0} (omega arith),
)
bit_or-lt (suc w) a b ha hb = omega (
  arith,
  bit_or_step a b,
  pow-suc 2 w,
  bit_or-lt w (a / 2) (b / 2) (omega (arith, pow-suc 2 w)) (omega (arith, pow-suc 2 w)),
)

zero-bit_and : (b : ℕ) → bit_and 0 b ≡ 0
zero-bit_and b = bit_and-bitwise 0 b

pub bit_and-le : (n a b : ℕ) → a ≤ n → bit_and a b ≤ a
bit_and-le zero a b h = omega (
  arith,
  bit_and_step a b,
  ap (λ (t : ℕ). bit_and t (b / 2)) {x = a / 2} {y = 0} (omega arith),
  zero-bit_and (b / 2),
)
bit_and-le (suc n) a b h = omega (arith, bit_and_step a b, bit_and-le n (a / 2) (b / 2))

-- `x | (1 << i)` sets bit `i` and no other.
pub bit-set_bit_self : (x i : ℕ) → bit (bit_or x (one_shl i)) i ≡ 1
bit-set_bit_self x i = omega (arith, bit-bit_or x (one_shl i) i, bit-one_shl_self i, bit-lt_two x i)

pub bit-set_bit_ne : (x i j : ℕ) → i ≢ j → bit (bit_or x (one_shl i)) j ≡ bit x j
bit-set_bit_ne x i j h = omega (arith, bit-bit_or x (one_shl i) j, bit-one_shl_ne i j h)

-- `x & !(1 << i)` clears bit `i` and no other, at a width that holds both.
pub bit-clear_bit_self : (w x i : ℕ) → i < w → bit (bit_and x (not_word w (one_shl i))) i ≡ 0
bit-clear_bit_self w x i h = omega (
  arith,
  bit-bit_and x (not_word w (one_shl i)) i,
  bit-not_word w (one_shl i) i (pow-lt w i h) h,
  bit-one_shl_self i,
)

pub bit-clear_bit_ne :
    (w x i j : ℕ) → x < 2 ^ w → i < w → i ≢ j → bit (bit_and x (not_word w (one_shl i))) j ≡ bit x j
bit-clear_bit_ne w x i j hx hi ne = elim (dec_lt j w) [
  | yes h ↦ omega (
    arith,
    bit-bit_and x (not_word w (one_shl i)) j,
    bit-not_word w (one_shl i) j (pow-lt w i hi) h,
    bit-one_shl_ne i j ne,
    bit-lt_two x j,
  )
  | no h ↦ omega (arith, bit-bit_and x (not_word w (one_shl i)) j, bit_above w x j hx (omega arith))
]

-- Masking with `1 << i` tests bit `i`.
pub test_bit : (x i : ℕ) → not (bit_and x (one_shl i) == 0) ≡ (bit x i == 1)
test_bit x i = ground (
  arith,
  bit_and-one_shl x i,
  bit-lt_two x i,
  one-le-pow i 2,
  ap (λ (t : ℕ). t * 2 ^ i) {x = bit x i} {y = 1},
)
