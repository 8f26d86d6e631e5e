-- ===== src/Base/Words/Steps.antt =====
-- One equation for the lowest digit of `bit_or` and `bit_and`.
use Prim.Native.Nat.{
  ℕ, zero, suc, ◌+◌, ◌*◌, ◌/◌, ◌%◌, ◌≤◌, min, max, bit_and, bit_or, digits, bitwise,
  bit_and-bitwise, bit_or-bitwise,
}
use mathlib.Core.Path.{◌≡◌, refl}
use native.Mathlib.Omega.{arith}

module _ (z : ℕ → ℕ) (f : ℕ → ℕ → ℕ) where
  -- Spare fuel is left unused.
  spare_fuel :
      (given needed a b : ℕ)
      → a ≤ needed
      → needed ≤ given
      → digits z f given a b ≡ digits z f needed a b
  spare_fuel zero zero a b enough more = refl
  spare_fuel zero (suc needed) a b enough more = absurd (omega arith)
  spare_fuel (suc given) zero zero b enough more = refl
  spare_fuel (suc given) zero (suc a) b enough more = absurd (omega arith)
  spare_fuel (suc given) (suc needed) zero b enough more = refl
  spare_fuel (suc given) (suc needed) (suc a) b enough more =
      let half = suc a / 2 in
      omega (arith, spare_fuel given needed half (b / 2) (omega arith) (omega arith))

  -- A digit operation acts on the lowest digits and on the halves, also where its first argument
  -- is 0, provided that what it does there, `z`, is the same operation.
  low_digit :
      ((b : ℕ) → z b ≡ z (b / 2) * 2 + f 0 (b % 2))
      → (a b : ℕ) → bitwise z f a b ≡ bitwise z f (a / 2) (b / 2) * 2 + f (a % 2) (b % 2)
  low_digit at_zero zero b = at_zero b
  low_digit at_zero (suc a) b =
      let half = suc a / 2 in
      omega (arith, spare_fuel a half half (b / 2) (omega arith) (omega arith))

pub bit_or_step : (a b : ℕ) → bit_or a b ≡ bit_or (a / 2) (b / 2) * 2 + max (a % 2) (b % 2)
bit_or_step a b = simp bit_or-bitwise (low_digit (λ y. y) max (λ y. omega arith) a b)

pub bit_and_step : (a b : ℕ) → bit_and a b ≡ bit_and (a / 2) (b / 2) * 2 + min (a % 2) (b % 2)
bit_and_step a b = simp bit_and-bitwise (low_digit (λ y. 0) min (λ y. omega arith) a b)
