-- ===== src/Base/Families.antt =====
-- Families of values indexed by hart: a write at one index, and sums over the first harts.
use Prim.Native.Nat.{ℕ, zero, suc, ◌+◌, ◌*◌, ◌≤◌, ◌<◌}
use mathlib.Core.Path.{◌≡◌, refl, sym}
use mathlib.Core.Logic.{◌≢◌, inl, inr}
use native.Mathlib.Omega.{arith}
use rustsbi.Base.Tests.{◌==◌, if◌then◌else◌, Bool-cases}

abbrev pub assign {ℓ} : {A : Type ℓ} → (ℕ → A) → ℕ → A → ℕ → A
assign f i v j = if j == i then v else f j

pub total : ℕ → (ℕ → ℕ) → ℕ
total zero f = 0
total (suc n) f = total n f + f n

-- Where a family changes at one index only, its sum changes by what changes there.
total-change_above :
    (n i : ℕ) (f g : ℕ → ℕ) → n ≤ i → ((j : ℕ) → j ≢ i → g j ≡ f j) → total n g ≡ total n f
unfolding total
total-change_above zero i f g h same = refl
total-change_above (suc n) i f g h same =
    omega (arith, total-change_above n i f g (omega arith) same, same n (omega arith))

pub total-change :
    (n i : ℕ) (f g : ℕ → ℕ)
    → i < n
    → ((j : ℕ) → j ≢ i → g j ≡ f j)
    → total n g + f i ≡ total n f + g i
unfolding total
total-change zero i f g h same = absurd (omega arith)
total-change (suc n) i f g h same = elim (Bool-cases (n == i)) [
  | inl last ↦
      let e : n ≡ i = ground arith in
      let below = total-change_above n i f g (omega arith) same in rw (sym e) (omega (arith, below))
  | inr before ↦
      let ne : n ≢ i = ground arith in
      omega (arith, total-change n i f g (ground arith) same, same n ne)
]

pub total-same : (n : ℕ) (f g : ℕ → ℕ) → ((j : ℕ) → g j ≡ f j) → total n g ≡ total n f
unfolding total
total-same zero f g same = refl
total-same (suc n) f g same = omega (arith, total-same n f g same, same n)

pub total-le : (n k : ℕ) (f : ℕ → ℕ) → ((j : ℕ) → f j ≤ k) → total n f ≤ n * k
unfolding total
total-le zero k f h = omega arith
total-le (suc n) k f h = grind (arith, total-le n k f h, h n)

pub total-member : (n i : ℕ) (f : ℕ → ℕ) → i < n → f i ≤ total n f
unfolding total
total-member zero i f h = absurd (omega arith)
total-member (suc n) i f h = elim (Bool-cases (n == i)) [
  | inl last ↦ let e : n ≡ i = ground arith in rw (sym e) (omega arith)
  | inr before ↦ omega (arith, total-member n i f (ground arith))
]

pub total-zero : (n : ℕ) → total n (λ j. 0) ≡ 0
unfolding total
total-zero zero = refl
total-zero (suc n) = omega (arith, total-zero n)
