-- ===== src/Base/Words/Lowest.antt =====
-- The list of the set bits of a word: its entries, its length, and `x & (x - 1)`.
use native.Mathlib.Nat.{pow-suc}
use Prim.Native.Nat.{ℕ, zero, suc, ◌+◌, ◌-◌, ◌*◌, ◌/◌, ◌%◌, ◌^◌, ◌≤◌, ◌<◌, bit_and, bit_or}
use mathlib.Core.Path.{◌≡◌, refl, ap, ◌∙◌}
use mathlib.Core.Logic.{◌≢◌, inl, inr}
use mathlib.Core.Option.{none, some}
use mathlib.Core.List.{List, [], ◌∷◌}
use native.Mathlib.Omega.{arith}
use rustsbi.Base.Tests.{◌==◌, Bool-cases}
use rustsbi.Base.Lists.{length, get_elem?}
use rustsbi.Base.Words.Steps.{bit_and_step, bit_or_step}
use rustsbi.Base.Words.Fields.{bit_or-zero_fuel}
use rustsbi.Base.Words.Laws.{bit, one_shl, not_word, bit_lem}
use rustsbi.Base.Words.Count.{
  trailing_zeros, set_bits, one_shl-trailing_zeros-le, clear_bit-eq-sub, trailing_zeros-lt,
  bit-trailing_zeros,
}

bit_and-same_fuel : (n x : ℕ) → x ≤ n → bit_and x x ≡ x
bit_and-same_fuel zero x h = ap (λ (t : ℕ). bit_and t t) {x = x} {y = 0} (omega arith) ∙ omega arith
bit_and-same_fuel (suc n) x h = elim (Bool-cases (x == 0)) [
  | inl empty ↦ ap (λ (t : ℕ). bit_and t t) {x = x} {y = 0} (ground arith) ∙ ground arith
  | inr more ↦ bit_and_step x x ∙ ground (arith, bit_and-same_fuel n (x / 2))
]

pub bit_and-pred :
    (w x : ℕ) → x < 2 ^ w → x ≢ 0 → bit_and x (x - 1) ≡ x - one_shl (trailing_zeros w x)
unfolding trailing_zeros
bit_and-pred zero x h ne = absurd (ne (omega arith))
bit_and-pred (suc w) x h ne = elim (Bool-cases (x % 2 == 1)) [
  | inl odd ↦
      let half : (x - 1) / 2 ≡ x / 2 = ground arith in
      rw (odd)
        (bit_and_step x (x - 1) ∙ rw (half) (ground (arith, bit_and-same_fuel (x / 2) (x / 2))))
  | inr even ↦
      let half : (x - 1) / 2 ≡ x / 2 - 1 = ground arith in
      let rest = bit_and-pred w (x / 2) (omega (arith, pow-suc 2 w)) (ground arith) in
      let le = one_shl-trailing_zeros-le w (x / 2) (omega (arith, pow-suc 2 w)) (ground arith) in
      rw (even) (
        bit_and_step x (x - 1)
        ∙ rw (half) (ground (arith, rest, le, pow-suc 2 (trailing_zeros w (x / 2)))))
]

pub bit_and-clear_lowest :
    (w x : ℕ)
    → x < 2 ^ w
    → x ≢ 0
    → bit_and x (not_word w (one_shl (trailing_zeros w x))) ≡ x - one_shl (trailing_zeros w x)
bit_and-clear_lowest w x h ne = omega (
  arith,
  clear_bit-eq-sub w x (trailing_zeros w x) h (trailing_zeros-lt w x h ne),
  ap (λ (t : ℕ). t * 2 ^ trailing_zeros w x) (bit-trailing_zeros w x h ne),
)

-- What an entry behind the first place is of the halved word, it is of the word.
deeper :
    (w k x o : ℕ)
    → (suc k ≤ o) × (o < suc k + w) × (bit (x / 2) (o - suc k) ≡ 1)
    → (k ≤ o) × (o < k + suc w) × (bit x (o - k) ≡ 1)
deeper w k x o (low, high, set) =
    let place = bit_lem x (o - k) in
    let same = ap (bit (x / 2)) {x = o - k - 1} {y = o - suc k} (omega arith) in
    (omega arith, omega arith, ground arith)

-- The entries of a list with a new first place.
front :
    (w k x o : ℕ) (xs : List ℕ)
    → ((i : ℕ) → get_elem? xs i ≡ some o → (k ≤ o) × (o < k + suc w) × (bit x (o - k) ≡ 1))
    → x % 2 ≡ 1
    → (i : ℕ) → get_elem? (k ∷ xs) i ≡ some o
    → (k ≤ o) × (o < k + suc w) × (bit x (o - k) ≡ 1)
front w k x o xs rest odd zero h =
    let same : o ≡ k = cc in
    let place = bit_lem x (o - k) in (omega arith, omega arith, ground arith)
front w k x o xs rest odd (suc i) h = rest i h

-- Each entry of the list is the place of a set bit.
pub get_elem?-set_bits :
    (w k x i o : ℕ)
    → get_elem? (set_bits w k x) i ≡ some o
    → (k ≤ o) × (o < k + w) × (bit x (o - k) ≡ 1)
unfolding set_bits
get_elem?-set_bits zero k x i o h = absurd cc
get_elem?-set_bits (suc w) k x i o h =
    let rest : (j : ℕ)
        → get_elem? (set_bits w (suc k) (x / 2)) j ≡ some o
        → (k ≤ o) × (o < k + suc w) × (bit x (o - k) ≡ 1) =
      λ j e. deeper w k x o (get_elem?-set_bits w (suc k) (x / 2) j o e) in
    elim (Bool-cases (x % 2 == 1)) [
      | inr even ↦ rest i (rw (set_bits, even) at h)
      | inl odd ↦
          front w k x o (set_bits w (suc k) (x / 2)) rest (ground arith) i (rw (set_bits, odd) at h)
    ]

-- Every place below the length has an entry.
pub get_elem?-below : (xs : List ℕ) (i : ℕ) → i < length xs → (o : ℕ) × (get_elem? xs i ≡ some o)
get_elem?-below [] i h = absurd (omega arith)
get_elem?-below (x ∷ xs) zero h = (x, refl)
get_elem?-below (x ∷ xs) (suc i) h = get_elem?-below xs i (omega arith)

pub get_elem?-beyond : (xs : List ℕ) (i : ℕ) → length xs ≤ i → get_elem? xs i ≡ none
get_elem?-beyond [] i h = refl
get_elem?-beyond (x ∷ xs) zero h = absurd (omega arith)
get_elem?-beyond (x ∷ xs) (suc i) h = get_elem?-beyond xs i (omega arith)

-- Setting a set bit changes nothing.
pub bit_or-set : (x i : ℕ) → bit x i ≡ 1 → bit_or x (one_shl i) ≡ x
unfolding bit
bit_or-set x zero h =
    bit_or_step x 1 ∙ omega (arith, bit_or-zero_fuel (x / 2) (x / 2) (omega arith))
bit_or-set x (suc i) h =
    let half : one_shl (suc i) / 2 ≡ one_shl i = omega (arith, pow-suc 2 i) in
    let even : one_shl (suc i) % 2 ≡ 0 = omega (arith, pow-suc 2 i) in
    bit_or_step x (one_shl (suc i)) ∙ rw (half, even, bit_or-set (x / 2) i h) (omega arith)
