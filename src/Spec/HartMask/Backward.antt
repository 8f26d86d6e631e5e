-- ===== src/Spec/HartMask/Backward.antt =====
-- Iteration from high to low, and how the two ends of a range of harts disagree.
use rustsbi.Base.{
  ℕ, zero, suc, ◌+◌, ◌-◌, ◌/◌, ◌%◌, ◌^◌, ◌≤◌, ◌<◌, bit_and, ◌≡◌, refl, sym, ap, ◌∙◌, ◌≢◌, inl, inr,
  false, some, List, [], ◌∷◌, ◌++◌, map, arith, ◌==◌, if◌then◌else◌, ==_iff, Bool-cases, length,
}
use mathlib.Core.List.{reverse, reverse-append, append-nil, reverse-cons, map-append}
use native.Mathlib.Nat.{zero-add, add-zero, add-suc, suc-add}
use rustsbi.Base.{nil_of_length, elem}
use rustsbi.Base.Usize.{usize_bits, IsUsize, wrapping_add}
use rustsbi.Base.Words.{
  bit, one_shl, not_word, leading_zeros, set_bits, set_bits-zero, bit-clear_bit_self,
  bit-clear_bit_ne, bit-suc, bit_zero, bit-lt_two, lt_of_bit, bit_and-le,
}
use rustsbi.Spec.HartMask.{
  HartMask, iter, next, next_back, collect, collect_back, mask_base, range, ignore_mask,
}
use rustsbi.Spec.HartMask.Bits.{IsOrdinary}
use rustsbi.Spec.HartMask.Forward.{ids_from, collect-iter}

-- The set bits below `w`, highest first.
set_bits_down : ℕ → ℕ → List ℕ
set_bits_down zero x = []
set_bits_down (suc w) x = if bit x w == 1 then w ∷ set_bits_down w x else set_bits_down w x

set_bits_nil : (k x : ℕ) → set_bits 0 k x ≡ []
unfolding set_bits
set_bits_nil k x = refl

set_bits-suc :
    (w k x : ℕ)
    → set_bits (suc w) k x
      ≡ (if x % 2 == 1 then k ∷ set_bits w (suc k) (x / 2) else set_bits w (suc k) (x / 2))
unfolding set_bits
set_bits-suc w k x = refl

-- One more bit at the top goes to the end of the list.
set_bits_snoc :
    (w k x : ℕ)
    → set_bits (suc w) k x ≡ set_bits w k x ++ (if bit x w == 1 then (k + w) ∷ [] else [])
set_bits_snoc zero k x =
    rw (
      set_bits-suc zero k x,
      add-zero k,
      bit_zero x,
      set_bits_nil k x,
      set_bits_nil (suc k) (x / 2),
    )
set_bits_snoc (suc w) k x =
    let rest = set_bits_snoc w (suc k) (x / 2) in
    elim (Bool-cases (x % 2 == 1)) [
      | inl odd ↦
          rw
            (
              set_bits-suc (suc w) k x,
              set_bits-suc w k x,
              odd,
              bit-suc x w,
              add-suc k w,
              ← suc-add k w,
            )
            (ap (λ (t : List ℕ). k ∷ t) rest)
      | inr even ↦
          rw
            (
              set_bits-suc (suc w) k x,
              set_bits-suc w k x,
              even,
              bit-suc x w,
              add-suc k w,
              ← suc-add k w,
            )
            rest
    ]

set_bits_down-reverse : (w x : ℕ) → set_bits_down w x ≡ reverse (set_bits w 0 x)
unfolding set_bits_down
set_bits_down-reverse zero x = rw (set_bits_nil 0 x)
set_bits_down-reverse (suc w) x = elim (Bool-cases (bit x w == 1)) [
  | inl in_set ↦
      rw (in_set, set_bits_snoc w 0 x, in_set, zero-add w)
        (ap (λ (t : List ℕ). w ∷ t) (set_bits_down-reverse w x)
          ∙ sym (reverse-append (set_bits w 0 x) (w ∷ [])))
  | inr out ↦
      rw (out, set_bits_snoc w 0 x, out, append-nil (set_bits w 0 x)) (set_bits_down-reverse w x)
]

-- The place of the highest set bit below `w`.
top : ℕ → ℕ → ℕ
top w x = w - leading_zeros w x - 1

set_bits_down_ext :
    (w x y : ℕ) → ((i : ℕ) → i < w → bit x i ≡ bit y i) → set_bits_down w x ≡ set_bits_down w y
unfolding set_bits_down
set_bits_down_ext zero x y h = refl
set_bits_down_ext (suc w) x y h =
    rw (h w (omega arith), set_bits_down_ext w x y (λ i l. h i (omega arith)))

set_bits_down-step :
    (w x : ℕ)
    → x < 2 ^ w
    → x ≢ 0
    → (y : ℕ) → ((i : ℕ) → i < w → bit y i ≡ (if i == top w x then 0 else bit x i))
    → set_bits_down w x ≡ top w x ∷ set_bits_down w y
unfolding set_bits_down top leading_zeros
set_bits_down-step zero x h ne y e = absurd (ne (omega arith))
set_bits_down-step (suc w) x h ne y e = elim (Bool-cases (bit x w == 1)) [
  | inl high ↦
      let place : suc w - 0 - 1 ≡ w = omega arith in
      let cleared : (bit y w == 1) ≡ false = ground (arith, e w) in
      rw (high, place, cleared)
        (ap (λ (t : List ℕ). w ∷ t) (set_bits_down_ext w x y (λ i l. ground (arith, e i))))
  | inr low ↦
      let place : suc w - suc (leading_zeros w x) - 1 ≡ w - leading_zeros w x - 1 = omega arith in
      let cleared : (bit y w == 1) ≡ false = ground (arith, e w) in
      rw (low, place, cleared)
        (set_bits_down-step w x (lt_of_bit w x h (ground (arith, bit-lt_two x w))) ne y
          (λ i l. ground (arith, e i)))
]

top-lt : (w x : ℕ) → 0 < w → top w x < w
unfolding top
top-lt w x h = omega arith

collect_back-mask_base :
    (fuel mask base : ℕ)
    → IsUsize mask
    → length (set_bits_down usize_bits mask) ≤ fuel
    → collect_back fuel (mask_base mask base) ≡ ids_from base (set_bits_down usize_bits mask)
unfolding collect_back next_back top
collect_back-mask_base zero mask base h f = rw (nil_of_length (set_bits_down usize_bits mask) f)
collect_back-mask_base (suc fuel) mask base h f = elim (Bool-cases (mask == 0)) [
  | inl empty ↦ rw (
    empty,
    collect_back,
    (==_iff mask 0).0 empty,
    set_bits_down-reverse usize_bits 0,
    set_bits-zero usize_bits 0,
  )
  | inr more ↦
      let ne : mask ≢ 0 = ground arith in
      let t = top usize_bits mask in
      let rest = bit_and mask (not_word usize_bits (one_shl t)) in
      let lt = top-lt usize_bits mask (omega arith) in
      let first : set_bits_down usize_bits mask ≡ t ∷ set_bits_down usize_bits rest =
        set_bits_down-step usize_bits mask h ne rest (λ i l. ground (
          arith,
          bit-clear_bit_self usize_bits mask t lt,
          bit-clear_bit_ne usize_bits mask t i h lt,
        )) in
      rw (more, collect_back, first)
        (ap (λ (l : List ℕ). wrapping_add t base ∷ l)
          (collect_back-mask_base fuel rest base
            (omega (arith, bit_and-le mask mask (not_word usize_bits (one_shl t))))
            (omega (arith, ap (length {0}) first))))
]

map-reverse : (f : ℕ → ℕ) (xs : List ℕ) → map f (reverse xs) ≡ reverse (map f xs)
map-reverse f [] = refl
map-reverse f (x ∷ xs) =
    ap (map f) (reverse-cons x xs)
    ∙ map-append f (reverse xs) (x ∷ [])
    ∙ ap (λ (t : List ℕ). t ++ f x ∷ []) (map-reverse f xs)
    ∙ sym (reverse-cons (f x) (map f xs))

length-set_bits_down : (w x : ℕ) → length (set_bits_down w x) ≤ w
unfolding set_bits_down
length-set_bits_down zero x = omega arith
length-set_bits_down (suc w) x = ground (arith, length-set_bits_down w x)

-- Repeated `next_back` on an ordinary mask yields what repeated `next` does, in reverse.
pub collect_back-reverse :
    (m : HartMask) (fuel : ℕ)
    → IsOrdinary m
    → usize_bits ≤ fuel
    → collect_back fuel (iter m) ≡ reverse (collect fuel (iter m))
unfolding iter
collect_back-reverse m fuel h f =
    let ordinary : (m.hart_mask_base == ignore_mask) ≡ false = ground arith in
    rw (collect-iter m fuel h f) (
      rw ordinary (
        collect_back-mask_base fuel m.hart_mask m.hart_mask_base h.0
          (omega (arith, length-set_bits_down usize_bits m.hart_mask))
        ∙ (rw (set_bits_down-reverse usize_bits m.hart_mask) (
            map-reverse (λ i. wrapping_add i m.hart_mask_base)
              (set_bits usize_bits 0 m.hart_mask)))))

elem-collect_range :
    (fuel start end j : ℕ) → end ≤ j → elem j (collect fuel (range start end)) ≡ false
unfolding collect next elem
elem-collect_range zero start end j h = refl
elem-collect_range (suc fuel) start end j h =
    ground (arith, elem-collect_range fuel (start + 1) end j)

-- On a range that is not used up, `next_back` yields the end of the range, which no number of
-- calls of `next` yields, and keeps the start, so the two ends visit different harts.
pub range_ends_disagree :
    (start end fuel : ℕ)
    → start < end
    → (next_back (range start end) ≡ some (end, range start (end - 1)))
      × (elem end (collect fuel (range start end)) ≡ false)
unfolding next_back
range_ends_disagree start end fuel h =
    (ground arith, elem-collect_range fuel start end end (omega arith))
