-- ===== src/Ipi/Windows.antt =====
-- The requests for all harts, one for each window of the board.
use rustsbi.Base.{
  ℕ, zero, suc, ◌+◌, ◌-◌, ◌*◌, ◌^◌, ◌≤◌, ◌<◌, min, max, bit_or, ◌≡◌, refl, ap, ◌∙◌, inl, inr, Bool,
  true, false, ◌&&◌, ◌||◌, List, [], ◌∷◌, ◌++◌, arith, ltb, leb, ◌==◌, if◌then◌else◌, Bool-cases,
  All, elem,
}
use native.Mathlib.Nat.{one-le-pow}
use rustsbi.Base.Usize.{usize_bits}
use rustsbi.Base.Words.{
  bit, one_shl, bit-zero, bit_or-lt, pow-lt, bit-bit_or, bit-one_shl_self, bit-one_shl_ne,
}
use rustsbi.Smm.Vector.{any}
use rustsbi.Spec.HartMask.{HartMask, from_mask_base, collect, iter, contains}
use rustsbi.Spec.HartMask.Bits.{contains_lem}
use rustsbi.Spec.HartMask.Forward.{IsIterable, elem-collect}
use rustsbi.Ipi.{window_mask, window_requests, targets}

-- A bit that is set under a condition.
pub bit-set_if :
    (x n i : ℕ) (c : Bool)
    → bit (bit_or x (if c then one_shl n else 0)) i ≡ max (bit x i) (if c && i == n then 1 else 0)
bit-set_if x n i true = elim (Bool-cases (i == n)) [
  | inl here ↦
      let e : i ≡ n = ground arith in
      let one : bit (one_shl n) i ≡ 1 = rw (e) (bit-one_shl_self n) in
      ground (arith, bit-bit_or x (one_shl n) i, one)
  | inr other ↦ ground (arith, bit-bit_or x (one_shl n) i, bit-one_shl_ne n i (ground arith))
]
bit-set_if x n i false = ground (arith, bit-bit_or x 0 i, bit-zero i)

pub set_if-lt :
    (w x n : ℕ) (c : Bool) → x < 2 ^ w → n < w → bit_or x (if c then one_shl n else 0) < 2 ^ w
set_if-lt w x n true h k = bit_or-lt w x (one_shl n) h (pow-lt w n k)
set_if-lt w x n false h k = bit_or-lt w x 0 h (omega (arith, h))

window_mask-lt : (avail : ℕ → Bool) (base n w : ℕ) → n ≤ w → window_mask avail base n < 2 ^ w
unfolding window_mask
window_mask-lt avail base zero w h = omega (arith, one-le-pow w 2)
window_mask-lt avail base (suc n) w h =
    set_if-lt w _ n (avail (base + n)) (window_mask-lt avail base n w (omega arith)) h

bit-window_mask :
    (avail : ℕ → Bool) (base n i : ℕ)
    → bit (window_mask avail base n) i ≡ (if ltb i n && avail (base + i) then 1 else 0)
unfolding window_mask
bit-window_mask avail base zero i = bit-zero i ∙ ground arith
bit-window_mask avail base (suc n) i =
    let rest = bit-window_mask avail base n i in
    let step = bit-set_if (window_mask avail base n) n i (avail (base + n)) in
    elim (Bool-cases (i == n)) [
      | inl here ↦
          let e : i ≡ n = ground arith in
          let same = ap (λ (t : ℕ). avail (base + t)) e in ground (arith, rest, step, same)
      | inr other ↦ ground (arith, rest, step)
    ]

-- The harts of a list of requests that `next` can walk through.
elem-append : (j : ℕ) (xs ys : List ℕ) → elem j (xs ++ ys) ≡ elem j xs || elem j ys
unfolding elem
elem-append j [] ys = refl
elem-append j (x ∷ xs) ys = ground (arith, elem-append j xs ys)

pub elem-targets :
    (j : ℕ) (rs : List HartMask)
    → All IsIterable rs
    → elem j (targets rs) ≡ any (λ r. contains r j) rs
unfolding targets any elem
elem-targets j [] h = refl
elem-targets j (r ∷ rs) h =
    let here = (elem-collect r usize_bits h.0 (omega arith)).1 j in
    let rest = elem-targets j rs h.1 in
    rw (elem-append j (collect usize_bits (iter r)) (targets rs), here, rest) refl

module _ (avail : ℕ → Bool) where
  at : (base j : ℕ) → base ≤ j → avail (base + (j - base)) ≡ avail j
  at base j h = ap avail (omega arith)

  pub window_requests_lem :
      (base len rounds : ℕ)
      → len ≤ rounds * usize_bits
      → base + rounds * usize_bits ≤ 2 ^ 63
      → All IsIterable (window_requests avail base len rounds)
        × ((j : ℕ)
            → any (λ r. contains r j) (window_requests avail base len rounds)
              ≡ (leb base j && ltb j (base + len) && avail j))
  unfolding window_requests any
  window_requests_lem base len zero h k = (tt, λ j. ground arith)
  window_requests_lem base len (suc rounds) h k =
      let n = min usize_bits len in
      let mask = window_mask avail base n in
      let m : HartMask = from_mask_base mask base in
      let rest =
        window_requests_lem (base + usize_bits) (len - usize_bits) rounds (omega arith)
          (omega arith) in
      let small : mask < 2 ^ 64 = window_mask-lt avail base n 64 (ground arith) in
      let bits = λ (j : ℕ). bit-window_mask avail base n (j - base) in
      let inside = λ (j : ℕ). contains_lem m j (ground arith) in
      elim (Bool-cases (len == 0)) [
        | inl none_left ↦ rw (window_requests, none_left) (tt, λ j. ground arith)
        | inr some_left ↦ elim (Bool-cases (mask == 0)) [
          | inl empty ↦
              rw (window_requests, some_left, empty)
                (
                  rest.0,
                  λ j.
                      let zero_mask : mask ≡ 0 = ground arith in
                      let clear =
                        ap (λ (t : ℕ). bit t (j - base)) zero_mask ∙ bit-zero (j - base) in
                      ground (arith, rest.1 j, bits j, clear, at base j),
                )
          | inr busy ↦
              rw (window_requests, some_left, busy)
                (
                  (((small, ground arith), omega arith), rest.0),
                  λ j. ground (arith, rest.1 j, bits j, inside j, at base j),
                )
        ]
      ]
