-- ===== src/Ipi/Active.antt =====
-- The loop over the bits of an ordinary mask.
use rustsbi.Base.{
  ℕ, ◌+◌, ◌^◌, ◌<◌, max, bit_or, ◌≡◌, ap, inl, inr, Bool, true, false, ◌&&◌, List, [], ◌∷◌, arith,
  ltb, ◌==◌, if◌then◌else◌, ==_iff, Bool-cases, elem,
}
use rustsbi.Base.Usize.{usize_bits, checked_add}
use rustsbi.Base.Words.{bit, one_shl}
use rustsbi.Spec.Ret.{Result, ok, err, Error, invalid_param}
use rustsbi.Spec.HartMask.{HartMask, from_mask_base, collect, iter}
use rustsbi.Spec.HartMask.Bits.{contains_lem}
use rustsbi.Spec.HartMask.Forward.{elem-collect}
use rustsbi.Hart.{from_raw, num_hart_max}
use rustsbi.Ipi.{Board, assigned, available, active_bits}
use rustsbi.Ipi.Windows.{bit-set_if, set_if-lt}

bit-add_if :
    (x n i : ℕ) (c : Bool)
    → bit (if c then bit_or x (one_shl n) else x) i ≡ max (bit x i) (if c && i == n then 1 else 0)
bit-add_if x n i true = bit-set_if x n i true
bit-add_if x n i false = ground arith

add_if-lt :
    (w x n : ℕ) (c : Bool) → x < 2 ^ w → n < w → (if c then bit_or x (one_shl n) else x) < 2 ^ w
add_if-lt w x n true h k = set_if-lt w x n true h k
add_if-lt w x n false h k = h

assigned-lt : (b : Board) (h : ℕ) → assigned b h ≡ true → h < num_hart_max
unfolding assigned from_raw
assigned-lt b h e = ground arith

pub available-lt : (b : Board) (h : ℕ) → available b h ≡ true → h < num_hart_max
unfolding available
available-lt b h e = assigned-lt b h (ground arith)

-- A loop that succeeds has met assigned harts only, and has set the bits of the available ones.
abbrev pub Activates : Board → ℕ → List ℕ → ℕ → ℕ → Type 0
Activates b base is active m =
    ((i : ℕ) → elem i is ≡ true → assigned b (base + i) ≡ true)
    × ((i : ℕ)
        → bit m i ≡ max (bit active i) (if elem i is && available b (base + i) then 1 else 0))

-- One round of the loop.
active_round :
    (b : Board) (base i : ℕ) (is : List ℕ) (active m : ℕ)
    → active_bits b base (i ∷ is) active ≡ ok m
    → (assigned b (base + i) ≡ true)
      × (active_bits b base is
            (if available b (base + i) then bit_or active (one_shl i) else active)
          ≡ ok m)
unfolding active_bits
active_round b base i is active m e = elim (Bool-cases (ltb (base + i) (2 ^ 64))) [
  | inl fits ↦ elim (Bool-cases (assigned b (base + i))) [
    | inl good ↦ (good, rw (active_bits, checked_add, fits, good) at e)
    | inr bad ↦
        let e' : err invalid_param ≡ ok m = rw (active_bits, checked_add, fits, bad) at e in
        absurd cc
  ]
  | inr beyond ↦
      let e' : err invalid_param ≡ ok m = rw (active_bits, checked_add, beyond) at e in absurd cc
]

pub active_bits-Activates :
    (b : Board) (base : ℕ) (is : List ℕ) (active m : ℕ)
    → active_bits b base is active ≡ ok m
    → Activates b base is active m
unfolding active_bits elem
active_bits-Activates b base [] active m e =
    let same : m ≡ active = cc in rw (same) ((λ i h. absurd cc), λ i. ground arith)
active_bits-Activates b base (k ∷ is) active m e =
    let (good, more) = active_round b base k is active m e in
    let rest = active_bits-Activates b base is _ m more in
    (
      (λ i h. elim (Bool-cases (k == i)) [
        | inl here ↦ rw (← (==_iff k i).0 here) good
        | inr other ↦ rest.0 i (ground arith)
      ]),
      λ i.
          let bits = rest.1 i in
          let step = bit-add_if active k i (available b (base + k)) in
          elim (Bool-cases (k == i)) [
            | inl here ↦
                let same = ap (λ (t : ℕ). available b (base + t)) ((==_iff k i).0 here) in
                ground (arith, bits, step, same)
            | inr other ↦ ground (arith, bits, step)
          ],
    )

pub active_bits-lt :
    (b : Board) (base : ℕ) (is : List ℕ) (active m : ℕ)
    → active < 2 ^ 64
    → ((i : ℕ) → elem i is ≡ true → i < 64)
    → active_bits b base is active ≡ ok m
    → m < 2 ^ 64
unfolding active_bits elem
active_bits-lt b base [] active m h small e = let same : m ≡ active = cc in rw (same) h
active_bits-lt b base (k ∷ is) active m h small e =
    active_bits-lt b base is _ m
      (add_if-lt 64 active k (available b (base + k)) h (small k (ground arith)))
      (λ i hi. small i (ground arith)) (active_round b base k is active m e).1

-- A loop that fails has met a hart that is not assigned.
pub active_bits-refused :
    (b : Board) (base : ℕ) (is : List ℕ) (active : ℕ) (x : Error)
    → active_bits b base is active ≡ err x
    → (x ≡ invalid_param) × ((i : ℕ) × (elem i is ≡ true) × (assigned b (base + i) ≡ false))
unfolding active_bits elem
active_bits-refused b base [] active x e = absurd cc
active_bits-refused b base (k ∷ is) active x e = elim (Bool-cases (assigned b (base + k))) [
  | inr bad ↦ elim (Bool-cases (ltb (base + k) (2 ^ 64))) [
    | inl fits ↦
        let answer : Result ℕ = err invalid_param in
        let e' : answer ≡ err x = rw (active_bits, checked_add, fits, bad) at e in
        (cc, (k, ground arith, bad))
    | inr beyond ↦
        let answer : Result ℕ = err invalid_param in
        let e' : answer ≡ err x = rw (active_bits, checked_add, beyond) at e in
        (cc, (k, ground arith, bad))
  ]
  | inl good ↦
      let fits : ltb (base + k) (2 ^ 64) ≡ true = ground (arith, assigned-lt b (base + k) good) in
      let e' = rw (active_bits, checked_add, fits, good) at e in
      let (named, (i, within, bad)) = active_bits-refused b base is _ x e' in
      (named, (i, ground arith, bad))
]

-- The bits of an ordinary mask, as the loop walks through them.
abbrev pub walk : ℕ → List ℕ
walk mask = collect usize_bits (iter (from_mask_base mask 0))

pub elem-walk :
    (mask i : ℕ) → mask < 2 ^ 64 → elem i (walk mask) ≡ (ltb i usize_bits && bit mask i == 1)
elem-walk mask i h =
    let m : HartMask = from_mask_base mask 0 in
    let all = (elem-collect m usize_bits ((h, ground arith), omega arith) (omega arith)).1 i in
    ground (arith, all, contains_lem m i (ground arith))
