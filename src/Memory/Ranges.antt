-- ===== src/Memory/Ranges.antt =====
-- Ranges as sets of addresses: what clipping, joining and sorting keep of them.
use rustsbi.Base.{
  ℕ, ◌≤◌, ◌<◌, min, max, ◌≡◌, refl, inl, inr, Bool, true, ◌&&◌, ◌||◌, List, [], ◌∷◌, ◌++◌, arith,
  ltb, leb, ltb→lt, leb→le, Bool-cases, All,
}
use rustsbi.Smm.Vector.{any}
use rustsbi.Memory.{
  PhysAddrRange, overlaps, adjacent, join, clip, clip_all, insert_by_start, sort_by_start,
}

-- Whether an address lies in a range, or in one of several.
abbrev pub covers : PhysAddrRange → ℕ → Bool
covers r a = leb r.start a && ltb a r.bound

abbrev pub any_covers : List PhysAddrRange → ℕ → Bool
any_covers xs a = any (λ r. covers r a) xs

-- What the constructors of a range ensure.
abbrev pub IsRange : PhysAddrRange → Type 0
IsRange r = r.start < r.bound

-- The starts ascend from `b` on.
abbrev pub StartsFrom : ℕ → List PhysAddrRange → Type 0
StartsFrom b [] = Unit
StartsFrom b (x ∷ xs) = (b ≤ x.start) × StartsFrom x.start xs

pub any-append {ℓ} :
    {A : Type ℓ} (p : A → Bool) (xs ys : List A) → any p (xs ++ ys) ≡ any p xs || any p ys
unfolding any
any-append p [] ys = refl
any-append p (x ∷ xs) ys = ground (arith, any-append p xs ys)

StartsFrom-insert :
    (b : ℕ) (x : PhysAddrRange) (xs : List PhysAddrRange)
    → b ≤ x.start
    → StartsFrom b xs
    → StartsFrom b (insert_by_start x xs)
unfolding insert_by_start
StartsFrom-insert b x [] h k = (h, tt)
StartsFrom-insert b x (y ∷ ys) h k = elim (Bool-cases (leb x.start y.start)) [
  | inl le ↦ rw (insert_by_start, le) (h, (leb→le _ _ le, k.1))
  | inr gt ↦ rw (insert_by_start, gt) (k.0, StartsFrom-insert y.start x ys (ground arith) k.1)
]

pub StartsFrom-sort : (xs : List PhysAddrRange) → StartsFrom 0 (sort_by_start xs)
unfolding sort_by_start
StartsFrom-sort [] = tt
StartsFrom-sort (x ∷ xs) =
    StartsFrom-insert 0 x (sort_by_start xs) (omega arith) (StartsFrom-sort xs)

any-insert :
    (p : PhysAddrRange → Bool) (x : PhysAddrRange) (xs : List PhysAddrRange)
    → any p (insert_by_start x xs) ≡ p x || any p xs
unfolding insert_by_start any
any-insert p x [] = refl
any-insert p x (y ∷ ys) = elim (Bool-cases (leb x.start y.start)) [
  | inl le ↦ rw (insert_by_start, le) refl
  | inr gt ↦ rw (insert_by_start, gt) (ground (arith, any-insert p x ys))
]

pub any-sort :
    (p : PhysAddrRange → Bool) (xs : List PhysAddrRange) → any p (sort_by_start xs) ≡ any p xs
unfolding sort_by_start any
any-sort p [] = refl
any-sort p (x ∷ xs) = let rest = any-sort p xs in rw (any-insert p x (sort_by_start xs), rest) refl

module _ {κ} (P : PhysAddrRange → Type κ) where
  All-insert :
      (x : PhysAddrRange) (xs : List PhysAddrRange) → P x → All P xs → All P (insert_by_start x xs)
  unfolding insert_by_start
  All-insert x [] h k = (h, tt)
  All-insert x (y ∷ ys) h k = elim (Bool-cases (leb x.start y.start)) [
    | inl le ↦ rw (insert_by_start, le) (h, k)
    | inr gt ↦ rw (insert_by_start, gt) (k.0, All-insert x ys h k.1)
  ]

  pub All-sort : (xs : List PhysAddrRange) → All P xs → All P (sort_by_start xs)
  unfolding sort_by_start
  All-sort [] h = tt
  All-sort (x ∷ xs) h = All-insert x (sort_by_start xs) h.0 (All-sort xs h.1)

pub any-clip_all :
    (r : PhysAddrRange) (a : ℕ) (xs : List PhysAddrRange)
    → covers r a ≡ true
    → any_covers (clip_all r xs) a ≡ any_covers xs a
unfolding clip_all clip any
any-clip_all r a [] h = refl
any-clip_all r a (x ∷ xs) h =
    let rest = any-clip_all r a xs h in
    elim (Bool-cases (ltb (max r.start x.start) (min r.bound x.bound))) [
      | inl some_part ↦ rw (clip_all, clip, some_part) (ground arith)
      | inr no_part ↦ rw (clip_all, clip, no_part) (ground arith)
    ]

abbrev pub LiesIn : PhysAddrRange → PhysAddrRange → Type 0
LiesIn r x = (r.start ≤ x.start) × (x.start < x.bound) × (x.bound ≤ r.bound)

-- Every clipped part lies within the range.
pub All-clip_all : (r : PhysAddrRange) (xs : List PhysAddrRange) → All (LiesIn r) (clip_all r xs)
unfolding clip_all clip
All-clip_all r [] = tt
All-clip_all r (x ∷ xs) =
    let rest = All-clip_all r xs in
    elim (Bool-cases (ltb (max r.start x.start) (min r.bound x.bound))) [
      | inl some_part ↦
          rw (clip_all, clip, some_part) ((ground arith, ltb→lt _ _ some_part, ground arith), rest)
      | inr no_part ↦ rw (clip_all, clip, no_part) rest
    ]

-- Joining two ranges that overlap or touch adds no address.
pub covers-join :
    (r x : PhysAddrRange) (a : ℕ)
    → IsRange r
    → IsRange x
    → overlaps r x || adjacent r x ≡ true
    → covers (join r x) a ≡ covers r a || covers x a
unfolding join overlaps adjacent
covers-join r x a hr hx h = ground arith
