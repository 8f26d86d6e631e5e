-- ===== src/Memory/Excluding.antt =====
-- `excluding` as set difference.
use rustsbi.Base.{
  ℕ, ◌≤◌, ◌<◌, max, ◌≡◌, refl, inl, inr, false, not, ◌&&◌, List, [], ◌∷◌, arith, ltb, leb,
  Bool-cases, All,
}
use rustsbi.Smm.Vector.{any, All-mono}
use rustsbi.Memory.{PhysAddrRange, gaps, excluding, sort_by_start, clip_all}
use rustsbi.Memory.Ranges.{
  covers, any_covers, StartsFrom, StartsFrom-sort, any-sort, All-sort, any-clip_all, All-clip_all,
  LiesIn,
}

-- Before all starts, nothing is covered.
before_starts :
    (b a : ℕ) (xs : List PhysAddrRange) → StartsFrom b xs → a < b → any_covers xs a ≡ false
unfolding any
before_starts b a [] h k = refl
before_starts b a (x ∷ xs) h k =
    let rest = before_starts x.start a xs h.1 (omega (arith, h.0)) in ground (arith, h.0)

StartsFrom-mono : (b c : ℕ) (xs : List PhysAddrRange) → b ≤ c → StartsFrom c xs → StartsFrom b xs
StartsFrom-mono b c [] h k = tt
StartsFrom-mono b c (x ∷ xs) h k = (omega (arith, k.0), k.1)

abbrev EndsBy : ℕ → PhysAddrRange → Type 0
EndsBy limit x = (x.start < x.bound) × (x.bound ≤ limit)

gaps_lem :
    (limit cursor b a : ℕ) (xs : List PhysAddrRange)
    → StartsFrom b xs
    → All (EndsBy limit) xs
    → any_covers (gaps limit cursor xs) a ≡ leb cursor a && ltb a limit && not (any_covers xs a)
unfolding gaps any
gaps_lem limit cursor b a [] s h = ground arith
gaps_lem limit cursor b a (x ∷ xs) s h =
    let rest = gaps_lem limit (max cursor x.bound) x.start a xs s.1 h.1 in
    let later = before_starts x.start a xs s.1 in
    elim (Bool-cases (ltb cursor x.start)) [
      | inl gap ↦ rw (gaps, gap) (ground (arith, rest, later, h.0))
      | inr none_here ↦ rw (gaps, none_here) (ground (arith, rest, later, h.0))
    ]

-- `excluding` leaves of a range exactly the addresses that lie in none of the excluded ranges,
-- which need not be sorted, disjoint or inside it.
pub excluding_lem :
    (r : PhysAddrRange) (excluded : List PhysAddrRange) (a : ℕ)
    → any_covers (excluding r excluded) a ≡ covers r a && not (any_covers excluded a)
unfolding excluding
excluding_lem r excluded a =
    let parts = clip_all r excluded in
    let within =
      All-mono {P = LiesIn r} {Q = EndsBy r.bound} parts (λ x k. (k.1, k.2))
        (All-clip_all r excluded) in
    let inside = All-sort (EndsBy r.bound) parts within in
    let gapped =
      gaps_lem r.bound r.start 0 a (sort_by_start parts) (StartsFrom-sort parts) inside in
    let same = any-sort (λ x. covers x a) parts in
    let clipped = any-clip_all r a excluded in rw (gapped, same) (ground arith)
