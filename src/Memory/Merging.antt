-- ===== src/Memory/Merging.antt =====
-- `normalize_reserved_ranges` and `normalize_ram_ranges`: the same addresses in separated ranges.
use rustsbi.Base.{
  ℕ, suc, ◌≤◌, ◌<◌, ◌≡◌, refl, sym, ◌∙◌, inl, inr, ◌||◌, List, [], ◌∷◌, arith, Bool-cases, All,
}
use rustsbi.Smm.Vector.{any}
use rustsbi.Memory.{
  PhysAddrRange, overlaps, adjacent, join, join_reserved, normalize_reserved_ranges, reserved_loop,
  sort_by_start,
}
use rustsbi.Memory.Ranges.{
  covers, any_covers, IsRange, StartsFrom, StartsFrom-sort, any-sort, All-sort, covers-join,
}

-- Non-empty ranges in ascending order with at least an address between two neighbours, the first
-- of which starts at `b` or later.
abbrev pub IsSeparated : ℕ → List PhysAddrRange → Type 0
IsSeparated b [] = Unit
IsSeparated b (x ∷ xs) = (b ≤ x.start) × (x.start < x.bound) × IsSeparated (suc x.bound) xs

pub join-IsRange : (r x : PhysAddrRange) → IsRange r → r.start ≤ x.start → IsRange (join r x)
unfolding join
join-IsRange r x h k = ground arith

pub start-join : (r x : PhysAddrRange) → r.start ≤ x.start → (join r x).start ≡ r.start
unfolding join
start-join r x k = ground arith

pub StartsFrom-lower :
    (b c : ℕ) (xs : List PhysAddrRange) → b ≤ c → StartsFrom c xs → StartsFrom b xs
StartsFrom-lower b c [] h k = tt
StartsFrom-lower b c (x ∷ xs) h k = (omega (arith, k.0), k.1)

join_reserved-covers :
    (previous : PhysAddrRange) (rs : List PhysAddrRange) (a : ℕ)
    → IsRange previous
    → StartsFrom previous.start rs
    → All IsRange rs
    → any_covers (join_reserved previous rs) a ≡ covers previous a || any_covers rs a
unfolding join_reserved any
join_reserved-covers previous [] a h s k = refl
join_reserved-covers previous (r ∷ rs) a h s k =
    elim (Bool-cases (overlaps previous r || adjacent previous r)) [
      | inl touching ↦
          let first = sym (start-join previous r s.0) in
          let s' =
            StartsFrom-lower (join previous r).start r.start rs (omega (arith, first, s.0)) s.1 in
          let rest =
            join_reserved-covers (join previous r) rs a (join-IsRange previous r h s.0) s' k.1 in
          let united = covers-join previous r a h k.0 touching in
          rw (join_reserved, touching, rest, united) (ground arith)
      | inr apart ↦
          let rest = join_reserved-covers r rs a k.0 s.1 k.1 in rw (join_reserved, apart, rest) refl
    ]

join_reserved-IsSeparated :
    (b : ℕ) (previous : PhysAddrRange) (rs : List PhysAddrRange)
    → b ≤ previous.start
    → IsRange previous
    → StartsFrom previous.start rs
    → All IsRange rs
    → IsSeparated b (join_reserved previous rs)
unfolding join_reserved overlaps adjacent
join_reserved-IsSeparated b previous [] le h s k = (le, h, tt)
join_reserved-IsSeparated b previous (r ∷ rs) le h s k =
    elim (Bool-cases (overlaps previous r || adjacent previous r)) [
      | inl touching ↦
          let first = sym (start-join previous r s.0) in
          let s' =
            StartsFrom-lower (join previous r).start r.start rs (omega (arith, first, s.0)) s.1 in
          rw (join_reserved, touching)
            (join_reserved-IsSeparated b (join previous r) rs (omega (arith, first, le))
              (join-IsRange previous r h s.0) s' k.1)
      | inr apart ↦
          rw (join_reserved, apart)
            (
              le,
              h,
              join_reserved-IsSeparated (suc previous.bound) r rs (ground (arith, k.0, s.0)) k.0 s.1
                  k.1,
            )
    ]

reserved_loop_lem :
    (rs : List PhysAddrRange)
    → StartsFrom 0 rs
    → All IsRange rs
    → IsSeparated 0 (reserved_loop rs)
      × ((a : ℕ) → any_covers (reserved_loop rs) a ≡ any_covers rs a)
unfolding reserved_loop any
reserved_loop_lem [] s k = (tt, λ a. refl)
reserved_loop_lem (r ∷ rs) s k =
    (join_reserved-IsSeparated 0 r rs s.0 k.0 s.1 k.1, λ a. join_reserved-covers r rs a k.0 s.1 k.1)

-- Of non-empty reserved ranges in any order, `normalize_reserved_ranges` makes ascending ranges
-- with a gap between any two neighbours, which cover exactly the same addresses.
pub normalize_reserved_ranges_lem :
    (ranges : List PhysAddrRange)
    → All IsRange ranges
    → IsSeparated 0 (normalize_reserved_ranges ranges)
      × ((a : ℕ) → any_covers (normalize_reserved_ranges ranges) a ≡ any_covers ranges a)
unfolding normalize_reserved_ranges
normalize_reserved_ranges_lem ranges h =
    let sorted = sort_by_start ranges in
    let loop = reserved_loop_lem sorted (StartsFrom-sort ranges) (All-sort IsRange ranges h) in
    (loop.0, λ a. loop.1 a ∙ any-sort (λ x. covers x a) ranges)
