-- ===== src/Memory/Ram.antt =====
-- `normalize_ram_ranges`, and `from_ranges_with_firmware` from end to end.
use rustsbi.Base.{
  ℕ, suc, ◌≤◌, ◌≡◌, refl, sym, ◌∙◌, inl, inr, not, ◌&&◌, ◌||◌, List, [], ◌∷◌, arith, Bool-cases,
  All,
}
use rustsbi.Smm.Vector.{any}
use rustsbi.Memory.{
  PhysAddrRange, MemoryRegistry, RtResult, good, bad, overlaps, adjacent, join, join_ram, ram_loop,
  normalize_ram_ranges, normalize_reserved_ranges, validate_memory_ranges, derive_supervisor_memory,
  from_ranges, sort_by_start, invalid_args,
}
use rustsbi.Memory.Ranges.{
  covers, any_covers, IsRange, StartsFrom, StartsFrom-sort, any-sort, All-sort, covers-join,
}
use rustsbi.Memory.Merging.{
  IsSeparated, join-IsRange, start-join, StartsFrom-lower, normalize_reserved_ranges_lem,
}
use rustsbi.Memory.Registry.{RtResult-cases, derive_supervisor_memory_lem}

-- What a list of RAM ranges that was made from `previous` and `rs` satisfies.
abbrev Merges : ℕ → PhysAddrRange → List PhysAddrRange → List PhysAddrRange → Type 0
Merges b previous rs xs =
    IsSeparated b xs × ((a : ℕ) → any_covers xs a ≡ covers previous a || any_covers rs a)

pushed_good :
    (previous : PhysAddrRange) (r : RtResult (List PhysAddrRange)) (xs : List PhysAddrRange)
    → elim r [ good ys ↦ good (previous ∷ ys) | bad e ↦ bad e ] ≡ good xs
    → (ys : List PhysAddrRange) × (r ≡ good ys) × (xs ≡ previous ∷ ys)
pushed_good previous (good ys) xs e = (ys, refl, cc)
pushed_good previous (bad x) xs e = absurd cc

join_ram-Merges :
    (b : ℕ) (previous : PhysAddrRange) (rs xs : List PhysAddrRange)
    → b ≤ previous.start
    → IsRange previous
    → StartsFrom previous.start rs
    → All IsRange rs
    → join_ram previous rs ≡ good xs
    → Merges b previous rs xs
unfolding join_ram overlaps adjacent any
join_ram-Merges b previous [] xs le h s k e =
    let same : xs ≡ previous ∷ [] = cc in rw (same) ((le, h, tt), λ a. refl)
join_ram-Merges b previous (r ∷ rs) xs le h s k e = elim (Bool-cases (overlaps previous r)) [
  | inl clash ↦ let e' : bad invalid_args ≡ good xs = rw (clash) at e in absurd cc
  | inr clear ↦ elim (Bool-cases (adjacent previous r)) [
    | inl touching ↦
        let first = sym (start-join previous r s.0) in
        let s' =
          StartsFrom-lower (join previous r).start r.start rs (omega (arith, first, s.0)) s.1 in
        let e' : join_ram (join previous r) rs ≡ good xs = rw (clear, touching) at e in
        let rest =
          join_ram-Merges b (join previous r) rs xs (omega (arith, first, le))
            (join-IsRange previous r h s.0) s' k.1 e' in
        (
          rest.0,
          λ a.
              let united = covers-join previous r a h k.0 (ground arith) in
              ground (arith, rest.1 a, united),
        )
    | inr apart ↦
        let e' = rw (clear, apart) at e in
        let (ys, made, shape) = pushed_good previous (join_ram r rs) xs e' in
        let rest =
          join_ram-Merges (suc previous.bound) r rs ys (ground (arith, k.0, s.0)) k.0 s.1 k.1
            made in
        rw (shape) ((le, h, rest.0), λ a. ground (arith, rest.1 a))
  ]
]

ram_loop_lem :
    (rs xs : List PhysAddrRange)
    → StartsFrom 0 rs
    → All IsRange rs
    → ram_loop rs ≡ good xs
    → IsSeparated 0 xs × ((a : ℕ) → any_covers xs a ≡ any_covers rs a)
unfolding ram_loop any
ram_loop_lem [] xs s k e = let same : xs ≡ [] = cc in rw (same) (tt, λ a. refl)
ram_loop_lem (r ∷ rs) xs s k e = join_ram-Merges 0 r rs xs s.0 k.0 s.1 k.1 e

-- If `normalize_ram_ranges` accepts non-empty ranges, which may come in any order, it makes
-- ascending ranges with a gap between any two neighbours, which cover exactly the same addresses.
pub normalize_ram_ranges_lem :
    (ranges xs : List PhysAddrRange)
    → All IsRange ranges
    → normalize_ram_ranges ranges ≡ good xs
    → IsSeparated 0 xs × ((a : ℕ) → any_covers xs a ≡ any_covers ranges a)
unfolding normalize_ram_ranges
normalize_ram_ranges_lem ranges xs h e =
    let sorted = sort_by_start ranges in
    let loop = ram_loop_lem sorted xs (StartsFrom-sort ranges) (All-sort IsRange ranges h) e in
    (loop.0, λ a. loop.1 a ∙ any-sort (λ x. covers x a) ranges)

abbrev built : List PhysAddrRange → MemoryRegistry → RtResult (List PhysAddrRange × MemoryRegistry)
built regions registry = good (regions, registry)

built_inj :
    {xs ys : List PhysAddrRange} {m n : MemoryRegistry}
    → built xs m ≡ built ys n
    → (xs ≡ ys) × (m ≡ n)
built_inj e = (cc, cc)

-- What the checks of `from_ranges` have established when it succeeds.
from_ranges_inversion :
    (firmware : PhysAddrRange) (ram reserved regions : List PhysAddrRange)
    (registry : MemoryRegistry)
    → from_ranges firmware ram reserved ≡ built regions registry
    → (normalize_ram_ranges ram ≡ good registry.ram_ranges)
      × (registry.reserved_ranges ≡ normalize_reserved_ranges reserved)
      × (registry.firmware_image_range ≡ firmware)
      × (derive_supervisor_memory registry ≡ good regions)
unfolding from_ranges
from_ranges_inversion firmware ram reserved regions registry e =
    elim (RtResult-cases (normalize_ram_ranges ram)) [
      | inl (x, refused) ↦
          let e' : bad x ≡ built regions registry = rw (from_ranges, refused) at e in absurd cc
      | inr (ram', normal) ↦
          let reserved' = normalize_reserved_ranges reserved in
          let made : MemoryRegistry = record {
            firmware_image_range = firmware;
            ram_ranges = ram';
            reserved_ranges = reserved';
            acquired_mmio = [];
          } in
          elim (Bool-cases (validate_memory_ranges ram' reserved')) [
            | inr invalid ↦
                let e' : bad invalid_args ≡ built regions registry =
                  rw (from_ranges, normal, invalid) at e in
                absurd cc
            | inl valid ↦ elim (RtResult-cases (derive_supervisor_memory made)) [
              | inl (x, refused) ↦
                  let e' : bad x ≡ built regions registry =
                    rw (from_ranges, normal, valid, refused) at e in
                  absurd cc
              | inr (supervisor, derived) ↦
                  let e' : built supervisor made ≡ built regions registry =
                    rw (from_ranges, normal, valid, derived) at e in
                  let same = built_inj e' in
                  rw (sym same.0, sym same.1) (normal, refl, refl, derived)
            ]
          ]
    ]

-- When `from_ranges_with_firmware` accepts RAM and reserved ranges that are not empty, in any
-- order, the supervisor's memory covers exactly the addresses of the given RAM that lie in no
-- given reserved range and not in the firmware.
pub from_ranges_lem :
    (firmware : PhysAddrRange) (ram reserved regions : List PhysAddrRange)
    (registry : MemoryRegistry) (a : ℕ)
    → All IsRange ram
    → All IsRange reserved
    → from_ranges firmware ram reserved ≡ built regions registry
    → any_covers regions a ≡ any_covers ram a && not (any_covers reserved a || covers firmware a)
from_ranges_lem firmware ram reserved regions registry a hr hs e =
    let (normal, kept, fw, derived) =
      from_ranges_inversion firmware ram reserved regions registry e in
    let exact = derive_supervisor_memory_lem registry regions a derived in
    let ram_same = (normalize_ram_ranges_lem ram registry.ram_ranges hr normal).1 a in
    let reserved_same = (normalize_reserved_ranges_lem reserved hs).1 a in
    rw (exact, ram_same, kept, reserved_same, fw) refl
