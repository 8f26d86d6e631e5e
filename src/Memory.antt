-- ===== src/Memory.antt =====
-- firmware/runtime/src/memory/{address,region,registry,supervisor}.rs at 64-bit addresses: ranges of
-- physical addresses, the registry of RAM, reserved memory and issued device windows, and the
-- supervisor's memory that it derives. The firmware's own range, which the linker places, is an
-- argument.
pub mod Ranges
pub mod Excluding
pub mod Merging
pub mod Registry
pub mod Ram
pub mod Access
mod Examples
use rustsbi.Base.{
  ℕ, zero, suc, ◌+◌, ◌-◌, ◌*◌, ◌/◌, ◌%◌, ◌^◌, ◌≤◌, ◌<◌, min, max, bit_and, bit_or, ◌≡◌, refl, sym,
  ap, ◌∙◌, subst, ◌≢◌, ◌↔◌, ◌⊎◌, inl, inr, Bool, true, false, not, ◌&&◌, ◌||◌, Option, none, some,
  List, [], ◌∷◌, ◌++◌, map, arith, ltb, leb, ◌==◌, if◌then◌else◌, ltb→lt, leb→le, ==_iff,
  Bool-cases, Option-cases, length, get_elem?, set, All, length-append, length-map, All-append,
}
use rustsbi.Base.Usize.{checked_add}
use rustsbi.Smm.Vector.{any}

-- The crate's `Error` and `Result`.
pub data RtError : Type 0 where
  invalid_args access_denied not_enough_resources overflow : RtError

pub data RtResult {ℓ} (A : Type ℓ) : Type ℓ where
  good : A → RtResult A
  bad : RtError → RtResult A

-- `PhysAddrRange`; `bound` is the field `end`.
pub record PhysAddrRange : Type 0 where
  pub start : ℕ
  pub bound : ℕ

-- `PhysAddrRange::new`.
unfoldable pub new_range : ℕ → ℕ → RtResult PhysAddrRange
new_range a b = if leb b a then bad invalid_args else good (record { start = a; bound = b })

unfoldable pub from_start_len : ℕ → ℕ → RtResult PhysAddrRange
from_start_len a len =
    if len == 0
    then bad invalid_args
    else elim (checked_add a len) [ none ↦ bad overflow | some b ↦ new_range a b ]

unfoldable pub size : PhysAddrRange → ℕ
size r = r.bound - r.start

unfoldable pub contains : PhysAddrRange → PhysAddrRange → Bool
contains r x = leb r.start x.start && leb x.bound r.bound

unfoldable pub overlaps : PhysAddrRange → PhysAddrRange → Bool
overlaps r x = ltb r.start x.bound && ltb x.start r.bound

unfoldable pub adjacent : PhysAddrRange → PhysAddrRange → Bool
adjacent r x = r.bound == x.start || x.bound == r.start

unfoldable pub join : PhysAddrRange → PhysAddrRange → PhysAddrRange
join r x = record {
  start = if ltb r.start x.start then r.start else x.start;
  bound = if ltb x.bound r.bound then r.bound else x.bound;
}

unfoldable pub subrange : PhysAddrRange → ℕ → ℕ → RtResult PhysAddrRange
subrange r offset len = if len == 0 then bad invalid_args else elim (checked_add r.start offset) [
  | none ↦ bad overflow
  | some a ↦ elim (checked_add a len) [
    | none ↦ bad overflow
    | some b ↦ if ltb r.bound b then bad invalid_args else good (record { start = a; bound = b })
  ]
]

-- The part of an excluded range in a range, if it is not empty.
unfoldable pub clip : PhysAddrRange → PhysAddrRange → Option PhysAddrRange
clip r x =
    if ltb (max r.start x.start) (min r.bound x.bound)
    then some (record { start = max r.start x.start; bound = min r.bound x.bound })
    else none

unfoldable pub clip_all : PhysAddrRange → List PhysAddrRange → List PhysAddrRange
clip_all r [] = []
clip_all r (x ∷ xs) = elim (clip r x) [ none ↦ clip_all r xs | some y ↦ y ∷ clip_all r xs ]

-- `sort_unstable_by_key` by the start, in one of the orders that it may leave equal starts in.
unfoldable pub insert_by_start : PhysAddrRange → List PhysAddrRange → List PhysAddrRange
insert_by_start x [] = x ∷ []
insert_by_start x (y ∷ ys) =
    let rest = insert_by_start x ys in if leb x.start y.start then x ∷ y ∷ ys else y ∷ rest

unfoldable pub sort_by_start : List PhysAddrRange → List PhysAddrRange
sort_by_start [] = []
sort_by_start (x ∷ xs) = insert_by_start x (sort_by_start xs)

-- The loop of `excluding` and its last piece.
unfoldable pub gaps : ℕ → ℕ → List PhysAddrRange → List PhysAddrRange
gaps limit cursor [] =
    if ltb cursor limit then record { start = cursor; bound = limit } ∷ [] else []
gaps limit cursor (x ∷ xs) =
    let rest = gaps limit (max cursor x.bound) xs in
    if ltb cursor x.start then record { start = cursor; bound = x.start } ∷ rest else rest

unfoldable pub excluding : PhysAddrRange → List PhysAddrRange → List PhysAddrRange
excluding r excluded = gaps r.bound r.start (sort_by_start (clip_all r excluded))

-- registry.rs. The loops of `normalize_…` from the range pushed last, `previous`, on.
unfoldable pub join_ram : PhysAddrRange → List PhysAddrRange → RtResult (List PhysAddrRange)
join_ram previous [] = good (previous ∷ [])
join_ram previous (r ∷ rs) =
    let joined = join_ram (join previous r) rs in
    let pushed = join_ram r rs in
    if overlaps previous r
    then bad invalid_args
    else if adjacent previous r
    then joined
    else elim pushed [ good xs ↦ good (previous ∷ xs) | bad e ↦ bad e ]

ram_loop : List PhysAddrRange → RtResult (List PhysAddrRange)
ram_loop [] = good []
ram_loop (r ∷ rs) = join_ram r rs

unfoldable pub normalize_ram_ranges : List PhysAddrRange → RtResult (List PhysAddrRange)
unfolding ram_loop
normalize_ram_ranges ranges = ram_loop (sort_by_start ranges)

unfoldable pub join_reserved : PhysAddrRange → List PhysAddrRange → List PhysAddrRange
join_reserved previous [] = previous ∷ []
join_reserved previous (r ∷ rs) =
    let joined = join_reserved (join previous r) rs in
    let pushed = join_reserved r rs in
    if overlaps previous r || adjacent previous r then joined else previous ∷ pushed

reserved_loop : List PhysAddrRange → List PhysAddrRange
reserved_loop [] = []
reserved_loop (r ∷ rs) = join_reserved r rs

unfoldable pub normalize_reserved_ranges : List PhysAddrRange → List PhysAddrRange
unfolding reserved_loop
normalize_reserved_ranges ranges = reserved_loop (sort_by_start ranges)

-- `validate_memory_ranges`: whether it returns `Ok`.
unfoldable pub validate_memory_ranges : List PhysAddrRange → List PhysAddrRange → Bool
validate_memory_ranges ram reserved =
    not (any (λ x. any (λ r. overlaps r x && not (contains r x)) ram) reserved)

pub record MemoryRegistry : Type 0 where
  pub firmware_image_range : PhysAddrRange
  pub ram_ranges : List PhysAddrRange
  pub reserved_ranges : List PhysAddrRange
  pub acquired_mmio : List PhysAddrRange

-- `SupervisorMemory` is its list of regions.
flat_excluding : List PhysAddrRange → List PhysAddrRange → List PhysAddrRange
flat_excluding [] excluded = []
flat_excluding (r ∷ rs) excluded = excluding r excluded ++ flat_excluding rs excluded

unfoldable pub derive_supervisor_memory : MemoryRegistry → RtResult (List PhysAddrRange)
unfolding flat_excluding
derive_supervisor_memory m =
    let excluded = m.reserved_ranges ++ m.firmware_image_range ∷ [] in
    let accessible = flat_excluding m.ram_ranges excluded in
    if not (any (λ r. contains r m.firmware_image_range) m.ram_ranges)
    then bad invalid_args
    else elim accessible [ [] ↦ bad not_enough_resources | x ∷ xs ↦ good (x ∷ xs) ]

-- `from_ranges_with_firmware`.
unfoldable pub from_ranges :
    PhysAddrRange
    → List PhysAddrRange
    → List PhysAddrRange
    → RtResult (List PhysAddrRange × MemoryRegistry)
from_ranges firmware ram reserved = elim (normalize_ram_ranges ram) [
  | bad e ↦ bad e
  | good ram_ranges ↦
      let reserved_ranges = normalize_reserved_ranges reserved in
      let registry : MemoryRegistry = record {
        firmware_image_range = firmware;
        ram_ranges = ram_ranges;
        reserved_ranges = reserved_ranges;
        acquired_mmio = [];
      } in
      if not (validate_memory_ranges ram_ranges reserved_ranges)
      then bad invalid_args
      else elim (derive_supervisor_memory registry) [
        | bad e ↦ bad e
        | good supervisor ↦ good (supervisor, registry)
      ]
]

unfoldable pub firmware_is_reserved : MemoryRegistry → Bool
firmware_is_reserved m = any (λ r. contains r m.firmware_image_range) m.reserved_ranges

unfoldable pub acquire_mmio :
    MemoryRegistry → PhysAddrRange → MemoryRegistry × RtResult PhysAddrRange
acquire_mmio m range =
    if any (λ u. overlaps u range) (m.ram_ranges ++ m.reserved_ranges)
      || any (λ u. overlaps u range) m.acquired_mmio
    then (m, bad access_denied)
    else (record m { acquired_mmio = m.acquired_mmio ++ range ∷ [] }, good range)

-- supervisor.rs: `check_range` and `check_access`, `none` for `Ok`.
unfoldable pub check_range : List PhysAddrRange → PhysAddrRange → Option RtError
check_range regions range =
    if any (λ available. contains available range) regions then none else some invalid_args

unfoldable pub check_access : List PhysAddrRange → ℕ → ℕ → Option RtError
check_access regions start len =
    if len == 0
    then none
    else elim (from_start_len start len) [ bad e ↦ some e | good r ↦ check_range regions r ]
