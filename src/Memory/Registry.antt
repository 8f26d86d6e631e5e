-- ===== src/Memory/Registry.antt =====
-- What the registry promises: the memory that it gives to the supervisor, and the device windows.
use rustsbi.Base.{
  ℕ, ◌+◌, ◌<◌, ◌≡◌, refl, sym, ◌⊎◌, inl, inr, Bool, true, false, not, ◌&&◌, ◌||◌, none, List, [],
  ◌∷◌, ◌++◌, arith, ◌==◌, if◌then◌else◌, Bool-cases, All, All-append,
}
use rustsbi.Smm.Vector.{any, Pairwise, Pairwise-append_one, All-of_not_any}
use rustsbi.Memory.{
  PhysAddrRange, MemoryRegistry, RtError, RtResult, good, bad, overlaps, contains, excluding,
  flat_excluding, derive_supervisor_memory, acquire_mmio, check_range, check_access, from_start_len,
  new_range, invalid_args, not_enough_resources,
}
use rustsbi.Memory.Ranges.{covers, any_covers, any-append}
use rustsbi.Memory.Excluding.{excluding_lem}

flat_excluding_lem :
    (rs excluded : List PhysAddrRange) (a : ℕ)
    → any_covers (flat_excluding rs excluded) a ≡ any_covers rs a && not (any_covers excluded a)
unfolding flat_excluding any
flat_excluding_lem [] excluded a = refl
flat_excluding_lem (r ∷ rs) excluded a =
    let rest = flat_excluding_lem rs excluded a in
    let here = excluding_lem r excluded a in
    let both = any-append (λ x. covers x a) (excluding r excluded) (flat_excluding rs excluded) in
    rw (both, here, rest) (ground arith)

pub RtResult-cases {ℓ} :
    {A : Type ℓ} (r : RtResult A) → ((e : RtError) × (r ≡ bad e)) ⊎ ((x : A) × (r ≡ good x))
RtResult-cases (bad e) = inl (e, refl)
RtResult-cases (good x) = inr (x, refl)

good_inj : {xs ys : List PhysAddrRange} → good xs ≡ good ys → xs ≡ ys
good_inj e = cc

kept :
    (b : Bool) (xs regions : List PhysAddrRange)
    → (if b
        then bad invalid_args
        else elim xs [ [] ↦ bad not_enough_resources | y ∷ ys ↦ good (y ∷ ys) ])
      ≡ good regions
    → regions ≡ xs
kept true xs regions e = absurd cc
kept false [] regions e = absurd cc
kept false (x ∷ xs) regions e = sym (good_inj e)

derived_regions :
    (m : MemoryRegistry) (regions : List PhysAddrRange)
    → derive_supervisor_memory m ≡ good regions
    → regions ≡ flat_excluding m.ram_ranges (m.reserved_ranges ++ m.firmware_image_range ∷ [])
unfolding derive_supervisor_memory
derived_regions m regions e =
    kept (not (any (λ r. contains r m.firmware_image_range) m.ram_ranges))
      (flat_excluding m.ram_ranges (m.reserved_ranges ++ m.firmware_image_range ∷ [])) regions e

-- The memory that is derived for the supervisor covers exactly the addresses of RAM that are
-- neither reserved nor the firmware's.
pub derive_supervisor_memory_lem :
    (m : MemoryRegistry) (regions : List PhysAddrRange) (a : ℕ)
    → derive_supervisor_memory m ≡ good regions
    → any_covers regions a
      ≡ any_covers m.ram_ranges a
        && not (any_covers m.reserved_ranges a || covers m.firmware_image_range a)
unfolding any
derive_supervisor_memory_lem m regions a e =
    let excluded = m.reserved_ranges ++ m.firmware_image_range ∷ [] in
    let all = flat_excluding_lem m.ram_ranges excluded a in
    let two = any-append (λ x. covers x a) m.reserved_ranges (m.firmware_image_range ∷ []) in
    rw (derived_regions m regions e, all, two) (ground arith)

covered_of_contained :
    (regions : List PhysAddrRange) (r : PhysAddrRange) (a : ℕ)
    → any (λ x. contains x r) regions ≡ true
    → covers r a ≡ true
    → any_covers regions a ≡ true
unfolding any contains
covered_of_contained [] r a h k = absurd (ground arith)
covered_of_contained (x ∷ xs) r a h k = ground (arith, covered_of_contained xs r a)

range_of_length :
    (start len : ℕ) (r : PhysAddrRange)
    → from_start_len start len ≡ good r
    → (r.start ≡ start) × (r.bound ≡ start + len)
unfolding from_start_len new_range
range_of_length start len r e = ground arith

allowed_range :
    (regions : List PhysAddrRange) (start len : ℕ)
    → check_access regions start len ≡ none
    → 0 < len
    → (r : PhysAddrRange) × (from_start_len start len ≡ good r)
      × (any (λ x. contains x r) regions ≡ true)
unfolding check_access check_range
allowed_range regions start len ok pos =
    let positive : len == 0 ≡ false = ground arith in
    elim (RtResult-cases (from_start_len start len)) [
      | inl (e, f) ↦ absurd (ground (arith, (rw (check_access, positive, f) at ok)))
      | inr (r, f) ↦ let ok' = rw (check_access, positive, f) at ok in (r, f, ground (arith, ok'))
    ]

-- Every byte of an access that is allowed lies in a region.
pub check_access-covered :
    (regions : List PhysAddrRange) (start len i : ℕ)
    → check_access regions start len ≡ none
    → i < len
    → any_covers regions (start + i) ≡ true
unfolding check_access check_range
check_access-covered regions start len i ok h =
    let whole = allowed_range regions start len ok (omega (arith, h)) in
    let bounds = range_of_length start len whole.0 whole.1 in
    covered_of_contained regions whole.0 (start + i) whole.2 (ground (arith, bounds.0, bounds.1, h))

-- Every byte of an access that `check_access` allows to the supervisor's memory lies in RAM, and
-- neither in reserved memory nor in the firmware.
pub check_access-confines :
    (m : MemoryRegistry) (regions : List PhysAddrRange) (start len i : ℕ)
    → derive_supervisor_memory m ≡ good regions
    → check_access regions start len ≡ none
    → i < len
    → (any_covers m.ram_ranges (start + i) ≡ true)
      × (any_covers m.reserved_ranges (start + i) ≡ false)
      × (covers m.firmware_image_range (start + i) ≡ false)
unfolding check_access check_range
check_access-confines m regions start len i e ok h =
    let inside = check_access-covered regions start len i ok h in
    let exact = derive_supervisor_memory_lem m regions (start + i) e in
    (ground arith, ground arith, ground arith)

-- No two issued windows overlap, and none overlaps RAM or reserved memory.
pub record IsExclusive (m : MemoryRegistry) : Type 0 where
  pub apart : Pairwise (λ u v. overlaps u v ≡ false) m.acquired_mmio
  pub outside :
      All (λ w. All (λ u. overlaps u w ≡ false) (m.ram_ranges ++ m.reserved_ranges)) m.acquired_mmio

-- `acquire_mmio` keeps the issued windows apart from each other and from all memory, whether it
-- issues the window or refuses.
pub acquire_mmio-IsExclusive :
    (m : MemoryRegistry) (range : PhysAddrRange)
    → IsExclusive m
    → IsExclusive (acquire_mmio m range).0
unfolding acquire_mmio
acquire_mmio-IsExclusive m range h =
    elim (Bool-cases (
      any (λ u. overlaps u range) (m.ram_ranges ++ m.reserved_ranges)
      || any (λ u. overlaps u range) m.acquired_mmio)) [
        | inl taken ↦ rw (acquire_mmio, taken) h
        | inr free ↦
            let memory =
              All-of_not_any (λ u. overlaps u range) (m.ram_ranges ++ m.reserved_ranges)
                (ground arith) in
            let windows = All-of_not_any (λ u. overlaps u range) m.acquired_mmio (ground arith) in
            rw (acquire_mmio, free)
              (record {
                apart =
                    Pairwise-append_one (λ u v. overlaps u v ≡ false) m.acquired_mmio range h.apart
                      windows;
                outside =
                    All-append
                      (λ w. All (λ u. overlaps u w ≡ false) (m.ram_ranges ++ m.reserved_ranges))
                      m.acquired_mmio (range ∷ []) h.outside (memory, tt);
              })
      ]
