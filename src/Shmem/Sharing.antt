-- ===== src/Shmem/Sharing.antt =====
-- Shared memory is the supervisor's own.
use rustsbi.Base.{
  bit_and, ◌/◌, ℕ, zero, suc, ◌+◌, ◌*◌, ◌%◌, ◌^◌, ◌≤◌, ◌<◌, ◌≡◌, refl, sym, ap, subst, ◌≢◌, ◌⊎◌,
  inl, inr, true, false, ◌&&◌, Option, none, some, List, arith, ltb, leb, ◌==◌, if◌then◌else◌,
  Bool-cases, Option-cases, set,
}
use rustsbi.Base.Words.{bit_and-low_ones}
use rustsbi.Base.Usize.{usize_max}
use rustsbi.Spec.Ret.{SbiRet, success}
use rustsbi.Memory.{
  RtError, RtResult, good, bad, PhysAddrRange, from_start_len, check_range, check_access,
}
use rustsbi.Memory.Ranges.{any_covers}
use rustsbi.Memory.Registry.{check_access-covered}
use rustsbi.Memory.Access as Access
use rustsbi.Memory.Access.{
  Ram, poke, store_bytes, load_bytes, write-cases, store_bytes-outside, load_bytes-store_bytes,
}
use rustsbi.Shmem.{
  SharedPtr, is_all_ones, is_placed, area_ok, is_clear, in_regions, mpxy_size, mpxy_set_shmem,
  Triggers, probe_one, probe_rounds, probe_triggers, DbtrState, cached_count, with_count,
  dbtr_set_shmem, zero_bytes, sta_written, sta_set_shmem,
}

-- An area is within the regions of the supervisor.
abbrev pub IsInside : List PhysAddrRange → ℕ → ℕ → Type 0
IsInside regions start size = (i : ℕ) → i < size → any_covers regions (start + i) ≡ true

is_clear-none : (o : Option RtError) → is_clear o ≡ true → o ≡ none
is_clear-none none h = refl
is_clear-none (some e) h = absurd cc

in_regions-check :
    (regions : List PhysAddrRange) (start size : ℕ) (r : RtResult PhysAddrRange)
    → from_start_len start size ≡ r
    → size ≢ 0
    → in_regions regions r ≡ true
    → check_access regions start size ≡ none
unfolding check_access
in_regions-check regions start size (bad e) f pos h = absurd cc
in_regions-check regions start size (good range) f pos h =
    let positive : (size == 0) ≡ false = ground arith in
    rw (check_access, positive, f) (is_clear-none (check_range regions range) h)

area_ok-IsInside :
    (regions : List PhysAddrRange) (start size : ℕ)
    → size ≢ 0
    → area_ok regions start size ≡ true
    → IsInside regions start size
unfolding area_ok
area_ok-IsInside regions start size pos h i below =
    check_access-covered regions start size i
      (in_regions-check regions start size (from_start_len start size) refl pos h) below

-- The address that is kept for messages is 0 or that of an area of the supervisor.
abbrev pub IsMpxy : List PhysAddrRange → ℕ → Type 0
IsMpxy regions kept = (kept ≡ 0) ⊎ ((kept % mpxy_size ≡ 0) × IsInside regions kept mpxy_size)

-- Whatever address and flags are passed, the address that is kept for messages stays 0 or that of
-- an aligned page in the supervisor's memory; and when a call does not succeed the address kept
-- before stays.
pub mpxy_set_shmem-IsMpxy :
    (regions : List PhysAddrRange) (kept : ℕ) (p : SharedPtr) (flags : ℕ)
    → IsMpxy regions kept
    → IsMpxy regions (mpxy_set_shmem regions kept p flags).0
      × (((mpxy_set_shmem regions kept p flags).1 ≡ success 0)
          ⊎ ((mpxy_set_shmem regions kept p flags).0 ≡ kept))
unfolding mpxy_set_shmem
mpxy_set_shmem-IsMpxy regions kept p flags h = elim (Bool-cases (flags == 0)) [
  | inr set ↦ rw set (h, inr refl)
  | inl none_set ↦ elim (Bool-cases (is_all_ones p)) [
    | inl back ↦ rw (none_set, back) (inl refl, inl refl)
    | inr area ↦ elim (Bool-cases (is_placed mpxy_size p)) [
      | inr off ↦ rw (none_set, area, off) (h, inr refl)
      | inl placed ↦ elim (Bool-cases (area_ok regions p.phys_addr_lo mpxy_size)) [
        | inr outside ↦ rw (none_set, area, placed, outside) (h, inr refl)
        | inl inside ↦
            rw (none_set, area, placed, inside)
              (
                inr (
                  ground arith,
                  area_ok-IsInside regions p.phys_addr_lo mpxy_size (omega arith) inside,
                ),
                inl refl,
              )
      ]
    ]
  ]
]

-- The debug trigger `index` can be selected: `tselect` takes it, reads back as it, and `tdata1` can
-- be read then, as `tdata1`.
abbrev pub Selects : Triggers → ℕ → ℕ → Type 0
Selects t index tdata1 =
    (t.write_tselect index ≡ true)
    × (t.read_tselect index ≡ some index)
    × (t.read_tdata1 index ≡ some tdata1)

-- From `index` on, `count` triggers with a type that is not 0 are found among those that can be
-- selected one after the other, up to the first that cannot, or to the bound of 256.
pub data Probed (t : Triggers) : ℕ → ℕ → Type 0 where
  at_bound : Probed t 256 0
  at_end : (index : ℕ) → ((tdata1 : ℕ) → ¬ Selects t index tdata1) → Probed t index 0
  empty :
      (index tdata1 count : ℕ)
      → Selects t index tdata1
      → tdata1 / 2 ^ 60 % 16 ≡ 0
      → Probed t (index + 1) count
      → Probed t index count
  there :
      (index tdata1 count : ℕ)
      → Selects t index tdata1
      → tdata1 / 2 ^ 60 % 16 ≢ 0
      → Probed t (index + 1) count
      → Probed t index (count + 1)

-- What one probe tells.
probe_one_lem :
    (t : Triggers) (index : ℕ)
    → ((probe_one t index ≡ none) × ((tdata1 : ℕ) → ¬ Selects t index tdata1))
      ⊎ ((tdata1 : ℕ) × Selects t index tdata1
          × (((probe_one t index ≡ some false) × (tdata1 / 2 ^ 60 % 16 ≡ 0))
              ⊎ ((probe_one t index ≡ some true) × (tdata1 / 2 ^ 60 % 16 ≢ 0))))
unfolding probe_one
probe_one_lem t index = elim (Bool-cases (t.write_tselect index)) [
  | inr refused ↦ inl (rw refused refl, λ v s. absurd cc)
  | inl taken ↦ elim (Option-cases (t.read_tselect index)) [
    | inl fault ↦ inl (rw (taken, fault) refl, λ v s. absurd cc)
    | inr (found, e) ↦ elim (Bool-cases (found == index)) [
      | inr other ↦ inl (rw (taken, e, other) refl, λ v s. absurd (ground arith))
      | inl same ↦ elim (Option-cases (t.read_tdata1 index)) [
        | inl fault ↦ inl (rw (taken, e, same, fault) refl, λ v s. absurd cc)
        | inr (tdata1, d) ↦
            let low = bit_and-low_ones 4 (tdata1 / 2 ^ 60) in
            let selects : Selects t index tdata1 = (taken, ground arith, d) in
            inr (
              tdata1,
              selects,
              elim (Bool-cases (bit_and (tdata1 / 2 ^ 60) 0xf == 0)) [
                | inl zero_type ↦ inl (rw (taken, e, same, d, zero_type) refl, ground arith)
                | inr typed ↦ inr (rw (taken, e, same, d, typed) refl, ground arith)
              ],
            )
      ]
    ]
  ]
]

probe_rounds-Probed :
    (t : Triggers) (rounds index count : ℕ)
    → index + rounds ≡ 256
    → (found : ℕ) × Probed t index found
      × (found ≤ rounds)
      × (probe_rounds t rounds index count ≡ count + found)
unfolding probe_rounds
probe_rounds-Probed t zero index count e =
    (0, subst (λ (i : ℕ). Probed t i 0) (omega arith) at_bound, omega arith, omega arith)
probe_rounds-Probed t (suc rounds) index count e = elim (probe_one_lem t index) [
  | inl (over, last) ↦ (0, at_end index last, omega arith, rw (probe_rounds, over) (omega arith))
  | inr (tdata1, selects, inl (probe, type)) ↦
      let (found, rest, le, value) = probe_rounds-Probed t rounds (index + 1) count (omega arith) in
      (
        found,
        empty index tdata1 found selects type rest,
        omega arith,
        rw (probe_rounds, probe) value,
      )
  | inr (tdata1, selects, inr (probe, type)) ↦
      let (found, rest, le, value) =
        probe_rounds-Probed t rounds (index + 1) (count + 1) (omega arith) in
      (
        found + 1,
        there index tdata1 found selects type rest,
        omega arith,
        rw (probe_rounds, probe) (omega (arith, value)),
      )
]

-- A number of triggers that a probe from the first one on finds.
abbrev pub IsProbed : Triggers → ℕ → Type 0
IsProbed t count = Probed t 0 count × (count ≤ 256)

probe_triggers-IsProbed : (t : Triggers) → IsProbed t (probe_triggers t)
unfolding probe_triggers
probe_triggers-IsProbed t =
    let (found, probed, le, e) = probe_rounds-Probed t 256 0 0 refl in
    let same : probe_rounds t 256 0 0 ≡ found = omega (arith, e) in
    subst (IsProbed t) (sym same) (probed, le)

-- The trigger state: the cached count is none yet or was probed, and a shared address is that of
-- an aligned area in the supervisor's memory with four words for each trigger of the probed count.
abbrev pub IsDbtr : List PhysAddrRange → Triggers → DbtrState → Type 0
IsDbtr regions t s =
    ((s.cached_trigger_count ≡ usize_max) ⊎ IsProbed t s.cached_trigger_count)
    × ((s.shmem_address ≡ 0)
        ⊎ (IsProbed t s.cached_trigger_count
            × (s.shmem_address % 8 ≡ 0)
            × IsInside regions s.shmem_address (s.cached_trigger_count * 32)))

cached_count-IsProbed :
    (t : Triggers) (s : DbtrState)
    → (s.cached_trigger_count ≡ usize_max) ⊎ IsProbed t s.cached_trigger_count
    → IsProbed t (cached_count t s)
unfolding cached_count
cached_count-IsProbed t s h = elim (Bool-cases (s.cached_trigger_count == usize_max)) [
  | inl fresh ↦ rw (fresh) (probe_triggers-IsProbed t)
  | inr cached ↦ elim h [ inl max_count ↦ absurd (ground arith) | inr probed ↦ rw (cached) probed ]
]

cached_count_same :
    (t : Triggers) (s : DbtrState)
    → s.cached_trigger_count ≤ 256
    → cached_count t s ≡ s.cached_trigger_count
unfolding cached_count
cached_count_same t s h = ground arith

with_count-IsDbtr :
    (regions : List PhysAddrRange) (t : Triggers) (s : DbtrState)
    → IsDbtr regions t s
    → IsDbtr regions t (with_count t s)
with_count-IsDbtr regions t s (count, inl none_shared) =
    (inr (cached_count-IsProbed t s count), inl none_shared)
with_count-IsDbtr regions t s (count, inr (probed, aligned, inside)) =
    let same : cached_count t s ≡ s.cached_trigger_count = cached_count_same t s probed.1 in
    (
      inr (cached_count-IsProbed t s count),
      inr (
        cached_count-IsProbed t s count,
        aligned,
        subst (λ (k : ℕ). IsInside regions s.shmem_address (k * 32)) (sym same) inside,
      ),
    )

-- Whatever is passed to it, setting the shared memory of debug triggers keeps the trigger state
-- well formed: a number of triggers that is cached is one that probing them from the first on
-- finds, at most 256, and the shared address is 0 or that of an aligned area of the supervisor with
-- room for every trigger counted.
pub dbtr_set_shmem-IsDbtr :
    (regions : List PhysAddrRange) (t : Triggers) (s : DbtrState) (p : SharedPtr) (flags : ℕ)
    → IsDbtr regions t s
    → IsDbtr regions t (dbtr_set_shmem regions t s p flags).0
unfolding dbtr_set_shmem
dbtr_set_shmem-IsDbtr regions t s p flags h = elim (Bool-cases (flags == 0)) [
  | inr set ↦ rw (dbtr_set_shmem, set) h
  | inl clear ↦ elim (Bool-cases (is_all_ones p)) [
    | inl back ↦ rw (dbtr_set_shmem, clear, back) (h.0, inl refl)
    | inr area ↦ elim (Bool-cases (cached_count t s == 0)) [
      | inl absent ↦ rw (dbtr_set_shmem, clear, area, absent) kept
      | inr present ↦ elim (Bool-cases (is_placed 8 p)) [
        | inr off ↦ rw (dbtr_set_shmem, clear, area, present, off) kept
        | inl placed ↦ elim (Bool-cases (ltb (cached_count t s * 32) (2 ^ 64))) [
          | inr huge ↦ rw (dbtr_set_shmem, clear, area, present, placed, huge) kept
          | inl fits ↦ elim (Bool-cases (area_ok regions p.phys_addr_lo (cached_count t s * 32))) [
            | inr outside ↦ rw (dbtr_set_shmem, clear, area, present, placed, fits, outside) kept
            | inl inside ↦
                rw (dbtr_set_shmem, clear, area, present, placed, fits, inside)
                  (
                    kept.0,
                    inr (
                      cached_count-IsProbed t s h.0,
                      ground arith,
                      area_ok-IsInside regions p.phys_addr_lo (cached_count t s * 32) (ground arith)
                          inside,
                    ),
                  )
          ]
        ]
      ]
    ]
  ]
]
  where
    kept : IsDbtr regions t (with_count t s)
    kept = with_count-IsDbtr regions t s h

-- What the call for steal time does when it writes.
abbrev pub Clears : List PhysAddrRange → Ram → SharedPtr → Ram × SbiRet → Type 0
Clears regions mem p r =
    (r.1 ≡ success 0)
    × IsInside regions p.phys_addr_lo 64
    × ((a : ℕ) → r.0 a ≡ (if leb p.phys_addr_lo a && ltb a (p.phys_addr_lo + 64) then 0 else mem a))

cleared :
    (n : ℕ) (mem : Ram) (start a : ℕ)
    → store_bytes mem start (zero_bytes n) a
      ≡ (if leb start a && ltb a (start + n) then 0 else mem a)
unfolding store_bytes
cleared zero mem start a = ground arith
cleared (suc n) mem start a = ground (arith, cleared n (poke mem start 0) (start + 1) a)

sta_written-cases :
    (regions : List PhysAddrRange) (mem : Ram) (p : SharedPtr)
    → let r : Ram × SbiRet =
        sta_written mem (Access.write regions mem p.phys_addr_lo (zero_bytes 64)) in
      (r.0 ≡ mem) ⊎ Clears regions mem p r
sta_written-cases regions mem p = elim (write-cases regions mem p.phys_addr_lo (zero_bytes 64)) [
  | inr (e, f) ↦ inl (ap (λ (r : RtResult Ram). (sta_written mem r).0) f)
  | inl (ok, e) ↦ inr (
      rw e (
        refl,
        λ i h. check_access-covered regions p.phys_addr_lo 64 i ok h,
        λ a. cleared 64 mem p.phys_addr_lo a,
      ))
]

-- Setting the memory for steal time either leaves all memory as it was, or it succeeds and clears
-- the 64 bytes at the address passed, all of them the supervisor's, and changes no other byte.
pub sta_set_shmem-cases :
    (regions : List PhysAddrRange) (mem : Ram) (p : SharedPtr) (flags : ℕ)
    → ((sta_set_shmem regions mem p flags).0 ≡ mem)
      ⊎ Clears regions mem p (sta_set_shmem regions mem p flags)
unfolding sta_set_shmem
sta_set_shmem-cases regions mem p flags = elim (Bool-cases (flags == 0)) [
  | inr set ↦ rw (set) (inl refl)
  | inl clear ↦ elim (Bool-cases (is_all_ones p)) [
    | inl back ↦ rw (clear, back) (inl refl)
    | inr area ↦ elim (Bool-cases (is_placed 64 p)) [
      | inr off ↦ rw (clear, area, off) (inl refl)
      | inl placed ↦ rw (clear, area, placed) (sta_written-cases regions mem p)
    ]
  ]
]
