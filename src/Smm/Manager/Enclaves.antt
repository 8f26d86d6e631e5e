-- ===== src/Smm/Manager/Enclaves.antt =====
-- Enclave memory: what a runtime enclave gets, and what is cleared when memory comes back.
use rustsbi.Base.{
  ◌^◌, ℕ, ◌+◌, ◌≤◌, ◌<◌, ◌≡◌, refl, ◌≢◌, ◌⊎◌, inl, inr, true, false, not, ◌||◌, Option, none, some,
  List, [], ◌∷◌, arith, ltb, leb, ◌==◌, Bool-cases, Option-cases,
}
use rustsbi.Smm.Allocators.{SecMemAllocator, rt_allocator, rt_new, rt_init, rt_alloc, rt_free}
use rustsbi.Smm.Region.{is_mem_contained, general, runtime, runtime_type}
use rustsbi.Smm.Manager.{
  Manager, Region, Memory, write_zeros, free_search, free_em, alloc_loop, next_power_of_two,
  layout_ok, free_region, retype, alloc_em,
}

module _ (ar aa : SecMemAllocator) where
  -- Either nothing was found and the memory is as before, or the range was cleared.
  abbrev Cleared : ℕ → ℕ → Memory → Option (List (Region ar aa) × Memory × Option ℕ) → Type 0
  Cleared addr len mem none = Unit
  Cleared addr len mem (some (rs, mem', out)) =
      ((out ≡ none) × (mem' ≡ mem)) ⊎ (mem' ≡ write_zeros addr len mem)

  free_search-Cleared :
      (addr len size : ℕ) (rs : List (Region ar aa)) (mem : Memory)
      → Cleared addr len mem (free_search ar aa addr len size rs mem)
  unfolding free_search
  free_search-Cleared addr len size [] mem = inl (refl, refl)
  free_search-Cleared addr len size (r ∷ rs) mem =
      let rest = free_search-Cleared addr len size rs mem in
      elim (Bool-cases (is_mem_contained r addr len)) [
        | inl here ↦ elim (Option-cases (free_region ar aa r addr size r.allocator)) [
          | inl e ↦ rw (here, e, free_search) tt
          | inr (p, e) ↦ rw (here, e, free_search) (inr refl)
        ]
        | inr beyond ↦ elim (Option-cases (free_search ar aa addr len size rs mem)) [
          | inl e ↦ rw (beyond, e, free_search) tt
          | inr (p, e) ↦ let rest' = rw e at rest in rw (beyond, e, free_search) rest'
        ]
      ]

  returned :
      (m : Manager ar aa) (addr len id : ℕ) (mem : Memory)
      (o : Option (List (Region ar aa) × Memory × Option ℕ)) {m' : Manager ar aa} {mem' : Memory}
      → Cleared addr len mem o
      → (elim o as (λ x. Option (Manager ar aa × Memory × Option ℕ)) [
        | none ↦ none
        | some (rs, mem₁, out) ↦ some (record m { alloc_regions = rs }, mem₁, out)
      ])
        ≡ some (m', mem', some id)
      → mem' ≡ write_zeros addr len mem
  returned m addr len id mem none c e = cc
  returned m addr len id mem (some (rs, mem₁, out)) (inl h) e = cc
  returned m addr len id mem (some (rs, mem₁, out)) (inr h) e = cc

  -- When memory is given back to a region, every byte of it is cleared and no other byte changes.
  pub free_em-clears :
      (m : Manager ar aa) (addr len id : ℕ) (mem : Memory) {m' : Manager ar aa} {mem' : Memory}
      → free_em ar aa m addr len mem ≡ some (m', mem', some id)
      → (a : ℕ)
      → (addr ≤ a → a < addr + len → mem' a ≡ 0) × ((a < addr) ⊎ (addr + len ≤ a) → mem' a ≡ mem a)
  unfolding free_em write_zeros
  free_em-clears m addr len id mem {m'} {mem'} e a =
      elim (Bool-cases (not (layout_ok (next_power_of_two len)) || addr == 0)) [
        | inl refused ↦ let e' = rw refused at e in absurd (cc e')
        | inr accepted ↦
            let e' = rw accepted at e in
            let cleared =
              returned m addr len id mem _
                (free_search-Cleared addr len (next_power_of_two len) m.alloc_regions mem) e' in
            rw cleared (ground arith)
      ]

-- A region of the manager whose runtime allocator is `RTAlloc`.
module _ (aa : SecMemAllocator) where
  -- The region that a runtime enclave takes whole.
  abbrev pub taken : Region rt_allocator aa → Region rt_allocator aa
  taken r = record r {
    is_used = true;
    allocator = runtime (record { addr = r.addr; len = 0; total = r.len });
  }

  taken_lem :
      (r : Region rt_allocator aa) (rs : List (Region rt_allocator aa)) (len : ℕ)
      → r.allocator ≡ general
      → r.addr ≢ 0
      → len ≤ r.len
      → next_power_of_two len ≤ r.len
      → layout_ok r.len ≡ true
      → alloc_loop rt_allocator aa len (next_power_of_two len) runtime_type (r ∷ rs)
        ≡ (taken r ∷ rs, some (r.addr, r.len, r.id))
  unfolding alloc_loop rt_new rt_init rt_alloc
  taken_lem r rs len g ne h k l =
      let long : ltb r.len len ≡ false = ground arith in
      let enough : leb (next_power_of_two len) r.len ≡ true = ground arith in
      let all : ltb r.len r.len ≡ false = ground arith in
      let placed : (r.addr == 0) ≡ false = ground arith in
      rw (long, g, enough, l, all, placed, alloc_loop) (rw (g, retype, all))

  whole_region :
      (r : Region rt_allocator aa)
      → r.addr + r.len < 2 ^ 64
      → is_mem_contained (taken r) r.addr r.len ≡ true
  unfolding is_mem_contained
  whole_region r fits = ground arith

  given_back :
      (r : Region rt_allocator aa)
      → free_region rt_allocator aa (taken r) r.addr r.len (taken r).allocator
        ≡ some (record r { is_used = false; allocator = general }, some r.id)
  unfolding free_region rt_free
  given_back r =
      let same : (r.addr == r.addr) ≡ true = ground arith in
      let whole : (r.len == r.len) ≡ true = ground arith in rw (same, whole, free_region)

  -- A runtime enclave asks a manager whose first region is general, is not at address 0, ends below
  -- 2 ^ 64 and has a power of two below 2 ^ 63 for a length, for at most that length. It gets the
  -- whole region: the call returns its address, its length and its id, and leaves the region used
  -- with nothing left and all else as it was. When the memory is given back, every byte of it is
  -- cleared and no other one is changed, the id is returned, and the manager is as before with that
  -- region general and unused.
  pub runtime_enclave_roundtrip :
      (m : Manager rt_allocator aa) (r : Region rt_allocator aa)
      (rs : List (Region rt_allocator aa)) (len : ℕ) (mem : Memory)
      → m.alloc_regions ≡ r ∷ rs
      → r.allocator ≡ general
      → r.addr ≢ 0
      → r.addr + r.len < 2 ^ 64
      → len ≤ r.len
      → next_power_of_two len ≤ r.len
      → layout_ok r.len ≡ true
      → next_power_of_two r.len ≡ r.len
      → let m' : Manager rt_allocator aa = record m { alloc_regions = taken r ∷ rs } in
        (alloc_em rt_allocator aa m len runtime_type ≡ (m', some (r.addr, r.len, r.id)))
        × ((out : Memory) × (free_em rt_allocator aa m' r.addr r.len mem
              ≡ some (
                record m { alloc_regions = record r { is_used = false; allocator = general } ∷ rs },
                out,
                some r.id,
              ))
            × ((a : ℕ) → r.addr ≤ a → a < r.addr + r.len → out a ≡ 0)
            × ((a : ℕ) → (a < r.addr) ⊎ (r.addr + r.len ≤ a) → out a ≡ mem a))
  unfolding alloc_em free_em free_search write_zeros
  runtime_enclave_roundtrip m r rs len mem first g ne fits h k l power =
      let placed : (r.addr == 0) ≡ false = ground arith in
      (
        rw (first, alloc_em, taken_lem r rs len g ne h k l) refl,
        (
          write_zeros r.addr r.len mem,
          rw (power, l, placed, free_em, free_search, whole_region r fits, power, given_back r)
              refl,
          λ a low high. ground arith,
          λ a out. ground arith,
        ),
      )
