-- ===== src/Smm/Manager/Examples.antt =====
-- Instances of the theorems about the secure memory manager, and tests.
use rustsbi.Base.{ℕ, ◌+◌, ◌<◌, ◌⊎◌, ◌≤◌, ◌≡◌, refl, true, some, [], ◌∷◌, arith}
use rustsbi.Base.Words.{leading_zeros, bit}
use rustsbi.Smm.Allocators.{rt_allocator, rt_free}
use rustsbi.Smm.Region.{new_region, runtime, runtime_type, is_mem_contained}
use rustsbi.Smm.Manager.{
  Manager, Region, Memory, new, extend, free_em, free_search, free_region, alloc_em,
  next_power_of_two, layout_ok, write_zeros,
}
use rustsbi.Smm.Manager.Keeps.{IsWellFormed, extend-IsWellFormed, new-IsWellFormed}
use rustsbi.Smm.Manager.Enclaves.{runtime_enclave_roundtrip}

abbrev TestManager : Type 0
TestManager = Manager rt_allocator rt_allocator

abbrev TestRegion : Type 0
TestRegion = Region rt_allocator rt_allocator

empty_manager : TestManager
empty_manager = new rt_allocator rt_allocator

extend-IsWellFormed_example :
    IsWellFormed rt_allocator rt_allocator
      (extend rt_allocator rt_allocator (new rt_allocator rt_allocator) 0x8000 0x1000).0
extend-IsWellFormed_example =
    extend-IsWellFormed rt_allocator rt_allocator (new rt_allocator rt_allocator) 0x8000 0x1000
      (new-IsWellFormed rt_allocator rt_allocator) (omega arith) (omega arith)

abbrev page : TestRegion
page = new_region 0x1000 0x1000 1 2

abbrev taken_page : TestRegion
taken_page = record page {
  is_used = true;
  allocator = runtime (record { addr = 0x1000; len = 0; total = 0x1000 });
}

abbrev busy_manager : TestManager
busy_manager = record (new rt_allocator rt_allocator) {
  cur_idx = 1;
  alloc_regions = taken_page ∷ [];
}

abbrev ones : Memory
ones a = 1

free_page :
    free_em rt_allocator rt_allocator busy_manager 0x1000 0x1000 ones
    ≡ some
        (record busy_manager { alloc_regions = page ∷ [] }, write_zeros 0x1000 0x1000 ones, some 1)
unfolding free_em free_search free_region next_power_of_two leading_zeros bit layout_ok
    is_mem_contained rt_free
free_page = refl

page_power : next_power_of_two 0x900 ≤ 0x1000
unfolding next_power_of_two leading_zeros bit
page_power = omega arith

page_layout : layout_ok 0x1000 ≡ true
unfolding layout_ok
page_layout = refl

page_whole : next_power_of_two 0x1000 ≡ 0x1000
unfolding next_power_of_two leading_zeros bit
page_whole = refl

abbrev idle_manager : TestManager
idle_manager = record busy_manager { alloc_regions = page ∷ [] }

runtime_enclave_roundtrip_example :
    (alloc_em rt_allocator rt_allocator idle_manager 0x900 runtime_type
      ≡ (busy_manager, some (0x1000, 0x1000, 1)))
    × ((out : Memory) × (free_em rt_allocator rt_allocator busy_manager 0x1000 0x1000 ones
          ≡ some (idle_manager, out, some 1))
        × ((a : ℕ) → 0x1000 ≤ a → a < 0x1000 + 0x1000 → out a ≡ 0)
        × ((a : ℕ) → (a < 0x1000) ⊎ (0x1000 + 0x1000 ≤ a) → out a ≡ ones a))
runtime_enclave_roundtrip_example =
    runtime_enclave_roundtrip rt_allocator idle_manager page [] 0x900 ones refl refl (omega arith)
      (omega arith) (omega arith) page_power page_layout page_whole
