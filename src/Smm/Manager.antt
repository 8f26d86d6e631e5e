-- ===== src/Smm/Manager.antt =====
-- library/smm/src/manager.rs: `UniSecMemManager` over `TestSecMemProtector` of protector.rs, which
-- allows every change of access and hands out the slots of a `PMPSlotAllocator`. The memory that
-- the manager clears is a function from addresses to bytes.
pub mod Keeps
pub mod Enclaves
mod Examples
use rustsbi.Base.{
  ℕ, zero, suc, ◌+◌, ◌-◌, ◌*◌, ◌/◌, ◌%◌, ◌^◌, ◌≤◌, ◌<◌, min, max, bit_and, bit_or, ◌≡◌, refl, sym,
  ap, ◌∙◌, subst, ◌≢◌, ◌↔◌, ◌⊎◌, inl, inr, Bool, true, false, not, ◌&&◌, ◌||◌, Option, none, some,
  List, [], ◌∷◌, ◌++◌, map, arith, ltb, leb, ◌==◌, if◌then◌else◌, ltb→lt, leb→le, ==_iff,
  Bool-cases, Option-cases, length, get_elem?, set, All, length-append, length-map, All-append,
}
use rustsbi.Base.Usize.{wrapping_add, usize_max}
use rustsbi.Base.Words.{leading_zeros}
use rustsbi.Pmp.{check_pmp_area_available, napot}
use rustsbi.Pmp.Slots
use rustsbi.Pmp.Slots.{PmpSlotAllocator}
use rustsbi.Smm.Allocators.{SecMemAllocator}
use rustsbi.Smm.Vector.{swap_remove, position, find, any}
use rustsbi.Smm.Region.{
  SecMemRegion, SecMemAllocatorWrapper, general, runtime, application, none_alloc, SecMemType,
  runtime_type, application_type, none_type, general_type, new_region, is_mem_overlap,
  is_mem_contained,
}

abbrev pub sm_slot : ℕ
sm_slot = 1

-- `((1 << 16) - 1) & !(SM | TEMP | TEMP)`: the default slot is not taken out.
abbrev pub alloc_mask : ℕ
alloc_mask = bit_and (2 ^ 16 - 1) (2 ^ 64 - 1 - 3)

-- `ALLOCMASK & (SM | DEFAULT | TEMP)`.
abbrev pub manage_mask : ℕ
manage_mask = bit_and alloc_mask (bit_or (bit_or 1 (2 ^ 15)) 2)

-- The capacity of `alloc_regions`.
abbrev pub capacity : ℕ
capacity = 13

abbrev pub Memory : Type 0
Memory = ℕ → ℕ

-- `core::ptr::write_bytes(addr, 0, len)`.
unfoldable pub write_zeros : ℕ → ℕ → Memory → Memory
write_zeros addr len mem a = if leb addr a && ltb a (addr + len) then 0 else mem a

-- `usize::next_power_of_two`, 0 on overflow in release builds.
unfoldable pub next_power_of_two : ℕ → ℕ
next_power_of_two len = if leb len 1 then 1 else 2 ^ (64 - leading_zeros 64 (len - 1)) % 2 ^ 64

-- Whether `Layout::from_size_align(size, size)` exists.
unfoldable pub layout_ok : ℕ → Bool
layout_ok size = not (size == 0) && bit_and size (size - 1) == 0 && ltb size (2 ^ 63)

-- What one round of the loop of `alloc_em` found: an early return, a region to skip with the
-- length to ask for next, or memory.
pub data Attempt (T : Type 0) : Type 0 where
  gives_up : T → Attempt T
  misses : T → ℕ → Attempt T
  gets : T → ℕ → ℕ → Attempt T

module _ (ar aa : SecMemAllocator) where
  abbrev pub Region : Type 0
  Region = SecMemRegion ar.State aa.State

  pub record Manager : Type 0 where
    pub cur_idx : ℕ
    pub protector : PmpSlotAllocator
    pub reserved_regions : List (SecMemRegion (Unit {0}) (Unit {0}))
    pub alloc_regions : List Region

  abbrev pub new : Manager
  new = record {
    cur_idx = 0;
    protector = Slots.new alloc_mask manage_mask;
    reserved_regions = [];
    alloc_regions = [];
  }

  pub init : Manager → ℕ → ℕ → Manager × Bool
  init m sm_addr sm_len =
      if check_pmp_area_available sm_addr sm_len napot
      then (
        record m {
          cur_idx = wrapping_add m.cur_idx 1;
          reserved_regions = m.reserved_regions ++ new_region sm_addr sm_len m.cur_idx sm_slot ∷ [];
        },
        true,
      )
      else (m, false)

  -- The regions are cleared and reported in order.
  pub deinit : List Region → Memory → Memory × List (ℕ × ℕ)
  deinit [] mem = (mem, [])
  deinit (r ∷ rs) mem =
      let (mem', out) = deinit rs (write_zeros r.addr r.len mem) in (mem', (r.addr, r.len) ∷ out)

  -- Without a free slot nothing is added, and the call still reports success.
  add_region : Manager → ℕ → ℕ → PmpSlotAllocator → Slots.Outcome ℕ → Manager × Bool
  add_region m addr len protector (Slots.err e) = (record m { protector = protector }, true)
  add_region m addr len protector (Slots.ok hwid) =
      let idx = wrapping_add m.cur_idx 1 in
      (
        record m {
          cur_idx = idx;
          protector = protector;
          alloc_regions = m.alloc_regions ++ new_region addr len idx hwid ∷ [];
        },
        true,
      )

  pub extend : Manager → ℕ → ℕ → Manager × Bool
  unfolding add_region
  extend m addr len =
      if not (check_pmp_area_available addr len napot)
        || leb capacity (length m.alloc_regions)
        || any (λ r. is_mem_overlap r addr len) m.alloc_regions
      then (m, false)
      else add_region m addr len (Slots.alloc m.protector []).0 (Slots.alloc m.protector []).1

  give_back :
      Manager
      → Region
      → List Region
      → PmpSlotAllocator × Slots.Outcome (Unit {0})
      → Manager × Option (ℕ × ℕ)
  give_back m r rs (protector, Slots.ok u) =
      (record m { protector = protector; alloc_regions = rs }, some (r.addr, r.len))
  give_back m r rs (protector, Slots.err e) =
      (record m { protector = protector; alloc_regions = rs }, none)

  pub reclaim : Manager → Manager × Option (ℕ × ℕ)
  unfolding give_back
  reclaim m = elim (position (λ r. not r.is_used) m.alloc_regions) [
    | none ↦ (m, none)
    | some i ↦ elim (swap_remove m.alloc_regions i) [
      | none ↦ (m, none)
      | some (r, rs) ↦ give_back m r rs (Slots.free m.protector r.slot [])
    ]
  ]

  -- A region that is still general takes the requested type, with a fresh allocator over it.
  pub retype : SecMemType → Region → SecMemAllocatorWrapper ar.State aa.State → Region
  retype runtime_type r general = record r { allocator = runtime (ar.init r.addr r.len ar.new) }
  retype application_type r general = record r {
    allocator = application (aa.init r.addr r.len aa.new);
  }
  retype _ r w = r

  runtime_round : Region → ℕ → ar.State → Attempt Region
  runtime_round r expect_len s =
      let all = ar.available s in
      let (got, s') = ar.alloc all s in
      let r' = record r { allocator = runtime s' } in
      if leb expect_len all
      then if layout_ok all
        then elim got [ none ↦ misses r' all | some ptr ↦ gets r' ptr all ]
        else gives_up r
      else misses r expect_len

  application_round : Region → ℕ → aa.State → Attempt Region
  application_round r expect_len s =
      let (got, s') = aa.alloc expect_len s in
      let r' = record r { allocator = application s' } in
      if leb expect_len (aa.available s)
      then if layout_ok expect_len
        then elim got [ none ↦ misses r' expect_len | some ptr ↦ gets r' ptr expect_len ]
        else gives_up r
      else misses r expect_len

  -- One round of the loop, on a region that already has its type.
  pub attempt : SecMemType → Region → ℕ → SecMemAllocatorWrapper ar.State aa.State → Attempt Region
  unfolding runtime_round application_round
  attempt runtime_type r expect_len (runtime s) = runtime_round r expect_len s
  attempt application_type r expect_len (application s) = application_round r expect_len s
  attempt _ r expect_len w = misses r expect_len

  pub alloc_loop : ℕ → ℕ → SecMemType → List Region → List Region × Option (ℕ × ℕ × ℕ)
  unfolding retype attempt
  alloc_loop len expect_len em_type [] = ([], none)
  alloc_loop len expect_len em_type (r ∷ rs) =
      let typed = retype em_type r r.allocator in
      elim (ltb r.len len) [
        | true ↦ let rest = alloc_loop len expect_len em_type rs in (r ∷ rest.0, rest.1)
        | false ↦ elim (attempt em_type typed expect_len typed.allocator) [
          | gives_up r' ↦ (r' ∷ rs, none)
          | misses r' expect' ↦
              let rest = alloc_loop len expect' em_type rs in (r' ∷ rest.0, rest.1)
          | gets r' ptr size ↦ (record r' { is_used = true } ∷ rs, some (ptr, size, r'.id))
        ]
      ]

  pub alloc_em : Manager → ℕ → SecMemType → Manager × Option (ℕ × ℕ × ℕ)
  alloc_em m len em_type =
      let (regions, out) = alloc_loop len (next_power_of_two len) em_type m.alloc_regions in
      (record m { alloc_regions = regions }, out)

  -- A region all of whose memory is free is general and unused again.
  settle : Region → SecMemAllocatorWrapper ar.State aa.State → Bool → Region
  settle r w all_free =
      if all_free
      then record r { is_used = false; allocator = general }
      else record r { allocator = w }

  -- The match on the allocator of the region that `free_em` found; `none` is a panic.
  pub free_region :
      Region → ℕ → ℕ → SecMemAllocatorWrapper ar.State aa.State → Option (Region × Option ℕ)
  unfolding settle
  free_region r ptr size (application s) = elim (aa.free ptr size s) [
    | none ↦ none
    | some s' ↦ some (settle r (application s') (aa.available s' == aa.total s'), some r.id)
  ]
  free_region r ptr size (runtime s) = elim (ar.free ptr size s) [
    | none ↦ none
    | some s' ↦ some (settle r (runtime s') (ar.available s' == ar.total s'), some r.id)
  ]
  free_region r ptr size w = some (r, none)

  -- The search, with the regions and the memory that it leaves.
  pub free_search : ℕ → ℕ → ℕ → List Region → Memory → Option (List Region × Memory × Option ℕ)
  unfolding free_region
  free_search addr len size [] mem = some ([], mem, none)
  free_search addr len size (r ∷ rs) mem = elim (is_mem_contained r addr len) [
    | true ↦ elim (free_region r addr size r.allocator) [
      | none ↦ none
      | some (r', out) ↦ some (r' ∷ rs, write_zeros addr len mem, out)
    ]
    | false ↦ elim (free_search addr len size rs mem) [
      | none ↦ none
      | some (rs', mem', out) ↦ some (r ∷ rs', mem', out)
    ]
  ]

  pub free_em : Manager → ℕ → ℕ → Memory → Option (Manager × Memory × Option ℕ)
  free_em m addr len mem =
      let size = next_power_of_two len in
      if not (layout_ok size) || addr == 0
      then some (m, mem, none)
      else elim (free_search addr len size m.alloc_regions mem) [
        | none ↦ none
        | some (rs, mem', out) ↦ some (record m { alloc_regions = rs }, mem', out)
      ]

  -- `grant_access`, and `retrive_access`, which searches alike.
  pub grant_access : Manager → ℕ → ℕ → ℕ → Bool
  grant_access m addr len region_id =
      elim (find (λ r. r.id == region_id && is_mem_contained r addr len) m.alloc_regions) [
        | none ↦ false
        | some r ↦ true
      ]
