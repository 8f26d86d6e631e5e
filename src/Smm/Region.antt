-- ===== src/Smm/Region.antt =====
-- library/smm/src/lib.rs: `SecMemRegion` and the enumerations beside it. `R` and `A` are the
-- states of the allocators for runtime and application enclaves.
use rustsbi.Base.{ℕ, Bool, true, false, ◌&&◌, none, some, ltb, leb}
use rustsbi.Base.Usize.{wrapping_add, checked_add}

pub data SecMemAllocatorWrapper (R A : Type 0) : Type 0 where
  none_alloc general : SecMemAllocatorWrapper R A
  runtime : R → SecMemAllocatorWrapper R A
  application : A → SecMemAllocatorWrapper R A

pub data SecMemType : Type 0 where
  none_type general_type runtime_type application_type : SecMemType

pub record SecMemRegion (R A : Type 0) : Type 0 where
  pub addr : ℕ
  pub len : ℕ
  pub id : ℕ
  pub slot : ℕ
  pub is_used : Bool
  pub allocator : SecMemAllocatorWrapper R A

module _ {R A : Type 0} where
  abbrev pub new_region : ℕ → ℕ → ℕ → ℕ → SecMemRegion R A
  new_region addr len id pmp_slot = record {
    addr = addr;
    len = len;
    id = id;
    slot = pmp_slot;
    is_used = false;
    allocator = general;
  }

  unfoldable pub is_mem_overlap : SecMemRegion R A → ℕ → ℕ → Bool
  is_mem_overlap r addr len =
      let self_end = wrapping_add r.addr r.len in
      elim (checked_add addr len) [
        | some target_end ↦ ltb addr self_end && ltb r.addr target_end
        | none ↦ true
      ]

  unfoldable pub is_mem_contained : SecMemRegion R A → ℕ → ℕ → Bool
  is_mem_contained r addr len =
      let self_end = wrapping_add r.addr r.len in
      elim (checked_add addr len) [
        | some target_end ↦ leb r.addr addr && leb target_end self_end
        | none ↦ false
      ]
