-- ===== src/Smm/Allocators.antt =====
-- library/smm/src/allocators.rs: the allocator interface of lib.rs and `RTAlloc`. `AppAlloc` wraps
-- the buddy system of another crate, so it is a value of the interface that the manager takes.
use rustsbi.Base.{ℕ, Option, none, some, ltb, ◌==◌, if◌then◌else◌}

-- `SecMemAllocator`. A layout is given by its size, since the manager asks for alignment to the
-- size. The result of `free` is `none` when it panics.
pub record SecMemAllocator : Type 1 where
  pub State : Type 0
  pub new : State
  pub init : ℕ → ℕ → State → State
  pub alloc : ℕ → State → Option ℕ × State
  pub free : ℕ → ℕ → State → Option State
  pub available : State → ℕ
  pub total : State → ℕ

pub record RtAlloc : Type 0 where
  pub addr : ℕ
  pub len : ℕ
  pub total : ℕ

unfoldable pub rt_new : RtAlloc
rt_new = record { addr = 0; len = 0; total = 0 }

unfoldable pub rt_init : ℕ → ℕ → RtAlloc → RtAlloc
rt_init addr len s = record { addr = addr; len = len; total = len }

-- The whole region is taken even when its address is the null pointer, which is then refused.
unfoldable pub rt_alloc : ℕ → RtAlloc → Option ℕ × RtAlloc
rt_alloc size s =
    if ltb s.len size
    then (none, s)
    else ((if s.addr == 0 then none else some s.addr), record s { len = 0 })

unfoldable pub rt_free : ℕ → ℕ → RtAlloc → Option RtAlloc
rt_free ptr size s = if ptr == s.addr then some (record s { len = size }) else none

abbrev pub rt_allocator : SecMemAllocator
rt_allocator = record {
  State = RtAlloc;
  new = rt_new;
  init = rt_init;
  alloc = rt_alloc;
  free = rt_free;
  available = λ s. s.len;
  total = λ s. s.total;
}
