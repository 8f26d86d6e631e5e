-- ===== src/Rfence.antt =====
-- firmware/prototyper/src/sbi/rfence.rs and rfence/queue.rs: remote fences, with the hypervisor
-- feature. The page size and the flush limit are those of config/default.toml.
pub mod Flush
pub mod Queue
pub mod Cells
pub mod Protocol
pub mod Invariant
pub mod Sync
mod Examples
use rustsbi.Base.{
  ℕ, zero, suc, ◌+◌, ◌-◌, ◌*◌, ◌/◌, ◌%◌, ◌^◌, ◌≤◌, ◌<◌, min, max, bit_and, bit_or, ◌≡◌, refl, sym,
  ap, ◌∙◌, subst, ◌≢◌, ◌↔◌, ◌⊎◌, inl, inr, Bool, true, false, not, ◌&&◌, ◌||◌, Option, none, some,
  List, [], ◌∷◌, ◌++◌, map, arith, ltb, leb, ◌==◌, if◌then◌else◌, ltb→lt, leb→le, ==_iff,
  Bool-cases, Option-cases, length, get_elem?, set, All, length-append, length-map, All-append,
  elem,
}
use rustsbi.Base.Usize.{usize_max}
use rustsbi.Spec.Ret.{Result, ok, err, invalid_address, not_supported}

abbrev pub page_size : ℕ
page_size = 4096

abbrev pub tlb_flush_limit : ℕ
tlb_flush_limit = 16384

pub data RFenceType : Type 0 where
  fence_i sfence_vma sfence_vma_asid : RFenceType
  hfence_gvma_vmid hfence_gvma hfence_vvma_asid hfence_vvma : RFenceType

pub record RFenceContext : Type 0 where
  pub start_addr : ℕ
  pub size : ℕ
  pub asid : ℕ
  pub vmid : ℕ
  pub op : RFenceType

unfoldable pub validate_address_range : ℕ → ℕ → Result ℕ
validate_address_range start_addr size =
    if not ((start_addr == 0 && size == 0) || size == usize_max)
      && not (bit_and start_addr (page_size - 1) == 0)
    then err invalid_address
    else if ltb (usize_max - size) start_addr
    then err invalid_address
    else ok size

-- The fence instructions, each with the operands that it takes.
pub data FenceInstr : Type 0 where
  instr_fence_i vma_all gvma_all vvma_all : FenceInstr
  vma_addr gvma_addr vvma_addr : ℕ → FenceInstr
  vma_asid gvma_vmid vvma_asid : ℕ → FenceInstr
  vma_addr_asid gvma_addr_vmid vvma_addr_asid : ℕ → ℕ → FenceInstr

unfoldable pub full_flush : RFenceContext → Bool
full_flush c =
    (c.start_addr == 0 && c.size == 0)
    || c.size == usize_max
    || (ltb tlb_flush_limit c.size && not (c.size == usize_max))

-- `(0..size).step_by(PAGE_SIZE)`, added to the start with wrap-around.
unfoldable pub page_steps : (ℕ → FenceInstr) → ℕ → ℕ → ℕ → List FenceInstr
page_steps f start offset zero = []
page_steps f start offset (suc n) =
    f ((start + offset) % 2 ^ 64) ∷ page_steps f start (offset + page_size) n

unfoldable pub flush_pages : RFenceContext → FenceInstr → (ℕ → FenceInstr) → List FenceInstr
flush_pages c whole one =
    if full_flush c
    then whole ∷ []
    else page_steps one c.start_addr 0 ((c.size + (page_size - 1)) / page_size)

-- `rfence_local_handler`: the instructions that it runs. Its event counters are not modelled.
unfoldable pub rfence_local_handler : RFenceContext → List FenceInstr
rfence_local_handler c = elim c.op [
  | fence_i ↦ instr_fence_i ∷ []
  | sfence_vma ↦ flush_pages c vma_all vma_addr
  | sfence_vma_asid ↦ flush_pages c (vma_asid c.asid) (λ a. vma_addr_asid a c.asid)
  | hfence_gvma_vmid ↦ flush_pages c (gvma_vmid c.vmid) (λ a. gvma_addr_vmid a c.vmid)
  | hfence_gvma ↦ flush_pages c gvma_all gvma_addr
  | hfence_vvma_asid ↦ flush_pages c (vvma_asid c.asid) (λ a. vvma_addr_asid a c.asid)
  | hfence_vvma ↦ flush_pages c vvma_all vvma_addr
]

-- The calls of the `Fence` extension, without the hart mask.
pub data FenceCall : Type 0 where
  remote_fence_i : FenceCall
  remote_sfence_vma remote_hfence_gvma remote_hfence_vvma : ℕ → ℕ → FenceCall
  remote_sfence_vma_asid remote_hfence_gvma_vmid remote_hfence_vvma_asid : ℕ → ℕ → ℕ → FenceCall

checked : Result ℕ → (ℕ → RFenceContext) → Result RFenceContext
checked (ok flush_size) make = ok (make flush_size)
checked (err e) make = err e

-- The context that a call hands to `remote_fence_process`, or the error that it returns.
-- `hypervisor` is `supports_hypervisor_extension`; the event counters are not modelled.
unfoldable pub prepare : Bool → FenceCall → Result RFenceContext
unfolding checked
prepare hypervisor remote_fence_i =
    ok (record { start_addr = 0; size = 0; asid = 0; vmid = 0; op = fence_i })
prepare hypervisor (remote_sfence_vma start len) =
    checked (validate_address_range start len)
      (λ n. record { start_addr = start; size = n; asid = 0; vmid = 0; op = sfence_vma })
prepare hypervisor (remote_sfence_vma_asid start len asid) =
    checked (validate_address_range start len)
      (λ n. record { start_addr = start; size = n; asid = asid; vmid = 0; op = sfence_vma_asid })
prepare hypervisor (remote_hfence_gvma_vmid start len vmid) =
    if not hypervisor
    then err not_supported
    else checked (validate_address_range start len)
        (λ n. record { start_addr = start; size = n; asid = 0; vmid = vmid; op = hfence_gvma_vmid })
prepare hypervisor (remote_hfence_gvma start len) =
    if not hypervisor
    then err not_supported
    else checked (validate_address_range start len)
        (λ n. record { start_addr = start; size = n; asid = 0; vmid = 0; op = hfence_gvma })
prepare hypervisor (remote_hfence_vvma_asid start len asid) =
    if not hypervisor
    then err not_supported
    else checked (validate_address_range start len)
        (λ n. record { start_addr = start; size = n; asid = asid; vmid = 0; op = hfence_vvma_asid })
prepare hypervisor (remote_hfence_vvma start len) =
    if not hypervisor
    then err not_supported
    else checked (validate_address_range start len)
        (λ n. record { start_addr = start; size = n; asid = 0; vmid = 0; op = hfence_vvma })

-- queue.rs.
abbrev pub queue_cap : ℕ
queue_cap = 16

pub record Request : Type 0 where
  pub context : RFenceContext
  pub source : ℕ

pub record RFenceCell : Type 0 where
  pub queue : List Request
  pub wait_sync_count : ℕ

abbrev pub new_cell : RFenceCell
new_cell = record { queue = []; wait_sync_count = 0 }

-- `try_push`; `free` is whether the lock is taken at once.
unfoldable pub try_push : Bool → RFenceCell → Request → RFenceCell × Bool
try_push free c item =
    if not free || leb queue_cap (length c.queue)
    then (c, false)
    else (record c { queue = c.queue ++ item ∷ [] }, true)

unfoldable pub is_sync : RFenceCell → Bool
is_sync c = c.wait_sync_count == 0

-- The counter is a `u32`.
unfoldable pub add : RFenceCell → RFenceCell
add c = record c { wait_sync_count = (c.wait_sync_count + 1) % 2 ^ 32 }

unfoldable pub sub : RFenceCell → RFenceCell
sub c = record c { wait_sync_count = (c.wait_sync_count + (2 ^ 32 - 1)) % 2 ^ 32 }

unfoldable pub get : RFenceCell → RFenceCell × Option Request
get c = elim c.queue [ [] ↦ (c, none) | r ∷ rest ↦ (record c { queue = rest }, some r) ]

-- The first request of a source taken out of a queue.
unfoldable pub remove_first : ℕ → List Request → Option (List Request)
remove_first source [] = none
remove_first source (r ∷ rest) =
    if r.source == source
    then some rest
    else elim (remove_first source rest) [ none ↦ none | some rest' ↦ some (r ∷ rest') ]

unfoldable pub cancel : RFenceCell → ℕ → RFenceCell × Bool
cancel c source = elim (remove_first source c.queue) [
  | none ↦ (c, false)
  | some rest ↦ (record c { queue = rest }, true)
]
