-- ===== src/Shmem.antt =====
-- firmware/prototyper/src/sbi/mpxy.rs, dbtr.rs and sta.rs: the memory that a supervisor shares with
-- the firmware for messages, for debug triggers and for steal time. The trigger CSRs of the hart
-- are given by what the guarded accesses to them answer.
use rustsbi.Base.{
  ℕ, zero, suc, ◌+◌, ◌-◌, ◌*◌, ◌/◌, ◌%◌, ◌^◌, ◌≤◌, ◌<◌, min, max, bit_and, bit_or, ◌≡◌, refl, sym,
  ap, ◌∙◌, subst, ◌≢◌, ◌↔◌, ◌⊎◌, inl, inr, Bool, true, false, not, ◌&&◌, ◌||◌, Option, none, some,
  List, [], ◌∷◌, ◌++◌, map, arith, ltb, leb, ◌==◌, if◌then◌else◌, ltb→lt, leb→le, ==_iff,
  Bool-cases, Option-cases, length, get_elem?, set, All, length-append, length-map, All-append,
  elem,
}
use rustsbi.Base.Usize.{usize_max}
use rustsbi.Spec.Ret.{
  SbiRet, success, from_error, invalid_param, invalid_address, not_supported, no_shmem, failed,
}
use rustsbi.Memory.{RtError, RtResult, good, bad, PhysAddrRange, from_start_len, check_range}
use rustsbi.Memory.Access as Access
use rustsbi.Memory.Access.{Ram}
pub mod Sharing
mod Examples

-- `SharedPtr`, by the halves of its address.
pub record SharedPtr : Type 0 where
  pub phys_addr_lo : ℕ
  pub phys_addr_hi : ℕ

-- The address that takes shared memory back.
abbrev pub is_all_ones : SharedPtr → Bool
is_all_ones p = p.phys_addr_lo == usize_max && p.phys_addr_hi == usize_max

-- `is_aligned_to` of a size that is not 0, and no high half.
abbrev pub is_placed : ℕ → SharedPtr → Bool
is_placed alignment p = p.phys_addr_lo % alignment == 0 && p.phys_addr_hi == 0

abbrev pub is_clear : Option RtError → Bool
is_clear none = true
is_clear (some _) = false

abbrev pub in_regions : List PhysAddrRange → RtResult PhysAddrRange → Bool
in_regions regions (bad _) = false
in_regions regions (good range) = is_clear (check_range regions range)

-- Whether an area lies in the supervisor's memory.
unfoldable pub area_ok : List PhysAddrRange → ℕ → ℕ → Bool
area_ok regions start size = in_regions regions (from_start_len start size)

abbrev pub mpxy_size : ℕ
mpxy_size = 4096

-- mpxy.rs: `set_shmem`, on the address that is kept for the hart.
unfoldable pub mpxy_set_shmem : List PhysAddrRange → ℕ → SharedPtr → ℕ → ℕ × SbiRet
mpxy_set_shmem regions kept p flags =
    if not (flags == 0)
    then (kept, from_error invalid_param)
    else if is_all_ones p
    then (0, success 0)
    else if not (is_placed mpxy_size p)
    then (kept, from_error invalid_param)
    else if not (area_ok regions p.phys_addr_lo mpxy_size)
    then (kept, from_error invalid_address)
    else (p.phys_addr_lo, success 0)

-- mpxy.rs: `get_channel_ids`.
unfoldable pub get_channel_ids : ℕ → SbiRet
get_channel_ids kept = if kept == 0 then from_error no_shmem else from_error failed

-- What the trigger CSRs answer: whether `tselect` can be written, what it reads as then, and what
-- `tdata1` reads as then; `none` is a fault.
pub record Triggers : Type 0 where
  pub write_tselect : ℕ → Bool
  pub read_tselect : ℕ → Option ℕ
  pub read_tdata1 : ℕ → Option ℕ

abbrev pub max_probed_triggers : ℕ
max_probed_triggers = 256

-- Whether the walk goes on at `index`, and whether a trigger is there.
abbrev pub tdata1_type : ℕ → ℕ
tdata1_type tdata1 = bit_and (tdata1 / 2 ^ 60) 0xf

abbrev has_type : Option ℕ → Option Bool
has_type none = none
has_type (some tdata1) = some (not (tdata1_type tdata1 == 0))

abbrev selected : ℕ → Option ℕ → Option ℕ → Option Bool
selected index none tdata1 = none
selected index (some s) tdata1 = if s == index then has_type tdata1 else none

unfoldable pub probe_one : Triggers → ℕ → Option Bool
probe_one t index =
    if t.write_tselect index
    then selected index (t.read_tselect index) (t.read_tdata1 index)
    else none

unfoldable pub probe_rounds : Triggers → ℕ → ℕ → ℕ → ℕ
probe_rounds t zero index count = count
probe_rounds t (suc rounds) index count = elim (probe_one t index) [
  | none ↦ count
  | some present ↦ probe_rounds t rounds (index + 1) (if present then count + 1 else count)
]

-- dbtr.rs: `probe_triggers`.
unfoldable pub probe_triggers : Triggers → ℕ
probe_triggers t = probe_rounds t max_probed_triggers 0 0

-- dbtr.rs: the cached number of triggers, `usize_max` for none yet, and the shared address.
pub record DbtrState : Type 0 where
  pub cached_trigger_count : ℕ
  pub shmem_address : ℕ

-- `cached_trigger_count`; the count is the new cache.
unfoldable pub cached_count : Triggers → DbtrState → ℕ
cached_count t s =
    if not (s.cached_trigger_count == usize_max) then s.cached_trigger_count else probe_triggers t

abbrev pub with_count : Triggers → DbtrState → DbtrState
with_count t s = record s { cached_trigger_count = cached_count t s }

-- dbtr.rs: `num_triggers`.
unfoldable pub num_triggers : Triggers → DbtrState → ℕ → DbtrState × ℕ
num_triggers t s trigger_data1 =
    if trigger_data1 == 0 then (with_count t s, cached_count t s) else (s, 0)

-- dbtr.rs: `set_shmem`; each trigger takes four words.
unfoldable pub dbtr_set_shmem :
    List PhysAddrRange → Triggers → DbtrState → SharedPtr → ℕ → DbtrState × SbiRet
dbtr_set_shmem regions t s p flags =
    let counted = with_count t s in
    let count = cached_count t s in
    if not (flags == 0)
    then (s, from_error invalid_param)
    else if is_all_ones p
    then (record s { shmem_address = 0 }, success 0)
    else if count == 0
    then (counted, from_error not_supported)
    else if not (is_placed 8 p)
    then (counted, from_error invalid_param)
    else if not (ltb (count * 32) (2 ^ 64))
    then (counted, from_error invalid_address)
    else if not (area_ok regions p.phys_addr_lo (count * 32))
    then (counted, from_error invalid_address)
    else (record counted { shmem_address = p.phys_addr_lo }, success 0)

abbrev pub sta_size : ℕ
sta_size = 64

abbrev pub zero_bytes : ℕ → List ℕ
zero_bytes zero = []
zero_bytes (suc n) = 0 ∷ zero_bytes n

abbrev pub sta_written : Ram → RtResult Ram → Ram × SbiRet
sta_written mem (bad _) = (mem, from_error invalid_address)
sta_written mem (good mem') = (mem', success 0)

-- sta.rs: `set_shmem`.
unfoldable pub sta_set_shmem : List PhysAddrRange → Ram → SharedPtr → ℕ → Ram × SbiRet
sta_set_shmem regions mem p flags =
    if not (flags == 0)
    then (mem, from_error invalid_param)
    else if is_all_ones p
    then (mem, success 0)
    else if not (is_placed sta_size p)
    then (mem, from_error invalid_param)
    else sta_written mem (Access.write regions mem p.phys_addr_lo (zero_bytes sta_size))
