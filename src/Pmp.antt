-- ===== src/Pmp.antt =====
-- library/pmpm/src/lib.rs: PMP ranges, the address codec, and the PMP registers. `none` is a panic:
-- an index above 15, the logarithm of 0, or an arithmetic overflow under overflow checks.
pub mod Codec
pub mod Registers
pub mod Slots
mod Examples
use rustsbi.Base.{
  ℕ, zero, suc, ◌+◌, ◌-◌, ◌*◌, ◌/◌, ◌%◌, ◌^◌, ◌≤◌, ◌<◌, min, max, bit_and, bit_or, ◌≡◌, refl, sym,
  ap, ◌∙◌, subst, ◌≢◌, ◌↔◌, ◌⊎◌, inl, inr, Bool, true, false, not, ◌&&◌, ◌||◌, Option, none, some,
  List, [], ◌∷◌, ◌++◌, map, arith, ltb, leb, ◌==◌, if◌then◌else◌, ltb→lt, leb→le, ==_iff,
  Bool-cases, Option-cases, length, get_elem?, set, All, length-append, length-map, All-append,
}
use rustsbi.Base.Usize.{usize_bits, usize_max}
use rustsbi.Base.Words.{one_shl, not_word, trailing_zeros, leading_zeros}

-- `riscv::register::Range` and `Permission`, as far as the code names their cases.
pub data Range : Type 0 where
  off tor na4 napot : Range

pub data Permission : Type 0 where
  no_access r w x rw rx wx rwx : Permission

abbrev pub max_pmp_entry_count : ℕ
max_pmp_entry_count = 16

abbrev pub pmp_shift : ℕ
pmp_shift = 2

pub record PmpConfig : Type 0 where
  pub range : Range
  pub perm : Permission
  pub is_locked : Bool

pub record PmpSlice : Type 0 where
  pub pa_lo : ℕ
  pub pa_hi : ℕ
  pub log2len : ℕ

abbrev pub slice : ℕ → ℕ → ℕ → PmpSlice
slice log2len pa_lo pa_hi = record { pa_lo = pa_lo; pa_hi = pa_hi; log2len = log2len }

unfoldable pub check_pmp_area_available : ℕ → ℕ → Range → Bool
check_pmp_area_available addr len na4 = bit_and addr (2 ^ pmp_shift - 1) == 0 && len == 4
check_pmp_area_available addr len napot = leb 8 len && bit_and len (len - 1) == 0 && addr % len == 0
check_pmp_area_available addr len tor = bit_and addr (2 ^ pmp_shift - 1) == 0 && len % 4 == 0
check_pmp_area_available addr len off = true

-- The mask `(1usize << (log2len - PMP_SHIFT)) - 1`; a shift out of range overflows.
addr_mask : ℕ → Option ℕ
addr_mask log2len =
    if ltb log2len pmp_shift
    then none
    else if leb usize_bits (log2len - pmp_shift)
    then none
    else some (one_shl (log2len - pmp_shift) - 1)

encode_napot : ℕ → ℕ → Option ℕ
unfolding addr_mask
encode_napot lo log2len =
    if log2len == usize_bits then some usize_max else elim (addr_mask log2len) [
      | none ↦ none
      | some m ↦ some (bit_or (bit_and (lo / 2 ^ pmp_shift) (not_word usize_bits m)) (m / 2))
    ]

pub encode_pmp_addr : PmpSlice → Range → Option ℕ
unfolding encode_napot
encode_pmp_addr s napot =
    encode_napot s.pa_lo (bit_and s.log2len (bit_or usize_bits (usize_bits - 1)))
encode_pmp_addr s na4 = some (s.pa_lo / 2 ^ pmp_shift)
encode_pmp_addr s tor = some (s.pa_lo / 2 ^ pmp_shift)
encode_pmp_addr s off = some 0

-- `x << PMP_SHIFT` drops the bits above the word.
abbrev pub shl_pmp_shift : ℕ → ℕ
shl_pmp_shift a = (a * 2 ^ pmp_shift) % 2 ^ 64

decode_napot : ℕ → PmpSlice
decode_napot pmpaddr =
    let ones = trailing_zeros usize_bits (not_word usize_bits pmpaddr) in
    let base = bit_and pmpaddr (not_word usize_bits (one_shl ones - 1)) in
    if pmpaddr == usize_max
    then slice usize_bits 0 0
    else slice (ones + pmp_shift + 1) (shl_pmp_shift base) 0

pub decode_pmp_addr : ℕ → Range → PmpSlice
unfolding decode_napot
decode_pmp_addr pmpaddr napot = decode_napot pmpaddr
decode_pmp_addr pmpaddr na4 = slice 2 (shl_pmp_shift pmpaddr) 0
decode_pmp_addr pmpaddr tor = slice 0 (shl_pmp_shift pmpaddr) 0
decode_pmp_addr pmpaddr off = slice 0 0 0

-- The 16 address registers, and the 16 configurations of `pmpcfg0` and `pmpcfg2`.
pub record PmpRegisters : Type 0 where
  pub addr : ℕ → ℕ
  pub cfg : ℕ → PmpConfig

pub update {ℓ} : {A : Type ℓ} → (ℕ → A) → ℕ → A → ℕ → A
update f i v j = if j == i then v else f j

-- `set_pmp_cfg`: `pmpcfg0` holds entries 0 to 7, `pmpcfg2` holds 8 to 15.
pub set_pmp_cfg : ℕ → PmpConfig → PmpRegisters → Option PmpRegisters
set_pmp_cfg idx config regs =
    if ltb idx max_pmp_entry_count
    then some (record regs { cfg = update regs.cfg idx config })
    else none

-- `_set_pmp_addr`.
pub set_pmp_addr_register : ℕ → ℕ → PmpRegisters → Option PmpRegisters
set_pmp_addr_register idx a regs =
    if ltb idx max_pmp_entry_count
    then some (record regs { addr = update regs.addr idx a })
    else none

-- `usize::ilog2`.
unfoldable pub ilog2 : ℕ → Option ℕ
ilog2 len = if len == 0 then none else some (usize_bits - 1 - leading_zeros usize_bits len)

-- The logarithm that `set_pmp_entry` and `set_pmp_addr` take of a length.
unfoldable pub log2_of_len : ℕ → Option ℕ
log2_of_len len = if len == usize_max then some usize_bits else ilog2 len

infixl 5 ◌>>=◌
abbrev ◌>>=◌ {ℓ κ} : {A : Type ℓ} {B : Type κ} → Option A → (A → Option B) → Option B
none >>= f = none
some a >>= f = f a

-- `set_pmp_entry`, and `set_pmp_entry_sync`, which calls it.
pub set_pmp_entry : ℕ → ℕ → ℕ → PmpConfig → PmpRegisters → Option PmpRegisters
set_pmp_entry idx addr len config regs = do
  log2len ← log2_of_len len
  encoded ← encode_pmp_addr (slice log2len addr 0) config.range
  regs' ← set_pmp_addr_register idx encoded regs
  set_pmp_cfg idx config regs'

-- `get_pmp_entry`.
pub get_pmp_entry : ℕ → PmpRegisters → Option (ℕ × PmpConfig)
get_pmp_entry idx regs =
    if ltb idx max_pmp_entry_count then some (regs.addr idx, regs.cfg idx) else none
