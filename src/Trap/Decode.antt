-- ===== src/Trap/Decode.antt =====
-- firmware/runtime/src/trap/decode.rs: what a trapped instruction wants. The crate `riscv_decode`
-- is a parameter: the instruction of an encoding, if there is one, and its length in bytes.
use rustsbi.Base.{
  ℕ, zero, suc, ◌+◌, ◌-◌, ◌*◌, ◌/◌, ◌%◌, ◌^◌, ◌≤◌, ◌<◌, min, max, bit_and, bit_or, ◌≡◌, refl, sym,
  ap, ◌∙◌, subst, ◌≢◌, ◌↔◌, ◌⊎◌, inl, inr, Bool, true, false, not, ◌&&◌, ◌||◌, Option, none, some,
  List, [], ◌∷◌, ◌++◌, map, arith, ltb, leb, ◌==◌, if◌then◌else◌, ltb→lt, leb→le, ==_iff,
  Bool-cases, Option-cases, length, get_elem?, set, All, length-append, length-map, All-append,
  elem,
}
use rustsbi.Trap.{Error, Result, ok, err, unsupported_instruction}
pub mod Extend

pub data ValueKind : Type 0 where
  signed8 unsigned8 signed16 unsigned16 signed32 unsigned32 signed64 : ValueKind

-- `ValueKind::width`.
unfoldable pub width : ValueKind → ℕ
width signed8 = 1
width unsigned8 = 1
width signed16 = 2
width unsigned16 = 2
width signed32 = 4
width unsigned32 = 4
width signed64 = 8

-- `raw as iN as usize`, where `half` is 2^(N - 1).
abbrev pub cast_signed : ℕ → ℕ → ℕ
cast_signed half raw =
    if ltb (raw % (2 * half)) half then raw % (2 * half) else raw % (2 * half) + (2 ^ 64 - 2 * half)

-- `ValueKind::extend`.
unfoldable pub extend : ValueKind → ℕ → ℕ
extend signed8 raw = cast_signed (2 ^ 7) raw
extend unsigned8 raw = raw % 2 ^ 8
extend signed16 raw = cast_signed (2 ^ 15) raw
extend unsigned16 raw = raw % 2 ^ 16
extend signed32 raw = cast_signed (2 ^ 31) raw
extend unsigned32 raw = raw % 2 ^ 32
extend signed64 raw = raw

-- The instructions that are told apart, with the operands that are read.
pub data Instruction : Type 0 where
  lb lbu lh lhu lw lwu ld : ℕ → Instruction
  sb sh sw sd : ℕ → Instruction
  csrrs : ℕ → ℕ → Instruction
  other_instruction : Instruction

pub record Decoder : Type 0 where
  pub decode : ℕ → Option Instruction
  pub instruction_length : ℕ → ℕ

pub record LoadOp : Type 0 where
  pub rd : ℕ
  pub kind : ValueKind

pub record StoreOp : Type 0 where
  pub rs2 : ℕ
  pub kind : ValueKind

pub record CsrReadOp : Type 0 where
  pub csr : ℕ
  pub rd : ℕ

abbrev load_op : ℕ → ValueKind → Result LoadOp
load_op rd kind = ok (record { rd = rd; kind = kind })

abbrev store_op : ℕ → ValueKind → Result StoreOp
store_op rs2 kind = ok (record { rs2 = rs2; kind = kind })

unfoldable pub load_of : Option Instruction → Result LoadOp
load_of (some (lb rd)) = load_op rd signed8
load_of (some (lbu rd)) = load_op rd unsigned8
load_of (some (lh rd)) = load_op rd signed16
load_of (some (lhu rd)) = load_op rd unsigned16
load_of (some (lw rd)) = load_op rd signed32
load_of (some (lwu rd)) = load_op rd unsigned32
load_of (some (ld rd)) = load_op rd signed64
load_of _ = err unsupported_instruction

unfoldable pub store_of : Option Instruction → Result StoreOp
store_of (some (sb rs2)) = store_op rs2 unsigned8
store_of (some (sh rs2)) = store_op rs2 unsigned16
store_of (some (sw rs2)) = store_op rs2 unsigned32
store_of (some (sd rs2)) = store_op rs2 signed64
store_of _ = err unsupported_instruction

unfoldable pub csr_read_of : Option Instruction → Result CsrReadOp
csr_read_of (some (csrrs csr rd)) = ok (record { csr = csr; rd = rd })
csr_read_of _ = err unsupported_instruction

-- `decode_load`, `decode_store`.
unfoldable pub decode_load : Decoder → ℕ → Result LoadOp
decode_load d raw = load_of (d.decode raw)

unfoldable pub decode_store : Decoder → ℕ → Result StoreOp
decode_store d raw = store_of (d.decode raw)

-- The test of a pure CSR read, whose `rs1` is x0.
abbrev pub csr_read_mask : ℕ
csr_read_mask = 0xff07f

abbrev pub csr_read_match : ℕ
csr_read_match = 0x2073

-- `decode_csr_read`.
unfoldable pub decode_csr_read : Decoder → ℕ → Result CsrReadOp
decode_csr_read d raw =
    if not (bit_and raw csr_read_mask == csr_read_match)
    then err unsupported_instruction
    else csr_read_of (d.decode raw)
