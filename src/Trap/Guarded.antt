-- ===== src/Trap/Guarded.antt =====
-- firmware/runtime/src/trap/recovery.rs: the guarded accesses and what is built from them. The
-- guard itself is assembly around one instruction, which runs under the trapped context's
-- privilege; whether it faults is a parameter. A fault traps again into the recovery vector, which
-- leaves its own values in the live trap CSRs; `mstatus` is put back by the guard.
use rustsbi.Base.{
  ℕ, zero, suc, ◌+◌, ◌-◌, ◌*◌, ◌/◌, ◌%◌, ◌^◌, ◌≤◌, ◌<◌, min, max, bit_and, bit_or, ◌≡◌, refl, sym,
  ap, ◌∙◌, subst, ◌≢◌, ◌↔◌, ◌⊎◌, inl, inr, Bool, true, false, not, ◌&&◌, ◌||◌, Option, none, some,
  List, [], ◌∷◌, ◌++◌, map, arith, ltb, leb, ◌==◌, if◌then◌else◌, ltb→lt, leb→le, ==_iff,
  Bool-cases, Option-cases, length, get_elem?, set, All, length-append, length-map, All-append,
  elem,
}
use rustsbi.Trap.{
  TrapFrame, Csrs, Machine, Error, Result, ok, err, unsupported_instruction, memory_fault, M, pure,
  fail, bind_result, ◌>>=◌, ◌>>◌,
}
use rustsbi.Trap.Decode.{ValueKind, width, Decoder}
pub mod Bytes

-- What a fault leaves: its cause, its address and the `mepc` of the recovery.
pub record Fault : Type 0 where
  pub cause : ℕ
  pub tval : ℕ
  pub resume : ℕ

-- Which accesses fault, by address.
pub record Bus : Type 0 where
  pub read_u8_fault : ℕ → Option Fault
  pub read_u16_fault : ℕ → Option Fault
  pub write_u8_fault : ℕ → Option Fault

-- The trap CSRs after a recovered fault.
abbrev pub clobbered : Fault → Machine → Machine
clobbered f m = record m {
  csr = record m.csr { mepc = f.resume; mcause = f.cause; mtval = f.tval };
}

-- `fault_of`.
abbrev pub fault_of : Fault → Error
fault_of f = memory_fault f.cause f.tval

guarded : {A : Type 0} → Option Fault → Machine → A → Machine × Result A
guarded none done a = (done, ok a)
guarded (some f) done a = (clobbered f done, err (fault_of f))

-- The store does not happen when it faults.
guarded_store : Option Fault → Machine → Machine → Machine × Result (Unit {0})
guarded_store none before after = (after, ok tt)
guarded_store (some f) before after = (clobbered f before, err (fault_of f))

abbrev pub store_byte : (ℕ → ℕ) → ℕ → ℕ → ℕ → ℕ
store_byte mem a v b = if b == a then v else mem b

unfoldable pub read_u8 : Bus → ℕ → M ℕ
unfolding guarded
read_u8 bus addr m = guarded (bus.read_u8_fault addr) m (m.mem addr)

unfoldable pub read_u16 : Bus → ℕ → M ℕ
unfolding guarded
read_u16 bus addr m =
    guarded (bus.read_u16_fault addr) m (m.mem addr + m.mem ((addr + 1) % 2 ^ 64) * 2 ^ 8)

unfoldable pub write_u8 : Bus → ℕ → ℕ → M (Unit {0})
unfolding guarded_store
write_u8 bus addr v m =
    guarded_store (bus.write_u8_fault addr) m (record m { mem = store_byte m.mem addr (v % 2 ^ 8) })

-- The instruction whose low half has been read.
unfoldable pub fetch_rest : Decoder → Bus → ℕ → ℕ → M (ℕ × ℕ)
fetch_rest d bus mepc low =
    if d.instruction_length low == 2
    then pure (low, 2)
    else do high ← read_u16 bus ((mepc + 2) % 2 ^ 64); pure (bit_or low (high * 2 ^ 16 % 2 ^ 32), 4)

-- `fetch`.
unfoldable pub fetch : Decoder → Bus → ℕ → M (ℕ × ℕ)
fetch d bus mepc = read_u16 bus mepc >>= fetch_rest d bus mepc

-- `i` bytes are left to read, the last of them first.
unfoldable pub read_bytes : Bus → ℕ → ℕ → ℕ → M ℕ
read_bytes bus addr zero value = pure value
read_bytes bus addr (suc i) value = do
  byte ← read_u8 bus ((addr + i) % 2 ^ 64)
  read_bytes bus addr i (bit_or (value * 2 ^ 8 % 2 ^ 64) byte)

-- `read_value`.
unfoldable pub read_value : Bus → ℕ → ValueKind → M ℕ
read_value bus addr kind = read_bytes bus addr (width kind) 0

-- `n` bytes are left to write, from byte `i` on.
unfoldable pub write_bytes : Bus → ℕ → ℕ → ℕ → ℕ → M (Unit {0})
write_bytes bus addr value zero i = pure tt
write_bytes bus addr value (suc n) i = do
  write_u8 bus ((addr + i) % 2 ^ 64) (bit_and (value / 2 ^ (8 * i)) 0xff)
  write_bytes bus addr value n (suc i)

-- `write_value`.
unfoldable pub write_value : Bus → ℕ → ℕ → ValueKind → M (Unit {0})
write_value bus addr value kind = write_bytes bus addr value (width kind) 0

-- `read_csr_guarded` of a CSR: an absent one faults as an illegal instruction.
unfoldable pub read_csr_guarded : Fault → Option ℕ → M ℕ
read_csr_guarded f (some value) m = (m, ok value)
read_csr_guarded f none m = (clobbered f m, err unsupported_instruction)
