-- ===== src/Trap/Emulate.antt =====
-- firmware/runtime/src/trap/emulate.rs: one trapped instruction carried out as a whole. The device
-- that serves access faults and the timer device are given by their answers during the trap.
use rustsbi.Base.{
  ℕ, zero, suc, ◌+◌, ◌-◌, ◌*◌, ◌/◌, ◌%◌, ◌^◌, ◌≤◌, ◌<◌, min, max, bit_and, bit_or, ◌≡◌, refl, sym,
  ap, ◌∙◌, subst, ◌≢◌, ◌↔◌, ◌⊎◌, inl, inr, Bool, true, false, not, ◌&&◌, ◌||◌, Option, none, some,
  List, [], ◌∷◌, ◌++◌, map, arith, ltb, leb, ◌==◌, if◌then◌else◌, ltb→lt, leb→le, ==_iff,
  Bool-cases, Option-cases, length, get_elem?, set, All, length-append, length-map, All-append,
  elem,
}
use rustsbi.Trap.{
  TrapFrame, Csrs, Machine, Error, Result, ok, err, unsupported_instruction, machine_origin,
  memory_fault, M, pure, fail, bind_result, ◌>>=◌, ◌>>◌, lift, map_err, read_x, write_x,
  trapped_from_machine,
}
use rustsbi.Trap.Decode.{
  ValueKind, width, extend, Decoder, LoadOp, StoreOp, CsrReadOp, decode_load, decode_store,
  decode_csr_read, csr_read_mask, csr_read_match,
}
use rustsbi.Trap.Guarded.{Fault, Bus, fetch, read_value, write_value, read_csr_guarded}
pub mod Restore
pub mod Outcomes
pub mod Values
pub mod Faults
pub mod Reports

-- `load` and `store` of an `AccessDispatcher`; `none` and `false` are an `AccessError`.
pub record AccessDispatcher : Type 0 where
  pub load : ℕ → ValueKind → Option ℕ
  pub store : ℕ → ValueKind → ℕ → Bool

pub record TimerDevice : Type 0 where
  pub read_time : Option ℕ
  pub read_time_low : Option ℕ

-- What is around the hart during one trap. `time_csr` is the architecture's counter, if the hart
-- has it, and `csr_fault` what an access to an absent CSR leaves.
pub record Platform : Type 0 where
  pub decoder : Decoder
  pub bus : Bus
  pub dispatcher : Option AccessDispatcher
  pub timer : Option TimerDevice
  pub time_csr : Option ℕ
  pub csr_fault : Fault

unfoldable pub map_fetch_fault : Error → Error
map_fetch_fault (memory_fault cause tval) =
    memory_fault (if cause == 5 then 1 else if cause == 13 then 12 else cause) tval
map_fetch_fault e = e

abbrev pub csr_time : ℕ
csr_time = 0xC01

abbrev mapped : {A : Type 0} → Machine × Result A → Machine × Result A
mapped r = (r.0, map_err map_fetch_fault r.1)

-- `fetch` of emulate.rs.
unfoldable pub fetch_mapped : Platform → ℕ → M (ℕ × ℕ)
fetch_mapped p mepc m = mapped (fetch p.decoder p.bus mepc m)

pub record TrapFacts : Type 0 where
  pub mepc : ℕ
  pub mcause : ℕ
  pub mtval : ℕ
  pub mstatus : ℕ

-- `TrapFacts::capture`.
unfoldable pub capture : Csrs → TrapFacts
capture c = record { mepc = c.mepc; mcause = c.mcause; mtval = c.mtval; mstatus = c.mstatus }

-- `TrapFacts::restore`.
unfoldable pub restore : TrapFacts → Csrs → Csrs
restore f c = record c { mcause = f.mcause; mtval = f.mtval; mstatus = f.mstatus }

-- `TrapFacts::restore_and_advance`.
unfoldable pub restore_and_advance : TrapFacts → ℕ → Csrs → Csrs
unfolding restore
restore_and_advance f len c = record (restore f c) { mepc = (f.mepc + len) % 2 ^ 64 }

-- `TrapFacts::restore_all`.
unfoldable pub restore_all : TrapFacts → Csrs → Csrs
unfolding restore
restore_all f c = record (restore f c) { mepc = f.mepc }

-- `reject_machine_origin`.
unfoldable pub reject_machine_origin : TrapFrame → Result (Unit {0})
reject_machine_origin f = if trapped_from_machine f then err machine_origin else ok tt

unfoldable pub finish : TrapFacts → Machine × Result ℕ → Machine × Result (Unit {0})
finish facts (m, ok len) = (record m { csr = restore_and_advance facts len m.csr }, ok tt)
finish facts (m, err e) = (record m { csr = restore_all facts m.csr }, err e)

-- `with_trap_facts`.
unfoldable pub with_trap_facts : (TrapFacts → M ℕ) → M (Unit {0})
with_trap_facts body m = let facts = capture m.csr in finish facts (body facts m)

-- `frame.write_x`.
abbrev pub write_register : ℕ → ℕ → M (Unit {0})
write_register rd v m = (record m { frame = write_x m.frame rd v }, ok tt)

unfoldable pub load_body : Platform → TrapFacts → M ℕ
load_body p facts = do
  (raw, len) ← fetch_mapped p facts.mepc
  op ← lift (decode_load p.decoder raw)
  raw_value ← read_value p.bus facts.mtval op.kind
  write_register op.rd (extend op.kind raw_value)
  pure len

unfoldable pub store_body : Platform → TrapFacts → M ℕ
store_body p facts = do
  (raw, len) ← fetch_mapped p facts.mepc
  op ← lift (decode_store p.decoder raw)
  value ← λ m. (m, ok (read_x m.frame op.rs2))
  write_value p.bus facts.mtval value op.kind
  pure len

abbrev pub or_unsupported : {A : Type 0} → Option A → Result A
or_unsupported (some a) = ok a
or_unsupported none = err unsupported_instruction

unfoldable pub dispatch_load_body : Platform → AccessDispatcher → TrapFacts → M ℕ
dispatch_load_body p d facts = do
  (raw, len) ← fetch_mapped p facts.mepc
  op ← lift (decode_load p.decoder raw)
  raw_value ← lift (or_unsupported (d.load facts.mtval op.kind))
  write_register op.rd (extend op.kind raw_value)
  pure len

unfoldable pub dispatch_store_body : Platform → AccessDispatcher → TrapFacts → M ℕ
dispatch_store_body p d facts = do
  (raw, len) ← fetch_mapped p facts.mepc
  op ← lift (decode_store p.decoder raw)
  value ← λ m. (m, ok (read_x m.frame op.rs2))
  (if d.store facts.mtval op.kind value then pure tt else fail unsupported_instruction)
  pure len

-- The common opening: `reject_machine_origin(frame)?`.
abbrev pub from_below : M (Unit {0}) → M (Unit {0})
from_below act m = bind_result m (reject_machine_origin m.frame) (λ _. act)

unfoldable pub emulate_load : Platform → M (Unit {0})
emulate_load p = from_below (with_trap_facts (load_body p))

unfoldable pub emulate_store : Platform → M (Unit {0})
emulate_store p = from_below (with_trap_facts (store_body p))

unfoldable pub dispatch_with :
    (AccessDispatcher → TrapFacts → M ℕ) → Option AccessDispatcher → M (Unit {0})
dispatch_with body (some d) = with_trap_facts (body d)
dispatch_with body none = fail unsupported_instruction

unfoldable pub dispatch_load_fault : Platform → M (Unit {0})
dispatch_load_fault p = from_below (dispatch_with (dispatch_load_body p) p.dispatcher)

unfoldable pub dispatch_store_fault : Platform → M (Unit {0})
dispatch_store_fault p = from_below (dispatch_with (dispatch_store_body p) p.dispatcher)

-- `device_counter_word`.
unfoldable pub device_counter_word : Option TimerDevice → ℕ → Option ℕ
device_counter_word none csr = none
device_counter_word (some t) csr = if csr == csr_time then t.read_time_low else none

-- `machine_time`.
unfoldable pub machine_time : Option TimerDevice → Option ℕ
machine_time none = none
machine_time (some t) = t.read_time

-- The platform's time source, once the guarded read has failed.
abbrev pub time_or_unsupported : Platform → Machine × Result ℕ → Machine × Result ℕ
time_or_unsupported p (m, ok v) = (m, ok v)
time_or_unsupported p (m, err e) = (m, or_unsupported (machine_time p.timer))

abbrev pub probed_counter : Platform → ℕ → M ℕ
probed_counter p csr m =
    if csr == csr_time
    then time_or_unsupported p (read_csr_guarded p.csr_fault p.time_csr m)
    else (m, err unsupported_instruction)

abbrev pub counter_or : Option ℕ → M ℕ → M ℕ
counter_or (some v) other = pure v
counter_or none other = other

-- `counter_word`.
unfoldable pub counter_word : Platform → ℕ → M ℕ
counter_word p csr = counter_or (device_counter_word p.timer csr) (probed_counter p csr)

-- The end of `emulate_csr_read`, on the encoding and the length of the instruction.
unfoldable pub csr_read_fetched : Platform → ℕ × ℕ → M ℕ
csr_read_fetched p (raw, len) = do
  op ← lift (decode_csr_read p.decoder raw)
  value ← counter_word p op.csr
  write_register op.rd value
  pure len

unfoldable pub csr_read_body : Platform → ℕ → TrapFacts → M ℕ
csr_read_body p raw facts =
    (if bit_and raw 3 == 3 then pure (raw, 4) else fetch_mapped p facts.mepc) >>= csr_read_fetched p

-- Register `rd` gets the value of the device's counter, and the instruction is skipped.
abbrev pub commit_counter : ℕ → ℕ → Machine → Machine
commit_counter rd value m = record m {
  frame = write_x m.frame rd value;
  csr = record m.csr { mepc = (m.frame.mepc + 4) % 2 ^ 64 };
}

abbrev pub rd_of : ℕ → ℕ
rd_of raw = bit_and (raw / 2 ^ 7) 31

-- `(raw >> 20) as u16` of a `u32`.
abbrev pub csr_of : ℕ → ℕ
csr_of raw = raw / 2 ^ 20

-- The device's counter that a pure CSR read of it asks for.
unfoldable pub direct_counter : Platform → ℕ → Option ℕ
direct_counter p raw =
    if bit_and raw csr_read_mask == csr_read_match
    then device_counter_word p.timer (csr_of raw)
    else none

abbrev pub csr_read_or : Option ℕ → Platform → ℕ → M (Unit {0})
csr_read_or (some value) p raw m = (commit_counter (rd_of raw) value m, ok tt)
csr_read_or none p raw m = with_trap_facts (csr_read_body p raw) m

abbrev pub csr_read_raw : Platform → ℕ → M (Unit {0})
csr_read_raw p raw = csr_read_or (direct_counter p raw) p raw

-- `emulate_csr_read`.
unfoldable pub emulate_csr_read : Platform → M (Unit {0})
emulate_csr_read p = from_below (λ m. csr_read_raw p (m.frame.mtval % 2 ^ 32) m)
