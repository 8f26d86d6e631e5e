-- ===== src/Trap/Emulate/Values.antt =====
-- What a completed emulation puts into the destination register.
use rustsbi.Base.{◌≢◌, ◌⊎◌, ℕ, ◌+◌, ◌%◌, ◌^◌, bit_and, ◌≡◌, refl, ◌∙◌, false, Option, none, some}
use rustsbi.Trap.{Machine, Result, ok, err, trapped_from_machine, write_x, unsupported_instruction}
use rustsbi.Trap.Decode.{width, extend, LoadOp, decode_load}
use rustsbi.Trap.Guarded.{fetch}
use rustsbi.Trap.Guarded.Bytes.{word, IsBytes, Readable, read_value_lem}
use rustsbi.Trap.Emulate.{
  Platform, TimerDevice, capture, restore, restore_and_advance, finish, with_trap_facts,
  fetch_mapped, load_body, emulate_load, machine_time, commit_counter,
}
use rustsbi.Trap.Emulate.Outcomes.{from_below_lem}

-- A misaligned load from user or supervisor mode, whose instruction can be fetched and decoded and
-- whose bytes can be read, completes: the destination register gets the little-endian value of the
-- bytes at the faulting address, extended to 64 bits as its kind says, `mepc` is moved behind the
-- instruction, and the memory and all other registers and CSRs are as before.
pub emulate_load-loads :
    (p : Platform) (m : Machine) (raw len : ℕ) (op : LoadOp)
    → trapped_from_machine m.frame ≡ false
    → fetch p.decoder p.bus m.csr.mepc m ≡ (m, ok (raw, len))
    → decode_load p.decoder raw ≡ ok op
    → IsBytes m.mem
    → Readable p.bus m.csr.mtval (width op.kind)
    → emulate_load p m ≡ (
      record m {
        frame = write_x m.frame op.rd (extend op.kind (word m.mem m.csr.mtval (width op.kind)));
        csr = record m.csr { mepc = (m.csr.mepc + len) % 2 ^ 64 };
      },
      ok tt,
    )
unfolding emulate_load with_trap_facts load_body fetch_mapped capture finish restore_and_advance
    restore
emulate_load-loads p m raw len op below fetched decoded bytes readable =
    from_below_lem (with_trap_facts (load_body p)) m below
    ∙ rw (fetched, decoded, read_value_lem p.bus m.csr.mtval op.kind m bytes readable) refl

abbrev or_else : Option ℕ → Option ℕ → Option ℕ
or_else (some v) o = some v
or_else none o = o

abbrev low_word : Option TimerDevice → Option ℕ
low_word none = none
low_word (some t) = t.read_time_low

-- The counter that a read of `time` shows: the device's word, else the architecture's counter,
-- else the device's time.
abbrev pub time_source : Platform → Option ℕ
time_source p = or_else (low_word p.timer) (or_else p.time_csr (machine_time p.timer))

abbrev pub AnswersTime : Platform → ℕ → Machine → Option ℕ → Machine × Result (Unit {0}) → Type 0
AnswersTime p rd m (some v) r = r ≡ (commit_counter rd v m, ok tt)
AnswersTime p rd m none r = r ≡ (m, err unsupported_instruction)

-- Where the instruction of an illegal-instruction trap is found: in `mtval`, or, if the two low
-- bits there are not those of a 32-bit instruction, by a fetch at `mepc` that does not fault.
abbrev pub IsInstruction : Platform → Machine → ℕ → Type 0
IsInstruction p m raw =
    (m.frame.mtval % 2 ^ 32 ≡ raw)
    ⊎ ((bit_and (m.frame.mtval % 2 ^ 32) 3 ≢ 3)
        × (fetch p.decoder p.bus m.csr.mepc m ≡ (m, ok (raw, 4))))
