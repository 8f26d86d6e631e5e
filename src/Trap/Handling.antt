-- ===== src/Trap/Handling.antt =====
-- firmware/runtime/src/trap/dispatch.rs: what is done with a trap. The SBI policy, the interrupt
-- devices and the handler of pending work are arguments; of the devices only the answers matter.
use rustsbi.Base.{
  ℕ, zero, suc, ◌+◌, ◌-◌, ◌*◌, ◌/◌, ◌%◌, ◌^◌, ◌≤◌, ◌<◌, min, max, bit_and, bit_or, ◌≡◌, refl, sym,
  ap, ◌∙◌, subst, ◌≢◌, ◌↔◌, ◌⊎◌, inl, inr, Bool, true, false, not, ◌&&◌, ◌||◌, Option, none, some,
  List, [], ◌∷◌, ◌++◌, map, arith, ltb, leb, ◌==◌, if◌then◌else◌, ltb→lt, leb→le, ==_iff,
  Bool-cases, Option-cases, length, get_elem?, set, All, length-append, length-map, All-append,
  elem,
}
use rustsbi.Base.Words.{not_word}
use rustsbi.Spec.Ret.{SbiRet}
use rustsbi.Hart.{
  HartStateCell, NextStage, HartEvent, take_local_event, take_control_transfer, start_event, park,
  no_event, spins, broken,
}
use rustsbi.Trap.{
  TrapFrame, Csrs, Machine, Error, Result, ok, err, memory_fault, read_x, write_x,
  trapped_from_machine, is_trapped_from_supervisor,
}
use rustsbi.Trap.Decode.{csr_read_mask, csr_read_match}
use rustsbi.Trap.Emulate.{
  Platform, device_counter_word, emulate_load, emulate_store, dispatch_load_fault,
  dispatch_store_fault, emulate_csr_read, commit_counter, rd_of, csr_of,
}
use rustsbi.Trap.Redirect.{
  StatusView, redirect_trap, set_field, weight_sie, weight_mpie, weight_mpp, supervisor,
}
pub mod Attempts
pub mod Exceptions
pub mod Ecall
pub mod Fast
pub mod Entry
mod Examples

-- events.rs: what is counted.
pub data TrapEvent : Type 0 where
  illegal misaligned_load misaligned_store access_load access_store : TrapEvent

-- A hart in a trap: its machine state, its lifecycle cell and the events counted so far.
pub record Context : Type 0 where
  pub machine : Machine
  pub cell : HartStateCell
  pub events : List TrapEvent

-- `policy` is the SBI call handler, which may change the CSRs and the cell but never the frame.
-- `ipi` says whether the published IPI device can clear its source, `deliver` what the published
-- handler of pending work does to the CSRs, and `irq` whether the published external controller
-- claims an IPI.
pub record Firmware : Type 0 where
  pub platform : Platform
  pub view : StatusView
  pub policy : ℕ → ℕ → List ℕ → Csrs → HartStateCell → Csrs × HartStateCell × SbiRet
  pub counters : Bool
  pub ipi : Option Bool
  pub deliver : Option (Csrs → Csrs)
  pub irq : Option Bool
  pub has_sstc : Bool
  pub current_hart : ℕ

-- How a trap ends: back in the trapped context, in the fail-stop vector, in a panic, or in a loop
-- that waits for another hart.
pub data Handled : Type 0 where
  returns : Context → Handled
  fatal panics waits : Handled

abbrev pub interrupt_bit : ℕ
interrupt_bit = 2 ^ 63

abbrev pub msie : ℕ
msie = 2 ^ 3

abbrev pub mtie : ℕ
mtie = 2 ^ 7

abbrev pub meie : ℕ
meie = 2 ^ 11

abbrev pub stip : ℕ
stip = 2 ^ 5

abbrev pub with_csr : Context → Csrs → Context
with_csr c csr = record c { machine = record c.machine { csr = csr } }

abbrev pub with_frame : Context → TrapFrame → Context
with_frame c f = record c { machine = record c.machine { frame = f } }

abbrev pub count : Firmware → TrapEvent → Context → Context
count f e c = if f.counters then record c { events = e ∷ c.events } else c

-- The fault of a failed emulation, if it has one of its own.
abbrev pub secondary_of : Option Error → Option (ℕ × ℕ)
secondary_of (some (memory_fault cause tval)) = some (cause, tval)
secondary_of _ = none

abbrev returns_csr : Context → Option Csrs → Handled
returns_csr c (some csr) = returns (with_csr c csr)
returns_csr c none = fatal

-- `redirect_or_fatal`.
unfoldable pub redirect_or_fatal : Firmware → Option Error → Context → Handled
redirect_or_fatal f e c = returns_csr c (redirect_trap f.view (secondary_of e) c.machine.csr)

unfoldable pub or_redirect : Firmware → Context → Machine × Result (Unit {0}) → Handled
or_redirect f c (m, ok _) = returns (record c { machine = m })
or_redirect f c (m, err e) = redirect_or_fatal f (some e) (record c { machine = m })

-- `illegal_instruction`.
unfoldable pub illegal_instruction : Firmware → Context → Handled
illegal_instruction f c =
    let counted = count f illegal c in or_redirect f counted (emulate_csr_read f.platform c.machine)

pub data Access : Type 0 where
  load store : Access

-- `misaligned`.
unfoldable pub misaligned : Firmware → Access → Context → Handled
misaligned f load c = or_redirect f (count f misaligned_load c) (emulate_load f.platform c.machine)
misaligned f store c =
    or_redirect f (count f misaligned_store c) (emulate_store f.platform c.machine)

abbrev access_event : Access → TrapEvent
access_event load = access_load
access_event store = access_store

unfoldable pub dispatch_access : Platform → Access → Machine → Machine × Result (Unit {0})
dispatch_access p load m = dispatch_load_fault p m
dispatch_access p store m = dispatch_store_fault p m

-- `access_fault`.
unfoldable pub access_fault : Firmware → Access → Context → Handled
access_fault f a c =
    let counted = count f (access_event a) c in
    if not (is_trapped_from_supervisor c.machine.frame)
    then redirect_or_fatal f none counted
    else or_redirect f counted (dispatch_access f.platform a c.machine)

-- `stage_smode_trap_state`.
unfoldable pub stage_smode_trap_state : Csrs → Csrs
stage_smode_trap_state csr = record csr {
  sie = 0;
  mstatus = set_field weight_sie 2 0 csr.mstatus;
  satp = 0;
}

abbrev enable_if : Bool → ℕ → ℕ → ℕ
enable_if b bits mie = if b then bit_or mie bits else mie

abbrev is_some : Option Bool → Bool
is_some (some _) = true
is_some none = false

-- `stage_next_mode`.
unfoldable pub stage_next_mode : Firmware → ℕ → ℕ → Csrs → Csrs
unfolding stage_smode_trap_state
stage_next_mode f start_addr mode csr = record (stage_smode_trap_state csr) {
  mstatus =
      set_field weight_mpp 4 mode
        (set_field weight_mpie 2 1 (set_field weight_sie 2 0 csr.mstatus));
  mie = enable_if (not f.has_sstc) mtie (enable_if (is_some f.irq) meie (bit_or csr.mie msie));
  mepc = start_addr;
}

-- `frame.x.fill(0)`, then the two arguments of the next stage.
abbrev pub entry_frame : ℕ → ℕ → TrapFrame → TrapFrame
entry_frame hart opaque f = write_x (write_x (record f { x = λ _. 0 }) 10 hart) 11 opaque

-- `enter_next_stage`; all stages enter supervisor mode.
unfoldable pub enter_next_stage : Firmware → NextStage → Context → Context
enter_next_stage f next c = record c {
  machine = record c.machine {
    csr = stage_next_mode f next.start_addr supervisor c.machine.csr;
    frame = entry_frame f.current_hart next.opaque c.machine.frame;
  };
}

-- The handoff that a successful non-retentive resume has staged.
unfoldable pub resume_staged : Firmware → Option NextStage → Context → Context
resume_staged f none c = c
resume_staged f (some next) c =
    let csr = stage_smode_trap_state c.machine.csr in
    record c {
      machine = record c.machine {
        csr = record csr {
          mstatus = set_field weight_mpp 4 supervisor csr.mstatus;
          mepc = next.start_addr;
        };
        frame = entry_frame f.current_hart next.opaque c.machine.frame;
      };
    }

abbrev params : TrapFrame → List ℕ
params fr =
    read_x fr 10 ∷ read_x fr 11 ∷ read_x fr 12 ∷ read_x fr 13 ∷ read_x fr 14 ∷ read_x fr 15 ∷ []

abbrev pub answer_of : Firmware → Context → Csrs × HartStateCell × SbiRet
answer_of f c =
    let fr = c.machine.frame in
    f.policy (read_x fr 17) (read_x fr 16) (params fr) c.machine.csr c.cell

-- The answer in the registers, and the call skipped.
abbrev pub answered : Context → Csrs × HartStateCell × SbiRet → Context
answered c (csr, cell, ret) = record c {
  machine = record c.machine {
    csr = record csr { mepc = (csr.mepc + 4) % 2 ^ 64 };
    frame = write_x (write_x c.machine.frame 10 ret.error) 11 ret.value;
  };
  cell = (take_control_transfer cell).0;
}

-- `sbi_ecall`.
unfoldable pub sbi_ecall : Firmware → Context → Context
sbi_ecall f c =
    let answer = answer_of f c in
    resume_staged f (take_control_transfer answer.1).1 (answered c answer)

-- What a hart does with the event that it took, after the pending work.
unfoldable pub act_on : Firmware → Bool → HartEvent → Context → Handled
act_on f external (start_event next) c = returns (enter_next_stage f next c)
act_on f external park c =
    let csr = c.machine.csr in
    returns (with_csr c (record csr { mie = enable_if external meie (bit_or csr.mie msie) }))
act_on f external no_event c = returns c
act_on f external spins c = waits
act_on f external broken c = panics

abbrev deliver_then : Firmware → Bool → HartEvent → Option (Csrs → Csrs) → Context → Handled
deliver_then f external event (some work) c =
    act_on f external event (with_csr c (work c.machine.csr))
deliver_then f external event none c = panics

-- `take_local_event`, which does not return while it spins and panics on a broken cell before any
-- work is delivered, then `deliver_current`, then the event.
unfoldable pub deliver_and_act : Firmware → Bool → Context → Handled
deliver_and_act f external c =
    let (cell, event) = take_local_event c.cell in
    deliver_then f external event f.deliver (record c { cell = cell })

-- `machine_soft`.
unfoldable pub machine_soft : Firmware → Context → Handled
machine_soft f c = elim f.ipi [
  | none ↦ panics
  | some cleared ↦ if cleared then deliver_and_act f false c else panics
]

-- `machine_timer`.
unfoldable pub machine_timer : Firmware → Context → Context
machine_timer f c =
    let csr = c.machine.csr in
    let masked = record csr { mie = bit_and csr.mie (not_word 64 mtie) } in
    with_csr c (if f.has_sstc then masked else record masked { mip = bit_or masked.mip stip })

-- `machine_external`.
unfoldable pub machine_external : Firmware → Context → Handled
machine_external f c = elim f.irq [
  | none ↦ returns c
  | some claimed ↦ if claimed then deliver_and_act f true c else returns c
]

unfoldable pub dispatch_interrupt : Firmware → ℕ → Context → Handled
dispatch_interrupt f interrupt c =
    if interrupt == 3
    then machine_soft f c
    else if interrupt == 7
    then returns (machine_timer f c)
    else if interrupt == 11
    then machine_external f c
    else fatal

unfoldable pub dispatch_exception : Firmware → ℕ → Context → Handled
dispatch_exception f code c =
    if code == 9
    then returns (sbi_ecall f c)
    else if code == 2
    then illegal_instruction f c
    else if code == 4
    then misaligned f load c
    else if code == 6
    then misaligned f store c
    else if code == 5
    then access_fault f load c
    else if code == 7
    then access_fault f store c
    else redirect_or_fatal f none c

-- `trap_dispatch`.
unfoldable pub trap_dispatch : Firmware → Context → Handled
trap_dispatch f c =
    let code = c.machine.frame.mcause in
    if not (bit_and code interrupt_bit == 0)
    then dispatch_interrupt f (bit_and code (not_word 64 interrupt_bit)) c
    else if trapped_from_machine c.machine.frame
    then fatal
    else dispatch_exception f code c

abbrev pub is_caller_saved : ℕ → Bool
is_caller_saved rd =
    rd == 0 || rd == 1 || leb 5 rd && leb rd 7 || leb 10 rd && leb rd 17 || leb 28 rd && leb rd 31

-- Whether the fast path may look at the device's counter.
abbrev pub is_fast_read : TrapFrame → Bool
is_fast_read fr =
    let inst = fr.mtval % 2 ^ 32 in
    fr.mcause == 2
    && not (bit_and fr.mstatus 0x1800 == 0x1800)
    && bit_and inst csr_read_mask == csr_read_match
    && is_caller_saved (rd_of inst)

abbrev fast_commit : Firmware → ℕ → Option ℕ → Context → Option Context
fast_commit f rd (some value) c =
    let counted = count f illegal c in
    some (record counted { machine = commit_counter rd value c.machine })
fast_commit f rd none c = none

-- `try_fast_emulate_time`: the state after it, or `none` for `false`, which leaves all as it was.
unfoldable pub try_fast_emulate_time : Firmware → Context → Option Context
try_fast_emulate_time f c =
    let inst = c.machine.frame.mtval % 2 ^ 32 in
    if not (is_fast_read c.machine.frame)
    then none
    else fast_commit f (rd_of inst) (device_counter_word f.platform.timer (csr_of inst)) c
