-- ===== src/Trap/Handling/Examples.antt =====
-- A supervisor that loads a misaligned word, reads the time, calls the firmware or is started.
use rustsbi.Base.{
  ℕ, List, ◌∷◌, ◌+◌, ◌-◌, ◌*◌, ◌/◌, ◌%◌, ◌^◌, ◌<◌, ◌≡◌, refl, ◌≢◌, inl, true, false, none, some, [],
  arith, ◌==◌, if◌then◌else◌,
}
use rustsbi.Spec.Ret.{success}
use rustsbi.Hart.{HartStateCell, NextStage, Devices, new_cell, requests, start, accepted, wake}
use rustsbi.Trap.{TrapFrame, read_x, Csrs, Machine, ok, trapped_from_machine, write_x}
use rustsbi.Trap.Decode.{
  signed16, signed64, width, extend, Decoder, decode_load, load_of, ld, csrrs,
}
use rustsbi.Trap.Guarded.{Bus, fetch, fetch_rest, read_u16, read_value, write_value}
use rustsbi.Trap.Guarded.Bytes.{word, place, IsBytes, read_value-write_value}
use rustsbi.Trap.Emulate.{Platform, emulate_load, device_counter_word}
use rustsbi.Trap.Emulate.Values.{emulate_load-loads}
use rustsbi.Trap.Redirect.{
  StatusView, field, weight_sie, redirect_trap, mpp_of, address, supervisor,
}
use rustsbi.Trap.Redirect.Delivery.{IsView, redirect_trap-sret, sret_mode, sret_status}
use rustsbi.Trap.Handling.{
  Context, Firmware, returns, trap_dispatch, try_fast_emulate_time, interrupt_bit,
}
use rustsbi.Trap.Handling.Fast.{try_fast_emulate_time_lem, is_unsaved, IsFilled, fast_return}
use rustsbi.Trap.Handling.Ecall.{Answers, sbi_ecall-Answers}
use rustsbi.Trap.Handling.Entry.{Enters, trap_dispatch-Enters}

-- `ld a0, 0(a0)` and `rdtime a0`.
abbrev ld_a0 : ℕ
ld_a0 = 0x0005_3503

abbrev rdtime_a0 : ℕ
rdtime_a0 = 0xC010_2573

abbrev decoder : Decoder
decoder = record {
  decode = λ raw.
      if raw == ld_a0
      then some (ld 10)
      else if raw == rdtime_a0
      then some (csrrs 0xC01 10)
      else none;
  instruction_length = λ _. 4;
}

abbrev quiet : Bus
quiet = record { read_u8_fault = λ _. none; read_u16_fault = λ _. none; write_u8_fault = λ _. none }

abbrev ram : ℕ → ℕ
ram a =
    if a == 0x8000_0000
    then 0x03
    else if a == 0x8000_0001
    then 0x35
    else if a == 0x8000_0002
    then 0x05
    else if a == 0x1008
    then 0x80
    else 0

abbrev platform : Platform
platform = record {
  decoder = decoder;
  bus = quiet;
  dispatcher = none;
  timer = some (record { read_time = none; read_time_low = some 1234 });
  time_csr = none;
  csr_fault = record { cause = 2; tval = 0; resume = 4 };
}

abbrev frame_of : ℕ → ℕ → TrapFrame
frame_of cause tval = record {
  x = λ i. i + 1;
  mepc = 0x8000_0000;
  mstatus = 0x802;
  mcause = cause;
  mtval = tval;
}

abbrev csrs_of : ℕ → ℕ → Csrs
csrs_of cause tval = record {
  mepc = 0x8000_0000;
  mstatus = 0x802;
  mcause = cause;
  mtval = tval;
  sepc = 0;
  scause = 0;
  stval = 0;
  stvec = 0x9000_0001;
  satp = 0;
  sie = 0;
  mie = 0;
  mip = 0;
}

abbrev trapped : ℕ → ℕ → Machine
trapped cause tval = record { frame = frame_of cause tval; csr = csrs_of cause tval; mem = ram }

-- `sstatus` as the three bits that are used here.
abbrev view : StatusView
view = record {
  read = λ s. s / 2 % 2 * 2 + s / 32 % 2 * 32;
  write = λ s b. s - s / 2 % 2 * 2 - s / 32 % 2 * 32 + b / 2 % 2 * 2 + b / 32 % 2 * 32;
}

view-IsView : IsView view
view-IsView = record {
  read_sie = λ s. omega arith;
  write_sie = λ s b. omega arith;
  write_spie = λ s b. omega arith;
  write_mpp = λ s b. omega arith;
}

abbrev digest : List ℕ → ℕ
digest [] = 0
digest (x ∷ xs) = x + 32 * digest xs

abbrev call_digest : ℕ
call_digest = digest (17 ∷ 16 ∷ 10 ∷ 11 ∷ 12 ∷ 13 ∷ 14 ∷ 15 ∷ [])

abbrev firmware : Firmware
firmware = record {
  platform = platform;
  view = view;
  policy = λ ext fid args csr cell. (csr, cell, success (digest (ext ∷ fid ∷ args)));
  counters = true;
  ipi = some true;
  deliver = some (λ csr. csr);
  irq = none;
  has_sstc = true;
  current_hart = 3;
}

abbrev context : HartStateCell → ℕ → ℕ → Context
context cell cause tval = record { machine = trapped cause tval; cell = cell; events = [] }

ram-IsBytes : IsBytes ram
ram-IsBytes a = ground arith

far : (j : ℕ) → j < width signed16 → 0x2000 ≢ place 0x1001 j
unfolding width
far j h = omega arith

read_value-write_value_example :
    (m' : Machine) × (write_value quiet 0x1001 0xabcde signed16 (trapped 6 0x1001) ≡ (m', ok tt))
    × (read_value quiet 0x1001 signed16 m' ≡ (m', ok (0xabcde % 2 ^ (8 * width signed16))))
    × (m'.mem 0x2000 ≡ ram 0x2000)
read_value-write_value_example =
    read_value-write_value quiet 0x1001 0xabcde signed16 (trapped 6 0x1001) 0x2000 ram-IsBytes far
      (λ j h. refl) (λ j h. refl)

from_below : (cause tval : ℕ) → trapped_from_machine (frame_of cause tval) ≡ false
unfolding trapped_from_machine
from_below cause tval = refl

fetched : fetch decoder quiet 0x8000_0000 (trapped 4 0x1001) ≡ (trapped 4 0x1001, ok (ld_a0, 4))
unfolding fetch fetch_rest read_u16
fetched = refl

decoded : decode_load decoder ld_a0 ≡ ok (record { rd = 10; kind = signed64 })
unfolding decode_load load_of
decoded = refl

emulate_load-loads_example : emulate_load platform (trapped 4 0x1001) ≡ (
  record (trapped 4 0x1001) {
    frame = write_x (frame_of 4 0x1001) 10 (extend signed64 (word ram 0x1001 (width signed64)));
    csr = record (csrs_of 4 0x1001) { mepc = (0x8000_0000 + 4) % 2 ^ 64 };
  },
  ok tt,
)
emulate_load-loads_example =
    emulate_load-loads platform (trapped 4 0x1001) ld_a0 4 (record { rd = 10; kind = signed64 })
      (from_below 4 0x1001) fetched decoded ram-IsBytes (λ j h. refl)

redirect_trap-sret_example :
    (c' : Csrs) × (redirect_trap view (some (5, 0x1007)) (csrs_of 4 0x1001) ≡ some c')
    × (mpp_of c'.mstatus ≡ supervisor)
    × (c'.mepc ≡ address 0x9000_0001)
    × (field weight_sie 2 c'.mstatus ≡ 0)
    × (c'.sepc ≡ 0x8000_0000)
    × (c'.scause ≡ 5)
    × (c'.stval ≡ 0x1007)
    × (sret_mode c'.mstatus ≡ mpp_of 0x802)
    × (field weight_sie 2 (sret_status c'.mstatus) ≡ field weight_sie 2 0x802)
redirect_trap-sret_example =
    redirect_trap-sret view (some (5, 0x1007)) (csrs_of 4 0x1001) view-IsView (omega arith)

-- The slots of s0 to s11 hold what an earlier trap left.
abbrev stale : TrapFrame
stale = record (frame_of 2 rdtime_a0) { x = λ i. if is_unsaved (i + 1) then 99 else i + 1 }

abbrev entered : Context
entered = record (context new_cell 2 rdtime_a0) {
  machine = record (trapped 2 rdtime_a0) { frame = stale };
}

stale-IsFilled : IsFilled (frame_of 2 rdtime_a0) stale
unfolding read_x
stale-IsFilled = (refl, refl, refl, refl, λ i h. ground arith)

fast : (c' : Context) × (try_fast_emulate_time firmware entered ≡ some c')
unfolding try_fast_emulate_time device_counter_word
fast = (_, refl)

try_fast_emulate_time_lem_example :
    (full : Context) × (trap_dispatch firmware (context new_cell 2 rdtime_a0) ≡ returns full)
    × ((i : ℕ)
        → fast_return (frame_of 2 rdtime_a0) fast.0.machine.frame i ≡ read_x full.machine.frame i)
    × (fast.0.machine.csr ≡ full.machine.csr)
    × (fast.0.machine.mem ≡ full.machine.mem)
    × (fast.0.cell ≡ full.cell)
    × (fast.0.events ≡ full.events)
try_fast_emulate_time_lem_example =
    try_fast_emulate_time_lem firmware (context new_cell 2 rdtime_a0) fast.0 stale stale-IsFilled
      fast.1

registers :
    firmware.policy
      (read_x (frame_of 9 0) 17)
      (read_x (frame_of 9 0) 16)
      (read_x (frame_of 9 0) 10
        ∷ read_x (frame_of 9 0) 11
        ∷ read_x (frame_of 9 0) 12
        ∷ read_x (frame_of 9 0) 13
        ∷ read_x (frame_of 9 0) 14
        ∷ read_x (frame_of 9 0) 15
        ∷ [])
      (csrs_of 9 0)
      new_cell
    ≡ (csrs_of 9 0, new_cell, success call_digest)
unfolding read_x
registers = refl

sbi_ecall-Answers_example :
    (c' : Context) × (trap_dispatch firmware (context new_cell 9 0) ≡ returns c')
    × Answers (frame_of 9 0) c'.machine.frame (success call_digest)
    × (c'.machine.mem ≡ ram)
    × (c'.cell ≡ new_cell)
    × (c'.machine.csr ≡ record (csrs_of 9 0) { mepc = (0x8000_0000 + 4) % 2 ^ 64 })
sbi_ecall-Answers_example =
    sbi_ecall-Answers firmware (context new_cell 9 0) (csrs_of 9 0) new_cell (success call_digest)
      refl (from_below 9 0) registers refl

abbrev linux : NextStage
linux = record { start_addr = 0x8020_0000; opaque = 0x8700_0000 }

abbrev devices : Devices
devices = record { hardware = requests; ipi = none }

starts : (start devices new_cell linux).1 ≡ accepted
unfolding start wake
starts = refl

abbrev woken : Context
woken = context (start devices new_cell linux).0 (interrupt_bit + 3) 0

trap_dispatch-Enters_example :
    (c' : Context) × (trap_dispatch firmware woken ≡ returns c')
    × (c'.machine.mem ≡ ram)
    × Enters 3 linux c'.machine
trap_dispatch-Enters_example =
    trap_dispatch-Enters firmware woken devices new_cell linux (λ csr. csr) starts refl
      (inl (refl, refl)) refl
