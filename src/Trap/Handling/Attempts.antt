-- ===== src/Trap/Handling/Attempts.antt =====
-- How an exception may end, and what the firmware attempts for which cause.
use rustsbi.Base.{
  ◌&&◌, ℕ, ◌+◌, ◌*◌, ◌/◌, ◌%◌, ◌^◌, ◌<◌, bit_and, ◌≡◌, refl, ap, ◌∙◌, ◌≢◌, true, false, Option,
  none, some, arith, ◌==◌, if◌then◌else◌,
}
use rustsbi.Base.Words.{bit_and-low_ones, bit_and-shifted}
use rustsbi.Trap.{
  memory_fault, Csrs, Machine, Error, Result, ok, err, is_trapped_from_supervisor, mpp_mask,
}
use rustsbi.Trap.Emulate.Faults.{IsMet}
use rustsbi.Trap.Emulate.{
  Platform, dispatch_load_fault, dispatch_store_fault, emulate_load, emulate_store,
  emulate_csr_read,
}
use rustsbi.Trap.Emulate.Restore.{IsLength}
use rustsbi.Trap.Redirect.{StatusView, redirected_status, address, mpp_of}
use rustsbi.Trap.Handling.{Context, Firmware, Handled, returns}

-- The frame was saved from the live CSRs, and the trap is an exception from user or supervisor
-- mode.
abbrev pub IsException : Context → Type 0
IsException c =
    let m = c.machine in
    (m.frame.mepc ≡ m.csr.mepc)
    × (m.frame.mstatus ≡ m.csr.mstatus)
    × (mpp_of m.csr.mstatus ≢ 3)
    × (m.frame.mcause < 2 ^ 63)

-- The instruction was carried out: only `mepc` differs, by the length of the instruction.
abbrev pub Skipped : Context → Context → Type 0
Skipped c c' =
    (len : ℕ) × IsLength len
    × (c'.machine.csr ≡ record c.machine.csr { mepc = (c.machine.csr.mepc + len) % 2 ^ 64 })

-- What the firmware tries to carry out itself: for an illegal instruction a read of a CSR, for a
-- misaligned access the access, and for an access fault of the supervisor an access to a device.
abbrev pub emulation : Platform → Machine → Option (Machine × Result (Unit {0}))
emulation p m =
    if m.frame.mcause == 2
    then some (emulate_csr_read p m)
    else if m.frame.mcause == 4
    then some (emulate_load p m)
    else if m.frame.mcause == 6
    then some (emulate_store p m)
    else if m.frame.mcause == 5 && is_trapped_from_supervisor m.frame
    then some (dispatch_load_fault p m)
    else if m.frame.mcause == 7 && is_trapped_from_supervisor m.frame
    then some (dispatch_store_fault p m)
    else none

-- The cause and the value that the supervisor is to see, for an error of an emulation: those of a
-- fault that it met, and else those of the trap.
abbrev pub cause_of : Csrs → Error → ℕ
cause_of csr (memory_fault cause tval) = cause
cause_of csr _ = csr.mcause

abbrev pub value_of : Csrs → Error → ℕ
value_of csr (memory_fault cause tval) = tval
value_of csr _ = csr.mtval

-- The supervisor's vector is entered with the registers of the trapped context, `sepc` at its
-- instruction, and a cause and a value.
abbrev pub Delivered : StatusView → Context → ℕ → ℕ → (ℕ → ℕ) → Context → Type 0
Delivered view c cause tval mem c' =
    let csr = c.machine.csr in
    (c'.machine.frame ≡ c.machine.frame)
    × (c'.machine.mem ≡ mem)
    × (c'.machine.csr ≡ record csr {
      sepc = csr.mepc;
      scause = cause;
      stval = tval;
      mstatus = redirected_status view csr.mstatus;
      mepc = address csr.stvec;
    })

abbrev pub Outcome : Firmware → Context → Option (Machine × Result (Unit {0})) → Context → Type 0
Outcome f c none c' = Delivered f.view c c.machine.csr.mcause c.machine.csr.mtval c.machine.mem c'
Outcome f c (some (m, ok _)) c' = (c'.machine ≡ m) × Skipped c c'
Outcome f c (some (m, err e)) c' =
    Delivered f.view c (cause_of c.machine.csr e) (value_of c.machine.csr e) m.mem c'
    × IsMet f.platform.bus e

abbrev pub Taken : Firmware → Context → Handled → Type 0
Taken f c r = (c' : Context) × (r ≡ returns c') × Outcome f c (emulation f.platform c.machine) c'

pub mpp-bits : (s : ℕ) → bit_and s mpp_mask ≡ mpp_of s * 2 ^ 11
mpp-bits s = bit_and-shifted 11 s 3 ∙ ap (λ (t : ℕ). t * 2 ^ 11) (bit_and-low_ones 2 (s / 2 ^ 11))

pub below_machine : (s : ℕ) → mpp_of s ≢ 3 → (bit_and s mpp_mask == 3 * 2 ^ 11) ≡ false
below_machine s h = ground (arith, mpp-bits s)

pub csr_attempt :
    (p : Platform) (m : Machine) → m.frame.mcause ≡ 2 → emulation p m ≡ some (emulate_csr_read p m)
csr_attempt p m why = let at : (m.frame.mcause == 2) ≡ true = ground arith in rw (at) refl

pub load_attempt :
    (p : Platform) (m : Machine) → m.frame.mcause ≡ 4 → emulation p m ≡ some (emulate_load p m)
load_attempt p m why =
    let n2 : (m.frame.mcause == 2) ≡ false = ground arith in
    let at : (m.frame.mcause == 4) ≡ true = ground arith in rw (n2, at) refl

pub store_attempt :
    (p : Platform) (m : Machine) → m.frame.mcause ≡ 6 → emulation p m ≡ some (emulate_store p m)
store_attempt p m why =
    let n2 : (m.frame.mcause == 2) ≡ false = ground arith in
    let n4 : (m.frame.mcause == 4) ≡ false = ground arith in
    let at : (m.frame.mcause == 6) ≡ true = ground arith in rw (n2, n4, at) refl

pub device_load :
    (p : Platform) (m : Machine)
    → m.frame.mcause ≡ 5
    → is_trapped_from_supervisor m.frame ≡ true
    → emulation p m ≡ some (dispatch_load_fault p m)
device_load p m why from =
    let n2 : (m.frame.mcause == 2) ≡ false = ground arith in
    let n4 : (m.frame.mcause == 4) ≡ false = ground arith in
    let n6 : (m.frame.mcause == 6) ≡ false = ground arith in
    let at : (m.frame.mcause == 5) ≡ true = ground arith in rw (n2, n4, n6, at, from) refl

pub user_load :
    (p : Platform) (m : Machine)
    → m.frame.mcause ≡ 5
    → is_trapped_from_supervisor m.frame ≡ false
    → emulation p m ≡ none
user_load p m why other =
    let n2 : (m.frame.mcause == 2) ≡ false = ground arith in
    let n4 : (m.frame.mcause == 4) ≡ false = ground arith in
    let n6 : (m.frame.mcause == 6) ≡ false = ground arith in
    let at : (m.frame.mcause == 5) ≡ true = ground arith in
    let n7 : (m.frame.mcause == 7) ≡ false = ground arith in rw (n2, n4, n6, at, other, n7) refl

pub device_store :
    (p : Platform) (m : Machine)
    → m.frame.mcause ≡ 7
    → is_trapped_from_supervisor m.frame ≡ true
    → emulation p m ≡ some (dispatch_store_fault p m)
device_store p m why from =
    let n2 : (m.frame.mcause == 2) ≡ false = ground arith in
    let n4 : (m.frame.mcause == 4) ≡ false = ground arith in
    let n6 : (m.frame.mcause == 6) ≡ false = ground arith in
    let n5 : (m.frame.mcause == 5) ≡ false = ground arith in
    let at : (m.frame.mcause == 7) ≡ true = ground arith in rw (n2, n4, n6, n5, at, from) refl

pub user_store :
    (p : Platform) (m : Machine)
    → m.frame.mcause ≡ 7
    → is_trapped_from_supervisor m.frame ≡ false
    → emulation p m ≡ none
user_store p m why other =
    let n2 : (m.frame.mcause == 2) ≡ false = ground arith in
    let n4 : (m.frame.mcause == 4) ≡ false = ground arith in
    let n6 : (m.frame.mcause == 6) ≡ false = ground arith in
    let n5 : (m.frame.mcause == 5) ≡ false = ground arith in
    let at : (m.frame.mcause == 7) ≡ true = ground arith in rw (n2, n4, n6, n5, at, other) refl
