-- ===== src/Trap/Handling/Entry.antt =====
-- A hart that was started enters its stage, whichever interrupt wakes it.
use rustsbi.Base.{
  ℕ, ◌+◌, bit_and, ◌≡◌, refl, ap, ◌∙◌, ◌⊎◌, inl, inr, Bool, true, false, Option, some, arith, ◌==◌,
  if◌then◌else◌, set,
}
use rustsbi.Base.Words.{not_word}
use rustsbi.Hart.{
  HartStateCell, NextStage, Devices, accepted, stopped, start, take_local_event, start_event, Phase,
}
use rustsbi.Trap.{Csrs, Machine, read_x, write_x}
use rustsbi.Trap.Redirect.{
  mpp_of, field, set_field, weight_sie, weight_mpie, weight_mpp, supervisor,
}
use rustsbi.Trap.Handling.{
  Context, Firmware, returns, trap_dispatch, dispatch_interrupt, machine_soft, machine_external,
  deliver_and_act, deliver_then, act_on, enter_next_stage, stage_next_mode, interrupt_bit, with_csr,
}

-- The state in which a stage is entered: supervisor mode at the address of the stage after the
-- return from the trap, interrupts of the stage disabled and those of the firmware enabled on
-- return, no translation, and registers that are 0 but for the hart's number and the stage's word.
abbrev pub Enters : ℕ → NextStage → Machine → Type 0
Enters hart next m =
    (m.csr.mepc ≡ next.start_addr)
    × (mpp_of m.csr.mstatus ≡ supervisor)
    × (field weight_sie 2 m.csr.mstatus ≡ 0)
    × (field weight_mpie 2 m.csr.mstatus ≡ 1)
    × (m.csr.satp ≡ 0)
    × (m.csr.sie ≡ 0)
    × ((i : ℕ) → read_x m.frame i ≡ (if i == 10 then hart else if i == 11 then next.opaque else 0))

set_sie : (s : ℕ) → field weight_sie 2 (set_field weight_sie 2 0 s) ≡ 0
set_sie s = omega arith

set_mpie :
    (s : ℕ)
    → let t : ℕ = set_field weight_mpie 2 1 s in
      (field weight_mpie 2 t ≡ 1) × (field weight_sie 2 t ≡ field weight_sie 2 s)
set_mpie s = omega arith

set_mpp :
    (s : ℕ)
    → let t : ℕ = set_field weight_mpp 4 supervisor s in
      (mpp_of t ≡ supervisor)
      × (field weight_sie 2 t ≡ field weight_sie 2 s)
      × (field weight_mpie 2 t ≡ field weight_mpie 2 s)
set_mpp s = omega arith

staged_status :
    (s : ℕ)
    → let t : ℕ =
        set_field weight_mpp 4 supervisor
          (set_field weight_mpie 2 1 (set_field weight_sie 2 0 s)) in
      (mpp_of t ≡ supervisor) × (field weight_sie 2 t ≡ 0) × (field weight_mpie 2 t ≡ 1)
staged_status s =
    let a = set_sie s in
    let b = set_mpie (set_field weight_sie 2 0 s) in
    let c = set_mpp (set_field weight_mpie 2 1 (set_field weight_sie 2 0 s)) in
    (c.0, c.1 ∙ b.1 ∙ a, c.2 ∙ b.0)

enter_next_stage-Enters :
    (f : Firmware) (next : NextStage) (c : Context)
    → Enters f.current_hart next (enter_next_stage f next c).machine
unfolding enter_next_stage stage_next_mode read_x write_x
enter_next_stage-Enters f next c =
    let status = staged_status c.machine.csr.mstatus in
    (refl, status.0, status.1, status.2, refl, refl, λ i. ground arith)

-- A cell whose start was accepted hands its stage to the hart.
hands_out :
    (d : Devices) (phase : Phase) (stage transfer : Option NextStage) (next : NextStage)
    → let cell : HartStateCell = record { phase = phase; stage = stage; transfer = transfer } in
      (start d cell next).1 ≡ accepted
      → (take_local_event (start d cell next).0).1 ≡ start_event next
unfolding start take_local_event
hands_out d stopped stage transfer next h = ground arith
hands_out d phase stage transfer next h = absurd cc

module _ (f : Firmware) (c : Context) (next : NextStage) (work : Csrs → Csrs) where
  deliver_and_act-Enters :
      (external : Bool)
      → f.deliver ≡ some work
      → (take_local_event c.cell).1 ≡ start_event next
      → (c' : Context) × (deliver_and_act f external c ≡ returns c')
        × (c'.machine.mem ≡ c.machine.mem)
        × Enters f.current_hart next c'.machine
  unfolding deliver_and_act act_on enter_next_stage
  deliver_and_act-Enters external published event =
      let worked : Context =
        with_csr (record c { cell = (take_local_event c.cell).0 }) (work c.machine.csr) in
      (
        enter_next_stage f next worked,
        ap
              (λ e.
                deliver_then f external e f.deliver
                  (record c { cell = (take_local_event c.cell).0 }))
              event
            ∙ rw published refl,
        refl,
        enter_next_stage-Enters f next worked,
      )

-- The interrupts that wake a hart: the software interrupt, whose source the device can clear, and
-- an external one that the controller claims as such.
abbrev pub Wakes : Firmware → ℕ → Type 0
Wakes f code =
    ((code ≡ interrupt_bit + 3) × (f.ipi ≡ some true))
    ⊎ ((code ≡ interrupt_bit + 11) × (f.irq ≡ some true))

dispatch_interrupt_of :
    (f : Firmware) (c : Context) (k : ℕ)
    → c.machine.frame.mcause ≡ k
    → (bit_and k interrupt_bit == 0) ≡ false
    → trap_dispatch f c ≡ dispatch_interrupt f (bit_and k (not_word 64 interrupt_bit)) c
unfolding trap_dispatch
dispatch_interrupt_of f c k cause set =
    let code : (bit_and c.machine.frame.mcause interrupt_bit == 0) ≡ false =
      ap (λ (t : ℕ). bit_and t interrupt_bit == 0) cause ∙ set in
    rw code (ap (λ (t : ℕ). dispatch_interrupt f (bit_and t (not_word 64 interrupt_bit)) c) cause)

Wakes-acts :
    (f : Firmware) (c : Context)
    → Wakes f c.machine.frame.mcause
    → (external : Bool) × (trap_dispatch f c ≡ deliver_and_act f external c)
unfolding dispatch_interrupt machine_soft machine_external
Wakes-acts f c (inl (cause, ready)) =
    (false, dispatch_interrupt_of f c (interrupt_bit + 3) cause refl ∙ rw ready refl)
Wakes-acts f c (inr (cause, claimed)) =
    (true, dispatch_interrupt_of f c (interrupt_bit + 11) cause refl ∙ rw claimed refl)

-- Once a start of a hart has been accepted, the next interrupt that wakes the hart takes it to the
-- stage that was asked for: the trap returns into supervisor mode at its address with `a0` and
-- `a1` as promised, every other register cleared, translation and interrupts off, and the memory
-- as it was, whatever work was pending.
pub trap_dispatch-Enters :
    (f : Firmware) (c : Context) (d : Devices) (old : HartStateCell) (next : NextStage)
    → (work : Csrs → Csrs) → (start d old next).1 ≡ accepted
    → c.cell ≡ (start d old next).0
    → Wakes f c.machine.frame.mcause
    → f.deliver ≡ some work
    → (c' : Context) × (trap_dispatch f c ≡ returns c')
      × (c'.machine.mem ≡ c.machine.mem)
      × Enters f.current_hart next c'.machine
trap_dispatch-Enters f c d old next work taken cell woken published =
    let event : (take_local_event c.cell).1 ≡ start_event next =
      ap (λ (h : HartStateCell). (take_local_event h).1) cell
      ∙ hands_out d old.phase old.stage old.transfer next taken in
    let (external, acts) = Wakes-acts f c woken in
    let (c', done, kept, enters) = deliver_and_act-Enters f c next work external published event in
    (c', acts ∙ done, kept, enters)
