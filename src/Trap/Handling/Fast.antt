-- ===== src/Trap/Handling/Fast.antt =====
-- The fast path of a time read does what the full path does.
use rustsbi.Base.{
  ◌+◌, subst, ==_iff, ◌&&◌, ◌||◌, leb, Bool, if◌then◌else◌, ℕ, ◌%◌, ◌^◌, bit_and, ◌≡◌, refl, sym,
  ap, ◌∙◌, inl, inr, true, false, Option, none, some, arith, ◌==◌, Bool-cases,
}
use rustsbi.Trap.{read_x, write_x, TrapFrame, Machine, ok, trapped_from_machine}
use rustsbi.Trap.Decode.{csr_read_mask, csr_read_match}
use rustsbi.Trap.Emulate.{
  Platform, device_counter_word, emulate_csr_read, commit_counter, rd_of, csr_of, direct_counter,
}
use rustsbi.Trap.Emulate.Outcomes.{from_below_lem}
use rustsbi.Trap.Handling.{
  is_caller_saved, Context, Firmware, returns, illegal, count, or_redirect, illegal_instruction,
  trap_dispatch, dispatch_exception, try_fast_emulate_time, is_fast_read, fast_commit,
}

-- The facts behind a fast read.
fast_read_facts :
    (fr : TrapFrame)
    → is_fast_read fr ≡ true
    → (fr.mcause ≡ 2)
      × (trapped_from_machine fr ≡ false)
      × ((bit_and (fr.mtval % 2 ^ 32) csr_read_mask == csr_read_match) ≡ true)
unfolding trapped_from_machine
fast_read_facts fr h = ground arith

fast_commit-some :
    (f : Firmware) (rd : ℕ) (o : Option ℕ) (c c' : Context)
    → fast_commit f rd o c ≡ some c'
    → (v : ℕ) × (o ≡ some v)
      × (c' ≡ record (count f illegal c) { machine = commit_counter rd v c.machine })
fast_commit-some f rd none c c' h = absurd cc
fast_commit-some f rd (some v) c c' h = (v, refl, ground arith)

direct_read :
    (p : Platform) (m : Machine) (v : ℕ)
    → trapped_from_machine m.frame ≡ false
    → (bit_and (m.frame.mtval % 2 ^ 32) csr_read_mask == csr_read_match) ≡ true
    → device_counter_word p.timer (csr_of (m.frame.mtval % 2 ^ 32)) ≡ some v
    → emulate_csr_read p m ≡ (commit_counter (rd_of (m.frame.mtval % 2 ^ 32)) v m, ok tt)
unfolding emulate_csr_read direct_counter
direct_read p m v below read counter = from_below_lem _ m below ∙ rw (read, counter) refl

-- An exception from below is handed on with its code.
pub trap_dispatch_exception :
    (f : Firmware) (c : Context) (k : ℕ)
    → c.machine.frame.mcause ≡ k
    → (bit_and k (2 ^ 63) == 0) ≡ true
    → trapped_from_machine c.machine.frame ≡ false
    → trap_dispatch f c ≡ dispatch_exception f k c
unfolding trap_dispatch
trap_dispatch_exception f c k cause sync below =
    let code : (bit_and c.machine.frame.mcause (2 ^ 63) == 0) ≡ true =
      ap (λ (t : ℕ). bit_and t (2 ^ 63) == 0) cause ∙ sync in
    rw (code, below) (ap (λ (t : ℕ). dispatch_exception f t c) cause)

-- The full path on such a read.
full_path :
    (f : Firmware) (c : Context) (v : ℕ)
    → is_fast_read c.machine.frame ≡ true
    → device_counter_word f.platform.timer (csr_of (c.machine.frame.mtval % 2 ^ 32)) ≡ some v
    → trap_dispatch f c
      ≡ returns (record (count f illegal c) {
        machine = commit_counter (rd_of (c.machine.frame.mtval % 2 ^ 32)) v c.machine;
      })
unfolding dispatch_exception illegal_instruction or_redirect
full_path f c v fast counter =
    let (cause, below, read) = fast_read_facts c.machine.frame fast in
    trap_dispatch_exception f c 2 cause refl below
    ∙ rw (direct_read f.platform c.machine v below read counter) refl

fast_read_same :
    (trapped slots : TrapFrame)
    → slots.mstatus ≡ trapped.mstatus
    → slots.mcause ≡ trapped.mcause
    → slots.mtval ≡ trapped.mtval
    → is_fast_read slots ≡ true
    → is_fast_read trapped ≡ true
fast_read_same trapped slots status cause tval h = rw (← status, ← cause, ← tval) h

-- The registers that the entry leaves unsaved before the fast path: s0 to s11.
abbrev pub is_unsaved : ℕ → Bool
is_unsaved i = i == 8 || i == 9 || leb 18 i && leb i 27

-- The slots that the entry has filled by then agree with the trapped context; the others hold
-- whatever was there.
abbrev pub IsFilled : TrapFrame → TrapFrame → Type 0
IsFilled trapped slots =
    (slots.mepc ≡ trapped.mepc)
    × (slots.mstatus ≡ trapped.mstatus)
    × (slots.mcause ≡ trapped.mcause)
    × (slots.mtval ≡ trapped.mtval)
    × ((i : ℕ) → is_unsaved i ≡ false → read_x slots i ≡ read_x trapped i)

-- The registers after a fast return: s0 to s11 were never touched, and the others are loaded.
abbrev pub fast_return : TrapFrame → TrapFrame → ℕ → ℕ
fast_return trapped slots i = if is_unsaved i then read_x trapped i else read_x slots i

abbrev with_frame : Context → TrapFrame → Context
with_frame c slots = record c { machine = record c.machine { frame = slots } }

caller_saved_filled : (rd : ℕ) → is_caller_saved rd ≡ true → is_unsaved rd ≡ false
caller_saved_filled rd h = ground arith

committed_registers :
    (trapped slots : TrapFrame) (rd v i : ℕ)
    → IsFilled trapped slots
    → is_caller_saved rd ≡ true
    → fast_return trapped (write_x slots rd v) i ≡ read_x (write_x trapped rd v) i
unfolding read_x write_x
committed_registers trapped slots rd v i filled saved =
    let outside : is_unsaved rd ≡ false = caller_saved_filled rd saved in
    elim (Bool-cases (is_unsaved i)) [
      | inl live ↦ elim (Bool-cases (i == rd)) [
        | inl same ↦
            let e : i ≡ rd = (==_iff i rd).0 same in
            let wrong : is_unsaved rd ≡ true = subst (λ (k : ℕ). is_unsaved k ≡ true) e live in
            absurd cc
        | inr other ↦ rw live (ground arith)
      ]
      | inr loaded ↦ let slot = filled.4 i loaded in rw loaded (ground (arith, slot))
    ]

fast_read_saved :
    (fr : TrapFrame) → is_fast_read fr ≡ true → is_caller_saved (rd_of (fr.mtval % 2 ^ 32)) ≡ true
fast_read_saved fr h = ground arith

count_alike :
    (f : Firmware) (c : Context) (slots : TrapFrame)
    → ((count f illegal (with_frame c slots)).cell ≡ (count f illegal c).cell)
      × ((count f illegal (with_frame c slots)).events ≡ (count f illegal c).events)
count_alike f c slots = elim (Bool-cases f.counters) [
  | inl on ↦ rw on (refl, refl)
  | inr off ↦ rw off (refl, refl)
]

-- The entry calls the fast path with s0 to s11 unsaved. When that serves the trap, the hart returns
-- with every register, all CSRs and memory, the lifecycle cell and the counted events as they are
-- after the full dispatch of that trap, whatever the unfilled slots hold.
pub try_fast_emulate_time_lem :
    (f : Firmware) (c c' : Context) (slots : TrapFrame)
    → IsFilled c.machine.frame slots
    → try_fast_emulate_time f (with_frame c slots) ≡ some c'
    → (full : Context) × (trap_dispatch f c ≡ returns full)
      × ((i : ℕ) → fast_return c.machine.frame c'.machine.frame i ≡ read_x full.machine.frame i)
      × (c'.machine.csr ≡ full.machine.csr)
      × (c'.machine.mem ≡ full.machine.mem)
      × (c'.cell ≡ full.cell)
      × (c'.events ≡ full.events)
unfolding try_fast_emulate_time
try_fast_emulate_time_lem f c c' slots filled h =
    let (pc, status, cause, tval, regs) = filled in
    let trapped : TrapFrame = c.machine.frame in
    elim (Bool-cases (is_fast_read slots)) [
      | inr slow ↦ let gone : none ≡ some c' = rw (try_fast_emulate_time, slow) at h in absurd cc
      | inl fast ↦
          let inst : ℕ = slots.mtval % 2 ^ 32 in
          let same : inst ≡ trapped.mtval % 2 ^ 32 = ap (λ (t : ℕ). t % 2 ^ 32) tval in
          let word : Option ℕ = device_counter_word f.platform.timer (csr_of inst) in
          let commit : fast_commit f (rd_of inst) word (with_frame c slots) ≡ some c' =
            rw (try_fast_emulate_time, fast) at h in
          let (v, counter, out) =
            fast_commit-some f (rd_of inst) word (with_frame c slots) c' commit in
          let full : Context = record (count f illegal c) {
            machine = commit_counter (rd_of (trapped.mtval % 2 ^ 32)) v c.machine;
          } in
          let fast' : is_fast_read trapped ≡ true =
            fast_read_same trapped slots status cause tval fast in
          let counter' : device_counter_word f.platform.timer (csr_of (trapped.mtval % 2 ^ 32))
              ≡ some v =
            ap (λ (t : ℕ). device_counter_word f.platform.timer (csr_of t)) (sym same) ∙ counter in
          let target : rd_of inst ≡ rd_of (trapped.mtval % 2 ^ 32) = ap rd_of same in
          (
            full,
            full_path f c v fast' counter',
            λ i.
                ap (λ (d : Context). fast_return trapped d.machine.frame i) out
                ∙ committed_registers trapped slots (rd_of inst) v i filled
                    (fast_read_saved slots fast)
                ∙ ap (λ (rd : ℕ). read_x (write_x trapped rd v) i) target,
            ap (λ (d : Context). d.machine.csr) out
                ∙ ap (λ (t : ℕ). record c.machine.csr { mepc = (t + 4) % 2 ^ 64 }) pc,
            ap (λ (d : Context). d.machine.mem) out,
            ap (λ (d : Context). d.cell) out ∙ (count_alike f c slots).0,
            ap (λ (d : Context). d.events) out ∙ (count_alike f c slots).1,
          )
    ]
