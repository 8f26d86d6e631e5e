-- ===== src/Trap/Handling/Ecall.antt =====
-- A call of the firmware, and the entry of a hart that was started.
use rustsbi.Base.{
  [], ◌∷◌, ℕ, ◌+◌, ◌%◌, ◌^◌, ◌≡◌, refl, ap, ◌∙◌, false, none, arith, ◌==◌, if◌then◌else◌,
}
use rustsbi.Spec.Ret.{SbiRet}
use rustsbi.Hart.{HartStateCell, take_control_transfer}
use rustsbi.Trap.{Csrs, TrapFrame, read_x, write_x, trapped_from_machine}
use rustsbi.Trap.Handling.{
  Context, Firmware, returns, trap_dispatch, dispatch_exception, sbi_ecall, answered, resume_staged,
}
use rustsbi.Trap.Handling.Fast.{trap_dispatch_exception}

-- The registers after a call: `a0` and `a1` hold the answer, and no other has changed.
abbrev pub Answers : TrapFrame → TrapFrame → SbiRet → Type 0
Answers before after ret =
    (i : ℕ)
    → read_x after i
      ≡ (if i == 10 then ret.error else if i == 11 then ret.value else read_x before i)

write-Answers :
    (f : TrapFrame) (ret : SbiRet) → Answers f (write_x (write_x f 10 ret.error) 11 ret.value) ret
unfolding read_x write_x
write-Answers f ret i = ground arith

-- A call of the firmware from user or supervisor mode is answered by the policy for the extension
-- in `a7`, the function in `a6` and the parameters in `a0` to `a5`. Where that answer stages no
-- resume the call returns behind the call instruction with the answer in `a0` and `a1`; no other
-- register and none of the memory has changed, the lifecycle cell is the one that the policy left,
-- and the CSRs are those that it left but for `mepc`.
pub sbi_ecall-Answers :
    (f : Firmware) (c : Context) (csr : Csrs) (cell : HartStateCell) (ret : SbiRet)
    → c.machine.frame.mcause ≡ 9
    → trapped_from_machine c.machine.frame ≡ false
    → f.policy
        (read_x c.machine.frame 17)
        (read_x c.machine.frame 16)
        (read_x c.machine.frame 10
          ∷ read_x c.machine.frame 11
          ∷ read_x c.machine.frame 12
          ∷ read_x c.machine.frame 13
          ∷ read_x c.machine.frame 14
          ∷ read_x c.machine.frame 15
          ∷ [])
        c.machine.csr
        c.cell
      ≡ (csr, cell, ret)
    → cell.transfer ≡ none
    → (c' : Context) × (trap_dispatch f c ≡ returns c')
      × Answers c.machine.frame c'.machine.frame ret
      × (c'.machine.mem ≡ c.machine.mem)
      × (c'.cell ≡ cell)
      × (c'.machine.csr ≡ record csr { mepc = (csr.mepc + 4) % 2 ^ 64 })
unfolding dispatch_exception sbi_ecall resume_staged take_control_transfer
sbi_ecall-Answers f c csr cell ret cause below policy idle = (
  answered c (csr, cell, ret),
  trap_dispatch_exception f c 9 cause refl below
      ∙ rw policy (ap (λ o. returns (resume_staged f o (answered c (csr, cell, ret)))) idle),
  write-Answers c.machine.frame ret,
  refl,
  ground (arith, idle),
  refl,
)
