-- ===== src/Hart/Examples.antt =====
-- Three harts, of which the second is stopped, disabled or started by another.
use rustsbi.Base.{ℕ, ◌≡◌, refl, true, false, some, [], ◌∷◌, ◌==◌, if◌then◌else◌}
use rustsbi.Spec.Ret.{is_ok}
use rustsbi.Hart.{
  roll_back, HartStateCell, NextStage, Devices, status, starting, started, new_cell, absent,
  hs_suspended,
}
use rustsbi.Hart.Machine.{Edge, Call-Edge, rolls_back}
use rustsbi.Hart.Race.{
  System, Reach, boot, here, next, reserve, wake_succeeds, write_stage, publish, claim, Reach-taken,
  Reach-one, is_busy,
}
use rustsbi.Hart.Sbi.{SbiHsm, Cells, stage_of, hart_suspend, non_retentive}
use rustsbi.Hart.Sbi.Calls.{hart_suspend_strands}

abbrev linux : NextStage
linux = stage_of 0x8020_0000 0x8700_0000

-- A start of a stopped hart whose wake fails.
abbrev reserved : HartStateCell
reserved = record new_cell { phase = starting }

Call-Edge_example : Edge (status reserved) (status (roll_back reserved))
Call-Edge_example = Call-Edge (rolls_back reserved refl)

abbrev starter : ℕ
starter = 3

-- The starter runs its start to the end, and the hart claims it.
claimed : (s : System) × (Reach boot s) × (s.taking ≡ true)
claimed = (
  _,
  next
      (next
        (next (next (next here (reserve 3 linux refl refl)) (wake_succeeds 3 linux refl))
          (write_stage 3 linux refl))
        (publish 3 linux refl))
      (claim refl),
  refl,
)

Reach-taken_example : (n : NextStage) × (claimed.0.stage ≡ some n) × (claimed.0.published ≡ some n)
unfolding claimed
Reach-taken_example = Reach-taken claimed.1 claimed.2

half_started : (s : System) × (Reach boot s) × (is_busy (s.starters 3) ≡ true)
half_started = (_, next here (reserve 3 linux refl refl), refl)

abbrev board : SbiHsm
board = record {
  hardware_wakeup = false;
  enabled = true ∷ true ∷ false ∷ [];
  privilege_checked = λ i. true;
}

abbrev device : Devices
device = record { hardware = absent; ipi = some (record { clear_ok = true; send_ok = true }) }

abbrev broken_device : Devices
broken_device = record {
  hardware = absent;
  ipi = some (record { clear_ok = true; send_ok = false });
}

abbrev cells : Cells
cells i = if i == 0 then record new_cell { phase = started } else new_cell

Reach-one_example : (starter ≡ starter) × (half_started.0.phase ≡ starting)
unfolding half_started
Reach-one_example = Reach-one starter starter half_started.1 half_started.2 half_started.2

hart_suspend_strands_example :
    (is_ok (hart_suspend broken_device (cells 0) non_retentive 0x8020_0000 7).1 ≡ false)
    × (status (hart_suspend broken_device (cells 0) non_retentive 0x8020_0000 7).0 ≡ hs_suspended)
hart_suspend_strands_example = hart_suspend_strands broken_device (cells 0) 0x8020_0000 7 refl refl
