-- ===== src/Hart.antt =====
-- firmware/runtime/src/hart/lifecycle.rs, wakeup.rs and mod.rs: the lifecycle cell of one hart and
-- the calls that change it, each run without interference (Race interleaves their atomic parts).
-- The interrupt devices are arguments; what they do besides their result is not modelled.
pub mod Machine
pub mod Race
pub mod Sbi
mod Examples
use rustsbi.Base.{
  ℕ, zero, suc, ◌+◌, ◌-◌, ◌*◌, ◌/◌, ◌%◌, ◌^◌, ◌≤◌, ◌<◌, min, max, bit_and, bit_or, ◌≡◌, refl, sym,
  ap, ◌∙◌, subst, ◌≢◌, ◌↔◌, ◌⊎◌, inl, inr, Bool, true, false, not, ◌&&◌, ◌||◌, Option, none, some,
  List, [], ◌∷◌, ◌++◌, map, arith, ltb, leb, ◌==◌, if◌then◌else◌, ltb→lt, leb→le, ==_iff,
  Bool-cases, Option-cases, length, get_elem?, set, All, length-append, length-map, All-append,
}

abbrev pub num_hart_max : ℕ
num_hart_max = 8

-- `HartId::from_raw`.
unfoldable pub from_raw : ℕ → Option ℕ
from_raw raw = if ltb raw num_hart_max then some raw else none

-- boot/mod.rs: `NextStage`, all of whose uses here enter supervisor mode.
pub record NextStage : Type 0 where
  pub start_addr : ℕ
  pub opaque : ℕ

-- The values of the atomic `state`.
pub data Phase : Type 0 where
  started stopped start_pending suspended resume_pending starting : Phase

pub record HartStateCell : Type 0 where
  pub phase : Phase
  pub stage : Option NextStage
  pub transfer : Option NextStage

-- `HartStateCell::new`.
abbrev pub new_cell : HartStateCell
new_cell = record { phase = stopped; stage = none; transfer = none }

pub data HartState : Type 0 where
  hs_started hs_stopped hs_start_pending hs_suspended hs_resume_pending : HartState

-- `status`.
unfoldable pub status : HartStateCell → HartState
status c = elim c.phase [
  | started ↦ hs_started
  | stopped ↦ hs_stopped
  | start_pending ↦ hs_start_pending
  | starting ↦ hs_start_pending
  | suspended ↦ hs_suspended
  | resume_pending ↦ hs_resume_pending
]

unfoldable pub can_receive_ipi : HartStateCell → Bool
can_receive_ipi c = elim (status c) [ hs_started ↦ true | hs_suspended ↦ true | _ ↦ false ]

-- The results of the devices during one call: the hardware wake device, if one is installed, may
-- fail or say whether it took the request; the IPI device, if it is published, may fail to clear
-- its source or to send.
pub record IpiDevice : Type 0 where
  pub clear_ok : Bool
  pub send_ok : Bool

pub data HardwareWake : Type 0 where
  absent failing declines requests : HardwareWake

pub record Devices : Type 0 where
  pub hardware : HardwareWake
  pub ipi : Option IpiDevice

abbrev pub send_wake : Option IpiDevice → Bool
send_wake none = false
send_wake (some d) = d.send_ok

abbrev pub clear_source : Option IpiDevice → Bool
clear_source none = false
clear_source (some d) = d.clear_ok

-- wakeup.rs: `wake`; `false` is `WakeFailed`.
unfoldable pub wake : Devices → Bool
wake d = elim d.hardware [
  | requests ↦ true
  | failing ↦ false
  | absent ↦ send_wake d.ipi
  | declines ↦ send_wake d.ipi
]

pub data StageError : Type 0 where
  stage_done stage_busy : StageError

-- The atomic steps that `stage_current` and `start` share: the reservation, by an exchange of the
-- state, the publication of a stage in a reserved cell, and the way back.
unfoldable pub reserve : HartStateCell → HartStateCell × Bool
reserve c = elim c.phase [ stopped ↦ (record c { phase = starting }, true) | _ ↦ (c, false) ]

unfoldable pub publish : HartStateCell → NextStage → HartStateCell
publish c next = record c { phase = start_pending; stage = some next }

unfoldable pub roll_back : HartStateCell → HartStateCell
roll_back c = record c { phase = stopped }

-- `stage_current`.
unfoldable pub stage_current : HartStateCell → NextStage → HartStateCell × StageError
unfolding reserve publish
stage_current c next =
    let (c', reserved) = reserve c in
    elim reserved [ true ↦ (publish c' next, stage_done) | false ↦ (c', stage_busy) ]

pub data StartResult : Type 0 where
  accepted already_running wake_failed : StartResult

-- `start`, run without interference.
unfoldable pub start : Devices → HartStateCell → NextStage → HartStateCell × StartResult
unfolding reserve publish roll_back
start d c next =
    let (c', reserved) = reserve c in
    elim reserved [
      | true ↦ if wake d then (publish c' next, accepted) else (roll_back c', wake_failed)
      | false ↦ (c', already_running)
    ]

-- `spins` while a start is being published; `broken` is the panic on a missing stage.
pub data HartEvent : Type 0 where
  start_event : NextStage → HartEvent
  park no_event spins broken : HartEvent

-- `take_local_event`, one round of its loop.
unfoldable pub take_local_event : HartStateCell → HartStateCell × HartEvent
take_local_event c = elim c.phase [
  | start_pending ↦ elim c.stage [
    | some next ↦ (record c { phase = started; stage = none }, start_event next)
    | none ↦ (record c { phase = started }, broken)
  ]
  | starting ↦ (c, spins)
  | stopped ↦ (c, park)
  | _ ↦ (c, no_event)
]

-- `stop_current`; `false` is a failure, which alone returns to the caller.
unfoldable pub stop_current : Devices → HartStateCell → HartStateCell × Bool
stop_current d c = if clear_source d.ipi then (record c { phase = stopped }, true) else (c, false)

-- `suspend_current`, up to the return from the wait.
unfoldable pub suspend_current : Devices → HartStateCell → HartStateCell × Bool
suspend_current d c =
    if clear_source d.ipi then (record c { phase = suspended }, true) else (c, false)

pub data ResumeResult : Type 0 where
  resumed invalid_state resume_wake_failed : ResumeResult

unfoldable pub resume_current_retentive : HartStateCell → HartStateCell × ResumeResult
resume_current_retentive c = elim c.phase [
  | suspended ↦ (record c { phase = started }, resumed)
  | _ ↦ (c, invalid_state)
]

-- `begin_nonretentive_resume`: whether a ticket was given out.
unfoldable pub begin_nonretentive_resume : HartStateCell → HartStateCell × Bool
begin_nonretentive_resume c = elim c.phase [
  | suspended ↦ (record c { phase = resume_pending }, true)
  | _ ↦ (c, false)
]

-- `ResumeTicket::commit`, with the drop of a ticket that was not committed.
unfoldable pub commit : Devices → HartStateCell → NextStage → HartStateCell × ResumeResult
commit d c next =
    if send_wake d.ipi
    then (record c { phase = started; transfer = some next }, resumed)
    else (record c { phase = suspended }, resume_wake_failed)

unfoldable pub take_control_transfer : HartStateCell → HartStateCell × Option NextStage
take_control_transfer c = (record c { transfer = none }, c.transfer)
