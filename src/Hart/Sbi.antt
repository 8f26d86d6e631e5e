-- ===== src/Hart/Sbi.antt =====
-- firmware/prototyper/src/sbi/hsm.rs: the SBI hart state management calls of a hart, over the
-- lifecycle cells of all harts. The board's enabled harts and what is known of the harts'
-- privilege modes are arguments.
pub mod Calls
use rustsbi.Base.{
  ℕ, zero, suc, ◌+◌, ◌-◌, ◌*◌, ◌/◌, ◌%◌, ◌^◌, ◌≤◌, ◌<◌, min, max, bit_and, bit_or, ◌≡◌, refl, sym,
  ap, ◌∙◌, subst, ◌≢◌, ◌↔◌, ◌⊎◌, inl, inr, Bool, true, false, not, ◌&&◌, ◌||◌, Option, none, some,
  List, [], ◌∷◌, ◌++◌, map, arith, ltb, leb, ◌==◌, if◌then◌else◌, ltb→lt, leb→le, ==_iff,
  Bool-cases, Option-cases, length, get_elem?, set, All, length-append, length-map, All-append,
}
use rustsbi.Spec.Ret.{SbiRet, success, failed, invalid_param, already_available, from_error}
use rustsbi.Hart.{
  HartStateCell, HartState, NextStage, Devices, status, from_raw, start, stop_current,
  suspend_current, resume_current_retentive, begin_nonretentive_resume, commit, accepted,
  already_running, wake_failed, resumed, invalid_state, resume_wake_failed, hs_started, hs_stopped,
  hs_start_pending, hs_suspended, hs_resume_pending, started, stopped, wake, send_wake,
  clear_source,
}

pub record SbiHsm : Type 0 where
  pub hardware_wakeup : Bool
  pub enabled : List Bool
  pub privilege_checked : ℕ → Bool

-- The cells of the harts, by index.
abbrev pub Cells : Type 0
Cells = ℕ → HartStateCell

abbrev pub put : Cells → ℕ → HartStateCell → Cells
put cells i c j = if j == i then c else cells j

pub is_enabled : Option Bool → Bool
is_enabled (some true) = true
is_enabled _ = false

-- `SbiHsm::hart_id`: an error is always `invalid_param`.
unfoldable pub hart_id : SbiHsm → ℕ → Option ℕ
unfolding is_enabled
hart_id h raw = elim (from_raw raw) [
  | none ↦ none
  | some hart ↦
      if not (is_enabled (get_elem? h.enabled raw))
        || not (h.hardware_wakeup || h.privilege_checked raw)
      then none
      else some hart
]

-- The stage that the calls below make, which enters supervisor mode.
abbrev pub stage_of : ℕ → ℕ → NextStage
stage_of addr opaque = record { start_addr = addr; opaque = opaque }

unfoldable pub hart_start : SbiHsm → Devices → Cells → ℕ → ℕ → ℕ → Cells × SbiRet
hart_start h d cells hartid start_addr opaque = elim (hart_id h hartid) [
  | none ↦ (cells, from_error invalid_param)
  | some hart ↦
      let (c, outcome) = start d (cells hart) (stage_of start_addr opaque) in
      (
        put cells hart c,
        elim outcome [
          | accepted ↦ success 0
          | already_running ↦ from_error already_available
          | wake_failed ↦ from_error failed
        ],
      )
]

-- A stop that succeeds does not return to its caller: `none`.
unfoldable pub hart_stop : Devices → Cells → ℕ → Cells × Option SbiRet
hart_stop d cells me =
    let (c, stopped_now) = stop_current d (cells me) in
    (put cells me c, if stopped_now then none else some (from_error failed))

-- sbi-spec `hart_state`.
unfoldable pub state_id : HartState → ℕ
state_id hs_started = 0
state_id hs_stopped = 1
state_id hs_start_pending = 2
state_id hs_suspended = 4
state_id hs_resume_pending = 6

unfoldable pub hart_get_status : SbiHsm → Cells → ℕ → SbiRet
hart_get_status h cells hartid = elim (hart_id h hartid) [
  | none ↦ from_error invalid_param
  | some hart ↦ success (state_id (status (cells hart)))
]

abbrev pub retentive : ℕ
retentive = 0

abbrev pub non_retentive : ℕ
non_retentive = 2 ^ 31

suspend_retentive : HartStateCell → HartStateCell × SbiRet
suspend_retentive c =
    let (c', r) = resume_current_retentive c in
    (c', elim r [ resumed ↦ success 0 | _ ↦ from_error failed ])

suspend_nonretentive : Devices → HartStateCell → NextStage → HartStateCell × SbiRet
suspend_nonretentive d c next =
    let (c', ticket) = begin_nonretentive_resume c in
    elim ticket [
      | true ↦
          let (c'', r) = commit d c' next in
          (c'', elim r [ resumed ↦ success 0 | _ ↦ from_error failed ])
      | false ↦ (c', from_error failed)
    ]

-- `SbiHsm::suspend`, on the cell of the current hart. `reset_current`, between the ticket and its
-- commit, changes other state of the hart, which is not modelled.
unfoldable pub hart_suspend : Devices → HartStateCell → ℕ → ℕ → ℕ → HartStateCell × SbiRet
unfolding suspend_retentive suspend_nonretentive
hart_suspend d c suspend_type resume_addr opaque =
    if not (suspend_type == retentive || suspend_type == non_retentive)
    then (c, from_error invalid_param)
    else let (c', waiting) = suspend_current d c in
      if not waiting
      then (c', from_error failed)
      else if suspend_type == retentive
      then suspend_retentive c'
      else suspend_nonretentive d c' (stage_of resume_addr opaque)
