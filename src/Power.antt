-- ===== src/Power.antt =====
-- firmware/prototyper/src/sbi/suspend.rs and reset.rs: suspending and resetting the system. What
-- the reset device answers is an argument.
use rustsbi.Base.{
  ℕ, zero, suc, ◌+◌, ◌-◌, ◌*◌, ◌/◌, ◌%◌, ◌^◌, ◌≤◌, ◌<◌, min, max, bit_and, bit_or, ◌≡◌, refl, sym,
  ap, ◌∙◌, subst, ◌≢◌, ◌↔◌, ◌⊎◌, inl, inr, Bool, true, false, not, ◌&&◌, ◌||◌, Option, none, some,
  List, [], ◌∷◌, ◌++◌, map, arith, ltb, leb, ◌==◌, if◌then◌else◌, ltb→lt, leb→le, ==_iff,
  Bool-cases, Option-cases, length, get_elem?, set, All, length-append, length-map, All-append,
  elem,
}
use rustsbi.Spec.Ret.{SbiRet, success, from_error, invalid_param, not_supported, denied, failed}
use rustsbi.Hart.{HartStateCell, HartState, Devices, status, from_raw, hs_stopped}
use rustsbi.Hart.Sbi.{Cells, put, hart_suspend, non_retentive}
pub mod Alone
pub mod Requests
mod Examples

abbrev pub suspend_to_ram : ℕ
suspend_to_ram = 0

-- What the firmware knows: the board's enabled harts, once they are published, whether the hart
-- state management service is there, and the mode in `mpp`, with 0 for user and 1 for supervisor.
pub record Board : Type 0 where
  pub enabled_harts : Option (List Bool)
  pub has_hsm : Bool
  pub mpp : ℕ

unfoldable pub is_stopped : HartState → Bool
is_stopped hs_stopped = true
is_stopped _ = false

unfoldable pub check_hart : (ℕ → HartState) → Option ℕ → Option Bool → Option Bool
check_hart seen none later = none
check_hart seen (some hart) later = if is_stopped (seen hart) then later else some false

-- Whether each enabled hart but `me` is stopped, from hart `i` on; `none` is the panic on a hart
-- beyond the capacity. Each status is read in its turn, while the other harts go on: `seen` is
-- what these reads return.
unfoldable pub others_stopped : (ℕ → HartState) → ℕ → List Bool → ℕ → Option Bool
others_stopped seen me [] i = some true
others_stopped seen me (enabled ∷ rest) i =
    let later = others_stopped seen me rest (suc i) in
    if enabled && not (i == me) then check_hart seen (from_raw i) later else later

abbrev pub suspend_me :
    Devices → Cells → ℕ → ℕ → ℕ → HartStateCell × SbiRet → Option (Cells × SbiRet)
suspend_me d cells me resume_addr opaque (c, ret) = some (put cells me c, ret)

abbrev pub suspend_alone :
    Board → Devices → Cells → ℕ → ℕ → ℕ → Option Bool → Option (Cells × SbiRet)
suspend_alone b d cells me resume_addr opaque none = none
suspend_alone b d cells me resume_addr opaque (some false) = some (cells, from_error denied)
suspend_alone b d cells me resume_addr opaque (some true) =
    if b.has_hsm
    then suspend_me d cells me resume_addr opaque
        (hart_suspend d (cells me) non_retentive resume_addr opaque)
    else some (cells, from_error not_supported)

abbrev pub suspend_enabled :
    Board
    → Devices
    → (ℕ → HartState)
    → Cells
    → ℕ
    → ℕ
    → ℕ
    → Option (List Bool)
    → Option (Cells × SbiRet)
suspend_enabled b d seen cells me resume_addr opaque none = some (cells, from_error failed)
suspend_enabled b d seen cells me resume_addr opaque (some harts) =
    suspend_alone b d cells me resume_addr opaque (others_stopped seen me harts 0)

-- `system_suspend`, on the cells as they are after the walk; `none` is a panic.
unfoldable pub system_suspend :
    Board → Devices → (ℕ → HartState) → Cells → ℕ → ℕ → ℕ → ℕ → Option (Cells × SbiRet)
system_suspend b d seen cells me sleep_type resume_addr opaque =
    if not (sleep_type == suspend_to_ram)
    then some (cells, from_error invalid_param)
    else if not (b.mpp == 1) && not (b.mpp == 0)
    then some (cells, from_error failed)
    else suspend_enabled b d seen cells me resume_addr opaque b.enabled_harts

pub data ResetType : Type 0 where
  shutdown cold_reboot warm_reboot : ResetType
  vendor_type : ℕ → ResetType

pub data ResetReason : Type 0 where
  no_reason system_failure : ResetReason
  sbi_reason vendor_reason : ℕ → ResetReason

pub record ResetRequest : Type 0 where
  pub reset_type : ResetType
  pub reset_reason : ResetReason

unfoldable pub parse_type : ℕ → Option ResetType
parse_type raw =
    if raw == 0
    then some shutdown
    else if raw == 1
    then some cold_reboot
    else if raw == 2
    then some warm_reboot
    else if leb 0xf000_0000 raw && leb raw 0xffff_ffff
    then some (vendor_type raw)
    else none

unfoldable pub parse_reason : ℕ → Option ResetReason
parse_reason raw =
    if raw == 0
    then some no_reason
    else if raw == 1
    then some system_failure
    else if leb 0xe000_0000 raw && leb raw 0xefff_ffff
    then some (sbi_reason raw)
    else if leb 0xf000_0000 raw && leb raw 0xffff_ffff
    then some (vendor_reason raw)
    else none

abbrev pub both : Option ResetType → Option ResetReason → Option ResetRequest
both (some t) (some r) = some (record { reset_type = t; reset_reason = r })
both _ _ = none

-- `parse_request`.
unfoldable pub parse_request : ℕ → ℕ → Option ResetRequest
parse_request t r = both (parse_type t) (parse_reason r)

pub data ResetError : Type 0 where
  invalid_request reset_failed : ResetError

unfoldable pub reset_answer : Option ResetError → SbiRet
reset_answer none = from_error not_supported
reset_answer (some invalid_request) = from_error invalid_param
reset_answer (some reset_failed) = from_error failed

abbrev pub reset_with : (ResetRequest → Option ResetError) → Option ResetRequest → SbiRet
reset_with device none = from_error invalid_param
reset_with device (some request) = reset_answer (device request)

-- `system_reset`, where it returns: the device has answered with an error, or is not there.
unfoldable pub system_reset : (ResetRequest → Option ResetError) → ℕ → ℕ → SbiRet
system_reset device reset_type reset_reason =
    reset_with device (parse_request reset_type reset_reason)
