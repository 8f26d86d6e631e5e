-- ===== src/Pmu/Calls.antt =====
-- The calls of the `Pmu` extension in pmu.rs on one hart, without the configuration.
use rustsbi.Base.{
  ℕ, zero, suc, ◌+◌, ◌-◌, ◌*◌, ◌/◌, ◌^◌, bit_and, bit_or, Bool, true, not, ◌&&◌, ◌||◌, Option, none,
  some, List, [], ◌∷◌, ltb, leb, ◌==◌, if◌then◌else◌,
}
use rustsbi.Base.Usize.{usize_max}
use rustsbi.Base.Words.{bit, trailing_zeros}
use rustsbi.Base.Families.{assign}
use rustsbi.Spec.Ret.{
  SbiRet, success, from_error, invalid_param, no_shmem, already_started, already_stopped,
}
use rustsbi.Pmu.Events.{event_code, firmware_event_valid, platform}
use rustsbi.Pmu.State.{
  PmuState, new_state, event_idx_invalid, get_event_idx, get_fw_counter, start_fw_counter,
  stop_fw_counter, StartCounterErr, StopCounterErr, offset_invalid, already_start,
  stop_offset_invalid, already_stop, counters,
}
use rustsbi.Pmu.Hardware.{
  Hardware, get_mhpm_csr_offset, start_hardware_counter, stop_hardware_counter,
}

pub record Machine : Type 0 where
  pub pmu_state : PmuState
  pub hardware : Hardware

-- `HartLocal::pmu_state_reset`: all counters but the first three are inhibited.
unfoldable pub pmu_state_reset : Machine → Machine
pmu_state_reset m = record {
  pmu_state = new_state m.hardware.mhpm_mask;
  hardware =
      if m.hardware.version_1_11
      then record m.hardware { mcountinhibit = usize_max - 7 }
      else m.hardware;
}

abbrev pub csr_cycle : ℕ
csr_cycle = 0xC00

-- `CounterInfo`.
unfoldable pub with_hardware_info : ℕ → ℕ → ℕ
with_hardware_info csr_num width = bit_or (bit_and csr_num 0xFFF) (bit_and width 0x3F * 2 ^ 12)

abbrev pub with_firmware_info : ℕ
with_firmware_info = 2 ^ 63

abbrev pub refuse : SbiRet
refuse = from_error invalid_param

-- The loop of `counter_get_info` over the set bits of the mask, in at most `n` rounds.
unfoldable pub info_loop : ℕ → ℕ → ℕ → ℕ → SbiRet
info_loop counter_idx remaining_mask count zero = refuse
info_loop counter_idx remaining_mask count (suc n) =
    let offset = trailing_zeros 32 remaining_mask in
    let rest = info_loop counter_idx (bit_and remaining_mask (remaining_mask - 1)) (suc count) n in
    if remaining_mask == 0
    then refuse
    else if count == counter_idx
    then if offset == 1 then refuse else success (with_hardware_info (csr_cycle + offset) 63)
    else rest

unfoldable pub counter_get_info : Machine → ℕ → SbiRet
counter_get_info m counter_idx =
    if leb m.pmu_state.total_counters_num counter_idx
    then refuse
    else if ltb counter_idx m.pmu_state.hw_counters_num
    then info_loop counter_idx m.hardware.mhpm_mask 0 33
    else success with_firmware_info

-- The check of a base and a mask that all calls share: `checked_shr` gives 0 from 64 on.
unfoldable pub bad_selection : PmuState → ℕ → ℕ → Bool
bad_selection s base mask =
    leb s.total_counters_num base
    || (mask == 0
        || (ltb (s.total_counters_num - base) 64
            && not (mask / 2 ^ (s.total_counters_num - base) == 0)))

-- One counter of the loop of `counter_start`, or of `counter_stop`.
unfoldable pub start_one : Machine → ℕ → ℕ → Bool → Option (Machine × Option StartCounterErr)
start_one m counter_idx initial_value is_update_value =
    let by_firmware = start_fw_counter m.pmu_state counter_idx initial_value is_update_value in
    if leb m.pmu_state.hw_counters_num counter_idx
    then some (record m { pmu_state = by_firmware.0 }, by_firmware.1)
    else elim (get_mhpm_csr_offset m.hardware counter_idx) [
      | none ↦ none
      | some offset ↦
          let r = start_hardware_counter m.hardware offset initial_value is_update_value in
          some (record m { hardware = r.0 }, r.1)
    ]

-- The error that `counter_start` returns.
abbrev pub start_answer : StartCounterErr → SbiRet
start_answer already_start = from_error already_started
start_answer offset_invalid = refuse

unfoldable pub start_each : Machine → List ℕ → ℕ → Bool → Option (Machine × SbiRet)
start_each m [] v u = some (m, success 0)
start_each m (i ∷ is) v u =
    if leb m.pmu_state.total_counters_num i then some (m, refuse) else elim (start_one m i v u) [
      | none ↦ none
      | some r ↦ elim r.1 [ none ↦ start_each r.0 is v u | some e ↦ some (r.0, start_answer e) ]
    ]

-- `StartFlags` are the two low bits.
unfoldable pub counter_start : Machine → ℕ → ℕ → ℕ → ℕ → Option (Machine × SbiRet)
counter_start m base mask start_flags initial_value =
    if leb 4 start_flags
    then some (m, refuse)
    else if bad_selection m.pmu_state base mask
    then some (m, refuse)
    else if bit start_flags 1 == 1
    then some (m, from_error no_shmem)
    else start_each m (counters base mask 64) initial_value (bit start_flags 0 == 1)

-- `none` in the answer is `continue`.
unfoldable pub stop_one : Machine → ℕ → Bool → Option (Machine × Option (Option StopCounterErr))
stop_one m counter_idx is_reset =
    let by_firmware = stop_fw_counter m.pmu_state counter_idx is_reset in
    if leb m.pmu_state.hw_counters_num counter_idx
    then some (record m { pmu_state = by_firmware.0 }, some by_firmware.1)
    else elim (get_mhpm_csr_offset m.hardware counter_idx) [
      | none ↦ none
      | some offset ↦
          let r = stop_hardware_counter m.hardware offset is_reset in
          let events = m.pmu_state.active_event in
          if offset == 1
          then some (m, none)
          else some (
            record {
              pmu_state = record m.pmu_state {
                active_event =
                    if is_reset then assign events counter_idx event_idx_invalid else events;
              };
              hardware = r.0;
            },
            some r.1,
          )
    ]

abbrev pub stop_answer : StopCounterErr → SbiRet
stop_answer already_stop = from_error already_stopped
stop_answer stop_offset_invalid = refuse

unfoldable pub stop_each : Machine → List ℕ → Bool → SbiRet → Option (Machine × SbiRet)
stop_each m [] is_reset result = some (m, result)
stop_each m (i ∷ is) is_reset result =
    if leb m.pmu_state.total_counters_num i
    then some (m, refuse)
    else elim (stop_one m i is_reset) [
      | none ↦ none
      | some r ↦ elim r.1 [
        | none ↦ stop_each r.0 is is_reset result
        | some answer ↦ elim answer [
          | none ↦ stop_each r.0 is is_reset (success 0)
          | some e ↦ some (r.0, stop_answer e)
        ]
      ]
    ]

unfoldable pub counter_stop : Machine → ℕ → ℕ → ℕ → Option (Machine × SbiRet)
counter_stop m base mask stop_flags =
    if leb 4 stop_flags
    then some (m, refuse)
    else if bad_selection m.pmu_state base mask
    then some (m, refuse)
    else if bit stop_flags 1 == 1
    then some (m, from_error no_shmem)
    else stop_each m (counters base mask 64) (bit stop_flags 0 == 1) refuse

unfoldable pub counter_fw_read : Machine → ℕ → SbiRet
counter_fw_read m counter_idx = elim (get_event_idx m.pmu_state counter_idx true) [
  | none ↦ refuse
  | some event_id ↦
      if not (firmware_event_valid event_id)
      then refuse
      else if event_code event_id == platform
      then refuse
      else elim (get_fw_counter m.pmu_state counter_idx) [
        | none ↦ refuse
        | some value ↦ success value
      ]
]
