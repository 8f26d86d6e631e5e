-- ===== src/Pmu/State.antt =====
-- `PmuState` of pmu.rs and the operations on its firmware counters.
use rustsbi.Base.{
  ℕ, zero, suc, ◌+◌, ◌-◌, ◌%◌, ◌^◌, bit_and, bit_or, Bool, false, not, ◌&&◌, ◌||◌, Option, none,
  some, List, [], ◌∷◌, ltb, leb, ◌==◌, if◌then◌else◌,
}
use rustsbi.Base.Usize.{usize_max}
use rustsbi.Base.Words.{one_shl, not_word, count_ones, trailing_zeros}
use rustsbi.Base.Families.{assign}
use rustsbi.Pmu.Events.{cpu_cycles, instructions, from_firmware_event}

abbrev pub hardware_counter_max : ℕ
hardware_counter_max = 32

abbrev pub firmware_counter_max : ℕ
firmware_counter_max = 16

abbrev pub event_idx_invalid : ℕ
event_idx_invalid = usize_max

pub record PmuState : Type 0 where
  pub active_event : ℕ → ℕ
  pub fw_counter_state : ℕ
  pub fw_counter : ℕ → ℕ
  pub hw_counters_num : ℕ
  pub total_counters_num : ℕ

unfoldable pub new_state : ℕ → PmuState
new_state mhpm_mask = record {
  active_event = assign (assign (λ i. event_idx_invalid) 0 cpu_cycles) 2 instructions;
  fw_counter_state = 0;
  fw_counter = λ i. 0;
  hw_counters_num = count_ones 32 mhpm_mask;
  total_counters_num = count_ones 32 mhpm_mask + firmware_counter_max;
}

unfoldable pub get_event_idx : PmuState → ℕ → Bool → Option ℕ
get_event_idx s counter_idx firmware_event =
    if leb s.total_counters_num counter_idx
    then none
    else if firmware_event && ltb counter_idx s.hw_counters_num
    then none
    else some (s.active_event counter_idx)

-- A counter index that names no firmware counter.
unfoldable pub not_firmware : PmuState → ℕ → Bool
not_firmware s counter_idx =
    ltb counter_idx s.hw_counters_num || leb s.total_counters_num counter_idx

unfoldable pub get_fw_counter : PmuState → ℕ → Option ℕ
get_fw_counter s counter_idx =
    if not_firmware s counter_idx
    then none
    else some (s.fw_counter (counter_idx - s.hw_counters_num))

pub data StartCounterErr : Type 0 where
  offset_invalid already_start : StartCounterErr

pub data StopCounterErr : Type 0 where
  stop_offset_invalid already_stop : StopCounterErr

-- `none` is `Ok(())`.
unfoldable pub start_fw_counter : PmuState → ℕ → ℕ → Bool → PmuState × Option StartCounterErr
start_fw_counter s counter_idx initial_value is_update_value =
    let fw_idx = counter_idx - s.hw_counters_num in
    if not_firmware s counter_idx
    then (s, some offset_invalid)
    else if not (bit_and s.fw_counter_state (one_shl fw_idx) == 0)
    then (s, some already_start)
    else (
      record s {
        fw_counter =
            if is_update_value then assign s.fw_counter fw_idx initial_value else s.fw_counter;
        fw_counter_state = bit_or s.fw_counter_state (one_shl fw_idx);
      },
      none,
    )

unfoldable pub stop_fw_counter : PmuState → ℕ → Bool → PmuState × Option StopCounterErr
stop_fw_counter s counter_idx is_reset =
    let fw_idx = counter_idx - s.hw_counters_num in
    if not_firmware s counter_idx
    then (s, some stop_offset_invalid)
    else if bit_and s.fw_counter_state (one_shl fw_idx) == 0
    then (s, some already_stop)
    else (
      record s {
        active_event =
            if is_reset
            then assign s.active_event counter_idx event_idx_invalid
            else s.active_event;
        fw_counter_state = bit_and s.fw_counter_state (not_word 64 (one_shl fw_idx));
      },
      none,
    )

unfoldable pub is_firmware_event_start : PmuState → ℕ → Bool
is_firmware_event_start s counter_idx =
    if not_firmware s counter_idx
    then false
    else not (bit_and s.fw_counter_state (one_shl (counter_idx - s.hw_counters_num)) == 0)

-- The loop of `pmu_firmware_counter_increment` over `n` counters from `fw_idx`.
unfoldable pub increment_from : PmuState → ℕ → ℕ → ℕ → PmuState
increment_from s event fw_idx zero = s
increment_from s event fw_idx (suc n) =
    increment_from
      (if s.active_event (s.hw_counters_num + fw_idx) == from_firmware_event event
          && is_firmware_event_start s (s.hw_counters_num + fw_idx)
        then record s {
          fw_counter = assign s.fw_counter fw_idx ((s.fw_counter fw_idx + 1) % 2 ^ 64);
        }
        else s)
      event (suc fw_idx) n

-- `pmu_firmware_counter_increment`; `has_pmu` is whether the extension is there.
unfoldable pub pmu_firmware_counter_increment : Bool → PmuState → ℕ → PmuState
pmu_firmware_counter_increment has_pmu s event =
    if not has_pmu
    then s
    else if s.fw_counter_state == 0
    then s
    else increment_from s event 0 firmware_counter_max

-- `CounterMask` and its iterator: the selected counters, lowest first.
unfoldable pub counters : ℕ → ℕ → ℕ → List ℕ
counters base mask zero = []
counters base mask (suc n) =
    let low_bit = trailing_zeros 64 mask in
    let rest = counters base (bit_and mask (not_word 64 (one_shl low_bit))) n in
    if mask == 0 then [] else (low_bit + base) ∷ rest
