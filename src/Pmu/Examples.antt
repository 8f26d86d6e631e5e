-- ===== src/Pmu/Examples.antt =====
-- A hart with four hardware counters: cycle, time, instret and one programmable counter.
use rustsbi.Base.{
  ℕ, ◌%◌, ◌^◌, ◌≡◌, refl, true, false, none, some, List, [], ◌∷◌, arith, ltb, leb, if◌then◌else◌,
  elem,
}
use rustsbi.Base.Words.{bit, trailing_zeros, count_ones}
use rustsbi.Spec.Ret.{SbiRet, success}
use rustsbi.Pmu.Events.{
  from_firmware_event, is_firmware_event, firmware_event_valid, event_code, event_type,
  check_event_type,
}
use rustsbi.Pmu.State.{new_state, counters}
use rustsbi.Pmu.Hardware.{get_mhpm_csr_offset}
use rustsbi.Pmu.Maps.{
  SbiPmu, default_pmu, EventToCounterMap, from_node, with_property, property_rows, words,
  insert_counters, insert_event_to_mhpmcounter, or_default, push_unless,
}
use rustsbi.Pmu.Calls.{
  Machine, counter_get_info, bad_selection, counter_fw_read, refuse, with_firmware_info,
}
use rustsbi.Pmu.Config.{
  counter_config_matching, bad_event, set_up, set_up_match, configure_counter, configure_firmware,
  find_firmware_counter, first_free,
}
use rustsbi.Pmu.Offsets.{counter_get_info_lem, info_at}
use rustsbi.Pmu.Selection.{IsCounted}
use rustsbi.Pmu.Disjoint.{from_node-IsDisjoint, IsDisjoint}
use rustsbi.Pmu.Firmware.{set_for}
use rustsbi.Pmu.Matching.{counter_config_matching-returns}
use rustsbi.Pmu.Counting.{increments, counter_fw_read-config_matching, config_matching_panics}

abbrev machine : Machine
machine = record {
  pmu_state = new_state 15;
  hardware = record {
    mhpm_mask = 15;
    version_1_11 = true;
    mcountinhibit = 0;
    mhpmcounter = λ i. 0;
    mhpmevent = λ i. 0;
  };
}

machine-IsCounted : IsCounted machine
unfolding new_state
machine-IsCounted = record { word = omega arith; hardware_counters = refl; all_counters = refl }

counter_get_info_lem_example : counter_get_info machine 3 ≡ (
    if leb machine.pmu_state.total_counters_num 3
    then refuse
    else if ltb 3 machine.pmu_state.hw_counters_num
    then info_at (get_mhpm_csr_offset machine.hardware 3)
    else success with_firmware_info)
counter_get_info_lem_example = counter_get_info_lem machine 3 (omega arith)

good_selection : bad_selection machine.pmu_state 4 1 ≡ false
unfolding bad_selection new_state count_ones
good_selection = refl

chosen : elem 4 (counters 4 1 64) ≡ true
unfolding counters trailing_zeros elem
chosen = refl

abbrev first_firmware : ℕ
first_firmware = 4

abbrev first_map : EventToCounterMap
first_map = record { counters_mask = 8; event_start_idx = 3; event_end_idx = 6 }

-- One row, for the events 3 to 6.
abbrev row : List ℕ
row = 0 ∷ 0 ∷ 0 ∷ 3 ∷ 0 ∷ 0 ∷ 0 ∷ 6 ∷ 0 ∷ 0 ∷ 0 ∷ 8 ∷ []

abbrev mapped : SbiPmu
mapped = record default_pmu { event_to_mhpmcounter = some (first_map ∷ []) }

read : from_node none (some row) none ≡ some mapped
unfolding from_node with_property property_rows words insert_counters insert_event_to_mhpmcounter
    or_default push_unless
read = refl

from_node-IsDisjoint_example : IsDisjoint mapped
from_node-IsDisjoint_example = from_node-IsDisjoint none (some row) none mapped read

abbrev set_timer : ℕ
set_timer = 5

abbrev configured : Machine
configured = record machine {
  pmu_state = set_for machine.pmu_state 4 (from_firmware_event set_timer) 6;
}

is_firmware : is_firmware_event (from_firmware_event set_timer) ≡ true
unfolding is_firmware_event from_firmware_event event_type
is_firmware = refl

configure :
    counter_config_matching default_pmu machine 4 1 6 (from_firmware_event set_timer) 0
    ≡ some (configured, success 4)
unfolding counter_config_matching bad_selection bad_event set_up set_up_match configure_counter
    configure_firmware find_firmware_counter first_free counters new_state from_firmware_event
    is_firmware_event firmware_event_valid check_event_type event_type event_code count_ones
    trailing_zeros bit
configure = refl

counter_fw_read-config_matching_example :
    counter_fw_read
      (record configured { pmu_state = increments 3 configured.pmu_state set_timer })
      4
    ≡ success (3 % 2 ^ 64)
unfolding bit
counter_fw_read-config_matching_example =
    counter_fw_read-config_matching default_pmu machine configured 4 1 6 set_timer 0 4 3
      machine-IsCounted is_firmware refl refl refl configure

abbrev cycles : ℕ
cycles = 1

good_again : bad_selection configured.pmu_state 4 1 ≡ false
unfolding bad_selection new_state count_ones bit
good_again = refl

good_event : bad_event cycles ≡ false
unfolding bad_event is_firmware_event check_event_type event_type event_code
good_event = refl

cycles_hardware : is_firmware_event cycles ≡ false
unfolding is_firmware_event event_type
cycles_hardware = refl

only_first : counters 4 1 64 ≡ first_firmware ∷ []
unfolding counters trailing_zeros
only_first = refl

firmware_counter_panics : counter_config_matching default_pmu configured 4 1 1 cycles 0 ≡ none
unfolding bit new_state from_firmware_event count_ones
firmware_counter_panics =
    config_matching_panics default_pmu configured 4 1 1 cycles 0 4 []
      (record { word = omega arith; hardware_counters = refl; all_counters = refl }) (omega arith)
      good_again good_event cycles_hardware refl only_first (omega arith) (omega arith)

counter_config_matching-returns_example :
    (r : Machine × SbiRet) × (counter_config_matching default_pmu machine 0 15 4 cycles 0 ≡ some r)
unfolding bit
counter_config_matching-returns_example =
    counter_config_matching-returns default_pmu machine 0 15 4 cycles 0 machine-IsCounted refl
