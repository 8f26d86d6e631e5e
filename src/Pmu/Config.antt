-- ===== src/Pmu/Config.antt =====
-- `counter_config_matching` of pmu.rs: the choice of a counter for an event, and its set-up.
use rustsbi.Base.{
  ℕ, ◌+◌, ◌-◌, ◌%◌, ◌^◌, bit_and, bit_or, Bool, false, not, ◌&&◌, ◌||◌, Option, none, some, List,
  [], ◌∷◌, ltb, leb, ◌==◌, if◌then◌else◌,
}
use rustsbi.Base.Words.{bit}
use rustsbi.Base.Families.{assign}
use rustsbi.Spec.Ret.{SbiRet, Result, ok, err, success, from_error, not_supported}
use rustsbi.Pmu.Events.{
  cpu_cycles, instructions, is_raw_event, is_firmware_event, check_event_type, firmware_event_valid,
}
use rustsbi.Pmu.State.{PmuState, event_idx_invalid, firmware_counter_max, counters}
use rustsbi.Pmu.Hardware.{
  Hardware, get_mhpm_csr_offset, write_mhpmcounter, write_mhpmevent, start_hardware_counter,
}
use rustsbi.Pmu.Maps.{
  SbiPmu, EventToCounterMap, RawEventToCounterMap, have_event, raw_have_event, lookup,
}
use rustsbi.Pmu.Calls.{Machine, bad_selection, refuse}

unfoldable pub first_free : PmuState → List ℕ → Result ℕ
first_free s [] = err not_supported
first_free s (i ∷ is) =
    if ltb i s.hw_counters_num || leb s.total_counters_num i
    then first_free s is
    else if not (s.active_event i == event_idx_invalid)
    then first_free s is
    else ok i

unfoldable pub find_firmware_counter : PmuState → ℕ → ℕ → ℕ → Result ℕ
find_firmware_counter s base mask event_idx =
    if not (firmware_event_valid event_idx)
    then err not_supported
    else first_free s (counters base mask 64)

abbrev pub is_fixed : ℕ → Option ℕ → Bool
is_fixed event_idx none = false
is_fixed event_idx (some offset) =
    (event_idx == cpu_cycles && offset == 0) || (event_idx == instructions && offset == 2)

unfoldable pub fixed_counter : Hardware → ℕ → List ℕ → Option ℕ
fixed_counter hw event_idx [] = none
fixed_counter hw event_idx (i ∷ is) =
    let rest = fixed_counter hw event_idx is in
    if is_fixed event_idx (get_mhpm_csr_offset hw i) then some i else rest

-- The counters of the first mapping that has the event, and 0 without one.
unfoldable pub event_mask : ℕ → List EventToCounterMap → ℕ
event_mask event_idx [] = 0
event_mask event_idx (m ∷ ms) =
    if have_event m event_idx then m.counters_mask else event_mask event_idx ms

unfoldable pub raw_event_mask : ℕ → List RawEventToCounterMap → ℕ
raw_event_mask event_data [] = 0
raw_event_mask event_data (m ∷ ms) =
    if raw_have_event m event_data then m.raw_counters_mask else raw_event_mask event_data ms

-- The value for `mhpmevent`, without the two fixed counters.
unfoldable pub mhpmevent_val : SbiPmu → ℕ → ℕ → Option ℕ
mhpmevent_val p event_idx event_data =
    if is_raw_event event_idx then some event_data else elim p.event_to_mhpmevent [
      | some table ↦ lookup (event_idx % 2 ^ 32) table
      | none ↦ elim p.event_to_mhpmcounter [ some maps ↦ some event_idx | none ↦ none ]
    ]

unfoldable pub pmu_update_hardware_mhpmevent : SbiPmu → Hardware → ℕ → ℕ → ℕ → Option Hardware
pmu_update_hardware_mhpmevent p hw offset event_idx event_data =
    if (offset == 0 && event_idx == 1) || (offset == 2 && event_idx == 2)
    then some hw
    else if offset == 1 || ltb 31 offset
    then none
    else elim (mhpmevent_val p event_idx event_data) [
      | none ↦ none
      | some value ↦ some (write_mhpmevent hw offset value)
    ]

-- Whether the search passes over the counter at an offset.
unfoldable pub passes_over : Machine → ℕ → ℕ → ℕ → ℕ → Bool
passes_over m usable event_idx counter_idx offset =
    (bit usable offset == 0 || not (m.pmu_state.active_event counter_idx == event_idx_invalid))
    || (((offset == 0 && not (event_idx == 1)) || (offset == 2 && not (event_idx == 2)))
        || (m.hardware.version_1_11 && bit m.hardware.mcountinhibit offset == 0))

-- `ok_or_else(SbiRet::not_supported)`.
abbrev pub or_not_supported : Option ℕ → Result ℕ
or_not_supported none = err not_supported
or_not_supported (some i) = ok i

unfoldable pub search_hardware :
    SbiPmu → Machine → ℕ → ℕ → ℕ → Option ℕ → List ℕ → Option (Machine × Result ℕ)
search_hardware p m usable event_idx event_data fixed [] = some (m, or_not_supported fixed)
search_hardware p m usable event_idx event_data fixed (i ∷ is) =
    let rest = search_hardware p m usable event_idx event_data fixed is in
    if leb m.pmu_state.hw_counters_num i then rest else elim (get_mhpm_csr_offset m.hardware i) [
      | none ↦ none
      | some offset ↦
          if passes_over m usable event_idx i offset
          then rest
          else elim (pmu_update_hardware_mhpmevent p m.hardware offset event_idx event_data) [
            | none ↦ some (m, err not_supported)
            | some hw ↦ some (record m { hardware = hw }, ok i)
          ]
    ]

unfoldable pub find_hardware_counter :
    SbiPmu → Machine → ℕ → ℕ → ℕ → ℕ → Option (Machine × Result ℕ)
find_hardware_counter p m base mask event_idx event_data =
    let selected = counters base mask 64 in
    let fixed = fixed_counter m.hardware event_idx selected in
    let search = λ (mapped : ℕ).
      search_hardware p m (bit_and mapped m.hardware.mhpm_mask) event_idx event_data fixed
        selected in
    if is_raw_event event_idx
    then elim p.raw_event_to_mhpmcounter [
      | none ↦ some (m, err not_supported)
      | some maps ↦ search (raw_event_mask event_data maps)
    ]
    else elim p.event_to_mhpmcounter [
      | none ↦ some (m, or_not_supported fixed)
      | some maps ↦ search (event_mask (event_idx % 2 ^ 32) maps)
    ]

-- The flags of `ConfigFlags` that the code reads, of eight that there are.
abbrev pub skip_match : ℕ → Bool
skip_match flags = bit flags 0 == 1

abbrev pub clear_value : ℕ → Bool
clear_value flags = bit flags 1 == 1

abbrev pub auto_start : ℕ → Bool
auto_start flags = bit flags 2 == 1

-- The subtraction wraps, as in a release build.
unfoldable pub configure_firmware : PmuState → ℕ → ℕ → PmuState × Option SbiRet
configure_firmware s counter_idx flags =
    let fw_idx = (counter_idx + 2 ^ 64 - s.hw_counters_num) % 2 ^ 64 in
    if leb firmware_counter_max fw_idx then (s, some refuse) else (
      record s {
        fw_counter = if clear_value flags then assign s.fw_counter fw_idx 0 else s.fw_counter;
        fw_counter_state =
            if auto_start flags then bit_or s.fw_counter_state (2 ^ fw_idx) else s.fw_counter_state;
      },
      none,
    )

unfoldable pub configure_hardware : Hardware → ℕ → ℕ → Hardware × Option SbiRet
configure_hardware hw offset flags =
    let cleared = if clear_value flags then write_mhpmcounter hw offset 0 else hw in
    let started = start_hardware_counter cleared offset 0 false in
    if auto_start flags
    then elim started.1 [
      | none ↦ (started.0, none)
      | some e ↦ (started.0, some (from_error not_supported))
    ]
    else (cleared, none)

unfoldable pub configure_counter : Machine → ℕ → ℕ → ℕ → Option (Machine × Option SbiRet)
configure_counter m counter_idx event_idx flags =
    let by_firmware = configure_firmware m.pmu_state counter_idx flags in
    if is_firmware_event event_idx
    then some (record m { pmu_state = by_firmware.0 }, by_firmware.1)
    else elim (get_mhpm_csr_offset m.hardware counter_idx) [
      | none ↦ none
      | some offset ↦
          let r = configure_hardware m.hardware offset flags in
          some (record m { hardware = r.0 }, r.1)
    ]

-- The set-up of the chosen counter, and the answer.
unfoldable pub set_up : Machine → ℕ → ℕ → ℕ → Option (Machine × SbiRet)
set_up m counter_idx event_idx flags = elim (configure_counter m counter_idx event_idx flags) [
  | none ↦ none
  | some r ↦ elim r.1 [ none ↦ some (r.0, success counter_idx) | some e ↦ some (r.0, e) ]
]

unfoldable pub set_up_match : Machine → Result ℕ → ℕ → ℕ → Option (Machine × SbiRet)
set_up_match m (err e) event_idx flags = some (m, from_error e)
set_up_match m (ok i) event_idx flags =
    set_up
      (record m {
        pmu_state = record m.pmu_state {
          active_event = assign m.pmu_state.active_event i event_idx;
        };
      })
      i event_idx flags

unfoldable pub bad_event : ℕ → Bool
bad_event event_idx =
    not (check_event_type event_idx)
    || (is_firmware_event event_idx && not (firmware_event_valid event_idx))

unfoldable pub counter_config_matching :
    SbiPmu → Machine → ℕ → ℕ → ℕ → ℕ → ℕ → Option (Machine × SbiRet)
counter_config_matching p m base mask flags event_idx event_data =
    if leb 256 flags
    then some (m, refuse)
    else if bad_selection m.pmu_state base mask || bad_event event_idx
    then some (m, refuse)
    else if skip_match flags
    then elim (counters base mask 64) [
      | [] ↦ some (m, refuse)
      | i ∷ is ↦
          if m.pmu_state.active_event i == event_idx_invalid
          then some (m, refuse)
          else set_up m i event_idx flags
    ]
    else if is_firmware_event event_idx
    then set_up_match m (find_firmware_counter m.pmu_state base mask event_idx) event_idx flags
    else elim (find_hardware_counter p m base mask event_idx event_data) [
      | none ↦ none
      | some r ↦ set_up_match r.0 r.1 event_idx flags
    ]
