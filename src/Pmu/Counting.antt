-- ===== src/Pmu/Counting.antt =====
-- A firmware counter from its configuration to its reading, and the panic of a configuration.
use rustsbi.Base.{
  ℕ, zero, suc, ◌+◌, ◌-◌, ◌%◌, ◌^◌, ◌≤◌, ◌<◌, bit_or, ◌≡◌, refl, ap, ◌∙◌, ◌≢◌, true, false, none,
  some, List, ◌∷◌, arith, ltb, leb, ◌==◌,
}
use rustsbi.Base.Words.{one_shl, test_bit, bit-set_bit_self}
use rustsbi.Spec.Ret.{success}
use rustsbi.Pmu.Events.{
  from_firmware_event, is_firmware_event, firmware_event_valid, event_code, platform,
}
use rustsbi.Pmu.State.{
  PmuState, event_idx_invalid, firmware_counter_max, counters, not_firmware,
  is_firmware_event_start, pmu_firmware_counter_increment, get_event_idx, get_fw_counter,
}
use rustsbi.Pmu.Maps.{SbiPmu}
use rustsbi.Pmu.Calls.{Machine, bad_selection, counter_fw_read}
use rustsbi.Pmu.Offsets.{offset_beyond}
use rustsbi.Pmu.Selection.{IsCounted}
use rustsbi.Pmu.Config.{
  counter_config_matching, skip_match, clear_value, auto_start, bad_event, set_up,
  configure_counter,
}
use rustsbi.Pmu.Increment.{
  SameSetup, trans_setup, counts_event, counts_event-SameSetup, pmu_firmware_counter_increment_lem,
}
use rustsbi.Pmu.Firmware.{set_for, config_matching-firmware}

-- `n` occurrences of a firmware event.
unfoldable pub increments : ℕ → PmuState → ℕ → PmuState
increments zero s event = s
increments (suc n) s event = increments n (pmu_firmware_counter_increment true s event) event

increments_lem :
    (n : ℕ) (s : PmuState) (event j : ℕ)
    → j < firmware_counter_max
    → counts_event s event j ≡ true
    → s.fw_counter j < 2 ^ 64
    → SameSetup s (increments n s event)
      × ((increments n s event).fw_counter j ≡ (s.fw_counter j + n) % 2 ^ 64)
unfolding increments
increments_lem zero s event j lt on word = (
  record { same_events = λ i. refl; same_started = refl; same_hw = refl; same_total = refl },
  omega arith,
)
increments_lem (suc n) s event j lt on word =
    let (same, step) = pmu_firmware_counter_increment_lem s event j lt in
    let s' = pmu_firmware_counter_increment true s event in
    let one : s'.fw_counter j ≡ (s.fw_counter j + 1) % 2 ^ 64 = ground (arith, step, on) in
    let still = counts_event-SameSetup s s' event j same ∙ on in
    let (same', rest) = increments_lem n s' event j lt still (omega (arith, one)) in
    (trans_setup same same', omega (arith, rest, one, word))

-- A counter that is set up for an event and started counts it.
set_for-counts :
    (s : PmuState) (i event flags : ℕ)
    → s.hw_counters_num ≤ i
    → i < s.total_counters_num
    → auto_start flags ≡ true
    → counts_event (set_for s i (from_firmware_event event) flags) event (i - s.hw_counters_num)
      ≡ true
unfolding is_firmware_event_start not_firmware
set_for-counts s i event flags low high started =
    let k = i - s.hw_counters_num in
    let back : s.hw_counters_num + k ≡ i = omega arith in
    let set = test_bit (bit_or s.fw_counter_state (one_shl k)) k in
    let on = bit-set_bit_self s.fw_counter_state k in rw (back) (ground (arith, set, on, started))

fw_read_lem :
    (m : Machine) (i : ℕ)
    → m.pmu_state.hw_counters_num ≤ i
    → i < m.pmu_state.total_counters_num
    → firmware_event_valid (m.pmu_state.active_event i) ≡ true
    → counter_fw_read m i ≡ success (m.pmu_state.fw_counter (i - m.pmu_state.hw_counters_num))
unfolding counter_fw_read get_event_idx get_fw_counter not_firmware firmware_event_valid
fw_read_lem m i low high valid =
    let s = m.pmu_state in
    let here : leb s.total_counters_num i ≡ false = ground arith in
    let ours : ltb i s.hw_counters_num ≡ false = ground arith in
    let known : (event_code (s.active_event i) == platform) ≡ false = ground arith in
    let event : get_event_idx s i true ≡ some (s.active_event i) =
      rw (get_event_idx, here, ours) refl in
    let value : get_fw_counter s i ≡ some (s.fw_counter (i - s.hw_counters_num)) =
      rw (get_fw_counter, not_firmware, here, ours) refl in
    rw (counter_fw_read, event, valid, known, value) refl

-- A hart whose counters are those of its mask, on which a configuration of a firmware event with
-- the flags to clear and to start succeeds without skipping the search: after `n` occurrences of
-- the event, reading the counter that it returned gives `n`, modulo 2^64.
pub counter_fw_read-config_matching :
    (p : SbiPmu) (m m' : Machine) (base mask flags code event_data i n : ℕ)
    → IsCounted m
    → is_firmware_event (from_firmware_event code) ≡ true
    → skip_match flags ≡ false
    → clear_value flags ≡ true
    → auto_start flags ≡ true
    → counter_config_matching p m base mask flags (from_firmware_event code) event_data
      ≡ some (m', success i)
    → counter_fw_read (record m' { pmu_state = increments n m'.pmu_state code }) i
      ≡ success (n % 2 ^ 64)
counter_fw_read-config_matching p m m' base mask flags code event_data i n c fw looks clear start
      e =
    let event = from_firmware_event code in
    let (chosen, free, valid, shape) =
      config_matching-firmware p m m' base mask flags event event_data i c fw looks e in
    let s : PmuState = set_for m.pmu_state i event flags in
    let k = i - m.pmu_state.hw_counters_num in
    let small : k < firmware_counter_max = omega (arith, c.all_counters, free.0, free.1) in
    let empty : s.fw_counter k ≡ 0 = ground (arith, clear) in
    let (same, counted) =
      increments_lem n s code k small (set_for-counts m.pmu_state i code flags free.0 free.1 start)
        (omega (arith, empty)) in
    let m'' : Machine = record m { pmu_state = increments n s code } in
    let event_kept : m''.pmu_state.active_event i ≡ event = same.same_events i ∙ ground arith in
    let low : m''.pmu_state.hw_counters_num ≤ i = rw (same.same_hw) free.0 in
    let high : i < m''.pmu_state.total_counters_num = rw (same.same_total) free.1 in
    let read = fw_read_lem m'' i low high (ap firmware_event_valid event_kept ∙ valid) in
    let final : m''.pmu_state.fw_counter (i - m''.pmu_state.hw_counters_num) ≡ n % 2 ^ 64 =
      ap (λ (t : ℕ). (increments n s code).fw_counter (i - t)) same.same_hw
      ∙ counted
      ∙ omega (arith, empty) in
    rw (shape) (read ∙ ap success final)

-- A configuration with valid flags, a valid hardware event and counters that are all there, which
-- skips the search, panics when the lowest counter selected is a firmware counter that is in use.
pub config_matching_panics :
    (p : SbiPmu) (m : Machine) (base mask flags event event_data i : ℕ) (is : List ℕ)
    → IsCounted m
    → flags < 256
    → bad_selection m.pmu_state base mask ≡ false
    → bad_event event ≡ false
    → is_firmware_event event ≡ false
    → skip_match flags ≡ true
    → counters base mask 64 ≡ i ∷ is
    → m.pmu_state.hw_counters_num ≤ i
    → m.pmu_state.active_event i ≢ event_idx_invalid
    → counter_config_matching p m base mask flags event event_data ≡ none
unfolding counter_config_matching set_up configure_counter
config_matching_panics p m base mask flags event event_data i is c small sel good hard skips first
      low used =
    let known : leb 256 flags ≡ false = ground arith in
    let taken : (m.pmu_state.active_event i == event_idx_invalid) ≡ false = ground arith in
    let missing = offset_beyond m.hardware i (omega (arith, c.hardware_counters)) in
    rw
      (
        counter_config_matching, known, sel, good, skips, first, taken, set_up, configure_counter,
        hard, missing,
      )
      refl
