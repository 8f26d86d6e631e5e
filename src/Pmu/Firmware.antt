-- ===== src/Pmu/Firmware.antt =====
-- `counter_config_matching` for firmware events.
use rustsbi.Base.{
  ℕ, ◌+◌, ◌-◌, ◌%◌, ◌^◌, ◌≤◌, ◌<◌, bit_or, ◌≡◌, refl, sym, ap, ◌∙◌, ◌≢◌, inl, inr, true, false,
  ◌||◌, Option, none, some, List, [], ◌∷◌, arith, ltb, leb, ◌==◌, if◌then◌else◌, Bool-cases, elem,
}
use rustsbi.Base.Families.{assign}
use rustsbi.Base.Words.{count_ones-le}
use rustsbi.Spec.Ret.{SbiRet, Result, Error, ok, err, success, from_error, not_supported}
use rustsbi.Pmu.Events.{is_firmware_event, firmware_event_valid}
use rustsbi.Pmu.State.{PmuState, event_idx_invalid, firmware_counter_max, counters}
use rustsbi.Pmu.Maps.{SbiPmu}
use rustsbi.Pmu.Calls.{Machine, bad_selection, refuse}
use rustsbi.Pmu.Selection.{IsCounted}
use rustsbi.Pmu.Config.{
  first_free, find_firmware_counter, configure_firmware, configure_counter, set_up, set_up_match,
  bad_event, counter_config_matching, skip_match, clear_value, auto_start,
}

-- A free firmware counter among some.
abbrev pub IsFree : PmuState → ℕ → Type 0
IsFree s i =
    (s.hw_counters_num ≤ i) × (i < s.total_counters_num) × (s.active_event i ≡ event_idx_invalid)

first_free_lem :
    (s : PmuState) (is : List ℕ) (i : ℕ) → first_free s is ≡ ok i → (elem i is ≡ true) × IsFree s i
unfolding first_free elem
first_free_lem s [] i e = absurd cc
first_free_lem s (k ∷ is) i e =
    elim (Bool-cases (ltb k s.hw_counters_num || leb s.total_counters_num k)) [
      | inl other ↦
          let rest = first_free_lem s is i (rw (first_free, other) at e) in
          (ground (arith, rest.0), rest.1)
      | inr ours ↦ elim (Bool-cases (s.active_event k == event_idx_invalid)) [
        | inr taken ↦
            let rest = first_free_lem s is i (rw (first_free, ours, taken) at e) in
            (ground (arith, rest.0), rest.1)
        | inl free ↦
            let answer : Result ℕ = ok k in
            let e' : answer ≡ ok i = rw (first_free, ours, free) at e in
            let same : k ≡ i = cc in
            rw (← same) (ground arith, (ground arith, ground arith, ground arith))
      ]
    ]

-- The firmware counter `i` cleared and started as the flags say, and set up for an event.
abbrev readied : PmuState → ℕ → ℕ → PmuState
readied s i flags = record s {
  fw_counter =
      if clear_value flags then assign s.fw_counter (i - s.hw_counters_num) 0 else s.fw_counter;
  fw_counter_state =
      if auto_start flags
      then bit_or s.fw_counter_state (2 ^ (i - s.hw_counters_num))
      else s.fw_counter_state;
}

abbrev pub set_for : PmuState → ℕ → ℕ → ℕ → PmuState
set_for s i event flags =
    readied (record s { active_event = assign s.active_event i event }) i flags

first_free-error :
    (s : PmuState) (is : List ℕ) (x : Error) → first_free s is ≡ err x → x ≡ not_supported
unfolding first_free
first_free-error s [] x e = cc
first_free-error s (k ∷ is) x e =
    elim (Bool-cases (ltb k s.hw_counters_num || leb s.total_counters_num k)) [
      | inl other ↦ first_free-error s is x (rw (first_free, other) at e)
      | inr ours ↦ elim (Bool-cases (s.active_event k == event_idx_invalid)) [
        | inr taken ↦ first_free-error s is x (rw (first_free, ours, taken) at e)
        | inl free ↦
            let answer : Result ℕ = ok k in
            let e' : answer ≡ err x = rw (first_free, ours, free) at e in absurd cc
      ]
    ]

value_of : Option (Machine × SbiRet) → ℕ
value_of none = 0
value_of (some r) = r.1.value

after : Machine → Option (Machine × SbiRet) → Machine
after m none = m
after m (some r) = r.0

code : Option (Machine × SbiRet) → ℕ
code none = 0
code (some r) = r.1.error

not_success :
    (m m' : Machine) (i : ℕ) (x : SbiRet)
    → x.error ≢ 0
    → ◌≡◌ {A = Option (Machine × SbiRet)} (some (m, x)) (some (m', success i))
    → ⊥
unfolding code
not_success m m' i x ne e = ne (ap code e)

wrapped_sub : (i hw : ℕ) → hw ≤ i → i < 2 ^ 64 → (i + 2 ^ 64 - hw) % 2 ^ 64 ≡ i - hw
wrapped_sub i hw h k = omega arith

configure_firmware_lem :
    (s : PmuState) (i flags : ℕ)
    → s.hw_counters_num ≤ i
    → i < 2 ^ 64
    → i < s.hw_counters_num + firmware_counter_max
    → configure_firmware s i flags ≡ (readied s i flags, none)
unfolding configure_firmware
configure_firmware_lem s i flags low word high =
    let fits : leb firmware_counter_max (i - s.hw_counters_num) ≡ false = ground arith in
    rw (configure_firmware, wrapped_sub i s.hw_counters_num low word, fits) refl

set_up-firmware :
    (m : Machine) (i event flags : ℕ)
    → IsCounted m
    → is_firmware_event event ≡ true
    → m.pmu_state.hw_counters_num ≤ i
    → i < m.pmu_state.total_counters_num
    → set_up_match m (ok i) event flags
      ≡ some (record m { pmu_state = set_for m.pmu_state i event flags }, success i)
unfolding set_up_match set_up configure_counter
set_up-firmware m i event flags c fw low high =
    let bound = count_ones-le 32 m.hardware.mhpm_mask in
    let s : PmuState = record m.pmu_state {
      active_event = assign m.pmu_state.active_event i event;
    } in
    let done =
      configure_firmware_lem s i flags low
        (omega (arith, c.hardware_counters, c.all_counters, bound))
        (omega (arith, c.all_counters)) in
    let whole : PmuState × Option SbiRet → Option (Machine × SbiRet) =
      λ q. some (record m { pmu_state = q.0 }, success i) in
    rw (set_up_match, set_up, configure_counter, fw, done) (ap whole done)

error_word : (from_error not_supported).error ≢ 0
unfolding from_error
error_word = omega arith

refuse_word : refuse.error ≢ 0
unfolding from_error
refuse_word = omega arith

-- A configuration of a firmware event that succeeds, and is not told to skip the search, returns a
-- selected firmware counter that was free, and leaves it set up for the event, with the value and
-- the start that the flags ask for; it changes nothing else.
pub config_matching-firmware :
    (p : SbiPmu) (m m' : Machine) (base mask flags event event_data i : ℕ)
    → IsCounted m
    → is_firmware_event event ≡ true
    → skip_match flags ≡ false
    → counter_config_matching p m base mask flags event event_data ≡ some (m', success i)
    → (elem i (counters base mask 64) ≡ true)
      × IsFree m.pmu_state i
      × (firmware_event_valid event ≡ true)
      × (m' ≡ record m { pmu_state = set_for m.pmu_state i event flags })
unfolding counter_config_matching find_firmware_counter set_up_match bad_event value_of after
config_matching-firmware p m m' base mask flags event event_data i c fw looks e =
    elim (Bool-cases (leb 256 flags)) [
      | inl reserved ↦
          absurd
            (not_success m m' i refuse refuse_word (rw (counter_config_matching, reserved) at e))
      | inr known ↦ elim (Bool-cases (bad_selection m.pmu_state base mask || bad_event event)) [
        | inl bad ↦
            absurd (
              not_success m m' i refuse refuse_word (rw (counter_config_matching, known, bad) at e))
        | inr good ↦
            let valid : firmware_event_valid event ≡ true = ground arith in
            let found = find_firmware_counter m.pmu_state base mask event in
            let e1 : set_up_match m found event flags ≡ some (m', success i) =
              rw (counter_config_matching, known, good, looks, fw) at e in
            finish valid (first_free m.pmu_state (counters base mask 64)) refl
              (rw (find_firmware_counter, valid) at e1)
      ]
    ]
  where
    finish :
        firmware_event_valid event ≡ true
        → (r : Result ℕ) → first_free m.pmu_state (counters base mask 64) ≡ r
        → set_up_match m (first_free m.pmu_state (counters base mask 64)) event flags
          ≡ some (m', success i)
        → (elem i (counters base mask 64) ≡ true)
          × IsFree m.pmu_state i
          × (firmware_event_valid event ≡ true)
          × (m' ≡ record m { pmu_state = set_for m.pmu_state i event flags })
    finish valid (err x) f e1 =
        let which = first_free-error m.pmu_state (counters base mask 64) x f in
        let e2 : set_up_match m (err not_supported) event flags ≡ some (m', success i) =
          rw (f, which) at e1 in
        absurd (not_success m m' i (from_error not_supported) error_word e2)
    finish valid (ok k) f e1 =
        let (chosen, free) = first_free_lem m.pmu_state (counters base mask 64) k f in
        let made = set_up-firmware m k event flags c fw free.0 free.1 in
        let e2 : set_up_match m (ok k) event flags ≡ some (m', success i) = rw (f) at e1 in
        let same_index : k ≡ i = ap value_of (sym made ∙ e2) in
        let same_machine = ap (after m) (sym made ∙ e2) in
        rw (← same_index) (chosen, free, valid, sym same_machine)
