-- ===== src/Pmu/Hardware.antt =====
-- The hardware counters of pmu.rs: their registers, by offset from `mcycle`.
use rustsbi.Base.{
  ℕ, zero, suc, bit_and, bit_or, Bool, not, ◌&&◌, ◌||◌, Option, none, some, leb, ◌==◌,
  if◌then◌else◌,
}
use rustsbi.Base.Words.{bit, one_shl, not_word}
use rustsbi.Base.Families.{assign}
use rustsbi.Pmu.State.{
  StartCounterErr, StopCounterErr, offset_invalid, already_start, stop_offset_invalid, already_stop,
}

-- `version_1_11` is whether the privileged version is at least 1.11.
pub record Hardware : Type 0 where
  pub mhpm_mask : ℕ
  pub version_1_11 : Bool
  pub mcountinhibit : ℕ
  pub mhpmcounter : ℕ → ℕ
  pub mhpmevent : ℕ → ℕ

-- The loop of `get_mhpm_csr_offset` over `n` offsets.
unfoldable pub offset_from : ℕ → ℕ → ℕ → ℕ → ℕ → Option ℕ
offset_from mask counter_idx offset count zero = none
offset_from mask counter_idx offset count (suc n) =
    let rest =
      offset_from mask counter_idx (suc offset) (if bit mask offset == 1 then suc count else count)
        n in
    if bit mask offset == 1 && count == counter_idx then some offset else rest

unfoldable pub get_mhpm_csr_offset : Hardware → ℕ → Option ℕ
get_mhpm_csr_offset hw counter_idx = offset_from hw.mhpm_mask counter_idx 0 0 32

unfoldable pub write_mhpmcounter : Hardware → ℕ → ℕ → Hardware
write_mhpmcounter hw offset value =
    if offset == 0 || (offset == 2 || (leb 3 offset && leb offset 31))
    then record hw { mhpmcounter = assign hw.mhpmcounter offset value }
    else hw

unfoldable pub write_mhpmevent : Hardware → ℕ → ℕ → Hardware
write_mhpmevent hw offset value =
    if leb 3 offset && leb offset 31
    then record hw { mhpmevent = assign hw.mhpmevent offset value }
    else hw

pub data HardwareCounter : Type 0 where
  cycle instret : HardwareCounter
  hpm : ℕ → HardwareCounter

unfoldable pub try_from_offset : ℕ → Option HardwareCounter
try_from_offset offset =
    if offset == 0
    then some cycle
    else if offset == 2
    then some instret
    else if leb 3 offset && leb offset 31
    then some (hpm offset)
    else none

-- The place of the counter in `mcountinhibit`.
unfoldable pub inhibit_bit : HardwareCounter → ℕ
inhibit_bit cycle = 0
inhibit_bit instret = 2
inhibit_bit (hpm offset) = offset

unfoldable pub inhibit_mask : HardwareCounter → ℕ
inhibit_mask c = one_shl (inhibit_bit c)

-- `start` clears the inhibit bit and `stop` sets it; `sync_shadow` only reads.
unfoldable pub start : Hardware → HardwareCounter → Hardware
start hw c = record hw { mcountinhibit = bit_and hw.mcountinhibit (not_word 64 (inhibit_mask c)) }

unfoldable pub stop : Hardware → HardwareCounter → Hardware
stop hw c = record hw { mcountinhibit = bit_or hw.mcountinhibit (inhibit_mask c) }

unfoldable pub start_hardware_counter : Hardware → ℕ → ℕ → Bool → Hardware × Option StartCounterErr
start_hardware_counter hw offset new_value is_update_value =
    let updated = if is_update_value then write_mhpmcounter hw offset new_value else hw in
    elim (try_from_offset offset) [
      | none ↦ (hw, some offset_invalid)
      | some counter ↦
          if not hw.version_1_11
          then (updated, none)
          else if bit_and hw.mcountinhibit (inhibit_mask counter) == 0
          then (hw, some already_start)
          else (start updated counter, none)
    ]

unfoldable pub stop_hardware_counter : Hardware → ℕ → Bool → Hardware × Option StopCounterErr
stop_hardware_counter hw offset is_reset =
    let cleared =
      if is_reset && (leb 3 offset && leb offset 31) then write_mhpmevent hw offset 0 else hw in
    elim (try_from_offset offset) [
      | none ↦ (hw, some stop_offset_invalid)
      | some counter ↦
          if not hw.version_1_11
          then (cleared, none)
          else if not (bit_and hw.mcountinhibit (inhibit_mask counter) == 0)
          then (cleared, some already_stop)
          else (stop cleared counter, none)
    ]
