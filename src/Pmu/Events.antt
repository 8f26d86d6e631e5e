-- ===== src/Pmu/Events.antt =====
-- `EventIdx` of pmu.rs: an event index is 16 bits of code and 4 bits of type.
use rustsbi.Base.{
  ℕ, ◌*◌, ◌/◌, ◌^◌, bit_and, bit_or, Bool, false, not, ◌&&◌, ◌||◌, ltb, leb, ◌==◌, if◌then◌else◌,
}

abbrev pub hardware_general : ℕ
hardware_general = 0

abbrev pub hardware_cache : ℕ
hardware_cache = 1

abbrev pub hardware_raw : ℕ
hardware_raw = 2

abbrev pub hardware_raw_v2 : ℕ
hardware_raw_v2 = 3

abbrev pub firmware : ℕ
firmware = 15

abbrev pub cpu_cycles : ℕ
cpu_cycles = 1

abbrev pub instructions : ℕ
instructions = 2

abbrev pub ref_cpu_cycles : ℕ
ref_cpu_cycles = 10

abbrev pub hfence_vvma_asid_received : ℕ
hfence_vvma_asid_received = 21

abbrev pub platform : ℕ
platform = 65535

unfoldable pub event_type : ℕ → ℕ
event_type e = bit_and (e / 2 ^ 16) 0xF

unfoldable pub event_code : ℕ → ℕ
event_code e = bit_and e 0xFFFF

-- `0xf << 16 | firmware_event`.
unfoldable pub from_firmware_event : ℕ → ℕ
from_firmware_event code = bit_or (firmware * 2 ^ 16) code

unfoldable pub cache_id : ℕ → ℕ
cache_id e = bit_and (e / 2 ^ 3) 0x1FFF

unfoldable pub cache_op_id : ℕ → ℕ
cache_op_id e = bit_and (e / 2) 0x3

unfoldable pub cache_result_id : ℕ → ℕ
cache_result_id e = bit_and e 0x1

unfoldable pub is_raw_event : ℕ → Bool
is_raw_event e = event_type e == hardware_raw || event_type e == hardware_raw_v2

unfoldable pub is_firmware_event : ℕ → Bool
is_firmware_event e = event_type e == firmware

unfoldable pub check_event_type : ℕ → Bool
check_event_type e =
    if event_type e == hardware_general
    then leb (event_code e) ref_cpu_cycles
    else if event_type e == hardware_cache
    then leb (cache_id e) 6 && (leb (cache_op_id e) 2 && leb (cache_result_id e) 1)
    else if event_type e == hardware_raw || event_type e == hardware_raw_v2
    then event_code e == 0
    else event_type e == firmware

unfoldable pub firmware_event_valid : ℕ → Bool
firmware_event_valid e =
    if not (event_type e == firmware)
    then false
    else not (
        (ltb hfence_vvma_asid_received (event_code e) && ltb (event_code e) platform)
        || leb platform (event_code e))
