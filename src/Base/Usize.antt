-- ===== src/Base/Usize.antt =====
-- `usize` on the 64-bit targets: its width, its greatest value, and its addition, which wraps in
-- release builds.
use rustsbi.Base.{ℕ, ◌+◌, ◌-◌, ◌%◌, ◌^◌, ◌<◌, Option, none, some, ltb, if◌then◌else◌}

abbrev pub usize_bits : ℕ
usize_bits = 64

abbrev pub usize_max : ℕ
usize_max = 2 ^ 64 - 1

abbrev pub IsUsize : ℕ → Type 0
IsUsize x = x < 2 ^ 64

abbrev pub wrapping_add : ℕ → ℕ → ℕ
wrapping_add a b = (a + b) % 2 ^ 64

abbrev pub checked_add : ℕ → ℕ → Option ℕ
checked_add a b = if ltb (a + b) (2 ^ 64) then some (a + b) else none
