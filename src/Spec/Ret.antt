-- ===== src/Spec/Ret.antt =====
-- library/sbi-spec/src/binary/sbi_ret.rs: `SbiRet`, `Error` and the conversions between them, at
-- `T = usize`. A negative error code is its two's complement.
pub mod Conversions
mod Examples
use rustsbi.Base.{ℕ, ◌-◌, ◌^◌, Bool, not, ◌==◌, if◌then◌else◌}

pub record SbiRet : Type 0 where
  pub error : ℕ
  pub value : ℕ

-- `-k as isize as usize`.
abbrev pub negative : ℕ → ℕ
negative k = 2 ^ 64 - k

abbrev pub ret_success : ℕ
ret_success = 0

pub data Error : Type 0 where
  failed not_supported invalid_param denied invalid_address : Error
  already_available already_started already_stopped : Error
  no_shmem invalid_state bad_range timeout io denied_locked : Error
  custom : ℕ → Error

pub data Result {ℓ} (A : Type ℓ) : Type ℓ where
  ok : A → Result A
  err : Error → Result A

-- The constructors `SbiRet::success`, `SbiRet::failed` and so on.
abbrev pub success : ℕ → SbiRet
success v = record { error = ret_success; value = v }

abbrev pub fails_with : ℕ → SbiRet
fails_with code = record { error = code; value = 0 }

-- `From<Error> for SbiRet`.
unfoldable pub from_error : Error → SbiRet
from_error failed = fails_with (negative 1)
from_error not_supported = fails_with (negative 2)
from_error invalid_param = fails_with (negative 3)
from_error denied = fails_with (negative 4)
from_error invalid_address = fails_with (negative 5)
from_error already_available = fails_with (negative 6)
from_error already_started = fails_with (negative 7)
from_error already_stopped = fails_with (negative 8)
from_error no_shmem = fails_with (negative 9)
from_error invalid_state = fails_with (negative 10)
from_error bad_range = fails_with (negative 11)
from_error timeout = fails_with (negative 12)
from_error io = fails_with (negative 13)
from_error denied_locked = fails_with (negative 14)
from_error (custom code) = fails_with code

-- The error of a code that is not `RET_SUCCESS`.
unfoldable pub to_error : ℕ → Error
to_error c =
    if c == negative 1
    then failed
    else if c == negative 2
    then not_supported
    else if c == negative 3
    then invalid_param
    else if c == negative 4
    then denied
    else if c == negative 5
    then invalid_address
    else if c == negative 6
    then already_available
    else if c == negative 7
    then already_started
    else if c == negative 8
    then already_stopped
    else if c == negative 9
    then no_shmem
    else if c == negative 10
    then invalid_state
    else if c == negative 11
    then bad_range
    else if c == negative 12
    then timeout
    else if c == negative 13
    then io
    else if c == negative 14
    then denied_locked
    else custom c

-- `SbiRet::into_result`.
unfoldable pub into_result : SbiRet → Result ℕ
into_result r = if r.error == ret_success then ok r.value else err (to_error r.error)

unfoldable pub is_ok : SbiRet → Bool
is_ok r = r.error == ret_success

pub is_err : SbiRet → Bool
unfolding is_ok
is_err r = not (is_ok r)
