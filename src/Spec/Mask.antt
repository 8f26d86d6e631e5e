-- ===== src/Spec/Mask.antt =====
-- library/sbi-spec/src/binary/mask_commons.rs and counter_mask.rs: a window of `usize::BITS` bits
-- that starts at a base, or everything when the base is the ignore value.
use rustsbi.Base.{ℕ, ◌-◌, bit_and, Bool, true, false, not, ltb, leb, ◌==◌, if◌then◌else◌}
use rustsbi.Base.Usize.{usize_bits, usize_max}
use rustsbi.Base.Words.{one_shl}

unfoldable pub valid_bit : ℕ → ℕ → Bool
valid_bit base i = if ltb i base then false else if leb usize_bits (i - base) then false else true

unfoldable pub has_bit : ℕ → ℕ → ℕ → ℕ → Bool
unfolding valid_bit
has_bit mask base ignore i =
    if base == ignore
    then true
    else if not (valid_bit base i)
    then false
    else not (bit_and mask (one_shl (i - base)) == 0)

pub data MaskError : Type 0 where
  ignored invalid_bit : MaskError

-- `Result<(), MaskError>` beside the mask that a method leaves behind `&mut self`.
pub data Change {ℓ} (A : Type ℓ) : Type ℓ where
  done : A → Change A
  refused : A → MaskError → Change A

pub record CounterMask : Type 0 where
  pub counter_idx_mask : ℕ
  pub counter_idx_base : ℕ

-- `CounterMask::has_bit`.
pub has_counter : CounterMask → ℕ → Bool
has_counter m counter = has_bit m.counter_idx_mask m.counter_idx_base usize_max counter
