-- ===== src/Fdt/Format.antt =====
-- firmware/runtime/src/device_tree/patch/format.rs: checked reads of a device tree blob.
use rustsbi.Base.{
  ℕ, zero, suc, ◌+◌, ◌-◌, ◌*◌, ◌/◌, ◌^◌, Bool, true, false, Option, none, some, List, [], ◌∷◌, leb,
  ◌==◌, if◌then◌else◌, length,
}
use rustsbi.Base.Usize.{checked_add}
use rustsbi.Memory.{RtError, RtResult, good, bad, invalid_args, overflow}

infixl 5 ◌>>=◌
abbrev pub ◌>>=◌ : {A B : Type 0} → RtResult A → (A → RtResult B) → RtResult B
good a >>= f = f a
bad e >>= f = bad e

-- `.ok_or(e)`.
abbrev pub ok_or : {A : Type 0} → RtError → Option A → RtResult A
ok_or e (some a) = good a
ok_or e none = bad e

abbrev pub guard : Bool → RtResult (Unit {0})
guard true = good tt
guard false = bad invalid_args

abbrev pub consed : ℕ → Option (List ℕ) → Option (List ℕ)
consed x none = none
consed x (some xs) = some (x ∷ xs)

-- The first `n` bytes, and what is behind them, if there are as many.
unfoldable pub first_bytes : List ℕ → ℕ → Option (List ℕ)
first_bytes xs zero = some []
first_bytes [] (suc n) = none
first_bytes (x ∷ xs) (suc n) = consed x (first_bytes xs n)

-- `bytes.get(offset..)`.
unfoldable pub tail_from : List ℕ → ℕ → Option (List ℕ)
tail_from xs zero = some xs
tail_from [] (suc n) = none
tail_from (x ∷ xs) (suc n) = tail_from xs n

abbrev pub first_of : ℕ → Option (List ℕ) → Option (List ℕ)
first_of n none = none
first_of n (some xs) = first_bytes xs n

-- `bytes.get(a..b)`.
unfoldable pub get_range : List ℕ → ℕ → ℕ → Option (List ℕ)
get_range xs a b = if leb a b then first_of (b - a) (tail_from xs a) else none

-- `u32::from_be_bytes`.
abbrev pub from_be : List ℕ → RtResult ℕ
from_be (a ∷ b ∷ c ∷ d ∷ []) = good (a * 2 ^ 24 + b * 2 ^ 16 + c * 2 ^ 8 + d)
from_be _ = bad invalid_args

unfoldable pub read_u32 : List ℕ → ℕ → RtResult ℕ
read_u32 bytes offset = do
  limit ← ok_or overflow (checked_add offset 4)
  encoded ← ok_or invalid_args (get_range bytes offset limit)
  from_be encoded

-- `take_u32`, with the new offset.
unfoldable pub take_u32 : List ℕ → ℕ → RtResult (ℕ × ℕ)
take_u32 bytes offset = do
  value ← read_u32 bytes offset
  next ← ok_or overflow (checked_add offset 4)
  good (value, next)

-- `align_up` of `alignment`, a power of two.
unfoldable pub align_up : ℕ → ℕ → RtResult ℕ
align_up value alignment = do
  sum ← ok_or overflow (checked_add value (alignment - 1))
  good (sum / alignment * alignment)

-- The bytes before the first 0.
unfoldable pub until_nul : List ℕ → Option (List ℕ)
until_nul [] = none
until_nul (x ∷ xs) = if x == 0 then some [] else consed x (until_nul xs)

-- `take_c_string`, with the new offset; `is_utf8` is the check of the text.
unfoldable pub take_c_string : (List ℕ → Bool) → List ℕ → ℕ → RtResult (List ℕ × ℕ)
take_c_string is_utf8 bytes offset = do
  rest ← ok_or invalid_args (tail_from bytes offset)
  name ← ok_or invalid_args (until_nul rest)
  _ ← guard (is_utf8 name)
  encoded_length ← ok_or overflow (checked_add (length name) 1)
  aligned ← align_up encoded_length 4
  next ← ok_or overflow (checked_add offset aligned)
  _ ← guard (leb next (length bytes))
  good (name, next)

-- `take_aligned`, with the new offset.
unfoldable pub take_aligned : List ℕ → ℕ → ℕ → RtResult (List ℕ × ℕ)
take_aligned bytes offset len = do
  limit ← ok_or overflow (checked_add offset len)
  value ← ok_or invalid_args (get_range bytes offset limit)
  aligned ← align_up len 4
  next ← ok_or overflow (checked_add offset aligned)
  _ ← guard (leb next (length bytes))
  good (value, next)

unfoldable pub string_at : (List ℕ → Bool) → List ℕ → ℕ → RtResult (List ℕ)
string_at is_utf8 strings offset = do
  rest ← ok_or invalid_args (tail_from strings offset)
  name ← ok_or invalid_args (until_nul rest)
  _ ← guard (is_utf8 name)
  good name

unfoldable pub checked_slice : List ℕ → ℕ → ℕ → ℕ → RtResult (List ℕ)
checked_slice source offset len total_size = do
  limit ← ok_or overflow (checked_add offset len)
  _ ← guard (leb limit total_size)
  ok_or invalid_args (get_range source offset limit)

abbrev pub begin_node : ℕ
begin_node = 1

abbrev pub property_token : ℕ
property_token = 3
