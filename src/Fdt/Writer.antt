-- ===== src/Fdt/Writer.antt =====
-- firmware/runtime/src/device_tree/patch/writer.rs: tokens and header fields of a device tree blob.
use rustsbi.Base.{
  ℕ, zero, suc, ◌+◌, ◌-◌, ◌*◌, ◌/◌, ◌%◌, ◌^◌, List, [], ◌∷◌, ◌++◌, ltb, ◌==◌, if◌then◌else◌, length,
  elem,
}
use rustsbi.Base.Usize.{checked_add}
use rustsbi.Memory.{RtResult, good, bad, invalid_args, overflow}
use rustsbi.Fdt.Format.{◌>>=◌, ok_or, get_range, begin_node, property_token}

-- `u32::to_be_bytes`.
abbrev pub be_bytes : ℕ → List ℕ
be_bytes v = v / 2 ^ 24 % 256 ∷ v / 2 ^ 16 % 256 ∷ v / 2 ^ 8 % 256 ∷ v % 256 ∷ []

-- `u32::try_from` of a word.
abbrev pub as_u32 : ℕ → RtResult ℕ
as_u32 v = if ltb v (2 ^ 32) then good v else bad overflow

unfoldable pub push_u32 : List ℕ → ℕ → List ℕ
push_u32 output value = output ++ be_bytes value

unfoldable pub push_cells : List ℕ → ℕ → ℕ → RtResult (List ℕ)
push_cells output value count =
    if count == 1
    then (as_u32 value >>= λ v. good (push_u32 output v))
    else if count == 2
    then good (output ++ be_bytes (value / 2 ^ 32) ++ be_bytes (value % 2 ^ 32))
    else bad invalid_args

abbrev pub zeros : ℕ → List ℕ
zeros zero = []
zeros (suc n) = 0 ∷ zeros n

-- The bytes that `pad_to` adds at a length, and `pad_to` itself.
abbrev pub padding : ℕ → ℕ → ℕ
padding size alignment = (size + (alignment - 1)) / alignment * alignment - size

unfoldable pub pad_to : List ℕ → ℕ → List ℕ
pad_to output alignment = output ++ zeros (padding (length output) alignment)

unfoldable pub push_begin_node : List ℕ → List ℕ → RtResult (List ℕ)
push_begin_node output name =
    if elem 0 name
    then bad invalid_args
    else good (pad_to ((push_u32 output begin_node ++ name) ++ 0 ∷ []) 4)

unfoldable pub push_property : List ℕ → ℕ → List ℕ → RtResult (List ℕ)
push_property output name_offset value = do
  size ← as_u32 (length value)
  good (pad_to (push_u32 (push_u32 (push_u32 output property_token) size) name_offset ++ value) 4)

-- `append_string`, with the new table.
unfoldable pub append_string : List ℕ → List ℕ → RtResult (List ℕ × ℕ)
append_string strings name = do
  offset ← as_u32 (length strings)
  good ((strings ++ name) ++ 0 ∷ [], offset)

-- The bytes from `offset` on overwritten by `new`.
unfoldable pub overwrite : List ℕ → ℕ → List ℕ → List ℕ
overwrite bytes offset [] = bytes
overwrite [] offset (n ∷ new) = []
overwrite (b ∷ bytes) zero (n ∷ new) = n ∷ overwrite bytes zero new
overwrite (b ∷ bytes) (suc offset) (n ∷ new) = b ∷ overwrite bytes offset (n ∷ new)

unfoldable pub write_header_field : List ℕ → ℕ → ℕ → RtResult (List ℕ)
write_header_field output offset value = do
  v ← as_u32 value
  limit ← ok_or overflow (checked_add offset 4)
  _ ← ok_or invalid_args (get_range output offset limit)
  good (overwrite output offset (be_bytes v))
