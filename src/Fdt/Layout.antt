-- ===== src/Fdt/Layout.antt =====
-- firmware/runtime/src/device_tree/patch/format.rs: the layout of a device tree blob; and
-- patch/writer.rs, `rebuild`.
use rustsbi.Base.{
  ℕ, zero, suc, ◌%◌, Bool, true, ◌&&◌, List, [], ◌∷◌, ◌++◌, leb, ◌==◌, if◌then◌else◌, length,
}
use rustsbi.Base.Usize.{checked_add}
use rustsbi.Memory.{RtResult, good, bad, invalid_args, overflow}
use rustsbi.Fdt.Format.{
  ◌>>=◌, ok_or, guard, first_bytes, get_range, read_u32, align_up, checked_slice,
}
use rustsbi.Fdt.Writer.{pad_to, write_header_field}

pub record Layout : Type 0 where
  pub source : List ℕ
  pub total_size : ℕ
  pub reservations : List ℕ
  pub structure_offset : ℕ
  pub structure : List ℕ
  pub strings : List ℕ

abbrev pub magic : ℕ
magic = 0xd00d_feed

abbrev pub header_size : ℕ
header_size = 40

abbrev pub entry_size : ℕ
entry_size = 16

abbrev pub all_zero : List ℕ → Bool
all_zero [] = true
all_zero (x ∷ xs) = x == 0 && all_zero xs

-- The loop of `reservation_map_end`; every round goes on by an entry inside the blob, so no more
-- rounds are taken than the blob has bytes.
unfoldable pub map_rounds : List ℕ → ℕ → ℕ → ℕ → RtResult ℕ
map_rounds source total_size zero offset = bad invalid_args
map_rounds source total_size (suc fuel) offset = do
  entry ← checked_slice source offset entry_size total_size
  next ← ok_or overflow (checked_add offset entry_size)
  let rest = map_rounds source total_size fuel next in if all_zero entry then good next else rest

unfoldable pub reservation_map_end : List ℕ → ℕ → ℕ → RtResult ℕ
reservation_map_end source start total_size = do
  _ ← guard (leb header_size start && start % 8 == 0)
  map_rounds source total_size (suc total_size) start

-- `Layout::parse`; `read_usize` is `read_u32`, as a word has 64 bits. The last slice is inside the
-- blob by the checks before it.
unfoldable pub parse : List ℕ → RtResult Layout
parse source = do
  _ ← guard (leb header_size (length source))
  found_magic ← read_u32 source 0
  _ ← guard (found_magic == magic)
  total_size ← read_u32 source 4
  _ ← guard (leb header_size total_size && leb total_size (length source))
  version ← read_u32 source 20
  last_compatible_version ← read_u32 source 24
  _ ← guard (version == 17 && leb last_compatible_version version)
  structure_offset ← read_u32 source 8
  strings_offset ← read_u32 source 12
  reservations_offset ← read_u32 source 16
  structure_size ← read_u32 source 36
  strings_size ← read_u32 source 32
  _ ← guard (structure_offset % 4 == 0 && strings_offset % 4 == 0 && reservations_offset % 8 == 0)
  structure ← checked_slice source structure_offset structure_size total_size
  strings ← checked_slice source strings_offset strings_size total_size
  reservations_end ← reservation_map_end source reservations_offset total_size
  structure_end ← ok_or overflow (checked_add structure_offset structure_size)
  strings_end ← ok_or overflow (checked_add strings_offset strings_size)
  _ ← guard (
      leb header_size reservations_offset
      && leb reservations_end structure_offset
      && leb structure_end strings_offset
      && leb strings_end total_size)
  reservations ← ok_or invalid_args (get_range source reservations_offset reservations_end)
  good record {
    source = source;
    total_size = total_size;
    reservations = reservations;
    structure_offset = structure_offset;
    structure = structure;
    strings = strings;
  }

-- `rebuild`; the header is there, since the layout was parsed.
unfoldable pub rebuild : Layout → List ℕ → List ℕ → RtResult (List ℕ)
rebuild layout structure strings = do
  reservations_offset ← align_up header_size 8
  after_reservations ← ok_or overflow (checked_add reservations_offset (length layout.reservations))
  structure_offset ← align_up after_reservations 4
  strings_offset ← ok_or overflow (checked_add structure_offset (length structure))
  strings_end ← ok_or overflow (checked_add strings_offset (length strings))
  total_size ← align_up strings_end 4
  header ← ok_or invalid_args (first_bytes layout.source header_size)
  let reserved = pad_to (pad_to header 8 ++ layout.reservations) 4 in
      do
        out1 ← write_header_field (pad_to (reserved ++ structure ++ strings) 4) 4 total_size
        out2 ← write_header_field out1 8 structure_offset
        out3 ← write_header_field out2 12 strings_offset
        out4 ← write_header_field out3 16 reservations_offset
        out5 ← write_header_field out4 32 (length strings)
        write_header_field out5 36 (length structure)
