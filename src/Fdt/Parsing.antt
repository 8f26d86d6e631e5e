-- ===== src/Fdt/Parsing.antt =====
-- What the parser accepts.
use rustsbi.Base.{sym, ap, ◌∙◌, ℕ, ◌+◌, ◌%◌, ◌≤◌, ◌≡◌, some, List, arith, length}
use rustsbi.Memory.{RtResult, good, bad}
use rustsbi.Fdt.Format.{get_range, read_u32, checked_slice}
use rustsbi.Fdt.Reservations.{
  IsMap, length-get_range, checked_slice_good, reservation_map_end-IsMap,
}
use rustsbi.Fdt.Layout.{magic, Layout, parse, header_size, reservation_map_end}

abbrev value : RtResult ℕ → ℕ
value (good a) = a
value (bad e) = 0

-- The checks that an accepted blob passed.
module _ (source : List ℕ) (l : Layout) (h : parse source ≡ good l) where
  abbrev strings_offset : ℕ
  strings_offset = value (read_u32 source 12)

  abbrev reservations_offset : ℕ
  reservations_offset = value (read_u32 source 16)

  abbrev structure_size : ℕ
  structure_size = value (read_u32 source 36)

  abbrev strings_size : ℕ
  strings_size = value (read_u32 source 32)

  abbrev reservations_end : ℕ
  reservations_end = value (reservation_map_end source reservations_offset l.total_size)

  read_total : read_u32 source 4 ≡ good l.total_size
  unfolding parse
  read_total = grind arith

  read_structure : read_u32 source 8 ≡ good l.structure_offset
  unfolding parse
  read_structure = grind arith

  read_strings : read_u32 source 12 ≡ good strings_offset
  unfolding parse
  read_strings = grind arith

  read_reservations : read_u32 source 16 ≡ good reservations_offset
  unfolding parse
  read_reservations = grind arith

  read_strings_size : read_u32 source 32 ≡ good strings_size
  unfolding parse
  read_strings_size = grind arith

  read_structure_size : read_u32 source 36 ≡ good structure_size
  unfolding parse
  read_structure_size = grind arith

  read_magic : read_u32 source 0 ≡ good magic
  unfolding parse
  read_magic = grind arith

  read_version : read_u32 source 20 ≡ good 17
  unfolding parse
  read_version = grind arith

  ended : reservation_map_end source reservations_offset l.total_size ≡ good reservations_end
  unfolding parse
  ended = grind arith

  parsed_size : (header_size ≤ l.total_size) × (l.total_size ≤ length source) × (l.source ≡ source)
  unfolding parse
  parsed_size = grind arith

  aligned_structure : l.structure_offset % 4 ≡ 0
  unfolding parse
  aligned_structure = grind arith

  aligned_strings : strings_offset % 4 ≡ 0
  unfolding parse
  aligned_strings = grind arith

  aligned_reservations : reservations_offset % 8 ≡ 0
  unfolding parse
  aligned_reservations = grind arith

  after_header : header_size ≤ reservations_offset
  unfolding parse
  after_header = grind arith

  reservations_first : reservations_end ≤ l.structure_offset
  unfolding parse
  reservations_first = grind arith

  structure_first : l.structure_offset + structure_size ≤ strings_offset
  unfolding parse
  structure_first = grind arith

  strings_last : strings_offset + strings_size ≤ l.total_size
  unfolding parse
  strings_last = grind arith

  parsed_structure :
      checked_slice source l.structure_offset structure_size l.total_size ≡ good l.structure
  unfolding parse
  parsed_structure = grind arith

  parsed_strings : checked_slice source strings_offset strings_size l.total_size ≡ good l.strings
  unfolding parse
  parsed_strings = grind arith

  parsed_reservations : get_range source reservations_offset reservations_end ≡ some l.reservations
  unfolding parse
  parsed_reservations = grind arith

-- A blob that the parser accepts starts with the magic number, has version 17 and is at least as
-- long as the size in its header, which is the one of the layout. Its three blocks are the ones
-- that the header names: the structure and the strings with the offsets and the sizes that stand
-- there, the memory reservations from the offset there up to and with their first entry of 16
-- zeros. They lie behind the header and one behind the other, without an overlap, the last within
-- the size: the reservations at a multiple of 8, the structure and the strings at multiples of 4;
-- and the layout holds the bytes of each.
pub parse-IsLaidOut :
    (source : List ℕ) (l : Layout)
    → parse source ≡ good l
    → (reservations_offset : ℕ) × (strings_offset : ℕ) × (read_u32 source 0 ≡ good magic)
      × (read_u32 source 4 ≡ good l.total_size)
      × (read_u32 source 8 ≡ good l.structure_offset)
      × (read_u32 source 12 ≡ good strings_offset)
      × (read_u32 source 16 ≡ good reservations_offset)
      × (read_u32 source 20 ≡ good 17)
      × (read_u32 source 32 ≡ good (length l.strings))
      × (read_u32 source 36 ≡ good (length l.structure))
      × IsMap l.reservations
      × (l.source ≡ source)
      × (header_size ≤ reservations_offset)
      × (reservations_offset + length l.reservations ≤ l.structure_offset)
      × (l.structure_offset + length l.structure ≤ strings_offset)
      × (strings_offset + length l.strings ≤ l.total_size)
      × (l.total_size ≤ length source)
      × (reservations_offset % 8 ≡ 0)
      × (l.structure_offset % 4 ≡ 0)
      × (strings_offset % 4 ≡ 0)
      × (get_range source reservations_offset (reservations_offset + length l.reservations)
          ≡ some l.reservations)
      × (get_range source l.structure_offset (l.structure_offset + length l.structure)
          ≡ some l.structure)
      × (get_range source strings_offset (strings_offset + length l.strings) ≡ some l.strings)
parse-IsLaidOut source l h =
    let structure =
      checked_slice_good source l.structure_offset (structure_size source l h) l.total_size
        l.structure (parsed_structure source l h) in
    let strings =
      checked_slice_good source (strings_offset source l h) (strings_size source l h) l.total_size
        l.strings (parsed_strings source l h) in
    let reservations = parsed_reservations source l h in
    let ends =
      length-get_range source (reservations_offset source l h) (reservations_end source l h)
        l.reservations reservations in
    (
      reservations_offset source l h,
      strings_offset source l h,
      read_magic source l h,
      read_total source l h,
      read_structure source l h,
      read_strings source l h,
      read_reservations source l h,
      read_version source l h,
      read_strings_size source l h ∙ ap (λ (n : ℕ). good n) (sym strings.0),
      read_structure_size source l h ∙ ap (λ (n : ℕ). good n) (sym structure.0),
      reservation_map_end-IsMap source (reservations_offset source l h) l.total_size
          (reservations_end source l h) l.reservations (ended source l h) reservations,
      (parsed_size source l h).2,
      after_header source l h,
      omega (arith, ends, reservations_first source l h),
      omega (arith, structure.0, structure_first source l h),
      omega (arith, strings.0, strings_last source l h),
      (parsed_size source l h).1,
      aligned_reservations source l h,
      aligned_structure source l h,
      aligned_strings source l h,
      rw ends reservations,
      rw structure.0 structure.1,
      rw strings.0 strings.1,
    )
