-- ===== src/Fdt/Examples.antt =====
-- The device tree blob's reads and writes at concrete bytes.
use rustsbi.Base.{
  ℕ, ◌+◌, ◌%◌, ◌^◌, some, ◌≤◌, ◌≡◌, refl, ◌⊎◌, Bool, true, ◌&&◌, List, [], ◌∷◌, ◌++◌, arith, ltb,
  length, elem,
}
use rustsbi.Fdt.Reservations.{IsMap}
use rustsbi.Fdt.Layout.{magic, Layout, parse, rebuild, map_rounds, reservation_map_end, header_size}
use rustsbi.Fdt.Parsing.{parse-IsLaidOut}
use rustsbi.Memory.{good, bad, invalid_args, overflow}
use rustsbi.Fdt.Format.{
  read_u32, checked_slice, align_up, get_range, tail_from, first_bytes, until_nul, take_u32,
  take_aligned, string_at, property_token,
}
use rustsbi.Fdt.Writer.{
  be_bytes, zeros, push_u32, pad_to, overwrite, push_begin_node, push_property, append_string,
  push_cells, write_header_field,
}
use rustsbi.Fdt.Tokens.{push_property-reads}

-- ASCII only.
abbrev is_ascii : List ℕ → Bool
is_ascii [] = true
is_ascii (x ∷ xs) = ltb x 128 && is_ascii xs

-- "cpus" and "reg".
abbrev cpus : List ℕ
cpus = 99 ∷ 112 ∷ 117 ∷ 115 ∷ []

abbrev reg : List ℕ
reg = 114 ∷ 101 ∷ 103 ∷ []

cpus_tokens :
    push_begin_node [] cpus ≡ good (0 ∷ 0 ∷ 0 ∷ 1 ∷ 99 ∷ 112 ∷ 117 ∷ 115 ∷ 0 ∷ 0 ∷ 0 ∷ 0 ∷ [])
unfolding push_begin_node push_u32 pad_to elem
cpus_tokens = refl

two_cells : push_cells [] 0x180000000 2 ≡ good (0 ∷ 0 ∷ 0 ∷ 1 ∷ 0x80 ∷ 0 ∷ 0 ∷ 0 ∷ [])
unfolding push_cells
two_cells = refl

no_room : push_cells [] 0x180000000 1 ≡ bad overflow
unfolding push_cells
no_room = refl

header : write_header_field (1 ∷ 2 ∷ 3 ∷ 4 ∷ 5 ∷ 6 ∷ []) 1 258 ≡ good (1 ∷ 0 ∷ 0 ∷ 1 ∷ 2 ∷ 6 ∷ [])
unfolding write_header_field overwrite get_range tail_from first_bytes
header = refl

past_header : write_header_field (1 ∷ 2 ∷ 3 ∷ 4 ∷ 5 ∷ []) 2 258 ≡ bad invalid_args
unfolding write_header_field overwrite get_range tail_from first_bytes
past_header = refl

push_property-reads_example :
    ((2 ^ 32 ≤ 5) × (push_property [] 7 (1 ∷ 2 ∷ 3 ∷ 4 ∷ 5 ∷ []) ≡ bad overflow))
    ⊎ ((next : List ℕ) × (push_property [] 7 (1 ∷ 2 ∷ 3 ∷ 4 ∷ 5 ∷ []) ≡ good next)
        × (take_u32 (next ++ 9 ∷ []) 0 ≡ good (property_token, 4))
        × (take_u32 (next ++ 9 ∷ []) 4 ≡ good (5, 8))
        × (take_u32 (next ++ 9 ∷ []) 8 ≡ good (7, 12))
        × (take_aligned (next ++ 9 ∷ []) 12 5 ≡ good (1 ∷ 2 ∷ 3 ∷ 4 ∷ 5 ∷ [], length next))
        × (length next % 4 ≡ 0))
push_property-reads_example =
    push_property-reads [] (1 ∷ 2 ∷ 3 ∷ 4 ∷ 5 ∷ []) (9 ∷ []) 7 refl (omega arith) (omega arith)

reg_there : string_at is_ascii (114 ∷ 101 ∷ 103 ∷ 0 ∷ []) 1 ≡ good (101 ∷ 103 ∷ [])
unfolding string_at tail_from until_nul
reg_there = refl

reg_appended :
    append_string (114 ∷ 101 ∷ 103 ∷ 0 ∷ []) cpus
    ≡ good (114 ∷ 101 ∷ 103 ∷ 0 ∷ 99 ∷ 112 ∷ 117 ∷ 115 ∷ 0 ∷ [], 4)
unfolding append_string
reg_appended = refl

abbrev tree : List ℕ
tree = be_bytes 1 ++ be_bytes 0 ++ be_bytes 2 ++ be_bytes 9

abbrev names : List ℕ
names = reg ++ 0 ∷ []

-- A blob with one empty node and one name.
abbrev blob : List ℕ
blob =
    be_bytes 0xd00d_feed
    ++ be_bytes 76
    ++ be_bytes 56
    ++ be_bytes 72
    ++ be_bytes 40
    ++ be_bytes 17
    ++ be_bytes 16
    ++ be_bytes 0
    ++ be_bytes 4
    ++ be_bytes 16
    ++ zeros 16
    ++ tree
    ++ names

abbrev blob_layout : Layout
blob_layout = record {
  source = blob;
  total_size = 76;
  reservations = zeros 16;
  structure_offset = 56;
  structure = tree;
  strings = names;
}

accepted : parse blob ≡ good blob_layout
unfolding parse read_u32 get_range tail_from first_bytes checked_slice reservation_map_end
    map_rounds
accepted = refl

rebuilt : rebuild blob_layout tree names ≡ good blob
unfolding rebuild align_up pad_to write_header_field overwrite get_range tail_from first_bytes
rebuilt = refl

parse-IsLaidOut_example :
    (reservations_offset : ℕ) × (strings_offset : ℕ) × (read_u32 blob 0 ≡ good magic)
    × (read_u32 blob 4 ≡ good 76)
    × (read_u32 blob 8 ≡ good 56)
    × (read_u32 blob 12 ≡ good strings_offset)
    × (read_u32 blob 16 ≡ good reservations_offset)
    × (read_u32 blob 20 ≡ good 17)
    × (read_u32 blob 32 ≡ good 4)
    × (read_u32 blob 36 ≡ good 16)
    × IsMap (zeros 16)
    × (blob ≡ blob)
    × (header_size ≤ reservations_offset)
    × (reservations_offset + 16 ≤ 56)
    × (56 + 16 ≤ strings_offset)
    × (strings_offset + 4 ≤ 76)
    × (76 ≤ length blob)
    × (reservations_offset % 8 ≡ 0)
    × (56 % 4 ≡ 0)
    × (strings_offset % 4 ≡ 0)
    × (get_range blob reservations_offset (reservations_offset + 16) ≡ some (zeros 16))
    × (get_range blob 56 (56 + 16) ≡ some tree)
    × (get_range blob strings_offset (strings_offset + 4) ≡ some names)
parse-IsLaidOut_example = parse-IsLaidOut blob blob_layout accepted
