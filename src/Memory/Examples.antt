-- ===== src/Memory/Examples.antt =====
-- The registry of `supervisor_memory_excludes_firmware_and_reserved_ranges` in registry.rs.
use rustsbi.Base.{◌≡◌, refl, true, false, not, ◌&&◌, ◌||◌, List, [], ◌∷◌, arith}
use rustsbi.Memory.{
  PhysAddrRange, MemoryRegistry, good, excluding, derive_supervisor_memory, acquire_mmio,
  check_access, normalize_reserved_ranges, flat_excluding, gaps, sort_by_start, insert_by_start,
  clip_all, clip, contains, check_range, from_start_len, new_range,
}
use rustsbi.Smm.Vector.{any}
use rustsbi.Memory.Ram.{from_ranges_lem}
use rustsbi.Memory.{
  normalize_ram_ranges, overlaps, ram_loop, join_ram, adjacent, join, join_reserved, from_ranges,
  validate_memory_ranges,
}
use rustsbi.Memory.Ranges.{covers, any_covers}
use rustsbi.Memory.Excluding.{excluding_lem}
use rustsbi.Memory.Registry.{IsExclusive, check_access-confines, acquire_mmio-IsExclusive}

abbrev ram : PhysAddrRange
ram = record { start = 0x1000; bound = 0x2000 }

abbrev firmware : PhysAddrRange
firmware = record { start = 0x1200; bound = 0x1400 }

abbrev reserved : PhysAddrRange
reserved = record { start = 0x1780; bound = 0x1880 }

abbrev uart : PhysAddrRange
uart = record { start = 0x100; bound = 0x200 }

abbrev registry : MemoryRegistry
registry = record {
  firmware_image_range = firmware;
  ram_ranges = ram ∷ [];
  reserved_ranges = reserved ∷ [];
  acquired_mmio = [];
}

abbrev regions : List PhysAddrRange
regions =
    record { start = 0x1000; bound = 0x1200 }
    ∷ record { start = 0x1400; bound = 0x1780 }
    ∷ record { start = 0x1880; bound = 0x2000 }
    ∷ []

derived : derive_supervisor_memory registry ≡ good regions
unfolding derive_supervisor_memory excluding gaps sort_by_start insert_by_start clip_all clip
    contains any flat_excluding
derived = refl

excluding_lem_example :
    any_covers (excluding ram (reserved ∷ firmware ∷ [])) 0x1300
    ≡ covers ram 0x1300 && not (any_covers (reserved ∷ firmware ∷ []) 0x1300)
excluding_lem_example = excluding_lem ram (reserved ∷ firmware ∷ []) 0x1300

check_access-confines_example :
    (any_covers registry.ram_ranges 0x1503 ≡ true)
    × (any_covers registry.reserved_ranges 0x1503 ≡ false)
    × (covers firmware 0x1503 ≡ false)
unfolding check_access check_range from_start_len new_range contains any
check_access-confines_example =
    check_access-confines registry regions 0x1500 8 3 derived refl (omega arith)

acquire_mmio-IsExclusive_example : IsExclusive (acquire_mmio registry uart).0
acquire_mmio-IsExclusive_example =
    acquire_mmio-IsExclusive registry uart (record { apart = tt; outside = tt })

abbrev banks : List PhysAddrRange
banks = record { start = 0x1800; bound = 0x2000 } ∷ record { start = 0x1000; bound = 0x1800 } ∷ []

normalized : normalize_ram_ranges banks ≡ good (ram ∷ [])
unfolding normalize_ram_ranges ram_loop join_ram overlaps adjacent join sort_by_start
    insert_by_start
normalized = refl

accepted_banks : from_ranges firmware banks (reserved ∷ []) ≡ good (regions, registry)
unfolding from_ranges validate_memory_ranges overlaps contains any normalize_reserved_ranges
    sort_by_start insert_by_start join_reserved
accepted_banks = rw (from_ranges, normalized, derived) refl

from_ranges_lem_example :
    any_covers regions 0x1780
    ≡ any_covers banks 0x1780 && not (any_covers (reserved ∷ []) 0x1780 || covers firmware 0x1780)
from_ranges_lem_example =
    from_ranges_lem firmware banks (reserved ∷ []) regions registry 0x1780
      (omega arith, (omega arith, tt)) (omega arith, tt) accepted_banks
