-- ===== src/Console/Examples.antt =====
-- A supervisor with one bank of memory, of which the firmware holds a part.
use rustsbi.Base.{
  ℕ, ◌+◌, ◌≤◌, ◌<◌, min, ◌≡◌, refl, ◌≢◌, true, false, some, List, [], ◌∷◌, arith, ◌==◌,
  if◌then◌else◌, length, get_elem?,
}
use rustsbi.Memory.{
  PhysAddrRange, MemoryRegistry, good, derive_supervisor_memory, excluding, clip_all, clip,
  sort_by_start, insert_by_start, gaps, contains, from_start_len, new_range, check_range,
  check_access,
}
use rustsbi.Smm.Vector.{any}
use rustsbi.Memory.Ranges.{covers, any_covers}
use rustsbi.Memory.Access as Access
use rustsbi.Memory.Access.{Ram, load_bytes, store_bytes}
use rustsbi.Console.{
  Answer, took, Physical, write, read, validate_buffer, write_buffer, write_chunk, read_buffer,
  read_answer, write_str, done,
}
use rustsbi.Console.Transfers.{write-offers, read-stores}
use rustsbi.Console.Printing.{write_str-done}

abbrev registry : MemoryRegistry
registry = record {
  firmware_image_range = record { start = 0x1200; bound = 0x1400 };
  ram_ranges = record { start = 0x1000; bound = 0x2000 } ∷ [];
  reserved_ranges = [];
  acquired_mmio = [];
}

abbrev regions : List PhysAddrRange
regions = record { start = 0x1000; bound = 0x1200 } ∷ record { start = 0x1400; bound = 0x2000 } ∷ []

derived : derive_supervisor_memory registry ≡ good regions
unfolding derive_supervisor_memory excluding gaps sort_by_start insert_by_start clip_all clip
    contains any
derived = refl

abbrev mem : Ram
mem a = if a == 0x1502 then b'!' else 0

abbrev buffer : Physical
buffer = record { num_bytes = 4; phys_addr_lo = 0x1500; phys_addr_hi = 0 }

abbrev uart : List ℕ → Answer
uart chunk = took 3

three : 2 < length (write regions mem uart buffer).offered
unfolding write write_buffer write_chunk validate_buffer from_start_len new_range check_range
    check_access contains any Access.read load_bytes
three = omega arith

write-offers_example :
    (get_elem? (write regions mem uart buffer).offered 2 ≡ some b'!')
    × (length (write regions mem uart buffer).offered ≤ 256)
    × (length (write regions mem uart buffer).offered ≤ 4)
    × (any_covers registry.ram_ranges 0x1502 ≡ true)
    × (any_covers registry.reserved_ranges 0x1502 ≡ false)
    × (covers registry.firmware_image_range 0x1502 ≡ false)
write-offers_example = write-offers registry regions mem uart buffer 2 derived three

abbrev keyboard : ℕ → Answer × List ℕ
keyboard n = (took 2, b'o' ∷ b'k' ∷ 0 ∷ 0 ∷ [])

changed : (read regions mem keyboard buffer).0 0x1501 ≢ mem 0x1501
unfolding read read_buffer read_answer validate_buffer from_start_len new_range check_range
    check_access contains any Access.write store_bytes
changed e = absurd (omega (arith, e))

read-stores_example :
    (0x1500 ≤ 0x1501)
    × (0x1501 < 0x1500 + min 4 256)
    × (any_covers registry.ram_ranges 0x1501 ≡ true)
    × (any_covers registry.reserved_ranges 0x1501 ≡ false)
    × (covers registry.firmware_image_range 0x1501 ≡ false)
read-stores_example = read-stores registry regions mem keyboard buffer 0x1501 derived changed

abbrev answers : List Answer
answers = took 1 ∷ took 0 ∷ took 2 ∷ []

write_str-done_example :
    write_str answers (b'a' ∷ b'b' ∷ b'c' ∷ []) [] ≡ (b'a' ∷ b'b' ∷ b'c' ∷ [], done)
write_str-done_example = write_str-done answers (b'a' ∷ b'b' ∷ b'c' ∷ []) [] (omega arith)
