-- ===== src/Pmp/Examples.antt =====
-- Instances of the theorems about PMP addresses, registers and slots, and tests from the source's.
use rustsbi.Base.{ℕ, ◌^◌, ◌≡◌, refl, true, false, some, [], ◌∷◌, arith}
use rustsbi.Base.{Among}
use rustsbi.Base.Words.{trailing_zeros, leading_zeros, bit}
use rustsbi.Pmp.{
  slice, encode_pmp_addr, decode_pmp_addr, check_pmp_area_available, log2_of_len, ilog2, napot, off,
  no_access, rwx, PmpConfig, PmpRegisters,
}
use rustsbi.Pmp.Codec.{decode-encode_napot}
use rustsbi.Pmp.Slots
use rustsbi.Pmp.Slots.Alloc.{Allocates, Settles, alloc_loop_lem}

encode_64k : encode_pmp_addr (slice 16 0x10000 0) napot ≡ some 0x5fff
unfolding encode_pmp_addr
encode_64k = refl

decode_64k : decode_pmp_addr 0x5fff napot ≡ slice 16 0x10000 0
unfolding decode_pmp_addr trailing_zeros
decode_64k = refl

check_64k : check_pmp_area_available 0x10000 65536 napot ≡ true
unfolding check_pmp_area_available
check_64k = refl

decode-encode_napot_example :
    (k : ℕ) × (p : ℕ) × (log2_of_len 65536 ≡ some k)
    × (encode_pmp_addr (slice k 0x10000 0) napot ≡ some p)
    × (decode_pmp_addr p napot ≡ slice k 0x10000 0)
    × (2 ^ k ≡ 65536)
decode-encode_napot_example =
    decode-encode_napot 0x10000 65536 (omega arith) (omega arith) check_64k

abbrev open_area : PmpConfig
open_area = record { range = napot; perm = rwx; is_locked = false }

abbrev reset_registers : PmpRegisters
reset_registers = record {
  addr = λ i. 0;
  cfg = λ i. record { range = off; perm = no_access; is_locked = false };
}

log_64k : log2_of_len 65536 ≡ some 16
unfolding log2_of_len ilog2 leading_zeros bit
log_64k = refl

alloc_loop_lem_example :
    (before : ℕ) × Among before (1 ∷ 3 ∷ [])
    × Settles 0x303 1 (3 ∷ []) before
    × Allocates 0x303 before (Slots.alloc_loop 0x303 1 (3 ∷ []))
alloc_loop_lem_example = alloc_loop_lem 0x303 1 (3 ∷ []) (omega arith) (omega arith)

abbrev four_slots : Slots.PmpSlotAllocator
four_slots = Slots.new 0x303 0x303

alloc_first : (Slots.alloc four_slots []).1 ≡ Slots.ok 0
unfolding Slots.alloc Slots.alloc_loop trailing_zeros
alloc_first = refl
