-- ===== src/Shmem/Examples.antt =====
-- A supervisor that shares a page of its memory.
use rustsbi.Base.{◌*◌, ◌^◌, refl, inl, some, List, [], ◌∷◌, ltb}
use rustsbi.Base.Usize.{usize_max}
use rustsbi.Memory.{PhysAddrRange}
use rustsbi.Shmem.{SharedPtr, Triggers, DbtrState, dbtr_set_shmem}
use rustsbi.Shmem.Sharing.{IsDbtr, dbtr_set_shmem-IsDbtr}

abbrev regions : List PhysAddrRange
regions = record { start = 0x8000_0000; bound = 0x9000_0000 } ∷ []

abbrev page : SharedPtr
page = record { phys_addr_lo = 0x8040_0000; phys_addr_hi = 0 }

-- Two triggers that match addresses, and no third.
abbrev triggers : Triggers
triggers = record {
  write_tselect = λ i. ltb i 2;
  read_tselect = λ i. some i;
  read_tdata1 = λ i. some (2 * 2 ^ 60);
}

abbrev fresh : DbtrState
fresh = record { cached_trigger_count = usize_max; shmem_address = 0 }

dbtr_set_shmem-IsDbtr_example :
    IsDbtr regions triggers (dbtr_set_shmem regions triggers fresh page 0).0
dbtr_set_shmem-IsDbtr_example =
    dbtr_set_shmem-IsDbtr regions triggers fresh page 0 (inl refl, inl refl)
