-- ===== src/Console/Transfers.antt =====
-- Which memory a console transfer touches.
use rustsbi.Base.{
  ℕ, zero, suc, ◌+◌, ◌-◌, ◌≤◌, ◌<◌, min, ◌≡◌, refl, sym, ap, ◌∙◌, subst, ◌≢◌, ◌⊎◌, inl, inr, true,
  false, Option, none, some, List, [], ◌∷◌, arith, ltb, leb, ◌==◌, Bool-cases, length, get_elem?,
}
use rustsbi.Memory.{
  RtError, RtResult, good, bad, PhysAddrRange, MemoryRegistry, from_start_len, check_range,
  check_access, derive_supervisor_memory,
}
use rustsbi.Memory.Ranges.{covers, any_covers}
use rustsbi.Memory.Registry.{check_access-confines}
use rustsbi.Memory.Access as Access
use rustsbi.Memory.Access.{
  Ram, load_bytes, store_bytes, length-load_bytes, store_bytes-outside, read-cases, write-cases,
}
use rustsbi.Console.{
  Answer, took, refused, Physical, Buffer, valid, invalid, validate_buffer, write_chunk,
  write_buffer, write, Source, take, read_stored, read_answer, read_buffer, read, accepted_if,
  checked_buffer, max_transfer_bytes,
}

accepted :
    (b : Physical) (o : Option RtError) (start len : ℕ)
    → accepted_if b o ≡ valid start len
    → (start ≡ b.phys_addr_lo) × (len ≡ b.num_bytes)
accepted b none start len h = (cc, cc)
accepted b (some e) start len h = absurd cc

from_range :
    (regions : List PhysAddrRange) (b : Physical) (r : RtResult PhysAddrRange) (start len : ℕ)
    → checked_buffer regions b r ≡ valid start len
    → (start ≡ b.phys_addr_lo) × (len ≡ b.num_bytes)
from_range regions b (bad e) start len h = absurd cc
from_range regions b (good range) start len h = accepted b (check_range regions range) start len h

validated :
    (regions : List PhysAddrRange) (b : Physical) (start len : ℕ)
    → validate_buffer regions b ≡ valid start len
    → (start ≡ b.phys_addr_lo) × (len ≡ b.num_bytes)
unfolding validate_buffer
validated regions b start len h =
    ground (arith, from_range regions b (from_start_len b.phys_addr_lo b.num_bytes) start len)

-- A chunk that reaches the device was read through the access check.
offered_chunk :
    (regions : List PhysAddrRange) (mem : Ram) (device : List ℕ → Answer) (start n i : ℕ)
    → i < length (write_chunk device (Access.read regions mem start n)).offered
    → (check_access regions start n ≡ none)
      × ((write_chunk device (Access.read regions mem start n)).offered ≡ load_bytes mem start n)
unfolding write_chunk
offered_chunk regions mem device start n i h = elim (read-cases regions mem start n) [
  | inl (ok, e) ↦ (ok, ap (λ (r : RtResult (List ℕ)). (write_chunk device r).offered) e)
  | inr (e, f) ↦
      let below : i < 0 =
        subst (λ (r : RtResult (List ℕ)). i < length (write_chunk device r).offered) f h in
      absurd (omega arith)
]

-- The same for a whole write.
offered_buffer :
    (regions : List PhysAddrRange) (mem : Ram) (device : List ℕ → Answer) (b : Buffer) (i : ℕ)
    → i < length (write_buffer regions mem device b).offered
    → (start : ℕ) × (len : ℕ) × (b ≡ valid start len)
      × (check_access regions start (min len max_transfer_bytes) ≡ none)
      × ((write_buffer regions mem device b).offered
          ≡ load_bytes mem start (min len max_transfer_bytes))
unfolding write_buffer
offered_buffer regions mem device (invalid e) i h = absurd (omega arith)
offered_buffer regions mem device (valid start len) i h = elim (Bool-cases (len == 0)) [
  | inl empty ↦ let below : i < 0 = rw (write_buffer, empty) at h in absurd (omega arith)
  | inr some_bytes ↦
      let chunk =
        offered_chunk regions mem device start (min len max_transfer_bytes) i
          (rw (write_buffer, some_bytes) at h) in
      (start, len, refl, chunk.0, rw some_bytes chunk.1)
]

get-load_bytes :
    (mem : Ram) (n start i : ℕ)
    → i < n
    → get_elem? (load_bytes mem start n) i ≡ some (mem (start + i))
unfolding load_bytes
get-load_bytes mem zero start i h = absurd (omega arith)
get-load_bytes mem (suc n) start zero h = ap (λ (a : ℕ). some (mem a)) (omega arith)
get-load_bytes mem (suc n) start (suc i) h =
    get-load_bytes mem n (start + 1) i (omega arith) ∙ ap (λ (a : ℕ). some (mem a)) (omega arith)

-- Every byte that a console write offers to the device is the byte of the caller's buffer at its
-- place, and that place lies in RAM, neither in reserved memory nor in the firmware; no more than
-- 256 bytes and no more than the caller named are offered.
pub write-offers :
    (m : MemoryRegistry) (regions : List PhysAddrRange) (mem : Ram) (device : List ℕ → Answer)
    → (b : Physical) (i : ℕ) → derive_supervisor_memory m ≡ good regions
    → i < length (write regions mem device b).offered
    → (get_elem? (write regions mem device b).offered i ≡ some (mem (b.phys_addr_lo + i)))
      × (length (write regions mem device b).offered ≤ 256)
      × (length (write regions mem device b).offered ≤ b.num_bytes)
      × (any_covers m.ram_ranges (b.phys_addr_lo + i) ≡ true)
      × (any_covers m.reserved_ranges (b.phys_addr_lo + i) ≡ false)
      × (covers m.firmware_image_range (b.phys_addr_lo + i) ≡ false)
unfolding write
write-offers m regions mem device b i derived h =
    let (start, len, e, ok, out) =
      offered_buffer regions mem device (validate_buffer regions b) i h in
    let (from, size) = validated regions b start len e in
    let n : ℕ = min len max_transfer_bytes in
    let count : length (write_buffer regions mem device (validate_buffer regions b)).offered ≡ n =
      ap (length {0}) out ∙ length-load_bytes mem start n in
    let below : i < n = omega (arith, count, h) in
    let safe = check_access-confines m regions start n i derived ok below in
    let at_start : start + i ≡ b.phys_addr_lo + i = omega (arith, from) in
    (
      ap (λ (xs : List ℕ). get_elem? xs i) out
          ∙ get-load_bytes mem n start i below
          ∙ ap (λ (a : ℕ). some (mem a)) at_start,
      omega (arith, count),
      omega (arith, count, size),
      ap (any_covers m.ram_ranges) (sym at_start) ∙ safe.0,
      ap (any_covers m.reserved_ranges) (sym at_start) ∙ safe.1,
      ap (covers m.firmware_image_range) (sym at_start) ∙ safe.2,
    )

within :
    (start a count : ℕ) {P : Type 0}
    → ((a < start) ⊎ (start + count ≤ a) → P)
    → ¬ P
    → (start ≤ a) × (a < start + count)
within start a count out inside = elim (Bool-cases (leb start a)) [
  | inr low ↦ absurd (inside (out (inl (ground arith))))
  | inl from ↦ elim (Bool-cases (ltb a (start + count))) [
    | inr high ↦ absurd (inside (out (inr (ground arith))))
    | inl to ↦ ground arith
  ]
]

-- What a write through the access check can change.
stored :
    (regions : List PhysAddrRange) (mem : Ram) (start count a : ℕ) (bs : List ℕ)
    → (read_stored mem count (Access.write regions mem start bs)).0 a ≢ mem a
    → (check_access regions start (length bs) ≡ none) × (start ≤ a) × (a < start + length bs)
stored regions mem start count a bs h = elim (write-cases regions mem start bs) [
  | inl (ok, e) ↦
      let out : (read_stored mem count (Access.write regions mem start bs)).0
          ≡ store_bytes mem start bs =
        ap (λ (r : RtResult Ram). (read_stored mem count r).0) e in
      let moved : store_bytes mem start bs a ≢ mem a =
        λ same. h (ap (λ (f : Ram). f a) out ∙ same) in
      let inside : (start ≤ a) × (a < start + length bs) =
        within start a (length bs) (store_bytes-outside bs mem start a) moved in
      (ok, inside.0, inside.1)
  | inr (e, f) ↦ absurd (h (ap (λ (r : RtResult Ram). (read_stored mem count r).0 a) f))
]

length-take : (n : ℕ) (xs : List ℕ) → length (take n xs) ≤ n
length-take zero xs = omega arith
length-take (suc n) [] = omega arith
length-take (suc n) (x ∷ xs) = omega (arith, length-take n xs)

-- A read that changes a byte was allowed to store there.
answered :
    (regions : List PhysAddrRange) (mem : Ram) (start n a : ℕ) (r : Answer × List ℕ)
    → (read_answer regions mem start n r).0 a ≢ mem a
    → (k : ℕ) × (k ≤ n) × (check_access regions start k ≡ none) × (start ≤ a) × (a < start + k)
unfolding read_answer
answered regions mem start n a (refused e, chunk) h = absurd (h refl)
answered regions mem start n a (took count, chunk) h = elim (Bool-cases (ltb n count)) [
  | inl many ↦ absurd (rw (read_answer, many) at h refl)
  | inr fits ↦ elim (Bool-cases (count == 0)) [
    | inl empty ↦ absurd (rw (read_answer, fits, empty) at h refl)
    | inr full ↦
        let bs : List ℕ = take count chunk in
        let changed : (read_stored mem count (Access.write regions mem start bs)).0 a ≢ mem a =
          rw (read_answer, fits, full) at h in
        let (ok, low, high) = stored regions mem start count a bs changed in
        (length bs, ground (arith, length-take count chunk), ok, low, high)
  ]
]

filled_buffer :
    (regions : List PhysAddrRange) (mem : Ram) (device : Source) (b : Buffer) (a : ℕ)
    → (read_buffer regions mem device b).0 a ≢ mem a
    → (start : ℕ) × (len : ℕ) × (b ≡ valid start len)
      × (k : ℕ) × (k ≤ min len max_transfer_bytes)
      × (check_access regions start k ≡ none)
      × (start ≤ a)
      × (a < start + k)
unfolding read_buffer
filled_buffer regions mem device (invalid e) a h = absurd (h refl)
filled_buffer regions mem device (valid start len) a h = elim (Bool-cases (len == 0)) [
  | inl empty ↦ absurd (rw (read_buffer, empty) at h refl)
  | inr full ↦
      let n : ℕ = min len max_transfer_bytes in
      let changed : (read_answer regions mem start n (device n)).0 a ≢ mem a =
        rw (read_buffer, full) at h in
      let (k, small, ok, low, high) = answered regions mem start n a (device n) changed in
      (start, len, refl, k, small, ok, low, high)
]

-- A console read changes memory only within the caller's buffer and within its first 256 bytes,
-- and there only in RAM that is neither reserved nor the firmware's, whatever the device answers.
pub read-stores :
    (m : MemoryRegistry) (regions : List PhysAddrRange) (mem : Ram) (device : Source)
    → (b : Physical) (a : ℕ) → derive_supervisor_memory m ≡ good regions
    → (read regions mem device b).0 a ≢ mem a
    → (b.phys_addr_lo ≤ a)
      × (a < b.phys_addr_lo + min b.num_bytes 256)
      × (any_covers m.ram_ranges a ≡ true)
      × (any_covers m.reserved_ranges a ≡ false)
      × (covers m.firmware_image_range a ≡ false)
unfolding read
read-stores m regions mem device b a derived h =
    let (start, len, e, k, small, ok, low, high) =
      filled_buffer regions mem device (validate_buffer regions b) a h in
    let (from, size) = validated regions b start len e in
    let safe = check_access-confines m regions start k (a - start) derived ok (omega arith) in
    let at_start : start + (a - start) ≡ a = omega arith in
    (
      omega (arith, from),
      omega (arith, from, size, small),
      ap (any_covers m.ram_ranges) (sym at_start) ∙ safe.0,
      ap (any_covers m.reserved_ranges) (sym at_start) ∙ safe.1,
      ap (covers m.firmware_image_range) (sym at_start) ∙ safe.2,
    )
