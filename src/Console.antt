-- ===== src/Console.antt =====
-- firmware/prototyper/src/sbi/console.rs: the debug console over the supervisor's memory. The
-- device is given by what it answers; a spinning loop runs over the answers that the device gives
-- in turn, and is still spinning when they run out.
use rustsbi.Base.{
  ℕ, zero, suc, ◌+◌, ◌-◌, ◌*◌, ◌/◌, ◌%◌, ◌^◌, ◌≤◌, ◌<◌, min, max, bit_and, bit_or, ◌≡◌, refl, sym,
  ap, ◌∙◌, subst, ◌≢◌, ◌↔◌, ◌⊎◌, inl, inr, Bool, true, false, not, ◌&&◌, ◌||◌, Option, none, some,
  List, [], ◌∷◌, ◌++◌, map, arith, ltb, leb, ◌==◌, if◌then◌else◌, ltb→lt, leb→le, ==_iff,
  Bool-cases, Option-cases, length, get_elem?, set, All, length-append, length-map, All-append,
  elem,
}
use rustsbi.Spec.Ret.{SbiRet, success, from_error, invalid_param, failed, denied}
use rustsbi.Memory.{RtError, RtResult, good, bad, PhysAddrRange, from_start_len, check_range}
use rustsbi.Memory.Access as Access
use rustsbi.Memory.Access.{Ram}
pub mod Transfers
pub mod Printing
mod Examples

abbrev pub max_transfer_bytes : ℕ
max_transfer_bytes = 256

pub data DbcnError : Type 0 where
  access_denied io_failed : DbcnError

-- The answer of `write_slice` or `read_slice`.
pub data Answer : Type 0 where
  took : ℕ → Answer
  refused : DbcnError → Answer

-- `Physical`, with the halves of the address as `phys_addr_lo` and `phys_addr_hi` give them.
pub record Physical : Type 0 where
  pub num_bytes : ℕ
  pub phys_addr_lo : ℕ
  pub phys_addr_hi : ℕ

pub data Buffer : Type 0 where
  valid : ℕ → ℕ → Buffer
  invalid : SbiRet → Buffer

abbrev pub accepted_if : Physical → Option RtError → Buffer
accepted_if b none = valid b.phys_addr_lo b.num_bytes
accepted_if b (some _) = invalid (from_error invalid_param)

abbrev pub checked_buffer : List PhysAddrRange → Physical → RtResult PhysAddrRange → Buffer
checked_buffer regions b (bad _) = invalid (from_error invalid_param)
checked_buffer regions b (good range) = accepted_if b (check_range regions range)

-- `validate_buffer`.
unfoldable pub validate_buffer : List PhysAddrRange → Physical → Buffer
validate_buffer regions b =
    if b.num_bytes == 0
    then valid b.phys_addr_lo 0
    else if not (b.phys_addr_hi == 0)
    then invalid (from_error invalid_param)
    else checked_buffer regions b (from_start_len b.phys_addr_lo b.num_bytes)

-- `dbcn_error`.
unfoldable pub dbcn_error : DbcnError → SbiRet
dbcn_error access_denied = from_error denied
dbcn_error io_failed = from_error failed

unfoldable pub write_answer : ℕ → Answer → SbiRet
write_answer n (refused e) = dbcn_error e
write_answer n (took count) = if ltb n count then from_error failed else success count

-- What a write does: its answer, and the bytes that the device was offered.
pub record Written : Type 0 where
  pub answer : SbiRet
  pub offered : List ℕ

-- The chunk that was read from memory, if it could be.
unfoldable pub write_chunk : (List ℕ → Answer) → RtResult (List ℕ) → Written
write_chunk device (bad _) = record { answer = from_error invalid_param; offered = [] }
write_chunk device (good chunk) = record {
  answer = write_answer (length chunk) (device chunk);
  offered = chunk;
}

unfoldable pub write_buffer : List PhysAddrRange → Ram → (List ℕ → Answer) → Buffer → Written
write_buffer regions mem device (invalid e) = record { answer = e; offered = [] }
write_buffer regions mem device (valid start len) =
    if len == 0
    then record { answer = success 0; offered = [] }
    else write_chunk device (Access.read regions mem start (min len max_transfer_bytes))

-- `Console::write`.
unfoldable pub write : List PhysAddrRange → Ram → (List ℕ → Answer) → Physical → Written
write regions mem device b = write_buffer regions mem device (validate_buffer regions b)

-- What the device puts into a buffer: its answer and the bytes of the whole buffer after it.
abbrev pub Source : Type 0
Source = ℕ → Answer × List ℕ

abbrev pub take : ℕ → List ℕ → List ℕ
take zero xs = []
take (suc n) [] = []
take (suc n) (x ∷ xs) = x ∷ take n xs

abbrev read_stored : Ram → ℕ → RtResult Ram → Ram × SbiRet
read_stored mem count (bad _) = (mem, from_error invalid_param)
read_stored mem count (good mem') = (mem', success count)

unfoldable pub read_answer : List PhysAddrRange → Ram → ℕ → ℕ → Answer × List ℕ → Ram × SbiRet
read_answer regions mem start n (refused e, chunk) = (mem, dbcn_error e)
read_answer regions mem start n (took count, chunk) =
    if ltb n count
    then (mem, from_error failed)
    else if count == 0
    then (mem, success 0)
    else read_stored mem count (Access.write regions mem start (take count chunk))

unfoldable pub read_buffer : List PhysAddrRange → Ram → Source → Buffer → Ram × SbiRet
read_buffer regions mem device (invalid e) = (mem, e)
read_buffer regions mem device (valid start len) =
    if len == 0
    then (mem, success 0)
    else let n = min len max_transfer_bytes in read_answer regions mem start n (device n)

-- `Console::read`.
unfoldable pub read : List PhysAddrRange → Ram → Source → Physical → Ram × SbiRet
read regions mem device b = read_buffer regions mem device (validate_buffer regions b)

-- `write_byte_blocking` over the answers to one byte; `none` while it spins.
unfoldable pub write_byte_blocking : List Answer → Option (Option DbcnError)
write_byte_blocking [] = none
write_byte_blocking (refused e ∷ _) = some (some e)
write_byte_blocking (took zero ∷ later) = write_byte_blocking later
write_byte_blocking (took (suc zero) ∷ _) = some none
write_byte_blocking (took (suc (suc _)) ∷ _) = some (some io_failed)

abbrev byte_answer : Option DbcnError → SbiRet
byte_answer none = success 0
byte_answer (some e) = dbcn_error e

-- `Console::write_byte`.
unfoldable pub write_byte : List Answer → Option SbiRet
write_byte answers = elim (write_byte_blocking answers) [
  | none ↦ none
  | some r ↦ some (byte_answer r)
]

abbrev pub drop : ℕ → List ℕ → List ℕ
drop zero xs = xs
drop (suc n) [] = []
drop (suc n) (x ∷ xs) = drop n xs

-- How `write_str` of `_print` ends: `done`, with an error, or spinning.
pub data Ended : Type 0 where
  done fmt_error spinning : Ended

-- `write_str` from the bytes that are left, with what the device has taken, in order.
unfoldable pub write_str : List Answer → List ℕ → List ℕ → List ℕ × Ended
write_str answers [] sent = (sent, done)
write_str [] (b ∷ bs) sent = (sent, spinning)
write_str (refused e ∷ later) (b ∷ bs) sent = (sent, fmt_error)
write_str (took n ∷ later) (b ∷ bs) sent =
    let rest = write_str later (drop n (b ∷ bs)) (sent ++ take n (b ∷ bs)) in
    if ltb (length (b ∷ bs)) n then (sent, fmt_error) else rest
