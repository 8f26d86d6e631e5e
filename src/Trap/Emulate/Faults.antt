-- ===== src/Trap/Emulate/Faults.antt =====
-- The faults that an emulation reports are those of its guarded accesses.
use rustsbi.Base.{
  ℕ, zero, suc, ◌+◌, ◌*◌, ◌/◌, ◌%◌, ◌^◌, bit_and, bit_or, ◌≡◌, refl, ap, ◌⊎◌, inl, inr, Option,
  some, ◌==◌, if◌then◌else◌, Bool-cases, Option-cases,
}
use rustsbi.Trap.{
  Machine, Error, Result, ok, err, unsupported_instruction, machine_origin, memory_fault, M,
  bind_result, map_err,
}
use rustsbi.Trap.Decode.{
  Instruction, load_of, store_of, csr_read_of, lb, lbu, lh, lhu, lw, lwu, ld, sb, sh, sw, sd, csrrs,
  Decoder,
}
use rustsbi.Trap.Guarded.{
  Fault, Bus, read_u8, read_u16, write_u8, fetch, fetch_rest, read_bytes, write_bytes,
}
use rustsbi.Trap.Emulate.{map_fetch_fault}

-- The cause of a fetch for the cause of the load by which it was done.
abbrev pub fetched_cause : ℕ → ℕ
fetched_cause cause = if cause == 5 then 1 else if cause == 13 then 12 else cause

-- An error with a cause and a value of its own has them from a guarded access that faults: the load
-- or the store of a byte, or the load of a half-word of the instruction, which counts as a fetch.
abbrev pub IsMet : Bus → Error → Type 0
IsMet bus (memory_fault cause tval) =
    (a : ℕ) × (f : Fault) × (tval ≡ f.tval)
    × (((bus.read_u8_fault a ≡ some f) × (cause ≡ f.cause))
        ⊎ (((bus.write_u8_fault a ≡ some f) × (cause ≡ f.cause))
            ⊎ ((bus.read_u16_fault a ≡ some f) × (cause ≡ fetched_cause f.cause))))
IsMet bus _ = Unit

abbrev pub Met : {A : Type 0} → Bus → Result A → Type 0
Met bus (ok a) = Unit
Met bus (err e) = IsMet bus e

-- The errors of a fetch, before their causes are mapped.
abbrev Fetched : Bus → Error → Type 0
Fetched bus (memory_fault cause tval) =
    (a : ℕ) × (f : Fault) × (tval ≡ f.tval) × (bus.read_u16_fault a ≡ some f) × (cause ≡ f.cause)
Fetched bus _ = Unit

abbrev FetchMet : {A : Type 0} → Bus → Result A → Type 0
FetchMet bus (ok a) = Unit
FetchMet bus (err e) = Fetched bus e

module _ {A B : Type 0} (bus : Bus) (m : Machine) (g : A → M B) where
  pub bind-Met :
      (r : Result A) → Met bus r → ((a : A) → Met bus (g a m).1) → Met bus (bind_result m r g).1
  bind-Met (ok a) h k = k a
  bind-Met (err e) h k = h

  bind-FetchMet :
      (r : Result A)
      → FetchMet bus r
      → ((a : A) → FetchMet bus (g a m).1)
      → FetchMet bus (bind_result m r g).1
  bind-FetchMet (ok a) h k = k a
  bind-FetchMet (err e) h k = h

pub mapped-Met :
    {A : Type 0} (bus : Bus) (r : Result A) → FetchMet bus r → Met bus (map_err map_fetch_fault r)
unfolding map_fetch_fault
mapped-Met bus (ok a) h = tt
mapped-Met bus (err (memory_fault cause tval)) (a, f, t, there, e) =
    (a, f, t, inr (inr (there, ap fetched_cause e)))
mapped-Met bus (err unsupported_instruction) h = tt
mapped-Met bus (err machine_origin) h = tt

module _ (bus : Bus) where
  read_u8-Met : (a : ℕ) (m : Machine) → Met bus (read_u8 bus a m).1
  unfolding read_u8
  read_u8-Met a m = elim (Option-cases (bus.read_u8_fault a)) [
    | inl e ↦ rw e tt
    | inr (f, e) ↦ rw e (a, f, refl, inl (e, refl))
  ]

  write_u8-Met : (a v : ℕ) (m : Machine) → Met bus (write_u8 bus a v m).1
  unfolding write_u8
  write_u8-Met a v m = elim (Option-cases (bus.write_u8_fault a)) [
    | inl e ↦ rw e tt
    | inr (f, e) ↦ rw e (a, f, refl, inr (inl (e, refl)))
  ]

  read_u16-FetchMet : (a : ℕ) (m : Machine) → FetchMet bus (read_u16 bus a m).1
  unfolding read_u16
  read_u16-FetchMet a m = elim (Option-cases (bus.read_u16_fault a)) [
    | inl e ↦ rw e tt
    | inr (f, e) ↦ rw e (a, f, refl, e, refl)
  ]

  pub read_bytes-Met : (addr n v : ℕ) (m : Machine) → Met bus (read_bytes bus addr n v m).1
  unfolding read_bytes
  read_bytes-Met addr zero v m = tt
  read_bytes-Met addr (suc n) v m =
      let a : ℕ = (addr + n) % 2 ^ 64 in
      bind-Met bus (read_u8 bus a m).0
        (λ byte. read_bytes bus addr n (bit_or (v * 2 ^ 8 % 2 ^ 64) byte)) (read_u8 bus a m).1
        (read_u8-Met a m)
        (λ byte. read_bytes-Met addr n (bit_or (v * 2 ^ 8 % 2 ^ 64) byte) (read_u8 bus a m).0)

  pub write_bytes-Met : (addr v n i : ℕ) (m : Machine) → Met bus (write_bytes bus addr v n i m).1
  unfolding write_bytes
  write_bytes-Met addr v zero i m = tt
  write_bytes-Met addr v (suc n) i m =
      let a : ℕ = (addr + i) % 2 ^ 64 in
      let w : ℕ = bit_and (v / 2 ^ (8 * i)) 0xff in
      bind-Met bus (write_u8 bus a w m).0 (λ _. write_bytes bus addr v n (suc i))
        (write_u8 bus a w m).1 (write_u8-Met a w m)
        (λ _. write_bytes-Met addr v n (suc i) (write_u8 bus a w m).0)

  fetch_rest-FetchMet :
      (d : Decoder) (pc low : ℕ) (m : Machine) → FetchMet bus (fetch_rest d bus pc low m).1
  unfolding fetch_rest
  fetch_rest-FetchMet d pc low m = elim (Bool-cases (d.instruction_length low == 2)) [
    | inl short ↦ rw short tt
    | inr long ↦
        let a : ℕ = (pc + 2) % 2 ^ 64 in
        rw long (
          bind-FetchMet bus (read_u16 bus a m).0 _ (read_u16 bus a m).1 (read_u16-FetchMet a m)
            (λ _. tt))
  ]

  pub fetch-FetchMet : (d : Decoder) (pc : ℕ) (m : Machine) → FetchMet bus (fetch d bus pc m).1
  unfolding fetch
  fetch-FetchMet d pc m =
      bind-FetchMet bus (read_u16 bus pc m).0 (fetch_rest d bus pc) (read_u16 bus pc m).1
        (read_u16-FetchMet pc m) (λ low. fetch_rest-FetchMet d pc low (read_u16 bus pc m).0)

pub load_of-Met : (bus : Bus) (o : Option Instruction) → Met bus (load_of o)
unfolding load_of
load_of-Met bus (some (lb rd)) = tt
load_of-Met bus (some (lbu rd)) = tt
load_of-Met bus (some (lh rd)) = tt
load_of-Met bus (some (lhu rd)) = tt
load_of-Met bus (some (lw rd)) = tt
load_of-Met bus (some (lwu rd)) = tt
load_of-Met bus (some (ld rd)) = tt
load_of-Met bus _ = tt

pub store_of-Met : (bus : Bus) (o : Option Instruction) → Met bus (store_of o)
unfolding store_of
store_of-Met bus (some (sb rs2)) = tt
store_of-Met bus (some (sh rs2)) = tt
store_of-Met bus (some (sw rs2)) = tt
store_of-Met bus (some (sd rs2)) = tt
store_of-Met bus _ = tt

pub csr_read_of-Met : (bus : Bus) (o : Option Instruction) → Met bus (csr_read_of o)
unfolding csr_read_of
csr_read_of-Met bus (some (csrrs csr rd)) = tt
csr_read_of-Met bus _ = tt
