-- ===== src/Trap/Emulate/Restore.antt =====
-- What an emulation leaves of the trap: its registers and CSRs, although guarded accesses trap.
use rustsbi.Base.{
  ℕ, zero, suc, ◌+◌, ◌*◌, ◌/◌, ◌%◌, ◌^◌, bit_and, bit_or, ◌≡◌, refl, ◌⊎◌, inl, inr, Option, none,
  some, arith, ◌==◌, Bool-cases, Option-cases,
}
use rustsbi.Trap.{Csrs, Machine, Result, ok, err, M, bind_result, ◌>>=◌, lift, map_err, read_x}
use rustsbi.Trap.Decode.{width, Decoder, decode_load, decode_store}
use rustsbi.Trap.Guarded.{
  Fault, Bus, clobbered, read_u8, read_u16, write_u8, fetch, fetch_rest, read_bytes, read_value,
  write_bytes, write_value, read_csr_guarded,
}
use rustsbi.Trap.Emulate.{
  Platform, AccessDispatcher, TrapFacts, capture, restore, restore_all, restore_and_advance, finish,
  fetch_mapped, load_body, store_body, dispatch_load_body, dispatch_store_body, map_fetch_fault,
  or_unsupported,
}

-- All CSRs but the four that a trap into the recovery vector may overwrite.
abbrev pub SameRest : Csrs → Csrs → Type 0
SameRest c d =
    (d.sepc ≡ c.sepc)
    × (d.scause ≡ c.scause)
    × (d.stval ≡ c.stval)
    × (d.stvec ≡ c.stvec)
    × (d.satp ≡ c.satp)
    × (d.sie ≡ c.sie)
    × (d.mie ≡ c.mie)
    × (d.mip ≡ c.mip)

-- The registers of the trapped context are those of `m`, and so are those CSRs.
abbrev pub Kept : Machine → Machine → Type 0
Kept m m' = SameRest m.csr m'.csr × (m'.frame ≡ m.frame)

-- The length of an instruction that is emulated.
abbrev pub IsLength : ℕ → Type 0
IsLength len = (len ≡ 2) ⊎ (len ≡ 4)

-- A body may change the registers only when it succeeds, with the length of its instruction.
abbrev pub Untouched : Machine → Machine → Result ℕ → Type 0
Untouched m m' (ok len) = SameRest m.csr m'.csr × IsLength len
Untouched m m' (err e) = Kept m m'

pub Kept-refl : (m : Machine) → Kept m m
Kept-refl m = ground arith

pub Kept-trans : (m m1 m2 : Machine) → Kept m m1 → Kept m1 m2 → Kept m m2
Kept-trans m m1 m2 h k = ground arith

clobbered-Kept : (f : Fault) (m : Machine) → Kept m (clobbered f m)
clobbered-Kept f m = ground arith

module _ {A : Type 0} (m m1 : Machine) (h : Kept m m1) where
  bind-Kept :
      {B : Type 0} (r : Result A) (f : A → M B)
      → ((a : A) → Kept m1 (f a m1).0)
      → Kept m (bind_result m1 r f).0
  bind-Kept (ok a) f k = Kept-trans m m1 (f a m1).0 h (k a)
  bind-Kept (err e) f k = h

  pub bind-Untouched :
      (r : Result A) (f : A → M ℕ)
      → ((a : A) → r ≡ ok a → Untouched m (f a m1).0 (f a m1).1)
      → Untouched m (bind_result m1 r f).0 (bind_result m1 r f).1
  bind-Untouched (ok a) f k = k a refl
  bind-Untouched (err e) f k = h

module _ (bus : Bus) where
  read_u8-Kept : (addr : ℕ) (m : Machine) → Kept m (read_u8 bus addr m).0
  unfolding read_u8
  read_u8-Kept addr m = elim (Option-cases (bus.read_u8_fault addr)) [
    | inl e ↦ rw e (Kept-refl m)
    | inr (f, e) ↦ rw e (clobbered-Kept f m)
  ]

  read_u16-Kept : (addr : ℕ) (m : Machine) → Kept m (read_u16 bus addr m).0
  unfolding read_u16
  read_u16-Kept addr m = elim (Option-cases (bus.read_u16_fault addr)) [
    | inl e ↦ rw e (Kept-refl m)
    | inr (f, e) ↦ rw e (clobbered-Kept f m)
  ]

  write_u8-Kept : (addr v : ℕ) (m : Machine) → Kept m (write_u8 bus addr v m).0
  unfolding write_u8
  write_u8-Kept addr v m = elim (Option-cases (bus.write_u8_fault addr)) [
    | inl e ↦ rw e (ground arith)
    | inr (f, e) ↦ rw e (clobbered-Kept f m)
  ]

  read_bytes-Kept : (addr n v : ℕ) (m : Machine) → Kept m (read_bytes bus addr n v m).0
  unfolding read_bytes
  read_bytes-Kept addr zero v m = Kept-refl m
  read_bytes-Kept addr (suc n) v m =
      let a : ℕ = (addr + n) % 2 ^ 64 in
      bind-Kept m (read_u8 bus a m).0 (read_u8-Kept a m) (read_u8 bus a m).1
        (λ byte. read_bytes bus addr n (bit_or (v * 2 ^ 8 % 2 ^ 64) byte))
        (λ byte. read_bytes-Kept addr n (bit_or (v * 2 ^ 8 % 2 ^ 64) byte) (read_u8 bus a m).0)

  write_bytes-Kept : (addr v n i : ℕ) (m : Machine) → Kept m (write_bytes bus addr v n i m).0
  unfolding write_bytes
  write_bytes-Kept addr v zero i m = Kept-refl m
  write_bytes-Kept addr v (suc n) i m =
      let a : ℕ = (addr + i) % 2 ^ 64 in
      let w : ℕ = bit_and (v / 2 ^ (8 * i)) 0xff in
      bind-Kept m (write_u8 bus a w m).0 (write_u8-Kept a w m) (write_u8 bus a w m).1
        (λ _. write_bytes bus addr v n (suc i))
        (λ _. write_bytes-Kept addr v n (suc i) (write_u8 bus a w m).0)

  fetch_rest-Kept : (d : Decoder) (pc low : ℕ) (m : Machine) → Kept m (fetch_rest d bus pc low m).0
  unfolding fetch_rest
  fetch_rest-Kept d pc low m = elim (Bool-cases (d.instruction_length low == 2)) [
    | inl short ↦ rw short (Kept-refl m)
    | inr long ↦
        let a : ℕ = (pc + 2) % 2 ^ 64 in
        rw long (
          bind-Kept m (read_u16 bus a m).0 (read_u16-Kept a m) (read_u16 bus a m).1 _
            (λ _. Kept-refl (read_u16 bus a m).0))
  ]

  fetch-Kept : (d : Decoder) (pc : ℕ) (m : Machine) → Kept m (fetch d bus pc m).0
  unfolding fetch
  fetch-Kept d pc m =
      bind-Kept m (read_u16 bus pc m).0 (read_u16-Kept pc m) (read_u16 bus pc m).1
        (fetch_rest d bus pc) (λ low. fetch_rest-Kept d pc low (read_u16 bus pc m).0)

abbrev HasLength : Result (ℕ × ℕ) → Type 0
HasLength (ok x) = IsLength x.1
HasLength (err e) = Unit

lengths_of : (x : ℕ × ℕ) (r : Result (ℕ × ℕ)) → HasLength r → r ≡ ok x → IsLength x.1
lengths_of x (ok y) h e = ground arith
lengths_of x (err d) h e = absurd cc

map_err-HasLength : (r : Result (ℕ × ℕ)) → HasLength r → HasLength (map_err map_fetch_fault r)
map_err-HasLength (ok y) h = h
map_err-HasLength (err d) h = tt

bind-HasLength :
    (m : Machine) (r : Result ℕ) (f : ℕ → M (ℕ × ℕ))
    → ((a : ℕ) → HasLength (f a m).1)
    → HasLength (bind_result m r f).1
bind-HasLength m (ok a) f k = k a
bind-HasLength m (err e) f k = tt

module _ (bus : Bus) (d : Decoder) (pc : ℕ) where
  fetch_rest-HasLength : (low : ℕ) (m : Machine) → HasLength (fetch_rest d bus pc low m).1
  unfolding fetch_rest
  fetch_rest-HasLength low m = elim (Bool-cases (d.instruction_length low == 2)) [
    | inl short ↦ rw short (inl refl)
    | inr long ↦
        let act : Machine × Result ℕ = read_u16 bus ((pc + 2) % 2 ^ 64) m in
        rw long (bind-HasLength act.0 act.1 _ (λ _. inr refl))
  ]

  fetch-HasLength : (m : Machine) → HasLength (fetch d bus pc m).1
  unfolding fetch
  fetch-HasLength m =
      let act : Machine × Result ℕ = read_u16 bus pc m in
      bind-HasLength act.0 act.1 (fetch_rest d bus pc) (λ low. fetch_rest-HasLength low act.0)

pub read_csr_guarded-Kept :
    (f : Fault) (c : Option ℕ) (m : Machine) → Kept m (read_csr_guarded f c m).0
unfolding read_csr_guarded
read_csr_guarded-Kept f none m = clobbered-Kept f m
read_csr_guarded-Kept f (some v) m = Kept-refl m

module _ (p : Platform) where
  pub fetch_mapped-Kept : (pc : ℕ) (m : Machine) → Kept m (fetch_mapped p pc m).0
  unfolding fetch_mapped
  fetch_mapped-Kept pc m = fetch-Kept p.bus p.decoder pc m

  pub fetch_mapped-IsLength :
      (pc : ℕ) (m : Machine) (x : ℕ × ℕ) → (fetch_mapped p pc m).1 ≡ ok x → IsLength x.1
  unfolding fetch_mapped
  fetch_mapped-IsLength pc m x h =
      lengths_of x (map_err map_fetch_fault (fetch p.decoder p.bus pc m).1)
        (map_err-HasLength (fetch p.decoder p.bus pc m).1 (fetch-HasLength p.bus p.decoder pc m)) h

  -- The common part of the bodies: what follows the decoding decides.
  pub fetched-Untouched :
      {Op : Type 0} (pc : ℕ) (decode : ℕ → Result Op) (k : ℕ → Op → M ℕ) (m : Machine)
      → ((op : Op) (len : ℕ) (m1 : Machine)
          → Kept m m1
          → IsLength len
          → Untouched m (k len op m1).0 (k len op m1).1)
      → let act : M ℕ = fetch_mapped p pc >>= λ x. lift (decode x.0) >>= λ op. k x.1 op in
        Untouched m (act m).0 (act m).1
  fetched-Untouched pc decode k m h =
      let m1 : Machine = (fetch_mapped p pc m).0 in
      let kept : Kept m m1 = fetch_mapped-Kept pc m in
      bind-Untouched m m1 kept (fetch_mapped p pc m).1 _ (λ x e.
        let size : IsLength x.1 = fetch_mapped-IsLength pc m x e in
        bind-Untouched m m1 kept (decode x.0) _ (λ op _. h op x.1 m1 kept size))

  pub load_body-Untouched :
      (facts : TrapFacts) (m : Machine)
      → Untouched m (load_body p facts m).0 (load_body p facts m).1
  unfolding load_body read_value
  load_body-Untouched facts m =
      fetched-Untouched facts.mepc (decode_load p.decoder) _ m (λ op len m1 kept size.
        let act : Machine × Result ℕ = read_value p.bus facts.mtval op.kind m1 in
        let after : Kept m act.0 =
          Kept-trans m m1 act.0 kept (read_bytes-Kept p.bus facts.mtval (width op.kind) 0 m1) in
        bind-Untouched m act.0 after act.1 _ (λ v _. (after.0, size)))

  pub store_body-Untouched :
      (facts : TrapFacts) (m : Machine)
      → Untouched m (store_body p facts m).0 (store_body p facts m).1
  unfolding store_body write_value
  store_body-Untouched facts m =
      fetched-Untouched facts.mepc (decode_store p.decoder) _ m (λ op len m1 kept size.
        let value : ℕ = read_x m1.frame op.rs2 in
        let act : Machine × Result (Unit {0}) = write_value p.bus facts.mtval value op.kind m1 in
        let after : Kept m act.0 =
          Kept-trans m m1 act.0 kept
            (write_bytes-Kept p.bus facts.mtval value (width op.kind) 0 m1) in
        bind-Untouched m act.0 after act.1 _ (λ v _. (after.0, size)))

  pub dispatch_load_body-Untouched :
      (d : AccessDispatcher) (facts : TrapFacts) (m : Machine)
      → Untouched m (dispatch_load_body p d facts m).0 (dispatch_load_body p d facts m).1
  unfolding dispatch_load_body
  dispatch_load_body-Untouched d facts m =
      fetched-Untouched facts.mepc (decode_load p.decoder) _ m (λ op len m1 kept size.
        bind-Untouched m m1 kept (or_unsupported (d.load facts.mtval op.kind)) _
          (λ v _. (kept.0, size)))

  pub dispatch_store_body-Untouched :
      (d : AccessDispatcher) (facts : TrapFacts) (m : Machine)
      → Untouched m (dispatch_store_body p d facts m).0 (dispatch_store_body p d facts m).1
  unfolding dispatch_store_body
  dispatch_store_body-Untouched d facts m =
      fetched-Untouched facts.mepc (decode_store p.decoder) _ m (λ op len m1 kept size.
        elim (Bool-cases (d.store facts.mtval op.kind (read_x m1.frame op.rs2))) [
          | inl done ↦ rw done (kept.0, size)
          | inr declined ↦ rw declined kept
        ])

-- What an emulation does to the trap: the instruction is skipped, or all is as it was.
abbrev pub Serves : Machine → Machine → Result (Unit {0}) → Type 0
Serves m m' (ok _) =
    (len : ℕ) × IsLength len × (m'.csr ≡ record m.csr { mepc = (m.csr.mepc + len) % 2 ^ 64 })
Serves m m' (err e) = (m'.csr ≡ m.csr) × (m'.frame ≡ m.frame)

pub finish-Serves :
    (m m1 : Machine) (r : Result ℕ)
    → Untouched m m1 r
    → let out : Machine × Result (Unit {0}) = finish (capture m.csr) (m1, r) in Serves m out.0 out.1
unfolding finish capture restore restore_all restore_and_advance
finish-Serves m m1 (ok len) h = (len, h.1, ground arith)
finish-Serves m m1 (err e) h = (ground arith, h.1)
