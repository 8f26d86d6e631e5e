-- ===== src/Memory/Access.antt =====
-- firmware/runtime/src/memory/supervisor.rs: the byte loops behind the access check, over a memory
-- that holds one byte at an address.
use rustsbi.Base.{
  ℕ, zero, suc, ◌+◌, ◌≤◌, ◌<◌, ◌≡◌, refl, ap, ◌∙◌, ◌⊎◌, inl, inr, none, some, List, [], ◌∷◌, arith,
  ◌==◌, if◌then◌else◌, Option-cases, length,
}
use rustsbi.Memory.{RtError, RtResult, good, bad, PhysAddrRange, check_access}

abbrev pub Ram : Type 0
Ram = ℕ → ℕ

unfoldable pub load_bytes : Ram → ℕ → ℕ → List ℕ
load_bytes mem start zero = []
load_bytes mem start (suc n) = mem start ∷ load_bytes mem (start + 1) n

abbrev pub poke : Ram → ℕ → ℕ → Ram
poke mem at v a = if a == at then v else mem a

unfoldable pub store_bytes : Ram → ℕ → List ℕ → Ram
store_bytes mem start [] = mem
store_bytes mem start (b ∷ bs) = store_bytes (poke mem start b) (start + 1) bs

-- `SupervisorMemory::read` into a buffer of `n` bytes.
unfoldable pub read : List PhysAddrRange → Ram → ℕ → ℕ → RtResult (List ℕ)
read regions mem start n = elim (check_access regions start n) [
  | some e ↦ bad e
  | none ↦ good (load_bytes mem start n)
]

-- `SupervisorMemory::write`.
unfoldable pub write : List PhysAddrRange → Ram → ℕ → List ℕ → RtResult Ram
write regions mem start input = elim (check_access regions start (length input)) [
  | some e ↦ bad e
  | none ↦ good (store_bytes mem start input)
]

zeros : ℕ → List ℕ
zeros zero = []
zeros (suc n) = 0 ∷ zeros n

-- `SupervisorMemory::fill_zeros`.
unfoldable pub fill_zeros : List PhysAddrRange → Ram → ℕ → ℕ → RtResult Ram
unfolding zeros
fill_zeros regions mem start n = elim (check_access regions start n) [
  | some e ↦ bad e
  | none ↦ good (store_bytes mem start (zeros n))
]

pub length-load_bytes : (mem : Ram) (start n : ℕ) → length (load_bytes mem start n) ≡ n
unfolding load_bytes
length-load_bytes mem start zero = refl
length-load_bytes mem start (suc n) = ap suc (length-load_bytes mem (start + 1) n)

-- Outside of the stored bytes nothing changes.
pub store_bytes-outside :
    (bs : List ℕ) (mem : Ram) (start a : ℕ)
    → (a < start) ⊎ (start + length bs ≤ a)
    → store_bytes mem start bs a ≡ mem a
unfolding store_bytes
store_bytes-outside [] mem start a h = refl
store_bytes-outside (b ∷ bs) mem start a h =
    ground (arith, store_bytes-outside bs (poke mem start b) (start + 1) a)

-- What was stored is loaded again.
pub load_bytes-store_bytes :
    (bs : List ℕ) (mem : Ram) (start : ℕ)
    → load_bytes (store_bytes mem start bs) start (length bs) ≡ bs
unfolding store_bytes load_bytes
load_bytes-store_bytes [] mem start = refl
load_bytes-store_bytes (b ∷ bs) mem start =
    let first : store_bytes (poke mem start b) (start + 1) bs start ≡ b =
      store_bytes-outside bs (poke mem start b) (start + 1) start (inl (omega arith))
      ∙ ground arith in
    rw (first, load_bytes-store_bytes bs (poke mem start b) (start + 1))

module _ (regions : List PhysAddrRange) (mem : Ram) (start : ℕ) where
  pub read-cases :
      (n : ℕ)
      → ((check_access regions start n ≡ none)
          × (read regions mem start n ≡ good (load_bytes mem start n)))
        ⊎ ((e : RtError) × (read regions mem start n ≡ bad e))
  unfolding read
  read-cases n = elim (Option-cases (check_access regions start n)) [
    | inl ok ↦ inl (ok, rw (read, ok) refl)
    | inr (e, refusal) ↦ inr (e, rw (read, refusal) refl)
  ]

  pub write-cases :
      (bs : List ℕ)
      → ((check_access regions start (length bs) ≡ none)
          × (write regions mem start bs ≡ good (store_bytes mem start bs)))
        ⊎ ((e : RtError) × (write regions mem start bs ≡ bad e))
  unfolding write
  write-cases bs = elim (Option-cases (check_access regions start (length bs))) [
    | inl ok ↦ inl (ok, rw (write, ok) refl)
    | inr (e, refusal) ↦ inr (e, rw (write, refusal) refl)
  ]
