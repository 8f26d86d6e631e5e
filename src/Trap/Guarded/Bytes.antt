-- ===== src/Trap/Guarded/Bytes.antt =====
-- Values in memory, byte by byte, where no access faults.
use rustsbi.Base.{
  ℕ, zero, suc, ◌+◌, ◌*◌, ◌/◌, ◌%◌, ◌^◌, ◌≤◌, ◌<◌, bit_and, ◌≡◌, refl, sym, ap, ◌∙◌, ◌≢◌, inl, inr,
  none, arith, ◌==◌, ==_iff, Bool-cases,
}
use native.Mathlib.Nat.{
  pow-suc, one-le-pow, div-add-mod', mod-lt, mul-add-mod_self_right, mod-eq_of_lt,
}
use rustsbi.Base.Words.{bit_or_fields, bit_and-low_ones}
use rustsbi.Trap.{Machine, ok}
use rustsbi.Trap.Decode.{
  ValueKind, width, signed8, unsigned8, signed16, unsigned16, signed32, unsigned32, signed64,
}
use rustsbi.Trap.Guarded.{
  Bus, read_u8, write_u8, read_bytes, read_value, write_bytes, write_value, store_byte,
}

-- The address of byte `i` of a value at `addr`.
abbrev pub place : ℕ → ℕ → ℕ
place addr i = (addr + i) % 2 ^ 64

-- The little-endian value of `n` bytes.
abbrev pub word : (ℕ → ℕ) → ℕ → ℕ → ℕ
word mem addr zero = 0
word mem addr (suc i) = mem (place addr i) * 2 ^ (8 * i) + word mem addr i

abbrev pub Readable : Bus → ℕ → ℕ → Type 0
Readable bus addr n = (i : ℕ) → i < n → bus.read_u8_fault (place addr i) ≡ none

abbrev pub Writable : Bus → ℕ → ℕ → Type 0
Writable bus addr n = (i : ℕ) → i < n → bus.write_u8_fault (place addr i) ≡ none

abbrev pub IsBytes : (ℕ → ℕ) → Type 0
IsBytes mem = (a : ℕ) → mem a < 256

pub pow_byte : (i : ℕ) → 2 ^ (8 * suc i) ≡ 256 * 2 ^ (8 * i)
pow_byte i =
    let e : 8 * suc i ≡ suc (suc (suc (suc (suc (suc (suc (suc (8 * i)))))))) = omega arith in
    rw e (
      omega (
        arith,
        pow-suc 2 (8 * i),
        pow-suc 2 (suc (8 * i)),
        pow-suc 2 (suc (suc (8 * i))),
        pow-suc 2 (suc (suc (suc (8 * i)))),
        pow-suc 2 (suc (suc (suc (suc (8 * i))))),
        pow-suc 2 (suc (suc (suc (suc (suc (8 * i)))))),
        pow-suc 2 (suc (suc (suc (suc (suc (suc (8 * i))))))),
        pow-suc 2 (suc (suc (suc (suc (suc (suc (suc (8 * i)))))))),
      ))

-- One more byte in front of a value, where `p` is the weight of the byte.
module _ (v byte p bound : ℕ) (small : byte < 256) (pos : 1 ≤ p)
    (fits : (v + 1) * (256 * p) ≤ bound) where
  next_fits : (v * 256 + byte + 1) * p ≤ bound
  next_fits = grind arith

  no_wrap : v * 256 < bound
  no_wrap = grind arith

split_sum : (x p d r : ℕ) → x ≡ d * p + r → x ≡ d / 256 * (256 * p) + (d % 256 * p + r)
split_sum x p d r e = e ∙ ap (λ (t : ℕ). t * p + r) (sym (div-add-mod' d 256)) ∙ grind arith

split_bound : (p b r : ℕ) → b < 256 → r < p → b * p + r < 256 * p
split_bound p b r h k = grind arith

weigh :
    (v byte p rest q : ℕ) → q ≡ 256 * p → (v * 2 ^ 8 + byte) * p + rest ≡ v * q + (byte * p + rest)
weigh v byte p rest q e = rw e (grind arith)

module _ (bus : Bus) (addr : ℕ) where
  read_bytes_lem :
      (m : Machine) (n v : ℕ)
      → IsBytes m.mem
      → Readable bus addr n
      → (v + 1) * 2 ^ (8 * n) ≤ 2 ^ 64
      → read_bytes bus addr n v m ≡ (m, ok (v * 2 ^ (8 * n) + word m.mem addr n))
  unfolding read_bytes read_u8
  read_bytes_lem m zero v bytes readable fits = ap (λ (t : ℕ). (m, ok t)) (omega arith)
  read_bytes_lem m (suc n) v bytes readable fits =
      let byte : ℕ = m.mem (place addr n) in
      let small : byte < 256 = bytes (place addr n) in
      let p : ℕ = 2 ^ (8 * n) in
      let fits' : (v + 1) * (256 * p) ≤ 2 ^ 64 = rw pow_byte at fits in
      let pos : 1 ≤ p = one-le-pow (8 * n) 2 (omega arith) in
      let keep : v * 2 ^ 8 % 2 ^ 64 ≡ v * 2 ^ 8 =
        omega (arith, no_wrap v byte p (2 ^ 64) small pos fits') in
      rw (readable n (omega arith), keep, bit_or_fields 8 v byte small)
        (read_bytes_lem m n (v * 2 ^ 8 + byte) bytes (λ i h. readable i (omega arith))
            (next_fits v byte p (2 ^ 64) small pos fits')
          ∙ ap (λ (t : ℕ). (m, ok t))
              (weigh v byte p (word m.mem addr n) (2 ^ (8 * suc n)) (pow_byte n)))

-- The memory after `n` bytes of `value`, from byte `i` on, were stored.
abbrev pub written : (ℕ → ℕ) → ℕ → ℕ → ℕ → ℕ → ℕ → ℕ
written mem addr value zero i = mem
written mem addr value (suc n) i =
    written (store_byte mem (place addr i) (value / 2 ^ (8 * i) % 256)) addr value n (suc i)

write_bytes_lem :
    (bus : Bus) (addr value n i : ℕ) (m : Machine)
    → ((j : ℕ) → i ≤ j → j < i + n → bus.write_u8_fault (place addr j) ≡ none)
    → write_bytes bus addr value n i m ≡ (record m { mem = written m.mem addr value n i }, ok tt)
unfolding write_bytes write_u8
write_bytes_lem bus addr value zero i m free = refl
write_bytes_lem bus addr value (suc n) i m free =
    let byte : ℕ = value / 2 ^ (8 * i) in
    let low : bit_and byte 0xff % 2 ^ 8 ≡ byte % 256 = omega (arith, bit_and-low_ones 8 byte) in
    rw (free i (omega arith) (omega arith), low)
      (write_bytes_lem bus addr value n (suc i)
        (record m { mem = store_byte m.mem (place addr i) (byte % 256) })
        (λ j h k. free j (omega arith) (omega arith)))

-- Places of one value are different.
place-distinct : (addr i j : ℕ) → i < j → j < 8 → place addr i ≢ place addr j
place-distinct addr i j h k = omega arith

written-other :
    (addr value n : ℕ) (mem : ℕ → ℕ) (i a : ℕ)
    → ((j : ℕ) → i ≤ j → j < i + n → a ≢ place addr j)
    → written mem addr value n i a ≡ mem a
written-other addr value zero mem i a far = refl
written-other addr value (suc n) mem i a far =
    written-other addr value n (store_byte mem (place addr i) (value / 2 ^ (8 * i) % 256)) (suc i) a
      (λ j h k. far j (omega arith) (omega arith))
    ∙ ground (arith, far i (omega arith) (omega arith))

written-place :
    (addr value n : ℕ) (mem : ℕ → ℕ) (i j : ℕ)
    → i + n ≤ 8
    → i ≤ j
    → j < i + n
    → written mem addr value n i (place addr j) ≡ value / 2 ^ (8 * j) % 256
written-place addr value zero mem i j fits h k = absurd (omega arith)
written-place addr value (suc n) mem i j fits h k =
    let first : ℕ → ℕ = store_byte mem (place addr i) (value / 2 ^ (8 * i) % 256) in
    elim (Bool-cases (i == j)) [
      | inl same ↦
          let e : i ≡ j = (==_iff i j).0 same in
          rw (← e) (
            written-other addr value n first (suc i) (place addr i)
              (λ l low high. place-distinct addr i l (omega arith) (omega arith))
            ∙ ground arith)
      | inr other ↦
          written-place addr value n first (suc i) j (omega arith) (ground arith) (omega arith)
    ]

split_byte : (x p q : ℕ) → 1 ≤ p → q ≡ 256 * p → x / p % 256 * p + x % p ≡ x % q
split_byte x p q pos e =
    let whole : x ≡ x / p / 256 * (256 * p) + (x / p % 256 * p + x % p) =
      split_sum x p (x / p) (x % p) (sym (div-add-mod' x p)) in
    let small : x / p % 256 * p + x % p < 256 * p =
      split_bound p (x / p % 256) (x % p) (omega arith) (mod-lt x {m = p} pos) in
    rw e (
      sym (
        ap (λ (t : ℕ). t % (256 * p)) whole
        ∙ mul-add-mod_self_right (x / p / 256) (256 * p) (x / p % 256 * p + x % p)
        ∙ mod-eq_of_lt small))

-- Bytes that are those of `value` make up its low part.
word_of_bytes :
    (mem : ℕ → ℕ) (addr value n : ℕ)
    → ((j : ℕ) → j < n → mem (place addr j) ≡ value / 2 ^ (8 * j) % 256)
    → word mem addr n ≡ value % 2 ^ (8 * n)
word_of_bytes mem addr value zero h = omega arith
word_of_bytes mem addr value (suc n) h =
    rw (h n (omega arith), word_of_bytes mem addr value n (λ j k. h j (omega arith)))
      (split_byte value (2 ^ (8 * n)) (2 ^ (8 * suc n)) (one-le-pow (8 * n) 2 (omega arith))
        (pow_byte n))

width_small : (k : ValueKind) → (width k ≤ 8) × (2 ^ (8 * width k) ≤ 2 ^ 64)
unfolding width
width_small signed8 = omega arith
width_small unsigned8 = omega arith
width_small signed16 = omega arith
width_small unsigned16 = omega arith
width_small signed32 = omega arith
width_small unsigned32 = omega arith
width_small signed64 = omega arith

written-IsBytes :
    (addr value n : ℕ) (mem : ℕ → ℕ) (i : ℕ) → IsBytes mem → IsBytes (written mem addr value n i)
written-IsBytes addr value zero mem i bytes = bytes
written-IsBytes addr value (suc n) mem i bytes =
    let byte : ℕ = value / 2 ^ (8 * i) % 256 in
    written-IsBytes addr value n (store_byte mem (place addr i) byte) (suc i)
      (λ a. ground (arith, bytes a))

-- What a store of `kind` leaves at `addr`, and what a load finds there.
pub read_value_lem :
    (bus : Bus) (addr : ℕ) (kind : ValueKind) (m : Machine)
    → IsBytes m.mem
    → Readable bus addr (width kind)
    → read_value bus addr kind m ≡ (m, ok (word m.mem addr (width kind)))
unfolding read_value
read_value_lem bus addr kind m bytes readable =
    read_bytes_lem bus addr m (width kind) 0 bytes readable (omega (arith, width_small kind))
    ∙ ap (λ (t : ℕ). (m, ok t)) (omega arith)

-- Where no byte faults, a value written under the trapped context's privilege is read back by an
-- access of the same width at the same address, cut to that width; the address may be misaligned,
-- and may wrap around the end of the address space. A byte at another address `a` stays.
pub read_value-write_value :
    (bus : Bus) (addr value : ℕ) (kind : ValueKind) (m : Machine) (a : ℕ)
    → IsBytes m.mem
    → ((j : ℕ) → j < width kind → a ≢ place addr j)
    → Readable bus addr (width kind)
    → Writable bus addr (width kind)
    → (m' : Machine) × (write_value bus addr value kind m ≡ (m', ok tt))
      × (read_value bus addr kind m' ≡ (m', ok (value % 2 ^ (8 * width kind))))
      × (m'.mem a ≡ m.mem a)
unfolding write_value
read_value-write_value bus addr value kind m a bytes far readable writable =
    let n : ℕ = width kind in
    let m' : Machine = record m { mem = written m.mem addr value n 0 } in
    let at_place : (j : ℕ) → j < n → m'.mem (place addr j) ≡ value / 2 ^ (8 * j) % 256 = λ j h.
      written-place addr value n m.mem 0 j (omega (arith, width_small kind)) (omega arith)
        (omega arith) in
    (
      m',
      write_bytes_lem bus addr value n 0 m (λ j h k. writable j (omega arith)),
      read_value_lem bus addr kind m' (written-IsBytes addr value n m.mem 0 bytes) readable
          ∙ ap (λ (t : ℕ). (m', ok t)) (word_of_bytes m'.mem addr value n at_place),
      written-other addr value n m.mem 0 a (λ j h k. far j (omega arith)),
    )
