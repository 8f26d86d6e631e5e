-- ===== src/Fdt/Header.antt =====
-- Header fields, written in place.
use rustsbi.Base.{
  ℕ, zero, suc, ◌+◌, ◌-◌, ◌^◌, ◌≤◌, ◌<◌, ◌≡◌, refl, ap, ◌⊎◌, inl, inr, true, Option, some, List, [],
  ◌∷◌, arith, ltb, leb, length,
}
use rustsbi.Memory.{good, invalid_args}
use rustsbi.Fdt.Format.{
  ◌>>=◌, ok_or, consed, first_bytes, tail_from, first_of, get_range, from_be, read_u32,
}
use rustsbi.Fdt.Writer.{be_bytes, overwrite, write_header_field}
use rustsbi.Fdt.Fields.{be_digits, checked_add_fits}

length-overwrite : (xs : List ℕ) (o : ℕ) (new : List ℕ) → length (overwrite xs o new) ≡ length xs
unfolding overwrite
length-overwrite xs o [] = refl
length-overwrite [] o (n ∷ new) = refl
length-overwrite (x ∷ xs) zero (n ∷ new) = omega (arith, length-overwrite xs zero new)
length-overwrite (x ∷ xs) (suc o) (n ∷ new) = omega (arith, length-overwrite xs o (n ∷ new))

tail_from-overwrite :
    (xs : List ℕ) (o : ℕ) (new : List ℕ) (a : ℕ)
    → o + length new ≤ a
    → tail_from (overwrite xs o new) a ≡ tail_from xs a
unfolding overwrite tail_from
tail_from-overwrite xs o [] a h = refl
tail_from-overwrite [] o (n ∷ new) a h = refl
tail_from-overwrite (x ∷ xs) zero (n ∷ new) zero h = absurd (omega arith)
tail_from-overwrite (x ∷ xs) (suc o) (n ∷ new) zero h = absurd (omega arith)
tail_from-overwrite (x ∷ xs) zero (n ∷ new) (suc a) h =
    tail_from-overwrite xs zero new a (omega arith)
tail_from-overwrite (x ∷ xs) (suc o) (n ∷ new) (suc a) h =
    tail_from-overwrite xs o (n ∷ new) a (omega arith)

first_bytes-overwrite :
    (xs : List ℕ) (o : ℕ) (new : List ℕ) (k : ℕ)
    → k ≤ o
    → first_bytes (overwrite xs o new) k ≡ first_bytes xs k
unfolding overwrite first_bytes
first_bytes-overwrite xs o [] k h = refl
first_bytes-overwrite [] o (n ∷ new) k h = refl
first_bytes-overwrite (x ∷ xs) o (n ∷ new) zero h = ground arith
first_bytes-overwrite (x ∷ xs) zero (n ∷ new) (suc k) h = absurd (omega arith)
first_bytes-overwrite (x ∷ xs) (suc o) (n ∷ new) (suc k) h =
    ap (λ (t : Option (List ℕ)). consed x t) (first_bytes-overwrite xs o (n ∷ new) k (omega arith))

-- The `k` bytes from `a` on, in front of the place that is written.
range_before :
    (xs : List ℕ) (o : ℕ) (new : List ℕ) (a k : ℕ)
    → a + k ≤ o
    → first_of k (tail_from (overwrite xs o new) a) ≡ first_of k (tail_from xs a)
unfolding overwrite tail_from
range_before xs o new zero k h = first_bytes-overwrite xs o new k (omega arith)
range_before xs o [] (suc a) k h = refl
range_before [] o (n ∷ new) (suc a) k h = refl
range_before (x ∷ xs) zero (n ∷ new) (suc a) k h = absurd (omega arith)
range_before (x ∷ xs) (suc o) (n ∷ new) (suc a) k h = range_before xs o (n ∷ new) a k (omega arith)

range_written :
    (xs : List ℕ) (o : ℕ) (new : List ℕ)
    → o + length new ≤ length xs
    → first_of (length new) (tail_from (overwrite xs o new) o) ≡ some new
unfolding overwrite tail_from first_bytes
range_written xs zero [] h = refl
range_written [] zero (n ∷ new) h = absurd (omega arith)
range_written (x ∷ xs) zero (n ∷ new) h =
    ap (λ (t : Option (List ℕ)). consed n t) (range_written xs zero new (omega arith))
range_written [] (suc o) new h = absurd (omega arith)
range_written (x ∷ xs) (suc o) [] h = range_written xs o [] (omega arith)
range_written (x ∷ xs) (suc o) (n ∷ new) h = range_written xs o (n ∷ new) (omega arith)

first_there : (xs : List ℕ) (k : ℕ) → k ≤ length xs → (ys : List ℕ) × (first_bytes xs k ≡ some ys)
unfolding first_bytes
first_there xs zero h = ([], refl)
first_there [] (suc k) h = absurd (omega arith)
first_there (x ∷ xs) (suc k) h =
    let rest = first_there xs k (omega arith) in (x ∷ rest.0, rw rest.1 refl)

range_there :
    (xs : List ℕ) (o k : ℕ)
    → o + k ≤ length xs
    → (ys : List ℕ) × (first_of k (tail_from xs o) ≡ some ys)
unfolding tail_from
range_there xs zero k h = first_there xs k (omega arith)
range_there [] (suc o) k h = absurd (omega arith)
range_there (x ∷ xs) (suc o) k h = range_there xs o k (omega arith)

get_four : (xs : List ℕ) (o : ℕ) → get_range xs o (o + 4) ≡ first_of 4 (tail_from xs o)
unfolding get_range
get_four xs o =
    let ordered : leb o (o + 4) ≡ true = ground arith in
    let size : o + 4 - o ≡ 4 = omega arith in rw (ordered, size) refl

read_four :
    (xs : List ℕ) (o : ℕ)
    → o + 4 < 2 ^ 64
    → read_u32 xs o ≡ (ok_or invalid_args (first_of 4 (tail_from xs o)) >>= from_be)
unfolding read_u32
read_four xs o fits = rw (checked_add_fits o 4 fits, get_four xs o) refl

-- Writing a value below 2 ^ 32 to a field inside the output succeeds: the field reads back as that
-- value, and a field that does not overlap it, below 2 ^ 64, reads as before; the length stays.
pub write_header_field-reads :
    (output : List ℕ) (offset value other : ℕ)
    → value < 2 ^ 32
    → offset + 4 ≤ length output
    → length output < 2 ^ 64
    → other + 4 < 2 ^ 64
    → (other + 4 ≤ offset) ⊎ (offset + 4 ≤ other)
    → (next : List ℕ) × (write_header_field output offset value ≡ good next)
      × (read_u32 next offset ≡ good value)
      × (read_u32 next other ≡ read_u32 output other)
      × (length next ≡ length output)
unfolding write_header_field
write_header_field-reads output offset value other small inside fits fits' apart =
    let next : List ℕ = overwrite output offset (be_bytes value) in
    let short : ltb value (2 ^ 32) ≡ true = ground arith in
    let old = range_there output offset 4 inside in
    let same : first_of 4 (tail_from next other) ≡ first_of 4 (tail_from output other) =
      elim apart [
        | inl before ↦ range_before output offset (be_bytes value) other 4 before
        | inr behind ↦
            ap (λ (t : Option (List ℕ)). first_of 4 t)
              (tail_from-overwrite output offset (be_bytes value) other behind)
      ] in
    (
      next,
      rw (short, checked_add_fits offset 4 (omega arith), get_four output offset, old.1) refl,
      rw
          (
            read_four next offset (omega arith),
            range_written output offset (be_bytes value) inside,
            be_digits value small,
          )
          refl,
      rw (read_four next other fits', same, read_four output other fits') refl,
      length-overwrite output offset (be_bytes value),
    )
