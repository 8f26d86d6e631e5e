-- ===== src/Fdt/Fields.antt =====
-- Reading back what stands at a known offset.
use rustsbi.Base.{
  ℕ, ◌+◌, ◌-◌, ◌*◌, ◌/◌, ◌%◌, ◌^◌, ◌<◌, ◌≡◌, refl, sym, ap, ◌∙◌, inl, inr, Bool, true, false, some,
  List, [], ◌∷◌, ◌++◌, arith, leb, ◌==◌, Bool-cases, length, length-append, elem,
}
use mathlib.Core.List.{append_assoc}
use rustsbi.Base.Usize.{checked_add}
use rustsbi.Memory.{good}
use rustsbi.Fdt.Format.{
  first_bytes, tail_from, get_range, read_u32, take_u32, align_up, until_nul, take_c_string,
  take_aligned,
}
use rustsbi.Fdt.Writer.{be_bytes, push_u32}

pub tail_from-append : (xs ys : List ℕ) → tail_from (xs ++ ys) (length xs) ≡ some ys
unfolding tail_from
tail_from-append [] ys = refl
tail_from-append (x ∷ xs) ys = tail_from-append xs ys

first_bytes-append : (xs ys : List ℕ) → first_bytes (xs ++ ys) (length xs) ≡ some xs
unfolding first_bytes
first_bytes-append [] ys = refl
first_bytes-append (x ∷ xs) ys = rw (first_bytes-append xs ys) refl

pub get_range-append :
    (before value rest : List ℕ) (limit : ℕ)
    → limit ≡ length before + length value
    → get_range (before ++ value ++ rest) (length before) limit ≡ some value
unfolding get_range
get_range-append before value rest limit e =
    let ordered : leb (length before) (length before + length value) ≡ true = ground arith in
    let size : length before + length value - length before ≡ length value = omega arith in
    rw (e, ordered, size, append_assoc before value rest, tail_from-append before (value ++ rest))
      (first_bytes-append value rest)

pub until_nul-append :
    (name rest : List ℕ) → elem 0 name ≡ false → until_nul (name ++ 0 ∷ rest) ≡ some name
unfolding until_nul elem
until_nul-append [] rest h = refl
until_nul-append (x ∷ xs) rest h = elim (Bool-cases (x == 0)) [
  | inl zero_byte ↦ ground arith
  | inr other ↦ rw (other, until_nul-append xs rest (ground arith)) refl
]

pub be_digits :
    (v : ℕ)
    → v < 2 ^ 32
    → v / 2 ^ 24 % 256 * 2 ^ 24 + v / 2 ^ 16 % 256 * 2 ^ 16 + v / 2 ^ 8 % 256 * 2 ^ 8 + v % 256 ≡ v
be_digits v small = omega arith

pub checked_add_fits : (a b : ℕ) → a + b < 2 ^ 64 → checked_add a b ≡ some (a + b)
checked_add_fits a b h = ground arith

pub align_up_fits : (value : ℕ) → value + 3 < 2 ^ 64 → align_up value 4 ≡ good ((value + 3) / 4 * 4)
unfolding align_up
align_up_fits value h = rw (checked_add_fits value 3 h) refl

-- A 32-bit value stands big-endian behind `before`.
pub take_u32-push_u32 :
    (before rest : List ℕ) (v : ℕ)
    → v < 2 ^ 32
    → length before + 4 < 2 ^ 64
    → take_u32 (push_u32 before v ++ rest) (length before) ≡ good (v, length before + 4)
unfolding take_u32 read_u32 push_u32
take_u32-push_u32 before rest v small fits =
    rw
      (
        checked_add_fits (length before) 4 fits,
        get_range-append before (be_bytes v) rest (length before + 4) refl,
        be_digits v small,
      )
      refl

-- A text and its final 0 stand behind `before`, padded to a multiple of 4.
pub take_c_string_lem :
    (is_utf8 : List ℕ → Bool) (before name pad rest : List ℕ)
    → elem 0 name ≡ false
    → is_utf8 name ≡ true
    → (length name + 4) / 4 * 4 ≡ length name + 1 + length pad
    → length before + length name + 4 < 2 ^ 64
    → take_c_string is_utf8 (before ++ (name ++ 0 ∷ pad) ++ rest) (length before)
      ≡ good (name, length before + (length name + 1 + length pad))
unfolding take_c_string
take_c_string_lem is_utf8 before name pad rest no_nul text e fits =
    let whole : List ℕ = before ++ (name ++ 0 ∷ pad) ++ rest in
    let shape : whole ≡ before ++ (name ++ 0 ∷ (pad ++ rest)) =
      append_assoc before (name ++ 0 ∷ pad) rest
      ∙ ap (λ (t : List ℕ). before ++ t) (append_assoc name (0 ∷ pad) rest) in
    let next : ℕ = length before + (length name + 1 + length pad) in
    let inside : leb next (length whole) ≡ true = ground (
      arith,
      length-append (before ++ (name ++ 0 ∷ pad)) rest,
      length-append before (name ++ 0 ∷ pad),
      length-append name (0 ∷ pad),
    ) in
    let found : tail_from whole (length before) ≡ some (name ++ 0 ∷ (pad ++ rest)) =
      ap (λ (t : List ℕ). tail_from t (length before)) shape
      ∙ tail_from-append before (name ++ 0 ∷ (pad ++ rest)) in
    let aligned : (length name + 1 + 3) / 4 * 4 ≡ length name + 1 + length pad = omega (arith, e) in
    rw
      (
        found,
        until_nul-append name (pad ++ rest) no_nul,
        text,
        checked_add_fits (length name) 1 (omega arith),
        align_up_fits (length name + 1) (omega arith),
        aligned,
        checked_add_fits (length before) (length name + 1 + length pad) (omega arith),
        inside,
      )
      refl

-- A value stands behind `before`, padded to a multiple of 4.
pub take_aligned_lem :
    (before value pad rest : List ℕ)
    → (length value + 3) / 4 * 4 ≡ length value + length pad
    → length before + length value + 3 < 2 ^ 64
    → take_aligned (before ++ (value ++ pad) ++ rest) (length before) (length value)
      ≡ good (value, length before + (length value + length pad))
unfolding take_aligned
take_aligned_lem before value pad rest e fits =
    let whole : List ℕ = before ++ (value ++ pad) ++ rest in
    let shape : whole ≡ before ++ value ++ (pad ++ rest) =
      append_assoc before (value ++ pad) rest
      ∙ ap (λ (t : List ℕ). before ++ t) (append_assoc value pad rest)
      ∙ sym (append_assoc before value (pad ++ rest)) in
    let next : ℕ = length before + (length value + length pad) in
    let inside : leb next (length whole) ≡ true = ground (
      arith,
      length-append (before ++ (value ++ pad)) rest,
      length-append before (value ++ pad),
      length-append value pad,
    ) in
    let found : get_range whole (length before) (length before + length value) ≡ some value =
      ap (λ (t : List ℕ). get_range t (length before) (length before + length value)) shape
      ∙ get_range-append before value (pad ++ rest) (length before + length value) refl in
    rw
      (
        checked_add_fits (length before) (length value) (omega arith),
        found,
        align_up_fits (length value) (omega arith),
        e,
        checked_add_fits (length before) (length value + length pad) (omega arith),
        inside,
      )
      refl
