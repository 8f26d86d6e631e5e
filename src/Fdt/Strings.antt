-- ===== src/Fdt/Strings.antt =====
-- The table of property names.
use rustsbi.Base.{
  ℕ, zero, suc, ◌^◌, ◌≤◌, ◌≡◌, refl, ap, ◌∙◌, ◌⊎◌, inl, inr, Bool, true, false, none, List, [], ◌∷◌,
  ◌++◌, arith, ltb, ◌==◌, Bool-cases, length, elem,
}
use mathlib.Core.List.{append_assoc}
use rustsbi.Memory.{good, bad, overflow}
use rustsbi.Fdt.Format.{tail_from, until_nul, string_at}
use rustsbi.Fdt.Writer.{append_string}
use rustsbi.Fdt.Fields.{until_nul-append, tail_from-append}

-- A text that ends in a table ends there in a longer one.
until_nul-longer : (xs ys : List ℕ) → (until_nul xs ≡ none) ⊎ (until_nul (xs ++ ys) ≡ until_nul xs)
unfolding until_nul
until_nul-longer [] ys = inl refl
until_nul-longer (x ∷ xs) ys = elim (Bool-cases (x == 0)) [
  | inl nul ↦ inr (rw nul refl)
  | inr other ↦ elim (until_nul-longer xs ys) [
    | inl gone ↦ inl (rw (other, gone) refl)
    | inr same ↦ inr (rw (other, same) refl)
  ]
]

string_at-longer :
    (is_utf8 : List ℕ → Bool) (strings more : List ℕ) (offset : ℕ) (text : List ℕ)
    → string_at is_utf8 strings offset ≡ good text
    → string_at is_utf8 (strings ++ more) offset ≡ good text
unfolding string_at tail_from
string_at-longer is_utf8 strings more zero text h = elim (until_nul-longer strings more) [
  | inl gone ↦ ground arith
  | inr same ↦ rw same h
]
string_at-longer is_utf8 [] more (suc offset) text h = ground arith
string_at-longer is_utf8 (x ∷ strings) more (suc offset) text h =
    string_at-longer is_utf8 strings more offset text h

-- A name appended to a table of less than 2 ^ 32 bytes is read back at the offset that is
-- returned, whatever is appended later, and a name that the table already gave at an offset it
-- gives there still; a table of 2 ^ 32 bytes or more is refused.
pub append_string-string_at :
    (is_utf8 : List ℕ → Bool) (strings name rest old : List ℕ) (offset : ℕ)
    → elem 0 name ≡ false
    → is_utf8 name ≡ true
    → string_at is_utf8 strings offset ≡ good old
    → ((2 ^ 32 ≤ length strings) × (append_string strings name ≡ bad overflow))
      ⊎ ((next : List ℕ) × (append_string strings name ≡ good (next, length strings))
          × (string_at is_utf8 (next ++ rest) (length strings) ≡ good name)
          × (string_at is_utf8 (next ++ rest) offset ≡ good old))
unfolding append_string string_at
append_string-string_at is_utf8 strings name rest old offset clear text kept =
    let next : List ℕ = (strings ++ name) ++ 0 ∷ [] in
    let shape : next ++ rest ≡ strings ++ (name ++ 0 ∷ rest) =
      append_assoc (strings ++ name) (0 ∷ []) rest ∙ append_assoc strings name (0 ∷ rest) in
    elim (Bool-cases (ltb (length strings) (2 ^ 32))) [
      | inr large ↦ inl (ground arith, rw large refl)
      | inl short ↦ inr (
        next,
        rw short refl,
        rw
            (
              shape,
              tail_from-append strings (name ++ 0 ∷ rest),
              until_nul-append name rest clear,
              text,
            )
            refl,
        ap (λ (t : List ℕ). string_at is_utf8 t offset) shape
            ∙ string_at-longer is_utf8 strings (name ++ 0 ∷ rest) offset old kept,
      )
    ]
