-- ===== src/Fdt/Tokens.antt =====
-- What the writer emits is read back by the checked reads, behind any earlier output.
use rustsbi.Base.{
  ℕ, zero, suc, ◌+◌, ◌*◌, ◌/◌, ◌%◌, ◌^◌, ◌≤◌, ◌<◌, ◌≡◌, refl, sym, ap, ◌∙◌, ◌⊎◌, inl, inr, Bool,
  true, List, [], ◌∷◌, ◌++◌, arith, ltb, Bool-cases, length, length-append, elem,
}
use mathlib.Core.List.{append_assoc}
use rustsbi.Memory.{good, bad, invalid_args, overflow}
use rustsbi.Fdt.Format.{take_u32, take_c_string, take_aligned, begin_node, property_token}
use rustsbi.Fdt.Writer.{push_u32, be_bytes, zeros, padding, pad_to, push_begin_node, push_property}
use rustsbi.Fdt.Fields.{take_u32-push_u32, take_c_string_lem, take_aligned_lem}

length-zeros : (n : ℕ) → length (zeros n) ≡ n
length-zeros zero = refl
length-zeros (suc n) = omega (arith, length-zeros n)

-- What `pad_to` does to an output of aligned length with a text behind it.
pad_to-behind :
    (before value : List ℕ)
    → length before % 4 ≡ 0
    → (pad : List ℕ) × (pad_to (before ++ value) 4 ≡ before ++ (value ++ pad))
      × ((length value + 3) / 4 * 4 ≡ length value + length pad)
unfolding pad_to
pad_to-behind before value aligned =
    let size : ℕ = length (before ++ value) in
    let pad : List ℕ = zeros (padding size 4) in
    (
      pad,
      append_assoc before value pad,
      omega (arith, aligned, length-append before value, length-zeros (padding size 4)),
    )

length-push_u32 : (output : List ℕ) (v : ℕ) → length (push_u32 output v) ≡ length output + 4
unfolding push_u32
length-push_u32 output v = length-append output (be_bytes v)

-- A node's token behind an output of aligned length: the writer refuses a name with a 0 in it and
-- else emits, whatever is written behind it, the token and the name that `take_u32` and
-- `take_c_string` read back one after the other; the second stops at the end of what was emitted,
-- which is aligned again. Offsets stay below 2 ^ 64.
pub push_begin_node-reads :
    (is_utf8 : List ℕ → Bool) (output name rest : List ℕ)
    → length output % 4 ≡ 0
    → is_utf8 name ≡ true
    → length output + length name + 8 < 2 ^ 64
    → ((elem 0 name ≡ true) × (push_begin_node output name ≡ bad invalid_args))
      ⊎ ((next : List ℕ) × (push_begin_node output name ≡ good next)
          × (take_u32 (next ++ rest) (length output) ≡ good (begin_node, length output + 4))
          × (take_c_string is_utf8 (next ++ rest) (length output + 4) ≡ good (name, length next))
          × (length next % 4 ≡ 0))
unfolding push_begin_node
push_begin_node-reads is_utf8 output name rest aligned text fits = elim (Bool-cases (elem 0 name)) [
  | inl nul ↦ inl (nul, rw nul refl)
  | inr clear ↦
      let head : List ℕ = push_u32 output begin_node in
      let size : length head ≡ length output + 4 = length-push_u32 output begin_node in
      let padded = pad_to-behind head (name ++ 0 ∷ []) (omega (arith, size, aligned)) in
      let pad : List ℕ = padded.0 in
      let next : List ℕ = head ++ (name ++ 0 ∷ pad) in
      let total : length next ≡ length output + 4 + (length name + 1 + length pad) =
        omega (arith, size, length-append head (name ++ 0 ∷ pad), length-append name (0 ∷ pad)) in
      let fill : (length name + 4) / 4 * 4 ≡ length name + 1 + length pad =
        omega (arith, padded.2, length-append name (0 ∷ [])) in
      inr (
        next,
        rw clear (
            ap (λ (t : List ℕ). good (pad_to t 4)) (append_assoc head name (0 ∷ []))
            ∙ ap (λ (t : List ℕ). good t) padded.1
            ∙ ap (λ (t : List ℕ). good (head ++ t)) (append_assoc name (0 ∷ []) pad)),
        ap (λ (t : List ℕ). take_u32 t (length output)) (append_assoc head (name ++ 0 ∷ pad) rest)
            ∙ take_u32-push_u32 output ((name ++ 0 ∷ pad) ++ rest) begin_node (omega arith)
                (omega arith),
        ap (λ (t : ℕ). take_c_string is_utf8 (next ++ rest) t) (sym size)
            ∙ take_c_string_lem is_utf8 head name pad rest clear text fill (omega (arith, size))
            ∙ ap (λ (t : ℕ). good (name, t)) (omega (arith, size, total)),
        omega (arith, total, aligned, fill),
      )
]

-- A value pushed under one more.
under_one :
    (before behind : List ℕ) (v w : ℕ)
    → push_u32 (push_u32 before v) w ++ behind ≡ push_u32 before v ++ (be_bytes w ++ behind)
unfolding push_u32
under_one before behind v w = append_assoc (before ++ be_bytes v) (be_bytes w) behind

-- A property's token behind an output of aligned length: the writer refuses a value that has
-- 2 ^ 32 bytes or more and else emits, whatever is written behind it, the token, the value's
-- length, the offset of its name and the value, which the checked reads give back one after the
-- other; the last stops at the end of what was emitted, which is aligned again.
pub push_property-reads :
    (output value rest : List ℕ) (name_offset : ℕ)
    → length output % 4 ≡ 0
    → name_offset < 2 ^ 32
    → length output + length value + 15 < 2 ^ 64
    → ((2 ^ 32 ≤ length value) × (push_property output name_offset value ≡ bad overflow))
      ⊎ ((next : List ℕ) × (push_property output name_offset value ≡ good next)
          × (take_u32 (next ++ rest) (length output) ≡ good (property_token, length output + 4))
          × (take_u32 (next ++ rest) (length output + 4) ≡ good (length value, length output + 8))
          × (take_u32 (next ++ rest) (length output + 8) ≡ good (name_offset, length output + 12))
          × (take_aligned (next ++ rest) (length output + 12) (length value)
              ≡ good (value, length next))
          × (length next % 4 ≡ 0))
unfolding push_property
push_property-reads output value rest name_offset aligned small fits =
    elim (Bool-cases (ltb (length value) (2 ^ 32))) [
      | inr large ↦ inl (ground arith, rw large refl)
      | inl short ↦
          let first : List ℕ = push_u32 output property_token in
          let second : List ℕ = push_u32 first (length value) in
          let head : List ℕ = push_u32 second name_offset in
          let size1 : length first ≡ length output + 4 = length-push_u32 output property_token in
          let size2 : length second ≡ length output + 8 =
            omega (arith, size1, length-push_u32 first (length value)) in
          let size : length head ≡ length output + 12 =
            omega (arith, size2, length-push_u32 second name_offset) in
          let padded = pad_to-behind head value (omega (arith, size, aligned)) in
          let pad : List ℕ = padded.0 in
          let next : List ℕ = head ++ (value ++ pad) in
          let behind : List ℕ = (value ++ pad) ++ rest in
          let shape : next ++ rest ≡ head ++ behind = append_assoc head (value ++ pad) rest in
          let total : length next ≡ length output + 12 + (length value + length pad) =
            omega (arith, size, length-append head (value ++ pad), length-append value pad) in
          inr (
            next,
            rw short (ap (λ (t : List ℕ). good t) padded.1),
            ap (λ (t : List ℕ). take_u32 t (length output))
                  (shape
                    ∙ under_one first behind (length value) name_offset
                    ∙ under_one output (be_bytes name_offset ++ behind) property_token
                        (length value))
                ∙ take_u32-push_u32 output
                    (be_bytes (length value) ++ (be_bytes name_offset ++ behind)) property_token
                    (omega arith) (omega arith),
            ap (λ (t : ℕ). take_u32 (next ++ rest) t) (sym size1)
                ∙ ap (λ (t : List ℕ). take_u32 t (length first))
                    (shape ∙ under_one first behind (length value) name_offset)
                ∙ take_u32-push_u32 first (be_bytes name_offset ++ behind) (length value)
                    (ground arith) (omega (arith, size1))
                ∙ ap (λ (t : ℕ). good (length value, t)) (omega (arith, size1)),
            ap (λ (t : ℕ). take_u32 (next ++ rest) t) (sym size2)
                ∙ ap (λ (t : List ℕ). take_u32 t (length second)) shape
                ∙ take_u32-push_u32 second behind name_offset small (omega (arith, size2))
                ∙ ap (λ (t : ℕ). good (name_offset, t)) (omega (arith, size2)),
            ap (λ (t : ℕ). take_aligned (next ++ rest) t (length value)) (sym size)
                ∙ take_aligned_lem head value pad rest padded.2 (omega (arith, size))
                ∙ ap (λ (t : ℕ). good (value, t)) (omega (arith, size, total)),
            omega (arith, total, aligned, padded.2),
          )
    ]
