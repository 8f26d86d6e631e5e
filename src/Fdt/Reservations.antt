-- ===== src/Fdt/Reservations.antt =====
-- The memory reservations of a blob end with the first entry of zeros.
use rustsbi.Base.{
  ℕ, zero, suc, ◌+◌, ◌-◌, ◌*◌, ◌%◌, ◌^◌, ◌≤◌, ◌<◌, ◌≡◌, refl, sym, ap, ◌∙◌, subst, ◌⊎◌, inl, inr,
  true, ◌&&◌, none, some, List, [], ◌∷◌, ◌++◌, map, arith, ltb, leb, ◌==◌, leb→le, Bool-cases,
  Option-cases, length, All, length-append,
}
use mathlib.Core.List.{append_assoc}
use rustsbi.Memory.{RtError, RtResult, good, bad, invalid_args, overflow}
use rustsbi.Fdt.Format.{first_bytes, tail_from, get_range, checked_slice}
use rustsbi.Fdt.Layout.{all_zero, map_rounds, reservation_map_end, header_size}
use rustsbi.Fdt.Fields.{get_range-append, tail_from-append}

length-first_bytes :
    (xs : List ℕ) (n : ℕ) (ys : List ℕ) → first_bytes xs n ≡ some ys → length ys ≡ n
unfolding first_bytes
length-first_bytes xs zero ys h = ground arith
length-first_bytes [] (suc n) ys h = absurd (ground arith)
length-first_bytes (x ∷ xs) (suc n) ys h = elim (Option-cases (first_bytes xs n)) [
  | inl gone ↦ absurd (ground arith)
  | inr (zs, there) ↦
      let e : some (x ∷ zs) ≡ some ys = (rw there at h) in
      let tail : length zs ≡ n = length-first_bytes xs n zs there in ground (arith, e, tail)
]

pub length-get_range :
    (source : List ℕ) (a b : ℕ) (xs : List ℕ) → get_range source a b ≡ some xs → a + length xs ≡ b
unfolding get_range
length-get_range source a b xs h = elim (Bool-cases (leb a b)) [
  | inr past ↦ absurd (ground arith)
  | inl ordered ↦ elim (Option-cases (tail_from source a)) [
    | inl gone ↦ absurd (ground arith)
    | inr (rest, there) ↦
        let e : first_bytes rest (b - a) ≡ some xs = (rw (ordered, there) at h) in
        let size : length xs ≡ b - a = length-first_bytes rest (b - a) xs e in
        let le : a ≤ b = leb→le a b ordered in omega (arith, size, le)
  ]
]

-- A slice that the checks let pass has its length and ends within the size.
pub checked_slice_good :
    (source : List ℕ) (offset len total_size : ℕ) (xs : List ℕ)
    → checked_slice source offset len total_size ≡ good xs
    → (length xs ≡ len)
      × (get_range source offset (offset + len) ≡ some xs)
      × (offset + len ≤ total_size)
unfolding checked_slice
checked_slice_good source offset len total_size xs h =
    ground (arith, length-get_range source offset (offset + len) xs)

-- The loop over the memory reservations does not run out of rounds: with as many as there are
-- bytes left, one more changes nothing.
pub map_rounds-enough :
    (source : List ℕ) (total_size n offset : ℕ)
    → total_size ≤ offset + n
    → offset + 16 * n + 16 < 2 ^ 64
    → map_rounds source total_size (suc n) offset ≡ map_rounds source total_size n offset
unfolding map_rounds checked_slice
map_rounds-enough source total_size zero offset covers fits = ground arith
map_rounds-enough source total_size (suc n) offset covers fits =
    ground (arith, map_rounds-enough source total_size n (offset + 16) (omega arith) (omega arith))

-- A block of entries of 16 bytes, all of whose bytes are 0 in the last one and in no other.
pub data IsMap : List ℕ → Type 0 where
  last : (entry : List ℕ) → length entry ≡ 16 → All (λ x. x ≡ 0) entry → IsMap entry
  more :
      (entry rest : List ℕ)
      → length entry ≡ 16
      → ¬ All (λ x. x ≡ 0) entry
      → IsMap rest
      → IsMap (entry ++ rest)

all_zero-All : (xs : List ℕ) → all_zero xs ≡ true → All (λ x. x ≡ 0) xs
all_zero-All [] h = tt
all_zero-All (x ∷ xs) h = (ground arith, all_zero-All xs (ground arith))

All-all_zero : (xs : List ℕ) → All (λ x. x ≡ 0) xs → all_zero xs ≡ true
All-all_zero [] h = refl
All-all_zero (x ∷ xs) h = ground (arith, h.0, All-all_zero xs h.1)

tail_from-split :
    (xs : List ℕ) (a : ℕ) (t : List ℕ)
    → tail_from xs a ≡ some t
    → (before : List ℕ) × (xs ≡ before ++ t) × (length before ≡ a)
unfolding tail_from
tail_from-split xs zero t h = ([], ground arith, refl)
tail_from-split [] (suc a) t h = absurd cc
tail_from-split (x ∷ xs) (suc a) t h =
    let (before, e, n) = tail_from-split xs a t h in
    (x ∷ before, ap (λ (l : List ℕ). x ∷ l) e, omega (arith, n))

first_bytes-split :
    (xs : List ℕ) (n : ℕ) (e : List ℕ)
    → first_bytes xs n ≡ some e
    → (rest : List ℕ) × (xs ≡ e ++ rest) × (length e ≡ n)
unfolding first_bytes
first_bytes-split xs zero e h =
    let none_taken : [] ≡ e = cc in
    (xs, subst (λ (l : List ℕ). xs ≡ l ++ xs) none_taken refl, ap length (sym none_taken))
first_bytes-split [] (suc n) e h = absurd cc
first_bytes-split (x ∷ xs) (suc n) e h = elim (Option-cases (first_bytes xs n)) [
  | inl gone ↦ let wrong : none ≡ some e = rw gone at h in absurd cc
  | inr (zs, there) ↦
      let same : some (x ∷ zs) ≡ some e = rw there at h in
      let e' : x ∷ zs ≡ e = cc in
      let (rest, f, len) = first_bytes-split xs n zs there in
      subst (λ (l : List ℕ). (rest : List ℕ) × (x ∷ xs ≡ l ++ rest) × (length l ≡ suc n)) e'
        (rest, ap (λ (l : List ℕ). x ∷ l) f, omega (arith, len))
]

-- A range of a list is a part of it.
get_range-split :
    (xs : List ℕ) (a b : ℕ) (e : List ℕ)
    → get_range xs a b ≡ some e
    → (before : List ℕ) × (rest : List ℕ) × (xs ≡ before ++ (e ++ rest))
      × (length before ≡ a)
      × (a + length e ≡ b)
unfolding get_range
get_range-split xs a b e h = elim (Bool-cases (leb a b)) [
  | inr past ↦ let wrong : none ≡ some e = rw past at h in absurd cc
  | inl ordered ↦ elim (Option-cases (tail_from xs a)) [
    | inl gone ↦ let wrong : none ≡ some e = rw (ordered, gone) at h in absurd cc
    | inr (t, there) ↦
        let (before, f, n) = tail_from-split xs a t there in
        let (rest, g, len) = first_bytes-split t (b - a) e (rw (ordered, there) at h) in
        let le : a ≤ b = leb→le a b ordered in
        (before, rest, f ∙ ap (λ (l : List ℕ). before ++ l) g, n, omega (arith, len, le))
  ]
]

-- Two ranges, one behind the other.
get_range-join :
    (xs : List ℕ) (a b c : ℕ) (e r : List ℕ)
    → get_range xs a b ≡ some e
    → get_range xs b c ≡ some r
    → get_range xs a c ≡ some (e ++ r)
get_range-join xs a b c e r h k =
    let (before, rest, f, n, len) = get_range-split xs a b e h in
    let (before', rest', f', n', len') = get_range-split xs b c r k in
    let behind : length (before ++ e) ≡ b = omega (arith, length-append before e, n, len) in
    let one : tail_from xs b ≡ some rest =
      subst (λ (i : ℕ). tail_from xs i ≡ some rest) behind
        (ap (λ (l : List ℕ). tail_from l (length (before ++ e)))
            (f ∙ sym (append_assoc before e rest))
          ∙ tail_from-append (before ++ e) rest) in
    let two : tail_from xs b ≡ some (r ++ rest') =
      subst (λ (i : ℕ). tail_from xs i ≡ some (r ++ rest')) n'
        (ap (λ (l : List ℕ). tail_from l (length before')) f'
          ∙ tail_from-append before' (r ++ rest')) in
    let both : some rest ≡ some (r ++ rest') = sym one ∙ two in
    let same : rest ≡ r ++ rest' = cc in
    let shape : xs ≡ before ++ (e ++ r) ++ rest' =
      f
      ∙ ap (λ (l : List ℕ). before ++ (e ++ l)) same
      ∙ ap (λ (l : List ℕ). before ++ l) (sym (append_assoc e r rest'))
      ∙ sym (append_assoc before (e ++ r) rest') in
    let limit : c ≡ length before + length (e ++ r) =
      omega (arith, length-append e r, n, len, len') in
    subst (λ (i : ℕ). get_range xs i c ≡ some (e ++ r)) n
      (ap (λ (l : List ℕ). get_range l (length before) c) shape
        ∙ get_range-append before (e ++ r) rest' c limit)

RtResult-cases :
    {A : Type 0} (r : RtResult A) → ((a : A) × (r ≡ good a)) ⊎ ((e : RtError) × (r ≡ bad e))
RtResult-cases (good a) = inl (a, refl)
RtResult-cases (bad e) = inr (e, refl)

-- What the loop has passed when it ends.
map_rounds-IsMap :
    (source : List ℕ) (total_size fuel offset end : ℕ)
    → map_rounds source total_size fuel offset ≡ good end
    → (entries : List ℕ) × (get_range source offset end ≡ some entries) × IsMap entries
unfolding map_rounds
map_rounds-IsMap source total_size zero offset end h = absurd (ground arith)
map_rounds-IsMap source total_size (suc fuel) offset end h =
    elim (RtResult-cases (checked_slice source offset 16 total_size)) [
      | inr (e, refused) ↦ let wrong : bad e ≡ good end = rw (map_rounds, refused) at h in absurd cc
      | inl (entry, passed) ↦
          let (len, range, inside) = checked_slice_good source offset 16 total_size entry passed in
          elim (Bool-cases (ltb (offset + 16) (2 ^ 64))) [
            | inr far ↦
                let wrong : bad overflow ≡ good end = rw (map_rounds, passed, far) at h in absurd cc
            | inl near ↦ elim (Bool-cases (all_zero entry)) [
              | inl zeros ↦
                  let ends : good (offset + 16) ≡ good end =
                    rw (map_rounds, passed, near, zeros) at h in
                  let e : offset + 16 ≡ end = cc in
                  (
                    entry,
                    subst (λ (i : ℕ). get_range source offset i ≡ some entry) e range,
                    last entry len (all_zero-All entry zeros),
                  )
              | inr used ↦
                  let rest_ends : map_rounds source total_size fuel (offset + 16) ≡ good end =
                    rw (map_rounds, passed, near, used) at h in
                  let (rest, there, map) =
                    map_rounds-IsMap source total_size fuel (offset + 16) end rest_ends in
                  (
                    entry ++ rest,
                    get_range-join source offset (offset + 16) end entry rest range there,
                    more entry rest len (λ a. absurd (ground (arith, used, All-all_zero entry a)))
                        map,
                  )
            ]
          ]
    ]

pub reservation_map_end-IsMap :
    (source : List ℕ) (start total_size end : ℕ) (entries : List ℕ)
    → reservation_map_end source start total_size ≡ good end
    → get_range source start end ≡ some entries
    → IsMap entries
unfolding reservation_map_end
reservation_map_end-IsMap source start total_size end entries h there =
    elim (Bool-cases (leb header_size start && start % 8 == 0)) [
      | inr off ↦
          let wrong : bad invalid_args ≡ good end = rw (reservation_map_end, off) at h in absurd cc
      | inl fine ↦
          let run : map_rounds source total_size (suc total_size) start ≡ good end =
            rw (reservation_map_end, fine) at h in
          let (passed, range, map) =
            map_rounds-IsMap source total_size (suc total_size) start end run in
          let both : some passed ≡ some entries = sym range ∙ there in
          let same : passed ≡ entries = cc in subst IsMap same map
    ]
