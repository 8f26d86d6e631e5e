-- ===== src/Console/Printing.antt =====
-- Printing retries until the device has taken every byte.
use rustsbi.Base.{
  ℕ, zero, suc, ◌-◌, ◌≤◌, ◌≡◌, refl, sym, ap, ◌∙◌, subst, inl, inr, false, List, [], ◌∷◌, ◌++◌,
  arith, ltb, Bool-cases, length,
}
use mathlib.Core.List.{append-nil, append_assoc}
use rustsbi.Console.{Answer, took, refused, Ended, done, fmt_error, spinning, write_str, take, drop}

take-drop : (n : ℕ) (xs : List ℕ) → take n xs ++ drop n xs ≡ xs
take-drop zero xs = refl
take-drop (suc n) [] = refl
take-drop (suc n) (x ∷ xs) = ap (λ (ys : List ℕ). x ∷ ys) (take-drop n xs)

-- What was taken so far and how the text goes on.
abbrev pub Splits : List ℕ → List ℕ → List ℕ × Ended → Type 0
Splits sent text (out, done) = out ≡ sent ++ text
Splits sent text (out, _) = (rest : List ℕ) × (sent ++ text ≡ out ++ rest)

regroup :
    (sent1 text1 sent text : List ℕ)
    → sent1 ++ text1 ≡ sent ++ text
    → (r : List ℕ × Ended) → Splits sent1 text1 r
    → Splits sent text r
regroup sent1 text1 sent text e (out, done) h = h ∙ e
regroup sent1 text1 sent text e (out, fmt_error) h = (h.0, sym e ∙ h.1)
regroup sent1 text1 sent text e (out, spinning) h = (h.0, sym e ∙ h.1)

-- Printing hands the device the bytes of the text in order, none twice and none left out: what was
-- taken is a first part of the text whenever printing stops, and all of it when printing ends
-- without an error.
pub write_str-Splits :
    (answers : List Answer) (text sent : List ℕ) → Splits sent text (write_str answers text sent)
unfolding write_str
write_str-Splits answers [] sent = sym (append-nil sent)
write_str-Splits [] (b ∷ bs) sent = (b ∷ bs, refl)
write_str-Splits (refused e ∷ later) (b ∷ bs) sent = (b ∷ bs, refl)
write_str-Splits (took n ∷ later) (b ∷ bs) sent = elim (Bool-cases (ltb (length (b ∷ bs)) n)) [
  | inl many ↦ rw many (b ∷ bs, refl)
  | inr fits ↦
      let whole : sent ++ take n (b ∷ bs) ++ drop n (b ∷ bs) ≡ sent ++ b ∷ bs =
        append_assoc sent (take n (b ∷ bs)) (drop n (b ∷ bs))
        ∙ ap (λ (xs : List ℕ). sent ++ xs) (take-drop n (b ∷ bs)) in
      rw fits (
        regroup (sent ++ take n (b ∷ bs)) (drop n (b ∷ bs)) sent (b ∷ bs) whole
          (write_str later (drop n (b ∷ bs)) (sent ++ take n (b ∷ bs)))
          (write_str-Splits later (drop n (b ∷ bs)) (sent ++ take n (b ∷ bs))))
]

-- A device that keeps to its contract, never taking more than it was offered nor refusing, and
-- that has taken `left` bytes in the end.
abbrev pub Accepts : List Answer → ℕ → Type 0
Accepts answers zero = Unit
Accepts [] (suc left) = ⊥
Accepts (refused e ∷ later) (suc left) = ⊥
Accepts (took n ∷ later) (suc left) = (n ≤ suc left) × Accepts later (suc left - n)

length-drop : (n : ℕ) (xs : List ℕ) → length (drop n xs) ≡ length xs - n
length-drop zero xs = omega arith
length-drop (suc n) [] = omega arith
length-drop (suc n) (x ∷ xs) = omega (arith, length-drop n xs)

-- Printing ends, with the whole text taken, on a device that keeps to its contract and takes
-- enough bytes over time, however often it takes none.
pub write_str-done :
    (answers : List Answer) (text sent : List ℕ)
    → Accepts answers (length text)
    → write_str answers text sent ≡ (sent ++ text, done)
unfolding write_str
write_str-done answers [] sent h = ap (λ (xs : List ℕ). (xs, done)) (sym (append-nil sent))
write_str-done [] (b ∷ bs) sent h = absurd h
write_str-done (refused e ∷ later) (b ∷ bs) sent h = absurd h
write_str-done (took n ∷ later) (b ∷ bs) sent (fits, rest) =
    let within : ltb (length (b ∷ bs)) n ≡ false = ground arith in
    let left : Accepts later (length (drop n (b ∷ bs))) =
      subst (Accepts later) (sym (length-drop n (b ∷ bs))) rest in
    rw within (
      write_str-done later (drop n (b ∷ bs)) (sent ++ take n (b ∷ bs)) left
      ∙ ap (λ (xs : List ℕ). (xs, done))
          (append_assoc sent (take n (b ∷ bs)) (drop n (b ∷ bs))
            ∙ ap (λ (xs : List ℕ). sent ++ xs) (take-drop n (b ∷ bs))))
