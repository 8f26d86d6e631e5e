-- ===== src/Rfence/Queue.antt =====
-- How the queue operations change the number of requests of a source.
use rustsbi.Base.{
  ℕ, suc, ◌+◌, ◌≤◌, ◌≡◌, inl, inr, some, List, [], ◌∷◌, ◌++◌, arith, ◌==◌, if◌then◌else◌,
  Bool-cases, Option-cases, length,
}
use rustsbi.Rfence.{Request, remove_first}

-- 1 for a request of the source.
abbrev pub one_of : ℕ → Request → ℕ
one_of s r = if r.source == s then 1 else 0

unfoldable pub count_source : ℕ → List Request → ℕ
count_source s [] = 0
count_source s (r ∷ rs) = one_of s r + count_source s rs

pub count_source-append :
    (s : ℕ) (xs ys : List Request)
    → count_source s (xs ++ ys) ≡ count_source s xs + count_source s ys
unfolding count_source
count_source-append s [] ys = omega arith
count_source-append s (x ∷ xs) ys = omega (arith, count_source-append s xs ys)

pub count_source-le-length : (s : ℕ) (xs : List Request) → count_source s xs ≤ length xs
unfolding count_source
count_source-le-length s [] = omega arith
count_source-le-length s (x ∷ xs) = ground (arith, count_source-le-length s xs)

pub count_source-remove_first :
    (s t : ℕ) (xs ys : List Request)
    → remove_first s xs ≡ some ys
    → (count_source t xs ≡ (if s == t then 1 else 0) + count_source t ys)
      × (length xs ≡ suc (length ys))
unfolding count_source remove_first
count_source-remove_first s t [] ys e = absurd (ground arith)
count_source-remove_first s t (x ∷ xs) ys e = elim (Bool-cases (x.source == s)) [
  | inl hit ↦
      let e' : some xs ≡ some ys = rw (hit) at e in
      let same : ys ≡ xs = cc in rw (same) (ground arith)
  | inr miss ↦ elim (Option-cases (remove_first s xs)) [
    | inl gone ↦ absurd (ground arith)
    | inr (rest, found) ↦
        let e' : some (x ∷ rest) ≡ some ys = rw (miss, found) at e in
        let same : ys ≡ x ∷ rest = cc in
        rw (same) (ground (arith, count_source-remove_first s t xs rest found))
  ]
]
