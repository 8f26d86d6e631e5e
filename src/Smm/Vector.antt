-- ===== src/Smm/Vector.antt =====
-- The operations on `Vec` that the manager uses, and how predicates on the items survive them.
use rustsbi.Base.{
  ℕ, zero, suc, ◌≡◌, refl, ap, inl, inr, Bool, false, ◌||◌, Option, none, some, List, [], ◌∷◌, ◌++◌,
  arith, if◌then◌else◌, Option-cases, length, All, All-append,
}

module _ {ℓ} {A : Type ℓ} where
  -- The items before the last, and the last.
  unfoldable pub pop : List A → Option (List A × A)
  pop [] = none
  pop (x ∷ xs) = elim (pop xs) [ none ↦ some ([], x) | some (front, z) ↦ some (x ∷ front, z) ]

  -- `Vec::swap_remove`: the last item takes the place of the one that is taken out.
  unfoldable pub swap_remove : List A → ℕ → Option (A × List A)
  swap_remove [] i = none
  swap_remove (x ∷ xs) zero = elim (pop xs) [
    | none ↦ some (x, [])
    | some (front, z) ↦ some (x, z ∷ front)
  ]
  swap_remove (x ∷ xs) (suc i) = elim (swap_remove xs i) [
    | none ↦ none
    | some (y, ys) ↦ some (y, x ∷ ys)
  ]

  -- `Iterator::position`.
  unfoldable pub position : (A → Bool) → List A → Option ℕ
  position p [] = none
  position p (x ∷ xs) =
      if p x then some 0 else elim (position p xs) [ none ↦ none | some i ↦ some (suc i) ]

  unfoldable pub find : (A → Bool) → List A → Option A
  find p [] = none
  find p (x ∷ xs) = if p x then some x else find p xs

  unfoldable pub any : (A → Bool) → List A → Bool
  any p [] = false
  any p (x ∷ xs) = p x || any p xs

  abbrev pub Pairwise {κ} : (A → A → Type κ) → List A → Type κ
  Pairwise R [] = Unit
  Pairwise R (x ∷ xs) = All (R x) xs × Pairwise R xs

-- What holds of every item holds of the item that is taken out and of those that are left.
module _ {ℓ κ} {A : Type ℓ} (P : A → Type κ) where
  abbrev pub AllPopped : Option (List A × A) → Type κ
  AllPopped none = Unit
  AllPopped (some (front, z)) = P z × All P front

  abbrev pub AllTaken : Option (A × List A) → Type κ
  AllTaken none = Unit
  AllTaken (some (y, ys)) = P y × All P ys

  pub All-pop : (xs : List A) → All P xs → AllPopped (pop xs)
  unfolding pop
  All-pop [] h = tt
  All-pop (x ∷ xs) h =
      let rest = All-pop xs h.1 in
      elim (Option-cases (pop xs)) [
        | inl e ↦ rw (e, pop) (h.0, tt)
        | inr (p, e) ↦ let rest' = rw e at rest in rw (e, pop) (rest'.0, (h.0, rest'.1))
      ]

  pub All-swap_remove : (xs : List A) (i : ℕ) → All P xs → AllTaken (swap_remove xs i)
  unfolding swap_remove
  All-swap_remove [] i h = tt
  All-swap_remove (x ∷ xs) zero h =
      let rest = All-pop xs h.1 in
      elim (Option-cases (pop xs)) [
        | inl e ↦ rw (e, swap_remove) (h.0, tt)
        | inr (p, e) ↦ let rest' = rw e at rest in rw (e, swap_remove) (h.0, rest')
      ]
  All-swap_remove (x ∷ xs) (suc i) h =
      let rest = All-swap_remove xs i h.1 in
      elim (Option-cases (swap_remove xs i)) [
        | inl e ↦ rw (e, swap_remove) tt
        | inr (p, e) ↦ let rest' = rw e at rest in rw (e, swap_remove) (rest'.0, (h.0, rest'.1))
      ]

-- A symmetric relation between all pairs survives, and holds between the item that is taken out
-- and those that are left.
module _ {ℓ κ} {A : Type ℓ} (R : A → A → Type κ) (symmetric : (x y : A) → R x y → R y x) where
  abbrev pub PairsPopped : Option (List A × A) → Type κ
  PairsPopped none = Unit
  PairsPopped (some (front, z)) = Pairwise R (z ∷ front)

  abbrev pub PairsTaken : Option (A × List A) → Type κ
  PairsTaken none = Unit
  PairsTaken (some (y, ys)) = Pairwise R (y ∷ ys)

  pub pairs-pop : (xs : List A) → Pairwise R xs → PairsPopped (pop xs)
  unfolding pop
  pairs-pop [] h = tt
  pairs-pop (x ∷ xs) h =
      let rest = pairs-pop xs h.1 in
      let near = All-pop (R x) xs h.0 in
      elim (Option-cases (pop xs)) [
        | inl e ↦ rw (e, pop) (tt, tt)
        | inr (p, e) ↦
            let rest' = rw e at rest in
            let near' = rw e at near in
            rw (e, pop) ((symmetric x p.1 near'.0, rest'.0), (near'.1, rest'.1))
      ]

  pub pairs-swap_remove : (xs : List A) (i : ℕ) → Pairwise R xs → PairsTaken (swap_remove xs i)
  unfolding swap_remove
  pairs-swap_remove [] i h = tt
  pairs-swap_remove (x ∷ xs) zero h =
      let rest = pairs-pop xs h.1 in
      let near = All-pop (R x) xs h.0 in
      elim (Option-cases (pop xs)) [
        | inl e ↦ rw (e, swap_remove) (tt, tt)
        | inr (p, e) ↦
            let rest' = rw e at rest in
            let near' = rw e at near in rw (e, swap_remove) (near', rest')
      ]
  pairs-swap_remove (x ∷ xs) (suc i) h =
      let rest = pairs-swap_remove xs i h.1 in
      let near = All-swap_remove (R x) xs i h.0 in
      elim (Option-cases (swap_remove xs i)) [
        | inl e ↦ rw (e, swap_remove) tt
        | inr (p, e) ↦
            let rest' = rw e at rest in
            let near' = rw e at near in
            rw (e, swap_remove) ((symmetric x p.0 near'.0, rest'.0), (near'.1, rest'.1))
      ]

module _ {ℓ κ κ'} {A : Type ℓ} {P : A → Type κ} {Q : A → Type κ'} where
  pub All-mono : (xs : List A) → ((x : A) → P x → Q x) → All P xs → All Q xs
  All-mono [] f h = tt
  All-mono (x ∷ xs) f h = (f x h.0, All-mono xs f h.1)

module _ {ℓ κ} {A : Type ℓ} (R : A → A → Type κ) where
  pub Pairwise-append_one :
      (xs : List A) (y : A) → Pairwise R xs → All (λ x. R x y) xs → Pairwise R (xs ++ y ∷ [])
  Pairwise-append_one [] y h k = (tt, tt)
  Pairwise-append_one (x ∷ xs) y h k =
      (All-append (R x) xs (y ∷ []) h.0 (k.0, tt), Pairwise-append_one xs y h.1 k.1)

module _ {ℓ} {A : Type ℓ} where
  pub All-of_not_any : (p : A → Bool) (xs : List A) → any p xs ≡ false → All (λ x. p x ≡ false) xs
  unfolding any
  All-of_not_any p [] e = tt
  All-of_not_any p (x ∷ xs) e = (ground arith, All-of_not_any p xs (ground arith))

  abbrev pub Shorter : ℕ → Option (A × List A) → Type 0
  Shorter n none = Unit
  Shorter n (some (y, ys)) = n ≡ suc (length ys)

  abbrev ShorterFront : ℕ → Option (List A × A) → Type 0
  ShorterFront n none = n ≡ 0
  ShorterFront n (some (front, z)) = n ≡ suc (length front)

  length-pop : (xs : List A) → ShorterFront (length xs) (pop xs)
  unfolding pop
  length-pop [] = refl
  length-pop (x ∷ xs) =
      let rest = length-pop xs in
      elim (Option-cases (pop xs)) [
        | inl e ↦ let rest' = rw e at rest in rw (e, pop) (ap suc rest')
        | inr (p, e) ↦ let rest' = rw e at rest in rw (e, pop) (ap suc rest')
      ]

  -- One item fewer is left.
  pub length-swap_remove : (xs : List A) (i : ℕ) → Shorter (length xs) (swap_remove xs i)
  unfolding swap_remove
  length-swap_remove [] i = tt
  length-swap_remove (x ∷ xs) zero =
      let rest = length-pop xs in
      elim (Option-cases (pop xs)) [
        | inl e ↦ let rest' = rw e at rest in rw (e, swap_remove) (ap suc rest')
        | inr (p, e) ↦ let rest' = rw e at rest in rw (e, swap_remove) (ap suc rest')
      ]
  length-swap_remove (x ∷ xs) (suc i) =
      let rest = length-swap_remove xs i in
      elim (Option-cases (swap_remove xs i)) [
        | inl e ↦ rw (e, swap_remove) tt
        | inr (p, e) ↦ let rest' = rw e at rest in rw (e, swap_remove) (ap suc rest')
      ]
