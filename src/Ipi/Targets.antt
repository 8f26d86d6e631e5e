-- ===== src/Ipi/Targets.antt =====
-- The requests select exactly the available harts of the mask.
use rustsbi.Base.{
  ℕ, ◌+◌, ◌-◌, ◌≤◌, ◌<◌, ◌≡◌, refl, ap, ◌∙◌, ◌≢◌, inl, inr, true, false, not, ◌&&◌, ◌||◌, List, [],
  ◌∷◌, arith, ltb, ◌==◌, if◌then◌else◌, Bool-cases, length, elem,
}
use rustsbi.Base.Usize.{usize_bits, IsUsize}
use rustsbi.Base.Words.{bit, bit-zero, bit_ext}
use rustsbi.Smm.Vector.{any}
use rustsbi.Spec.Ret.{Result, ok, err, Error, invalid_param}
use rustsbi.Spec.HartMask.{HartMask, from_mask_base, contains, ignore_mask}
use rustsbi.Spec.Mask.{has_bit}
use rustsbi.Spec.HartMask.Bits.{contains_lem}
use rustsbi.Spec.HartMask.Forward.{IsIterable}
use rustsbi.Hart.{num_hart_max}
use rustsbi.Ipi.{
  Board, assigned, available, window_requests, active_bits, one_request, target_requests, targets,
}
use rustsbi.Ipi.Windows.{window_requests_lem, elem-targets}
use rustsbi.Ipi.Active.{
  available-lt, active_bits-Activates, active_bits-lt, active_bits-refused, walk, elem-walk,
}

one_request_ok :
    (base : ℕ) (r : Result ℕ) (rs : List HartMask)
    → one_request base r ≡ ok rs
    → (active : ℕ) × (r ≡ ok active)
      × (rs ≡ (if active == 0 then [] else from_mask_base active base ∷ []))
unfolding one_request
one_request_ok base (err x) rs e = absurd cc
one_request_ok base (ok active) rs e = (active, refl, ground arith)

one_request_err : (base : ℕ) (r : Result ℕ) (x : Error) → one_request base r ≡ err x → r ≡ err x
unfolding one_request
one_request_err base (err y) x e = cc
one_request_err base (ok active) x e = absurd (ground arith)

-- The request of an active mask.
module _ (b : Board) (m : HartMask) (word : IsUsize m.hart_mask) where
  -- A request that is not empty stays within the harts that there are.
  active-IsIterable :
      (active : ℕ)
      → m.hart_mask_base ≢ ignore_mask
      → active_bits b m.hart_mask_base (walk m.hart_mask) 0 ≡ ok active
      → active ≢ 0
      → IsIterable (from_mask_base active m.hart_mask_base)
  active-IsIterable active ne e nonzero =
      let steps = active_bits-Activates b m.hart_mask_base (walk m.hart_mask) 0 active e in
      let small =
        active_bits-lt b m.hart_mask_base (walk m.hart_mask) 0 active (omega arith) window e in
      elim (Bool-cases (ltb m.hart_mask_base num_hart_max)) [
        | inl low ↦ ((small, ne), ground arith)
        | inr high ↦ absurd (
            nonzero (
              bit_ext 64 active 0 small (omega arith) (λ i.
                let clear = bit-zero i in
                let chosen = steps.1 i in
                let far : available b (m.hart_mask_base + i) ≡ false =
                  ground (arith, available-lt b (m.hart_mask_base + i)) in
                ground (arith, clear, chosen, far))))
      ]
    where
      window : (i : ℕ) → elem i (walk m.hart_mask) ≡ true → i < 64
      window i h = ground (arith, elem-walk m.hart_mask i word)

  ordinary-selects :
      (active j : ℕ)
      → m.hart_mask_base ≢ ignore_mask
      → active_bits b m.hart_mask_base (walk m.hart_mask) 0 ≡ ok active
      → elem j (targets (if active == 0 then [] else from_mask_base active m.hart_mask_base ∷ []))
        ≡ (contains m j && available b j)
  unfolding elem targets any
  ordinary-selects active j ne e =
      let inside = contains_lem m j ne in
      let steps = active_bits-Activates b m.hart_mask_base (walk m.hart_mask) 0 active e in
      let i = j - m.hart_mask_base in
      let chosen = steps.1 i in
      let walked = elem-walk m.hart_mask i word in
      let none_before = bit-zero i in
      let place : m.hart_mask_base ≤ j → available b (m.hart_mask_base + i) ≡ available b j =
        λ h. ap (available b) (omega arith) in
      elim (Bool-cases (active == 0)) [
        | inl empty ↦
            let zero_mask : active ≡ 0 = ground arith in
            let clear = ap (λ (t : ℕ). bit t i) zero_mask ∙ bit-zero i in
            rw (empty) (ground (arith, inside, chosen, walked, none_before, clear, place))
        | inr busy ↦
            let m' : HartMask = from_mask_base active m.hart_mask_base in
            let inside' = contains_lem m' j ne in
            let reached =
              elem-targets j (m' ∷ []) (active-IsIterable active ne e (ground arith), tt) in
            rw (busy) (ground (arith, reached, inside, inside', chosen, walked, none_before, place))
      ]

  ordinary-assigned :
      (active j : ℕ)
      → m.hart_mask_base ≢ ignore_mask
      → active_bits b m.hart_mask_base (walk m.hart_mask) 0 ≡ ok active
      → contains m j ≡ true
      → assigned b j ≡ true
  ordinary-assigned active j ne e c =
      let inside = contains_lem m j ne in
      let steps = active_bits-Activates b m.hart_mask_base (walk m.hart_mask) 0 active e in
      let i = j - m.hart_mask_base in
      let walked = elem-walk m.hart_mask i word in
      let place : m.hart_mask_base + i ≡ j = ground arith in
      rw (← ap (assigned b) place) (steps.0 i (ground arith))

contains-ignored : (m : HartMask) (j : ℕ) → m.hart_mask_base ≡ ignore_mask → contains m j ≡ true
unfolding contains has_bit
contains-ignored m j e = ground arith

contains-empty :
    (m : HartMask) (j : ℕ) → m.hart_mask_base ≢ ignore_mask → m.hart_mask ≡ 0 → contains m j ≡ false
contains-empty m j ne e =
    let i = j - m.hart_mask_base in
    let clear = ap (λ (t : ℕ). bit t i) e ∙ bit-zero i in ground (arith, contains_lem m j ne, clear)

refused_not : {rs : List HartMask} {x : Error} → ok rs ≡ err x → ⊥
refused_not e = cc

targets_none : (j : ℕ) → elem j (targets []) ≡ false
unfolding targets elem
targets_none j = refl

selected :
    (b : Board) (m : HartMask) (rs : List HartMask) (j : ℕ)
    → length b.enabled ≡ num_hart_max
    → IsUsize m.hart_mask
    → target_requests b m ≡ ok rs
    → (elem j (targets rs) ≡ (contains m j && available b j))
      × (m.hart_mask_base ≢ ignore_mask → contains m j ≡ true → assigned b j ≡ true)
unfolding target_requests
selected b m rs j eight word e = elim (Bool-cases (m.hart_mask_base == ignore_mask)) [
  | inl ignored ↦
      let made = window_requests (available b) 0 (length b.enabled) (length b.enabled) in
      let answer : Result (List HartMask) = ok made in
      let e' : answer ≡ ok rs = rw (target_requests, ignored) at e in
      let same : rs ≡ made = cc in
      let windows =
        window_requests_lem (available b) 0 (length b.enabled) (length b.enabled)
          (omega (arith, eight)) (omega (arith, eight)) in
      let reached = elem-targets j made windows.0 in
      rw (same) (
        ground (arith, reached, windows.1 j, contains-ignored m j, available-lt b j, eight),
        λ ne. absurd (ne (ground arith)),
      )
  | inr ordinary ↦
      let ne : m.hart_mask_base ≢ ignore_mask = ground arith in
      elim (Bool-cases (m.hart_mask == 0)) [
        | inl empty ↦
            let answer : Result (List HartMask) = ok [] in
            let e' : answer ≡ ok rs = rw (target_requests, ordinary, empty) at e in
            let same : rs ≡ [] = cc in
            let none_in = contains-empty m j ne (ground arith) in
            rw (same, none_in) (targets_none j, λ h c. absurd (cc))
        | inr some_bits ↦
            let e' = rw (target_requests, ordinary, some_bits) at e in
            let (active, made, shape) =
              one_request_ok m.hart_mask_base (active_bits b m.hart_mask_base (walk m.hart_mask) 0)
                rs e' in
            rw (shape) (
              ordinary-selects b m word active j ne made,
              λ h c. ordinary-assigned b m word active j ne made c,
            )
      ]
]

-- On a board of eight harts, the requests that `target_requests` makes select exactly the harts
-- that the mask contains and that are available; and for an ordinary mask this happens only when
-- every hart that the mask contains is assigned.
pub target_requests-selects :
    (b : Board) (m : HartMask) (rs : List HartMask) (j : ℕ)
    → length b.enabled ≡ num_hart_max
    → IsUsize m.hart_mask
    → target_requests b m ≡ ok rs
    → (elem j (targets rs) ≡ (contains m j && available b j))
      × ((m.hart_mask_base == ignore_mask || (not (contains m j) || assigned b j)) ≡ true)
target_requests-selects b m rs j eight word e =
    let (chosen, all) = selected b m rs j eight word e in (chosen, ground (arith, all))

-- `target_requests` fails only with an invalid parameter, and only for an ordinary mask that has
-- a bit whose hart is not assigned.
pub target_requests-refused :
    (b : Board) (m : HartMask) (x : Error)
    → IsUsize m.hart_mask
    → target_requests b m ≡ err x
    → (x ≡ invalid_param)
      × (m.hart_mask_base ≢ ignore_mask)
      × ((i : ℕ) × (i < usize_bits)
          × (bit m.hart_mask i ≡ 1)
          × (assigned b (m.hart_mask_base + i) ≡ false))
unfolding target_requests
target_requests-refused b m x word e = elim (Bool-cases (m.hart_mask_base == ignore_mask)) [
  | inl ignored ↦ absurd (refused_not (rw (target_requests, ignored) at e))
  | inr ordinary ↦ elim (Bool-cases (m.hart_mask == 0)) [
    | inl empty ↦ absurd (refused_not (rw (target_requests, ordinary, empty) at e))
    | inr some_bits ↦
        let e' = rw (target_requests, ordinary, some_bits) at e in
        let stopped =
          one_request_err m.hart_mask_base (active_bits b m.hart_mask_base (walk m.hart_mask) 0) x
            e' in
        let (named, (i, within, bad)) =
          active_bits-refused b m.hart_mask_base (walk m.hart_mask) 0 x stopped in
        let walked = elem-walk m.hart_mask i word in
        (named, ground arith, (i, ground arith, ground arith, bad))
  ]
]
