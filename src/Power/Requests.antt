-- ===== src/Power/Requests.antt =====
-- Which reset requests reach the device.
use rustsbi.Base.{
  ℕ, ◌^◌, ◌≤◌, ◌<◌, ◌≡◌, refl, ap, ◌⊎◌, inl, inr, Option, none, some, arith, leb, ◌==◌, Bool-cases,
}
use rustsbi.Spec.Ret.{from_error, invalid_param}
use rustsbi.Power.{
  ResetType, shutdown, cold_reboot, warm_reboot, vendor_type, ResetReason, no_reason,
  system_failure, sbi_reason, vendor_reason, ResetRequest, parse_type, parse_reason, parse_request,
  ResetError, reset_answer, reset_with, system_reset, both,
}

-- The numbers of the specification.
abbrev pub type_number : ResetType → ℕ
type_number shutdown = 0
type_number cold_reboot = 1
type_number warm_reboot = 2
type_number (vendor_type n) = n

abbrev pub reason_number : ResetReason → ℕ
reason_number no_reason = 0
reason_number system_failure = 1
reason_number (sbi_reason n) = n
reason_number (vendor_reason n) = n

-- The types and the reasons that are not reserved.
abbrev pub IsType : ℕ → Type 0
IsType t = (t ≤ 2) ⊎ (0xf000_0000 ≤ t)

abbrev pub IsReason : ℕ → Type 0
IsReason r = (r ≤ 1) ⊎ (0xe000_0000 ≤ r)

type_lem :
    (t : ℕ)
    → t < 2 ^ 32
    → IsType t
    → (k : ResetType) × (parse_type t ≡ some k) × (type_number k ≡ t)
unfolding parse_type
type_lem t h v = elim (Bool-cases (t == 0)) [
  | inl e ↦ (shutdown, rw e refl, ground arith)
  | inr a ↦ elim (Bool-cases (t == 1)) [
    | inl e ↦ (cold_reboot, rw (a, e) refl, ground arith)
    | inr b ↦ elim (Bool-cases (t == 2)) [
      | inl e ↦ (warm_reboot, rw (a, b, e) refl, ground arith)
      | inr c ↦ (vendor_type t, ground arith, refl)
    ]
  ]
]

reason_lem :
    (r : ℕ)
    → r < 2 ^ 32
    → IsReason r
    → (k : ResetReason) × (parse_reason r ≡ some k) × (reason_number k ≡ r)
unfolding parse_reason
reason_lem r h v = elim (Bool-cases (r == 0)) [
  | inl e ↦ (no_reason, rw e refl, ground arith)
  | inr a ↦ elim (Bool-cases (r == 1)) [
    | inl e ↦ (system_failure, rw (a, e) refl, ground arith)
    | inr b ↦ elim (Bool-cases (leb 0xf000_0000 r)) [
      | inl e ↦ (vendor_reason r, ground arith, refl)
      | inr c ↦ (sbi_reason r, ground arith, refl)
    ]
  ]
]

-- A reset call whose type and reason are not reserved asks the device for exactly these two, and
-- its answer is passed on.
pub system_reset-passes :
    (device : ResetRequest → Option ResetError) (t r : ℕ)
    → t < 2 ^ 32
    → r < 2 ^ 32
    → IsType t
    → IsReason r
    → (q : ResetRequest) × (type_number q.reset_type ≡ t)
      × (reason_number q.reset_reason ≡ r)
      × (system_reset device t r ≡ reset_answer (device q))
unfolding system_reset parse_request
system_reset-passes device t r ht hr vt vr =
    let (k, e, same) = type_lem t ht vt in
    let (j, f, same') = reason_lem r hr vr in
    (record { reset_type = k; reset_reason = j }, same, same', rw (e, f) refl)

type_reserved : (t : ℕ) → 2 < t → t < 0xf000_0000 → parse_type t ≡ none
unfolding parse_type
type_reserved t h k = ground arith

reason_reserved : (r : ℕ) → 1 < r → r < 0xe000_0000 → parse_reason r ≡ none
unfolding parse_reason
reason_reserved r h k = ground arith

both-none : (o : Option ResetType) → both o none ≡ none
both-none none = refl
both-none (some t) = refl

-- A call with a reserved type or a reserved reason is refused, and the device is not asked.
pub system_reset-reserved :
    (device : ResetRequest → Option ResetError) (t r : ℕ)
    → ((2 < t) × (t < 0xf000_0000)) ⊎ ((1 < r) × (r < 0xe000_0000))
    → system_reset device t r ≡ from_error invalid_param
unfolding system_reset parse_request
system_reset-reserved device t r (inl h) = rw (type_reserved t h.0 h.1) refl
system_reset-reserved device t r (inr h) =
    rw (reason_reserved r h.0 h.1) (ap (reset_with device) (both-none (parse_type t)))
