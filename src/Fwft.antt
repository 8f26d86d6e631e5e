-- ===== src/Fwft.antt =====
-- firmware/prototyper/src/sbi/fwft.rs: firmware features kept in `menvcfg` and in the delegation
-- of misaligned accesses. The register is WARL: `legal` is the value that it keeps of a written
-- one, and an access to an absent register faults and is caught.
pub mod Settings
mod Examples
use rustsbi.Base.{
  ℕ, zero, suc, ◌+◌, ◌-◌, ◌*◌, ◌/◌, ◌%◌, ◌^◌, ◌≤◌, ◌<◌, min, max, bit_and, bit_or, ◌≡◌, refl, sym,
  ap, ◌∙◌, subst, ◌≢◌, ◌↔◌, ◌⊎◌, inl, inr, Bool, true, false, not, ◌&&◌, ◌||◌, Option, none, some,
  List, [], ◌∷◌, ◌++◌, map, arith, ltb, leb, ◌==◌, if◌then◌else◌, ltb→lt, leb→le, ==_iff,
  Bool-cases, Option-cases, length, get_elem?, set, All, length-append, length-map, All-append,
  elem,
}
use rustsbi.Base.Words.{one_shl, not_word}
use rustsbi.Spec.Ret.{SbiRet, success, from_error, invalid_param, not_supported}

abbrev pub misaligned_exc_deleg : ℕ
misaligned_exc_deleg = 0

abbrev pub landing_pad : ℕ
landing_pad = 1

abbrev pub shadow_stack : ℕ
shadow_stack = 2

abbrev pub double_trap : ℕ
double_trap = 3

abbrev pub pte_ad_hw_updating : ℕ
pte_ad_hw_updating = 4

abbrev pub pointer_masking_pmlen : ℕ
pointer_masking_pmlen = 5

-- The place of each field that is one bit, and of the field of two bits.
abbrev pub envcfg_lpe : ℕ
envcfg_lpe = 0

abbrev pub envcfg_dte : ℕ
envcfg_dte = 1

abbrev pub envcfg_adue : ℕ
envcfg_adue = 5

abbrev pub envcfg_sse : ℕ
envcfg_sse = 8

abbrev pub envcfg_pmm_shift : ℕ
envcfg_pmm_shift = 9

abbrev pub envcfg_pmm : ℕ
envcfg_pmm = 3 * 2 ^ envcfg_pmm_shift

-- What a hart implements.
pub record Hart : Type 0 where
  pub has_s_mode : Bool
  pub has_menvcfg : Bool
  pub legal : ℕ → ℕ

pub record Features : Type 0 where
  pub menvcfg : ℕ
  pub misaligned_delegated : Bool

unfoldable pub menvcfg_read : Hart → Features → Option ℕ
menvcfg_read h s = if h.has_menvcfg then some s.menvcfg else none

unfoldable pub menvcfg_write : Hart → Features → ℕ → Features × Bool
menvcfg_write h s value =
    if h.has_menvcfg then (record s { menvcfg = h.legal value }, true) else (s, false)

-- The place of the bit; the source has the bit itself.
unfoldable pub menvcfg_bit : ℕ → Option ℕ
menvcfg_bit feature_id =
    if feature_id == landing_pad
    then some envcfg_lpe
    else if feature_id == shadow_stack
    then some envcfg_sse
    else if feature_id == double_trap
    then some envcfg_dte
    else if feature_id == pte_ad_hw_updating
    then some envcfg_adue
    else none

-- The read before, the write, the read after and the comparison under a mask, which
-- `set_menvcfg_bit` and `set_pmm` share.
unfoldable pub write_checked : Hart → Features → (ℕ → ℕ) → ℕ → Features × SbiRet
write_checked h s next mask = elim (menvcfg_read h s) [
  | none ↦ (s, from_error not_supported)
  | some current ↦
      let w = menvcfg_write h s (next current) in
      if not w.1 then (w.0, from_error not_supported) else elim (menvcfg_read h w.0) [
        | none ↦ (w.0, from_error not_supported)
        | some read_back ↦
            if not (bit_and read_back mask == bit_and (next current) mask)
            then (w.0, from_error not_supported)
            else (w.0, success 0)
      ]
]

unfoldable pub set_menvcfg_bit : Hart → Features → ℕ → ℕ → Features × SbiRet
set_menvcfg_bit h s place value =
    let next = λ (current : ℕ).
      if value == 1
      then bit_or current (one_shl place)
      else bit_and current (not_word 64 (one_shl place)) in
    if ltb 1 value then (s, from_error invalid_param) else write_checked h s next (one_shl place)

unfoldable pub set_pmm : Hart → Features → ℕ → Features × SbiRet
set_pmm h s value =
    let next = λ (current : ℕ).
      bit_or (bit_and current (not_word 64 envcfg_pmm)) (value * 2 ^ envcfg_pmm_shift) in
    if ltb 3 value then (s, from_error invalid_param) else write_checked h s next envcfg_pmm

-- The probe writes the bits and then what was there before.
unfoldable pub menvcfg_bits_supported : Hart → Features → ℕ → Features × Bool
menvcfg_bits_supported h s mask = elim (menvcfg_read h s) [
  | none ↦ (s, false)
  | some current ↦
      let w = menvcfg_write h s (bit_or current mask) in
      let restored = (menvcfg_write h w.0 current).0 in
      if not w.1 then (w.0, false) else elim (menvcfg_read h w.0) [
        | none ↦ (restored, false)
        | some probed ↦ (restored, not (bit_and probed mask == 0))
      ]
]

unfoldable pub fwft_set : Hart → Features → ℕ → ℕ → ℕ → Features × SbiRet
fwft_set h s feature_id value flags =
    if not (flags == 0)
    then (s, from_error invalid_param)
    else if feature_id == misaligned_exc_deleg
    then if not h.has_s_mode
      then (s, from_error not_supported)
      else if ltb 1 value
      then (s, from_error invalid_param)
      else (record s { misaligned_delegated = value == 1 }, success 0)
    else if feature_id == pointer_masking_pmlen
    then set_pmm h s value
    else elim (menvcfg_bit feature_id) [
      | none ↦ (s, from_error not_supported)
      | some place ↦ set_menvcfg_bit h s place value
    ]

-- What `get` answers after its probe.
unfoldable pub answer : Hart → Features × Bool → (ℕ → ℕ) → Features × SbiRet
answer h probe field =
    if not probe.1 then (probe.0, from_error not_supported) else elim (menvcfg_read h probe.0) [
      | none ↦ (probe.0, from_error not_supported)
      | some value ↦ (probe.0, success (field value))
    ]

unfoldable pub fwft_get : Hart → Features → ℕ → Features × SbiRet
fwft_get h s feature_id =
    if feature_id == misaligned_exc_deleg
    then if not h.has_s_mode
      then (s, from_error not_supported)
      else (s, success (if s.misaligned_delegated then 1 else 0))
    else if feature_id == pointer_masking_pmlen
    then answer h (menvcfg_bits_supported h s envcfg_pmm)
        (λ value. bit_and value envcfg_pmm / 2 ^ envcfg_pmm_shift)
    else elim (menvcfg_bit feature_id) [
      | none ↦ (s, from_error not_supported)
      | some place ↦
          answer h (menvcfg_bits_supported h s (one_shl place))
            (λ value. if bit_and value (one_shl place) == 0 then 0 else 1)
    ]
