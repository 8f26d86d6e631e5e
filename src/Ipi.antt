-- ===== src/Ipi.antt =====
-- firmware/prototyper/src/sbi/ipi.rs: which harts an interrupt goes to, and the events that are
-- pending for a hart. Fences that are sent by interrupts are in Rfence.Protocol.
pub mod Windows
pub mod Active
pub mod Targets
mod Examples
use rustsbi.Base.{
  ℕ, zero, suc, ◌+◌, ◌-◌, ◌*◌, ◌/◌, ◌%◌, ◌^◌, ◌≤◌, ◌<◌, min, max, bit_and, bit_or, ◌≡◌, refl, sym,
  ap, ◌∙◌, subst, ◌≢◌, ◌↔◌, ◌⊎◌, inl, inr, Bool, true, false, not, ◌&&◌, ◌||◌, Option, none, some,
  List, [], ◌∷◌, ◌++◌, map, arith, ltb, leb, ◌==◌, if◌then◌else◌, ltb→lt, leb→le, ==_iff,
  Bool-cases, Option-cases, length, get_elem?, set, All, length-append, length-map, All-append,
  elem,
}
use rustsbi.Base.Usize.{usize_bits, usize_max, checked_add}
use rustsbi.Base.Words.{one_shl}
use rustsbi.Base.Families.{assign}
use rustsbi.Spec.Ret.{Result, ok, err, SbiRet, success, failed, invalid_param, from_error}
use rustsbi.Spec.HartMask.{HartMask, from_mask_base, into_inner, collect, iter}
use rustsbi.Hart.{from_raw}

-- What the closures of `target_requests` read: the board's enabled harts, the harts whose
-- privilege mode has been checked, and the harts that can receive an interrupt.
pub record Board : Type 0 where
  pub enabled : List Bool
  pub privilege_checked : ℕ → Bool
  pub can_receive_ipi : ℕ → Bool

unfoldable pub or_false : Option Bool → Bool
or_false none = false
or_false (some e) = e

unfoldable pub assigned : Board → ℕ → Bool
unfolding or_false
assigned b hart_id = elim (from_raw hart_id) [
  | none ↦ false
  | some hart ↦ or_false (get_elem? b.enabled hart_id)
]

unfoldable pub available : Board → ℕ → Bool
available b hart_id =
    assigned b hart_id && (b.privilege_checked hart_id && b.can_receive_ipi hart_id)

-- The fold over the bits of a window of `n` harts.
unfoldable pub window_mask : (ℕ → Bool) → ℕ → ℕ → ℕ
window_mask avail base zero = 0
window_mask avail base (suc n) =
    bit_or (window_mask avail base n) (if avail (base + n) then one_shl n else 0)

-- The windows of `enabled.chunks(usize::BITS)`; `rounds` is a bound on their number.
unfoldable pub window_requests : (ℕ → Bool) → ℕ → ℕ → ℕ → List HartMask
window_requests avail base len zero = []
window_requests avail base len (suc rounds) =
    let rest = window_requests avail (base + usize_bits) (len - usize_bits) rounds in
    let mask = window_mask avail base (min usize_bits len) in
    if len == 0 then [] else if mask == 0 then rest else from_mask_base mask base ∷ rest

-- The loop over the bits of an ordinary mask.
unfoldable pub active_bits : Board → ℕ → List ℕ → ℕ → Result ℕ
active_bits b base [] active = ok active
active_bits b base (i ∷ is) active = elim (checked_add base i) [
  | none ↦ err invalid_param
  | some hart_id ↦
      let rest =
        active_bits b base is (if available b hart_id then bit_or active (one_shl i) else active) in
      if not (assigned b hart_id) then err invalid_param else rest
]

unfoldable pub one_request : ℕ → Result ℕ → Result (List HartMask)
one_request base (err e) = err e
one_request base (ok active) = if active == 0 then ok [] else ok (from_mask_base active base ∷ [])

-- `IpiRequest` is a hart mask.
unfoldable pub target_requests : Board → HartMask → Result (List HartMask)
unfolding one_request
target_requests b m =
    if m.hart_mask_base == usize_max
    then ok (window_requests (available b) 0 (length b.enabled) (length b.enabled))
    else if m.hart_mask == 0
    then ok []
    else one_request m.hart_mask_base (
        active_bits b m.hart_mask_base (collect usize_bits (iter (from_mask_base m.hart_mask 0))) 0)

-- `IpiRequest::harts` of all requests.
unfoldable pub targets : List HartMask → List ℕ
targets [] = []
targets (r ∷ rs) = collect usize_bits (iter r) ++ targets rs

abbrev pub ipi_type_ssoft : ℕ
ipi_type_ssoft = 1

abbrev pub ipi_type_fence : ℕ
ipi_type_fence = 2

-- The pending events of every hart.
abbrev pub Events : Type 0
Events = ℕ → ℕ

-- `set_ipi_type` and `get_and_reset_ipi_type`.
unfoldable pub set_ipi_type : Events → ℕ → ℕ → Events × ℕ
set_ipi_type ev hart_id event = (assign ev hart_id (bit_or (ev hart_id) event), ev hart_id)

unfoldable pub get_and_reset_ipi_type : Events → ℕ → Events × ℕ
get_and_reset_ipi_type ev hart_id = (assign ev hart_id 0, ev hart_id)

unfoldable pub mark_all : Events → List ℕ → Events
mark_all ev [] = ev
mark_all ev (h ∷ hs) = mark_all (set_ipi_type ev h ipi_type_ssoft).0 hs

-- The loop of `send_ipi`. `sends` are the results of the device, one for each request.
unfoldable pub send_requests : Events → List HartMask → List Bool → Events × SbiRet
send_requests ev [] sends = (ev, success 0)
send_requests ev (r ∷ rs) [] = (mark_all ev (collect usize_bits (iter r)), from_error failed)
send_requests ev (r ∷ rs) (sent ∷ sends) =
    let marked = mark_all ev (collect usize_bits (iter r)) in
    let rest = send_requests marked rs sends in if sent then rest else (marked, from_error failed)

unfoldable pub send_ipi : Board → Events → HartMask → List Bool → Events × SbiRet
send_ipi b ev m sends = elim (target_requests b m) [
  | err e ↦ (ev, from_error e)
  | ok rs ↦ send_requests ev rs sends
]
