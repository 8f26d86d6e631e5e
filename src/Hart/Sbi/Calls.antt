-- ===== src/Hart/Sbi/Calls.antt =====
-- What an SBI caller observes of starting and suspending a hart.
use rustsbi.Base.{
  ℕ, ◌≡◌, refl, sym, ap, ◌≢◌, ◌⊎◌, inl, inr, true, false, Option, some, arith, ◌==◌, ==_iff,
  Bool-cases, Option-cases,
}
use rustsbi.Spec.Ret.{success, failed, from_error, is_ok}
use rustsbi.Hart.{
  HartStateCell, NextStage, Devices, status, from_raw, start, suspend_current,
  resume_current_retentive, begin_nonretentive_resume, commit, accepted, hs_started, hs_suspended,
  started, stopped, wake, send_wake, clear_source, start_pending, suspended, take_local_event,
  start_event, Phase,
}
use rustsbi.Hart.Sbi.{
  SbiHsm, Cells, put, hart_id, stage_of, hart_start, hart_get_status, hart_suspend, retentive,
  non_retentive, suspend_retentive, suspend_nonretentive, state_id,
}

==_refl : (a : ℕ) → a == a ≡ true
==_refl a = ground arith

hart_id_eq : (h : SbiHsm) (raw hart : ℕ) → hart_id h raw ≡ some hart → hart ≡ raw
unfolding hart_id from_raw
hart_id_eq h raw hart e = ground arith

start-stopped :
    (d : Devices) (c : HartStateCell) (n : NextStage)
    → c.phase ≡ stopped
    → wake d ≡ true
    → start d c n ≡ (record c { phase = start_pending; stage = some n }, accepted)
unfolding start
start-stopped d c n p w = rw (p, w) refl

abbrev pending_cell : HartStateCell → NextStage → HartStateCell
pending_cell c n = record c { phase = start_pending; stage = some n }

hart_start-stopped :
    (h : SbiHsm) (d : Devices) (cells : Cells) (raw hart addr opaque : ℕ)
    → hart_id h raw ≡ some hart
    → (cells hart).phase ≡ stopped
    → wake d ≡ true
    → hart_start h d cells raw addr opaque
      ≡ (put cells hart (pending_cell (cells hart) (stage_of addr opaque)), success 0)
unfolding hart_start
hart_start-stopped h d cells raw hart addr opaque v p w =
    rw (hart_start, v, start-stopped d (cells hart) (stage_of addr opaque) p w) refl

get_status_of :
    (h : SbiHsm) (cells : Cells) (raw hart : ℕ)
    → hart_id h raw ≡ some hart
    → hart_get_status h cells raw ≡ success (state_id (status (cells hart)))
unfolding hart_get_status
get_status_of h cells raw hart v = rw (hart_get_status, v) refl

-- For a hart that exists, is enabled and usable, and is stopped, where the wake request succeeds:
-- `hart_start` succeeds, the hart then reports START_PENDING, and the first event that the hart
-- takes is this start, with the caller's address and argument, which leaves it STARTED.
pub hart_start-accepts :
    (h : SbiHsm) (d : Devices) (cells : Cells) (raw hart addr opaque : ℕ)
    → hart_id h raw ≡ some hart
    → (cells hart).phase ≡ stopped
    → wake d ≡ true
    → let r = hart_start h d cells raw addr opaque in
      (r.1 ≡ success 0)
      × (hart_get_status h r.0 raw ≡ success 2)
      × ((take_local_event (r.0 raw)).1 ≡ start_event (stage_of addr opaque))
      × (status (take_local_event (r.0 raw)).0 ≡ hs_started)
unfolding hart_start hart_get_status take_local_event status state_id
hart_start-accepts h d cells raw hart addr opaque v p w =
    let e = hart_id_eq h raw hart v in
    let here = ==_refl raw in
    rw
      (
        hart_start-stopped h d cells raw hart addr opaque v p w,
        get_status_of h _ raw hart v,
        e,
        here,
      )
      (refl, refl, refl, refl)

start_refused :
    (d : Devices) (p : Phase) (stage transfer : Option NextStage) (n : NextStage)
    → let c : HartStateCell = record { phase = p; stage = stage; transfer = transfer } in
      ((start d c n).1 ≡ accepted) ⊎ ((start d c n).0 ≡ c)
unfolding start
start_refused d stopped stage transfer n = elim (Bool-cases (wake d)) [
  | inl w ↦ inl (rw (start, w) refl)
  | inr w ↦ inr (rw (start, w) refl)
]
start_refused d _ stage transfer n = inr refl

put_other : (cells : Cells) (i j : ℕ) (c : HartStateCell) → j ≢ i → put cells i c j ≡ cells j
put_other cells i j c n = ground arith

put_same : (cells : Cells) (i j : ℕ) → put cells i (cells i) j ≡ cells j
put_same cells i j = elim (Bool-cases (j == i)) [
  | inl e ↦ rw (e) (ap cells (sym ((==_iff j i).0 e)))
  | inr e ↦ rw (e) refl
]

start_value :
    (h : SbiHsm) (d : Devices) (cells : Cells) (raw addr opaque hart : ℕ)
    → hart_id h raw ≡ some hart
    → (start d (cells hart) (stage_of addr opaque)).1 ≡ accepted
    → (hart_start h d cells raw addr opaque).1 ≡ success 0
unfolding hart_start
start_value h d cells raw addr opaque hart found taken = rw (hart_start, found, taken) refl

start_cells :
    (h : SbiHsm) (d : Devices) (cells : Cells) (raw addr opaque hart : ℕ)
    → hart_id h raw ≡ some hart
    → (hart_start h d cells raw addr opaque).0
      ≡ put cells hart (start d (cells hart) (stage_of addr opaque)).0
unfolding hart_start
start_cells h d cells raw addr opaque hart found = rw (hart_start, found) refl

-- `hart_start` changes the cell of no hart but the one it names, and no cell at all unless it
-- returns success.
pub hart_start-keeps :
    (h : SbiHsm) (d : Devices) (cells : Cells) (raw addr opaque j : ℕ)
    → (j ≢ raw) ⊎ (is_ok (hart_start h d cells raw addr opaque).1 ≡ false)
    → (hart_start h d cells raw addr opaque).0 j ≡ cells j
unfolding is_ok hart_start
hart_start-keeps h d cells raw addr opaque j why = elim (Option-cases (hart_id h raw)) [
  | inl missing ↦ rw (hart_start, missing) refl
  | inr (hart, found) ↦
      let c = cells hart in
      let e = hart_id_eq h raw hart found in
      let frame = start_cells h d cells raw addr opaque hart found in
      elim (start_refused d c.phase c.stage c.transfer (stage_of addr opaque)) [
        | inl taken ↦ elim why [
          | inl other ↦ rw (frame) (put_other cells hart j _ (ground arith))
          | inr failing ↦
              let won = start_value h d cells raw addr opaque hart found taken in
              absurd (ground arith)
        ]
        | inr same ↦ rw (frame, same) (put_same cells hart j)
      ]
]

abbrev waiting : HartStateCell → HartStateCell
waiting c = record c { phase = suspended }

nonretentive_unsent :
    (d : Devices) (c : HartStateCell) (n : NextStage)
    → send_wake d.ipi ≡ false
    → suspend_nonretentive d (waiting c) n ≡ (record c { phase = suspended }, from_error failed)
unfolding suspend_nonretentive begin_nonretentive_resume commit
nonretentive_unsent d c n unsent = rw (suspend_nonretentive, commit, unsent) refl

nonretentive_sent :
    (d : Devices) (c : HartStateCell) (n : NextStage)
    → send_wake d.ipi ≡ true
    → suspend_nonretentive d (waiting c) n
      ≡ (record c { phase = started; transfer = some n }, success 0)
unfolding suspend_nonretentive begin_nonretentive_resume commit
nonretentive_sent d c n sent = rw (suspend_nonretentive, commit, sent) refl

-- How `hart_suspend` ends: at once without a change, running again, or stranded.
suspend-cases :
    (d : Devices) (c : HartStateCell) (kind addr opaque : ℕ)
    → c.phase ≡ started
    → let r = hart_suspend d c kind addr opaque in
      (status r.0 ≡ hs_started)
      ⊎ ((kind == non_retentive ≡ true) × (is_ok r.1 ≡ false) × (status r.0 ≡ hs_suspended))
unfolding hart_suspend suspend_current resume_current_retentive status is_ok from_error
    suspend_retentive
suspend-cases d c kind addr opaque p = elim (Bool-cases (kind == retentive)) [
  | inl k ↦ elim (Bool-cases (clear_source d.ipi)) [
    | inl cleared ↦ inl (rw (hart_suspend, k, suspend_current, cleared) refl)
    | inr dirty ↦ inl (rw (hart_suspend, k, suspend_current, dirty, p) refl)
  ]
  | inr k ↦ elim (Bool-cases (kind == non_retentive)) [
    | inl n ↦ elim (Bool-cases (clear_source d.ipi)) [
      | inl cleared ↦
          let to = stage_of addr opaque in
          elim (Bool-cases (send_wake d.ipi)) [
            | inl sent ↦
                let last = nonretentive_sent d c to sent in
                inl (rw (hart_suspend, k, n, suspend_current, cleared, last) refl)
            | inr unsent ↦
                let last = nonretentive_unsent d c to unsent in
                inr (
                  n,
                  rw (hart_suspend, k, n, suspend_current, cleared, last) refl,
                  rw (hart_suspend, k, n, suspend_current, cleared, last) refl,
                )
          ]
      | inr dirty ↦ inl (rw (hart_suspend, k, n, suspend_current, dirty, p) refl)
    ]
    | inr n ↦ inl (rw (hart_suspend, k, n, p) refl)
  ]
]

-- When a started hart's `hart_suspend` returns to its caller with success, or was retentive, the
-- hart is STARTED again.
pub hart_suspend-returns :
    (d : Devices) (c : HartStateCell) (kind addr opaque : ℕ)
    → c.phase ≡ started
    → (kind ≡ retentive) ⊎ (is_ok (hart_suspend d c kind addr opaque).1 ≡ true)
    → status (hart_suspend d c kind addr opaque).0 ≡ hs_started
hart_suspend-returns d c kind addr opaque p why = elim (suspend-cases d c kind addr opaque p) [
  | inl running ↦ running
  | inr (n, bad, held) ↦ elim why [
    | inl e ↦ absurd (ground arith)
    | inr good ↦ absurd (ground arith)
  ]
]

-- A non-retentive `hart_suspend` that clears the interrupt source but cannot send the wake request
-- returns an error to its caller, and the hart reports SUSPENDED after it.
pub hart_suspend_strands :
    (d : Devices) (c : HartStateCell) (addr opaque : ℕ)
    → clear_source d.ipi ≡ true
    → send_wake d.ipi ≡ false
    → (is_ok (hart_suspend d c non_retentive addr opaque).1 ≡ false)
      × (status (hart_suspend d c non_retentive addr opaque).0 ≡ hs_suspended)
unfolding hart_suspend suspend_current status is_ok from_error
hart_suspend_strands d c addr opaque cleared unsent =
    let last = nonretentive_unsent d c (stage_of addr opaque) unsent in
    (rw (suspend_current, cleared, last) refl, rw (suspend_current, cleared, last) refl)
