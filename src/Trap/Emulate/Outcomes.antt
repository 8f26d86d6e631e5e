-- ===== src/Trap/Emulate/Outcomes.antt =====
-- Every emulation either skips its instruction or leaves the trap as it was.
use rustsbi.Base.{
  ℕ, ◌%◌, ◌^◌, bit_and, ◌≡◌, refl, inl, inr, false, Option, none, some, ◌==◌, Bool-cases,
}
use rustsbi.Trap.{Machine, Result, ok, err, M, trapped_from_machine}
use rustsbi.Trap.Decode.{decode_csr_read}
use rustsbi.Trap.Guarded.{read_csr_guarded}
use rustsbi.Trap.Emulate.{
  Platform, AccessDispatcher, TrapFacts, capture, with_trap_facts, fetch_mapped, load_body,
  store_body, dispatch_load_body, dispatch_store_body, dispatch_with, emulate_load, emulate_store,
  dispatch_load_fault, dispatch_store_fault, reject_machine_origin, csr_read_body, csr_read_fetched,
  counter_word, device_counter_word, counter_or, probed_counter, time_or_unsupported, from_below,
  emulate_csr_read, direct_counter, csr_read_or, csr_time,
}
use rustsbi.Trap.Emulate.Restore.{
  Kept, Untouched, Serves, IsLength, finish-Serves, load_body-Untouched, store_body-Untouched,
  dispatch_load_body-Untouched, dispatch_store_body-Untouched, fetch_mapped-Kept, bind-Untouched,
  fetch_mapped-IsLength, Kept-refl, read_csr_guarded-Kept, Kept-trans,
}

abbrev Served : Machine → Machine × Result (Unit {0}) → Type 0
Served m r = Serves m r.0 r.1

with_trap_facts-Serves :
    (body : TrapFacts → M ℕ) (m : Machine)
    → ((facts : TrapFacts) → Untouched m (body facts m).0 (body facts m).1)
    → Served m (with_trap_facts body m)
unfolding with_trap_facts
with_trap_facts-Serves body m h =
    let facts : TrapFacts = capture m.csr in
    finish-Serves m (body facts m).0 (body facts m).1 (h facts)

pub from_below_lem :
    (act : M (Unit {0})) (m : Machine)
    → trapped_from_machine m.frame ≡ false
    → from_below act m ≡ act m
unfolding reject_machine_origin
from_below_lem act m h = rw (h, reject_machine_origin)

from_below-Serves :
    (act : M (Unit {0})) (m : Machine) → Served m (act m) → Served m (from_below act m)
unfolding reject_machine_origin
from_below-Serves act m h = elim (Bool-cases (trapped_from_machine m.frame)) [
  | inl from ↦ rw (from) (refl, refl)
  | inr below ↦ rw (below) h
]

dispatch_with-Serves :
    (body : AccessDispatcher → TrapFacts → M ℕ) (o : Option AccessDispatcher) (m : Machine)
    → ((d : AccessDispatcher) (facts : TrapFacts)
        → Untouched m (body d facts m).0 (body d facts m).1)
    → Served m (dispatch_with body o m)
unfolding dispatch_with
dispatch_with-Serves body (some d) m h = with_trap_facts-Serves (body d) m (h d)
dispatch_with-Serves body none m h = (refl, refl)

module _ (p : Platform) where
  pub emulate_load-Serves : (m : Machine) → Serves m (emulate_load p m).0 (emulate_load p m).1
  unfolding emulate_load
  emulate_load-Serves m =
      from_below-Serves (with_trap_facts (load_body p)) m
        (with_trap_facts-Serves (load_body p) m (λ facts. load_body-Untouched p facts m))

  pub emulate_store-Serves : (m : Machine) → Serves m (emulate_store p m).0 (emulate_store p m).1
  unfolding emulate_store
  emulate_store-Serves m =
      from_below-Serves (with_trap_facts (store_body p)) m
        (with_trap_facts-Serves (store_body p) m (λ facts. store_body-Untouched p facts m))

  pub dispatch_load_fault-Serves :
      (m : Machine) → Serves m (dispatch_load_fault p m).0 (dispatch_load_fault p m).1
  unfolding dispatch_load_fault
  dispatch_load_fault-Serves m = from_below-Serves _ m (
      dispatch_with-Serves (dispatch_load_body p) p.dispatcher m
        (λ d facts. dispatch_load_body-Untouched p d facts m))

  pub dispatch_store_fault-Serves :
      (m : Machine) → Serves m (dispatch_store_fault p m).0 (dispatch_store_fault p m).1
  unfolding dispatch_store_fault
  dispatch_store_fault-Serves m = from_below-Serves _ m (
      dispatch_with-Serves (dispatch_store_body p) p.dispatcher m
        (λ d facts. dispatch_store_body-Untouched p d facts m))

  time_or_unsupported-Kept :
      (m : Machine) (r : Machine × Result ℕ) → Kept m r.0 → Kept m (time_or_unsupported p r).0
  time_or_unsupported-Kept m (m1, ok v) h = h
  time_or_unsupported-Kept m (m1, err e) h = h

  probed_counter-Kept : (csr : ℕ) (m : Machine) → Kept m (probed_counter p csr m).0
  probed_counter-Kept csr m = elim (Bool-cases (csr == csr_time)) [
    | inl time ↦ rw time (
        time_or_unsupported-Kept m (read_csr_guarded p.csr_fault p.time_csr m)
          (read_csr_guarded-Kept p.csr_fault p.time_csr m))
    | inr other ↦ rw other (Kept-refl m)
  ]

  counter_or-Kept :
      (csr : ℕ) (m : Machine) (o : Option ℕ) → Kept m (counter_or o (probed_counter p csr) m).0
  counter_or-Kept csr m none = probed_counter-Kept csr m
  counter_or-Kept csr m (some v) = Kept-refl m

  pub counter_word-Kept : (csr : ℕ) (m : Machine) → Kept m (counter_word p csr m).0
  unfolding counter_word
  counter_word-Kept csr m = counter_or-Kept csr m (device_counter_word p.timer csr)

  csr_read_fetched-Untouched :
      (m m1 : Machine) (x : ℕ × ℕ)
      → Kept m m1
      → IsLength x.1
      → Untouched m (csr_read_fetched p x m1).0 (csr_read_fetched p x m1).1
  unfolding csr_read_fetched
  csr_read_fetched-Untouched m m1 x kept size =
      bind-Untouched m m1 kept (decode_csr_read p.decoder x.0) _ (λ op _.
        let act : Machine × Result ℕ = counter_word p op.csr m1 in
        let after : Kept m act.0 = Kept-trans m m1 act.0 kept (counter_word-Kept op.csr m1) in
        bind-Untouched m act.0 after act.1 _ (λ v _. (after.0, size)))

  csr_read_body-Untouched :
      (raw : ℕ) (facts : TrapFacts) (m : Machine)
      → Untouched m (csr_read_body p raw facts m).0 (csr_read_body p raw facts m).1
  unfolding csr_read_body
  csr_read_body-Untouched raw facts m = elim (Bool-cases (bit_and raw 3 == 3)) [
    | inl whole ↦ rw (whole) (csr_read_fetched-Untouched m m (raw, 4) (Kept-refl m) (inr refl))
    | inr other ↦
        let act : Machine × Result (ℕ × ℕ) = fetch_mapped p facts.mepc m in
        let kept : Kept m act.0 = fetch_mapped-Kept p facts.mepc m in
        rw (other) (
          bind-Untouched m act.0 kept act.1 (csr_read_fetched p) (λ x e.
            csr_read_fetched-Untouched m act.0 x kept (fetch_mapped-IsLength p facts.mepc m x e)))
  ]

  csr_read_or-Serves :
      (o : Option ℕ) (raw : ℕ) (m : Machine)
      → m.frame.mepc ≡ m.csr.mepc
      → Served m (csr_read_or o p raw m)
  csr_read_or-Serves none raw m h =
      with_trap_facts-Serves (csr_read_body p raw) m (λ facts. csr_read_body-Untouched raw facts m)
  csr_read_or-Serves (some v) raw m h = (4, inr refl, rw h refl)

  pub emulate_csr_read-Serves :
      (m : Machine)
      → m.frame.mepc ≡ m.csr.mepc
      → Serves m (emulate_csr_read p m).0 (emulate_csr_read p m).1
  unfolding emulate_csr_read
  emulate_csr_read-Serves m h =
      let raw : ℕ = m.frame.mtval % 2 ^ 32 in
      from_below-Serves _ m (csr_read_or-Serves (direct_counter p raw) raw m h)
