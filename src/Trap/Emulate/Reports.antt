-- ===== src/Trap/Emulate/Reports.antt =====
-- Every emulation reports only faults that its guarded accesses met.
use rustsbi.Base.{ℕ, ◌%◌, ◌^◌, bit_and, inl, inr, Option, none, some, ◌==◌, Bool-cases}
use rustsbi.Trap.{Machine, Result, ok, err, M, ◌>>=◌, lift, read_x, trapped_from_machine}
use rustsbi.Trap.Decode.{
  csr_read_mask, csr_read_match, width, decode_load, decode_store, decode_csr_read,
}
use rustsbi.Trap.Guarded.{fetch, read_value, write_value, read_csr_guarded}
use rustsbi.Trap.Emulate.{
  Platform, AccessDispatcher, TrapFacts, capture, finish, with_trap_facts, fetch_mapped, load_body,
  store_body, dispatch_load_body, dispatch_store_body, or_unsupported, dispatch_with, emulate_load,
  emulate_store, dispatch_load_fault, dispatch_store_fault, reject_machine_origin, from_below,
  emulate_csr_read, csr_read_or, csr_read_body, csr_read_fetched, counter_word, counter_or,
  probed_counter, time_or_unsupported, direct_counter, device_counter_word, csr_time, machine_time,
}
use rustsbi.Trap.Emulate.Faults.{
  Met, bind-Met, mapped-Met, read_bytes-Met, write_bytes-Met, fetch-FetchMet, load_of-Met,
  store_of-Met, csr_read_of-Met,
}

module _ (p : Platform) where
  fetch_mapped-Met : (pc : ℕ) (m : Machine) → Met p.bus (fetch_mapped p pc m).1
  unfolding fetch_mapped
  fetch_mapped-Met pc m =
      mapped-Met p.bus (fetch p.decoder p.bus pc m).1 (fetch-FetchMet p.bus p.decoder pc m)

  -- The common part of the bodies.
  fetched-Met :
      {Op : Type 0} (pc : ℕ) (decode : ℕ → Result Op) (k : ℕ → Op → M ℕ) (m : Machine)
      → ((raw : ℕ) → Met p.bus (decode raw))
      → ((op : Op) (len : ℕ) (m1 : Machine) → Met p.bus (k len op m1).1)
      → let act : M ℕ = fetch_mapped p pc >>= λ x. lift (decode x.0) >>= λ op. k x.1 op in
        Met p.bus (act m).1
  fetched-Met pc decode k m h g =
      let m1 : Machine = (fetch_mapped p pc m).0 in
      bind-Met p.bus m1 _ (fetch_mapped p pc m).1 (fetch_mapped-Met pc m)
        (λ x. bind-Met p.bus m1 _ (decode x.0) (h x.0) (λ op. g op x.1 m1))

  decode_load-Met : (raw : ℕ) → Met p.bus (decode_load p.decoder raw)
  unfolding decode_load
  decode_load-Met raw = load_of-Met p.bus (p.decoder.decode raw)

  decode_store-Met : (raw : ℕ) → Met p.bus (decode_store p.decoder raw)
  unfolding decode_store
  decode_store-Met raw = store_of-Met p.bus (p.decoder.decode raw)

  decode_csr_read-Met : (raw : ℕ) → Met p.bus (decode_csr_read p.decoder raw)
  unfolding decode_csr_read
  decode_csr_read-Met raw = elim (Bool-cases (bit_and raw csr_read_mask == csr_read_match)) [
    | inl read ↦ rw read (csr_read_of-Met p.bus (p.decoder.decode raw))
    | inr other ↦ rw other tt
  ]

  or_unsupported-Met : {A : Type 0} (o : Option A) → Met p.bus (or_unsupported o)
  or_unsupported-Met (some a) = tt
  or_unsupported-Met none = tt

  load_body-Met : (facts : TrapFacts) (m : Machine) → Met p.bus (load_body p facts m).1
  unfolding load_body read_value
  load_body-Met facts m =
      fetched-Met facts.mepc (decode_load p.decoder) _ m decode_load-Met (λ op len m1.
        let act : Machine × Result ℕ = read_value p.bus facts.mtval op.kind m1 in
        bind-Met p.bus act.0 _ act.1 (read_bytes-Met p.bus facts.mtval (width op.kind) 0 m1)
          (λ v. tt))

  store_body-Met : (facts : TrapFacts) (m : Machine) → Met p.bus (store_body p facts m).1
  unfolding store_body write_value
  store_body-Met facts m =
      fetched-Met facts.mepc (decode_store p.decoder) _ m decode_store-Met (λ op len m1.
        let value : ℕ = read_x m1.frame op.rs2 in
        let act : Machine × Result (Unit {0}) = write_value p.bus facts.mtval value op.kind m1 in
        bind-Met p.bus act.0 _ act.1 (write_bytes-Met p.bus facts.mtval value (width op.kind) 0 m1)
          (λ v. tt))

  dispatch_load_body-Met :
      (d : AccessDispatcher) (facts : TrapFacts) (m : Machine)
      → Met p.bus (dispatch_load_body p d facts m).1
  unfolding dispatch_load_body
  dispatch_load_body-Met d facts m =
      fetched-Met facts.mepc (decode_load p.decoder) _ m decode_load-Met (λ op len m1.
        bind-Met p.bus m1 _ (or_unsupported (d.load facts.mtval op.kind))
          (or_unsupported-Met (d.load facts.mtval op.kind)) (λ v. tt))

  dispatch_store_body-Met :
      (d : AccessDispatcher) (facts : TrapFacts) (m : Machine)
      → Met p.bus (dispatch_store_body p d facts m).1
  unfolding dispatch_store_body
  dispatch_store_body-Met d facts m =
      fetched-Met facts.mepc (decode_store p.decoder) _ m decode_store-Met (λ op len m1.
        elim (Bool-cases (d.store facts.mtval op.kind (read_x m1.frame op.rs2))) [
          | inl done ↦ rw done tt
          | inr declined ↦ rw declined tt
        ])

  finish-Met :
      (facts : TrapFacts) (m : Machine) (r : Result ℕ)
      → Met p.bus r
      → Met p.bus (finish facts (m, r)).1
  unfolding finish
  finish-Met facts m (ok len) h = tt
  finish-Met facts m (err e) h = h

  with_trap_facts-Met :
      (body : TrapFacts → M ℕ) (m : Machine)
      → ((facts : TrapFacts) → Met p.bus (body facts m).1)
      → Met p.bus (with_trap_facts body m).1
  unfolding with_trap_facts
  with_trap_facts-Met body m h =
      let facts : TrapFacts = capture m.csr in
      finish-Met facts (body facts m).0 (body facts m).1 (h facts)

  from_below-Met :
      (act : M (Unit {0})) (m : Machine) → Met p.bus (act m).1 → Met p.bus (from_below act m).1
  unfolding reject_machine_origin
  from_below-Met act m h = elim (Bool-cases (trapped_from_machine m.frame)) [
    | inl from ↦ rw (from) tt
    | inr below ↦ rw (below) h
  ]

  dispatch_with-Met :
      (body : AccessDispatcher → TrapFacts → M ℕ) (o : Option AccessDispatcher) (m : Machine)
      → ((d : AccessDispatcher) (facts : TrapFacts) → Met p.bus (body d facts m).1)
      → Met p.bus (dispatch_with body o m).1
  unfolding dispatch_with
  dispatch_with-Met body (some d) m h = with_trap_facts-Met (body d) m (h d)
  dispatch_with-Met body none m h = tt

  pub emulate_load-Met : (m : Machine) → Met p.bus (emulate_load p m).1
  unfolding emulate_load
  emulate_load-Met m =
      from_below-Met (with_trap_facts (load_body p)) m
        (with_trap_facts-Met (load_body p) m (λ facts. load_body-Met facts m))

  pub emulate_store-Met : (m : Machine) → Met p.bus (emulate_store p m).1
  unfolding emulate_store
  emulate_store-Met m =
      from_below-Met (with_trap_facts (store_body p)) m
        (with_trap_facts-Met (store_body p) m (λ facts. store_body-Met facts m))

  pub dispatch_load_fault-Met : (m : Machine) → Met p.bus (dispatch_load_fault p m).1
  unfolding dispatch_load_fault
  dispatch_load_fault-Met m = from_below-Met _ m (
      dispatch_with-Met (dispatch_load_body p) p.dispatcher m
        (λ d facts. dispatch_load_body-Met d facts m))

  pub dispatch_store_fault-Met : (m : Machine) → Met p.bus (dispatch_store_fault p m).1
  unfolding dispatch_store_fault
  dispatch_store_fault-Met m = from_below-Met _ m (
      dispatch_with-Met (dispatch_store_body p) p.dispatcher m
        (λ d facts. dispatch_store_body-Met d facts m))

  time_or_unsupported-Met : (r : Machine × Result ℕ) → Met p.bus (time_or_unsupported p r).1
  time_or_unsupported-Met (m1, ok v) = tt
  time_or_unsupported-Met (m1, err e) = or_unsupported-Met (machine_time p.timer)

  probed_counter-Met : (csr : ℕ) (m : Machine) → Met p.bus (probed_counter p csr m).1
  probed_counter-Met csr m = elim (Bool-cases (csr == csr_time)) [
    | inl time ↦ rw time (time_or_unsupported-Met (read_csr_guarded p.csr_fault p.time_csr m))
    | inr other ↦ rw other tt
  ]

  counter_or-Met :
      (csr : ℕ) (m : Machine) (o : Option ℕ) → Met p.bus (counter_or o (probed_counter p csr) m).1
  counter_or-Met csr m none = probed_counter-Met csr m
  counter_or-Met csr m (some v) = tt

  counter_word-Met : (csr : ℕ) (m : Machine) → Met p.bus (counter_word p csr m).1
  unfolding counter_word
  counter_word-Met csr m = counter_or-Met csr m (device_counter_word p.timer csr)

  csr_read_fetched-Met : (m : Machine) (x : ℕ × ℕ) → Met p.bus (csr_read_fetched p x m).1
  unfolding csr_read_fetched
  csr_read_fetched-Met m x =
      bind-Met p.bus m _ (decode_csr_read p.decoder x.0) (decode_csr_read-Met x.0) (λ op.
        let act : Machine × Result ℕ = counter_word p op.csr m in
        bind-Met p.bus act.0 _ act.1 (counter_word-Met op.csr m) (λ v. tt))

  csr_read_body-Met :
      (raw : ℕ) (facts : TrapFacts) (m : Machine) → Met p.bus (csr_read_body p raw facts m).1
  unfolding csr_read_body
  csr_read_body-Met raw facts m = elim (Bool-cases (bit_and raw 3 == 3)) [
    | inl whole ↦ rw (whole) (csr_read_fetched-Met m (raw, 4))
    | inr other ↦
        let act : Machine × Result (ℕ × ℕ) = fetch_mapped p facts.mepc m in
        rw (other) (
          bind-Met p.bus act.0 (csr_read_fetched p) act.1 (fetch_mapped-Met facts.mepc m)
            (λ x. csr_read_fetched-Met act.0 x))
  ]

  csr_read_or-Met : (o : Option ℕ) (raw : ℕ) (m : Machine) → Met p.bus (csr_read_or o p raw m).1
  csr_read_or-Met none raw m =
      with_trap_facts-Met (csr_read_body p raw) m (λ facts. csr_read_body-Met raw facts m)
  csr_read_or-Met (some v) raw m = tt

  pub emulate_csr_read-Met : (m : Machine) → Met p.bus (emulate_csr_read p m).1
  unfolding emulate_csr_read
  emulate_csr_read-Met m =
      let raw : ℕ = m.frame.mtval % 2 ^ 32 in
      from_below-Met _ m (csr_read_or-Met (direct_counter p raw) raw m)
