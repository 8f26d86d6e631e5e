-- ===== src/Pmu/Increment.antt =====
-- What a firmware event changes.
use rustsbi.Base.{
  ℕ, zero, suc, ◌+◌, ◌-◌, ◌%◌, ◌^◌, ◌<◌, bit_and, ◌≡◌, refl, ap, ◌∙◌, inl, inr, Bool, true, false,
  ◌&&◌, arith, ltb, leb, ◌==◌, if◌then◌else◌, Bool-cases,
}
use rustsbi.Base.Words.{one_shl, bit_and-le}
use rustsbi.Base.Families.{assign}
use rustsbi.Pmu.Events.{from_firmware_event}
use rustsbi.Pmu.State.{
  PmuState, firmware_counter_max, not_firmware, is_firmware_event_start, increment_from,
  pmu_firmware_counter_increment,
}

-- Whether firmware counter `k` counts an event.
abbrev pub counts_event : PmuState → ℕ → ℕ → Bool
counts_event s event k =
    s.active_event (s.hw_counters_num + k) == from_firmware_event event
    && is_firmware_event_start s (s.hw_counters_num + k)

-- Two states that differ in the values of the firmware counters at most.
pub record SameSetup (s s' : PmuState) : Type 0 where
  pub same_events : (i : ℕ) → s'.active_event i ≡ s.active_event i
  pub same_started : s'.fw_counter_state ≡ s.fw_counter_state
  pub same_hw : s'.hw_counters_num ≡ s.hw_counters_num
  pub same_total : s'.total_counters_num ≡ s.total_counters_num

is_firmware_event_start-SameSetup :
    (s s' : PmuState) (i : ℕ)
    → SameSetup s s'
    → is_firmware_event_start s' i ≡ is_firmware_event_start s i
unfolding is_firmware_event_start not_firmware
is_firmware_event_start-SameSetup s s' i k = rw (k.same_started, k.same_hw, k.same_total) refl

pub counts_event-SameSetup :
    (s s' : PmuState) (event j : ℕ)
    → SameSetup s s'
    → counts_event s' event j ≡ counts_event s event j
counts_event-SameSetup s s' event j k =
    rw
      (
        is_firmware_event_start-SameSetup s s' (s'.hw_counters_num + j) k,
        k.same_hw,
        k.same_events (s.hw_counters_num + j),
      )
      refl

pub trans_setup : {a b c : PmuState} → SameSetup a b → SameSetup b c → SameSetup a c
trans_setup {a} {b} {c} h k = record {
  same_events = λ i. k.same_events i ∙ h.same_events i;
  same_started = k.same_started ∙ h.same_started;
  same_hw = k.same_hw ∙ h.same_hw;
  same_total = k.same_total ∙ h.same_total;
}

abbrev counted : Bool → ℕ → ℕ
counted b x = if b then (x + 1) % 2 ^ 64 else x

-- One round.
abbrev round : PmuState → ℕ → ℕ → PmuState
round s event i =
    if counts_event s event i
    then record s { fw_counter = assign s.fw_counter i ((s.fw_counter i + 1) % 2 ^ 64) }
    else s

round-SameSetup : (s : PmuState) (event i : ℕ) → SameSetup s (round s event i)
round-SameSetup s event i = elim (Bool-cases (counts_event s event i)) [
  | inl hit ↦
      rw (hit)
        (record { same_events = λ j. refl; same_started = refl; same_hw = refl; same_total = refl })
  | inr miss ↦
      rw (miss)
        (record { same_events = λ j. refl; same_started = refl; same_hw = refl; same_total = refl })
]

round_lem :
    (s : PmuState) (event i j : ℕ)
    → (round s event i).fw_counter j ≡ counted (j == i && counts_event s event j) (s.fw_counter j)
round_lem s event i j = elim (Bool-cases (j == i)) [
  | inl here ↦
      let e : j ≡ i = ground arith in
      let self : (i == i) ≡ true = ground arith in
      elim (Bool-cases (counts_event s event i)) [
        | inl hit ↦ rw (e, hit, self) refl
        | inr miss ↦ rw (e, miss, self) refl
      ]
  | inr other ↦ elim (Bool-cases (counts_event s event i)) [
    | inl hit ↦ rw (hit, other) refl
    | inr miss ↦ rw (miss, other) refl
  ]
]

increment_from_lem :
    (n i : ℕ) (s : PmuState) (event : ℕ)
    → SameSetup s (increment_from s event i n)
      × ((j : ℕ)
          → (increment_from s event i n).fw_counter j
            ≡ counted (leb i j && ltb j (i + n) && counts_event s event j) (s.fw_counter j))
unfolding increment_from
increment_from_lem zero i s event = (
  record { same_events = λ j. refl; same_started = refl; same_hw = refl; same_total = refl },
  λ j. ground arith,
)
increment_from_lem (suc n) i s event =
    let one = round-SameSetup s event i in
    let rest = increment_from_lem n (suc i) (round s event i) event in
    (
      trans_setup one rest.0,
      λ j.
          let here = round_lem s event i j in
          let later = rest.1 j in
          let same = counts_event-SameSetup s (round s event i) event j one in
          ground (arith, here, later, same),
    )

none_started :
    (s : PmuState) (event j : ℕ) → s.fw_counter_state ≡ 0 → counts_event s event j ≡ false
unfolding is_firmware_event_start not_firmware
none_started s event j e =
    let k = s.hw_counters_num + j - s.hw_counters_num in
    let clear = bit_and-le 0 0 (one_shl k) (omega arith) in
    let same = ap (λ (t : ℕ). bit_and t (one_shl k)) e in ground (arith, clear, same)

-- A firmware event adds one, modulo 2^64, to each firmware counter that is started and set up for
-- it, and changes nothing else: no other counter, and nothing of the set-up.
pub pmu_firmware_counter_increment_lem :
    (s : PmuState) (event j : ℕ)
    → j < firmware_counter_max
    → SameSetup s (pmu_firmware_counter_increment true s event)
      × ((pmu_firmware_counter_increment true s event).fw_counter j
          ≡ (if counts_event s event j then (s.fw_counter j + 1) % 2 ^ 64 else s.fw_counter j))
unfolding pmu_firmware_counter_increment
pmu_firmware_counter_increment_lem s event j h = elim (Bool-cases (s.fw_counter_state == 0)) [
  | inl quiet ↦
      rw (quiet, none_started s event j (ground arith))
        (
          record {
            same_events = λ i. refl;
            same_started = refl;
            same_hw = refl;
            same_total = refl;
          },
          refl,
        )
  | inr busy ↦
      let all = increment_from_lem 16 0 s event in
      let at = all.1 j in
      let within : (leb 0 j && ltb j (0 + 16)) ≡ true = ground arith in
      rw (busy) (all.0, ground (arith, at, within))
]
