-- ===== src/Pmu/Returns.antt =====
-- `counter_start` and `counter_stop` return: no `unwrap` in them meets nothing.
use rustsbi.Base.{
  ℕ, ◌≡◌, refl, ◌∙◌, inl, inr, Bool, true, false, Option, some, List, [], ◌∷◌, arith, leb, ◌==◌,
  if◌then◌else◌, Bool-cases, Option-cases,
}
use rustsbi.Base.Words.{bit}
use rustsbi.Spec.Ret.{SbiRet, success}
use rustsbi.Pmu.State.{counters}
use rustsbi.Pmu.Calls.{
  Machine, bad_selection, start_one, start_each, counter_start, stop_one, stop_each, counter_stop,
  refuse,
}
use rustsbi.Pmu.Offsets.{offset_below}
use rustsbi.Pmu.Selection.{
  IsCounted, Same, IsCounted-Same, start_fw-same, stop_fw-same, start_hardware-same,
  stop_hardware-same,
}

abbrev Answers {ℓ} : {A : Type ℓ} → Machine → Option (Machine × A) → Type ℓ
Answers {A} m o = (r : Machine × A) × (o ≡ some r) × Same m r.0

refl_Same : (m : Machine) → Same m m
refl_Same m = record { same_mask = refl; same_hw = refl; same_total = refl }

trans_Same : {a b c : Machine} → Same a b → Same b c → Same a c
trans_Same {a} {b} {c} h k = record {
  same_mask = k.same_mask ∙ h.same_mask;
  same_hw = k.same_hw ∙ h.same_hw;
  same_total = k.same_total ∙ h.same_total;
}

start_one-returns : (m : Machine) (i v : ℕ) (u : Bool) → IsCounted m → Answers m (start_one m i v u)
unfolding start_one
start_one-returns m i v u c = elim (Bool-cases (leb m.pmu_state.hw_counters_num i)) [
  | inl fw ↦
      let same = start_fw-same m.pmu_state i v u in
      rw (start_one, fw)
        (_, refl, record { same_mask = refl; same_hw = same.0; same_total = same.1 })
  | inr hw ↦
      let (o, found, _, _) = offset_below m.hardware i (ground (arith, c.hardware_counters)) in
      rw (start_one, hw, found)
        (
          _,
          refl,
          record {
            same_mask = start_hardware-same m.hardware o v u;
            same_hw = refl;
            same_total = refl;
          },
        )
]

stop_one-returns : (m : Machine) (i : ℕ) (r : Bool) → IsCounted m → Answers m (stop_one m i r)
unfolding stop_one
stop_one-returns m i r c = elim (Bool-cases (leb m.pmu_state.hw_counters_num i)) [
  | inl fw ↦
      let same = stop_fw-same m.pmu_state i r in
      rw (stop_one, fw)
        (_, refl, record { same_mask = refl; same_hw = same.0; same_total = same.1 })
  | inr hw ↦
      let (o, found, _, _) = offset_below m.hardware i (ground (arith, c.hardware_counters)) in
      elim (Bool-cases (o == 1)) [
        | inl time ↦ rw (stop_one, hw, found, time) (_, refl, refl_Same m)
        | inr other ↦
            rw (stop_one, hw, found, other)
              (
                _,
                refl,
                record {
                  same_mask = stop_hardware-same m.hardware o r;
                  same_hw = refl;
                  same_total = refl;
                },
              )
      ]
]

start_each-returns :
    (m : Machine) (is : List ℕ) (v : ℕ) (u : Bool) → IsCounted m → Answers m (start_each m is v u)
unfolding start_each
start_each-returns m [] v u c = (_, refl, refl_Same m)
start_each-returns m (i ∷ is) v u c = elim (Bool-cases (leb m.pmu_state.total_counters_num i)) [
  | inl beyond ↦ rw (start_each, beyond) (_, refl, refl_Same m)
  | inr within ↦
      let (r, found, same) = start_one-returns m i v u c in
      let (r', found', same') = start_each-returns r.0 is v u (IsCounted-Same c same) in
      elim (Option-cases r.1) [
        | inl started ↦ rw (start_each, within, found, started) (r', found', trans_Same same same')
        | inr (e, failed) ↦ rw (start_each, within, found, failed) (_, refl, same)
      ]
]

stop_each-returns :
    (m : Machine) (is : List ℕ) (reset : Bool) (result : SbiRet)
    → IsCounted m
    → Answers m (stop_each m is reset result)
unfolding stop_each
stop_each-returns m [] reset result c = (_, refl, refl_Same m)
stop_each-returns m (i ∷ is) reset result c =
    elim (Bool-cases (leb m.pmu_state.total_counters_num i)) [
      | inl beyond ↦ rw (stop_each, beyond) (_, refl, refl_Same m)
      | inr within ↦
          let (r, found, same) = stop_one-returns m i reset c in
          let counted = IsCounted-Same c same in
          elim (Option-cases r.1) [
            | inl skipped ↦
                let (r', found', same') = stop_each-returns r.0 is reset result counted in
                rw (stop_each, within, found, skipped) (r', found', trans_Same same same')
            | inr (answer, e) ↦ elim (Option-cases answer) [
              | inl stopped ↦
                  let (r', found', same') = stop_each-returns r.0 is reset (success 0) counted in
                  rw (stop_each, within, found, e, stopped) (r', found', trans_Same same same')
              | inr (x, failed) ↦ rw (stop_each, within, found, e, failed) (_, refl, same)
            ]
          ]
    ]

choose :
    {m : Machine} (b : Bool) {x y : Option (Machine × SbiRet)}
    → Answers m x
    → Answers m y
    → Answers m (if b then x else y)
choose true hx hy = hx
choose false hx hy = hy

-- On a hart whose counters are those of its mask, `counter_start` returns for all arguments, and
-- leaves the counters those of the mask.
pub counter_start-returns :
    (m : Machine) (base mask flags initial_value : ℕ)
    → IsCounted m
    → (r : Machine × SbiRet) × (counter_start m base mask flags initial_value ≡ some r)
      × IsCounted r.0
unfolding counter_start
counter_start-returns m base mask flags v c =
    let (r, found, same) =
      choose (leb 4 flags) (_, refl, refl_Same m)
        (choose (bad_selection m.pmu_state base mask) (_, refl, refl_Same m)
          (choose (bit flags 1 == 1) (_, refl, refl_Same m)
            (start_each-returns m (counters base mask 64) v (bit flags 0 == 1) c))) in
    (r, found, IsCounted-Same c same)

-- On a hart whose counters are those of its mask, `counter_stop` returns for all arguments, and
-- leaves the counters those of the mask.
pub counter_stop-returns :
    (m : Machine) (base mask flags : ℕ)
    → IsCounted m
    → (r : Machine × SbiRet) × (counter_stop m base mask flags ≡ some r) × IsCounted r.0
unfolding counter_stop
counter_stop-returns m base mask flags c =
    let (r, found, same) =
      choose (leb 4 flags) (_, refl, refl_Same m)
        (choose (bad_selection m.pmu_state base mask) (_, refl, refl_Same m)
          (choose (bit flags 1 == 1) (_, refl, refl_Same m)
            (stop_each-returns m (counters base mask 64) (bit flags 0 == 1) refuse c))) in
    (r, found, IsCounted-Same c same)
