-- ===== src/Pmu/Matching.antt =====
-- A configuration that searches for a counter returns.
use rustsbi.Base.{
  ℕ, ◌≡◌, refl, ◌⊎◌, inl, inr, true, false, ◌&&◌, ◌||◌, Option, none, some, List, [], ◌∷◌, arith,
  ltb, leb, ◌==◌, Bool-cases, Option-cases,
}
use rustsbi.Spec.Ret.{SbiRet, Result, ok, err}
use rustsbi.Pmu.Events.{is_raw_event, is_firmware_event}
use rustsbi.Pmu.State.{counters}
use rustsbi.Pmu.Hardware.{Hardware, get_mhpm_csr_offset, write_mhpmevent}
use rustsbi.Pmu.Maps.{SbiPmu}
use rustsbi.Pmu.Calls.{Machine, bad_selection}
use rustsbi.Pmu.Config.{
  fixed_counter, is_fixed, mhpmevent_val, pmu_update_hardware_mhpmevent, passes_over,
  or_not_supported, search_hardware, find_hardware_counter, configure_counter, set_up, set_up_match,
  bad_event, counter_config_matching, skip_match,
}
use rustsbi.Pmu.Offsets.{offset_below}
use rustsbi.Pmu.Selection.{IsCounted}

-- A counter with an offset.
abbrev HasOffset : Hardware → ℕ → Type 0
HasOffset hw i = (o : ℕ) × (get_mhpm_csr_offset hw i ≡ some o)

fixed-HasOffset :
    (hw : Hardware) (event : ℕ) (is : List ℕ) (i : ℕ)
    → fixed_counter hw event is ≡ some i
    → HasOffset hw i
unfolding fixed_counter
fixed-HasOffset hw event [] i e = absurd cc
fixed-HasOffset hw event (k ∷ is) i e = elim (Option-cases (get_mhpm_csr_offset hw k)) [
  | inl missing ↦ fixed-HasOffset hw event is i (rw (fixed_counter, missing) at e)
  | inr (o, there) ↦ elim (Bool-cases (is_fixed event (some o))) [
    | inr other ↦ fixed-HasOffset hw event is i (rw (fixed_counter, there, other) at e)
    | inl fixed ↦
        let answer : Option ℕ = some k in
        let e' : answer ≡ some i = rw (fixed_counter, there, fixed) at e in
        let same : k ≡ i = cc in rw (← same) (o, there)
  ]
]

mask_or : ℕ → Option Hardware → ℕ
mask_or d none = d
mask_or d (some hw) = hw.mhpm_mask

write_mhpmevent-same : (hw : Hardware) (o v : ℕ) → (write_mhpmevent hw o v).mhpm_mask ≡ hw.mhpm_mask
unfolding write_mhpmevent
write_mhpmevent-same hw o v = ground arith

update-mask :
    (p : SbiPmu) (hw : Hardware) (o event event_data : ℕ)
    → mask_or hw.mhpm_mask (pmu_update_hardware_mhpmevent p hw o event event_data) ≡ hw.mhpm_mask
unfolding pmu_update_hardware_mhpmevent mask_or
update-mask p hw o event event_data =
    elim (Bool-cases ((o == 0 && event == 1) || (o == 2 && event == 2))) [
      | inl direct ↦ rw (pmu_update_hardware_mhpmevent, direct) refl
      | inr other ↦ elim (Bool-cases (o == 1 || ltb 31 o)) [
        | inl outside ↦ rw (pmu_update_hardware_mhpmevent, other, outside) refl
        | inr inside ↦ elim (Option-cases (mhpmevent_val p event event_data)) [
          | inl none_given ↦ rw (pmu_update_hardware_mhpmevent, other, inside, none_given) refl
          | inr (v, given) ↦
              rw (pmu_update_hardware_mhpmevent, other, inside, given) (write_mhpmevent-same hw o v)
        ]
      ]
    ]

-- A search that returns, with a counter that has an offset.
abbrev Found : Machine → Option (Machine × Result ℕ) → Type 0
Found m o =
    (r : Machine × Result ℕ) × (o ≡ some r) × ((i : ℕ) → r.1 ≡ ok i → HasOffset r.0.hardware i)

same_offset :
    (hw hw' : Hardware) (i : ℕ) → hw'.mhpm_mask ≡ hw.mhpm_mask → HasOffset hw i → HasOffset hw' i
unfolding get_mhpm_csr_offset
same_offset hw hw' i e (o, there) = (o, rw (e) there)

or_not_supported-HasOffset :
    (hw : Hardware) (fixed : Option ℕ) (i : ℕ)
    → ((k : ℕ) → fixed ≡ some k → HasOffset hw k)
    → or_not_supported fixed ≡ ok i
    → HasOffset hw i
or_not_supported-HasOffset hw none i h e = absurd cc
or_not_supported-HasOffset hw (some k) i h e = h i cc

search_hardware-Found :
    (p : SbiPmu) (m : Machine) (usable event event_data : ℕ) (fixed : Option ℕ) (is : List ℕ)
    → IsCounted m
    → ((i : ℕ) → fixed ≡ some i → HasOffset m.hardware i)
    → Found m (search_hardware p m usable event event_data fixed is)
unfolding search_hardware mask_or
search_hardware-Found p m usable event event_data fixed [] c h =
    (_, refl, λ i e. or_not_supported-HasOffset m.hardware fixed i h e)
search_hardware-Found p m usable event event_data fixed (k ∷ is) c h =
    let (rest, found, good) = search_hardware-Found p m usable event event_data fixed is c h in
    elim (Bool-cases (leb m.pmu_state.hw_counters_num k)) [
      | inl beyond ↦ rw (search_hardware, beyond) (rest, found, good)
      | inr hardware_counter ↦
          let (o, there, _, _) = offset_below m.hardware k (ground (arith, c.hardware_counters)) in
          elim (Bool-cases (passes_over m usable event k o)) [
            | inl passed ↦ rw (search_hardware, hardware_counter, there, passed) (rest, found, good)
            | inr taken ↦
                let update = pmu_update_hardware_mhpmevent p m.hardware o event event_data in
                let mask = update-mask p m.hardware o event event_data in
                elim (Option-cases update) [
                  | inl refused ↦
                      rw (search_hardware, hardware_counter, there, taken, refused)
                        (_, refl, λ i e. absurd cc)
                  | inr (hw, updated) ↦
                      let mask' : hw.mhpm_mask ≡ m.hardware.mhpm_mask = rw (updated) at mask in
                      rw (search_hardware, hardware_counter, there, taken, updated)
                        (
                          _,
                          refl,
                          λ i e.
                              let same : k ≡ i = cc in
                              rw (← same) (same_offset m.hardware hw k mask' (o, there)),
                        )
                ]
          ]
    ]

find_hardware_counter-Found :
    (p : SbiPmu) (m : Machine) (base mask event event_data : ℕ)
    → IsCounted m
    → Found m (find_hardware_counter p m base mask event event_data)
unfolding find_hardware_counter
find_hardware_counter-Found p m base mask event event_data c =
    let selected = counters base mask 64 in
    let fixed = fixed_counter m.hardware event selected in
    let h : (i : ℕ) → fixed ≡ some i → HasOffset m.hardware i =
      λ i e. fixed-HasOffset m.hardware event selected i e in
    elim (Bool-cases (is_raw_event event)) [
      | inl raw ↦ elim (Option-cases p.raw_event_to_mhpmcounter) [
        | inl unmapped ↦ rw (find_hardware_counter, raw, unmapped) (_, refl, λ i e. absurd cc)
        | inr (maps, mapped) ↦
            rw (find_hardware_counter, raw, mapped)
              (search_hardware-Found p m _ event event_data fixed selected c h)
      ]
      | inr general ↦ elim (Option-cases p.event_to_mhpmcounter) [
        | inl unmapped ↦
            rw (find_hardware_counter, general, unmapped)
              (_, refl, λ i e. or_not_supported-HasOffset m.hardware fixed i h e)
        | inr (maps, mapped) ↦
            rw (find_hardware_counter, general, mapped)
              (search_hardware-Found p m _ event event_data fixed selected c h)
      ]
    ]

-- The answer of a call that returns.
abbrev Returns : Option (Machine × SbiRet) → Type 0
Returns o = (r : Machine × SbiRet) × (o ≡ some r)

configure_counter-returns :
    (m : Machine) (i event flags : ℕ)
    → (is_firmware_event event ≡ true) ⊎ HasOffset m.hardware i
    → (r : Machine × Option SbiRet) × (configure_counter m i event flags ≡ some r)
unfolding configure_counter
configure_counter-returns m i event flags h = elim (Bool-cases (is_firmware_event event)) [
  | inl fw ↦ rw (configure_counter, fw) (_, refl)
  | inr hard ↦ elim h [
    | inl fw ↦ absurd (ground (arith, fw, hard))
    | inr (o, there) ↦ rw (configure_counter, hard, there) (_, refl)
  ]
]

set_up-Returns :
    (m : Machine) (i event flags : ℕ)
    → (is_firmware_event event ≡ true) ⊎ HasOffset m.hardware i
    → Returns (set_up m i event flags)
unfolding set_up
set_up-Returns m i event flags h =
    let (r, made) = configure_counter-returns m i event flags h in
    elim (Option-cases r.1) [
      | inl fine ↦ rw (set_up, made, fine) (_, refl)
      | inr (x, failed) ↦ rw (set_up, made, failed) (_, refl)
    ]

set_up_match-Returns :
    (m : Machine) (r : Result ℕ) (event flags : ℕ)
    → ((i : ℕ) → r ≡ ok i → (is_firmware_event event ≡ true) ⊎ HasOffset m.hardware i)
    → Returns (set_up_match m r event flags)
unfolding set_up_match
set_up_match-Returns m (err x) event flags h = (_, refl)
set_up_match-Returns m (ok i) event flags h = set_up-Returns _ i event flags (h i refl)

-- On a hart whose counters are those of its mask, `counter_config_matching` returns for all
-- arguments whose flags do not skip the search.
pub counter_config_matching-returns :
    (p : SbiPmu) (m : Machine) (base mask flags event event_data : ℕ)
    → IsCounted m
    → skip_match flags ≡ false
    → (r : Machine × SbiRet) × (counter_config_matching p m base mask flags event event_data
        ≡ some r)
unfolding counter_config_matching
counter_config_matching-returns p m base mask flags event event_data c looks =
    elim (Bool-cases (leb 256 flags)) [
      | inl reserved ↦ rw (counter_config_matching, reserved) (_, refl)
      | inr known ↦ elim (Bool-cases (bad_selection m.pmu_state base mask || bad_event event)) [
        | inl bad ↦ rw (counter_config_matching, known, bad) (_, refl)
        | inr good ↦ elim (Bool-cases (is_firmware_event event)) [
          | inl fw ↦
              rw (counter_config_matching, known, good, looks, fw)
                (set_up_match-Returns m _ event flags (λ i e. inl fw))
          | inr hard ↦
              let (r, found, has) = find_hardware_counter-Found p m base mask event event_data c in
              rw (counter_config_matching, known, good, looks, hard, found)
                (set_up_match-Returns r.0 r.1 event flags (λ i e. inr (has i e)))
        ]
      ]
    ]
