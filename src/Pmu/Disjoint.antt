-- ===== src/Pmu/Disjoint.antt =====
-- The event mappings that a device tree gives stay disjoint.
use rustsbi.Base.{
  ℕ, ◌+◌, ◌≤◌, max, ◌≡◌, refl, ◌↔◌, inl, inr, true, false, Option, none, some, List, [], ◌∷◌, arith,
  if◌then◌else◌, Bool-cases, Option-cases,
}
use rustsbi.Pmu.Maps.{
  EventToCounterMap, have_event, is_overlap, SbiPmu, or_default, default_pmu, lookup, push_unless,
  insert_event_to_mhpmcounter, insert_event_to_mhpmevent, insert_raw_event_to_mhpmcounter,
  property_rows, insert_events, insert_counters, insert_raw_counters, with_property, from_node,
}

-- The number of mappings of a list that have an event.
unfoldable pub holders : ℕ → List EventToCounterMap → ℕ
holders e [] = 0
holders e (m ∷ ms) = (if have_event m e then 1 else 0) + holders e ms

no_overlap :
    (m other : EventToCounterMap) (e : ℕ)
    → is_overlap m other ≡ false
    → have_event m e ≡ true
    → have_event other e ≡ false
unfolding is_overlap have_event
no_overlap m other e apart h = ground arith

-- Two ranges that are not empty overlap exactly if they share an event.
pub is_overlap_lem :
    (m other : EventToCounterMap)
    → m.event_start_idx ≤ m.event_end_idx
    → other.event_start_idx ≤ other.event_end_idx
    → (is_overlap m other ≡ true)
      ↔ ((e : ℕ) × (have_event m e ≡ true) × (have_event other e ≡ true))
unfolding is_overlap have_event
is_overlap_lem m other hm ho = (
  λ h. (max m.event_start_idx other.event_start_idx, ground arith, ground arith),
  λ (e, h, k). ground arith,
)

push_unless_lacking :
    (e : ℕ) (xs : List EventToCounterMap) (m : EventToCounterMap)
    → have_event m e ≡ false
    → holders e (push_unless is_overlap xs m) ≡ holders e xs
unfolding push_unless holders
push_unless_lacking e [] m h = ground arith
push_unless_lacking e (x ∷ xs) m h = elim (Bool-cases (is_overlap x m)) [
  | inl stop ↦ rw (push_unless, stop) refl
  | inr go ↦ rw (push_unless, go) (omega (arith, push_unless_lacking e xs m h))
]

push_unless-holders :
    (e : ℕ) (xs : List EventToCounterMap) (m : EventToCounterMap)
    → holders e xs ≤ 1
    → holders e (push_unless is_overlap xs m) ≤ 1
unfolding push_unless holders
push_unless-holders e [] m h = ground arith
push_unless-holders e (x ∷ xs) m h = elim (Bool-cases (is_overlap x m)) [
  | inl stop ↦ rw (push_unless, stop) h
  | inr go ↦ elim (Bool-cases (have_event x e)) [
    | inl held ↦
        let same = push_unless_lacking e xs m (no_overlap x m e go held) in
        rw (push_unless, go) (omega (arith, same, h))
    | inr lacks ↦
        let rest = push_unless-holders e xs m (ground (arith, h)) in
        rw (push_unless, go) (ground (arith, rest))
  ]
]

-- No event belongs to two mappings.
abbrev pub IsDisjoint : SbiPmu → Type 0
IsDisjoint p = (e : ℕ) → holders e (or_default p.event_to_mhpmcounter) ≤ 1

insert_counters-IsDisjoint :
    (rows : List ℕ) (p : SbiPmu) → IsDisjoint p → IsDisjoint (insert_counters p rows)
unfolding insert_counters insert_event_to_mhpmcounter or_default
insert_counters-IsDisjoint [] p h = h
insert_counters-IsDisjoint (a ∷ []) p h = h
insert_counters-IsDisjoint (a ∷ b ∷ []) p h = h
insert_counters-IsDisjoint (a ∷ b ∷ c ∷ rows) p h =
    insert_counters-IsDisjoint rows _
      (λ e. push_unless-holders e (or_default p.event_to_mhpmcounter) _ (h e))

insert_events-IsDisjoint :
    (rows : List ℕ) (p : SbiPmu) → IsDisjoint p → IsDisjoint (insert_events p rows)
unfolding insert_events insert_event_to_mhpmevent
insert_events-IsDisjoint [] p h = h
insert_events-IsDisjoint (a ∷ []) p h = h
insert_events-IsDisjoint (a ∷ b ∷ []) p h = h
insert_events-IsDisjoint (a ∷ b ∷ c ∷ rows) p h =
    insert_events-IsDisjoint rows _
      (elim (Option-cases (lookup a (or_default p.event_to_mhpmevent))) [
        | inl fresh ↦ rw (insert_event_to_mhpmevent, fresh) h
        | inr (v, mapped) ↦ rw (insert_event_to_mhpmevent, mapped) h
      ])

insert_raw_counters-IsDisjoint :
    (rows : List ℕ) (p : SbiPmu) → IsDisjoint p → IsDisjoint (insert_raw_counters p rows)
unfolding insert_raw_counters insert_raw_event_to_mhpmcounter
insert_raw_counters-IsDisjoint [] p h = h
insert_raw_counters-IsDisjoint (a ∷ []) p h = h
insert_raw_counters-IsDisjoint (a ∷ b ∷ []) p h = h
insert_raw_counters-IsDisjoint (a ∷ b ∷ c ∷ []) p h = h
insert_raw_counters-IsDisjoint (a ∷ b ∷ c ∷ d ∷ []) p h = h
insert_raw_counters-IsDisjoint (a ∷ b ∷ c ∷ d ∷ f ∷ rows) p h =
    insert_raw_counters-IsDisjoint rows _ h

-- What holds of every state that a property's rows can leave.
with_property-keeps :
    (P : SbiPmu → Type 0) (columns : ℕ) (property : Option (List ℕ))
    (insert : SbiPmu → List ℕ → SbiPmu) (before : Option SbiPmu)
    → ((rows : List ℕ) (p : SbiPmu) → P p → P (insert p rows))
    → ((p : SbiPmu) → before ≡ some p → P p)
    → (p : SbiPmu) → with_property columns property insert before ≡ some p
    → P p
unfolding with_property
with_property-keeps P columns property insert none keep h p e = absurd cc
with_property-keeps P columns none insert (some q) keep h p e = h p e
with_property-keeps P columns (some bytes) insert (some q) keep h p e =
    elim (Option-cases (property_rows columns bytes)) [
      | inl ragged ↦
          let nothing : Option SbiPmu = none in
          let e' : nothing ≡ some p = rw (with_property, ragged) at e in absurd cc
      | inr (rows, read) ↦
          let answer : Option SbiPmu = some (insert q rows) in
          let e' : answer ≡ some p = rw (with_property, read) at e in
          let same : insert q rows ≡ p = cc in rw (← same) (keep rows q (h q refl))
    ]

-- Whatever the three properties of the device tree hold, an event belongs to at most one mapping
-- of events to counters.
pub from_node-IsDisjoint :
    (to_mhpmevent to_mhpmcounters raw_to_mhpmcounters : Option (List ℕ)) (p : SbiPmu)
    → from_node to_mhpmevent to_mhpmcounters raw_to_mhpmcounters ≡ some p
    → IsDisjoint p
unfolding from_node or_default holders
from_node-IsDisjoint a b c p e =
    with_property-keeps IsDisjoint 5 c insert_raw_counters _ insert_raw_counters-IsDisjoint
      (with_property-keeps IsDisjoint 3 b insert_counters _ insert_counters-IsDisjoint (
        with_property-keeps IsDisjoint 3 a insert_events (some default_pmu) insert_events-IsDisjoint
          (λ q h. let same : default_pmu ≡ q = cc in rw (← same) (λ k. omega arith))))
      p e
