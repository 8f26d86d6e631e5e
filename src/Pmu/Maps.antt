-- ===== src/Pmu/Maps.antt =====
-- The event mappings of `SbiPmu` in pmu.rs, and their rows in a device tree.
use rustsbi.Base.{
  ℕ, ◌+◌, ◌*◌, ◌%◌, ◌^◌, bit_and, Bool, not, ◌&&◌, ◌||◌, Option, none, some, List, [], ◌∷◌, ltb,
  leb, ◌==◌, if◌then◌else◌, length,
}

pub record EventToCounterMap : Type 0 where
  pub counters_mask : ℕ
  pub event_start_idx : ℕ
  pub event_end_idx : ℕ

unfoldable pub have_event : EventToCounterMap → ℕ → Bool
have_event m event_idx = leb m.event_start_idx event_idx && leb event_idx m.event_end_idx

unfoldable pub is_overlap : EventToCounterMap → EventToCounterMap → Bool
is_overlap m other = not (
    (ltb m.event_end_idx other.event_start_idx && ltb m.event_end_idx other.event_end_idx)
    || (ltb other.event_start_idx m.event_start_idx && ltb other.event_end_idx m.event_start_idx))

pub record RawEventToCounterMap : Type 0 where
  pub raw_counters_mask : ℕ
  pub raw_event_select : ℕ
  pub select_mask : ℕ

unfoldable pub raw_have_event : RawEventToCounterMap → ℕ → Bool
raw_have_event m event_data = m.raw_event_select == bit_and event_data m.select_mask

unfoldable pub raw_is_overlap : RawEventToCounterMap → RawEventToCounterMap → Bool
raw_is_overlap m other =
    m.select_mask == other.select_mask && m.raw_event_select == other.raw_event_select

pub record SbiPmu : Type 0 where
  pub event_to_mhpmevent : Option (List (ℕ × ℕ))
  pub event_to_mhpmcounter : Option (List EventToCounterMap)
  pub raw_event_to_mhpmcounter : Option (List RawEventToCounterMap)

abbrev pub default_pmu : SbiPmu
default_pmu = record {
  event_to_mhpmevent = none;
  event_to_mhpmcounter = none;
  raw_event_to_mhpmcounter = none;
}

unfoldable pub or_default {ℓ} : {A : Type ℓ} → Option (List A) → List A
or_default none = []
or_default (some xs) = xs

-- `BTreeMap::get`.
unfoldable pub lookup : ℕ → List (ℕ × ℕ) → Option ℕ
lookup k [] = none
lookup k (p ∷ ps) = if p.0 == k then some p.1 else lookup k ps

-- A key that is mapped keeps its value.
unfoldable pub insert_event_to_mhpmevent : SbiPmu → ℕ → ℕ → SbiPmu
insert_event_to_mhpmevent p event mhpmevent =
    let table = or_default p.event_to_mhpmevent in
    elim (lookup event table) [
      | some mapped ↦ record p { event_to_mhpmevent = some table }
      | none ↦ record p { event_to_mhpmevent = some ((event, mhpmevent) ∷ table) }
    ]

-- A mapping is pushed unless one before overlaps it.
unfoldable pub push_unless {ℓ} : {A : Type ℓ} → (A → A → Bool) → List A → A → List A
push_unless overlap [] m = m ∷ []
push_unless overlap (x ∷ xs) m = if overlap x m then x ∷ xs else x ∷ push_unless overlap xs m

unfoldable pub insert_event_to_mhpmcounter : SbiPmu → EventToCounterMap → SbiPmu
insert_event_to_mhpmcounter p m = record p {
  event_to_mhpmcounter = some (push_unless is_overlap (or_default p.event_to_mhpmcounter) m);
}

unfoldable pub insert_raw_event_to_mhpmcounter : SbiPmu → RawEventToCounterMap → SbiPmu
insert_raw_event_to_mhpmcounter p m = record p {
  raw_event_to_mhpmcounter =
      some (push_unless raw_is_overlap (or_default p.raw_event_to_mhpmcounter) m);
}

-- `u32::from_be_bytes` on each four bytes.
unfoldable pub words : List ℕ → List ℕ
words (a ∷ b ∷ c ∷ d ∷ bytes) = (((a * 256 + b) * 256 + c) * 256 + d) ∷ words bytes
words _ = []

-- `property_rows`, with its rows one after the other.
unfoldable pub property_rows : ℕ → List ℕ → Option (List ℕ)
property_rows columns bytes = if length bytes % (columns * 4) == 0 then some (words bytes) else none

unfoldable pub insert_events : SbiPmu → List ℕ → SbiPmu
insert_events p (event ∷ high ∷ low ∷ rows) =
    insert_events (insert_event_to_mhpmevent p event (high * 2 ^ 32 + low)) rows
insert_events p _ = p

unfoldable pub insert_counters : SbiPmu → List ℕ → SbiPmu
insert_counters p (first ∷ last ∷ mask ∷ rows) =
    insert_counters
      (insert_event_to_mhpmcounter p
        (record { counters_mask = mask; event_start_idx = first; event_end_idx = last }))
      rows
insert_counters p _ = p

unfoldable pub insert_raw_counters : SbiPmu → List ℕ → SbiPmu
insert_raw_counters p (s1 ∷ s0 ∷ m1 ∷ m0 ∷ mask ∷ rows) =
    insert_raw_counters
      (insert_raw_event_to_mhpmcounter p (record {
        raw_counters_mask = mask;
        raw_event_select = s1 * 2 ^ 32 + s0;
        select_mask = m1 * 2 ^ 32 + m0;
      }))
      rows
insert_raw_counters p _ = p

-- One property of the node; without it nothing is inserted.
unfoldable pub with_property :
    ℕ → Option (List ℕ) → (SbiPmu → List ℕ → SbiPmu) → Option SbiPmu → Option SbiPmu
with_property columns property insert none = none
with_property columns none insert (some p) = some p
with_property columns (some bytes) insert (some p) = elim (property_rows columns bytes) [
  | none ↦ none
  | some rows ↦ some (insert p rows)
]

-- `from_node`, given the three properties of the node.
unfoldable pub from_node : Option (List ℕ) → Option (List ℕ) → Option (List ℕ) → Option SbiPmu
from_node to_mhpmevent to_mhpmcounters raw_to_mhpmcounters =
    with_property 5 raw_to_mhpmcounters insert_raw_counters (
      with_property 3 to_mhpmcounters insert_counters
        (with_property 3 to_mhpmevent insert_events (some default_pmu)))
