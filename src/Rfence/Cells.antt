-- ===== src/Rfence/Cells.antt =====
-- What the operations of a queue cell do to the requests of each source.
use rustsbi.Base.{
  ℕ, ◌+◌, ◌≤◌, ◌≡◌, refl, inl, inr, Bool, true, some, List, [], ◌∷◌, ◌++◌, arith, leb, ◌==◌,
  if◌then◌else◌, Bool-cases, Option-cases, length, length-append,
}
use rustsbi.Rfence.{Request, RFenceCell, try_push, get, cancel, queue_cap, remove_first}
use rustsbi.Rfence.Queue.{one_of, count_source, count_source-append, count_source-remove_first}

pub try_push_lem :
    (c c' : RFenceCell) (r : Request)
    → try_push true c r ≡ (c', true)
    → (length c'.queue ≤ queue_cap)
      × (c'.wait_sync_count ≡ c.wait_sync_count)
      × ((i : ℕ) → count_source i c'.queue ≡ count_source i c.queue + one_of i r)
unfolding try_push count_source
try_push_lem c c' r e = elim (Bool-cases (leb queue_cap (length c.queue))) [
  | inl full ↦ absurd (ground arith)
  | inr room ↦
      let out : RFenceCell × Bool = (record c { queue = c.queue ++ r ∷ [] }, true) in
      let e' : out ≡ (c', true) = rw (room) at e in
      let same : c' ≡ record c { queue = c.queue ++ r ∷ [] } = cc in
      rw (same) (
        ground (arith, length-append c.queue (r ∷ [])),
        refl,
        λ i. omega (arith, count_source-append i c.queue (r ∷ [])),
      )
]

pub cancel_lem :
    (c c' : RFenceCell) (s : ℕ)
    → cancel c s ≡ (c', true)
    → (length c'.queue ≤ length c.queue)
      × (c'.wait_sync_count ≡ c.wait_sync_count)
      × ((i : ℕ) → count_source i c.queue ≡ (if s == i then 1 else 0) + count_source i c'.queue)
unfolding cancel
cancel_lem c c' s e = elim (Option-cases (remove_first s c.queue)) [
  | inl gone ↦ absurd (ground arith)
  | inr (rest, found) ↦
      let out : RFenceCell × Bool = (record c { queue = rest }, true) in
      let e' : out ≡ (c', true) = rw (cancel, found) at e in
      let same : c' ≡ record c { queue = rest } = cc in
      rw (same) (
        omega (arith, (count_source-remove_first s s c.queue rest found).1),
        refl,
        λ i. (count_source-remove_first s i c.queue rest found).0,
      )
]

get_at :
    (q : List Request) (w : ℕ) (c' : RFenceCell) (r : Request)
    → get (record { queue = q; wait_sync_count = w }) ≡ (c', some r)
    → (length c'.queue ≤ length q)
      × (c'.wait_sync_count ≡ w)
      × ((i : ℕ) → count_source i q ≡ one_of i r + count_source i c'.queue)
unfolding get count_source
get_at [] w c' r e = absurd (ground arith)
get_at (x ∷ q) w c' r e =
    let same : c' ≡ record { queue = q; wait_sync_count = w } = cc in
    let head : x ≡ r = cc in rw (same, head) (omega arith, refl, λ i. refl)

pub get_lem :
    (c c' : RFenceCell) (r : Request)
    → get c ≡ (c', some r)
    → (length c'.queue ≤ length c.queue)
      × (c'.wait_sync_count ≡ c.wait_sync_count)
      × ((i : ℕ) → count_source i c.queue ≡ one_of i r + count_source i c'.queue)
get_lem c c' r e = get_at c.queue c.wait_sync_count c' r e
