-- ===== src/Rfence/Sync.antt =====
-- What a count says, in every interleaving.
use rustsbi.Base.{ℕ, ◌+◌, ◌≤◌, ◌<◌, ◌≡◌, true, arith, length}
use rustsbi.Base.Families.{total, total-member}
use rustsbi.Hart.{num_hart_max}
use rustsbi.Rfence.{queue_cap, is_sync}
use rustsbi.Rfence.Queue.{count_source}
use rustsbi.Rfence.Protocol.{System, Reach, idle, boot}
use rustsbi.Rfence.Invariant.{busy, debt, pending, pending_small, boot-Inv, Reach-Inv}

-- In every interleaving of at most eight harts, when the count of a hart that is not in the middle
-- of a submission reads as zero, no hart has a request of it in its queue or in its handler.
pub is_sync_complete :
    {n : ℕ} {s : System} (i h : ℕ)
    → n ≤ num_hart_max
    → Reach n boot s
    → i < n
    → h < n
    → s.sender i ≡ idle
    → is_sync (s.cells i) ≡ true
    → (count_source i (s.cells h).queue ≡ 0) × (busy i (s.handler h) ≡ 0)
unfolding is_sync
is_sync_complete {n} {s} i h few reach li lh quiet synced =
    let v = Reach-Inv few reach (boot-Inv n) in
    let here' = total-member n h (pending s i) lh in
    let all = v.counts i li in (ground (arith, here', all), ground (arith, here', all))

-- In every interleaving of at most eight harts, a count equals the number of requests of its hart
-- in all queues and handlers, and one more in the middle of a submission, and never comes near
-- the end of its word; no queue is longer than its capacity.
pub Reach-counts :
    {n : ℕ} {s : System} (i h : ℕ)
    → n ≤ num_hart_max
    → Reach n boot s
    → i < n
    → ((s.cells i).wait_sync_count ≡ total n (pending s i) + debt (s.sender i))
      × ((s.cells i).wait_sync_count ≤ 137)
      × (length (s.cells h).queue ≤ queue_cap)
Reach-counts {n} {s} i h few reach li =
    let v = Reach-Inv few reach (boot-Inv n) in
    let small = pending_small n s i few v in
    let all = v.counts i li in (all, ground (arith, small, all), v.short h)
