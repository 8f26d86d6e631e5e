-- ===== src/Rfence/Invariant.antt =====
-- The count of a source is the number of its requests under way: an invariant of all steps.
use rustsbi.Base.{ℕ, ◌+◌, ◌≤◌, ◌<◌, ◌≡◌, ◌≢◌, true, some, arith, length}
use rustsbi.Base.Families.{
  assign, total, total-change, total-same, total-le, total-member, total-zero,
}
use rustsbi.Hart.{num_hart_max}
use rustsbi.Rfence.{RFenceContext, Request, RFenceCell, try_push, add, sub, get, cancel, queue_cap}
use rustsbi.Rfence.Queue.{one_of, count_source, count_source-le-length}
use rustsbi.Rfence.Protocol.{
  Sender, Handler, System, Step, Reach, idle, counted, queued, cancelled, free, taken, fenced,
  count, push, send_succeeds, cancel_request, cancel_too_late, uncount, take, fence, acknowledge,
  here, next, boot,
}
use rustsbi.Rfence.Cells.{try_push_lem, cancel_lem, get_lem}

-- A request that a handler holds.
abbrev pub busy : ℕ → Handler → ℕ
busy s free = 0
busy s (taken r) = one_of s r
busy s (fenced r) = one_of s r

-- A request that is counted while it is in no queue yet, or no more.
abbrev pub debt : Sender → ℕ
debt idle = 0
debt (counted t c) = 1
debt (queued t) = 0
debt cancelled = 1

-- The requests of source `i` at hart `h`.
abbrev pub pending : System → ℕ → ℕ → ℕ
pending s i h = count_source i (s.cells h).queue + busy i (s.handler h)

pub record Inv (n : ℕ) (s : System) : Type 0 where
  pub short : (h : ℕ) → length (s.cells h).queue ≤ queue_cap
  pub counts :
      (i : ℕ) → i < n → (s.cells i).wait_sync_count ≡ total n (pending s i) + debt (s.sender i)

-- Few harts with short queues keep every count far from the end of its word.
pub pending_small :
    (n : ℕ) (s : System) (i : ℕ) → n ≤ num_hart_max → Inv n s → total n (pending s i) ≤ 136
pending_small n s i few v =
    let each : (h : ℕ) → pending s i h ≤ 17 =
      λ h. ground (arith, v.short h, count_source-le-length i (s.cells h).queue) in
    grind (arith, total-le n 17 (pending s i) each)

pub boot-Inv : (n : ℕ) → Inv n boot
unfolding count_source
boot-Inv n = record { short = λ h. omega arith; counts = λ i lt. omega (arith, total-zero n) }

module _ {n : ℕ} (few : n ≤ num_hart_max) (s : System) (v : Inv n s) where
  -- The sum after a step that changes what is pending at one hart.
  module _ (i h : ℕ) (lt : h < n) (t : System) where
    moved :
        ((j : ℕ) → j ≢ h → pending t i j ≡ pending s i j)
        → total n (pending t i) + pending s i h ≡ total n (pending s i) + pending t i h
    moved same = total-change n h (pending s i) (pending t i) lt same

  count-Inv :
      (i t : ℕ) (c : RFenceContext)
      → i < n
      → s.sender i ≡ idle
      → Inv n (record s {
        cells = assign s.cells i (add (s.cells i));
        sender = assign s.sender i (counted t c);
      })
  unfolding add
  count-Inv i t c lt e = record {
    short = λ h. ground (arith, v.short h, v.short i);
    counts = λ k lk.
        let t' : System = record s {
          cells = assign s.cells i (add (s.cells i));
          sender = assign s.sender i (counted t c);
        } in
        let same = total-same n (pending s k) (pending t' k) (λ j. ground arith) in
        ground (arith, same, v.counts k lk, pending_small n s k few v);
  }

  push-Inv :
      (i t : ℕ) (c : RFenceContext) (cell : RFenceCell)
      → t < n
      → s.sender i ≡ counted t c
      → try_push true (s.cells t) (record { context = c; source = i }) ≡ (cell, true)
      → Inv n (record s { cells = assign s.cells t cell; sender = assign s.sender i (queued t) })
  push-Inv i t c cell lt e p =
      let r : Request = record { context = c; source = i } in
      let did = try_push_lem (s.cells t) cell r p in
      record {
        short = λ h. ground (arith, v.short h, did.0);
        counts = λ k lk.
            let t' : System = record s {
              cells = assign s.cells t cell;
              sender = assign s.sender i (queued t);
            } in
            let sum = moved k t lt t' (λ j ne. ground arith) in
            ground (arith, sum, v.counts k lk, did.1, did.2 k);
      }

  idle-Inv :
      (i t : ℕ) → s.sender i ≡ queued t → Inv n (record s { sender = assign s.sender i idle })
  idle-Inv i t e = record { short = v.short; counts = λ k lk. ground (arith, v.counts k lk) }

  cancel-Inv :
      (i t : ℕ) (cell : RFenceCell)
      → t < n
      → s.sender i ≡ queued t
      → cancel (s.cells t) i ≡ (cell, true)
      → Inv n (record s { cells = assign s.cells t cell; sender = assign s.sender i cancelled })
  cancel-Inv i t cell lt e p =
      let did = cancel_lem (s.cells t) cell i p in
      record {
        short = λ h. ground (arith, v.short h, v.short t, did.0);
        counts = λ k lk.
            let t' : System = record s {
              cells = assign s.cells t cell;
              sender = assign s.sender i cancelled;
            } in
            let sum = moved k t lt t' (λ j ne. ground arith) in
            ground (arith, sum, v.counts k lk, did.1, did.2 k);
      }

  uncount-Inv :
      (i : ℕ)
      → s.sender i ≡ cancelled
      → Inv n
          (record s { cells = assign s.cells i (sub (s.cells i)); sender = assign s.sender i idle })
  unfolding sub
  uncount-Inv i e = record {
    short = λ h. ground (arith, v.short h, v.short i);
    counts = λ k lk.
        let t' : System = record s {
          cells = assign s.cells i (sub (s.cells i));
          sender = assign s.sender i idle;
        } in
        let same = total-same n (pending s k) (pending t' k) (λ j. ground arith) in
        ground (arith, same, v.counts k lk, pending_small n s k few v);
  }

  take-Inv :
      (h : ℕ) (r : Request) (cell : RFenceCell)
      → h < n
      → s.handler h ≡ free
      → get (s.cells h) ≡ (cell, some r)
      → Inv n (record s { cells = assign s.cells h cell; handler = assign s.handler h (taken r) })
  take-Inv h r cell lt e p =
      let did = get_lem (s.cells h) cell r p in
      record {
        short = λ k. ground (arith, v.short k, v.short h, did.0);
        counts = λ k lk.
            let t' : System = record s {
              cells = assign s.cells h cell;
              handler = assign s.handler h (taken r);
            } in
            let sum = moved k h lt t' (λ j ne. ground arith) in
            ground (arith, sum, v.counts k lk, did.1, did.2 k);
      }

  fence-Inv :
      (h : ℕ) (r : Request)
      → s.handler h ≡ taken r
      → Inv n (record s { handler = assign s.handler h (fenced r) })
  fence-Inv h r e = record {
    short = v.short;
    counts = λ k lk.
        let t' : System = record s { handler = assign s.handler h (fenced r) } in
        let same = total-same n (pending s k) (pending t' k) (λ j. ground arith) in
        ground (arith, same, v.counts k lk);
  }

  acknowledge-Inv :
      (h : ℕ) (r : Request)
      → h < n
      → s.handler h ≡ fenced r
      → Inv n (record s {
        cells = assign s.cells r.source (sub (s.cells r.source));
        handler = assign s.handler h free;
      })
  unfolding sub
  acknowledge-Inv h r lt e = record {
    short = λ k. ground (arith, v.short k, v.short r.source);
    counts = λ k lk.
        let t' : System = record s {
          cells = assign s.cells r.source (sub (s.cells r.source));
          handler = assign s.handler h free;
        } in
        let sum = moved k h lt t' (λ j ne. ground arith) in
        let held = total-member n h (pending s k) lt in
        ground (arith, sum, held, v.counts k lk, pending_small n s k few v);
  }

Step-Inv : {n : ℕ} {s t : System} → n ≤ num_hart_max → Step n s t → Inv n s → Inv n t
Step-Inv {n} {s} few (count i t c li lt e) v = count-Inv few s v i t c li e
Step-Inv {n} {s} few (push i t c cell lt e p) v = push-Inv few s v i t c cell lt e p
Step-Inv {n} {s} few (send_succeeds i t e) v = idle-Inv few s v i t e
Step-Inv {n} {s} few (cancel_request i t cell lt e p) v = cancel-Inv few s v i t cell lt e p
Step-Inv {n} {s} few (cancel_too_late i t cell e p) v = idle-Inv few s v i t e
Step-Inv {n} {s} few (uncount i e) v = uncount-Inv few s v i e
Step-Inv {n} {s} few (take h r cell lt e p) v = take-Inv few s v h r cell lt e p
Step-Inv {n} {s} few (fence h r lt e) v = fence-Inv few s v h r e
Step-Inv {n} {s} few (acknowledge h r lt e) v = acknowledge-Inv few s v h r lt e

pub Reach-Inv : {n : ℕ} {s t : System} → n ≤ num_hart_max → Reach n s t → Inv n s → Inv n t
Reach-Inv few here v = v
Reach-Inv few (next r x) v = Step-Inv few x (Reach-Inv few r v)
