-- ===== src/Rfence/Protocol.antt =====
-- `send_ipi_by_fence` of firmware/prototyper/src/sbi/ipi.rs and the handlers of rfence.rs as the
-- steps of `n` harts, interleaved in any order. A failed `try_push` and a poll that finds nothing
-- change nothing and are no steps. A hart may send and handle at once, which allows more than the
-- code, where it handles requests only while it waits.
use rustsbi.Base.{ℕ, ◌<◌, ◌≡◌, true, false, some}
use rustsbi.Base.Families.{assign}
use rustsbi.Rfence.{RFenceContext, Request, RFenceCell, new_cell, try_push, add, sub, get, cancel}

-- Where a sender stands: after counting the request, after queueing it, after cancelling it.
pub data Sender : Type 0 where
  idle : Sender
  counted : ℕ → RFenceContext → Sender
  queued : ℕ → Sender
  cancelled : Sender

-- Where `rfence_single_handler` stands: before and after the fence instructions.
pub data Handler : Type 0 where
  free : Handler
  taken fenced : Request → Handler

pub record System : Type 0 where
  pub cells : ℕ → RFenceCell
  pub sender : ℕ → Sender
  pub handler : ℕ → Handler

pub data Step (n : ℕ) (s : System) : System → Type 0 where
  count :
      (i t : ℕ) (c : RFenceContext)
      → i < n
      → t < n
      → s.sender i ≡ idle
      → Step n s (record s {
        cells = assign s.cells i (add (s.cells i));
        sender = assign s.sender i (counted t c);
      })
  push :
      (i t : ℕ) (c : RFenceContext) (cell : RFenceCell)
      → t < n
      → s.sender i ≡ counted t c
      → try_push true (s.cells t) (record { context = c; source = i }) ≡ (cell, true)
      → Step n s (record s { cells = assign s.cells t cell; sender = assign s.sender i (queued t) })
  send_succeeds :
      (i t : ℕ) → s.sender i ≡ queued t → Step n s (record s { sender = assign s.sender i idle })
  cancel_request :
      (i t : ℕ) (cell : RFenceCell)
      → t < n
      → s.sender i ≡ queued t
      → cancel (s.cells t) i ≡ (cell, true)
      → Step n s (record s { cells = assign s.cells t cell; sender = assign s.sender i cancelled })
  cancel_too_late :
      (i t : ℕ) (cell : RFenceCell)
      → s.sender i ≡ queued t
      → cancel (s.cells t) i ≡ (cell, false)
      → Step n s (record s { sender = assign s.sender i idle })
  uncount :
      (i : ℕ)
      → s.sender i ≡ cancelled
      → Step n s
          (record s { cells = assign s.cells i (sub (s.cells i)); sender = assign s.sender i idle })
  take :
      (h : ℕ) (r : Request) (cell : RFenceCell)
      → h < n
      → s.handler h ≡ free
      → get (s.cells h) ≡ (cell, some r)
      → Step n s
          (record s { cells = assign s.cells h cell; handler = assign s.handler h (taken r) })
  fence :
      (h : ℕ) (r : Request)
      → h < n
      → s.handler h ≡ taken r
      → Step n s (record s { handler = assign s.handler h (fenced r) })
  acknowledge :
      (h : ℕ) (r : Request)
      → h < n
      → s.handler h ≡ fenced r
      → Step n s (record s {
        cells = assign s.cells r.source (sub (s.cells r.source));
        handler = assign s.handler h free;
      })

pub data Reach (n : ℕ) (s : System) : System → Type 0 where
  here : Reach n s s
  next : {t u : System} → Reach n s t → Step n t u → Reach n s u

abbrev pub boot : System
boot = record { cells = λ i. new_cell; sender = λ i. idle; handler = λ i. free }
