-- ===== src/Hart/Machine.antt =====
-- The HSM state machine: the states that the SBI shows change along its edges only.
use rustsbi.Base.{◌≡◌, inl, inr, Option, none, some, Bool-cases}
use rustsbi.Hart.{
  HartStateCell, HartState, Phase, NextStage, Devices, status, started, stopped, start_pending,
  suspended, resume_pending, hs_started, hs_stopped, hs_start_pending, hs_suspended,
  hs_resume_pending, starting, reserve, publish, roll_back, take_local_event, stop_current,
  suspend_current, resume_current_retentive, begin_nonretentive_resume, commit,
  take_control_transfer, clear_source, send_wake,
}

-- The edges of the state diagram, and staying put.
pub data Edge : HartState → HartState → Type 0 where
  stays : (s : HartState) → Edge s s
  starts : Edge hs_stopped hs_start_pending
  enters : Edge hs_start_pending hs_started
  cancels : Edge hs_start_pending hs_stopped
  stops : Edge hs_started hs_stopped
  suspends : Edge hs_started hs_suspended
  resumes : Edge hs_suspended hs_started
  prepares : Edge hs_suspended hs_resume_pending
  returns : Edge hs_resume_pending hs_started
  falls_back : Edge hs_resume_pending hs_suspended

-- The steps that the calls take on a cell, each an atomic change of the state or a call of the
-- hart that the cell belongs to: the current hart stops or suspends itself in the state started, a
-- stage is published and a start is rolled back in a reserved cell, and a ticket is committed or
-- dropped in a cell that it reserves.
pub data Call : HartStateCell → HartStateCell → Type 0 where
  reserves : (c : HartStateCell) → Call c (reserve c).0
  publishes : (c : HartStateCell) (n : NextStage) → c.phase ≡ starting → Call c (publish c n)
  rolls_back : (c : HartStateCell) → c.phase ≡ starting → Call c (roll_back c)
  takes : (c : HartStateCell) → Call c (take_local_event c).0
  stops_call : (d : Devices) (c : HartStateCell) → c.phase ≡ started → Call c (stop_current d c).0
  suspends_call :
      (d : Devices) (c : HartStateCell) → c.phase ≡ started → Call c (suspend_current d c).0
  resumes_call : (c : HartStateCell) → Call c (resume_current_retentive c).0
  begins : (c : HartStateCell) → Call c (begin_nonretentive_resume c).0
  commits :
      (d : Devices) (c : HartStateCell) (n : NextStage)
      → c.phase ≡ resume_pending
      → Call c (commit d c n).0
  transfers : (c : HartStateCell) → Call c (take_control_transfer c).0

abbrev cell : Phase → Option NextStage → Option NextStage → HartStateCell
cell p stage transfer = record { phase = p; stage = stage; transfer = transfer }

reserve-Edge :
    (p : Phase) (stage transfer : Option NextStage)
    → Edge (status (cell p stage transfer)) (status (reserve (cell p stage transfer)).0)
unfolding status reserve
reserve-Edge stopped stage transfer = starts
reserve-Edge _ stage transfer = stays _

publish-Edge :
    (c : HartStateCell) (n : NextStage)
    → c.phase ≡ starting
    → Edge (status c) (status (publish c n))
unfolding status publish
publish-Edge c n e = rw (status, e) (stays _)

roll_back-Edge : (c : HartStateCell) → c.phase ≡ starting → Edge (status c) (status (roll_back c))
unfolding status roll_back
roll_back-Edge c e = rw (status, e) cancels

take-Edge :
    (p : Phase) (stage transfer : Option NextStage)
    → Edge (status (cell p stage transfer)) (status (take_local_event (cell p stage transfer)).0)
unfolding status take_local_event
take-Edge start_pending (some n) transfer = enters
take-Edge start_pending none transfer = enters
take-Edge _ stage transfer = stays _

resume-Edge :
    (p : Phase) (stage transfer : Option NextStage)
    → Edge
        (status (cell p stage transfer))
        (status (resume_current_retentive (cell p stage transfer)).0)
unfolding status resume_current_retentive
resume-Edge suspended stage transfer = resumes
resume-Edge _ stage transfer = stays _

begin-Edge :
    (p : Phase) (stage transfer : Option NextStage)
    → Edge
        (status (cell p stage transfer))
        (status (begin_nonretentive_resume (cell p stage transfer)).0)
unfolding status begin_nonretentive_resume
begin-Edge suspended stage transfer = prepares
begin-Edge _ stage transfer = stays _

stop-Edge :
    (d : Devices) (c : HartStateCell)
    → c.phase ≡ started
    → Edge (status c) (status (stop_current d c).0)
unfolding status stop_current
stop-Edge d c e = elim (Bool-cases (clear_source d.ipi)) [
  | inl cleared ↦ rw (cleared, e, status) stops
  | inr failed ↦ rw (failed, status) (stays _)
]

suspend-Edge :
    (d : Devices) (c : HartStateCell)
    → c.phase ≡ started
    → Edge (status c) (status (suspend_current d c).0)
unfolding status suspend_current
suspend-Edge d c e = elim (Bool-cases (clear_source d.ipi)) [
  | inl cleared ↦ rw (cleared, e, status) suspends
  | inr failed ↦ rw (failed, status) (stays _)
]

commit-Edge :
    (d : Devices) (c : HartStateCell) (n : NextStage)
    → c.phase ≡ resume_pending
    → Edge (status c) (status (commit d c n).0)
unfolding status commit
commit-Edge d c n e = elim (Bool-cases (send_wake d.ipi)) [
  | inl sent ↦ rw (sent, e, status) returns
  | inr failed ↦ rw (failed, e, status) falls_back
]

-- Every step moves the state that `status` shows along an edge of the state machine or leaves it,
-- provided that a hart stops or suspends itself in the state started, that only a reserved cell is
-- published or rolled back, and that a ticket ends while its cell waits for a resume. A start shows
-- as pending from its reservation on, and falls back to stopped when the wake fails.
pub Call-Edge : {c c' : HartStateCell} → Call c c' → Edge (status c) (status c')
unfolding status take_control_transfer
Call-Edge (reserves c) = reserve-Edge c.phase c.stage c.transfer
Call-Edge (publishes c n e) = publish-Edge c n e
Call-Edge (rolls_back c e) = roll_back-Edge c e
Call-Edge (takes c) = take-Edge c.phase c.stage c.transfer
Call-Edge (stops_call d c e) = stop-Edge d c e
Call-Edge (suspends_call d c e) = suspend-Edge d c e
Call-Edge (resumes_call c) = resume-Edge c.phase c.stage c.transfer
Call-Edge (begins c) = begin-Edge c.phase c.stage c.transfer
Call-Edge (commits d c n e) = commit-Edge d c n e
Call-Edge (transfers c) = stays _
