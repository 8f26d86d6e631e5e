-- ===== src/Hart/Race.antt =====
-- Any number of harts start one hart while it runs, stops and suspends: the atomic parts of
-- `start` (and of `stage_current`, a starter whose wake succeeds), of `take_local_event` and of
-- the other calls of the hart itself, in every order.
use rustsbi.Base.{ℕ, ◌≡◌, refl, Bool, true, false, Option, none, some, arith, ◌==◌, if◌then◌else◌}
use rustsbi.Hart.{
  Phase, NextStage, started, stopped, start_pending, suspended, resume_pending, starting,
}

-- Where a call of `start` stands: after its reservation, after the wake, after writing the stage.
pub data Starter : Type 0 where
  idle : Starter
  reserved woken staged : NextStage → Starter

abbrev pub is_busy : Starter → Bool
is_busy idle = false
is_busy (reserved n) = true
is_busy (woken n) = true
is_busy (staged n) = true

-- `published` is the stage of the last start that was accepted; `taking` stands between the
-- exchange and the take in `take_local_event`.
pub record System : Type 0 where
  pub phase : Phase
  pub stage : Option NextStage
  pub starters : ℕ → Starter
  pub taking : Bool
  pub published : Option NextStage

abbrev pub update : (ℕ → Starter) → ℕ → Starter → ℕ → Starter
update f i v j = if j == i then v else f j

pub data Step (s : System) : System → Type 0 where
  reserve :
      (i : ℕ) (n : NextStage)
      → s.starters i ≡ idle
      → s.phase ≡ stopped
      → Step s (record s { phase = starting; starters = update s.starters i (reserved n) })
  wake_succeeds :
      (i : ℕ) (n : NextStage)
      → s.starters i ≡ reserved n
      → Step s (record s { starters = update s.starters i (woken n) })
  wake_fails :
      (i : ℕ) (n : NextStage)
      → s.starters i ≡ reserved n
      → Step s (record s { phase = stopped; starters = update s.starters i idle })
  write_stage :
      (i : ℕ) (n : NextStage)
      → s.starters i ≡ woken n
      → Step s (record s { stage = some n; starters = update s.starters i (staged n) })
  publish :
      (i : ℕ) (n : NextStage)
      → s.starters i ≡ staged n
      → Step s (record s {
        phase = start_pending;
        starters = update s.starters i idle;
        published = some n;
      })
  claim : s.phase ≡ start_pending → Step s (record s { phase = started; taking = true })
  take : s.taking ≡ true → Step s (record s { stage = none; taking = false })
  stop : s.taking ≡ false → s.phase ≡ started → Step s (record s { phase = stopped })
  suspend : s.taking ≡ false → s.phase ≡ started → Step s (record s { phase = suspended })
  resume : s.phase ≡ suspended → Step s (record s { phase = started })
  begin_resume : s.phase ≡ suspended → Step s (record s { phase = resume_pending })
  commit_resume : s.phase ≡ resume_pending → Step s (record s { phase = started })
  drop_ticket : s.phase ≡ resume_pending → Step s (record s { phase = suspended })

pub data Reach (s : System) : System → Type 0 where
  here : Reach s s
  next : {t u : System} → Reach s t → Step t u → Reach s u

-- The cell at boot, with nobody starting the hart.
abbrev pub boot : System
boot = record {
  phase = stopped;
  stage = none;
  starters = λ i. idle;
  taking = false;
  published = none;
}

-- At most one starter holds the reservation, and only while the phase is `starting`; a written
-- stage stays until it is taken; what is pending, or being taken, is the stage last published.
pub record Inv (s : System) : Type 0 where
  pub one : (i j : ℕ) → is_busy (s.starters i) ≡ true → is_busy (s.starters j) ≡ true → i ≡ j
  pub held : (i : ℕ) → is_busy (s.starters i) ≡ true → s.phase ≡ starting
  pub written : (i : ℕ) (n : NextStage) → s.starters i ≡ staged n → s.stage ≡ some n
  pub pending :
      s.phase ≡ start_pending → (n : NextStage) × (s.stage ≡ some n) × (s.published ≡ some n)
  pub taken :
      s.taking ≡ true
      → (s.phase ≡ started) × ((n : NextStage) × (s.stage ≡ some n) × (s.published ≡ some n))

boot-Inv : Inv boot
boot-Inv = record {
  one = λ i j a b. cc;
  held = λ i a. cc;
  written = λ i n a. cc;
  pending = λ e. cc;
  taken = λ e. cc;
}

Step-Inv : {s t : System} → Step s t → Inv s → Inv t
Step-Inv {s} (reserve i n p q) v = record {
  one = λ j k a b. ground (arith, v.held j, v.held k);
  held = λ j a. refl;
  written = λ j m a. ground (arith, v.held j);
  pending = λ e. cc;
  taken = λ e. ground (arith, v.taken e);
}
Step-Inv {s} (wake_succeeds i n p) v = record {
  one = λ j k a b. ground (arith, v.one j k);
  held = λ j a. ground (arith, v.held j, v.held i);
  written = λ j m a. ground (arith, v.written j m);
  pending = v.pending;
  taken = v.taken;
}
Step-Inv {s} (wake_fails i n p) v = record {
  one = λ j k a b. ground (arith, v.one j k);
  held = λ j a. ground (arith, v.one i j);
  written = λ j m a. ground (arith, v.written j m);
  pending = λ e. cc;
  taken = λ e. ground (arith, v.taken e, v.held i);
}
Step-Inv {s} (write_stage i n p) v = record {
  one = λ j k a b. ground (arith, v.one j k);
  held = λ j a. ground (arith, v.held j, v.held i);
  written = λ j m a. ground (arith, v.one i j);
  pending = λ e. absurd (ground (arith, v.held i));
  taken = λ e. absurd (ground (arith, v.taken e, v.held i));
}
Step-Inv {s} (publish i n p) v = record {
  one = λ j k a b. ground (arith, v.one j k);
  held = λ j a. ground (arith, v.one i j);
  written = λ j m a. ground (arith, v.one i j);
  pending = λ e. (n, v.written i n p, refl);
  taken = λ e. absurd (ground (arith, v.taken e, v.held i));
}
Step-Inv {s} (claim p) v = record {
  one = v.one;
  held = λ j a. ground (arith, v.held j);
  written = v.written;
  pending = λ e. cc;
  taken = λ e. (refl, v.pending p);
}
Step-Inv {s} (take p) v = record {
  one = v.one;
  held = v.held;
  written = λ j m a. ground (arith, v.held j, v.taken p);
  pending = λ e. ground (arith, v.taken p);
  taken = λ e. cc;
}
Step-Inv {s} (stop p q) v = record {
  one = v.one;
  held = λ j a. ground (arith, v.held j);
  written = v.written;
  pending = λ e. cc;
  taken = λ e. cc;
}
Step-Inv {s} (suspend p q) v = record {
  one = v.one;
  held = λ j a. ground (arith, v.held j);
  written = v.written;
  pending = λ e. cc;
  taken = λ e. cc;
}
Step-Inv {s} (resume p) v = record {
  one = v.one;
  held = λ j a. ground (arith, v.held j);
  written = v.written;
  pending = λ e. cc;
  taken = λ e. (refl, (v.taken e).1);
}
Step-Inv {s} (begin_resume p) v = record {
  one = v.one;
  held = λ j a. ground (arith, v.held j);
  written = v.written;
  pending = λ e. cc;
  taken = λ e. ground (arith, v.taken e);
}
Step-Inv {s} (commit_resume p) v = record {
  one = v.one;
  held = λ j a. ground (arith, v.held j);
  written = v.written;
  pending = λ e. cc;
  taken = λ e. (refl, (v.taken e).1);
}
Step-Inv {s} (drop_ticket p) v = record {
  one = v.one;
  held = λ j a. ground (arith, v.held j);
  written = v.written;
  pending = λ e. cc;
  taken = λ e. ground (arith, v.taken e);
}

Reach-Inv : {s t : System} → Reach s t → Inv s → Inv t
Reach-Inv here v = v
Reach-Inv (next r x) v = Step-Inv x (Reach-Inv r v)

-- In every interleaving from boot, a hart that is about to take its stage finds one in the cell,
-- and it is the stage of the start that was accepted last.
pub Reach-taken :
    {s : System}
    → Reach boot s
    → s.taking ≡ true
    → (n : NextStage) × (s.stage ≡ some n) × (s.published ≡ some n)
Reach-taken r e = ((Reach-Inv r boot-Inv).taken e).1

-- In every interleaving from boot, two starters that are both between their reservation and their
-- publication are the same one, and meanwhile the cell's phase is `starting`.
pub Reach-one :
    {s : System} (i j : ℕ)
    → Reach boot s
    → is_busy (s.starters i) ≡ true
    → is_busy (s.starters j) ≡ true
    → (i ≡ j) × (s.phase ≡ starting)
Reach-one i j r a b = ((Reach-Inv r boot-Inv).one i j a b, (Reach-Inv r boot-Inv).held i a)
