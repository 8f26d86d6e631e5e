-- ===== src/Power/Alone.antt =====
-- The system is suspended only by the last hart that runs.
use rustsbi.Base.{ℕ, ◌≡◌, ◌≢◌, ◌⊎◌, true, false, some}
use rustsbi.Spec.Ret.{failed, SbiRet, success, from_error}
use rustsbi.Hart.{Devices, started, suspended, clear_source, send_wake}
use rustsbi.Hart.Sbi.{Cells, put}

-- How a suspend can end: refused with the lifecycle of every hart as it was; or having tried to
-- suspend the calling hart alone. That fails before the wait, or after it with the cell left
-- suspended, or it succeeds, and then the hart is started again and enters the stage passed.
abbrev pub Refused : Cells → Cells × SbiRet → Type 0
Refused cells r = (r.0 ≡ cells) × (r.1 ≢ success 0)

abbrev pub Suspends : Devices → Cells → ℕ → ℕ → ℕ → Cells × SbiRet → Type 0
Suspends d cells me addr opaque (cells', ret) =
    ((clear_source d.ipi ≡ false) × (cells' ≡ put cells me (cells me)) × (ret ≡ from_error failed))
    ⊎ (((clear_source d.ipi ≡ true)
          × (send_wake d.ipi ≡ false)
          × (cells' ≡ put cells me (record (cells me) { phase = suspended }))
          × (ret ≡ from_error failed))
        ⊎ ((clear_source d.ipi ≡ true)
            × (send_wake d.ipi ≡ true)
            × (cells'
                ≡ put cells me (record (cells me) {
                  phase = started;
                  transfer = some (record { start_addr = addr; opaque = opaque });
                }))
            × (ret ≡ success 0)))
