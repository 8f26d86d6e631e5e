-- ===== src/Power/Examples.antt =====
-- Two harts, of which the first suspends the system, and a vendor's reset.
use rustsbi.Base.{ℕ, true, Option, none, some, [], ◌∷◌, ◌==◌, if◌then◌else◌}
use rustsbi.Hart.{HartState, Devices, status, new_cell, absent, started}
use rustsbi.Hart.Sbi.{Cells}
use rustsbi.Power.{Board, ResetRequest, ResetError, reset_failed}

abbrev board : Board
board = record { enabled_harts = some (true ∷ true ∷ []); has_hsm = true; mpp = 1 }

abbrev devices : Devices
devices = record { hardware = absent; ipi = none }

abbrev cells : Cells
cells i = if i == 0 then record new_cell { phase = started } else new_cell

abbrev seen : ℕ → HartState
seen i = status (cells i)

abbrev stuck : ResetRequest → Option ResetError
stuck q = some reset_failed
