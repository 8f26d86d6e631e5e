-- ===== src/Lib.antt =====
-- RustSBI is a machine-mode firmware and the libraries that it is built from. This development
-- models the parts that decide who may touch which memory and which hart runs what:
--
--   Base       numbers, lists and machine words with their bits, shared by all modules.
--   Spec       library/sbi-spec: the values of an SBI call. Spec.HartMask is binary/hart_mask.rs,
--              with the iterator `HartIds`; Spec.Mask is binary/mask_commons.rs and
--              binary/counter_mask.rs; Spec.Ret is binary/sbi_ret.rs.
--   Pmp        library/pmpm/src/lib.rs: ranges, the address codec and the PMP registers.
--              Pmp.Slots is bitmap.rs, the allocator of PMP slots, whose exchanges may lose
--              against other writers.
--   Smm        library/smm: secure memory for enclaves. Smm.Region is lib.rs, Smm.Allocators is
--              allocators.rs, Smm.Manager is manager.rs. The manager takes PMP slots from
--              Pmp.Slots and serves enclaves through two allocators.
--   Hart       firmware/runtime/src/hart/lifecycle.rs and wakeup.rs: the lifecycle cell of a
--              hart. Hart.Machine has the state machine, Hart.Race the interleavings of several
--              starters with the hart, and Hart.Sbi is firmware/prototyper/src/sbi/hsm.rs, the
--              SBI calls over the cells, which answer in the values of Spec.Ret.
--   Memory     firmware/runtime/src/memory/region.rs, registry.rs and supervisor.rs: physical
--              ranges, the registry of RAM and device windows, and the access check of the
--              supervisor's memory. Memory.Access has the byte loops behind the check.
--   Rfence     firmware/prototyper/src/sbi/rfence.rs and rfence/queue.rs: remote fences. Rfence has
--              the address check, the instructions of a request and the queue cell of a hart;
--              Rfence.Protocol has `send_ipi_by_fence` of ipi.rs and the handlers as steps of
--              any number of harts in any order.
--   Ipi        firmware/prototyper/src/sbi/ipi.rs: `target_requests`, which turns a mask of
--              Spec.HartMask into requests for the harts that can take one, and `send_ipi`.
--   Pmu        firmware/prototyper/src/sbi/pmu.rs: performance counters of one hart. Pmu.Events is
--              `EventIdx`, Pmu.State is `PmuState`, Pmu.Hardware the counters behind CSRs,
--              Pmu.Maps the mappings of the device tree, Pmu.Calls and Pmu.Config the calls.
--   Fwft       firmware/prototyper/src/sbi/fwft.rs: the firmware features that are kept in the
--              register `menvcfg`, whose legal values are a parameter.
--   Dispatch   library/rustsbi/src/traits.rs: the functions `_rustsbi_*` from a function number and
--              parameter words to the operations of an extension, which are records. In
--              Dispatch.Features the extension is that of Fwft.
--   Trap       firmware/runtime/src/trap: machine-mode traps. Trap has the saved registers and the live
--              trap CSRs, Trap.Decode is decode.rs, Trap.Guarded the guarded accesses of recovery.rs,
--              Trap.Emulate is emulate.rs, Trap.Redirect is redirect.rs and Trap.Handling is
--              dispatch.rs. A trap takes the lifecycle cell of Hart along, and answers a call in the
--              values of Spec.Ret.
--   Console    firmware/prototyper/src/sbi/console.rs: the debug console, whose transfers go through
--              the access check of Memory.
--   Shmem      firmware/prototyper/src/sbi/mpxy.rs, dbtr.rs and sta.rs: memory that a supervisor
--              shares with the firmware, checked in the same way.
--   Power      firmware/prototyper/src/sbi/suspend.rs and reset.rs: the system suspend, which goes
--              through the suspend of Hart.Sbi, and reset requests.
--   Fdt        firmware/runtime/src/device_tree/patch: Fdt.Format has the checked reads of format.rs,
--              Fdt.Writer the emission of tokens, names and header fields of writer.rs, and
--              Fdt.Layout the parsing of a blob's layout and `rebuild`.
--
-- A method on `&mut self` is a function that returns the new state beside its result; a panic is
-- `none`. Words are natural numbers below 2 ^ 64 with the wrap-around of the source written out:
-- the targets are the 64-bit ones. The loops of the source run over lists or over fuel that is a
-- bound of the source itself: the 64 bits of a mask, the rounds that other writers disturb, the 33
-- rounds of `counter_get_info`, one more than its mask has bits, the 256 triggers that are probed,
-- the bytes of a device tree, and the answers that a console device gives to a retrying writer.
-- Atomic operations are single steps; memory orderings weaker than that are not modelled.
--
-- Parameters: the allocator for application enclaves (a buddy system of another crate), the
-- interrupt devices, the board's enabled harts, the firmware's range, which the linker places, and
-- the values that the hardware keeps of those written to `menvcfg`. For traps also the instruction
-- decoder of another crate, which guarded accesses fault, the platform's device that serves access
-- faults, the time sources, what reading and writing `sstatus` does to `mstatus`, the SBI call
-- handler and the handler of pending work; for the console the answers of its device; for the
-- trigger probe those of the trigger CSRs; for the device tree which bytes are UTF-8; for the
-- system suspend the statuses that its walk over the harts reads. A guarded access is one step on
-- a memory of bytes in which no two addresses name the same byte; a fault leaves its own values in
-- `mepc`, `mcause` and `mtval`.
--
-- Not modelled: device input and output, assembly, with the trap entry but for the registers that its
-- fast return loads, trap initialization, the checks of a device tree's structure and the planning
-- of its edits, the SBI extensions of the prototyper that are not named above, the supervisor-side
-- bindings, and generated code.
pub mod Base
pub mod Spec
pub mod Pmp
pub mod Smm
pub mod Hart
pub mod Memory
pub mod Rfence
pub mod Ipi
pub mod Pmu
pub mod Fwft
pub mod Dispatch
pub mod Trap
pub mod Console
pub mod Shmem
pub mod Power
pub mod Fdt
