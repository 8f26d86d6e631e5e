-- ===== src/Pmu.antt =====
-- firmware/prototyper/src/sbi/pmu.rs: the performance counters of one hart. The children model
-- events, the counters kept by the firmware and by the hardware, the mappings of the device tree
-- and the calls of the extension. The arrays are families of values by index; an `unwrap` of
-- nothing is `none`, and an addition to a counter wraps.
pub mod Events
pub mod State
pub mod Hardware
pub mod Maps
pub mod Calls
pub mod Config
pub mod Offsets
pub mod Selection
pub mod Returns
pub mod Disjoint
pub mod Increment
pub mod Firmware
pub mod Counting
pub mod Matching
mod Examples
