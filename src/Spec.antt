-- ===== src/Spec.antt =====
-- library/sbi-spec: the values that cross the SBI call boundary.
pub mod Ret
pub mod Mask
pub mod HartMask
