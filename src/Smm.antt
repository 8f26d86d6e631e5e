-- ===== src/Smm.antt =====
-- library/smm: secure memory for enclaves, cut into regions that PMP slots protect.
pub mod Region
pub mod Allocators
pub mod Vector
pub mod Manager
