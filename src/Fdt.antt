-- ===== src/Fdt.antt =====
-- firmware/runtime/src/device_tree/patch: the binary format of a flattened device tree, over lists
-- of bytes. Fdt.Format is patch/format.rs and Fdt.Writer is patch/writer.rs, but for the layout as
-- a whole, which is Fdt.Layout; whether bytes are UTF-8 is a parameter where text is read.
pub mod Format
pub mod Writer
pub mod Layout
pub mod Parsing
pub mod Reservations
pub mod Header
pub mod Fields
pub mod Tokens
pub mod Strings
mod Examples
