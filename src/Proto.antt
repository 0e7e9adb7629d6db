-- ===== src/Proto.antt =====
-- The protocol translator of lib: the parts that its modes share, and one module for each mode.
pub mod Base
pub mod Format
pub mod Framed
pub mod Binary
pub mod Text
pub mod Front
