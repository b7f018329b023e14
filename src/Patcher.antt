-- ===== src/Patcher.antt =====
-- src/patcher.c: instruction patches read from a file and written into the loaded program.
pub mod Text
pub mod Parse
pub mod Hex
pub mod Resolve
pub mod Apply
