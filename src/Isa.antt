-- ===== src/Isa.antt =====
-- src/isa_emul.c: instructions that ARMv8.0 cores lack, replaced by branches to islands.
pub mod Insn
pub mod Decode
pub mod Scratch
pub mod Emit
pub mod Patch
