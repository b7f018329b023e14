-- ===== src/EhFrame.antt =====
-- src/eh_frame.c: the unwind tables of the program, made of its compact unwind entries.
pub mod Leb
pub mod Emit
pub mod Cfi
pub mod Read
pub mod Collect
pub mod Generate
pub mod Hdr
