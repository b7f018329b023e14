-- ===== src/Gate.antt =====
-- src/syscall/syscall_gate.c: the gateway of the guest's system calls.
pub mod Flags
pub mod State
pub mod Stat
pub mod Dispatch
pub mod Island
pub mod Pools
