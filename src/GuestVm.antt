-- ===== src/GuestVm.antt =====
-- src/syscall/guest_vm_track.c: the table of small anonymous mappings, and the guest's mmap and munmap.
-- The mutex makes each table operation one step.
pub mod Table
pub mod Calls
pub mod RoundTrip
pub mod Reach
