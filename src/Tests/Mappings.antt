-- ===== src/Tests/Mappings.antt =====
-- A mapping of 100 bytes at an address that the kernel chose, and its munmap, first interrupted.
use machgate.Base.{ℕ, ◌<◌, ◌≡◌, ◌≢◌, refl, arith, none, some}
use machgate.Base.{zero, suc}
use machgate.GuestVm.Table.{empty_table, track_add, lookup, forget, Unique}
use machgate.GuestVm.Table.{track_add-Unique}
use machgate.GuestVm.Calls.{done, failed, eintr, page_size}
use machgate.GuestVm.Calls.{Vm, darwin_mmap, darwin_munmap, attempts, finish_munmap}
use machgate.GuestVm.Calls.Laws.{Kernel, tracks, Munmapped, darwin_munmap-Munmapped}
use machgate.GuestVm.RoundTrip.{MmapKernel, mmap_then_munmap}
use machgate.GuestVm.Reach.{Reach, mmap, munmap, here, next, IsSound, Reach-IsSound}

abbrev start : Vm
start = record { table = empty_table; mask = 0 }

abbrev mapping_kernel : MmapKernel
mapping_kernel addr length prot flags fd offset = done 0x7000

-- The first two attempts are interrupted.
abbrev busy_kernel : Kernel
busy_kernel mask zero addr length = failed eintr
busy_kernel mask (suc zero) addr length = failed eintr
busy_kernel mask (suc (suc k)) addr length = done 0

abbrev mapped : Vm
mapped = record start { table = track_add 0x7000 100 empty_table }

mapped_run : (darwin_mmap mapping_kernel start 0 100 3 0x22 0 0) ≡ (mapped, done 0x7000)
unfolding darwin_mmap
mapped_run = refl

here_tracked : tracks mapped 0x7000 ≡ some 100
unfolding track_add lookup
here_tracked = refl

nothing_tracked : tracks start 0x7000 ≡ none
unfolding lookup
nothing_tracked = refl

start_Unique : Unique empty_table
start_Unique = ground arith

mapped_Unique : Unique mapped.table
mapped_Unique = track_add-Unique 0x7000 100 empty_table nothing_tracked start_Unique

unmapped_run :
    (darwin_munmap busy_kernel (darwin_mmap mapping_kernel start 0 100 3 0x22 0 0).0 0x7000 100).1
    ≡ done 0
unfolding darwin_mmap darwin_munmap attempts finish_munmap track_add lookup forget
unmapped_run = refl

tracked_here : tracks mapped 0x7000 ≢ none
tracked_here h = let found = here_tracked in cc

untracked_before : (a : ℕ) → mapping_kernel 0 100 3 0x22 0 0 ≡ done a → tracks start a ≡ none
unfolding lookup
untracked_before a e = refl

darwin_munmap-Munmapped_example :
    let (vm', r) = darwin_munmap busy_kernel mapped 0x7000 100 in Munmapped mapped 0x7000 100 vm' r
darwin_munmap-Munmapped_example =
    darwin_munmap-Munmapped busy_kernel mapped 0x7000 100 mapped_Unique

mmap_then_munmap_example :
    let vm1 = (darwin_mmap mapping_kernel start 0 100 3 0x22 0 0).0 in
    (tracks vm1 0x7000 ≡ some 100)
    × (100 < page_size)
    × (tracks (darwin_munmap busy_kernel vm1 0x7000 100).0 0x7000 ≡ tracks start 0x7000)
mmap_then_munmap_example =
    mmap_then_munmap mapping_kernel busy_kernel start 100 3 0x22 0 0 0x7000 100 0 0x7000
      (omega arith) (omega arith) (omega arith) refl nothing_tracked refl start_Unique unmapped_run

abbrev both_calls :
    Reach start
      (darwin_munmap busy_kernel (darwin_mmap mapping_kernel start 0 100 3 0x22 0 0).0 0x7000 100).0
both_calls = next (next here (mmap mapping_kernel 0 100 3 0x22 0 0)) (munmap busy_kernel 0x7000 100)

Reach-IsSound_example :
    IsSound 0
      (darwin_munmap busy_kernel (darwin_mmap mapping_kernel start 0 100 3 0x22 0 0).0 0x7000 100).0
Reach-IsSound_example = Reach-IsSound 0 both_calls ((tt, untracked_before), tt)

-- A range that starts below a tracked address is unmapped, and the kernel maps there again: after one more munmap the
-- address is still tracked.
abbrev remapped : Vm
remapped =
    (darwin_mmap mapping_kernel (darwin_munmap busy_kernel mapped 0x6000 0x2000).0 0 100 3 0x22 0
      0).0

tracked_twice : tracks (darwin_munmap busy_kernel remapped 0x7000 100).0 0x7000 ≡ some 100
unfolding darwin_mmap darwin_munmap attempts finish_munmap track_add lookup forget
tracked_twice = refl
