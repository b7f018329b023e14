-- ===== src/GuestVm/Reach.antt =====
-- Any sequence of the guest's mmap and munmap calls, from the zeroed table on.
use machgate.Base.{ℕ, ◌≡◌, refl, ◌∙◌, arith, none, length}
use machgate.GuestVm.Table.{track_max, empty_table, Unique, length-track_add, length-forget}
use machgate.GuestVm.Calls.{
  KernelResult, done, failed, Vm, darwin_mmap, darwin_munmap, finish_munmap,
}
use machgate.GuestVm.Calls.Laws.{Kernel, tracks, darwin_munmap-Munmapped}
use machgate.GuestVm.RoundTrip.{MmapKernel, darwin_mmap-Unique}

-- The kernel chooses its answers anew at each call.
pub data Step (vm : Vm) : Vm → Type 0 where
  mmap :
      (kernel : MmapKernel) (addr length prot flags fd offset : ℕ)
      → Step vm (darwin_mmap kernel vm addr length prot flags fd offset).0
  munmap : (kernel : Kernel) (addr length : ℕ) → Step vm (darwin_munmap kernel vm addr length).0

pub data Reach (vm : Vm) : Vm → Type 0 where
  here : Reach vm vm
  next : {v w : Vm} → Reach vm v → Step v w → Reach vm w

-- A mapping is at an address that is not tracked.
abbrev pub StepIsFresh : {v w : Vm} → Step v w → Type 0
StepIsFresh {v} (mmap kernel addr length prot flags fd offset) =
    (a : ℕ) → kernel addr length prot flags fd offset ≡ done a → tracks v a ≡ none
StepIsFresh (munmap kernel addr length) = Unit {0}

abbrev pub AllFresh : {v w : Vm} → Reach v w → Type 0
AllFresh here = Unit {0}
AllFresh (next r st) = AllFresh r × StepIsFresh st

pub record IsSound (mask : ℕ) (vm : Vm) : Type 0 where
  pub unique : Unique vm.table
  pub slots : length vm.table ≡ track_max
  pub same_mask : vm.mask ≡ mask

mmap-IsSound :
    (mask : ℕ) (vm : Vm) (kernel : MmapKernel) (addr size prot flags fd offset : ℕ)
    (r : KernelResult)
    → kernel addr size prot flags fd offset ≡ r
    → ((a : ℕ) → kernel addr size prot flags fd offset ≡ done a → tracks vm a ≡ none)
    → IsSound mask vm
    → IsSound mask (darwin_mmap kernel vm addr size prot flags fd offset).0
unfolding darwin_mmap
mmap-IsSound mask vm kernel addr size prot flags fd offset (done a) e fresh s = record {
  unique = darwin_mmap-Unique kernel vm addr size prot flags fd offset (fresh a e) e s.unique;
  slots = rw (e, darwin_mmap) (ground (arith, length-track_add a size vm.table));
  same_mask = rw (e, darwin_mmap) (ground arith);
}
mmap-IsSound mask vm kernel addr size prot flags fd offset (failed n) e fresh s =
    rw (e, darwin_mmap) s

length-darwin_munmap :
    (kernel : Kernel) (vm : Vm) (addr size : ℕ)
    → length (darwin_munmap kernel vm addr size).0.table ≡ length vm.table
unfolding darwin_munmap finish_munmap
length-darwin_munmap kernel vm addr size = ground (arith, length-forget addr vm.table)

pub Step-IsSound :
    (mask : ℕ) {v w : Vm} → IsSound mask v → (st : Step v w) → StepIsFresh st → IsSound mask w
Step-IsSound mask {v} s (mmap kernel addr size prot flags fd offset) fresh =
    mmap-IsSound mask v kernel addr size prot flags fd offset _ refl fresh s
Step-IsSound mask {v} s (munmap kernel addr size) fresh =
    let m = darwin_munmap-Munmapped kernel v addr size s.unique in
    record {
      unique = m.unique_kept;
      slots = length-darwin_munmap kernel v addr size ∙ s.slots;
      same_mask = m.mask_kept ∙ s.same_mask;
    }

empty-Unique : Unique empty_table
empty-Unique = ground arith

-- After any sequence of calls, from the zeroed table, in which each mmap that succeeded mapped at an address that was
-- not tracked then: no address is tracked twice, the table has its 64 slots, and the signal mask is the one of
-- the start.
pub Reach-IsSound :
    (mask : ℕ) {vm : Vm} (calls : Reach (record { table = empty_table; mask = mask }) vm)
    → AllFresh calls
    → IsSound mask vm
Reach-IsSound mask here fresh = record { unique = empty-Unique; slots = refl; same_mask = refl }
Reach-IsSound mask (next r st) (fresh, now) = Step-IsSound mask (Reach-IsSound mask r fresh) st now
