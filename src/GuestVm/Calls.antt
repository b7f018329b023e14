-- ===== src/GuestVm/Calls.antt =====
-- `machgate_darwin_mmap` and `machgate_darwin_munmap`. The kernel is a parameter: `done v` is a call that
-- returns `v`, and `failed e` one that returns -1 with `errno` e; the results of the two functions are
-- read in the same way. A kernel call sees the signal mask and the number of the attempt.
pub mod Laws
use machgate.Base.{ℕ, zero, suc, ◌+◌, ◌==◌, leb, ltb, if◌then◌else◌, Bool, true, false, ◌&&◌, ◌||◌}
use machgate.Base.{bit_and, not, Option, some, none, ◌^◌, ◌-◌}
use machgate.GuestVm.Table.{Table, track_add, lookup, forget}

pub data KernelResult : Type 0 where
  done : ℕ → KernelResult
  failed : (errno : ℕ) → KernelResult

abbrev pub eintr : ℕ
eintr = 4

abbrev pub einval : ℕ
einval = 22

abbrev pub page_size : ℕ
page_size = 4096

abbrev pub map_anonymous : ℕ
map_anonymous = 0x20

-- `sigfillset`
abbrev pub all_signals : ℕ
all_signals = 2 ^ 64 - 1

pub record Vm : Type 0 where
  pub table : Table
  pub mask : ℕ

-- Which mappings the code tracks: those of less than a page at an address that the kernel chose.
abbrev pub is_tracked_kind : ℕ → ℕ → ℕ → Bool
is_tracked_kind addr length flags =
    (addr == 0)
    && (ltb 0 length && (ltb length page_size && not (bit_and flags map_anonymous == 0)))

unfoldable pub darwin_mmap :
    (ℕ → ℕ → ℕ → ℕ → ℕ → ℕ → KernelResult) → Vm → ℕ → ℕ → ℕ → ℕ → ℕ → ℕ → Vm × KernelResult
darwin_mmap kernel vm addr length prot flags fd offset =
    elim (kernel addr length prot flags fd offset) [
      | done result ↦ (
        (if is_tracked_kind addr length flags
            then record vm { table = track_add result length vm.table }
            else vm),
        done result,
      )
      | failed errno ↦ (vm, failed errno)
    ]

-- The `do … while` loop, by the attempts that are left after this one.
unfoldable pub attempts : (ℕ → ℕ → ℕ → ℕ → KernelResult) → ℕ → ℕ → ℕ → ℕ → ℕ → KernelResult
attempts kernel mask addr length zero tries = kernel mask tries addr length
attempts kernel mask addr length (suc left) tries =
    let again = attempts kernel mask addr length left (tries + 1) in
    elim (kernel mask tries addr length) [
      | done result ↦ done result
      | failed errno ↦ if errno == eintr then again else failed errno
    ]

abbrev pub is_tracked : Option ℕ → Bool
is_tracked none = false
is_tracked (some size) = true

-- After the loop and the restoring of the mask.
unfoldable pub finish_munmap : Vm → ℕ → ℕ → Bool → KernelResult → Vm × KernelResult
finish_munmap vm addr length tracked (done result) =
    ((if tracked then record vm { table = forget addr vm.table } else vm), done result)
finish_munmap vm addr length tracked (failed errno) = (
  vm,
  failed (
      if errno == eintr
      then (if tracked || (length == page_size) then einval else errno)
      else errno),
)

unfoldable pub darwin_munmap : (ℕ → ℕ → ℕ → ℕ → KernelResult) → Vm → ℕ → ℕ → Vm × KernelResult
darwin_munmap kernel vm addr length =
    let tracked = is_tracked (lookup addr vm.table) in
    let old_mask = vm.mask in
    let blocked = record vm { mask = all_signals } in
    let result = attempts kernel blocked.mask addr length 7 0 in
    let restored = record blocked { mask = old_mask } in
    if tracked && leb page_size length
    then (vm, failed einval)
    else finish_munmap restored addr length tracked result
