-- ===== src/Gate/Dispatch.antt =====
-- `syscall_gate_dispatch` of src/syscall/syscall_gate.c, with the guard of its writes. The kernel is a
-- parameter, and so are the handlers of src/syscall/syscall_range_*.c, which say whether they took the
-- call, by what they do to this state, the signal mask included; mmap and munmap never reach them. An `int` is its pattern of 32 bits.
pub mod Laws
pub mod Mappings
use machgate.Base.{ℕ, ◌==◌, if◌then◌else◌, Bool, true, false, ◌&&◌, not, u32, get_or}
use machgate.Base.{List, [], ◌∷◌, Option, some, none}
use machgate.GuestVm.Calls.{KernelResult, done, failed, Vm, darwin_mmap, darwin_munmap}
use machgate.GuestVm.Calls.Laws.{Kernel}
use machgate.GuestVm.RoundTrip.{MmapKernel}
use machgate.Gate.Flags.{translate_open_flags, translate_mmap_flags}
use machgate.Gate.State.{SyscallGateState, set_success, set_failure, finish_syscall_result, eio}
use machgate.Gate.Stat.{Stat, DarwinStat, linux_to_darwin_stat}

-- The dispositions of SIGPIPE.
pub data Disposition : Type 0 where
  sig_dfl sig_ign : Disposition
  handler : (address : ℕ) → Disposition

abbrev is_default : Disposition → Bool
is_default sig_dfl = true
is_default _ = false

-- The host's system calls; a write depends on the disposition of SIGPIPE.
pub record Host : Type 0 where
  pub sigaction_works : Bool
  pub read : (fd buffer size : ℕ) → KernelResult
  pub write : Disposition → (fd buffer size : ℕ) → KernelResult
  pub openat : (path flags mode : ℕ) → KernelResult
  pub close : (fd : ℕ) → KernelResult
  pub mprotect : (addr length prot : ℕ) → KernelResult
  pub lseek : (fd offset whence : ℕ) → KernelResult
  pub fstat : (fd : ℕ) → KernelResult
  pub stat_of : (fd : ℕ) → Stat
  pub mmap : MmapKernel
  pub munmap : Kernel

-- What a call can change: the registers, the mappings, SIGPIPE, and the structure that fstat fills.
pub record Process : Type 0 where
  pub state : SyscallGateState
  pub vm : Vm
  pub sigpipe : Disposition
  pub stat_at : Option (ℕ × DarwinStat)

pub data Outcome : Type 0 where
  exited : (status : ℕ) → Outcome
  returned : Process → Outcome

unfoldable pub write_syscall_with_sigpipe_guard :
    Host → Disposition → (fd buffer size : ℕ) → Disposition × KernelResult
write_syscall_with_sigpipe_guard host old fd buffer size =
    let changed = host.sigaction_works in
    let current = if changed then sig_ign else old in
    let result = host.write current fd buffer size in
    ((if changed && not (is_default old) then old else current), result)

pub data Call : Type 0 where
  sys_exit sys_read sys_write sys_open sys_close sys_munmap sys_mprotect : Call
  sys_fstat sys_mmap sys_lseek other : Call

-- The `switch` on x16.
unfoldable pub call_of : ℕ → Call
call_of number =
    if number == 1
    then sys_exit
    else if number == 3
    then sys_read
    else if number == 4
    then sys_write
    else if number == 5
    then sys_open
    else if number == 6
    then sys_close
    else if number == 73
    then sys_munmap
    else if number == 74
    then sys_mprotect
    else if number == 189
    then sys_fstat
    else if number == 197
    then sys_mmap
    else if number == 199
    then sys_lseek
    else other

abbrev pub darwin_enosys : ℕ
darwin_enosys = 78

abbrev pub Handler : Type 0
Handler = Process → Bool × Process

-- `||` of the handlers: each sees what the ones before it left.
unfoldable pub try_handlers : List Handler → Process → Bool × Process
try_handlers [] p = (false, p)
try_handlers (h ∷ hs) p = let rest = try_handlers hs (h p).1 in if (h p).0 then h p else rest

abbrev finished : Process → KernelResult → Outcome
finished p result = returned (record p { state = finish_syscall_result p.state result })

unfoldable pub finish_fstat : Process → (buffer : ℕ) → Stat → KernelResult → Process
finish_fstat p buffer stat (failed errno) = record p {
  state = set_failure p.state (if errno == 0 then eio else errno);
}
finish_fstat p buffer stat (done result) = record p {
  state = set_success p.state 0;
  stat_at = some (buffer, linux_to_darwin_stat stat);
}

abbrev x : Process → ℕ → ℕ
x p i = get_or p.state.x i 0

unfoldable pub dispatch_call : Host → List Handler → Call → Process → Outcome
dispatch_call host handlers sys_exit p = exited (u32 (x p 0))
dispatch_call host handlers sys_read p = finished p (host.read (u32 (x p 0)) (x p 1) (x p 2))
dispatch_call host handlers sys_write p =
    let (sigpipe, result) =
      write_syscall_with_sigpipe_guard host p.sigpipe (u32 (x p 0)) (x p 1) (x p 2) in
    finished (record p { sigpipe = sigpipe }) result
dispatch_call host handlers sys_open p =
    finished p (host.openat (x p 0) (translate_open_flags (u32 (x p 1))) (u32 (x p 2)))
dispatch_call host handlers sys_close p = finished p (host.close (u32 (x p 0)))
dispatch_call host handlers sys_munmap p =
    let (vm, result) = darwin_munmap host.munmap p.vm (x p 0) (x p 1) in
    finished (record p { vm = vm }) result
dispatch_call host handlers sys_mprotect p =
    finished p (host.mprotect (x p 0) (x p 1) (u32 (x p 2)))
dispatch_call host handlers sys_fstat p =
    let fd = u32 (x p 0) in returned (finish_fstat p (x p 1) (host.stat_of fd) (host.fstat fd))
dispatch_call host handlers sys_mmap p =
    let flags = translate_mmap_flags (u32 (x p 3)) in
    let (vm, result) =
      darwin_mmap host.mmap p.vm (x p 0) (x p 1) (u32 (x p 2)) flags (u32 (x p 4)) (x p 5) in
    finished (record p { vm = vm }) result
dispatch_call host handlers sys_lseek p =
    finished p (host.lseek (u32 (x p 0)) (x p 1) (u32 (x p 2)))
dispatch_call host handlers other p =
    let (taken, p') = try_handlers handlers p in
    if taken
    then returned p'
    else returned (record p' { state = set_failure p'.state darwin_enosys })

unfoldable pub dispatch : Host → List Handler → Process → Outcome
dispatch host handlers p = dispatch_call host handlers (call_of (x p 16)) p
