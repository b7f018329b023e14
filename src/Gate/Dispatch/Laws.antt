-- ===== src/Gate/Dispatch/Laws.antt =====
-- What the guest sees of a dispatched call, in its registers and in the disposition of SIGPIPE.
use machgate.Base.{
  ℕ, ◌<◌, ◌≡◌, ◌≢◌, refl, arith, sym, subst, if◌then◌else◌, Bool, true, false, length, List, get_or,
  u32,
}
use machgate.GuestVm.Calls.{KernelResult, done, failed, Vm, darwin_mmap, darwin_munmap}
use machgate.Gate.Flags.{translate_open_flags, translate_mmap_flags}
use machgate.Gate.State.{SyscallGateState, Finished, set_failure, finish_syscall_result}
use machgate.Gate.State.{finish_syscall_result-Finished}
use machgate.Gate.Dispatch.{
  Disposition, sig_dfl, sig_ign, handler, Host, Process, Outcome, returned, Call, sys_exit,
  sys_read, sys_write, sys_open, sys_close, sys_munmap, sys_mprotect, sys_fstat, sys_mmap,
  sys_lseek, other, call_of, Handler, try_handlers, finish_fstat, dispatch_call, dispatch,
  write_syscall_with_sigpipe_guard, darwin_enosys,
}

-- The numbers of the calls in x16.
abbrev pub Numbered : Call → ℕ → Type 0
Numbered sys_exit n = n ≡ 1
Numbered sys_read n = n ≡ 3
Numbered sys_write n = n ≡ 4
Numbered sys_open n = n ≡ 5
Numbered sys_close n = n ≡ 6
Numbered sys_munmap n = n ≡ 73
Numbered sys_mprotect n = n ≡ 74
Numbered sys_fstat n = n ≡ 189
Numbered sys_mmap n = n ≡ 197
Numbered sys_lseek n = n ≡ 199
Numbered other n =
    (n ≢ 1)
    × (n ≢ 3)
    × (n ≢ 4)
    × (n ≢ 5)
    × (n ≢ 6)
    × (n ≢ 73)
    × (n ≢ 74)
    × (n ≢ 189)
    × (n ≢ 197)
    × (n ≢ 199)

abbrev pub arg : Process → ℕ → ℕ
arg p i = get_or p.state.x i 0

-- The answer to the call with that number: the host's, on the arguments in the registers, `int` arguments as 32 bits and
-- flags translated; what the tracked mmap and munmap answer; and ENOSYS for every other number. While a write runs
-- SIGPIPE is ignored, if sigaction works. Of fstat, a success is 0.
pub data Serves (host : Host) (p : Process) : (number : ℕ) → KernelResult → Type 0 where
  read : Serves host p 3 (host.read (u32 (arg p 0)) (arg p 1) (arg p 2))
  write_ignoring :
      host.sigaction_works ≡ true
      → Serves host p 4 (host.write sig_ign (u32 (arg p 0)) (arg p 1) (arg p 2))
  write_as_is :
      host.sigaction_works ≡ false
      → Serves host p 4 (host.write p.sigpipe (u32 (arg p 0)) (arg p 1) (arg p 2))
  openat :
      Serves host p 5 (host.openat (arg p 0) (translate_open_flags (u32 (arg p 1))) (u32 (arg p 2)))
  close : Serves host p 6 (host.close (u32 (arg p 0)))
  munmap : Serves host p 73 (darwin_munmap host.munmap p.vm (arg p 0) (arg p 1)).1
  mprotect : Serves host p 74 (host.mprotect (arg p 0) (arg p 1) (u32 (arg p 2)))
  fstat_done : {v : ℕ} → host.fstat (u32 (arg p 0)) ≡ done v → Serves host p 189 (done 0)
  fstat_failed :
      {errno : ℕ} → host.fstat (u32 (arg p 0)) ≡ failed errno → Serves host p 189 (failed errno)
  mmap :
      Serves host p 197
        (darwin_mmap host.mmap p.vm
          (arg p 0)
          (arg p 1)
          (u32 (arg p 2))
          (translate_mmap_flags (u32 (arg p 3)))
          (u32 (arg p 4))
          (arg p 5)).1
  lseek : Serves host p 199 (host.lseek (u32 (arg p 0)) (arg p 1) (u32 (arg p 2)))
  enosys : {n : ℕ} → Numbered other n → Serves host p n (failed 78)

-- The call returned, with its answer in the registers.
pub data Answered (host : Host) (p : Process) : Outcome → Type 0 where
  answered :
      (p' : Process) (result : KernelResult)
      → Serves host p (arg p 16) result
      → Finished p.state p'.state result
      → Answered host p (returned p')

call_of-Numbered : (n : ℕ) → Numbered (call_of n) n
unfolding call_of
call_of-Numbered n = ground arith

fstat-Answered :
    (host : Host) (p : Process) (result : KernelResult)
    → arg p 16 ≡ 189
    → 0 < length p.state.x
    → host.fstat (u32 (arg p 0)) ≡ result
    → Answered host p (returned (finish_fstat p (arg p 1) (host.stat_of (u32 (arg p 0))) result))
unfolding finish_fstat finish_syscall_result
fstat-Answered host p (done v) n h e =
    answered _ (done 0) (subst (λ k. Serves host p k (done 0)) (sym n) (fstat_done e))
      (finish_syscall_result-Finished p.state (done 0) h)
fstat-Answered host p (failed errno) n h e =
    answered _ (failed errno) (subst (λ k. Serves host p k (failed errno)) (sym n) (fstat_failed e))
      (finish_syscall_result-Finished p.state (failed errno) h)

finish_enosys :
    (state : SyscallGateState)
    → 0 < length state.x
    → Finished state (set_failure state darwin_enosys) (failed darwin_enosys)
unfolding finish_syscall_result
finish_enosys state h = finish_syscall_result-Finished state (failed darwin_enosys) h

-- The call put its answer in the registers as it is.
finished-Answered :
    (host : Host) (p : Process) (vm : Vm) (sigpipe : Disposition) (k : ℕ) (result : KernelResult)
    → arg p 16 ≡ k
    → 0 < length p.state.x
    → Serves host p k result
    → Answered host p (
        returned
          (record p { state = finish_syscall_result p.state result; vm = vm; sigpipe = sigpipe }))
finished-Answered host p vm sigpipe k result n h serves =
    answered _ result (subst (λ m. Serves host p m result) (sym n) serves)
      (finish_syscall_result-Finished p.state result h)

write-Serves :
    (host : Host) (p : Process) (works : Bool)
    → host.sigaction_works ≡ works
    → Serves host p 4
        (host.write (if works then sig_ign else p.sigpipe) (u32 (arg p 0)) (arg p 1) (arg p 2))
write-Serves host p true e = write_ignoring e
write-Serves host p false e = write_as_is e

call-Answered :
    (host : Host) (handlers : List Handler) (call : Call) (p : Process)
    → Numbered call (arg p 16)
    → 0 < length p.state.x
    → call ≢ sys_exit
    → (call ≡ other → try_handlers handlers p ≡ (false, p))
    → Answered host p (dispatch_call host handlers call p)
unfolding dispatch_call write_syscall_with_sigpipe_guard
call-Answered host handlers sys_exit p n h live declined = absurd (live refl)
call-Answered host handlers sys_read p n h live declined =
    finished-Answered host p p.vm p.sigpipe 3 _ n h read
call-Answered host handlers sys_write p n h live declined =
    finished-Answered host p p.vm _ 4 _ n h (write-Serves host p host.sigaction_works refl)
call-Answered host handlers sys_open p n h live declined =
    finished-Answered host p p.vm p.sigpipe 5 _ n h openat
call-Answered host handlers sys_close p n h live declined =
    finished-Answered host p p.vm p.sigpipe 6 _ n h close
call-Answered host handlers sys_munmap p n h live declined =
    finished-Answered host p _ p.sigpipe 73 _ n h munmap
call-Answered host handlers sys_mprotect p n h live declined =
    finished-Answered host p p.vm p.sigpipe 74 _ n h mprotect
call-Answered host handlers sys_fstat p n h live declined = fstat-Answered host p _ n h refl
call-Answered host handlers sys_mmap p n h live declined =
    finished-Answered host p _ p.sigpipe 197 _ n h mmap
call-Answered host handlers sys_lseek p n h live declined =
    finished-Answered host p p.vm p.sigpipe 199 _ n h lseek
call-Answered host handlers other p n h live declined =
    rw (declined refl) (answered _ (failed darwin_enosys) (enosys n) (finish_enosys p.state h))

-- When the registers hold x0 at least, a call returns with its answer in x0 and the carry flag, the result or the error
-- number, and every other register and flag as it was. The answer is the one of the host's call for the number in x16,
-- on the arguments in the registers with their flags translated, or of the tracked mmap or munmap; for every other
-- number it is ENOSYS, if no handler takes the call or changes anything. An exit is excluded.
pub dispatch-Answered :
    (host : Host) (handlers : List Handler) (p : Process)
    → 0 < length p.state.x
    → call_of (get_or p.state.x 16 0) ≢ sys_exit
    → (call_of (get_or p.state.x 16 0) ≡ other → try_handlers handlers p ≡ (false, p))
    → Answered host p (dispatch host handlers p)
unfolding dispatch
dispatch-Answered host handlers p h live declined =
    call-Answered host handlers _ p (call_of-Numbered (arg p 16)) h live declined

-- What the guard leaves SIGPIPE as.
abbrev after_write : Disposition → Disposition
after_write sig_dfl = sig_ign
after_write old = old

-- The guarded write: if sigaction works, while the kernel writes SIGPIPE is ignored; afterwards a
-- handler and an ignored signal are as before, but the default disposition stays replaced.
write_guard_lem :
    (host : Host) (old : Disposition) (fd buffer size : ℕ)
    → host.sigaction_works ≡ true
    → write_syscall_with_sigpipe_guard host old fd buffer size
      ≡ (after_write old, host.write sig_ign fd buffer size)
unfolding write_syscall_with_sigpipe_guard
write_guard_lem host sig_dfl fd buffer size works = rw works refl
write_guard_lem host sig_ign fd buffer size works = rw works refl
write_guard_lem host (handler address) fd buffer size works = rw works refl
