-- ===== src/Tests/Gateway.antt =====
-- The gateway: translated flags, and registers after a call that ends and one that fails.
use machgate.Base.{◌≡◌, refl, arith, replicate}
use machgate.Base.Bits.{bit}
use machgate.GuestVm.Calls.{failed, done}
use machgate.Gate.Flags.{translate_open_flags}
use machgate.Gate.Flags.{open_flag_source}
use machgate.Gate.Flags.{translate_open_flags-bit}
use machgate.Gate.State.{
  SyscallGateState, set_success, set_failure, finish_syscall_result, Finished,
}
use machgate.Gate.State.{finish_syscall_result-Finished}
use machgate.Base.{ℕ, ◌≢◌, none, true, false, [], ◌∷◌, ◌++◌, ◌+◌, ◌-◌}
use machgate.GuestVm.Table.{empty_table}
use machgate.Base.{List, length}
use machgate.Arm64.{enc_nop, enc_ret, branch_in_range}
use machgate.Gate.Pools.{
  Mmap, Pool, place_gate, patch_section, patch_instruction, choose_pool, find_gate_pool,
}
use machgate.Gate.Pools.Laws.{NoCalls, calls, patch_section-NoCalls}
use machgate.Gate.Stat.{Stat}
use machgate.Gate.Dispatch.{
  Host, Process, sig_dfl, call_of, sys_exit, sys_mmap, other, try_handlers, dispatch,
}
use machgate.Gate.Dispatch.Laws.{Answered, dispatch-Answered}
use machgate.Gate.Island.Run.{Machine, Callee, run_island}
use machgate.Gate.Island.Laws.{Resumed, entry, run_island-Resumed}

-- O_WRONLY with O_CREAT, O_TRUNC and O_CLOEXEC
open_run : translate_open_flags 0x1000601 ≡ 0x80241
unfolding translate_open_flags
open_run = refl

abbrev registers : SyscallGateState
registers = record { x = replicate 19 7; x30 = 0x1000; nzcv = 0xA0000000; pc = 0x2000 }

failed_run : (finish_syscall_result registers (failed 0)).nzcv ≡ 0xA0000000
unfolding finish_syscall_result set_failure
failed_run = refl

done_run : (finish_syscall_result registers (done 3)).nzcv ≡ 0x80000000
unfolding finish_syscall_result set_success
done_run = refl

translate_open_flags-bit_example :
    bit (translate_open_flags 0x1000601) 6 ≡ open_flag_source 0x1000601 6
translate_open_flags-bit_example = translate_open_flags-bit 0x1000601 6

finish_syscall_result-Finished_example :
    Finished registers (finish_syscall_result registers (failed 2)) (failed 2)
finish_syscall_result-Finished_example =
    finish_syscall_result-Finished registers (failed 2) (omega arith)

-- A guest that asks for 100 bytes of anonymous memory.
abbrev asking : Process
asking = record {
  state = record registers {
    x = 0 ∷ 100 ∷ 3 ∷ 0x1002 ∷ 0 ∷ 0 ∷ (replicate 10 0 ++ (197 ∷ 0 ∷ 0 ∷ []));
  };
  vm = record { table = empty_table; mask = 0 };
  sigpipe = sig_dfl;
  stat_at = none;
}

abbrev plain_stat : Stat
plain_stat = record {
  dev = 1;
  mode = 0x81A4;
  nlink = 1;
  ino = 2;
  uid = 0;
  gid = 0;
  rdev = 0;
  atim = (1, 0);
  mtim = (2, 0);
  ctim = (3, 0);
  size = 10;
  blocks = 8;
  blksize = 4096;
}

abbrev host : Host
host = record {
  sigaction_works = true;
  read = λ fd buffer size. done size;
  write = λ sigpipe fd buffer size. done size;
  openat = λ path flags mode. failed 2;
  close = λ fd. done 0;
  mprotect = λ addr length prot. done 0;
  lseek = λ fd offset whence. done offset;
  fstat = λ fd. done 0;
  stat_of = λ fd. plain_stat;
  mmap = λ addr length prot flags fd offset. done 0x7000;
  munmap = λ mask tries addr length. done 0;
}

asking_is_mmap : call_of 197 ≡ sys_mmap
unfolding call_of
asking_is_mmap = refl

not_exit : call_of 197 ≢ sys_exit
unfolding call_of
not_exit h = cc

not_other : call_of 197 ≡ other → try_handlers [] asking ≡ (false, asking)
unfolding call_of try_handlers
not_other h = refl

dispatch-Answered_example : Answered host asking (dispatch host [] asking)
dispatch-Answered_example = dispatch-Answered host [] asking (omega arith) not_exit not_other

-- A dispatcher that answers 9 in x0 and leaves 1 in every register that it may change.
abbrev nine : Callee
nine target x0 state = record { state = record state { x = 9 ∷ state.x }; regs = λ i. 1; nzcv = 0 }

abbrev guest : Machine
guest = record { regs = λ i. i + 100; nzcv = 0x60000000; sp = 0x10000; frame = λ i. 0; next = none }

run_island-Resumed_example :
    Resumed guest
      (run_island nine 0x5000 0x4000 guest)
      (nine 0x5000 (0x10000 - 192) (entry guest 0x4004)).state
run_island-Resumed_example =
    run_island-Resumed nine 0x5000 0x4000 guest (omega arith) (omega arith) (omega arith)

abbrev no_memory : Mmap
no_memory pools address size = none

abbrev one_pool : List Pool
one_pool = record { base = 0x100000; size = 0x40000; cur = 0x100000; end = 0x140000 } ∷ []

abbrev calling : List ℕ
calling = enc_nop ∷ 0xD4001001 ∷ enc_ret ∷ 0xD4001001 ∷ []

calling_runs : (patch_section no_memory 4096 0x5000 one_pool 0x80000 calling).ok ≡ true
unfolding patch_section patch_instruction choose_pool find_gate_pool branch_in_range place_gate
calling_runs = refl

patch_section-NoCalls_example :
    let r = patch_section no_memory 4096 0x5000 one_pool 0x80000 calling in
    NoCalls r.code × (r.patched ≡ calls calling) × (length r.islands ≡ calls calling)
patch_section-NoCalls_example =
    patch_section-NoCalls no_memory 4096 0x5000 one_pool 0x80000 calling calling_runs

-- Behind a pool without room.
abbrev two_pools : List Pool
two_pools = record { base = 0x60000; size = 0x10000; cur = 0x70000; end = 0x70000 } ∷ one_pool
