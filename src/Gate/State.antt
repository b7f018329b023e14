-- ===== src/Gate/State.antt =====
-- The results of system calls in the registers of the guest, and the flags of its condition register.
use machgate.Base.{ℕ, ◌+◌, ◌*◌, ◌/◌, ◌%◌, ◌^◌, ◌<◌, ◌==◌, if◌then◌else◌, bit_and, bit_or, arith}
use machgate.Base.{List, length, set, get_elem?, some, ◌≡◌, ◌≢◌, refl, sym, u64}
use machgate.Base.{get_elem?-set_self, get_elem?-set_ne}
use machgate.Base.Bits.{bit, and_keep, and_skip, and_mask}
use machgate.Base.Bits.Flags.{bit-or, bit-two_pow_self, bit-two_pow_ne}
use machgate.GuestVm.Calls.{KernelResult, done, failed}

-- `x` holds the nineteen registers that the frame saves.
pub record SyscallGateState : Type 0 where
  pub x : List ℕ
  pub x30 : ℕ
  pub nzcv : ℕ
  pub pc : ℕ

abbrev pub syscall_gate_carry : ℕ
syscall_gate_carry = 0x20000000

abbrev pub eio : ℕ
eio = 5

-- The complement is taken at 32 bits.
unfoldable pub set_success : SyscallGateState → ℕ → SyscallGateState
set_success state result = record state {
  x = set state.x 0 (u64 result);
  nzcv = bit_and state.nzcv 0xDFFFFFFF;
}

unfoldable pub set_failure : SyscallGateState → ℕ → SyscallGateState
set_failure state err = record state {
  x = set state.x 0 err;
  nzcv = bit_or state.nzcv syscall_gate_carry;
}

unfoldable pub finish_syscall_result : SyscallGateState → KernelResult → SyscallGateState
finish_syscall_result state (done result) = set_success state result
finish_syscall_result state (failed errno) = set_failure state (if errno == 0 then eio else errno)

cleared : (n : ℕ) → bit_and n 0xDFFFFFFF ≡ n / 2 ^ 30 % 4 * 2 ^ 30 + n % 2 ^ 29
cleared n =
    omega (arith, and_keep 29 n 6, and_skip 1 (n / 2 ^ 29) 3, and_mask 2 (n / 2 ^ 29 / 2 ^ 1))

raised : (n k : ℕ) → k ≢ 29 → bit (bit_or n syscall_gate_carry) k ≡ bit n k
raised n k ne = omega (arith, bit-or k n (2 ^ 29), bit-two_pow_ne 29 k (λ e. ne (sym e)))

-- What a finished call leaves: its answer in x0 and the carry flag saying whether it failed.
abbrev pub answer : KernelResult → ℕ
answer (done result) = u64 result
answer (failed errno) = if errno == 0 then eio else errno

abbrev pub carry : KernelResult → ℕ
carry (done result) = 0
carry (failed errno) = 1

pub record Finished (state after : SyscallGateState) (result : KernelResult) : Type 0 where
  pub answered : get_elem? after.x 0 ≡ some (answer result)
  pub others : (i : ℕ) → i ≢ 0 → get_elem? after.x i ≡ get_elem? state.x i
  pub carry_flag : bit after.nzcv 29 ≡ carry result
  pub overflow_flag : bit after.nzcv 28 ≡ bit state.nzcv 28
  pub zero_flag : bit after.nzcv 30 ≡ bit state.nzcv 30
  pub negative_flag : bit after.nzcv 31 ≡ bit state.nzcv 31
  pub link : after.x30 ≡ state.x30
  pub resume : after.pc ≡ state.pc

-- When the registers hold x0 at least, finishing a call puts the result in x0, or the error number, EIO
-- for an error without one; the carry flag is clear on success and set on failure; the other registers,
-- the flags N, Z and V, the link register and the program counter keep their values.
pub finish_syscall_result-Finished :
    (state : SyscallGateState) (result : KernelResult)
    → 0 < length state.x
    → Finished state (finish_syscall_result state result) result
unfolding finish_syscall_result set_success set_failure
finish_syscall_result-Finished state (done result) h = record {
  answered = get_elem?-set_self state.x 0 _ h;
  others = λ i ne. get_elem?-set_ne state.x 0 i _ (λ e. ne (sym e));
  carry_flag = omega (arith, cleared state.nzcv);
  overflow_flag = omega (arith, cleared state.nzcv);
  zero_flag = omega (arith, cleared state.nzcv);
  negative_flag = omega (arith, cleared state.nzcv);
  link = refl;
  resume = refl;
}
finish_syscall_result-Finished state (failed errno) h = record {
  answered = get_elem?-set_self state.x 0 _ h;
  others = λ i ne. get_elem?-set_ne state.x 0 i _ (λ e. ne (sym e));
  carry_flag = omega (arith, bit-or 29 state.nzcv (2 ^ 29), bit-two_pow_self 29);
  overflow_flag = raised state.nzcv 28 (omega arith);
  zero_flag = raised state.nzcv 30 (omega arith);
  negative_flag = raised state.nzcv 31 (omega arith);
  link = refl;
  resume = refl;
}
