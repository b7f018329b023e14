-- ===== src/Gate/Island/Laws.antt =====
-- The island saves the guest's registers in the layout of the structure, calls the dispatcher on it and
-- resumes the guest from it.
use machgate.Base.{
  ℕ, ◌+◌, ◌-◌, ◌*◌, ◌/◌, ◌^◌, ◌<◌, ◌≤◌, ◌≡◌, refl, arith, List, [], ◌∷◌, map, get_or, length,
}
use mathlib.Core.Path.{subst₂}
use machgate.Base.{some, u32}
use machgate.Gate.State.{SyscallGateState}
use machgate.Gate.Island.{encode, emit_island, island_size}
use machgate.Gate.Island.Run.{Machine, Callee, saved, flags_of, exec, run, run_island}

-- The registers that come back from the structure, and those that a call keeps.
abbrev pub restored : List ℕ
restored = 0 ∷ 1 ∷ 2 ∷ 3 ∷ 4 ∷ 5 ∷ 6 ∷ 7 ∷ 8 ∷ 9 ∷ 10 ∷ 11 ∷ 12 ∷ 13 ∷ 14 ∷ 15 ∷ 17 ∷ 18 ∷ []

abbrev pub callee_saved : List ℕ
callee_saved = 19 ∷ 20 ∷ 21 ∷ 22 ∷ 23 ∷ 24 ∷ 25 ∷ 26 ∷ 27 ∷ 28 ∷ 29 ∷ []

-- The structure that the dispatcher sees.
abbrev pub entry : Machine → ℕ → SyscallGateState
entry m resume = record { x = map m.regs saved; x30 = m.regs 30; nzcv = m.nzcv; pc = resume }

pub record Resumed (m m' : Machine) (state : SyscallGateState) : Type 0 where
  pub registers : map m'.regs restored ≡ map (λ i. get_or state.x i 0) restored
  pub preserved : map m'.regs callee_saved ≡ map m.regs callee_saved
  pub link : m'.regs 30 ≡ state.x30
  pub scratch : m'.regs 16 ≡ state.pc
  pub flags : m'.nzcv ≡ flags_of state.nzcv
  pub stack : m'.sp ≡ m.sp
  pub resumes : m'.next ≡ some state.pc

joined : (value : ℕ) → value < 2 ^ 64 → u32 value + u32 (value / 2 ^ 32) * 2 ^ 32 ≡ value
joined value h = omega arith

-- The island, with the values that its two literals are loaded as.
island_literals :
    (call : Callee) (dispatcher original : ℕ) (m : Machine)
    → 192 ≤ m.sp
    → let target = u32 dispatcher + u32 (dispatcher / 2 ^ 32) * 2 ^ 32 in
      let resume = u32 (original + 4) + u32 ((original + 4) / 2 ^ 32) * 2 ^ 32 in
      Resumed m
        (run_island call dispatcher original m)
        (call target (m.sp - 192) (entry m resume)).state
unfolding run_island run exec emit_island encode
island_literals call dispatcher original m h = record {
  registers = refl;
  preserved = refl;
  link = refl;
  scratch = refl;
  flags = refl;
  stack = omega arith;
  resumes = refl;
}

-- For 64-bit addresses and a stack pointer of at least 192, run in place of a system call, the island
-- gives the dispatcher x0 to x18, x30, NZCV and the address
-- of the next instruction, in a structure 192 bytes below the stack pointer. When the dispatcher
-- returns, the guest goes on at the address of the structure, with x0 to x15, x17, x18, x30 and the
-- flags of the structure, that address in x16, and x19 to x29 and the stack pointer as they were.
pub run_island-Resumed :
    (call : Callee) (dispatcher original : ℕ) (m : Machine)
    → dispatcher < 2 ^ 64
    → original + 4 < 2 ^ 64
    → 192 ≤ m.sp
    → Resumed m
        (run_island call dispatcher original m)
        (call dispatcher (m.sp - 192) (entry m (original + 4))).state
run_island-Resumed call dispatcher original m hd ho h =
    subst₂
      (λ target resume.
        Resumed m (run_island call dispatcher original m)
          (call target (m.sp - 192) (entry m resume)).state)
      (joined dispatcher hd) (joined (original + 4) ho)
      (island_literals call dispatcher original m h)

-- A gate's island fills its 96 words exactly.
pub length-emit_gate :
    (dispatcher original : ℕ) → length (emit_island dispatcher original) ≡ island_size
unfolding emit_island encode
length-emit_gate dispatcher original = refl
