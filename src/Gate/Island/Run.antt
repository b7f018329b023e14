-- ===== src/Gate/Island/Run.antt =====
-- What the processor does with the instructions of a gate's island. The frame is the memory from the
-- lowered stack pointer up, in slots of 8 bytes. A call is a parameter: from its target, x0 and the
-- structure at x0 it makes what it leaves in that structure and in the registers it may change.
use machgate.Base.{ℕ, ◌+◌, ◌-◌, ◌*◌, ◌/◌, ◌%◌, ◌^◌, ◌==◌, ltb, if◌then◌else◌, ◌||◌, Option, some}
use machgate.Base.{List, [], ◌∷◌, map, get_or}
use machgate.Gate.State.{SyscallGateState}
use machgate.Gate.Island.{
  GateInsn, stp_sp, ldp_sp, str_sp, ldr_sp, sub_sp, add_sp, mrs_nzcv, msr_nzcv, add_x0_sp_0,
  ldr_literal, blr, br, instructions, emit_island,
}

pub record Machine : Type 0 where
  pub regs : ℕ → ℕ
  pub nzcv : ℕ
  pub sp : ℕ
  pub frame : ℕ → ℕ
  pub next : Option ℕ

pub record Returned : Type 0 where
  pub state : SyscallGateState
  pub regs : ℕ → ℕ
  pub nzcv : ℕ

abbrev pub Callee : Type 0
Callee = (target x0 : ℕ) → SyscallGateState → Returned

abbrev pub put : (ℕ → ℕ) → ℕ → ℕ → ℕ → ℕ
put f i v = λ j. if j == i then v else f j

-- x0 to x18.
abbrev pub saved : List ℕ
saved = 0 ∷ 1 ∷ 2 ∷ 3 ∷ 4 ∷ 5 ∷ 6 ∷ 7 ∷ 8 ∷ 9 ∷ 10 ∷ 11 ∷ 12 ∷ 13 ∷ 14 ∷ 15 ∷ 16 ∷ 17 ∷ 18 ∷ []

-- `struct syscall_gate_state`, by its layout.
abbrev pub read_state : (ℕ → ℕ) → SyscallGateState
read_state frame = record { x = map frame saved; x30 = frame 19; nzcv = frame 20; pc = frame 21 }

abbrev pub write_state : SyscallGateState → (ℕ → ℕ) → ℕ → ℕ
write_state state frame i =
    if ltb i 19
    then get_or state.x i 0
    else if i == 19
    then state.x30
    else if i == 20
    then state.nzcv
    else if i == 21
    then state.pc
    else frame i

-- The procedure call standard leaves x19 to x29 and the stack pointer as they were.
abbrev pub after_call : Machine → Returned → Machine
after_call m r = record m {
  regs = λ i. if ltb i 19 || (i == 30) then r.regs i else m.regs i;
  nzcv = r.nzcv;
  frame = write_state r.state m.frame;
}

-- The flags that NZCV holds: bits 28 to 31.
abbrev pub flags_of : ℕ → ℕ
flags_of value = value / 2 ^ 28 % 16 * 2 ^ 28

-- One instruction, at word `n` of the island.
unfoldable pub exec : Callee → List ℕ → ℕ → GateInsn → Machine → Machine
exec call words n (stp_sp rt rt2 offset) m = record m {
  frame = put (put m.frame (offset / 8) (m.regs rt)) (offset / 8 + 1) (m.regs rt2);
}
exec call words n (ldp_sp rt rt2 offset) m = record m {
  regs = put (put m.regs rt (m.frame (offset / 8))) rt2 (m.frame (offset / 8 + 1));
}
exec call words n (str_sp rt offset) m = record m { frame = put m.frame (offset / 8) (m.regs rt) }
exec call words n (ldr_sp rt offset) m = record m { regs = put m.regs rt (m.frame (offset / 8)) }
exec call words n (sub_sp imm) m = record m { sp = m.sp - imm }
exec call words n (add_sp imm) m = record m { sp = m.sp + imm }
exec call words n (mrs_nzcv rt) m = record m { regs = put m.regs rt m.nzcv }
exec call words n (msr_nzcv rt) m = record m { nzcv = flags_of (m.regs rt) }
exec call words n add_x0_sp_0 m = record m { regs = put m.regs 0 m.sp }
exec call words n (ldr_literal rt word_offset) m = record m {
  regs =
      put m.regs rt
        (get_or words (n + word_offset) 0 + get_or words (n + word_offset + 1) 0 * 2 ^ 32);
}
exec call words n (blr rn) m = after_call m (call (m.regs rn) (m.regs 0) (read_state m.frame))
exec call words n (br rn) m = record m { next = some (m.regs rn) }

unfoldable pub run : Callee → List ℕ → ℕ → List GateInsn → Machine → Machine
run call words n [] m = m
run call words n (insn ∷ insns) m = run call words (n + 1) insns (exec call words n insn m)

unfoldable pub run_island : Callee → (dispatcher original : ℕ) → Machine → Machine
run_island call dispatcher original m = run call (emit_island dispatcher original) 0 instructions m
