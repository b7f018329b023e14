-- ===== src/Gate/Island.antt =====
-- The encoders and `emit_island` of src/syscall/syscall_gate.c. An instruction is kept as the call of
-- the encoder that writes it, and `encode` gives the word. Addresses are those of bytes.
pub mod Run
pub mod Laws
use machgate.Base.{ℕ, ◌+◌, ◌-◌, ◌*◌, ◌/◌, ◌%◌, ◌^◌, ◌<<<◌, bit_and, bit_or, u32}
use machgate.Base.{List, [], ◌∷◌, ◌++◌, length, map, replicate}
use machgate.Arm64.{enc_nop}

pub data GateInsn : Type 0 where
  stp_sp ldp_sp : (rt rt2 offset : ℕ) → GateInsn
  str_sp ldr_sp : (rt offset : ℕ) → GateInsn
  sub_sp add_sp : (imm : ℕ) → GateInsn
  mrs_nzcv msr_nzcv : (rt : ℕ) → GateInsn
  add_x0_sp_0 : GateInsn
  ldr_literal : (rt word_offset : ℕ) → GateInsn
  blr br : (rn : ℕ) → GateInsn

infixr 60 ◌∣∣◌
abbrev ◌∣∣◌ : ℕ → ℕ → ℕ
x ∣∣ y = bit_or x y

unfoldable pub encode : GateInsn → ℕ
encode (stp_sp rt rt2 offset) =
    0xA9000000 ∣∣ ((offset / 8) <<< 15) ∣∣ (rt2 <<< 10) ∣∣ (31 <<< 5) ∣∣ rt
encode (ldp_sp rt rt2 offset) =
    0xA9400000 ∣∣ ((offset / 8) <<< 15) ∣∣ (rt2 <<< 10) ∣∣ (31 <<< 5) ∣∣ rt
encode (str_sp rt offset) = 0xF9000000 ∣∣ ((offset / 8) <<< 10) ∣∣ (31 <<< 5) ∣∣ rt
encode (ldr_sp rt offset) = 0xF9400000 ∣∣ ((offset / 8) <<< 10) ∣∣ (31 <<< 5) ∣∣ rt
encode (sub_sp imm) = 0xD10003FF ∣∣ (imm <<< 10)
encode (add_sp imm) = 0x910003FF ∣∣ (imm <<< 10)
encode (mrs_nzcv rt) = 0xD53B4200 ∣∣ rt
encode (msr_nzcv rt) = 0xD51B4200 ∣∣ rt
encode add_x0_sp_0 = 0x910003E0
encode (ldr_literal rt word_offset) = 0x58000000 ∣∣ (bit_and word_offset 0x7FFFF <<< 5) ∣∣ rt
encode (blr rn) = 0xD63F0000 ∣∣ (rn <<< 5)
encode (br rn) = 0xD61F0000 ∣∣ (rn <<< 5)

abbrev pub island_size : ℕ
island_size = 96

-- The places of the two literals, in words from the start of the island.
abbrev pub dispatcher_literal : ℕ
dispatcher_literal = island_size - 4

abbrev pub resume_literal : ℕ
resume_literal = island_size - 2

-- What the code writes before the call of the dispatcher; a literal is loaded by its distance.
abbrev pub saves : List GateInsn
saves =
    sub_sp 192
    ∷ stp_sp 0 1 0
    ∷ stp_sp 2 3 16
    ∷ stp_sp 4 5 32
    ∷ stp_sp 6 7 48
    ∷ stp_sp 8 9 64
    ∷ stp_sp 10 11 80
    ∷ stp_sp 12 13 96
    ∷ stp_sp 14 15 112
    ∷ stp_sp 16 17 128
    ∷ str_sp 18 144
    ∷ str_sp 30 152
    ∷ mrs_nzcv 16
    ∷ str_sp 16 160
    ∷ ldr_literal 16 (resume_literal - 14)
    ∷ str_sp 16 168
    ∷ add_x0_sp_0
    ∷ ldr_literal 16 (dispatcher_literal - 17)
    ∷ blr 16
    ∷ []

-- And after it.
abbrev pub restores : List GateInsn
restores =
    ldp_sp 1 2 8
    ∷ ldp_sp 3 4 24
    ∷ ldp_sp 5 6 40
    ∷ ldp_sp 7 8 56
    ∷ ldp_sp 9 10 72
    ∷ ldp_sp 11 12 88
    ∷ ldp_sp 13 14 104
    ∷ ldr_sp 15 120
    ∷ ldr_sp 17 136
    ∷ ldr_sp 18 144
    ∷ ldr_sp 30 152
    ∷ ldr_sp 16 160
    ∷ msr_nzcv 16
    ∷ ldr_sp 0 0
    ∷ ldr_sp 16 168
    ∷ add_sp 192
    ∷ br 16
    ∷ []

abbrev pub instructions : List GateInsn
instructions = saves ++ restores

-- A 64-bit value as `memcpy` lays it out in two words.
abbrev pub literal : ℕ → List ℕ
literal value = u32 value ∷ u32 (value / 2 ^ 32) ∷ []

-- The island of an instruction, for the address of `syscall_gate_dispatch`.
unfoldable pub emit_island : (dispatcher original : ℕ) → List ℕ
emit_island dispatcher original =
    map encode instructions
    ++ replicate (dispatcher_literal - length instructions) enc_nop
    ++ literal dispatcher
    ++ literal (original + 4)
