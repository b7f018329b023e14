-- ===== src/Arm64/Branch.antt =====
-- What a processor does with the words of `enc_b` and `enc_bl`.
use machgate.Base.{ℕ, ◌+◌, ◌-◌, ◌*◌, ◌/◌, ◌%◌, ◌^◌, ◌≤◌, ◌<◌, ltb, if◌then◌else◌}
use machgate.Base.{◌≡◌, true, ℤ, sub_ℕ, shr_ℤ, int_to_u32, arith}
use machgate.Base.Bits.{or-and_mask}
use machgate.Arm64.{enc_b, enc_bl, branch_in_range}

-- The architecture's reading of B and BL: the top six bits are the opcode, the rest is a signed
-- word offset from the instruction's own address.
abbrev pub opcode : ℕ → ℕ
opcode instr = instr / 2 ^ 26

abbrev pub branch_target : ℕ → ℕ → ℕ
branch_target pc instr =
    let imm26 = instr % 2 ^ 26 in if ltb imm26 (2 ^ 25) then pc + imm26 else pc + imm26 - 2 ^ 26

pub enc_b_sum : (off : ℤ) → enc_b off ≡ 5 * 2 ^ 26 + int_to_u32 off % 2 ^ 26
unfolding enc_b
enc_b_sum off = or-and_mask 26 5 (int_to_u32 off)

enc_bl_sum : (off : ℤ) → enc_bl off ≡ 37 * 2 ^ 26 + int_to_u32 off % 2 ^ 26
unfolding enc_bl
enc_bl_sum off = or-and_mask 26 37 (int_to_u32 off)

-- The 26-bit field holds every offset of 2 ^ 25 words either way.
abbrev pub InReach : ℕ → ℕ → Type 0
InReach pc target = (target < pc + 2 ^ 25) × (pc ≤ target + 2 ^ 25)

field_target :
    (k pc target instr : ℕ)
    → InReach pc target
    → instr ≡ k * 2 ^ 26 + int_to_u32 (sub_ℕ target pc) % 2 ^ 26
    → (opcode instr ≡ k) × (branch_target pc instr ≡ target)
field_target k pc target instr h e = ground arith

pub enc_b-target :
    (pc target : ℕ)
    → InReach pc target
    → (opcode (enc_b (sub_ℕ target pc)) ≡ 5) × (branch_target pc (enc_b (sub_ℕ target pc)) ≡ target)
enc_b-target pc target h = field_target 5 pc target _ h (enc_b_sum (sub_ℕ target pc))

pub enc_bl-target :
    (pc target : ℕ)
    → InReach pc target
    → (opcode (enc_bl (sub_ℕ target pc)) ≡ 37)
      × (branch_target pc (enc_bl (sub_ℕ target pc)) ≡ target)
enc_bl-target pc target h = field_target 37 pc target _ h (enc_bl_sum (sub_ℕ target pc))

-- The same at byte addresses, as `b` and `bl` lines of a patch file use it.
abbrev pub byte_target : ℕ → ℕ → ℕ
byte_target pc instr =
    let imm26 = instr % 2 ^ 26 in
    if ltb imm26 (2 ^ 25) then pc + imm26 * 4 else pc + imm26 * 4 - 2 ^ 28

in_range_target :
    (k pc target instr : ℕ)
    → branch_in_range (sub_ℕ target pc) ≡ true
    → instr ≡ k * 2 ^ 26 + int_to_u32 (shr_ℤ (sub_ℕ target pc) 2) % 2 ^ 26
    → (opcode instr ≡ k) × (byte_target pc instr ≡ target)
unfolding branch_in_range
in_range_target k pc target instr h e = ground arith

-- If `arm64_branch_in_range` accepts the distance from `pc` to `target`, then the words that
-- `enc_b` and `enc_bl` make of it are a B and a BL at `pc` to `target`.
pub branch_in_range-reaches :
    (pc target : ℕ)
    → branch_in_range (sub_ℕ target pc) ≡ true
    → let off = shr_ℤ (sub_ℕ target pc) 2 in
      (opcode (enc_b off) ≡ 5)
      × (byte_target pc (enc_b off) ≡ target)
      × (opcode (enc_bl off) ≡ 37)
      × (byte_target pc (enc_bl off) ≡ target)
branch_in_range-reaches pc target h =
    let off : ℤ = shr_ℤ (sub_ℕ target pc) 2 in
    let b = in_range_target 5 pc target (enc_b off) h (enc_b_sum off) in
    let bl = in_range_target 37 pc target (enc_bl off) h (enc_bl_sum off) in (b.0, b.1, bl.0, bl.1)

-- `arm64_branch_in_range` accepts every distance that some instruction word reaches from a `pc`
-- of at least 2 ^ 27, so it refuses no branch that can be encoded.
branch_in_range_complete :
    (pc instr : ℕ) → 2 ^ 27 ≤ pc → branch_in_range (sub_ℕ (byte_target pc instr) pc) ≡ true
unfolding branch_in_range
branch_in_range_complete pc instr h = ground arith
