-- ===== src/Isa/Insn.antt =====
-- The instruction encoders of src/isa_emul.c. An instruction of an island is kept as the call of the
-- encoder that writes it, and `encode` gives the word.
use machgate.Base.{ℕ, ◌<<<◌, bit_and, bit_or, ◌==◌, if◌then◌else◌, Bool, ℤ, int_to_u32}
use machgate.Arm64.{enc_b}

abbrev pub cond_gt : ℕ
cond_gt = 0xC

abbrev pub cond_lt : ℕ
cond_lt = 0xB

abbrev pub cond_hi : ℕ
cond_hi = 0x8

abbrev pub cond_lo : ℕ
cond_lo = 0x3

abbrev pub cond_ne : ℕ
cond_ne = 0x1

-- Registers are numbers; `b_cond` and `clrex` are the two words that the code writes out.
pub data Insn : Type 0 where
  cbnz_w : (rt : ℕ) (word_offset : ℤ) → Insn
  str_pre ldr_post mrs_nzcv msr_nzcv : (rt : ℕ) → Insn
  ldxr : (size acquire rt rn : ℕ) → Insn
  stxr : (size release rs rt rn : ℕ) → Insn
  add bic eor orr : (is64 : Bool) (rd rn rm : ℕ) → Insn
  cmp : (is64 : Bool) (rn rm : ℕ) → Insn
  csel : (is64 : Bool) (rd rn rm cond : ℕ) → Insn
  mov : (is64 : Bool) (rd rn : ℕ) → Insn
  sxtb sxth : (rd rn : ℕ) → Insn
  b_cond : (words cond : ℕ) → Insn
  clrex : Insn
  b : (word_offset : ℤ) → Insn
  neon_bic neon_eor : (vd vn vm : ℕ) → Insn
  str_q_pre ldr_q_post : (vt : ℕ) → Insn

infixr 60 ◌∣∣◌
abbrev ◌∣∣◌ : ℕ → ℕ → ℕ
x ∣∣ y = bit_or x y

-- `enc_add`, `enc_bic`, `enc_eor` and `enc_orr` differ in their two base words.
abbrev three_registers : ℕ → ℕ → Bool → ℕ → ℕ → ℕ → ℕ
three_registers base64 base32 is64 rd rn rm =
    (if is64 then base64 else base32) ∣∣ (rm <<< 16) ∣∣ (rn <<< 5) ∣∣ rd

-- The exclusive accesses set bit 15 for their acquiring and releasing forms.
abbrev exclusive_base : ℕ → ℕ → ℕ
exclusive_base base ordered = if ordered == 0 then base else base ∣∣ (1 <<< 15)

unfoldable pub encode : Insn → ℕ
encode (cbnz_w rt word_offset) =
    0x35000000 ∣∣ (bit_and (int_to_u32 word_offset) 0x7FFFF <<< 5) ∣∣ rt
encode (str_pre rt) = 0xF81F0FE0 ∣∣ rt
encode (ldr_post rt) = 0xF84107E0 ∣∣ rt
encode (mrs_nzcv rt) = 0xD53B4200 ∣∣ rt
encode (msr_nzcv rt) = 0xD51B4200 ∣∣ rt
encode (ldxr size acquire rt rn) =
    exclusive_base 0x08407C00 acquire ∣∣ (size <<< 30) ∣∣ (rn <<< 5) ∣∣ rt
encode (stxr size release rs rt rn) =
    exclusive_base 0x08007C00 release ∣∣ (size <<< 30) ∣∣ (rs <<< 16) ∣∣ (rn <<< 5) ∣∣ rt
encode (add is64 rd rn rm) = three_registers 0x8B000000 0x0B000000 is64 rd rn rm
encode (bic is64 rd rn rm) = three_registers 0x8A200000 0x0A200000 is64 rd rn rm
encode (eor is64 rd rn rm) = three_registers 0xCA000000 0x4A000000 is64 rd rn rm
encode (orr is64 rd rn rm) = three_registers 0xAA000000 0x2A000000 is64 rd rn rm
encode (cmp is64 rn rm) = three_registers 0xEB000000 0x6B000000 is64 31 rn rm
encode (csel is64 rd rn rm cond) =
    (if is64 then 0x9A800000 else 0x1A800000) ∣∣ (rm <<< 16) ∣∣ (cond <<< 12) ∣∣ (rn <<< 5) ∣∣ rd
encode (mov is64 rd rn) = three_registers 0xAA000000 0x2A000000 is64 rd 31 rn
encode (sxtb rd rn) = 0x13001C00 ∣∣ (rn <<< 5) ∣∣ rd
encode (sxth rd rn) = 0x13003C00 ∣∣ (rn <<< 5) ∣∣ rd
encode (b_cond words cond) = 0x54000000 ∣∣ (words <<< 5) ∣∣ cond
encode clrex = 0xD5033F5F
encode (b word_offset) = enc_b word_offset
encode (neon_bic vd vn vm) = 0x4E601C00 ∣∣ (vm <<< 16) ∣∣ (vn <<< 5) ∣∣ vd
encode (neon_eor vd vn vm) = 0x6E201C00 ∣∣ (vm <<< 16) ∣∣ (vn <<< 5) ∣∣ vd
encode (str_q_pre vt) = 0x3C9F0FE0 ∣∣ vt
encode (ldr_q_post vt) = 0x3CC107E0 ∣∣ vt
