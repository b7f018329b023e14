-- ===== src/Arm64.antt =====
-- src/arm64_enc.h: the branch instructions B and BL. A `uint32_t*` is the index of the word that it
-- points to, so that pointer differences count words as in C.
pub mod Branch
use machgate.Base.{ℕ, bit_and, bit_or, ◌<<<◌, ◌==◌, ℤ, pos, int_to_u32, shr_ℤ, low_bits, neg_ℕ}
use machgate.Base.{leb_ℤ, ltb_ℤ, Bool, false, ◌&&◌, if◌then◌else◌}

abbrev pub enc_nop : ℕ
enc_nop = 0xD503201F

abbrev pub enc_ret : ℕ
enc_ret = 0xD65F03C0

unfoldable pub enc_b : ℤ → ℕ
enc_b word_offset = bit_or 0x14000000 (bit_and (int_to_u32 word_offset) 0x03FFFFFF)

unfoldable pub enc_bl : ℤ → ℕ
enc_bl word_offset = bit_or 0x94000000 (bit_and (int_to_u32 word_offset) 0x03FFFFFF)

-- `byte_offset & 3` is false when it is 0.
unfoldable pub branch_in_range : ℤ → Bool
branch_in_range byte_offset =
    let word_offset = shr_ℤ byte_offset 2 in
    if low_bits byte_offset 2 == 0
    then leb_ℤ (neg_ℕ (1 <<< 25)) word_offset && ltb_ℤ word_offset (pos (1 <<< 25))
    else false
