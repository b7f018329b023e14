-- ===== src/Isa/Decode/Masks.antt =====
-- The masks that the decoders of src/isa_emul.c put on a word, as arithmetic on its fields.
use machgate.Base.{ℕ, ◌+◌, ◌*◌, ◌/◌, ◌%◌, ◌^◌, ◌≡◌, bit_and, arith}
use machgate.Base.Bits.{and_skip, and_keep, and_mask}

pub lse_mask :
    (a : ℕ)
    → bit_and a 0x3F200C00
      ≡ a / 2 ^ 24 % 64 * 2 ^ 24 + a / 2 ^ 21 % 2 * 2 ^ 21 + a / 2 ^ 10 % 4 * 2 ^ 10
lse_mask a =
    let b : ℕ = a / 2 ^ 10 in
    let c : ℕ = b / 2 ^ 2 in
    let d : ℕ = c / 2 ^ 9 in
    let e : ℕ = d / 2 ^ 1 in
    let e1 : bit_and a 0x3F200C00 ≡ bit_and b 0xFC803 * 2 ^ 10 = and_skip 10 a 0xFC803 in
    let e2 : bit_and b 0xFC803 ≡ bit_and c 0x3F200 * 2 ^ 2 + b % 2 ^ 2 = and_keep 2 b 0x3F200 in
    let e3 : bit_and c 0x3F200 ≡ bit_and d 0x1F9 * 2 ^ 9 = and_skip 9 c 0x1F9 in
    let e4 : bit_and d 0x1F9 ≡ bit_and e 0xFC * 2 ^ 1 + d % 2 ^ 1 = and_keep 1 d 0xFC in
    let e5 : bit_and e 0xFC ≡ bit_and (e / 2 ^ 2) 0x3F * 2 ^ 2 = and_skip 2 e 0x3F in
    let e6 : bit_and (e / 2 ^ 2) 0x3F ≡ e / 2 ^ 2 % 2 ^ 6 = and_mask 6 (e / 2 ^ 2) in omega arith

-- 0x3FA07C00: bits 29 to 23, 21, and 14 to 10.
pub cas_mask :
    (a : ℕ)
    → bit_and a 0x3FA07C00
      ≡ a / 2 ^ 23 % 128 * 2 ^ 23 + a / 2 ^ 21 % 2 * 2 ^ 21 + a / 2 ^ 10 % 32 * 2 ^ 10
cas_mask a =
    let b : ℕ = a / 2 ^ 10 in
    let c : ℕ = b / 2 ^ 5 in
    let d : ℕ = c / 2 ^ 6 in
    let e : ℕ = d / 2 ^ 1 in
    let e1 : bit_and a 0x3FA07C00 ≡ bit_and b 0xFE81F * 2 ^ 10 = and_skip 10 a 0xFE81F in
    let e2 : bit_and b 0xFE81F ≡ bit_and c 0x7F40 * 2 ^ 5 + b % 2 ^ 5 = and_keep 5 b 0x7F40 in
    let e3 : bit_and c 0x7F40 ≡ bit_and d 0x1FD * 2 ^ 6 = and_skip 6 c 0x1FD in
    let e4 : bit_and d 0x1FD ≡ bit_and e 0xFE * 2 ^ 1 + d % 2 ^ 1 = and_keep 1 d 0xFE in
    let e5 : bit_and e 0xFE ≡ bit_and (e / 2 ^ 1) 0x7F * 2 ^ 1 = and_skip 1 e 0x7F in
    let e6 : bit_and (e / 2 ^ 1) 0x7F ≡ e / 2 ^ 1 % 2 ^ 7 = and_mask 7 (e / 2 ^ 1) in omega arith

-- 0xFFE08000: bits 31 to 21, and 15.
pub bcax_mask :
    (a : ℕ) → bit_and a 0xFFE08000 ≡ a / 2 ^ 21 % 2048 * 2 ^ 21 + a / 2 ^ 15 % 2 * 2 ^ 15
bcax_mask a =
    let b : ℕ = a / 2 ^ 15 in
    let c : ℕ = b / 2 ^ 1 in
    let e1 : bit_and a 0xFFE08000 ≡ bit_and b 0x1FFC1 * 2 ^ 15 = and_skip 15 a 0x1FFC1 in
    let e2 : bit_and b 0x1FFC1 ≡ bit_and c 0xFFE0 * 2 ^ 1 + b % 2 ^ 1 = and_keep 1 b 0xFFE0 in
    let e3 : bit_and c 0xFFE0 ≡ bit_and (c / 2 ^ 5) 0x7FF * 2 ^ 5 = and_skip 5 c 0x7FF in
    let e4 : bit_and (c / 2 ^ 5) 0x7FF ≡ c / 2 ^ 5 % 2 ^ 11 = and_mask 11 (c / 2 ^ 5) in omega arith

pub and_1 : (a : ℕ) → bit_and a 1 ≡ a % 2
and_1 a = and_mask 1 a

pub and_3 : (a : ℕ) → bit_and a 3 ≡ a % 4
and_3 a = and_mask 2 a

pub and_7 : (a : ℕ) → bit_and a 7 ≡ a % 8
and_7 a = and_mask 3 a

pub and_31 : (a : ℕ) → bit_and a 0x1F ≡ a % 32
and_31 a = and_mask 5 a

pub ruleset masks = (lse_mask, cas_mask, bcax_mask, and_1, and_3, and_7, and_31)
