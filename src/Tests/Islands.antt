-- ===== src/Tests/Islands.antt =====
-- The island patcher on a short piece of code: a NOP, an LDADDAL, a BCAX and a RET.
use machgate.Base.{ℕ, ◌+◌, ◌≤◌, ◌≡◌, refl, arith, sub_ℕ, shr_ℤ, ◌⊎◌}
use machgate.Base.{List, [], ◌∷◌, length, some, true, bit_or, ◌<<<◌}
use machgate.Arm64.{enc_nop, enc_ret, enc_b, enc_bl, branch_in_range}
use machgate.Arm64.Branch.{opcode, byte_target, branch_in_range-reaches}
use machgate.Isa.Decode.{LseDecoded, ldadd, cas, decode_lse, op_of_opc, BcaxDecoded, decode_bcax}
use machgate.Isa.Decode.Laws.{FieldsFit, lse_word, decode_lse-exact}
use machgate.Isa.Scratch.{pick_scratch}
use machgate.Isa.Scratch.Laws.{Marks, Marks-one, Marks-or, IsScratch, pick_scratch-IsScratch}
use machgate.Isa.Patch.{patch, estimate_words}
use machgate.Isa.Patch.Laws.{patch-InPool}
use machgate.Isa.Patch.Redirect.{Handled, patch-Handled}
use machgate.Isa.Patch.Complete.{Roomy, Complete, patch-Complete}

-- LDADDAL w0, w1, [x2]
abbrev ldaddal : LseDecoded
ldaddal = record { op = ldadd; size = 2; acquire = 1; release = 1; rs = 0; rt = 1; rn = 2 }

-- CASL w3, w4, [x5], read as CASAL
abbrev casl : LseDecoded
casl = record { op = cas; size = 2; acquire = 0; release = 1; rs = 3; rt = 4; rn = 5 }

-- BCAX v0, v1, v2, v3
abbrev bcax : BcaxDecoded
bcax = record { vd = 0; vn = 1; vm = 2; va = 3 }

abbrev code : List ℕ
code = enc_nop ∷ 0xB8E00041 ∷ 0xCE220C20 ∷ enc_ret ∷ []

ldaddal_fits : FieldsFit ldaddal
ldaddal_fits = omega arith

decode-ldaddal : decode_lse 0xB8E00041 ≡ some ldaddal
unfolding decode_lse op_of_opc
decode-ldaddal = refl

decode-bcax : decode_bcax 0xCE220C20 ≡ some bcax
unfolding decode_bcax
decode-bcax = refl

decode_lse-exact_example :
    FieldsFit ldaddal
    × ((0xB8E00041 ≡ lse_word ldadd ldaddal)
        ⊎ (0xB8E00041 ≡ lse_word ldadd (record ldaddal { acquire = 0 })))
decode_lse-exact_example =
    decode_lse-exact 0xB8E00041 ldaddal (omega arith) decode-ldaddal (λ e. refl)

in_use_Marks : Marks (2 ∷ 9 ∷ []) (bit_or (1 <<< 9) (1 <<< 2))
in_use_Marks = Marks-or 2 (9 ∷ []) (1 <<< 9) (Marks-one 9)

pick_scratch-IsScratch_example : IsScratch (2 ∷ 9 ∷ []) (pick_scratch (bit_or (1 <<< 9) (1 <<< 2)))
pick_scratch-IsScratch_example =
    pick_scratch-IsScratch (2 ∷ 9 ∷ []) (bit_or (1 <<< 9) (1 <<< 2)) (omega arith) in_use_Marks

patch-InPool_example :
    let r = patch 1100 0 code 1000 in
    (r.island ≡ 1000 + length r.pool) × (r.island ≤ 1100) × (length r.code ≡ 4)
patch-InPool_example = patch-InPool 1100 0 code 1000 (omega arith)

patch-Handled_example : let r = patch 1100 0 code 1000 in Handled 1000 r.pool 0 code r.code
patch-Handled_example = patch-Handled 1100 0 code 1000

code_is_Roomy : Roomy 1100 0 1000 code
unfolding estimate_words decode_lse op_of_opc decode_bcax
code_is_Roomy = record { room = omega arith; near = omega arith; far = omega arith }

patch-Complete_example : Complete code (patch 1100 0 code 1000)
patch-Complete_example = patch-Complete 1100 0 code 1000 code_is_Roomy

backward_in_range : branch_in_range (sub_ℕ 0x1000 0x8000) ≡ true
unfolding branch_in_range
backward_in_range = refl

branch_in_range-reaches_example :
    let off = shr_ℤ (sub_ℕ 0x1000 0x8000) 2 in
    (opcode (enc_b off) ≡ 5)
    × (byte_target 0x8000 (enc_b off) ≡ 0x1000)
    × (opcode (enc_bl off) ≡ 37)
    × (byte_target 0x8000 (enc_bl off) ≡ 0x1000)
branch_in_range-reaches_example = branch_in_range-reaches 0x8000 0x1000 backward_in_range
