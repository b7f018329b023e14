-- ===== src/Isa/Patch/Return.antt =====
-- The reach of an island's branch back, which `isa_emul_patch` does not check.
use machgate.Base.{ℕ, ◌+◌, ◌≤◌, ◌≡◌, ◌≢◌, length, get_elem?, some, sub_ℕ, arith}
use machgate.Arm64.{enc_b}
use machgate.Arm64.Branch.{branch_target, enc_b_sum}
use machgate.Isa.Insn.{Insn, encode, b}
use machgate.Isa.Decode.{LseDecoded, decode_lse}
use machgate.Isa.Emit.{emit_island, island_body}
use machgate.Isa.Emit.Laws.{length-island_body, emit_island-EndsInReturn}
use machgate.Isa.Patch.{action, replace}
use machgate.Isa.Patch.Complete.{action_lse}

far_target :
    (at n : ℕ)
    → 3 ≤ n
    → n ≤ 18
    → branch_target (at + 0x01FFFFFF + n) (enc_b (sub_ℕ (at + 1) (at + 0x01FFFFFF + n))) ≢ at + 1
far_target at n h h' = let e = enc_b_sum (sub_ℕ (at + 1) (at + 0x01FFFFFF + n)) in ground arith

-- An LSE instruction whose island is at the far end of the range that the code accepts, 2 ^ 25 - 1
-- words above it, is replaced; but the island's last word, meant to go back to the instruction after
-- the replaced one, leads elsewhere, since that distance is more than a B can hold.
far_island_is_lost :
    (pool_end at instr : ℕ) (d : LseDecoded)
    → decode_lse instr ≡ some d
    → pool_end ≡ at + 0x01FFFFFF + 24
    → let island = at + 0x01FFFFFF in
      let words = emit_island d island at in
      (action pool_end island at instr ≡ replace words)
      × (n : ℕ) × (last : Insn) × (length words ≡ n + 1)
      × (get_elem? words n ≡ some last)
      × (branch_target (island + n) (encode last) ≢ at + 1)
unfolding encode
far_island_is_lost pool_end at instr d e room =
    let island : ℕ = at + 0x01FFFFFF in
    let n = length (island_body d.op d) in
    let (size, last) = emit_island-EndsInReturn d island at in
    let few = length-island_body d.op d in
    (
      action_lse pool_end island at instr d e (omega arith) (omega arith) (omega arith),
      n,
      b (sub_ℕ (at + 1) (island + n)),
      size,
      last,
      far_target at n (omega arith) (omega arith),
    )
