-- ===== src/Isa/Patch/Complete.antt =====
-- A pool of the estimated size, in reach of the code, takes an island for every instruction.
use machgate.Base.{ℕ, ◌+◌, ◌≤◌, ◌<◌, ◌≡◌, refl, inl, inr, arith}
use machgate.Base.{List, [], ◌∷◌, length, some, none, Option-cases, ℤ, sub_ℕ}
use machgate.Arm64.{enc_b}
use machgate.Arm64.Branch.{enc_b_sum}
use machgate.Isa.Insn.{Insn}
use machgate.Isa.Decode.{LseDecoded, BcaxDecoded, decode_lse, decode_bcax}
use machgate.Isa.Decode.Masks.{masks}
use machgate.Isa.Emit.{emit_island, emit_bcax_island}
use machgate.Isa.Emit.Laws.{length-emit_island, length-emit_bcax_island}
use machgate.Isa.Patch.{keep, replace, Patched, place_island, action, patch, estimate_words}
use machgate.Isa.Patch.Laws.{patch-keep, patch-replace}

-- An instruction that needs no island.
abbrev pub IsPlain : ℕ → Type 0
IsPlain instr = (decode_lse instr ≡ none) × (decode_bcax instr ≡ none)

abbrev pub AllPlain : List ℕ → Type 0
AllPlain [] = Unit {0}
AllPlain (instr ∷ code) = IsPlain instr × AllPlain code

-- How many instructions need one.
abbrev pub recognised : List ℕ → ℕ
recognised [] = 0
recognised (instr ∷ code) =
    elim (decode_lse instr) [
      | some d ↦ 1
      | none ↦ elim (decode_bcax instr) [ some r ↦ 1 | none ↦ 0 ]
    ]
    + recognised code

enc_b-IsPlain : (off : ℤ) → IsPlain (enc_b off)
unfolding decode_lse decode_bcax
enc_b-IsPlain off = rw (enc_b_sum off) (simp masks (ground arith))

pub place_replaces :
    (room pool_end island at : ℕ) (words : List Insn)
    → island + room ≤ pool_end
    → island ≤ at + 0x01FFFFFF
    → at ≤ island + 0x02000000
    → 0 < length words
    → place_island room pool_end island at words ≡ replace words
unfolding place_island
place_replaces room pool_end island at words fits near far some_words = ground arith

-- The pool holds the estimate, and every word of the code is within a branch of all of it.
pub record Roomy (pool_end at island : ℕ) (code : List ℕ) : Type 0 where
  pub room : island + estimate_words code ≤ pool_end
  pub near : pool_end ≤ at + 0x01FFFFFF
  pub far : at + length code ≤ island + 0x02000000

abbrev pub Complete : List ℕ → Patched → Type 0
Complete code r = AllPlain r.code × (r.patched ≡ recognised code)

module _ (pool_end at instr : ℕ) (code : List ℕ) (island : ℕ) where
  abbrev rest_after : List Insn → Patched
  rest_after words = patch pool_end (at + 1) code (island + length words)

  Complete-replace :
      (words : List Insn)
      → action pool_end island at instr ≡ replace words
      → recognised (instr ∷ code) ≡ 1 + recognised code
      → Complete code (rest_after words)
      → Complete (instr ∷ code) (patch pool_end at (instr ∷ code) island)
  Complete-replace words e one (plain, count) =
      rw (patch-replace pool_end at instr code island words e, one)
        ((enc_b-IsPlain (sub_ℕ island at), plain), omega arith)

  Complete-keep :
      IsPlain instr
      → recognised (instr ∷ code) ≡ recognised code
      → Complete code (patch pool_end (at + 1) code island)
      → Complete (instr ∷ code) (patch pool_end at (instr ∷ code) island)
  Complete-keep is_plain none_new (plain, count) =
      let e : action pool_end island at instr ≡ keep =
        unfold action in rw (is_plain.0, is_plain.1, action) in
      rw (patch-keep pool_end at instr code island e, none_new) ((is_plain, plain), count)

module _ (instr : ℕ) (code : List ℕ) where
  lse_counts :
      (d : LseDecoded)
      → decode_lse instr ≡ some d
      → (estimate_words (instr ∷ code) ≡ 24 + estimate_words code)
        × (recognised (instr ∷ code) ≡ 1 + recognised code)
  unfolding estimate_words
  lse_counts d e = (rw (e, estimate_words), rw e)

  bcax_counts :
      (r : BcaxDecoded)
      → decode_lse instr ≡ none
      → decode_bcax instr ≡ some r
      → (estimate_words (instr ∷ code) ≡ 5 + estimate_words code)
        × (recognised (instr ∷ code) ≡ 1 + recognised code)
  unfolding estimate_words
  bcax_counts r e e' = (rw (e, e', estimate_words), rw (e, e'))

  plain_counts :
      IsPlain instr
      → (estimate_words (instr ∷ code) ≡ estimate_words code)
        × (recognised (instr ∷ code) ≡ recognised code)
  unfolding estimate_words
  plain_counts (e, e') = (rw (e, e', estimate_words) (omega arith), rw (e, e') (omega arith))

pub action_lse :
    (pool_end island at instr : ℕ) (d : LseDecoded)
    → decode_lse instr ≡ some d
    → island + 24 ≤ pool_end
    → island ≤ at + 0x01FFFFFF
    → at ≤ island + 0x02000000
    → action pool_end island at instr ≡ replace (emit_island d island at)
unfolding action
action_lse pool_end island at instr d e room near far =
    let size = length-emit_island d island at in
    rw (e, action) (place_replaces 24 pool_end island at _ room near far (omega arith))

action_bcax :
    (pool_end island at instr : ℕ) (r : BcaxDecoded)
    → decode_lse instr ≡ none
    → decode_bcax instr ≡ some r
    → island + 5 ≤ pool_end
    → island ≤ at + 0x01FFFFFF
    → at ≤ island + 0x02000000
    → action pool_end island at instr ≡ replace (emit_bcax_island r island at)
unfolding action
action_bcax pool_end island at instr r e e' room near far =
    let size = length-emit_bcax_island r island at in
    rw (e, e', action) (place_replaces 5 pool_end island at _ room near far (omega arith))

-- If the pool has the words that `isa_emul_estimate_pool_size` asks for, and all of it is within a
-- branch of all of the code, then `isa_emul_patch` replaces every LSE and BCAX instruction: none is
-- left, and the count that it returns is their number.
pub patch-Complete :
    (pool_end at : ℕ) (code : List ℕ) (island : ℕ)
    → Roomy pool_end at island code
    → Complete code (patch pool_end at code island)
patch-Complete pool_end at [] island h = unfold patch in (tt, refl)
patch-Complete pool_end at (instr ∷ code) island h = elim (Option-cases (decode_lse instr)) [
  | inr (d, is_lse) ↦
      let (est, one) = lse_counts instr code d is_lse in
      let words = emit_island d island at in
      let size = length-emit_island d island at in
      let ih = patch-Complete pool_end (at + 1) code (island + length words) (omega arith) in
      Complete-replace pool_end at instr code island words
        (action_lse pool_end island at instr d is_lse (omega arith) (omega arith) (omega arith)) one
        ih
  | inl no_lse ↦ elim (Option-cases (decode_bcax instr)) [
    | inr (r, is_bcax) ↦
        let (est, one) = bcax_counts instr code r no_lse is_bcax in
        let words = emit_bcax_island r island at in
        let size = length-emit_bcax_island r island at in
        let ih = patch-Complete pool_end (at + 1) code (island + length words) (omega arith) in
        Complete-replace pool_end at instr code island words
          (action_bcax pool_end island at instr r no_lse is_bcax (omega arith) (omega arith)
            (omega arith))
          one ih
    | inl no_bcax ↦
        let (est, none_new) = plain_counts instr code (no_lse, no_bcax) in
        let ih = patch-Complete pool_end (at + 1) code island (omega arith) in
        Complete-keep pool_end at instr code island (no_lse, no_bcax) none_new ih
  ]
]
