-- ===== src/Isa/Patch.antt =====
-- `isa_emul_patch` and `isa_emul_estimate_pool_size` of src/isa_emul.c. The code region and the pool
-- do not overlap; both are addressed by word.
pub mod Laws
pub mod Redirect
pub mod Complete
pub mod Return
use machgate.Base.{ℕ, ◌+◌, ◌*◌, ◌==◌, ltb, if◌then◌else◌, ◌||◌, sub_ℕ, some, none, Bool}
use machgate.Base.{List, [], ◌∷◌, ◌++◌, length, map}
use machgate.Arm64.{enc_b}
use machgate.Isa.Insn.{Insn, encode}
use machgate.Isa.Decode.{decode_lse, decode_bcax}
use machgate.Isa.Emit.{emit_island, emit_bcax_island}

-- What the loop body does with one word: `break`, `continue`, or a replacement.
pub data Action : Type 0 where
  stop keep : Action
  replace : (words : List Insn) → Action

-- `offset > 0x01FFFFFF || offset < -0x02000000`, for `island - &code[i]`.
abbrev pub out_of_range : ℕ → ℕ → Bool
out_of_range island at = ltb (at + 0x01FFFFFF) island || ltb (island + 0x02000000) at

unfoldable pub place_island : ℕ → ℕ → ℕ → ℕ → List Insn → Action
place_island room pool_end island at words =
    if ltb pool_end (island + room)
    then stop
    else if out_of_range island at
    then keep
    else if length words == 0
    then keep
    else replace words

unfoldable pub action : ℕ → ℕ → ℕ → ℕ → Action
action pool_end island at instr = elim (decode_lse instr) [
  | some d ↦ place_island 24 pool_end island at (emit_island d island at)
  | none ↦ elim (decode_bcax instr) [
    | some r ↦ place_island 5 pool_end island at (emit_bcax_island r island at)
    | none ↦ keep
  ]
]

-- The code after the loop, the words written to the pool in order, `*pool_ptr`, and the count.
pub record Patched : Type 0 where
  pub code : List ℕ
  pub pool : List ℕ
  pub island : ℕ
  pub patched : ℕ

abbrev pub untouched : List ℕ → ℕ → Patched
untouched code island = record { code = code; pool = []; island = island; patched = 0 }

abbrev pub kept : ℕ → Patched → Patched
kept instr rest = record rest { code = instr ∷ rest.code }

abbrev pub replaced : ℕ → ℕ → List Insn → Patched → Patched
replaced island at words rest = record {
  code = enc_b (sub_ℕ island at) ∷ rest.code;
  pool = map encode words ++ rest.pool;
  island = rest.island;
  patched = rest.patched + 1;
}

-- The loop from `code[i]`, which stands at `at`, on.
unfoldable pub patch : ℕ → ℕ → List ℕ → ℕ → Patched
patch pool_end at [] island = untouched [] island
patch pool_end at (instr ∷ code) island = elim (action pool_end island at instr) [
  | stop ↦ untouched (instr ∷ code) island
  | keep ↦ kept instr (patch pool_end (at + 1) code island)
  | replace words ↦ replaced island at words (patch pool_end (at + 1) code (island + length words))
]

unfoldable pub estimate_words : List ℕ → ℕ
estimate_words [] = 0
estimate_words (instr ∷ code) =
    elim (decode_lse instr) [
      | some d ↦ 24
      | none ↦ elim (decode_bcax instr) [ some r ↦ 5 | none ↦ 0 ]
    ]
    + estimate_words code

unfoldable pub estimate_pool_size : List ℕ → ℕ
unfolding estimate_words
estimate_pool_size code = estimate_words code * 4
