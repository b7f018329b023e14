-- ===== src/Resolver/Rebase/Program.antt =====
-- Programs of rebase instructions: their bytes, and the places that they name.
use machgate.Base.{ℕ, zero, suc, ◌+◌, ◌*◌, ◌^◌, ◌<◌, List, [], ◌∷◌, ◌++◌, u64}
use machgate.EhFrame.Leb.{ehf_uleb128}
use machgate.Resolver.Rebase.{Image, slot_of, RebaseState, slide_word}

pub data Insn : Type 0 where
  set_type : (imm : ℕ) → Insn
  set_segment : (imm offset : ℕ) → Insn
  add_addr : (offset : ℕ) → Insn
  add_scaled : (imm : ℕ) → Insn
  rebase_imm : (imm : ℕ) → Insn
  rebase_count : (count : ℕ) → Insn
  rebase_add : (offset : ℕ) → Insn
  rebase_skipping : (count skip : ℕ) → Insn

abbrev pub insn_bytes : Insn → List ℕ
insn_bytes (set_type imm) = (0x10 + imm) ∷ []
insn_bytes (set_segment imm offset) = (0x20 + imm) ∷ ehf_uleb128 offset
insn_bytes (add_addr offset) = 0x30 ∷ ehf_uleb128 offset
insn_bytes (add_scaled imm) = (0x40 + imm) ∷ []
insn_bytes (rebase_imm imm) = (0x50 + imm) ∷ []
insn_bytes (rebase_count count) = 0x60 ∷ ehf_uleb128 count
insn_bytes (rebase_add offset) = 0x70 ∷ ehf_uleb128 offset
insn_bytes (rebase_skipping count skip) = 0x80 ∷ (ehf_uleb128 count ++ ehf_uleb128 skip)

-- An immediate has four bits, a number 64.
abbrev pub InsnFits : Insn → Type 0
InsnFits (set_type imm) = imm < 16
InsnFits (set_segment imm offset) = (imm < 16) × (offset < 2 ^ 64)
InsnFits (add_addr offset) = offset < 2 ^ 64
InsnFits (add_scaled imm) = imm < 16
InsnFits (rebase_imm imm) = imm < 16
InsnFits (rebase_count count) = count < 2 ^ 64
InsnFits (rebase_add offset) = offset < 2 ^ 64
InsnFits (rebase_skipping count skip) = (count < 2 ^ 64) × (skip < 2 ^ 64)

abbrev pub AllFit : List Insn → Type 0
AllFit [] = Unit {0}
AllFit (i ∷ insns) = InsnFits i × AllFit insns

abbrev pub program_bytes : List Insn → List ℕ
program_bytes [] = []
program_bytes (i ∷ insns) = insn_bytes i ++ program_bytes insns

-- A segment and an offset in it.
abbrev pub Place : Type 0
Place = ℕ × ℕ

-- `count` places, each `stride` behind the one before.
abbrev pub run_of : (count stride : ℕ) → Place → List Place
run_of zero stride place = []
run_of (suc count) stride (seg, offset) =
    (seg, offset) ∷ run_of count stride (seg, u64 (offset + stride))

abbrev pub after_run : (count stride : ℕ) → Place → Place
after_run zero stride place = place
after_run (suc count) stride (seg, offset) = after_run count stride (seg, u64 (offset + stride))

-- The places that an instruction rebases, and the one that the next instruction starts at.
abbrev pub insn_places : Insn → Place → List Place
insn_places (rebase_imm imm) place = run_of imm 8 place
insn_places (rebase_count count) place = run_of count 8 place
insn_places (rebase_add offset) place = place ∷ []
insn_places (rebase_skipping count skip) place = run_of count (u64 (skip + 8)) place
insn_places _ place = []

abbrev pub insn_after : Insn → Place → Place
insn_after (set_type imm) place = place
insn_after (set_segment imm offset) place = (imm, offset)
insn_after (add_addr offset) (seg, at) = (seg, u64 (at + offset))
insn_after (add_scaled imm) (seg, at) = (seg, u64 (at + imm * 8))
insn_after (rebase_imm imm) place = after_run imm 8 place
insn_after (rebase_count count) place = after_run count 8 place
insn_after (rebase_add offset) (seg, at) = (seg, u64 (at + u64 (offset + 8)))
insn_after (rebase_skipping count skip) place = after_run count (u64 (skip + 8)) place

abbrev pub places_of : List Insn → Place → List Place
places_of [] place = []
places_of (i ∷ insns) place = insn_places i place ++ places_of insns (insn_after i place)

abbrev pub after_all : List Insn → Place → Place
after_all [] place = place
after_all (i ∷ insns) place = after_all insns (insn_after i place)

module _ (image : Image) where
  -- The words at these places slid one after the other.
  abbrev pub slide_places : List Place → RebaseState → RebaseState
  slide_places [] st = st
  slide_places ((seg, offset) ∷ places) st =
      slide_places places (slide_word image (slot_of image seg offset) st)

abbrev pub put_cursor : Place → RebaseState → RebaseState
put_cursor (seg, offset) st = record st { seg_index = seg; seg_offset = offset }
