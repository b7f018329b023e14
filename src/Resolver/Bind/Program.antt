-- ===== src/Resolver/Bind/Program.antt =====
-- Programs of bind instructions: their bytes, and the binds that they ask for.
use machgate.Base.{ℕ, zero, suc, ◌+◌, ◌*◌, ◌^◌, ◌<◌, ◌≡◌, ◌≢◌, List, [], ◌∷◌, ◌++◌, u64, ℤ, pos}
use machgate.EhFrame.Leb.{ehf_uleb128}
use machgate.Resolver.Bind.{
  BindCursor, BindRequest, request_of, to_int, special_ordinal, read_sleb128,
}

-- The addend stands with the bytes that are written for it.
pub data Insn : Type 0 where
  set_ordinal_imm : (imm : ℕ) → Insn
  set_ordinal : (ordinal : ℕ) → Insn
  set_special : (imm : ℕ) → Insn
  set_symbol : (flags : ℕ) (name : List ℕ) → Insn
  set_type : (imm : ℕ) → Insn
  set_addend : (bytes : List ℕ) (addend : ℤ) → Insn
  set_segment : (imm offset : ℕ) → Insn
  add_addr : (offset : ℕ) → Insn
  bind : Insn
  bind_add : (offset : ℕ) → Insn
  bind_scaled : (imm : ℕ) → Insn
  bind_skipping : (count skip : ℕ) → Insn

abbrev pub insn_bytes : Insn → List ℕ
insn_bytes (set_ordinal_imm imm) = (0x10 + imm) ∷ []
insn_bytes (set_ordinal ordinal) = 0x20 ∷ ehf_uleb128 ordinal
insn_bytes (set_special imm) = (0x30 + imm) ∷ []
insn_bytes (set_symbol flags name) = (0x40 + flags) ∷ (name ++ 0 ∷ [])
insn_bytes (set_type imm) = (0x50 + imm) ∷ []
insn_bytes (set_addend bytes addend) = 0x60 ∷ bytes
insn_bytes (set_segment imm offset) = (0x70 + imm) ∷ ehf_uleb128 offset
insn_bytes (add_addr offset) = 0x80 ∷ ehf_uleb128 offset
insn_bytes bind = 0x90 ∷ []
insn_bytes (bind_add offset) = 0xA0 ∷ ehf_uleb128 offset
insn_bytes (bind_scaled imm) = (0xB0 + imm) ∷ []
insn_bytes (bind_skipping count skip) = 0xC0 ∷ (ehf_uleb128 count ++ ehf_uleb128 skip)

abbrev pub HasNoZero : List ℕ → Type 0
HasNoZero [] = Unit {0}
HasNoZero (c ∷ name) = (c ≢ 0) × HasNoZero name

-- An immediate has four bits, a number 64, a name no zero, and the bytes of an addend are read as it.
abbrev pub InsnFits : Insn → Type 0
InsnFits (set_ordinal_imm imm) = imm < 16
InsnFits (set_ordinal ordinal) = ordinal < 2 ^ 64
InsnFits (set_special imm) = imm < 16
InsnFits (set_symbol flags name) = (flags < 16) × HasNoZero name
InsnFits (set_type imm) = imm < 16
InsnFits (set_addend bytes addend) = (rest : List ℕ) → read_sleb128 (bytes ++ rest) ≡ (addend, rest)
InsnFits (set_segment imm offset) = (imm < 16) × (offset < 2 ^ 64)
InsnFits (add_addr offset) = offset < 2 ^ 64
InsnFits bind = Unit {0}
InsnFits (bind_add offset) = offset < 2 ^ 64
InsnFits (bind_scaled imm) = imm < 16
InsnFits (bind_skipping count skip) = (count < 2 ^ 64) × (skip < 2 ^ 64)

abbrev pub AllFit : List Insn → Type 0
AllFit [] = Unit {0}
AllFit (i ∷ insns) = InsnFits i × AllFit insns

abbrev pub program_bytes : List Insn → List ℕ
program_bytes [] = []
program_bytes (i ∷ insns) = insn_bytes i ++ program_bytes insns

abbrev pub advanced : (stride : ℕ) → BindCursor → BindCursor
advanced stride c = record c { seg_offset = u64 (c.seg_offset + stride) }

-- `count` binds of one symbol, each `stride` behind the one before.
abbrev pub run_of : (count stride : ℕ) → BindCursor → List BindRequest
run_of zero stride c = []
run_of (suc count) stride c = request_of c ∷ run_of count stride (advanced stride c)

abbrev pub after_run : (count stride : ℕ) → BindCursor → BindCursor
after_run zero stride c = c
after_run (suc count) stride c = after_run count stride (advanced stride c)

abbrev pub insn_binds : Insn → BindCursor → List BindRequest
insn_binds bind c = request_of c ∷ []
insn_binds (bind_add offset) c = request_of c ∷ []
insn_binds (bind_scaled imm) c = request_of c ∷ []
insn_binds (bind_skipping count skip) c = run_of count (u64 (skip + 8)) c
insn_binds _ c = []

abbrev pub insn_after : Insn → BindCursor → BindCursor
insn_after (set_ordinal_imm imm) c = record c { lib_ordinal = pos imm }
insn_after (set_ordinal ordinal) c = record c { lib_ordinal = to_int ordinal }
insn_after (set_special imm) c = record c { lib_ordinal = special_ordinal imm }
insn_after (set_symbol flags name) c = record c { sym_flags = flags; sym_name = name }
insn_after (set_type imm) c = c
insn_after (set_addend bytes addend) c = record c { addend = addend }
insn_after (set_segment imm offset) c = record c { seg_index = imm; seg_offset = offset }
insn_after (add_addr offset) c = advanced offset c
insn_after bind c = advanced 8 c
insn_after (bind_add offset) c = advanced (u64 (offset + 8)) c
insn_after (bind_scaled imm) c = advanced (imm * 8 + 8) c
insn_after (bind_skipping count skip) c = after_run count (u64 (skip + 8)) c

abbrev pub binds_of : List Insn → BindCursor → List BindRequest
binds_of [] c = []
binds_of (i ∷ insns) c = insn_binds i c ++ binds_of insns (insn_after i c)

abbrev pub after_all : List Insn → BindCursor → BindCursor
after_all [] c = c
after_all (i ∷ insns) c = after_all insns (insn_after i c)

abbrev pub bind_all {ℓ} : {S : Type ℓ} → (BindRequest → S → S) → List BindRequest → S → S
bind_all do_bind [] s = s
bind_all do_bind (r ∷ binds) s = bind_all do_bind binds (do_bind r s)

-- The lazy pass has a program for each bind, with an end mark.
abbrev pub groups_bytes : List (List Insn) → List ℕ
groups_bytes [] = []
groups_bytes (g ∷ groups) = program_bytes g ++ 0 ∷ groups_bytes groups

abbrev pub groups_binds : List (List Insn) → BindCursor → List BindRequest
groups_binds [] c = []
groups_binds (g ∷ groups) c = binds_of g c ++ groups_binds groups (after_all g c)

abbrev pub AllGroupsFit : List (List Insn) → Type 0
AllGroupsFit [] = Unit {0}
AllGroupsFit (g ∷ groups) = AllFit g × AllGroupsFit groups
