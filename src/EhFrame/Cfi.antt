-- ===== src/EhFrame/Cfi.antt =====
-- The call frame instructions of DWARF that src/eh_frame.c writes, as an unwinder runs them, and what a
-- compact unwind encoding says of a frame.
pub mod Pairs
pub mod Frames
pub mod Fdes
use machgate.Base.{
  ℕ, zero, suc, ◌+◌, ◌*◌, ◌/◌, ◌%◌, ◌^◌, ◌≡◌, ◌==◌, if◌then◌else◌, List, [], ◌∷◌, ◌++◌, Option,
  none, some, replicate, drop,
}
use machgate.Base.Bits.{bit}
use machgate.EhFrame.Leb.{eh_read_uleb128}

-- From instruction `loc` of the function on, the CFA is a register plus an offset, and each saved register
-- is in a slot of 8 bytes, counted downwards from the CFA.
pub record Row : Type 0 where
  pub loc : ℕ
  pub cfa_reg : ℕ
  pub cfa_offset : ℕ
  pub saved : List (ℕ × ℕ)

abbrev pub saving : Row → List (ℕ × ℕ) → Row
saving row slots = record row { saved = row.saved ++ slots }

-- An instruction with the bytes of its operands, under the alignment factors 4 and -8 of the CIE.
unfoldable pub run_instruction : (op : ℕ) → List ℕ → Row → Option (Row × List ℕ)
unfolding eh_read_uleb128
run_instruction op bytes row =
    let (first, rest) = eh_read_uleb128 bytes in
    let (second, rest') = eh_read_uleb128 rest in
    if op / 64 == 1
    then some (record row { loc = row.loc + op % 64 }, bytes)
    else if op / 64 == 2
    then some (saving row ((op % 64, first) ∷ []), rest)
    else if op == 0x05
    then some (saving row ((first, second) ∷ []), rest')
    else if op == 0x0c
    then some (record row { cfa_reg = first; cfa_offset = second }, rest')
    else none

-- The instructions, up to the padding, end in this row.
pub data Runs : List ℕ → Row → Row → Type 0 where
  padding : {bytes : List ℕ} {row : Row} (n : ℕ) → bytes ≡ replicate n 0 → Runs bytes row row
  next :
      {op : ℕ} {bytes rest : List ℕ} {row row' out : Row}
      → run_instruction op bytes row ≡ some (row', rest)
      → Runs rest row' out
      → Runs (op ∷ bytes) row out

-- The pairs of registers that a compact encoding may name, each by the bit and its first register.
abbrev pub register_pairs : List (ℕ × ℕ)
register_pairs =
    (0, 19) ∷ (1, 21) ∷ (2, 23) ∷ (3, 25) ∷ (4, 27) ∷ (8, 72) ∷ (9, 74) ∷ (10, 76) ∷ (11, 78) ∷ []

abbrev pub pair_in : (encoding bit_number reg : ℕ) → List ℕ
pair_in encoding bit_number reg = if bit encoding bit_number == 1 then reg ∷ suc reg ∷ [] else []

abbrev pub registers_in : (encoding : ℕ) → List (ℕ × ℕ) → List ℕ
registers_in encoding [] = []
registers_in encoding ((bit_number, reg) ∷ pairs) =
    pair_in encoding bit_number reg ++ registers_in encoding pairs

-- The registers that a function saves, in the order in which they stand below each other.
abbrev pub saved_registers : (encoding : ℕ) → List ℕ
saved_registers encoding = registers_in encoding register_pairs

abbrev pub from_slot : ℕ → List ℕ → List (ℕ × ℕ)
from_slot slot [] = []
from_slot slot (reg ∷ regs) = (reg, slot) ∷ from_slot (suc slot) regs

-- The rule of the CIE.
abbrev pub at_entry : Row
at_entry = record { loc = 0; cfa_reg = 31; cfa_offset = 0; saved = [] }

-- A frame: FP points at the saved FP, LR lies above it, and the saved pairs lie below.
abbrev pub frame_row : (encoding : ℕ) → Row
frame_row encoding = record {
  loc = 1;
  cfa_reg = 29;
  cfa_offset = 16;
  saved = (30, 1) ∷ (29, 2) ∷ from_slot 3 (saved_registers encoding);
}

-- No frame: the saved pairs lie at the top of the stack area, whose size is given in units of 16 bytes.
-- Without such an area the stack pointer stays where it is.
abbrev pub frameless_row : (encoding : ℕ) → Row
frameless_row encoding =
    let size = encoding / 2 ^ 12 % 2 ^ 12 * 16 in
    if size == 0 then at_entry else record {
      loc = 1;
      cfa_reg = 31;
      cfa_offset = size;
      saved = from_slot 1 (saved_registers encoding);
    }

-- The instructions of an FDE, behind its length, the offset of its CIE, its range of absolute addresses, and
-- its augmentation data with their length.
unfoldable pub instructions_of : List ℕ → List ℕ
unfolding eh_read_uleb128
instructions_of fde = let (n, rest) = eh_read_uleb128 (drop 24 fde) in drop n rest
