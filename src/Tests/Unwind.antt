-- ===== src/Tests/Unwind.antt =====
-- Small unwind tables: an `__eh_frame` with a CIE and an FDE, an `__unwind_info` with one page, and the
-- frame that is made for a function.
use mathlib.Core.List.{Perm}
use machgate.Base.{
  ℕ, zero, suc, ◌+◌, ◌^◌, ◌<◌, ◌≡◌, ◌≢◌, refl, arith, List, [], ◌∷◌, length, map, some, drop, unle,
}
use machgate.EhFrame.Emit.{
  emit_cie, emit_fde_minimal, emit_fde_frame, emit_fde_frameless, framed, fde_header, cfi_frame,
  cie_body, save_pairs, save_d_pairs,
}
use machgate.EhFrame.Cfi.{Runs, instructions_of, at_entry, frame_row, frameless_row}
use machgate.EhFrame.Cfi.Fdes.{emit_fde-Unwinds}
use machgate.EhFrame.Read.{
  HdrEntry, parse_native_eh_frame_fdes, parse_fdes_from, record_bounds, fde_at,
  parse_cie_has_z_augmentation,
}
use machgate.EhFrame.Read.Laws.{NoWrap, AreInside, parse_native-AreInside}
use machgate.EhFrame.Collect.{
  CuEntry, lookup_lsda, lsda_count, lsda_function, lsda_offset_of, collect_entries, pages_entries,
}
use machgate.EhFrame.Collect.Search.{Ascends, lookup_lsda-finds}
use machgate.EhFrame.Collect.Sort.{AreTiled, unsized, collect_entries-AreTiled}
use machgate.EhFrame.Generate.{Image, emit_fdes, synthetic_frame, syn_entries, all_covered}
use machgate.EhFrame.Generate.Walk.{located}
use machgate.EhFrame.Generate.Index.{syn_entries-located}

-- The FDE of a function that saves x19 to x22 and d8 and d9.
abbrev pairs : ℕ
pairs = 0x04000103

written :
    emit_fde_frame 48 24 0x100001000 64 pairs 0
    ≡ 44 ∷ 0 ∷ 0 ∷ 0 ∷ 28 ∷ 0 ∷ 0 ∷ 0 ∷ 0 ∷ 16 ∷ 0 ∷ 0 ∷ 1 ∷ 0 ∷ 0 ∷ 0 ∷ 64 ∷ 0 ∷ 0 ∷ 0 ∷ 0 ∷ 0 ∷ 0
      ∷ 0 ∷ 0 ∷ 65 ∷ 12 ∷ 29 ∷ 16 ∷ 158 ∷ 1 ∷ 157 ∷ 2 ∷ 147 ∷ 3 ∷ 148 ∷ 4 ∷ 149 ∷ 5 ∷ 150 ∷ 6 ∷ 5
      ∷ 72 ∷ 7 ∷ 5 ∷ 73 ∷ 8 ∷ 0 ∷ []
unfolding emit_fde_frame framed fde_header cfi_frame save_pairs save_d_pairs
written = refl

emit_fde-Unwinds_example :
    Runs (instructions_of (emit_fde_frame 48 24 0x100001000 64 pairs 0)) at_entry (frame_row pairs)
    × Runs
        (instructions_of (emit_fde_frameless 48 24 0x100001000 64 pairs 0))
        at_entry
        (frameless_row pairs)
    × Runs (instructions_of (emit_fde_minimal 48 24 0x100001000 64 0)) at_entry at_entry
emit_fde-Unwinds_example = emit_fde-Unwinds 48 24 0x100001000 64 0 pairs

-- A CIE, and an FDE for 64 bytes at 0x1000.
abbrev section : List ℕ
section =
    20 ∷ 0 ∷ 0 ∷ 0 ∷ 0 ∷ 0 ∷ 0 ∷ 0 ∷ 1 ∷ 122 ∷ 82 ∷ 0 ∷ 4 ∷ 120 ∷ 30 ∷ 1 ∷ 0 ∷ 12 ∷ 31 ∷ 0 ∷ 0 ∷ 0
    ∷ 0 ∷ 0 ∷ 28 ∷ 0 ∷ 0 ∷ 0 ∷ 28 ∷ 0 ∷ 0 ∷ 0 ∷ 0 ∷ 16 ∷ 0 ∷ 0 ∷ 0 ∷ 0 ∷ 0 ∷ 0 ∷ 64 ∷ 0 ∷ 0 ∷ 0 ∷ 0
    ∷ 0 ∷ 0 ∷ 0 ∷ 0 ∷ 0 ∷ 0 ∷ 0 ∷ 0 ∷ 0 ∷ 0 ∷ 0 ∷ []

abbrev no_memory : ℕ → ℕ
no_memory a = 0

found_one :
    parse_native_eh_frame_fdes no_memory 0x5000 section
    ≡ some (
        record {
          initial_location = 0x1000;
          address_range = 64;
          fde_ptr = 0x5018;
          cfi_ptr = 0x5031;
          cfi_size = 7;
        }
        ∷ [])
unfolding parse_native_eh_frame_fdes parse_fdes_from record_bounds fde_at
    parse_cie_has_z_augmentation
found_one = refl

-- No byte is 255, so no length is a 64-bit one.
abbrev AreLow : List ℕ → Type 0
AreLow [] = Unit {0}
AreLow (c ∷ s) = (c < 255) × AreLow s

AreLow-drop : (n : ℕ) (s : List ℕ) → AreLow s → AreLow (drop n s)
AreLow-drop zero s b = b
AreLow-drop (suc n) [] b = tt
AreLow-drop (suc n) (c ∷ s) b = AreLow-drop n s b.1

low : (s : List ℕ) → AreLow s → unle 4 s < 0xFFFFFFFF
low [] b = omega arith
low (a ∷ []) b = omega arith
low (a ∷ c ∷ []) b = omega arith
low (a ∷ c ∷ d ∷ []) b = omega arith
low (a ∷ c ∷ d ∷ e ∷ s) b = omega arith

no_wrap : NoWrap no_memory 0x5000 section
no_wrap pos e =
    absurd (omega (arith, low (drop pos section) (AreLow-drop pos section (omega arith))))

parse_native-AreInside_example :
    (entries : List HdrEntry) × (parse_native_eh_frame_fdes no_memory 0x5000 section ≡ some entries)
    × AreInside no_memory 0x5000 section entries
parse_native-AreInside_example = parse_native-AreInside no_memory 0x5000 section no_wrap

-- An LSDA index with two functions.
abbrev lsda_index : List ℕ
lsda_index = 16 ∷ 0 ∷ 0 ∷ 0 ∷ 100 ∷ 0 ∷ 0 ∷ 0 ∷ 32 ∷ 0 ∷ 0 ∷ 0 ∷ 200 ∷ 0 ∷ 0 ∷ 0 ∷ []

index-Ascends : Ascends (lsda_function lsda_index 0 16) (lsda_count lsda_index 0 16)
index-Ascends zero zero h h' = absurd (omega arith)
index-Ascends zero (suc zero) h h' = omega arith
index-Ascends zero (suc (suc j)) h h' = absurd (omega arith)
index-Ascends (suc i) zero h h' = absurd (omega arith)
index-Ascends (suc i) (suc j) h h' = absurd (omega arith)

lookup_lsda-finds_example :
    ((i : ℕ)
      → i < lsda_count lsda_index 0 16
      → lsda_function lsda_index 0 16 i ≡ 32
      → lookup_lsda lsda_index 0 16 0x44000000 32 ≡ lsda_offset_of lsda_index 0 16 i)
    × (((i : ℕ) → i < lsda_count lsda_index 0 16 → lsda_function lsda_index 0 16 i ≢ 32)
        → lookup_lsda lsda_index 0 16 0x44000000 32 ≡ 0)
lookup_lsda-finds_example =
    lookup_lsda-finds lsda_index 0 16 0x44000000 32 (omega arith) index-Ascends

-- A common encoding, and a page with two functions out of order.
abbrev unwind_info : List ℕ
unwind_info =
    1 ∷ 0 ∷ 0 ∷ 0 ∷ 28 ∷ 0 ∷ 0 ∷ 0 ∷ 1 ∷ 0 ∷ 0 ∷ 0 ∷ 0 ∷ 0 ∷ 0 ∷ 0 ∷ 0 ∷ 0 ∷ 0 ∷ 0 ∷ 32 ∷ 0 ∷ 0 ∷ 0
    ∷ 2 ∷ 0 ∷ 0 ∷ 0 ∷ 1 ∷ 0 ∷ 0 ∷ 4 ∷ 0 ∷ 0 ∷ 0 ∷ 0 ∷ 56 ∷ 0 ∷ 0 ∷ 0 ∷ 0 ∷ 0 ∷ 0 ∷ 0 ∷ 64 ∷ 0 ∷ 0
    ∷ 0 ∷ 0 ∷ 0 ∷ 0 ∷ 0 ∷ 0 ∷ 0 ∷ 0 ∷ 0 ∷ 3 ∷ 0 ∷ 0 ∷ 0 ∷ 12 ∷ 0 ∷ 2 ∷ 0 ∷ 0 ∷ 0 ∷ 0 ∷ 0 ∷ 32 ∷ 0
    ∷ 0 ∷ 0 ∷ 0 ∷ 0 ∷ 0 ∷ 0 ∷ []

abbrev collected : List CuEntry
collected =
    record { func_offset = 0; func_size = 32; encoding = 0x04000001; lsda_offset = 0 }
    ∷ record { func_offset = 32; func_size = 256; encoding = 0x04000001; lsda_offset = 0 }
    ∷ []

collects : collect_entries unwind_info 76 ≡ some collected
unfolding collect_entries
collects = refl

collect_entries-AreTiled_example :
    (entries : List CuEntry) × (collect_entries unwind_info 76 ≡ some entries)
    × AreTiled entries
    × Perm (map unsized entries) (map unsized (pages_entries unwind_info 76 0 1))
collect_entries-AreTiled_example = collect_entries-AreTiled unwind_info 76 (omega arith) refl

abbrev image : Image
image = record {
  text_start = 0x100000000;
  native_addr = 0;
  native_section = [];
  native_entries = [];
}

small_frame : length (synthetic_frame image 0 collected) < 2 ^ 32
unfolding synthetic_frame emit_cie framed cie_body emit_fdes all_covered emit_fde_frame fde_header
    cfi_frame save_pairs
small_frame = omega arith

syn_entries-located_example :
    syn_entries 0x7000 (synthetic_frame image 0 collected)
    ≡ some (
        located 0x7000 0
          (length (emit_cie 0 0))
          (length (emit_cie 0 0) + length (emit_cie (length (emit_cie 0 0)) 0))
          (all_covered image collected))
syn_entries-located_example = syn_entries-located image 0 0x7000 collected (omega arith) small_frame
