-- ===== src/EhFrame/Generate.antt =====
-- The synthetic frame and its index in `eh_frame_generate_and_register` of src/eh_frame.c, from the collected
-- entries on.
pub mod Walk
pub mod Shapes
pub mod Index
use machgate.Base.{
  ℕ, zero, suc, ◌+◌, ◌-◌, ◌*◌, ◌%◌, ◌^◌, ◌==◌, ltb, if◌then◌else◌, Bool, true, false, ◌&&◌, ◌||◌,
  not, List, [], ◌∷◌, ◌++◌, length, take, drop, Option, none, some, bit_and, u32, u64, le, field,
}
use machgate.EhFrame.Emit.{
  emit_cie, emit_fde_frame, emit_fde_frameless, emit_fde_minimal, emit_fde_with_native_cfi, has,
}
use machgate.EhFrame.Read.{HdrEntry, find_native_fde, has_entry_start}
use machgate.EhFrame.Collect.{CuEntry}

-- What the loop over the entries reads: where the program is, and the native entries with their section.
pub record Image : Type 0 where
  pub text_start : ℕ
  pub native_addr : ℕ
  pub native_section : List ℕ
  pub native_entries : List HdrEntry

-- A function with an FDE: its address, its range, and the FDE for a position and the offset of the CIE.
pub record Covered : Type 0 where
  pub func_addr : ℕ
  pub range : ℕ
  pub with_personality : Bool
  pub emit : (pos cie : ℕ) → List ℕ

module _ (image : Image) where
  abbrev pub func_addr_of : CuEntry → ℕ
  func_addr_of e = u64 (image.text_start + e.func_offset)

  abbrev pub has_lsda : CuEntry → Bool
  has_lsda e = has e.encoding 0x40000000

  abbrev pub lsda_addr_of : CuEntry → ℕ
  lsda_addr_of e =
      if has_lsda e && not (e.lsda_offset == 0) then u64 (image.text_start + e.lsda_offset) else 0

  -- The native entry whose code is taken, if the function has an LSDA.
  unfoldable pub native_of : CuEntry → Option HdrEntry
  unfolding find_native_fde
  native_of e = elim (find_native_fde image.native_entries (func_addr_of e)) [
    | none ↦ none
    | some n ↦
        if not (lsda_addr_of e == 0) && (not (n.cfi_ptr == 0) && not (n.cfi_size == 0))
        then some n
        else none
  ]

  abbrev pub native_cfi : HdrEntry → List ℕ
  native_cfi n = take n.cfi_size (drop (n.cfi_ptr - image.native_addr) image.native_section)

  abbrev pub native_range : CuEntry → HdrEntry → ℕ
  native_range e n = if n.address_range == 0 then e.func_size else u32 n.address_range

  abbrev pub covered_as : CuEntry → ((pos cie : ℕ) → List ℕ) → Option Covered
  covered_as e emit = some record {
    func_addr = func_addr_of e;
    range = e.func_size;
    with_personality = has_lsda e;
    emit = emit;
  }

  -- By its mode; none for the DWARF mode and for what is no start of a function.
  unfoldable pub covered_by_mode : CuEntry → Option Covered
  covered_by_mode e =
      let mode = bit_and e.encoding 0x0F000000 in
      if mode == 0x03000000 || has e.encoding 0x80000000
      then none
      else if mode == 0x04000000
      then covered_as e (λ pos cie.
        emit_fde_frame pos cie (func_addr_of e) e.func_size e.encoding (lsda_addr_of e))
      else if mode == 0x02000000
      then covered_as e (λ pos cie.
        emit_fde_frameless pos cie (func_addr_of e) e.func_size e.encoding (lsda_addr_of e))
      else covered_as e
          (λ pos cie. emit_fde_minimal pos cie (func_addr_of e) e.func_size (lsda_addr_of e))

  abbrev pub covered_with : CuEntry → Option HdrEntry → Option Covered
  covered_with e none = covered_by_mode e
  covered_with e (some n) = some record {
    func_addr = func_addr_of e;
    range = native_range e n;
    with_personality = true;
    emit = λ pos cie.
        emit_fde_with_native_cfi pos cie (func_addr_of e) (native_range e n) (lsda_addr_of e)
          (native_cfi n);
  }

  -- The body of the loop over the entries.
  unfoldable pub covered : CuEntry → Option Covered
  unfolding native_of covered_by_mode
  covered e = covered_with e (native_of e)

  abbrev pub and_then : Option Covered → List Covered → List Covered
  and_then none rest = rest
  and_then (some c) rest = c ∷ rest

  unfoldable pub all_covered : List CuEntry → List Covered
  unfolding covered
  all_covered [] = []
  all_covered (e ∷ entries) = and_then (covered e) (all_covered entries)

-- The FDEs from `pos` on.
unfoldable pub emit_fdes : (cie_with cie_without pos : ℕ) → List Covered → List ℕ
emit_fdes cie_with cie_without pos [] = []
emit_fdes cie_with cie_without pos (c ∷ rest) =
    let fde = c.emit pos (if c.with_personality then cie_with else cie_without) in
    fde ++ emit_fdes cie_with cie_without (pos + length fde) rest

-- The buffer: the two CIEs, the FDEs, and a zero.
unfoldable pub synthetic_frame : (image : Image) (gxx_personality : ℕ) → List CuEntry → List ℕ
synthetic_frame image gxx_personality entries =
    let with_personality = emit_cie 0 gxx_personality in
    let cie_without = length with_personality in
    let without = emit_cie cie_without 0 in
    with_personality
    ++ (without
        ++ (emit_fdes 0 cie_without (cie_without + length without) (all_covered image entries)
            ++ le 4 0))

abbrev pub syn_entry : (ehf_buf pos : ℕ) → List ℕ → HdrEntry
syn_entry ehf_buf pos frame = record {
  initial_location = field 8 (pos + 8) frame;
  address_range = field 8 (pos + 16) frame;
  fde_ptr = ehf_buf + pos;
  cfi_ptr = 0;
  cfi_size = 0;
}

-- A CIE, whose identifier is 0, makes no entry.
abbrev pub noted : (is_cie : Bool) → HdrEntry → Option (List HdrEntry) → Option (List HdrEntry)
noted true e rest = rest
noted false e none = none
noted false e (some entries) = some (e ∷ entries)

-- The walk over the buffer. None, if the rounds do not suffice.
unfoldable pub syn_entries_from :
    (ehf_buf : ℕ) (frame : List ℕ) (rounds pos : ℕ) → Option (List HdrEntry)
syn_entries_from ehf_buf frame zero pos = none
syn_entries_from ehf_buf frame (suc rounds) pos =
    let len = field 4 pos frame in
    let rest = syn_entries_from ehf_buf frame rounds (pos + 4 + len) in
    if ltb (pos + 4) (length frame) && not (len == 0)
    then noted (field 4 (pos + 4) frame == 0) (syn_entry ehf_buf pos frame) rest
    else some []

unfoldable pub syn_entries : (ehf_buf : ℕ) (frame : List ℕ) → Option (List HdrEntry)
syn_entries ehf_buf frame = syn_entries_from ehf_buf frame (suc (length frame)) 0

-- Synthetic entries first, then the native ones that no synthetic one shadows; `qsort` is the C library's.
unfoldable pub not_shadowed : (syn_entries native_entries : List HdrEntry) → List HdrEntry
unfolding has_entry_start
not_shadowed syn [] = []
not_shadowed syn (n ∷ native) =
    if has_entry_start syn n.initial_location
    then not_shadowed syn native
    else n ∷ not_shadowed syn native

unfoldable pub merged_entries :
    (qsort : List HdrEntry → List HdrEntry) (syn_entries native_entries : List HdrEntry)
    → List HdrEntry
unfolding not_shadowed
merged_entries qsort syn native = qsort (syn ++ not_shadowed syn native)
