-- ===== src/EhFrame/Emit.antt =====
-- The writers of src/eh_frame.c. What one appends to the buffer, of which `pos` bytes are written, is a list
-- of bytes; the length in front, which the code patches at the end, counts the bytes behind it. That the
-- buffer is large enough is not checked by the code.
use machgate.Base.{
  ℕ, ◌+◌, ◌-◌, ◌*◌, ◌%◌, ◌==◌, ltb, if◌then◌else◌, Bool, not, List, [], ◌∷◌, ◌++◌, length,
  replicate, bit_and, bit_or, u32, ◌>>>◌, le, negsuc,
}
use machgate.EhFrame.Leb.{ehf_uleb128, ehf_sleb128}

abbrev pub ehf_u8 : ℕ → List ℕ
ehf_u8 v = v % 256 ∷ []

abbrev pub ehf_u32 : ℕ → List ℕ
ehf_u32 v = le 4 v

abbrev pub ehf_u64 : ℕ → List ℕ
ehf_u64 v = le 8 v

-- The bytes up to the next multiple.
abbrev pub align_gap : (align pos : ℕ) → ℕ
align_gap align pos = (align - pos % align) % align

abbrev pub ehf_align : (align pos : ℕ) → List ℕ
ehf_align align pos = replicate (align_gap align pos) 0

-- A record from `pos` on: its length, its bytes, and the padding.
unfoldable pub framed : (pos : ℕ) → List ℕ → List ℕ
framed pos body =
    let padded = body ++ ehf_align 8 (pos + 4 + length body) in ehf_u32 (length padded) ++ padded

abbrev pub dwarf_reg_fp : ℕ
dwarf_reg_fp = 29

abbrev pub dwarf_reg_lr : ℕ
dwarf_reg_lr = 30

abbrev pub dwarf_reg_sp : ℕ
dwarf_reg_sp = 31

abbrev pub dw_cfa_advance_loc : ℕ
dw_cfa_advance_loc = 0x40

abbrev pub dw_cfa_offset : ℕ
dw_cfa_offset = 0x80

abbrev pub dw_cfa_offset_extended : ℕ
dw_cfa_offset_extended = 0x05

abbrev pub dw_cfa_def_cfa : ℕ
dw_cfa_def_cfa = 0x0c

abbrev pub dw_eh_pe_absptr : ℕ
dw_eh_pe_absptr = 0

abbrev pub has_lsda_bit : ℕ
has_lsda_bit = 0x40000000

-- "zPLR" or "zR", ended by a zero.
unfoldable pub augmentation : (personality_addr : ℕ) → List ℕ
augmentation personality_addr =
    if personality_addr == 0 then b'z' ∷ b'R' ∷ 0 ∷ [] else b'z' ∷ b'P' ∷ b'L' ∷ b'R' ∷ 0 ∷ []

unfoldable pub augmentation_data : (personality_addr : ℕ) → List ℕ
unfolding ehf_uleb128
augmentation_data personality_addr =
    if personality_addr == 0
    then ehf_uleb128 1 ++ ehf_u8 dw_eh_pe_absptr
    else ehf_uleb128 11
      ++ (ehf_u8 dw_eh_pe_absptr
          ++ (ehf_u64 personality_addr ++ (ehf_u8 dw_eh_pe_absptr ++ ehf_u8 dw_eh_pe_absptr)))

-- The identifier 0, version 1, the alignment factors 4 and -8, and the rule CFA = SP.
unfoldable pub cie_body : (personality_addr : ℕ) → List ℕ
unfolding ehf_uleb128 ehf_sleb128 augmentation augmentation_data
cie_body personality_addr =
    ehf_u32 0
    ++ (ehf_u8 1
        ++ (augmentation personality_addr
            ++ (ehf_uleb128 4
                ++ (ehf_sleb128 (negsuc 7)
                    ++ (ehf_uleb128 dwarf_reg_lr
                        ++ (augmentation_data personality_addr
                            ++ (ehf_u8 dw_cfa_def_cfa
                                ++ (ehf_uleb128 dwarf_reg_sp ++ ehf_uleb128 0))))))))

unfoldable pub emit_cie : (pos personality_addr : ℕ) → List ℕ
emit_cie pos personality_addr = framed pos (cie_body personality_addr)

-- The offset back to the CIE, the range of the function, and its LSDA if it has one.
unfoldable pub fde_header : (pos cie_offset func_addr func_size lsda_addr : ℕ) → List ℕ
unfolding ehf_uleb128
fde_header pos cie_offset func_addr func_size lsda_addr =
    ehf_u32 (pos + 4 - cie_offset)
    ++ (ehf_u64 func_addr
        ++ (ehf_u64 func_size
            ++ (if lsda_addr == 0 then ehf_uleb128 0 else ehf_uleb128 8 ++ ehf_u64 lsda_addr)))

-- The instructions for a saved pair of X registers, then those of the pairs behind it, which start two slots
-- further if this one is saved. The slots are counted from the first one that the pair may take: the code
-- writes `slot++` in a frame, and `++slot` without one.
abbrev pub save_x_pair : (saved : Bool) (reg slot : ℕ) → (ℕ → List ℕ) → List ℕ
save_x_pair saved reg slot behind =
    if saved
    then ehf_u8 (bit_or dw_cfa_offset reg)
      ++ (ehf_uleb128 slot
          ++ (ehf_u8 (bit_or dw_cfa_offset (reg + 1))
              ++ (ehf_uleb128 (slot + 1) ++ behind (slot + 2))))
    else behind slot

-- A D register needs more than the six bits of `DW_CFA_offset`.
abbrev pub save_d_pair : (saved : Bool) (reg slot : ℕ) → (ℕ → List ℕ) → List ℕ
save_d_pair saved reg slot behind =
    if saved
    then ehf_u8 dw_cfa_offset_extended
      ++ (ehf_uleb128 reg
          ++ (ehf_uleb128 slot
              ++ (ehf_u8 dw_cfa_offset_extended
                  ++ (ehf_uleb128 (reg + 1) ++ (ehf_uleb128 (slot + 1) ++ behind (slot + 2))))))
    else behind slot

abbrev pub has : ℕ → ℕ → Bool
has bits mask = not (bit_and bits mask == 0)

unfoldable pub save_d_pairs : (d_pairs slot : ℕ) → List ℕ
save_d_pairs d_pairs slot = save_d_pair (has d_pairs 0x1) 72 slot λ slot.
    save_d_pair (has d_pairs 0x2) 74 slot λ slot.
      save_d_pair (has d_pairs 0x4) 76 slot λ slot. save_d_pair (has d_pairs 0x8) 78 slot λ slot. []

unfoldable pub save_pairs : (encoding slot : ℕ) → List ℕ
unfolding save_d_pairs
save_pairs encoding slot =
    let x_pairs = bit_and encoding 0x1F in
    let d_pairs = bit_and (encoding >>> 8) 0x0F in
    save_x_pair (has x_pairs 0x01) 19 slot λ slot. save_x_pair (has x_pairs 0x02) 21 slot λ slot.
      save_x_pair (has x_pairs 0x04) 23 slot λ slot.
        save_x_pair (has x_pairs 0x08) 25 slot
          λ slot. save_x_pair (has x_pairs 0x10) 27 slot λ slot. save_d_pairs d_pairs slot

-- After the first instruction: CFA = FP + 16, LR and FP below it, and the saved pairs from the third slot on.
unfoldable pub cfi_frame : (encoding : ℕ) → List ℕ
unfolding ehf_uleb128
cfi_frame encoding =
    ehf_u8 (bit_or dw_cfa_advance_loc 1)
    ++ (ehf_u8 dw_cfa_def_cfa
        ++ (ehf_uleb128 dwarf_reg_fp
            ++ (ehf_uleb128 16
                ++ (ehf_u8 (bit_or dw_cfa_offset dwarf_reg_lr)
                    ++ (ehf_uleb128 1
                        ++ (ehf_u8 (bit_or dw_cfa_offset dwarf_reg_fp)
                            ++ (ehf_uleb128 2 ++ save_pairs encoding 3)))))))

unfoldable pub frameless_stack_size : (encoding : ℕ) → ℕ
frameless_stack_size encoding = u32 ((bit_and encoding 0x00FFF000 >>> 12) * 16)

unfoldable pub cfi_frameless : (encoding : ℕ) → List ℕ
unfolding ehf_uleb128
cfi_frameless encoding =
    if ltb 0 (frameless_stack_size encoding)
    then ehf_u8 (bit_or dw_cfa_advance_loc 1)
      ++ (ehf_u8 dw_cfa_def_cfa
          ++ (ehf_uleb128 dwarf_reg_sp
              ++ (ehf_uleb128 (frameless_stack_size encoding) ++ save_pairs encoding 1)))
    else []

module _ (pos cie_offset func_addr func_size : ℕ) where
  unfoldable pub emit_fde_frame : (encoding lsda_addr : ℕ) → List ℕ
  emit_fde_frame encoding lsda_addr =
      framed pos (fde_header pos cie_offset func_addr func_size lsda_addr ++ cfi_frame encoding)

  unfoldable pub emit_fde_frameless : (encoding lsda_addr : ℕ) → List ℕ
  emit_fde_frameless encoding lsda_addr =
      framed pos (fde_header pos cie_offset func_addr func_size lsda_addr ++ cfi_frameless encoding)

  unfoldable pub emit_fde_minimal : (lsda_addr : ℕ) → List ℕ
  emit_fde_minimal lsda_addr = framed pos (fde_header pos cie_offset func_addr func_size lsda_addr)

  -- The code of a native entry, which always comes with an LSDA.
  unfoldable pub emit_fde_with_native_cfi : (lsda_addr : ℕ) (cfi : List ℕ) → List ℕ
  unfolding ehf_uleb128
  emit_fde_with_native_cfi lsda_addr cfi = framed pos (
      ehf_u32 (pos + 4 - cie_offset)
      ++ (ehf_u64 func_addr
          ++ (ehf_u64 func_size ++ (ehf_uleb128 8 ++ (ehf_u64 lsda_addr ++ cfi)))))
