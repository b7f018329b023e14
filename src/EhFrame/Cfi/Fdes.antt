-- ===== src/EhFrame/Cfi/Fdes.antt =====
-- The frame that an unwinder finds by an FDE.
use mathlib.Core.List.{append-nil}
use machgate.Base.{
  ℕ, ◌+◌, ◌≡◌, refl, ◌==◌, Bool-cases, inl, inr, List, [], ◌++◌, length, replicate, sym, subst,
}
use machgate.EhFrame.Leb.{eh_read_uleb128}
use machgate.EhFrame.Emit.{
  framed, fde_header, cfi_frame, cfi_frameless, emit_fde_frame, emit_fde_frameless,
  emit_fde_minimal, ehf_align, align_gap,
}
use machgate.EhFrame.Cfi.{Row, Runs, padding, at_entry, frame_row, frameless_row, instructions_of}
use machgate.EhFrame.Cfi.Frames.{frame_cfi-Runs, frameless_cfi-Runs}

module _ (pos cie_offset func_addr func_size lsda_addr : ℕ) where
  abbrev described : List ℕ → List ℕ
  described cfi = fde_header pos cie_offset func_addr func_size lsda_addr ++ cfi

  instructions_of-framed :
      (cfi : List ℕ)
      → instructions_of (framed pos (described cfi))
        ≡ cfi ++ ehf_align 8 (pos + 4 + length (described cfi))
  unfolding framed fde_header instructions_of eh_read_uleb128
  instructions_of-framed cfi = elim (Bool-cases (lsda_addr == 0)) [
    | inl none_there ↦ rw none_there refl
    | inr there ↦ rw there refl
  ]

  framed-Runs :
      (cfi : List ℕ) (out : Row)
      → ((n : ℕ) → Runs (cfi ++ replicate n 0) at_entry out)
      → Runs (instructions_of (framed pos (described cfi))) at_entry out
  framed-Runs cfi out runs =
      subst (λ t. Runs t at_entry out) (sym (instructions_of-framed cfi))
        (runs (align_gap 8 (pos + 4 + length (described cfi))))

  -- Whatever the encoding and the function are, an unwinder that runs the instructions of the FDE finds, from
  -- the second instruction of the function on, the registers where the compact encoding puts them: for a
  -- frame, and without one. By a minimal FDE it finds the rule of the entry.
  pub emit_fde-Unwinds :
      (encoding : ℕ)
      → Runs
          (instructions_of (emit_fde_frame pos cie_offset func_addr func_size encoding lsda_addr))
          at_entry
          (frame_row encoding)
        × Runs
            (instructions_of
              (emit_fde_frameless pos cie_offset func_addr func_size encoding lsda_addr))
            at_entry
            (frameless_row encoding)
        × Runs
            (instructions_of (emit_fde_minimal pos cie_offset func_addr func_size lsda_addr))
            at_entry
            at_entry
  unfolding emit_fde_frame emit_fde_frameless emit_fde_minimal
  emit_fde-Unwinds encoding = (
    framed-Runs (cfi_frame encoding) (frame_row encoding) (λ n. frame_cfi-Runs n encoding),
    framed-Runs (cfi_frameless encoding) (frameless_row encoding)
        (λ n. frameless_cfi-Runs n encoding),
    subst (λ t. Runs (instructions_of (framed pos t)) at_entry at_entry)
        (append-nil (fde_header pos cie_offset func_addr func_size lsda_addr))
        (framed-Runs [] at_entry (λ n. padding n refl)),
  )
