-- ===== src/EhFrame/Cfi/Frames.antt =====
-- The instructions that are written for a compact encoding give the frame that it stands for.
use mathlib.Core.List.{append_assoc}
use machgate.Base.{
  ℕ, ◌*◌, ◌/◌, ◌%◌, ◌^◌, ◌<◌, ◌≡◌, refl, arith, sym, subst, ◌==◌, ltb, true, false, Bool-cases, inl,
  inr, ◌∷◌, ◌++◌, replicate,
}
use machgate.Base.Bits.{and_mask, and_skip}
use machgate.EhFrame.Leb.{ehf_uleb128}
use machgate.EhFrame.Emit.{save_pairs, cfi_frame, cfi_frameless, frameless_stack_size}
use machgate.EhFrame.Cfi.{
  Row, Runs, padding, saved_registers, from_slot, at_entry, frame_row, frameless_row,
}
use machgate.EhFrame.Cfi.Pairs.{run_offset, run_def_cfa, run_advance, Saves-pairs}

-- What the code writes for a frame makes an unwinder find it as `frame_row` has it.
pub frame_cfi-Runs : (n e : ℕ) → Runs (cfi_frame e ++ replicate n 0) at_entry (frame_row e)
unfolding cfi_frame
frame_cfi-Runs n e = run_advance _ at_entry _ (
    run_def_cfa 29 16 _ _ _ (omega arith) (omega arith) (
      run_offset 30 1 _ _ _ (omega arith) (omega arith)
        (run_offset 29 2 _ _ _ (omega arith) (omega arith) (Saves-pairs n e 3 _ (omega arith)))))

frameless_size : (e : ℕ) → frameless_stack_size e ≡ e / 2 ^ 12 % 2 ^ 12 * 16
unfolding frameless_stack_size
frameless_size e = omega (arith, and_skip 12 e 0xFFF, and_mask 12 (e / 2 ^ 12))

abbrev area_row : (e size : ℕ) → Row
area_row e size = record {
  loc = 1;
  cfa_reg = 31;
  cfa_offset = size;
  saved = from_slot 1 (saved_registers e);
}

area-Runs :
    (n e size : ℕ)
    → size < 2 ^ 64
    → Runs
        (0x41 ∷ 0x0c ∷ (ehf_uleb128 31 ++ (ehf_uleb128 size ++ (save_pairs e 1 ++ replicate n 0))))
        at_entry
        (area_row e size)
area-Runs n e size h =
    run_advance _ at_entry _
      (run_def_cfa 31 size _ _ _ (omega arith) h (Saves-pairs n e 1 _ (omega arith)))

pub frameless_cfi-Runs :
    (n e : ℕ) → Runs (cfi_frameless e ++ replicate n 0) at_entry (frameless_row e)
unfolding cfi_frameless
frameless_cfi-Runs n e = elim (Bool-cases (e / 2 ^ 12 % 2 ^ 12 * 16 == 0)) [
  | inl none_left ↦
      let no_area : ltb 0 (frameless_stack_size e) ≡ false = ground (arith, frameless_size e) in
      rw (no_area, none_left) (padding n refl)
  | inr area ↦
      let some_area : ltb 0 (frameless_stack_size e) ≡ true = ground (arith, frameless_size e) in
      rw (some_area, area, frameless_size e)
        (subst (λ t. Runs (0x41 ∷ 0x0c ∷ 31 ∷ t) at_entry (area_row e (e / 2 ^ 12 % 2 ^ 12 * 16)))
          (sym (
            append_assoc (ehf_uleb128 (e / 2 ^ 12 % 2 ^ 12 * 16)) (save_pairs e 1) (replicate n 0)))
          (area-Runs n e (e / 2 ^ 12 % 2 ^ 12 * 16) (omega arith)))
]
