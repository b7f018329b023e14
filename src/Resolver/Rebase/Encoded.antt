-- ===== src/Resolver/Rebase/Encoded.antt =====
-- A program is run as it is meant.
use mathlib.Core.List.{append_assoc}
use machgate.Base.{
  ℕ, zero, suc, ◌+◌, ◌*◌, ◌/◌, ◌%◌, ◌^◌, ◌<◌, ◌≡◌, refl, arith, sym, ap, ◌∙◌, List, [], ◌∷◌, ◌++◌,
  length, length-append, Option, none, some, bit_and, u64,
}
use machgate.Base.Bits.{and_mask, and_skip}
use machgate.EhFrame.Leb.{ehf_uleb128}
use machgate.EhFrame.Leb.Laws.{eh_read_uleb128-ehf_uleb128}
use machgate.Memory.{Memory}
use machgate.Resolver.Rebase.{
  Image, slot_of, RebaseState, next, slide_word, rebase_one, rebase_times, rebase_step, finished,
  rebase_loop, process_rebases, read_uleb128,
}
use machgate.Resolver.Rebase.Program.{
  Insn, set_type, set_segment, add_addr, add_scaled, rebase_imm, rebase_count, rebase_add,
  rebase_skipping, insn_bytes, InsnFits, AllFit, program_bytes, Place, run_of, after_run,
  insn_places, insn_after, places_of, after_all, slide_places, put_cursor,
}

pub read_uleb128-ehf_uleb128 :
    (v : ℕ) (rest : List ℕ) → v < 2 ^ 64 → read_uleb128 (ehf_uleb128 v ++ rest) ≡ (v, rest)
unfolding read_uleb128
read_uleb128-ehf_uleb128 v rest h = eh_read_uleb128-ehf_uleb128 v rest h

-- The two halves of an instruction's first byte.
pub opcode_of : (k imm : ℕ) → imm < 16 → bit_and (k * 16 + imm) 0xF0 ≡ bit_and k 15 * 16
opcode_of k imm h =
    let q : (k * 16 + imm) / 2 ^ 4 ≡ k = omega arith in
    and_skip 4 (k * 16 + imm) 15 ∙ ap (λ t. bit_and t 15 * 16) q

pub imm_of : (k imm : ℕ) → imm < 16 → bit_and (k * 16 + imm) 0x0F ≡ imm
imm_of k imm h =
    and_mask 4 (k * 16 + imm) ∙ (let e : (k * 16 + imm) % 2 ^ 4 ≡ imm = omega arith in e)

module _ (image : Image) where
  -- Sliding does not look at the cursor.
  slide_word-put_cursor :
      (slot : Option ℕ) (place : Place) (st : RebaseState)
      → slide_word image slot (put_cursor place st) ≡ put_cursor place (slide_word image slot st)
  slide_word-put_cursor none place st = refl
  slide_word-put_cursor (some addr) place st = refl

  slide_places-put_cursor :
      (places : List Place) (place : Place) (st : RebaseState)
      → slide_places image places (put_cursor place st)
        ≡ put_cursor place (slide_places image places st)
  slide_places-put_cursor [] place st = refl
  slide_places-put_cursor ((seg, offset) ∷ places) place st =
      ap (slide_places image places) (slide_word-put_cursor (slot_of image seg offset) place st)
      ∙ slide_places-put_cursor places place (slide_word image (slot_of image seg offset) st)

  slide_places-append :
      (xs ys : List Place) (st : RebaseState)
      → slide_places image (xs ++ ys) st ≡ slide_places image ys (slide_places image xs st)
  slide_places-append [] ys st = refl
  slide_places-append ((seg, offset) ∷ xs) ys st =
      slide_places-append xs ys (slide_word image (slot_of image seg offset) st)

  rebase_one_lem :
      (stride : ℕ) (seg offset : ℕ) (st : RebaseState)
      → rebase_one image stride (put_cursor (seg, offset) st)
        ≡ put_cursor (seg, u64 (offset + stride)) (slide_word image (slot_of image seg offset) st)
  unfolding rebase_one
  rebase_one_lem stride seg offset st =
      ap (λ (s : RebaseState). record s { seg_offset = u64 (offset + stride) })
        (slide_word-put_cursor (slot_of image seg offset) (seg, offset) st)

  times_lem :
      (count stride : ℕ) (place : Place) (st : RebaseState)
      → rebase_times image count stride (put_cursor place st)
        ≡ put_cursor
            (after_run count stride place)
            (slide_places image (run_of count stride place) st)
  unfolding rebase_times
  times_lem zero stride place st = refl
  times_lem (suc count) stride (seg, offset) st =
      ap (rebase_times image count stride) (rebase_one_lem stride seg offset st)
      ∙ times_lem count stride (seg, u64 (offset + stride))
          (slide_word image (slot_of image seg offset) st)

  step_lem :
      (i : Insn) (place : Place) (st : RebaseState) (rest : List ℕ)
      → InsnFits i
      → (byte : ℕ) × (p : List ℕ) × (insn_bytes i ++ rest ≡ byte ∷ p)
        × (rebase_step image (bit_and byte 0xF0) (bit_and byte 0x0F) p (put_cursor place st)
            ≡ next
                (put_cursor (insn_after i place) (slide_places image (insn_places i place) st))
                rest)
  unfolding rebase_step
  step_lem (set_type imm) place st rest fits =
      (0x10 + imm, rest, refl, rw (opcode_of 1 imm fits) refl)
  step_lem (set_segment imm offset) place st rest (fits, small) = (
    0x20 + imm,
    ehf_uleb128 offset ++ rest,
    refl,
    rw (opcode_of 2 imm fits, imm_of 2 imm fits, read_uleb128-ehf_uleb128 offset rest small) refl,
  )
  step_lem (add_addr offset) place st rest fits =
      (0x30, ehf_uleb128 offset ++ rest, refl, rw (read_uleb128-ehf_uleb128 offset rest fits) refl)
  step_lem (add_scaled imm) place st rest fits =
      (0x40 + imm, rest, refl, rw (opcode_of 4 imm fits, imm_of 4 imm fits) refl)
  step_lem (rebase_imm imm) place st rest fits = (
    0x50 + imm,
    rest,
    refl,
    rw (opcode_of 5 imm fits, imm_of 5 imm fits) (ap (λ s. next s rest) (times_lem imm 8 place st)),
  )
  step_lem (rebase_count count) place st rest fits = (
    0x60,
    ehf_uleb128 count ++ rest,
    refl,
    rw (read_uleb128-ehf_uleb128 count rest fits)
        (ap (λ s. next s rest) (times_lem count 8 place st)),
  )
  step_lem (rebase_add offset) (seg, at) st rest fits = (
    0x70,
    ehf_uleb128 offset ++ rest,
    refl,
    rw (read_uleb128-ehf_uleb128 offset rest fits)
        (ap (λ s. next s rest) (rebase_one_lem (u64 (offset + 8)) seg at st)),
  )
  step_lem (rebase_skipping count skip) place st rest (fits, small) = (
    0x80,
    ehf_uleb128 count ++ (ehf_uleb128 skip ++ rest),
    ap (λ t. 0x80 ∷ t) (append_assoc (ehf_uleb128 count) (ehf_uleb128 skip) rest),
    rw (read_uleb128-ehf_uleb128 count (ehf_uleb128 skip ++ rest) fits) (
        rw (read_uleb128-ehf_uleb128 skip rest small)
          (ap (λ s. next s rest) (times_lem count (u64 (skip + 8)) place st))),
  )

  program_run :
      (insns : List Insn) (place : Place) (st : RebaseState) (rest : List ℕ) (rounds : ℕ)
      → AllFit insns
      → length insns < rounds
      → rebase_loop image rounds (program_bytes insns ++ 0 ∷ rest) (put_cursor place st)
        ≡ finished
            (put_cursor (after_all insns place) (slide_places image (places_of insns place) st))
  unfolding rebase_loop
  program_run [] place st rest zero fit h = absurd (omega arith)
  program_run [] place st rest (suc rounds) fit h = refl
  program_run (i ∷ insns) place st rest zero fit h = absurd (omega arith)
  program_run (i ∷ insns) place st rest (suc rounds) (fits, fit) h =
      let (byte, p, bytes, step) = step_lem i place st (program_bytes insns ++ 0 ∷ rest) fits in
      let all : program_bytes (i ∷ insns) ++ 0 ∷ rest ≡ byte ∷ p =
        append_assoc (insn_bytes i) (program_bytes insns) (0 ∷ rest) ∙ bytes in
      rw all (
        rw (step, rebase_loop)
          (program_run insns (insn_after i place) (slide_places image (insn_places i place) st) rest
              rounds fit (omega arith)
            ∙ ap (λ s. finished (put_cursor (after_all insns (insn_after i place)) s))
                (sym (
                  slide_places-append (insn_places i place) (places_of insns (insn_after i place))
                    st))))

  some_bytes : (i : Insn) → 0 < length (insn_bytes i)
  some_bytes (set_type imm) = omega arith
  some_bytes (set_segment imm offset) = omega arith
  some_bytes (add_addr offset) = omega arith
  some_bytes (add_scaled imm) = omega arith
  some_bytes (rebase_imm imm) = omega arith
  some_bytes (rebase_count count) = omega arith
  some_bytes (rebase_add offset) = omega arith
  some_bytes (rebase_skipping count skip) = omega arith

  length-program :
      (insns : List Insn) (rest : List ℕ) → length insns < length (program_bytes insns ++ 0 ∷ rest)
  length-program [] rest = omega arith
  length-program (i ∷ insns) rest = omega (
    arith,
    length-program insns rest,
    length-append (insn_bytes i ++ program_bytes insns) (0 ∷ rest),
    length-append (insn_bytes i) (program_bytes insns),
    length-append (program_bytes insns) (0 ∷ rest),
    some_bytes i,
  )

  pub process_rebases-program :
      (insns : List Insn) (rest : List ℕ) (m : Memory)
      → AllFit insns
      → process_rebases image (program_bytes insns ++ 0 ∷ rest) m
        ≡ finished (
            put_cursor (after_all insns (0, 0)) (
              slide_places image
                (places_of insns (0, 0))
                (record { memory = m; rebases_applied = 0; seg_index = 0; seg_offset = 0 })))
  unfolding process_rebases
  process_rebases-program insns rest m fit =
      program_run insns (0, 0)
        (record { memory = m; rebases_applied = 0; seg_index = 0; seg_offset = 0 }) rest
        (length (program_bytes insns ++ 0 ∷ rest)) fit (length-program insns rest)
