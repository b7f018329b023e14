-- ===== src/Resolver/Bind/Encoded.antt =====
-- A program of binds is run as it is meant.
use mathlib.Core.List.{append_assoc}
use machgate.Base.{
  ℕ, zero, suc, ◌+◌, ◌-◌, ◌<◌, ◌≤◌, ◌≡◌, refl, arith, sym, ap, ◌∙◌, Bool, true, false, ne→==_false,
  List, [], ◌∷◌, ◌++◌, length, length-append, some, bit_and, u64,
}
use machgate.Config.Text.{split_at}
use machgate.EhFrame.Leb.{ehf_uleb128}
use machgate.Resolver.Rebase.Encoded.{read_uleb128-ehf_uleb128, opcode_of, imm_of}
use machgate.Resolver.Bind.{
  BindCursor, BindRequest, next, finished, first_cursor, request_of, c_string, bind_one, bind_times,
  bind_step, bind_loop, process_binds,
}
use machgate.Resolver.Bind.Program.{
  Insn, set_ordinal_imm, set_ordinal, set_special, set_symbol, set_type, set_addend, set_segment,
  add_addr, bind, bind_add, bind_scaled, bind_skipping, insn_bytes, HasNoZero, InsnFits, AllFit,
  program_bytes, advanced, run_of, after_run, insn_binds, insn_after, binds_of, after_all, bind_all,
  AllGroupsFit, groups_bytes, groups_binds,
}

split_at-name :
    (name rest : List ℕ) → HasNoZero name → split_at 0 (name ++ 0 ∷ rest) ≡ some (name, rest)
unfolding split_at
split_at-name [] rest h = refl
split_at-name (c ∷ name) rest (ne, h) = rw (ne→==_false c 0 ne, split_at-name name rest h) refl

c_string-name :
    (name rest : List ℕ) → HasNoZero name → c_string ((name ++ 0 ∷ []) ++ rest) ≡ (name, rest)
c_string-name name rest h =
    rw (append_assoc name (0 ∷ []) rest) (rw (split_at-name name rest h, c_string) refl)

module _ {ℓ} {S : Type ℓ} (do_bind : BindRequest → S → S) where
  times_lem :
      (count stride : ℕ) (c : BindCursor) (s : S)
      → bind_times do_bind count stride (record { cursor = c; bound = s }) ≡ record {
        cursor = after_run count stride c;
        bound = bind_all do_bind (run_of count stride c) s;
      }
  unfolding bind_times bind_one
  times_lem zero stride c s = refl
  times_lem (suc count) stride c s =
      times_lem count stride (advanced stride c) (do_bind (request_of c) s)

  pub bind_all-append :
      (xs ys : List BindRequest) (s : S)
      → bind_all do_bind (xs ++ ys) s ≡ bind_all do_bind ys (bind_all do_bind xs s)
  bind_all-append [] ys s = refl
  bind_all-append (r ∷ xs) ys s = bind_all-append xs ys (do_bind r s)

  -- An instruction's first byte, and the step that the others make.
  step_lem :
      (lazy : Bool) (i : Insn) (c : BindCursor) (s : S) (rest : List ℕ)
      → InsnFits i
      → (byte : ℕ) × (p : List ℕ) × (insn_bytes i ++ rest ≡ byte ∷ p)
        × (bind_step do_bind lazy
              (bit_and byte 0xF0)
              (bit_and byte 0x0F)
              p
              (record { cursor = c; bound = s })
            ≡ next
                (record { cursor = insn_after i c; bound = bind_all do_bind (insn_binds i c) s })
                rest)
  unfolding bind_step bind_one
  step_lem lazy (set_ordinal_imm imm) c s rest fits =
      (0x10 + imm, rest, refl, rw (opcode_of 1 imm fits, imm_of 1 imm fits) refl)
  step_lem lazy (set_ordinal ordinal) c s rest fits = (
    0x20,
    ehf_uleb128 ordinal ++ rest,
    refl,
    rw (read_uleb128-ehf_uleb128 ordinal rest fits) refl,
  )
  step_lem lazy (set_special imm) c s rest fits =
      (0x30 + imm, rest, refl, rw (opcode_of 3 imm fits, imm_of 3 imm fits) refl)
  step_lem lazy (set_symbol flags name) c s rest (fits, no_zero) = (
    0x40 + flags,
    (name ++ 0 ∷ []) ++ rest,
    refl,
    rw (opcode_of 4 flags fits, imm_of 4 flags fits) (rw (c_string-name name rest no_zero) refl),
  )
  step_lem lazy (set_type imm) c s rest fits =
      (0x50 + imm, rest, refl, rw (opcode_of 5 imm fits) refl)
  step_lem lazy (set_addend bytes addend) c s rest fits =
      (0x60, bytes ++ rest, refl, rw (fits rest) refl)
  step_lem lazy (set_segment imm offset) c s rest (fits, small) = (
    0x70 + imm,
    ehf_uleb128 offset ++ rest,
    refl,
    rw (opcode_of 7 imm fits, imm_of 7 imm fits, read_uleb128-ehf_uleb128 offset rest small) refl,
  )
  step_lem lazy (add_addr offset) c s rest fits =
      (0x80, ehf_uleb128 offset ++ rest, refl, rw (read_uleb128-ehf_uleb128 offset rest fits) refl)
  step_lem lazy bind c s rest fits = (0x90, rest, refl, refl)
  step_lem lazy (bind_add offset) c s rest fits =
      (0xA0, ehf_uleb128 offset ++ rest, refl, rw (read_uleb128-ehf_uleb128 offset rest fits) refl)
  step_lem lazy (bind_scaled imm) c s rest fits =
      (0xB0 + imm, rest, refl, rw (opcode_of 11 imm fits, imm_of 11 imm fits) refl)
  step_lem lazy (bind_skipping count skip) c s rest (fits, small) = (
    0xC0,
    ehf_uleb128 count ++ (ehf_uleb128 skip ++ rest),
    ap (λ t. 0xC0 ∷ t) (append_assoc (ehf_uleb128 count) (ehf_uleb128 skip) rest),
    rw (read_uleb128-ehf_uleb128 count (ehf_uleb128 skip ++ rest) fits) (
        rw (read_uleb128-ehf_uleb128 skip rest small)
          (ap (λ t. next t rest) (times_lem count (u64 (skip + 8)) c s))),
  )

  some_bytes : (i : Insn) → 0 < length (insn_bytes i)
  some_bytes (set_ordinal_imm imm) = omega arith
  some_bytes (set_ordinal ordinal) = omega arith
  some_bytes (set_special imm) = omega arith
  some_bytes (set_symbol flags name) = omega arith
  some_bytes (set_type imm) = omega arith
  some_bytes (set_addend bytes addend) = omega arith
  some_bytes (set_segment imm offset) = omega arith
  some_bytes (add_addr offset) = omega arith
  some_bytes bind = omega arith
  some_bytes (bind_add offset) = omega arith
  some_bytes (bind_scaled imm) = omega arith
  some_bytes (bind_skipping count skip) = omega arith

  length-program : (insns : List Insn) → length insns ≤ length (program_bytes insns)
  length-program [] = omega arith
  length-program (i ∷ insns) = omega (
    arith,
    length-program insns,
    length-append (insn_bytes i) (program_bytes insns),
    some_bytes i,
  )

  -- A program in front of other bytes.
  program_run :
      (lazy : Bool) (insns : List Insn) (c : BindCursor) (s : S) (rest : List ℕ) (rounds left : ℕ)
      → AllFit insns
      → rounds ≡ length insns + left
      → bind_loop do_bind lazy rounds
          (program_bytes insns ++ rest)
          (record { cursor = c; bound = s })
        ≡ bind_loop do_bind lazy left rest
            (record { cursor = after_all insns c; bound = bind_all do_bind (binds_of insns c) s })
  unfolding bind_loop
  program_run lazy [] c s rest rounds left fit h =
      let e : rounds ≡ left = omega arith in
      ap (λ n. bind_loop do_bind lazy n rest (record { cursor = c; bound = s })) e
  program_run lazy (i ∷ insns) c s rest zero left fit h = absurd (omega arith)
  program_run lazy (i ∷ insns) c s rest (suc rounds) left (fits, fit) h =
      let (byte, p, bytes, step) = step_lem lazy i c s (program_bytes insns ++ rest) fits in
      let all : program_bytes (i ∷ insns) ++ rest ≡ byte ∷ p =
        append_assoc (insn_bytes i) (program_bytes insns) rest ∙ bytes in
      rw all (
        rw (step, bind_loop)
          (program_run lazy insns (insn_after i c) (bind_all do_bind (insn_binds i c) s) rest rounds
              left fit (omega arith)
            ∙ ap
                (λ t.
                  bind_loop do_bind lazy left rest
                    (record { cursor = after_all insns (insn_after i c); bound = t }))
                (sym (bind_all-append (insn_binds i c) (binds_of insns (insn_after i c)) s))))

  -- In the passes that are not lazy, the binds of a program up to the end mark are made, in order.
  pub process_binds-program :
      (insns : List Insn) (rest : List ℕ) (s : S)
      → AllFit insns
      → process_binds do_bind false (program_bytes insns ++ 0 ∷ rest) s
        ≡ finished (record {
          cursor = after_all insns first_cursor;
          bound = bind_all do_bind (binds_of insns first_cursor) s;
        })
  unfolding process_binds bind_loop
  process_binds-program insns rest s fit =
      let n : ℕ = length (program_bytes insns ++ 0 ∷ rest) in
      let left : ℕ = length (program_bytes insns) - length insns + length rest in
      program_run false insns first_cursor s (0 ∷ rest) n (suc left) fit
        (omega (arith, length-append (program_bytes insns) (0 ∷ rest), length-program insns))

  -- The end marks of the lazy pass only separate: all the programs are run, up to the end of the bytes.
  groups_run :
      (groups : List (List Insn)) (c : BindCursor) (s : S) (rounds : ℕ)
      → AllGroupsFit groups
      → length (groups_bytes groups) ≤ rounds
      → (c' : BindCursor) × (bind_loop do_bind true rounds
            (groups_bytes groups)
            (record { cursor = c; bound = s })
          ≡ finished (record { cursor = c'; bound = bind_all do_bind (groups_binds groups c) s }))
  unfolding bind_loop
  groups_run [] c s rounds fit h = (c, refl)
  groups_run (g ∷ groups) c s rounds (fits, fit) h =
      let rest : List ℕ = groups_bytes groups in
      let left : ℕ = rounds - length g - 1 in
      let long = length-append (program_bytes g) (0 ∷ rest) in
      let s' : S = bind_all do_bind (binds_of g c) s in
      let (c', run) =
        groups_run groups (after_all g c) s' left fit (omega (arith, length-program g)) in
      (
        c',
        program_run true g c s (0 ∷ rest) rounds (suc left) fits (omega (arith, length-program g))
            ∙ run
            ∙ ap (λ t. finished (record { cursor = c'; bound = t }))
                (sym (bind_all-append (binds_of g c) (groups_binds groups (after_all g c)) s)),
      )

  pub process_binds-groups :
      (groups : List (List Insn)) (s : S)
      → AllGroupsFit groups
      → (c : BindCursor) × (process_binds do_bind true (groups_bytes groups) s
          ≡ finished (record {
            cursor = c;
            bound = bind_all do_bind (groups_binds groups first_cursor) s;
          }))
  unfolding process_binds
  process_binds-groups groups s fit =
      groups_run groups first_cursor s (length (groups_bytes groups)) fit (omega arith)
