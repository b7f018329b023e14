-- ===== src/Resolver/Rebase/Ends.antt =====
-- The loop ends.
use machgate.Base.{ℕ, zero, suc, ◌≤◌, ◌≢◌, arith, List, [], ◌∷◌, length, bit_and}
use machgate.EhFrame.Leb.{eh_read_uleb128}
use machgate.EhFrame.Leb.Laws.{length-read_uleb128_from}
use machgate.Memory.{Memory}
use machgate.Resolver.Rebase.{
  Image, RebaseState, RebaseStep, next, done, unknown, rebase_step, finished, failed, out_of_rounds,
  rebase_loop, process_rebases, read_uleb128,
}

pub length-read_uleb128 : (p : List ℕ) → length (read_uleb128 p).1 ≤ length p
unfolding read_uleb128 eh_read_uleb128
length-read_uleb128 p = length-read_uleb128_from 0 0 p

-- A step takes no bytes back.
abbrev Shrinks : (p : List ℕ) → RebaseStep → Type 0
Shrinks p (next st p') = length p' ≤ length p
Shrinks p (done st) = Unit {0}
Shrinks p (unknown st) = Unit {0}

module _ (image : Image) where
  rebase_step-Shrinks :
      (opcode imm : ℕ) (p : List ℕ) (st : RebaseState)
      → Shrinks p (rebase_step image opcode imm p st)
  unfolding rebase_step
  rebase_step-Shrinks opcode imm p st =
      ground (arith, length-read_uleb128 p, length-read_uleb128 (read_uleb128 p).1)

  after_step :
      (rounds : ℕ) (p : List ℕ) (step : RebaseStep)
      → ((p' : List ℕ) (st : RebaseState)
          → length p' ≤ rounds
          → rebase_loop image rounds p' st ≢ out_of_rounds)
      → length p ≤ rounds
      → Shrinks p step
      → (elim step [
        | next st' p' ↦ rebase_loop image rounds p' st'
        | done st' ↦ finished st'
        | unknown st' ↦ failed st'
      ])
        ≢ out_of_rounds
  after_step rounds p (next st p') ends h shrinks = ends p' st (omega arith)
  after_step rounds p (done st) ends h shrinks = λ e. cc
  after_step rounds p (unknown st) ends h shrinks = λ e. cc

  rebase_loop-ends :
      (rounds : ℕ) (p : List ℕ) (st : RebaseState)
      → length p ≤ rounds
      → rebase_loop image rounds p st ≢ out_of_rounds
  unfolding rebase_loop
  rebase_loop-ends rounds [] st h = λ e. cc
  rebase_loop-ends zero (byte ∷ p) st h = absurd (omega arith)
  rebase_loop-ends (suc rounds) (byte ∷ p) st h =
      after_step rounds p (rebase_step image (bit_and byte 0xF0) (bit_and byte 0x0F) p st)
        (rebase_loop-ends rounds) (omega arith)
        (rebase_step-Shrinks (bit_and byte 0xF0) (bit_and byte 0x0F) p st)

  -- Whatever the opcodes are, the loop ends: at an end mark, an unknown opcode or the end of the bytes.
  pub process_rebases-ends : (p : List ℕ) (m : Memory) → process_rebases image p m ≢ out_of_rounds
  unfolding process_rebases
  process_rebases-ends p m = rebase_loop-ends (length p) p _ (omega arith)
