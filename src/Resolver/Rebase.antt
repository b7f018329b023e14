-- ===== src/Resolver/Rebase.antt =====
-- The rebases of `process_dyld_info` in src/resolver.c. The bytes from `p` to `end` are a list.
pub mod Program
pub mod Encoded
pub mod Ends
pub mod Slide
use machgate.Base.{
  ℕ, zero, suc, ◌+◌, ◌*◌, ◌^◌, ◌==◌, if◌then◌else◌, List, [], ◌∷◌, length, get_elem?, Option, none,
  some, bit_and, u64,
}
use machgate.EhFrame.Leb.{eh_read_uleb128}
use machgate.Memory.{Memory}
use machgate.Memory.Words.{load64, store64}

-- The loop of `read_uleb128` is that of src/eh_frame.c.
unfoldable pub read_uleb128 : List ℕ → ℕ × List ℕ
read_uleb128 p = eh_read_uleb128 p

-- The addresses of the segments, and the slide.
pub record Image : Type 0 where
  pub segments : List ℕ
  pub slide : ℕ

abbrev pub slot_of : Image → (seg_index seg_offset : ℕ) → Option ℕ
slot_of image seg_index seg_offset = elim (get_elem? image.segments seg_index) [
  | none ↦ none
  | some vmaddr ↦ some (u64 (vmaddr + image.slide + seg_offset))
]

pub record RebaseState : Type 0 where
  pub memory : Memory
  pub rebases_applied : ℕ
  pub seg_index : ℕ
  pub seg_offset : ℕ

pub data RebaseStep : Type 0 where
  next : RebaseState → List ℕ → RebaseStep
  done : RebaseState → RebaseStep
  unknown : RebaseState → RebaseStep

pub data RebaseEnd : Type 0 where
  finished : RebaseState → RebaseEnd
  failed : RebaseState → RebaseEnd
  out_of_rounds : RebaseEnd

module _ (image : Image) where
  abbrev pub slide_word : Option ℕ → RebaseState → RebaseState
  slide_word none st = st
  slide_word (some addr) st = record st {
    memory = store64 st.memory addr (u64 (load64 st.memory addr + image.slide));
    rebases_applied = st.rebases_applied + 1;
  }

  -- One rebase, and on by `stride` bytes.
  unfoldable pub rebase_one : (stride : ℕ) → RebaseState → RebaseState
  rebase_one stride st = record (slide_word (slot_of image st.seg_index st.seg_offset) st) {
    seg_offset = u64 (st.seg_offset + stride);
  }

  unfoldable pub rebase_times : (count stride : ℕ) → RebaseState → RebaseState
  unfolding rebase_one
  rebase_times zero stride st = st
  rebase_times (suc count) stride st = rebase_times count stride (rebase_one stride st)

  unfoldable pub rebase_step : (opcode imm : ℕ) → (p : List ℕ) → RebaseState → RebaseStep
  unfolding read_uleb128 rebase_times rebase_one
  rebase_step opcode imm p st =
      let (uleb_val, p') = read_uleb128 p in
      let (skip, p'') = read_uleb128 p' in
      if opcode == 0x00
      then done st
      else if opcode == 0x10
      then next st p
      else if opcode == 0x20
      then next (record st { seg_index = imm; seg_offset = uleb_val }) p'
      else if opcode == 0x30
      then next (record st { seg_offset = u64 (st.seg_offset + uleb_val) }) p'
      else if opcode == 0x40
      then next (record st { seg_offset = u64 (st.seg_offset + imm * 8) }) p
      else if opcode == 0x50
      then next (rebase_times imm 8 st) p
      else if opcode == 0x60
      then next (rebase_times uleb_val 8 st) p'
      else if opcode == 0x70
      then next (rebase_one (u64 (uleb_val + 8)) st) p'
      else if opcode == 0x80
      then next (rebase_times uleb_val (u64 (skip + 8)) st) p''
      else unknown st

  unfoldable pub rebase_loop : (rounds : ℕ) → (p : List ℕ) → RebaseState → RebaseEnd
  unfolding rebase_step
  rebase_loop rounds [] st = finished st
  rebase_loop zero (byte ∷ p) st = out_of_rounds
  rebase_loop (suc rounds) (byte ∷ p) st =
      elim (rebase_step (bit_and byte 0xF0) (bit_and byte 0x0F) p st) [
        | next st' p' ↦ rebase_loop rounds p' st'
        | done st' ↦ finished st'
        | unknown st' ↦ failed st'
      ]

  unfoldable pub process_rebases : (p : List ℕ) → Memory → RebaseEnd
  unfolding rebase_loop
  process_rebases p m =
      rebase_loop (length p) p
        (record { memory = m; rebases_applied = 0; seg_index = 0; seg_offset = 0 })
