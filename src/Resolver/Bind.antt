-- ===== src/Resolver/Bind.antt =====
-- The binds of `process_dyld_info` in src/resolver.c: the opcodes, over what `do_bind_one` changes.
pub mod Program
pub mod Encoded
pub mod One
use machgate.Base.{
  ℕ, zero, suc, ◌+◌, ◌-◌, ◌*◌, ◌^◌, ◌==◌, ltb, if◌then◌else◌, Bool, true, false, not, List, [], ◌∷◌,
  length, Option, none, some, bit_and, u64, u32, ℤ, pos, negsuc,
}
use machgate.Config.Text.{split_at}
use machgate.EhFrame.Leb.{eh_read_sleb128}
use machgate.Resolver.Rebase.{read_uleb128}

-- The loop of `read_sleb128` is that of src/eh_frame.c; its variable starts as 0.
unfoldable pub read_sleb128 : List ℕ → ℤ × List ℕ
read_sleb128 p = eh_read_sleb128 p

-- What a bind is given.
pub record BindRequest : Type 0 where
  pub seg_index : ℕ
  pub seg_offset : ℕ
  pub lib_ordinal : ℤ
  pub sym_name : List ℕ
  pub weak : Bool
  pub addend : ℤ

-- The variables of the loop.
pub record BindCursor : Type 0 where
  pub seg_index : ℕ
  pub seg_offset : ℕ
  pub lib_ordinal : ℤ
  pub sym_name : List ℕ
  pub sym_flags : ℕ
  pub addend : ℤ

abbrev pub first_cursor : BindCursor
first_cursor = record {
  seg_index = 0;
  seg_offset = 0;
  lib_ordinal = pos 0;
  sym_name = [];
  sym_flags = 0;
  addend = pos 0;
}

abbrev pub request_of : BindCursor → BindRequest
request_of c = record {
  seg_index = c.seg_index;
  seg_offset = c.seg_offset;
  lib_ordinal = c.lib_ordinal;
  sym_name = c.sym_name;
  weak = not (bit_and c.sym_flags 0x01 == 0);
  addend = c.addend;
}

-- Conversions to `int`, and of four bits with a sign to `int8_t`.
abbrev pub to_int : ℕ → ℤ
to_int n = if ltb (u32 n) (2 ^ 31) then pos (u32 n) else negsuc (2 ^ 32 - 1 - u32 n)

abbrev pub special_ordinal : (imm : ℕ) → ℤ
special_ordinal imm = if imm == 0 then pos 0 else negsuc (15 - imm)

-- The string up to its zero, and what stands behind it. Without a zero the code reads on behind the end; here the
-- bytes end.
abbrev pub c_string : List ℕ → List ℕ × List ℕ
c_string p = elim (split_at 0 p) [ none ↦ (p, []) | some (name, rest) ↦ (name, rest) ]

pub record BindState {ℓ} (S : Type ℓ) : Type ℓ where
  pub cursor : BindCursor
  pub bound : S

pub data BindStep {ℓ} (S : Type ℓ) : Type ℓ where
  next : BindState S → List ℕ → BindStep S
  done : BindState S → BindStep S
  unknown : BindState S → BindStep S

pub data BindEnd {ℓ} (S : Type ℓ) : Type ℓ where
  finished : BindState S → BindEnd S
  failed : BindState S → BindEnd S
  out_of_rounds : BindEnd S

module _ {ℓ} {S : Type ℓ} (do_bind : BindRequest → S → S) where
  -- One bind, and on by `stride` bytes.
  unfoldable pub bind_one : (stride : ℕ) → BindState S → BindState S
  bind_one stride st = record {
    cursor = record st.cursor { seg_offset = u64 (st.cursor.seg_offset + stride) };
    bound = do_bind (request_of st.cursor) st.bound;
  }

  unfoldable pub bind_times : (count stride : ℕ) → BindState S → BindState S
  unfolding bind_one
  bind_times zero stride st = st
  bind_times (suc count) stride st = bind_times count stride (bind_one stride st)

  abbrev pub moved_to : BindCursor → BindState S → BindState S
  moved_to cursor st = record st { cursor = cursor }

  unfoldable pub bind_step :
      (lazy : Bool) (opcode imm : ℕ) → (p : List ℕ) → BindState S → BindStep S
  unfolding read_uleb128 read_sleb128 bind_times bind_one
  bind_step lazy opcode imm p st =
      let c = st.cursor in
      let (uleb_val, p') = read_uleb128 p in
      let (skip, p'') = read_uleb128 p' in
      let (sleb_val, after_sleb) = read_sleb128 p in
      let (name, after_name) = c_string p in
      if opcode == 0x00
      then (if lazy then next st p else done st)
      else if opcode == 0x10
      then next (moved_to (record c { lib_ordinal = pos imm }) st) p
      else if opcode == 0x20
      then next (moved_to (record c { lib_ordinal = to_int uleb_val }) st) p'
      else if opcode == 0x30
      then next (moved_to (record c { lib_ordinal = special_ordinal imm }) st) p
      else if opcode == 0x40
      then next (moved_to (record c { sym_flags = imm; sym_name = name }) st) after_name
      else if opcode == 0x50
      then next st p
      else if opcode == 0x60
      then next (moved_to (record c { addend = sleb_val }) st) after_sleb
      else if opcode == 0x70
      then next (moved_to (record c { seg_index = imm; seg_offset = uleb_val }) st) p'
      else if opcode == 0x80
      then next (moved_to (record c { seg_offset = u64 (c.seg_offset + uleb_val) }) st) p'
      else if opcode == 0x90
      then next (bind_one 8 st) p
      else if opcode == 0xA0
      then next (bind_one (u64 (uleb_val + 8)) st) p'
      else if opcode == 0xB0
      then next (bind_one (imm * 8 + 8) st) p
      else if opcode == 0xC0
      then next (bind_times uleb_val (u64 (skip + 8)) st) p''
      else unknown st

  unfoldable pub bind_loop : (lazy : Bool) (rounds : ℕ) → (p : List ℕ) → BindState S → BindEnd S
  unfolding bind_step
  bind_loop lazy rounds [] st = finished st
  bind_loop lazy zero (byte ∷ p) st = out_of_rounds
  bind_loop lazy (suc rounds) (byte ∷ p) st =
      elim (bind_step lazy (bit_and byte 0xF0) (bit_and byte 0x0F) p st) [
        | next st' p' ↦ bind_loop lazy rounds p' st'
        | done st' ↦ finished st'
        | unknown st' ↦ failed st'
      ]

  -- One pass.
  unfoldable pub process_binds : (lazy : Bool) → (p : List ℕ) → S → BindEnd S
  unfolding bind_loop
  process_binds lazy p s = bind_loop lazy (length p) p (record { cursor = first_cursor; bound = s })
