-- ===== src/Trampoline.antt =====
-- src/trampoline.c: functions of the program are replaced by native ones. Addresses are below 2 ^ 63, so that
-- their differences are those of `int64_t`; `dlsym` and the address of `trampoline_abort` are arguments, and an
-- address 0 is a null pointer.
pub mod Laws
pub mod Overrides
pub mod Mangling
use machgate.Base.{
  ℕ, zero, suc, ◌+◌, ◌-◌, ◌*◌, ◌^◌, ◌==◌, ltb, leb, if◌then◌else◌, Bool, true, false, ◌&&◌, ◌||◌,
  not, List, [], ◌∷◌, ◌++◌, Option, none, some, bit_and, bit_or, u64, le, ℤ, pos, sub_ℕ, neg_ℕ,
  shr_ℤ, low_bits, int_to_u32, leb_ℤ, ltb_ℤ,
}
use machgate.Memory.{Memory, store}
use machgate.Config.Text.{str_eq, after_prefix}

-- "ldr x16, #8" and "br x16".
abbrev pub trampoline_ldr_x16 : ℕ
trampoline_ldr_x16 = 0x58000050

abbrev pub trampoline_br_x16 : ℕ
trampoline_br_x16 = 0xD61F0200

abbrev pub island_size : ℕ
island_size = 16

pub record State : Type 0 where
  pub memory : Memory
  pub island_pool : ℕ
  pub island_pool_size : ℕ
  pub island_pool_used : ℕ
  pub stub_island_addr : ℕ
  pub abort_caller_addr : ℕ

abbrev pub set_pool : (base size : ℕ) → State → State
set_pool base size s = record s {
  island_pool = base;
  island_pool_size = size;
  island_pool_used = 0;
}

abbrev pub has_room : State → Bool
has_room s = not (s.island_pool == 0) && leb (s.island_pool_used + island_size) s.island_pool_size

abbrev pub next_island : State → ℕ
next_island s = s.island_pool + s.island_pool_used

-- An island at the cursor, which moves over it.
abbrev pub put_island : List ℕ → State → State
put_island bytes s = record s {
  memory = store s.memory (next_island s) bytes;
  island_pool_used = s.island_pool_used + island_size;
}

abbrev pub island_bytes : (target_addr : ℕ) → List ℕ
island_bytes target_addr = le 4 trampoline_ldr_x16 ++ (le 4 trampoline_br_x16 ++ le 8 target_addr)

unfoldable pub alloc_island : (native_addr : ℕ) → State → ℕ × State
alloc_island native_addr s =
    if has_room s then (next_island s, put_island (island_bytes native_addr) s) else (0, s)

-- mov w0, #0; ret; nop; nop
unfoldable pub get_stub_island : State → ℕ × State
get_stub_island s =
    let code = le 4 0x52800000 ++ (le 4 0xD65F03C0 ++ (le 4 0xD503201F ++ le 4 0xD503201F)) in
    if not (s.stub_island_addr == 0)
    then (s.stub_island_addr, s)
    else if has_room s
    then (next_island s, record (put_island code s) { stub_island_addr = next_island s })
    else (0, s)

unfoldable pub get_abort_caller : (trampoline_abort : ℕ) → State → ℕ × State
get_abort_caller trampoline_abort s =
    if not (s.abort_caller_addr == 0)
    then (s.abort_caller_addr, s)
    else if has_room s
    then (
      next_island s,
      record (put_island (island_bytes trampoline_abort) s) { abort_caller_addr = next_island s },
    )
    else (0, s)

-- The test of the offset of a B, and its word.
abbrev pub is_far : ℤ → Bool
is_far offset =
    ltb_ℤ offset (neg_ℕ (128 * 1024 * 1024))
    || (leb_ℤ (pos (128 * 1024 * 1024)) offset || not (low_bits offset 2 == 0))

abbrev pub b_insn : ℤ → ℕ
b_insn offset = bit_or 0x14000000 (bit_and (int_to_u32 (shr_ℤ offset 2)) 0x03FFFFFF)

-- ldr x0, #8; b <abort_caller>; .quad <name>
abbrev pub abort_bytes : (offset : ℤ) (symbol_name : ℕ) → List ℕ
abort_bytes offset symbol_name = le 4 0x58000040 ++ (le 4 (b_insn offset) ++ le 8 symbol_name)

-- The island is written before the test, but counted after it.
unfoldable pub make_abort_island : (trampoline_abort symbol_name : ℕ) → State → ℕ × State
unfolding get_abort_caller
make_abort_island trampoline_abort symbol_name s =
    let (caller, s1) = get_abort_caller trampoline_abort s in
    let at = next_island s1 in
    let offset = sub_ℕ caller (at + 4) in
    if caller == 0 || not (has_room s1)
    then (0, s1)
    else if is_far offset
    then (0, record s1 { memory = store s1.memory at (le 4 0x58000040) })
    else (at, put_island (abort_bytes offset symbol_name) s1)

-- Whether the B was written; if it was not, the island is used up all the same.
unfoldable pub write_trampoline : (func_addr native_addr : ℕ) → State → Bool × State
unfolding alloc_island
write_trampoline func_addr native_addr s =
    let (island_addr, s1) = alloc_island native_addr s in
    let offset = sub_ℕ island_addr func_addr in
    if island_addr == 0 || is_far offset
    then (false, s1)
    else (true, record s1 { memory = store s1.memory func_addr (le 4 (b_insn offset)) })

-- A symbol of LC_SYMTAB; it has no name if that would stand behind the string table.
pub record Symbol : Type 0 where
  pub n_type : ℕ
  pub n_value : ℕ
  pub name : Option (List ℕ)

-- One leading underscore is taken off.
abbrev pub lookup_name : List ℕ → List ℕ
lookup_name [] = []
lookup_name (c ∷ name) = if c == b'_' then name else c ∷ name

-- The part that `make_text_writable` notes, and the load address.
pub record Text : Type 0 where
  pub text_patch_base : ℕ
  pub text_patch_size : ℕ
  pub slide : ℕ

module _ (text : Text) where
  abbrev pub func_addr_of : Symbol → ℕ
  func_addr_of sym = u64 (sym.n_value + text.slide)

  abbrev pub is_in_text : ℕ → Bool
  is_in_text func_addr = not (
      ltb func_addr text.text_patch_base
      || leb (text.text_patch_base + text.text_patch_size) func_addr)

  -- N_SECT, N_EXT and N_STAB.
  abbrev pub is_function : (match_local : Bool) → Symbol → Bool
  is_function match_local sym =
      (bit_and sym.n_type 0x0E == 0x0E)
      && ((match_local || not (bit_and sym.n_type 0x01 == 0))
          && ((bit_and sym.n_type 0xE0 == 0) && is_in_text (func_addr_of sym)))

  module _ (dlsym : List ℕ → ℕ) (match_local : Bool) where
    -- What a symbol's function is replaced by, or 0.
    unfoldable pub override_of : Symbol → ℕ
    override_of sym = elim sym.name [
      | none ↦ 0
      | some name ↦ if is_function match_local sym then dlsym (lookup_name name) else 0
    ]

    abbrev pub counted : Bool → ℕ
    counted true = 1
    counted false = 0

    -- The count of the functions replaced.
    unfoldable pub trampoline_patch_overrides : List Symbol → State → ℕ × State
    unfolding override_of write_trampoline
    trampoline_patch_overrides [] s = (0, s)
    trampoline_patch_overrides (sym ∷ syms) s = elim (override_of sym == 0) [
      | true ↦ trampoline_patch_overrides syms s
      | false ↦
          let (written, s1) = write_trampoline (func_addr_of sym) (override_of sym) s in
          let (patched, s2) = trampoline_patch_overrides syms s1 in (counted written + patched, s2)
    ]
