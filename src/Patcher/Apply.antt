-- ===== src/Patcher/Apply.antt =====
-- `patcher_apply` of src/patcher.c, after its first pass. The answers of `mprotect` are a parameter, by
-- the number of the write and the page; the two passes before the writes change nothing.
pub mod Plan
pub mod Atomic
use machgate.Base.{
  ℕ, zero, suc, ◌+◌, ◌-◌, ◌*◌, ◌/◌, ◌%◌, ◌^◌, ◌==◌, leb, ltb, if◌then◌else◌, Bool, true, false,
  ◌&&◌, List, [], ◌∷◌, length, Option, none, some, ◌>>=◌, ◌>>◌, guard, bit_and, ℤ, pos, negsuc,
  shr_ℤ, u8,
}
use machgate.Arm64.{enc_b, enc_bl, branch_in_range}
use machgate.Config.Text.{Bytes, str_eq}
use machgate.Patcher.Parse.{
  LocExpr, InsnExpr, ins_raw, ins_b, ins_bl, PatchLine, line_at, line_let, parse_lines,
}
use machgate.Patcher.Resolve.{Symbols, Memory, read_word, Labels, resolve_loc}

-- Pass 2a.
unfoldable pub register_labels : List PatchLine → Labels
register_labels [] = []
register_labels (line_at loc insn expected ∷ lines) = register_labels lines
register_labels (line_let label loc ∷ lines) = (label, none) ∷ register_labels lines

-- The first label of that name.
unfoldable pub set_label : Bytes → ℕ → Labels → Labels
set_label name addr [] = []
set_label name addr ((label, old) ∷ labels) =
    if str_eq label name
    then (label, some addr) ∷ labels
    else (label, old) ∷ set_label name addr labels

-- A line of code with its address.
pub record Target : Type 0 where
  pub addr : ℕ
  pub insn : InsnExpr
  pub expected : Option ℕ

pub record Write : Type 0 where
  pub addr : ℕ
  pub word : ℕ

-- A difference of addresses as `int64_t`.
abbrev pub signed_64 : ℕ → ℤ
signed_64 n = if ltb n (2 ^ 63) then pos n else negsuc (2 ^ 64 - 1 - n)

abbrev pub distance : (target from : ℕ) → ℤ
distance target from = signed_64 ((target + 2 ^ 64 - from) % 2 ^ 64)

abbrev pub page_of : (page_size addr : ℕ) → ℕ
page_of page_size addr = bit_and addr (2 ^ 64 - page_size)

-- The four bytes of a word.
abbrev pub poke : Memory → ℕ → ℕ → Memory
poke mem a w = λ b.
    if b == a
    then u8 w
    else if b == a + 1
    then u8 (w / 2 ^ 8)
    else if b == a + 2
    then u8 (w / 2 ^ 16)
    else if b == a + 3
    then u8 (w / 2 ^ 24)
    else mem b

unfoldable pub as_expected : Memory → ℕ → Option ℕ → Bool
as_expected mem addr none = true
as_expected mem addr (some word) = read_word mem addr == word

module _ (mem : Memory) (mh : Option Symbols) (slide : ℕ) where
  -- Pass 2b.
  unfoldable pub resolve_labels : Labels → List PatchLine → Option Labels
  resolve_labels labels [] = some labels
  resolve_labels labels (line_at loc insn expected ∷ lines) = resolve_labels labels lines
  resolve_labels labels (line_let label loc ∷ lines) = do
    addr ← resolve_loc mem mh slide labels loc
    resolve_labels (set_label label addr labels) lines

  -- Pass 2c.
  unfoldable pub resolve_targets : Labels → List PatchLine → Option (List Target)
  resolve_targets labels [] = some []
  resolve_targets labels (line_let label loc ∷ lines) = resolve_targets labels lines
  resolve_targets labels (line_at loc insn expected ∷ lines) = do
    addr ← resolve_loc mem mh slide labels loc
    targets ← resolve_targets labels lines
    some (record { addr = addr; insn = insn; expected = expected } ∷ targets)

  unfoldable pub encode_branch : (ℤ → ℕ) → Labels → ℕ → LocExpr → Option ℕ
  encode_branch enc labels addr loc = do
    target ← resolve_loc mem mh slide labels loc
    guard (branch_in_range (distance target addr))
    some (enc (shr_ℤ (distance target addr) 2))

  unfoldable pub encode_insn : Labels → ℕ → InsnExpr → Option ℕ
  encode_insn labels addr (ins_raw word) = some word
  encode_insn labels addr (ins_b loc) = encode_branch enc_b labels addr loc
  encode_insn labels addr (ins_bl loc) = encode_branch enc_bl labels addr loc

  -- Pass 3.
  unfoldable pub encode_targets : Labels → List Target → Option (List Write)
  encode_targets labels [] = some []
  encode_targets labels (t ∷ targets) = do
    word ← encode_insn labels t.addr t.insn
    guard (as_expected mem t.addr t.expected)
    writes ← encode_targets labels targets
    some (record { addr = t.addr; word = word } ∷ writes)

  unfoldable pub plan : List PatchLine → Option (List Write)
  plan lines = do
    labels ← resolve_labels (register_labels lines) lines
    targets ← resolve_targets labels lines
    encode_targets labels targets

-- Pass 4, from the write of number `applied` on.
unfoldable pub write_words :
    (mprotect : (applied page : ℕ) → Bool) (page_size : ℕ)
    → ℕ
    → List Write
    → Memory
    → Memory × Option ℕ
write_words mprotect page_size applied [] mem = (mem, some applied)
write_words mprotect page_size applied (w ∷ writes) mem =
    let rest = write_words mprotect page_size (applied + 1) writes (poke mem w.addr w.word) in
    if mprotect applied (page_of page_size w.addr) then rest else (mem, none)

-- The memory and the result: the number of patches, or `none` for -1.
unfoldable pub apply :
    (mprotect : (applied page : ℕ) → Bool) (page_size : ℕ)
    → Option (List Bytes)
    → Option Symbols
    → (slide : ℕ) → Memory
    → Memory × Option ℕ
apply mprotect page_size file mh slide mem =
    elim (do bufs ← file; lines ← parse_lines bufs; plan mem mh slide lines) [
      | none ↦ (mem, none)
      | some writes ↦ write_words mprotect page_size 0 writes mem
    ]
