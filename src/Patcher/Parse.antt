-- ===== src/Patcher/Parse.antt =====
-- The parsers of src/patcher.c. A failure is `none`; a success has what follows the parsed text.
use machgate.Base.{
  ℕ, zero, suc, ◌-◌, ◌%◌, ◌^◌, ◌==◌, leb, if◌then◌else◌, Bool, true, false, ◌||◌, not, List, [],
  ◌∷◌, Option, none, some, ◌>>=◌, ◌>>◌, guard,
}
use machgate.Arm64.{enc_nop, enc_ret}
use machgate.Config.Text.{Bytes, codes, is_space, after_prefix}
use machgate.Patcher.Text.{
  first, strip_comment, skip_ws, is_hex_digit, has_0x, parse_hex_u64, looks_legacy, parse_pattern,
}

-- `struct loc_expr`; an offset is the 64-bit pattern of its `int64_t`.
pub data LocExpr : Type 0 where
  loc_abs : (address : ℕ) → LocExpr
  loc_sym : (name : Bytes) (offset : ℕ) → LocExpr
  loc_sym_find : (name : Bytes) (patterns : List (ℕ × ℕ)) (within : ℕ) → LocExpr
  loc_label : (name : Bytes) (offset : ℕ) → LocExpr

pub data InsnExpr : Type 0 where
  ins_raw : (word : ℕ) → InsnExpr
  ins_b ins_bl : (target : LocExpr) → InsnExpr

-- `struct patch_line`, as parsed; a legacy line differs only in its kind.
pub data PatchLine : Type 0 where
  line_at : (loc : LocExpr) (insn : InsnExpr) (expected : Option ℕ) → PatchLine
  line_let : (label : Bytes) (loc : LocExpr) → PatchLine

abbrev pub loc_max_patterns : ℕ
loc_max_patterns = 8

-- Bytes up to one that `stop` tells, at most `room` of them.
unfoldable pub take_name : (ℕ → Bool) → ℕ → Bytes → Option (Bytes × Bytes)
take_name stop room [] = some ([], [])
take_name stop zero (c ∷ s) = if stop c then some ([], c ∷ s) else none
take_name stop (suc room) (c ∷ s) =
    let rest = (do (name, after) ← take_name stop room s; some (c ∷ name, after)) in
    if stop c then some ([], c ∷ s) else rest

abbrev pub is_empty : Bytes → Bool
is_empty [] = true
is_empty (c ∷ s) = false

abbrev pub ends_symbol : ℕ → Bool
ends_symbol c = is_space c || ((c == b'+') || ((c == b'-') || (c == b';')))

abbrev pub ends_label : ℕ → Bool
ends_label c = is_space c || ((c == b'+') || (c == b';'))

abbrev pub ends_let : ℕ → Bool
ends_let c = is_space c || (c == b'=')

-- The offset directly after a symbol's name.
unfoldable pub parse_offset : Bytes → Option (ℕ × Bytes)
parse_offset [] = some (0, [])
parse_offset (c ∷ s) =
    if c == b'+'
    then parse_hex_u64 s
    else if c == b'-'
    then (do (v, rest) ← parse_hex_u64 s; some ((2 ^ 64 - v) % 2 ^ 64, rest))
    else some (0, c ∷ s)

-- The loop over the patterns, by how many may still come.
unfoldable pub parse_patterns : ℕ → Bytes → Option (List (ℕ × ℕ) × Bytes)
parse_patterns zero s = none
parse_patterns (suc room) s = do
  (mask, value, after) ← parse_pattern s
  let rest = skip_ws after
  if is_hex_digit (first rest) || (first rest == b'?')
      then (do (more, end) ← parse_patterns room rest; some ((mask, value) ∷ more, end))
      else some ((mask, value) ∷ [], rest)

unfoldable pub parse_within : Bytes → Option (ℕ × Bytes)
parse_within s = elim (after_prefix (codes "within ") s) [
  | some rest ↦ parse_hex_u64 (skip_ws rest)
  | none ↦ some (0, s)
]

-- After `find `.
unfoldable pub parse_find : Bytes → Bytes → Option (LocExpr × Bytes)
parse_find name s = do
  (patterns, tail) ← parse_patterns loc_max_patterns s
  (within, end) ← parse_within tail
  some (loc_sym_find name patterns within, end)

-- After `sym:`.
unfoldable pub parse_symbol : Bytes → Option (LocExpr × Bytes)
parse_symbol s = do
  (name, after) ← take_name ends_symbol 255 s
  guard (not (is_empty name))
  (offset, rest) ← parse_offset after
  elim (after_prefix (codes "find ") (skip_ws rest)) [
    | none ↦ some (loc_sym name offset, rest)
    | some found ↦ parse_find name (skip_ws found)
  ]

unfoldable pub parse_label : Bytes → Option (LocExpr × Bytes)
parse_label s = do
  (name, after) ← take_name ends_label 255 s
  guard (not (is_empty name))
  elim (after_prefix (codes "+") after) [
    | none ↦ some (loc_label name 0, after)
    | some digits ↦ (do (v, rest) ← parse_hex_u64 digits; some (loc_label name v, rest))
  ]

unfoldable pub parse_loc_expr : Bytes → Option (LocExpr × Bytes)
parse_loc_expr s =
    let p = skip_ws s in
    elim (after_prefix (codes "sym:") p) [
      | some rest ↦ parse_symbol rest
      | none ↦
          if has_0x p
          then (do (v, rest) ← parse_hex_u64 p; some (loc_abs v, rest))
          else parse_label p
    ]

-- A mnemonic with nothing, a space or a semicolon after it.
abbrev pub mnemonic : Bytes → Bytes → Option Bytes
mnemonic name p = elim (after_prefix name p) [
  | none ↦ none
  | some rest ↦
      let c = first rest in if (c == 0) || (is_space c || (c == b';')) then some rest else none
]

unfoldable pub parse_raw : Bytes → Option (InsnExpr × Bytes)
parse_raw p = do (v, rest) ← parse_hex_u64 p; guard (leb v 0xFFFFFFFF); some (ins_raw v, rest)

unfoldable pub parse_insn_expr : Bytes → Option (InsnExpr × Bytes)
parse_insn_expr s =
    let p = skip_ws s in
    elim (mnemonic (codes "nop") p) [
      | some rest ↦ some (ins_raw enc_nop, rest)
      | none ↦ elim (mnemonic (codes "ret") p) [
        | some rest ↦ some (ins_raw enc_ret, rest)
        | none ↦ elim (after_prefix (codes "bl ") p) [
          | some rest ↦ (do (target, end) ← parse_loc_expr rest; some (ins_bl target, end))
          | none ↦ elim (after_prefix (codes "b ") p) [
            | some rest ↦ (do (target, end) ← parse_loc_expr rest; some (ins_b target, end))
            | none ↦ parse_raw p
          ]
        ]
      ]
    ]

-- The rest of an `at` line; text after the expected word is not looked at.
unfoldable pub parse_expect : Bytes → Option (Option ℕ)
parse_expect s =
    let p = skip_ws s in
    if is_empty p then some none else (do
      p' ← after_prefix (codes ";") p
      p'' ← after_prefix (codes "expect ") (skip_ws p')
      (v, rest) ← parse_hex_u64 (skip_ws p'')
      guard (leb v 0xFFFFFFFF)
      some (some v))

unfoldable pub parse_legacy : Bytes → Option PatchLine
parse_legacy p = do
  (a, q) ← parse_hex_u64 p
  (i, rest) ← parse_hex_u64 q
  guard (leb i 0xFFFFFFFF)
  some (line_at (loc_abs a) (ins_raw i) none)

unfoldable pub parse_let : Bytes → Option PatchLine
parse_let s = do
  (label, after) ← take_name ends_let 127 (skip_ws s)
  p ← after_prefix (codes "=") (skip_ws after)
  (loc, rest) ← parse_loc_expr (skip_ws p)
  some (line_let label loc)

unfoldable pub parse_at : Bytes → Option PatchLine
parse_at s = do
  (loc, q) ← parse_loc_expr (skip_ws s)
  (insn, end) ← parse_insn_expr q
  expected ← parse_expect end
  some (line_at loc insn expected)

unfoldable pub parse_directive : Bytes → Option PatchLine
parse_directive p =
    if looks_legacy p then parse_legacy p else elim (after_prefix (codes "let ") p) [
      | some rest ↦ parse_let rest
      | none ↦ elim (after_prefix (codes "at ") p) [ some rest ↦ parse_at rest | none ↦ none ]
    ]

-- Pass 1, on the buffers that `fgets` fills: the lines, or a failure at the first bad one.
unfoldable pub parse_lines : List Bytes → Option (List PatchLine)
parse_lines [] = some []
parse_lines (buf ∷ bufs) =
    let p = skip_ws (strip_comment buf) in
    let rest = parse_lines bufs in
    if is_empty p then rest else (do line ← parse_directive p; lines ← rest; some (line ∷ lines))
