-- ===== src/Tests/Patches.antt =====
-- Patch files: a branch between two labelled places, and a search for a pattern.
use machgate.Base.{
  ℕ, leb, false, ◌*◌, ◌≡◌, refl, arith, ◌⊎◌, List, [], ◌∷◌, ◌++◌, length, some, none, true, pos,
}
use machgate.Arm64.{enc_b, enc_nop, branch_in_range}
use machgate.Config.Text.{Bytes, codes, str_eq, after_prefix}
use machgate.Patcher.Text.{
  strip_comment, skip_ws, hex_run, strtoull, parse_hex_u64, skip_spaces, looks_legacy,
  pattern_nibbles, parse_pattern,
}
use machgate.Patcher.Parse.{
  PatchLine, line_at, line_let, loc_abs, loc_label, loc_sym_find, ins_raw, ins_b, take_name,
  parse_offset, parse_patterns, parse_within, parse_find, parse_symbol, parse_label, parse_loc_expr,
  parse_raw, parse_insn_expr, parse_expect, parse_legacy, parse_let, parse_at, parse_directive,
  parse_lines,
}
use machgate.Patcher.Hex.{bare, with_0x, number_text, parse_directive-number_text}
use machgate.Patcher.Resolve.{
  Memory, Labels, find_label, resolve_loc, pattern_find_unique, scan, matches,
}
use machgate.Patcher.Resolve.Pattern.{Searched, pattern_find_unique-Searched}
use machgate.Patcher.Apply.{
  Write, register_labels, set_label, resolve_labels, resolve_targets, encode_branch, encode_insn,
  as_expected, encode_targets, plan, apply,
}
use machgate.Patcher.Apply.Plan.{Carried, plan-Carried}
use machgate.Patcher.Apply.Atomic.{planned, written, apply_atomic}

abbrev zeroes : Memory
zeroes = λ a. 0

abbrev patch_file : List Bytes
patch_file =
    codes "# main loop"
    ∷ codes "let top = 0x40000000"
    ∷ codes "at top+8  b 0x40000020 ; expect 0"
    ∷ codes "40000004 d503201f # nop"
    ∷ []

abbrev patch_lines : List PatchLine
patch_lines =
    line_let (codes "top") (loc_abs 0x40000000)
    ∷ line_at (loc_label (codes "top") 8) (ins_b (loc_abs 0x40000020)) (some 0)
    ∷ line_at (loc_abs 0x40000004) (ins_raw 0xd503201f) none
    ∷ []

abbrev zero_pattern : List (ℕ × ℕ)
zero_pattern = (0xFFFFFFFF, 0) ∷ []

abbrev patch_writes : List Write
patch_writes =
    record { addr = 0x40000008; word = enc_b (pos 6) }
    ∷ record { addr = 0x40000004; word = enc_nop }
    ∷ []

parse_run : parse_lines patch_file ≡ some patch_lines
unfolding parse_lines parse_directive parse_legacy parse_let parse_at parse_expect parse_insn_expr
    parse_raw parse_loc_expr parse_label parse_symbol take_name strip_comment skip_ws hex_run
    strtoull parse_hex_u64 skip_spaces looks_legacy after_prefix
parse_run = refl

find_run :
    parse_loc_expr (codes "sym:main find 531F79?? d503201f within 0x100")
    ≡ some (
      loc_sym_find (codes "main") ((0xFFFFFF00, 0x531F7900) ∷ (0xFFFFFFFF, 0xd503201f) ∷ []) 0x100,
      [],
    )
unfolding parse_loc_expr parse_symbol parse_find parse_patterns parse_pattern pattern_nibbles
    parse_within parse_offset take_name skip_ws hex_run strtoull parse_hex_u64 after_prefix
find_run = refl

plan_run : plan zeroes none 0 patch_lines ≡ some patch_writes
unfolding plan register_labels resolve_labels resolve_targets encode_targets encode_insn
    encode_branch as_expected set_label find_label resolve_loc str_eq branch_in_range
plan_run = refl

plan-Carried_example :
    (labels : Labels) × (resolve_labels zeroes none 0 (register_labels patch_lines) patch_lines
      ≡ some labels)
    × Carried zeroes none 0 labels patch_lines patch_writes
plan-Carried_example =
    plan-Carried zeroes none 0 patch_lines patch_writes plan_run
      (omega arith, omega arith, (omega arith, omega arith, tt))

apply_atomic_example :
    let r = apply (λ i page. true) 4096 (some patch_file) none 0 zeroes in
    ((planned (some patch_file) none 0 zeroes ≡ none) × (r ≡ (zeroes, none)))
    ⊎ ((writes : List Write) × (planned (some patch_file) none 0 zeroes ≡ some writes)
        × (r ≡ (written writes zeroes, some (length writes))))
apply_atomic_example =
    apply_atomic (λ i page. true) 4096 (some patch_file) none 0 zeroes (λ i page. refl)

pattern_find_unique-Searched_example :
    Searched zeroes zero_pattern 16
      (length zero_pattern * 4)
      8
      (pattern_find_unique zeroes 8 16 zero_pattern)
pattern_find_unique-Searched_example =
    pattern_find_unique-Searched zeroes 8 16 zero_pattern (omega arith)

pattern_run : pattern_find_unique zeroes 8 16 zero_pattern ≡ (2, 8)
unfolding pattern_find_unique scan matches
pattern_run = refl

-- "0x40000004 D503201f # nop"
parse_directive-number_text_example :
    parse_directive (
      number_text with_0x (λ k. false) 7 0x40000004
      ++ (32 ∷ (number_text bare (λ k. leb 4 k) 7 0xd503201f ++ codes " # nop")))
    ≡ some (line_at (loc_abs 0x40000004) (ins_raw 0xd503201f) none)
parse_directive-number_text_example =
    parse_directive-number_text with_0x bare (λ k. false) (λ k. leb 4 k) 7 0x40000004 7 0xd503201f
      (codes " # nop") (omega arith) (omega arith) (omega arith) (omega arith) (refl, refl)
