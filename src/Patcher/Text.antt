-- ===== src/Patcher/Text.antt =====
-- The lexical helpers of src/patcher.c. A C string is the list of its bytes, without the final NUL; a
-- pointer into it is the list from there on.
use machgate.Base.{
  ℕ, zero, suc, ◌+◌, ◌-◌, ◌*◌, ◌^◌, ◌<<<◌, ◌==◌, leb, if◌then◌else◌, Bool, true, false, ◌&&◌, ◌||◌,
  [], ◌∷◌, Option, none, some,
}
use machgate.Config.Text.{Bytes, is_space}

-- At the end of a string C reads the NUL.
abbrev pub first : Bytes → ℕ
first [] = 0
first (c ∷ s) = c

abbrev pub second : Bytes → ℕ
second [] = 0
second (c ∷ s) = first s

unfoldable pub strip_comment : Bytes → Bytes
strip_comment [] = []
strip_comment (c ∷ s) = if c == b'#' then [] else c ∷ strip_comment s

abbrev pub is_blank : ℕ → Bool
is_blank c = (c == 32) || ((c == 9) || ((c == 10) || (c == 13)))

unfoldable pub skip_ws : Bytes → Bytes
skip_ws [] = []
skip_ws (c ∷ s) = if is_blank c then skip_ws s else c ∷ s

abbrev pub is_hex_digit : ℕ → Bool
is_hex_digit c =
    (leb b'0' c && leb c b'9') || ((leb b'a' c && leb c b'f') || (leb b'A' c && leb c b'F'))

-- The value of a digit of one of the three ranges.
abbrev pub hex_value : ℕ → ℕ
hex_value c =
    if leb b'0' c && leb c b'9'
    then c - b'0'
    else if leb b'a' c && leb c b'f'
    then c - b'a' + 10
    else c - b'A' + 10

-- `p[0] == '0' && (p[1] == 'x' || p[1] == 'X')`
abbrev pub has_0x : Bytes → Bool
has_0x s = (first s == b'0') && ((second s == b'x') || (second s == b'X'))

abbrev pub skip_two : Bytes → Bytes
skip_two (c ∷ d ∷ s) = s
skip_two s = []

-- The digits, most significant first, and what follows them.
unfoldable pub hex_run : ℕ → Bytes → ℕ × Bytes
hex_run acc [] = (acc, [])
hex_run acc (c ∷ s) =
    let rest = hex_run (acc * 16 + hex_value c) s in if is_hex_digit c then rest else (acc, c ∷ s)

abbrev pub saturated : ℕ → ℕ
saturated n = if leb (2 ^ 64) n then 2 ^ 64 - 1 else n

-- `strtoull(s, &end, 16)` at a digit: a prefix of its own is skipped, and too large a number is
-- `ULLONG_MAX`.
unfoldable pub strtoull : Bytes → ℕ × Bytes
unfolding hex_run
strtoull s =
    let (n, end) =
      hex_run 0 (if has_0x s && is_hex_digit (first (skip_two s)) then skip_two s else s) in
    (saturated n, end)

-- The value and what follows it.
unfoldable pub parse_hex_u64 : Bytes → Option (ℕ × Bytes)
unfolding skip_ws strtoull
parse_hex_u64 s =
    let p = skip_ws s in
    let q = if has_0x p then skip_two p else p in
    if is_hex_digit (first q) then some (strtoull q) else none

abbrev pub is_space_or_tab : ℕ → Bool
is_space_or_tab c = (c == 32) || (c == 9)

unfoldable pub skip_spaces : Bytes → Bytes
skip_spaces [] = []
skip_spaces (c ∷ s) = if is_space_or_tab c then skip_spaces s else c ∷ s

unfoldable pub looks_legacy : Bytes → Bool
unfolding skip_spaces hex_run
looks_legacy s =
    let p = skip_spaces s in
    let q = first (hex_run 0 p).1 in
    if has_0x p
    then true
    else if is_hex_digit (first p)
    then (q == 32) || ((q == 9) || ((q == 0) || (q == 10)))
    else false

-- The nibbles of a pattern, by how many are left, with the mask and the value before them.
unfoldable pub pattern_nibbles : ℕ → ℕ → ℕ → Bytes → Option (ℕ × ℕ × Bytes)
pattern_nibbles zero m v s = some (m, v, s)
pattern_nibbles (suc n) m v [] = none
pattern_nibbles (suc n) m v (c ∷ s) =
    let wild = pattern_nibbles n (m <<< 4) (v <<< 4) s in
    let digit = pattern_nibbles n ((m <<< 4) + 0xF) ((v <<< 4) + hex_value c) s in
    if c == b'?' then wild else if is_hex_digit c then digit else none

-- The mask and the value of a pattern, and what follows it.
unfoldable pub parse_pattern : Bytes → Option (ℕ × ℕ × Bytes)
unfolding pattern_nibbles
parse_pattern s = elim (pattern_nibbles 8 0 0 s) [
  | none ↦ none
  | some (m, v, rest) ↦
      let c = first rest in
      if (c == 0) || (is_space c || ((c == b';') || (c == b'#'))) then some (m, v, rest) else none
]
