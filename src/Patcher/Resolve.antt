-- ===== src/Patcher/Resolve.antt =====
-- The resolution of locations in src/patcher.c. The symbol tables of the loaded program are a parameter:
-- `resolver_lookup_symbol`, which answers 0 for an unknown name, and `resolver_symbol_extent`.
pub mod Pattern
use machgate.Base.{
  ℕ, zero, suc, ◌+◌, ◌-◌, ◌*◌, ◌/◌, ◌^◌, ◌==◌, leb, ltb, if◌then◌else◌, Bool, true, false, ◌&&◌,
  ◌||◌, not, List, [], ◌∷◌, length, Option, none, some, ◌>>=◌, ◌>>◌, guard, bit_and, u64,
}
use machgate.Config.Text.{Bytes, str_eq}
use machgate.Patcher.Parse.{LocExpr, loc_abs, loc_sym, loc_sym_find, loc_label}

pub record Symbols : Type 0 where
  pub lookup_symbol : Bytes → ℕ
  pub symbol_extent : Bytes → Option (ℕ × ℕ)

-- The bytes of the address space.
abbrev pub Memory : Type 0
Memory = ℕ → ℕ

abbrev pub read_word : Memory → ℕ → ℕ
read_word mem a = mem a + mem (a + 1) * 2 ^ 8 + mem (a + 2) * 2 ^ 16 + mem (a + 3) * 2 ^ 24

-- Labels in the order of the file, with their addresses once these are known.
abbrev pub Labels : Type 0
Labels = List (Bytes × Option ℕ)

unfoldable pub find_label : Bytes → Labels → Option ℕ
find_label name [] = none
find_label name ((label, addr) ∷ labels) =
    if str_eq label name then addr else find_label name labels

-- The words at an address have the masked values.
unfoldable pub matches : Memory → List (ℕ × ℕ) → ℕ → Bool
matches mem [] a = true
matches mem ((mask, value) ∷ patterns) a =
    (bit_and (read_word mem a) mask == value) && matches mem patterns (a + 4)

-- The loop over the addresses, by the rounds left: how often there was a match, at most 2, and the first
-- address of one.
unfoldable pub scan : Memory → List (ℕ × ℕ) → (end need : ℕ) → (rounds a count hit : ℕ) → ℕ × ℕ
scan mem patterns end need zero a count hit = (count, hit)
scan mem patterns end need (suc rounds) a count hit =
    let skip = scan mem patterns end need rounds (a + 4) count hit in
    let first = scan mem patterns end need rounds (a + 4) 1 a in
    if ltb end (a + need)
    then (count, hit)
    else if matches mem patterns a
    then (if count == 0 then first else (2, hit))
    else skip

unfoldable pub pattern_find_unique : Memory → (start end : ℕ) → List (ℕ × ℕ) → ℕ × ℕ
unfolding scan
pattern_find_unique mem start end patterns =
    let need = length patterns * 4 in
    if (need == 0) || (ltb end start || ltb (end - start) need)
    then (0, 0)
    else scan mem patterns end need ((end - start) / 4 + 1) start 0 0

unfoldable pub resolve_find : Memory → Symbols → Bytes → List (ℕ × ℕ) → (within : ℕ) → Option ℕ
resolve_find mem symbols name patterns within = do
  (seg_start, seg_end) ← symbols.symbol_extent name
  let cap = u64 (seg_start + within)
  let end = if not (within == 0) && ltb cap seg_end then cap else seg_end
  let (count, hit) = pattern_find_unique mem seg_start end patterns
  guard (count == 1)
  some (u64 hit)

unfoldable pub resolve_loc : Memory → Option Symbols → (slide : ℕ) → Labels → LocExpr → Option ℕ
resolve_loc mem mh slide labels (loc_abs address) = some (u64 (address + slide))
resolve_loc mem mh slide labels (loc_label name offset) = do
  base ← find_label name labels
  some (u64 (base + offset))
resolve_loc mem mh slide labels (loc_sym name offset) = do
  symbols ← mh
  guard (not (symbols.lookup_symbol name == 0))
  some (u64 (symbols.lookup_symbol name + offset))
resolve_loc mem mh slide labels (loc_sym_find name patterns within) = do
  symbols ← mh
  guard (not (symbols.lookup_symbol name == 0))
  resolve_find mem symbols name patterns within
