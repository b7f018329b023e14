-- ===== src/Config/Text.antt =====
-- The strings of src/config.c: a C string is the list of its bytes, without the final NUL.
use Prim.Native.String.{String}
use Prim.Native.Char.{code}
use machgate.Base.{ℕ, leb, ◌==◌, if◌then◌else◌, Bool, true, false, ◌&&◌, ◌||◌, List, [], ◌∷◌}
use machgate.Base.{Option, some, none}

abbrev pub Bytes : Type 0
Bytes = List ℕ

-- The bytes of a literal.
abbrev pub codes : String → Bytes
codes String.[] = []
codes (String.◌∷◌ c s) = code c ∷ codes s

-- In the C locale: tab, newline, vertical tab, form feed, carriage return and the space.
abbrev pub is_space : ℕ → Bool
is_space c = (leb 9 c && leb c 13) || (c == 32)

unfoldable pub strip_start : Bytes → Bytes
strip_start [] = []
strip_start (c ∷ s) = if is_space c then strip_start s else c ∷ s

-- The loop over `end`, from the last byte back: what remains after it.
abbrev pub keep_end : ℕ → Bytes → Bytes
keep_end c [] = if is_space c then [] else c ∷ []
keep_end c (d ∷ s) = c ∷ d ∷ s

unfoldable pub strip_end : Bytes → Bytes
strip_end [] = []
strip_end (c ∷ s) = keep_end c (strip_end s)

unfoldable pub strip : Bytes → Bytes
unfolding strip_start strip_end
strip s = strip_end (strip_start s)

-- `strcmp(s, t) == 0`
unfoldable pub str_eq : Bytes → Bytes → Bool
str_eq [] [] = true
str_eq [] (d ∷ t) = false
str_eq (c ∷ s) [] = false
str_eq (c ∷ s) (d ∷ t) = (c == d) && str_eq s t

-- `strncmp(s, prefix, strlen(prefix)) == 0`, with what follows the prefix.
unfoldable pub after_prefix : Bytes → Bytes → Option Bytes
after_prefix [] s = some s
after_prefix (p ∷ prefix) [] = none
after_prefix (p ∷ prefix) (c ∷ s) = if p == c then after_prefix prefix s else none

abbrev pub push_front : ℕ → Option (Bytes × Bytes) → Option (Bytes × Bytes)
push_front c none = none
push_front c (some (before, after)) = some (c ∷ before, after)

-- `strchr(s, c)`, with the bytes before the first `c` and those after it.
unfoldable pub split_at : ℕ → Bytes → Option (Bytes × Bytes)
split_at c [] = none
split_at c (d ∷ s) = if d == c then some ([], s) else push_front d (split_at c s)
