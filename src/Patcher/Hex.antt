-- ===== src/Patcher/Hex.antt =====
-- Numbers in hexadecimal, printed and read back; and lines of two such numbers.
use native.Mathlib.Nat.{
  pow-suc, add-mul, div-mul-le_self, mod-eq-sub-div-mul, mul_assoc, mul_right_comm,
}
use machgate.Base.{
  ℕ, zero, suc, ◌+◌, ◌*◌, ◌/◌, ◌%◌, ◌^◌, ◌<◌, ◌≡◌, refl, arith, sym, ap, ◌∙◌, true, false, [], ◌∷◌,
  ◌++◌, some, none, ap₂, ◌&&◌, Bool, ltb, leb, if◌then◌else◌, ◌==◌, ◌||◌,
}
use machgate.Config.Text.{Bytes}
use machgate.Patcher.Text.{
  first, skip_ws, skip_spaces, is_blank, is_hex_digit, hex_value, has_0x, hex_run, saturated,
  strtoull, parse_hex_u64, looks_legacy,
}
use machgate.Patcher.Parse.{line_at, loc_abs, ins_raw, parse_legacy, parse_directive}

abbrev pub digit : (upper : Bool) → ℕ → ℕ
digit upper d = if ltb d 10 then 48 + d else if upper then 55 + d else 87 + d

-- The case of a letter, by how many digits follow.
abbrev pub Case : Type 0
Case = ℕ → Bool

-- A number in `k` digits.
abbrev pub hex_text : Case → ℕ → ℕ → Bytes
hex_text upper zero n = []
hex_text upper (suc k) n = digit (upper k) (n / 16 ^ k) ∷ hex_text upper k (n % 16 ^ k)

pub data Prefix : Type 0 where
  bare with_0x with_0X : Prefix

-- A number in at least one digit, which may have a prefix.
abbrev pub number_text : Prefix → Case → (more_digits n : ℕ) → Bytes
number_text bare upper k n = hex_text upper (suc k) n
number_text with_0x upper k n = b'0' ∷ b'x' ∷ hex_text upper (suc k) n
number_text with_0X upper k n = b'0' ∷ b'X' ∷ hex_text upper (suc k) n

pow_pos : (k : ℕ) → 0 < 16 ^ k
pow_pos zero = omega arith
pow_pos (suc k) = omega (arith, pow-suc 16 k, pow_pos k)

top_digit : (k n : ℕ) → n < 16 ^ suc k → n / 16 ^ k < 16
top_digit k n h = grind (arith, pow-suc 16 k, pow_pos k)

digit-is_hex : (u : Bool) (d : ℕ) → d < 16 → is_hex_digit (digit u d) ≡ true
digit-is_hex true d h = ground arith
digit-is_hex false d h = ground arith

digit-value : (u : Bool) (d : ℕ) → d < 16 → hex_value (digit u d) ≡ d
digit-value true d h = ground arith
digit-value false d h = ground arith

digit_not_x : (u : Bool) (d : ℕ) → d < 16 → ((digit u d == b'x') || (digit u d == b'X')) ≡ false
digit_not_x true d h = ground arith
digit_not_x false d h = ground arith

and_false : (a : Bool) → (a && false) ≡ false
and_false true = refl
and_false false = refl

run_end :
    (acc : ℕ) (rest : Bytes) → is_hex_digit (first rest) ≡ false → hex_run acc rest ≡ (acc, rest)
unfolding hex_run
run_end acc [] h = refl
run_end acc (c ∷ rest) h = rw h refl

weights : (acc n p : ℕ) → (acc * 16 + n / p) * p + n % p ≡ acc * (p * 16) + n
weights acc n p = omega (
  arith,
  add-mul (acc * 16) (n / p) p,
  div-mul-le_self n p,
  mod-eq-sub-div-mul n p,
  mul_assoc acc p 16,
  mul_right_comm acc 16 p,
)

hex_run-hex_text :
    (upper : Case) (k acc n : ℕ) (rest : Bytes)
    → n < 16 ^ k
    → is_hex_digit (first rest) ≡ false
    → hex_run acc (hex_text upper k n ++ rest) ≡ (acc * 16 ^ k + n, rest)
unfolding hex_run
hex_run-hex_text upper zero acc n rest h end =
    let e : acc * 16 ^ 0 + n ≡ acc = omega arith in rw e (run_end acc rest end)
hex_run-hex_text upper (suc k) acc n rest h end =
    let d : ℕ = n / 16 ^ k in
    let small = top_digit k n h in
    let low : n % 16 ^ k < 16 ^ k = omega (arith, pow_pos k) in
    let ih = hex_run-hex_text upper k (acc * 16 + d) (n % 16 ^ k) rest low end in
    let total : (acc * 16 + d) * 16 ^ k + n % 16 ^ k ≡ acc * 16 ^ suc k + n =
      weights acc n (16 ^ k) ∙ ap (λ (t : ℕ). acc * t + n) (sym (pow-suc 16 k)) in
    rw (digit-is_hex (upper k) d small, digit-value (upper k) d small, ih, total) refl

-- What may follow a number: no hexadecimal digit, and no x after a lone 0.
abbrev pub EndsNumber : Bytes → Type 0
EndsNumber rest =
    (is_hex_digit (first rest) ≡ false) × (((first rest == b'x') || (first rest == b'X')) ≡ false)

no_prefix :
    (upper : Case) (k n : ℕ) (rest : Bytes)
    → n < 16 ^ suc k
    → EndsNumber rest
    → has_0x (hex_text upper (suc k) n ++ rest) ≡ false
no_prefix upper zero n rest h end = rw (end.1) (and_false _)
no_prefix upper (suc k) n rest h end =
    let low : n % 16 ^ suc k < 16 ^ suc k = omega (arith, pow_pos (suc k)) in
    rw (digit_not_x (upper k) (n % 16 ^ suc k / 16 ^ k) (top_digit k (n % 16 ^ suc k) low))
      (and_false _)

starts_hex :
    (upper : Case) (k n : ℕ) (rest : Bytes)
    → n < 16 ^ suc k
    → is_hex_digit (first (hex_text upper (suc k) n ++ rest)) ≡ true
starts_hex upper k n rest h = digit-is_hex (upper k) (n / 16 ^ k) (top_digit k n h)

strtoull_plain :
    (s : Bytes) → has_0x s ≡ false → strtoull s ≡ (saturated (hex_run 0 s).0, (hex_run 0 s).1)
unfolding strtoull
strtoull_plain s h = rw h refl

skip_ws_none : (s : Bytes) → is_hex_digit (first s) ≡ true → skip_ws s ≡ s
unfolding skip_ws
skip_ws_none [] h = refl
skip_ws_none (c ∷ s) h = let solid : is_blank c ≡ false = ground arith in rw solid refl

parse_hex_u64_plain :
    (s : Bytes)
    → is_hex_digit (first s) ≡ true
    → has_0x s ≡ false
    → parse_hex_u64 s ≡ some (saturated (hex_run 0 s).0, (hex_run 0 s).1)
unfolding parse_hex_u64
parse_hex_u64_plain s h plain =
    rw (skip_ws_none s h) (rw plain (rw h (ap some (strtoull_plain s plain))))

whole_number :
    (upper : Case) (k n : ℕ) (rest : Bytes)
    → n < 16 ^ suc k
    → n < 2 ^ 64
    → EndsNumber rest
    → let run = hex_run 0 (hex_text upper (suc k) n ++ rest) in
      (saturated run.0 ≡ n) × (run.1 ≡ rest)
whole_number upper k n rest h word end =
    let run = hex_run-hex_text upper (suc k) 0 n rest h end.0 in
    let whole : saturated (0 * 16 ^ suc k + n) ≡ n = ground arith in
    (ap (λ (r : ℕ × Bytes). saturated r.0) run ∙ whole, ap (λ (r : ℕ × Bytes). r.1) run)

-- A number of up to 64 bits, printed in at least one digit, in either case and with or without a prefix, and followed
-- by what ends it, is read back.
pub parse_hex_u64-number_text :
    (prefix : Prefix) (upper : Case) (k n : ℕ) (rest : Bytes)
    → n < 16 ^ suc k
    → n < 2 ^ 64
    → EndsNumber rest
    → parse_hex_u64 (number_text prefix upper k n ++ rest) ≡ some (n, rest)
unfolding parse_hex_u64 skip_ws
parse_hex_u64-number_text bare upper k n rest h word end =
    let (value, left) = whole_number upper k n rest h word end in
    parse_hex_u64_plain (hex_text upper (suc k) n ++ rest) (starts_hex upper k n rest h)
      (no_prefix upper k n rest h end)
    ∙ ap₂ (λ v r. some (v, r)) value left
parse_hex_u64-number_text with_0x upper k n rest h word end =
    let (value, left) = whole_number upper k n rest h word end in
    rw (starts_hex upper k n rest h) (
      ap some (strtoull_plain (hex_text upper (suc k) n ++ rest) (no_prefix upper k n rest h end))
      ∙ ap₂ (λ v r. some (v, r)) value left)
parse_hex_u64-number_text with_0X upper k n rest h word end =
    let (value, left) = whole_number upper k n rest h word end in
    rw (starts_hex upper k n rest h) (
      ap some (strtoull_plain (hex_text upper (suc k) n ++ rest) (no_prefix upper k n rest h end))
      ∙ ap₂ (λ v r. some (v, r)) value left)

skip_spaces_none : (s : Bytes) → is_hex_digit (first s) ≡ true → skip_spaces s ≡ s
unfolding skip_spaces
skip_spaces_none [] h = refl
skip_spaces_none (c ∷ s) h =
    let solid : ((c == 32) || (c == 9)) ≡ false = ground arith in rw solid refl

legacy_by_end :
    (s : Bytes)
    → is_hex_digit (first s) ≡ true
    → has_0x s ≡ false
    → first (hex_run 0 s).1 ≡ 32
    → looks_legacy s ≡ true
unfolding looks_legacy
legacy_by_end s h plain end = rw (skip_spaces_none s h) (rw (plain, h) (ground (arith, end)))

legacy_seen :
    (prefix : Prefix) (upper : Case) (k n : ℕ) (rest : Bytes)
    → n < 16 ^ suc k
    → looks_legacy (number_text prefix upper k n ++ (32 ∷ rest)) ≡ true
unfolding looks_legacy skip_spaces
legacy_seen bare upper k n rest h =
    legacy_by_end (hex_text upper (suc k) n ++ (32 ∷ rest)) (starts_hex upper k n (32 ∷ rest) h)
      (no_prefix upper k n (32 ∷ rest) h (refl, refl))
      (ap (λ (r : ℕ × Bytes). first r.1) (hex_run-hex_text upper (suc k) 0 n (32 ∷ rest) h refl))
legacy_seen with_0x upper k n rest h = refl
legacy_seen with_0X upper k n rest h = refl

skipped_space : (s : Bytes) → parse_hex_u64 (32 ∷ s) ≡ parse_hex_u64 s
unfolding parse_hex_u64 skip_ws
skipped_space s = refl

-- A line of the legacy format, an address of up to 64 bits and a word of up to 32 with a space between, both in
-- hexadecimal, with digits in either case and with or without 0x or 0X, is parsed into a patch of that word at that
-- address.
pub parse_directive-number_text :
    (prefix prefix' : Prefix) (upper upper' : Case) (k addr j word : ℕ) (rest : Bytes)
    → addr < 16 ^ suc k
    → addr < 2 ^ 64
    → word < 16 ^ suc j
    → word < 2 ^ 32
    → EndsNumber rest
    → parse_directive
        (number_text prefix upper k addr ++ (32 ∷ (number_text prefix' upper' j word ++ rest)))
      ≡ some (line_at (loc_abs addr) (ins_raw word) none)
unfolding parse_directive parse_legacy
parse_directive-number_text prefix prefix' upper upper' k addr j word rest ha wa hw ww end =
    let tail : Bytes = number_text prefix' upper' j word ++ rest in
    let small : leb word 0xFFFFFFFF ≡ true = ground arith in
    let first_read = parse_hex_u64-number_text prefix upper k addr (32 ∷ tail) ha wa (refl, refl) in
    let second_read = parse_hex_u64-number_text prefix' upper' j word rest hw (omega arith) end in
    rw (legacy_seen prefix upper k addr tail ha)
      (rw first_read (rw (skipped_space tail ∙ second_read) (rw small refl)))
