-- ===== src/EhFrame/Leb/Laws.antt =====
-- What is written by `ehf_uleb128` is read back.
use native.Mathlib.Nat.{pow-suc}
use native.Mathlib.Decide.{dec_lt}
use native.Mathlib.Numerals.{towards_suc}
use machgate.Base.{
  ℕ, zero, suc, ◌+◌, ◌*◌, ◌/◌, ◌%◌, ◌^◌, ◌<◌, ◌≤◌, ◌≡◌, refl, arith, sym, ap, ◌∙◌, ◌==◌, true,
  false, List, [], ◌∷◌, ◌++◌, length, ◌<<<◌, bit_and, bit_or, u64, ==_iff, ne→==_false,
}
use machgate.Base.Bits.{and_mask, or_fields, and-two_pow, zero-or, or-zero, two_pow_pos}
use machgate.EhFrame.Leb.{uleb128_bytes, ehf_uleb128, read_uleb128_from, eh_read_uleb128}

-- The digits above are added to those below.
or_above : (k q r : ℕ) → r < 2 ^ k → bit_or r (q * 2 ^ k) ≡ r + q * 2 ^ k
or_above k q r h = ground (arith, two_pow_pos k, or_fields k 0 r q 0, zero-or q, or-zero r)

-- A byte of seven bits with the bit that more bytes follow.
or_more : (b : ℕ) → b < 128 → bit_or b 0x80 ≡ b + 128
or_more b h = or_above 7 1 b h

seven_more : (s : ℕ) → 2 ^ (s + 7) ≡ 128 * 2 ^ s
seven_more s = simp towards_suc (omega arith)

split : (v : ℕ) → v ≡ v / 128 * 128 + v % 128
split v = omega arith

regroup : (a b t : ℕ) → (a * 128 + b) * t ≡ a * (128 * t) + b * t
regroup a b t = omega arith

-- The lowest seven bits and the rest, as they stand from bit `s` on.
digits : (v s : ℕ) → v * 2 ^ s ≡ v / 128 * 2 ^ (s + 7) + v % 128 * 2 ^ s
digits v s =
    ap (λ (n : ℕ). n * 2 ^ s) (split v)
    ∙ regroup (v / 128) (v % 128) (2 ^ s)
    ∙ ap (λ (t : ℕ). v / 128 * t + v % 128 * 2 ^ s) (sym (seven_more s))

-- A digit put below bit `s + 7` stays below it.
stays_below : (s b r : ℕ) → b < 128 → r < 2 ^ s → r + b * 2 ^ s < 2 ^ (s + 7)
stays_below s b r hb hr =
    let most : b * 2 ^ s ≤ 127 * 2 ^ s = grind arith in omega (arith, seven_more s)

module _ (result shift b : ℕ) (rest : List ℕ) (small : b < 128) (below : result < 2 ^ shift)
    (fits : b * 2 ^ shift < 2 ^ 64) where
  joined : bit_or result (u64 (b * 2 ^ shift)) ≡ result + b * 2 ^ shift
  joined =
      let e : u64 (b * 2 ^ shift) ≡ b * 2 ^ shift = omega arith in
      rw e (or_above shift b result below)

  -- The last byte.
  read_last : read_uleb128_from result shift (b ∷ rest) ≡ (result + b * 2 ^ shift, rest)
  unfolding read_uleb128_from
  read_last =
      let low : bit_and b 0x7F ≡ b = omega (arith, and_mask 7 b) in
      let top : (bit_and b 0x80 == 0) ≡ true = (==_iff _ _).1 (omega (arith, and-two_pow b 7)) in
      rw (top, low, joined) refl

  -- A byte that more bytes follow.
  read_more :
      read_uleb128_from result shift ((b + 128) ∷ rest)
      ≡ read_uleb128_from (result + b * 2 ^ shift) (shift + 7) rest
  unfolding read_uleb128_from
  read_more =
      let low : bit_and (b + 128) 0x7F ≡ b = omega (arith, and_mask 7 (b + 128)) in
      let top : (bit_and (b + 128) 0x80 == 0) ≡ false =
        ne→==_false _ _ (λ e. absurd (omega (arith, and-two_pow (b + 128) 7))) in
      rw (top, low, joined) refl

last_byte : (rounds v : ℕ) → v < 128 → uleb128_bytes (suc rounds) v ≡ v ∷ []
unfolding uleb128_bytes
last_byte rounds v h =
    let done : (v / 2 ^ 7 == 0) ≡ true = (==_iff _ _).1 (omega arith) in
    let low : bit_and v 0x7F ≡ v = omega (arith, and_mask 7 v) in rw (done, low) refl

more_bytes :
    (rounds v : ℕ)
    → 128 ≤ v
    → uleb128_bytes (suc rounds) v ≡ (v % 128 + 128) ∷ uleb128_bytes rounds (v / 128)
unfolding uleb128_bytes
more_bytes rounds v h =
    let more : (v / 2 ^ 7 == 0) ≡ false = ne→==_false _ _ (λ e. absurd (omega arith)) in
    rw (more, and_mask 7 v, or_more (v % 2 ^ 7) (omega arith)) refl

read_bytes :
    (rounds v result shift : ℕ) (rest : List ℕ)
    → v < 128 ^ suc rounds
    → result < 2 ^ shift
    → v * 2 ^ shift < 2 ^ 64
    → read_uleb128_from result shift (uleb128_bytes (suc rounds) v ++ rest)
      ≡ (result + v * 2 ^ shift, rest)
read_bytes zero v result shift rest hv hr h =
    let small : v < 128 = omega (arith, pow-suc 128 0) in
    ap (λ bytes. read_uleb128_from result shift (bytes ++ rest)) (last_byte 0 v small)
    ∙ read_last result shift v rest small hr h
read_bytes (suc rounds) v result shift rest hv hr h = elim (dec_lt v 128) [
  | yes small ↦
      ap (λ bytes. read_uleb128_from result shift (bytes ++ rest)) (last_byte (suc rounds) v small)
      ∙ read_last result shift v rest small hr h
  | no large ↦
      let d = digits v shift in
      ap (λ bytes. read_uleb128_from result shift (bytes ++ rest))
        (more_bytes (suc rounds) v (omega arith))
      ∙ read_more result shift (v % 128) (uleb128_bytes (suc rounds) (v / 128) ++ rest)
          (omega arith) hr (omega arith)
      ∙ read_bytes rounds (v / 128) (result + v % 128 * 2 ^ shift) (shift + 7) rest
          (omega (arith, pow-suc 128 (suc rounds)))
          (stays_below shift (v % 128) result (omega arith) hr) (omega arith)
      ∙ ap (λ n. (n, rest)) (omega arith)
]

-- Every number of 64 bits that `ehf_uleb128` writes is read back by `eh_read_uleb128`, which stops right
-- after it, whatever follows.
pub eh_read_uleb128-ehf_uleb128 :
    (v : ℕ) (rest : List ℕ) → v < 2 ^ 64 → eh_read_uleb128 (ehf_uleb128 v ++ rest) ≡ (v, rest)
unfolding ehf_uleb128 eh_read_uleb128
eh_read_uleb128-ehf_uleb128 v rest h =
    read_bytes 9 v 0 0 rest (omega arith) (omega arith) (omega arith)
    ∙ ap (λ n. (n, rest)) (omega arith)

-- Nothing that reads makes more bytes.
pub length-read_uleb128_from :
    (result shift : ℕ) (p : List ℕ) → length (read_uleb128_from result shift p).1 ≤ length p
unfolding read_uleb128_from
length-read_uleb128_from result shift [] = omega arith
length-read_uleb128_from result shift (c ∷ p) =
    let result' : ℕ = bit_or result (u64 (bit_and c 0x7F <<< shift)) in
    ground (arith, length-read_uleb128_from result' (shift + 7) p)
