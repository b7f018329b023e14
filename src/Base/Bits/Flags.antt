-- ===== src/Base/Bits/Flags.antt =====
-- `|` bit by bit, and the tests that carry a flag from one word to another.
use Prim.Native.Nat.{ℕ, zero, suc, ◌+◌, ◌*◌, ◌/◌, ◌%◌, ◌^◌, ◌<◌, max}
use Prim.Native.Nat.{bit_and, bit_or}
use mathlib.Core.Path.{◌≡◌, refl, sym, ap, ap₂, ◌∙◌}
use mathlib.Core.Logic.{◌≢◌, inl, inr}
use machgate.Base.Tests.{◌==◌, ==_iff, if◌then◌else◌, Bool-cases}
use native.Mathlib.Nat.{pow-suc, div-div-eq-div-mul}
use native.Mathlib.Omega.{arith}
use machgate.Base.Bits.{bit, or_fields, or_step, or-lt, two_pow_pos, and-two_pow}

whole : (k a : ℕ) → a / 2 ^ k * 2 ^ k + a % 2 ^ k ≡ a
whole k a = omega (arith, two_pow_pos k)

high_part : (k x r : ℕ) → r < 2 ^ k → (x * 2 ^ k + r) / 2 ^ k ≡ x
high_part k x r h = grind (arith, two_pow_pos)

div-or : (k a b : ℕ) → bit_or a b / 2 ^ k ≡ bit_or (a / 2 ^ k) (b / 2 ^ k)
div-or k a b =
    let ra : a % 2 ^ k < 2 ^ k = omega (arith, two_pow_pos k) in
    let rb : b % 2 ^ k < 2 ^ k = omega (arith, two_pow_pos k) in
    let joined = or_fields k (a / 2 ^ k) (a % 2 ^ k) (b / 2 ^ k) (b % 2 ^ k) ra rb in
    let split : bit_or a b
        ≡ bit_or (a / 2 ^ k) (b / 2 ^ k) * 2 ^ k + bit_or (a % 2 ^ k) (b % 2 ^ k) =
      sym (ap₂ bit_or (whole k a) (whole k b)) ∙ joined in
    ap (λ (t : ℕ). t / 2 ^ k) split
    ∙ high_part k (bit_or (a / 2 ^ k) (b / 2 ^ k)) _ (or-lt k (a % 2 ^ k) (b % 2 ^ k) ra rb)

-- `|` bit by bit.
pub bit-or : (k a b : ℕ) → bit (bit_or a b) k ≡ max (bit a k) (bit b k)
bit-or k a b = rw (div-or k a b) (omega (arith, or_step (a / 2 ^ k) (b / 2 ^ k)))

bit-suc : (k a : ℕ) → bit a (suc k) ≡ bit (a / 2) k
bit-suc k a =
    let e : 2 ^ suc k ≡ 2 * 2 ^ k = omega (arith, pow-suc 2 k) in rw (e, ← div-div-eq-div-mul)

pub bit-two_pow_self : (a : ℕ) → bit (2 ^ a) a ≡ 1
bit-two_pow_self zero = refl
bit-two_pow_self (suc a) =
    let e : 2 ^ suc a / 2 ≡ 2 ^ a = omega (arith, pow-suc 2 a) in
    bit-suc a (2 ^ suc a) ∙ rw e (bit-two_pow_self a)

zero-bit : (k : ℕ) → bit 0 k ≡ 0
zero-bit k = omega (arith, two_pow_pos k)

pub bit-two_pow_ne : (a k : ℕ) → a ≢ k → bit (2 ^ a) k ≡ 0
bit-two_pow_ne zero zero h = absurd (h refl)
bit-two_pow_ne zero (suc k) h = bit-suc k 1 ∙ zero-bit k
bit-two_pow_ne (suc a) zero h = omega (arith, pow-suc 2 a)
bit-two_pow_ne (suc a) (suc k) h =
    let e : 2 ^ suc a / 2 ≡ 2 ^ a = omega (arith, pow-suc 2 a) in
    bit-suc k (2 ^ suc a) ∙ rw e (bit-two_pow_ne a k (λ p. h (ap suc p)))

-- `if (flags & mask) word |= value`, for a mask and a value of one bit each.
abbrev pub add_flag : ℕ → ℕ → ℕ → ℕ → ℕ
add_flag flags mask value word = if bit_and flags mask == 0 then word else bit_or word value

pub bit-add_flag :
    (flags d l word k : ℕ)
    → bit (add_flag flags (2 ^ d) (2 ^ l) word) k
      ≡ max (bit word k) (if l == k then bit flags d else 0)
bit-add_flag flags d l word k =
    let test = and-two_pow flags d in
    elim (Bool-cases (bit_and flags (2 ^ d) == 0)) [
      | inl off ↦
          let zero_bit : bit flags d ≡ 0 = ground (arith, two_pow_pos d) in
          rw (off, zero_bit) (ground arith)
      | inr on ↦
          let one_bit : bit flags d ≡ 1 = ground (arith, two_pow_pos d) in
          rw (on, one_bit, bit-or k word (2 ^ l))
            (elim (Bool-cases (l == k)) [
              | inl same ↦ rw same (rw ((==_iff l k).0 same, bit-two_pow_self k))
              | inr other ↦ rw other (rw (bit-two_pow_ne l k (ground arith)))
            ])
    ]

-- The next flag of a word whose bits are known, in which its own bit is still clear.
pub next_flag :
    (flags d l word : ℕ) (source : ℕ → ℕ)
    → ((k : ℕ) → bit word k ≡ source k)
    → source l ≡ 0
    → (k : ℕ)
    → bit (add_flag flags (2 ^ d) (2 ^ l) word) k ≡ (if l == k then bit flags d else source k)
next_flag flags d l word source known clear k = elim (Bool-cases (l == k)) [
  | inl same ↦
      let e : l ≡ k = (==_iff l k).0 same in
      let clear_here : bit word k ≡ 0 = known k ∙ rw (← e) clear in
      bit-add_flag flags d l word k ∙ rw same (omega arith)
  | inr other ↦ bit-add_flag flags d l word k ∙ rw other (omega (arith, known k))
]
