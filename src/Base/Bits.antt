-- ===== src/Base/Bits.antt =====
-- Laws of `&` and `|` at variables: the step on the lowest digit, words made of fields, masks.
pub mod Flags
use Prim.Native.Nat.{ℕ, zero, suc, ◌+◌, ◌-◌, ◌*◌, ◌/◌, ◌%◌, ◌^◌, ◌≤◌, ◌<◌, min, max}
use Prim.Native.Nat.{bit_and, bit_or, digits, bitwise, bit_and-bitwise, bit_or-bitwise}
use mathlib.Core.Path.{◌≡◌, refl, sym, ap, ap₂, ◌∙◌}
use mathlib.Core.Logic.{◌≢◌, inl, inr}
use machgate.Base.Tests.{◌==◌, ==_iff, if◌then◌else◌, Bool-cases}
use native.Mathlib.Nat.{pow-suc, div-div-eq-div-mul}
use native.Mathlib.Omega.{arith}

-- Fuel beyond the first number is not used.
more_fuel :
    (z : ℕ → ℕ) (f : ℕ → ℕ → ℕ) (n m a b : ℕ) → a ≤ n → n ≤ m → digits z f m a b ≡ digits z f n a b
more_fuel z f zero zero a b an nm = refl
more_fuel z f zero (suc m) zero b an nm = refl
more_fuel z f zero (suc m) (suc a) b an nm = absurd (omega arith)
more_fuel z f (suc n) zero a b an nm = absurd (omega arith)
more_fuel z f (suc n) (suc m) zero b an nm = refl
more_fuel z f (suc n) (suc m) (suc a) b an nm =
    rw (more_fuel z f n m (suc a / 2) (b / 2) (omega arith) (omega arith))

lowest_digit :
    (z : ℕ → ℕ) (f : ℕ → ℕ → ℕ) (a b : ℕ)
    → bitwise z f (suc a) b ≡ bitwise z f (suc a / 2) (b / 2) * 2 + f (suc a % 2) (b % 2)
lowest_digit z f a b =
    omega (arith, more_fuel z f (suc a / 2) a (suc a / 2) (b / 2) (omega arith) (omega arith))

pub and_step : (a b : ℕ) → bit_and a b ≡ bit_and (a / 2) (b / 2) * 2 + min (a % 2) (b % 2)
and_step zero b = simp bit_and-bitwise (omega arith)
and_step (suc a) b = simp bit_and-bitwise (lowest_digit (λ y. zero) min a b)

pub or_step : (a b : ℕ) → bit_or a b ≡ bit_or (a / 2) (b / 2) * 2 + max (a % 2) (b % 2)
or_step zero b = simp bit_or-bitwise (omega arith)
or_step (suc a) b = simp bit_or-bitwise (lowest_digit (λ y. y) max a b)

-- By a bound on both numbers, which halves at each step.
pub and-zero_below : (k a : ℕ) → a < 2 ^ k → bit_and a 0 ≡ 0
and-zero_below zero a h = rw (let e : a ≡ 0 = omega arith in e)
and-zero_below (suc k) a h = omega (arith, pow-suc 2 k, and_step a 0, and-zero_below k (a / 2))

lt_two_pow : (a : ℕ) → a < 2 ^ a
lt_two_pow zero = omega arith
lt_two_pow (suc a) = omega (arith, pow-suc 2 a, lt_two_pow a)

pub and-zero : (a : ℕ) → bit_and a 0 ≡ 0
and-zero a = and-zero_below a a (lt_two_pow a)

or-zero_below : (k a : ℕ) → a < 2 ^ k → bit_or a 0 ≡ a
or-zero_below zero a h = rw (let e : a ≡ 0 = omega arith in e)
or-zero_below (suc k) a h = omega (arith, pow-suc 2 k, or_step a 0, or-zero_below k (a / 2))

pub or-zero : (a : ℕ) → bit_or a 0 ≡ a
or-zero a = or-zero_below a a (lt_two_pow a)

-- Words made of a high and a low field are combined field by field.
twice : (q k : ℕ) → q * 2 ^ suc k ≡ q * 2 ^ k * 2
twice q k = omega (arith, ap (λ (t : ℕ). q * t) (pow-suc 2 k))

half_fields : (k q r : ℕ) → (q * 2 ^ suc k + r) / 2 ≡ q * 2 ^ k + r / 2
half_fields k q r = omega (arith, twice q k)

rest_fields : (k q r : ℕ) → (q * 2 ^ suc k + r) % 2 ≡ r % 2
rest_fields k q r = omega (arith, twice q k)

half_fits : (k r : ℕ) → r < 2 ^ suc k → r / 2 < 2 ^ k
half_fits k r h = omega (arith, pow-suc 2 k)

pub and_fields :
    (k q r q' r' : ℕ)
    → r < 2 ^ k
    → r' < 2 ^ k
    → bit_and (q * 2 ^ k + r) (q' * 2 ^ k + r') ≡ bit_and q q' * 2 ^ k + bit_and r r'
and_fields zero q r q' r' h h' = ground arith
and_fields (suc k) q r q' r' h h' = ground (
  arith,
  and_step (q * 2 ^ suc k + r) (q' * 2 ^ suc k + r'),
  and_step r r',
  half_fields k q r,
  half_fields k q' r',
  rest_fields k q r,
  rest_fields k q' r',
  twice (bit_and q q') k,
  and_fields k q (r / 2) q' (r' / 2) (half_fits k r h) (half_fits k r' h'),
)

pub or_fields :
    (k q r q' r' : ℕ)
    → r < 2 ^ k
    → r' < 2 ^ k
    → bit_or (q * 2 ^ k + r) (q' * 2 ^ k + r') ≡ bit_or q q' * 2 ^ k + bit_or r r'
or_fields zero q r q' r' h h' = ground arith
or_fields (suc k) q r q' r' h h' = ground (
  arith,
  or_step (q * 2 ^ suc k + r) (q' * 2 ^ suc k + r'),
  or_step r r',
  half_fields k q r,
  half_fields k q' r',
  rest_fields k q r,
  rest_fields k q' r',
  twice (bit_or q q') k,
  or_fields k q (r / 2) q' (r' / 2) (half_fits k r h) (half_fits k r' h'),
)

pub zero-or : (b : ℕ) → bit_or 0 b ≡ b
zero-or b = bit_or-bitwise 0 b

pub zero-and : (b : ℕ) → bit_and 0 b ≡ 0
zero-and b = bit_and-bitwise 0 b

-- A field shifted above another one is joined to it by `|` as by `+`.
pub or_joins : (k q r : ℕ) → r < 2 ^ k → bit_or (q * 2 ^ k) r ≡ q * 2 ^ k + r
or_joins k q r h = ground (arith, or_fields k q 0 0 r, or-zero q, zero-or r)

pub two_pow_pos : (k : ℕ) → 0 < 2 ^ k
two_pow_pos k = omega (arith, lt_two_pow k)

and_ones : (k r : ℕ) → r < 2 ^ k → bit_and r (2 ^ k - 1) ≡ r
and_ones zero r h = rw (let e : r ≡ 0 = omega arith in e)
and_ones (suc k) r h =
    let halves : (2 ^ suc k - 1) / 2 ≡ 2 ^ k - 1 = omega (arith, pow-suc 2 k, two_pow_pos k) in
    let odd : (2 ^ suc k - 1) % 2 ≡ 1 = omega (arith, pow-suc 2 k, two_pow_pos k) in
    ground (arith, and_step r (2 ^ suc k - 1), halves, odd, and_ones k (r / 2) (half_fits k r h))

-- A mask of `k` ones keeps the low `k` bits.
pub and_mask : (k a : ℕ) → bit_and a (2 ^ k - 1) ≡ a % 2 ^ k
and_mask k a = ground (
  arith,
  two_pow_pos k,
  and_fields k (a / 2 ^ k) (a % 2 ^ k) 0 (2 ^ k - 1),
  and-zero (a / 2 ^ k),
  and_ones k (a % 2 ^ k),
)

-- The bit of weight `2 ^ k`.
abbrev pub bit : ℕ → ℕ → ℕ
bit a k = a / 2 ^ k % 2

pub and_one : (a : ℕ) → bit_and a 1 ≡ a % 2
and_one a = and_mask 1 a

pub and-two_pow : (a k : ℕ) → bit_and a (2 ^ k) ≡ bit a k * 2 ^ k
and-two_pow a k = ground (
  arith,
  two_pow_pos k,
  and_fields k (a / 2 ^ k) (a % 2 ^ k) 1 0,
  and_one (a / 2 ^ k),
  and-zero (a % 2 ^ k),
)

-- A masked field put under an opcode.
pub or-and_mask : (k q a : ℕ) → bit_or (q * 2 ^ k) (bit_and a (2 ^ k - 1)) ≡ q * 2 ^ k + a % 2 ^ k
or-and_mask k q a =
    let fits : a % 2 ^ k < 2 ^ k = omega (arith, two_pow_pos k) in
    rw (and_mask k a) (or_joins k q (a % 2 ^ k) fits)

-- A mask read from its low end: zeros skip bits, ones keep them.
pub and_skip : (k a m : ℕ) → bit_and a (m * 2 ^ k) ≡ bit_and (a / 2 ^ k) m * 2 ^ k
and_skip k a m =
    ground (arith, two_pow_pos k, and_fields k (a / 2 ^ k) (a % 2 ^ k) m 0, and-zero (a % 2 ^ k))

pub and_keep :
    (k a m : ℕ) → bit_and a (m * 2 ^ k + (2 ^ k - 1)) ≡ bit_and (a / 2 ^ k) m * 2 ^ k + a % 2 ^ k
and_keep k a m = ground (
  arith,
  two_pow_pos k,
  and_fields k (a / 2 ^ k) (a % 2 ^ k) m (2 ^ k - 1),
  and_ones k (a % 2 ^ k),
)

pub or-lt : (k a b : ℕ) → a < 2 ^ k → b < 2 ^ k → bit_or a b < 2 ^ k
or-lt zero a b ha hb =
    let ea : a ≡ 0 = omega arith in let eb : b ≡ 0 = omega arith in rw (ea, eb) (omega arith)
or-lt (suc k) a b ha hb =
    omega (
      arith,
      pow-suc 2 k,
      or_step a b,
      or-lt k (a / 2) (b / 2) (half_fits k a ha) (half_fits k b hb),
    )
