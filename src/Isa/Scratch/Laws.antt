-- ===== src/Isa/Scratch/Laws.antt =====
-- A scratch register is none of the registers in use.
use machgate.Base.{ℕ, zero, suc, ◌+◌, ◌-◌, ◌^◌, ◌≤◌, ◌<◌, ◌≡◌, refl, ◌≢◌, inl, inr, arith}
use machgate.Base.{List, [], ◌∷◌, length, Option, none, some, Bool, true, false, ◌||◌}
use machgate.Base.{◌==◌, if◌then◌else◌, Bool-cases, ltb, bit_or, ◌<<<◌, ◌∙◌, sym, ==_iff}
use machgate.Base.Bits.{bit, and-two_pow, two_pow_pos}
use machgate.Base.Bits.Flags.{bit-or, bit-two_pow_self, bit-two_pow_ne}
use machgate.Isa.Scratch.{is_free, pick_down, pick_up, pick_scratch}

abbrev pub contains : List ℕ → ℕ → Bool
contains [] r = false
contains (x ∷ xs) r = x == r || contains xs r

erase : List ℕ → ℕ → List ℕ
erase [] r = []
erase (x ∷ xs) r = if x == r then xs else x ∷ erase xs r

length-erase : (xs : List ℕ) (r : ℕ) → contains xs r ≡ true → length (erase xs r) + 1 ≡ length xs
unfolding erase
length-erase [] r h = absurd (cc)
length-erase (x ∷ xs) r h = ground (arith, length-erase xs r)

contains-erase_ne : (xs : List ℕ) (r q : ℕ) → r ≢ q → contains (erase xs r) q ≡ contains xs q
unfolding erase
contains-erase_ne [] r q h = refl
contains-erase_ne (x ∷ xs) r q h = ground (arith, contains-erase_ne xs r q h)

-- A list shorter than a range misses a number of it.
pigeonhole :
    (n lo : ℕ) (xs : List ℕ) → length xs < n → ¬ ((k : ℕ) → k < n → contains xs (lo + k) ≡ true)
pigeonhole zero lo xs h all = absurd (omega arith)
pigeonhole (suc n) lo xs h all =
    let short = length-erase xs (lo + n) (all n (omega arith)) in
    pigeonhole n lo (erase xs (lo + n)) (omega arith)
      λ k below. contains-erase_ne xs (lo + n) (lo + k) (omega arith) ∙ all k (omega arith)

-- The bits set in a mask are those of the registers.
abbrev pub Marks : List ℕ → ℕ → Type 0
Marks regs mask = (r : ℕ) → bit mask r ≡ (if contains regs r then 1 else 0)

bit-flag : (a r : ℕ) → bit (1 <<< a) r ≡ (if a == r then 1 else 0)
bit-flag a r =
    let e : 1 <<< a ≡ 2 ^ a = omega arith in
    rw e (elim (Bool-cases (a == r)) [
      | inl same ↦ rw same (rw (sym ((==_iff a r).0 same)) (bit-two_pow_self a))
      | inr other ↦ rw other (bit-two_pow_ne a r (ground arith))
    ])

pub Marks-one : (a : ℕ) → Marks (a ∷ []) (1 <<< a)
Marks-one a r = ground (arith, bit-flag a r)

pub Marks-or :
    (a : ℕ) (regs : List ℕ) (mask : ℕ) → Marks regs mask → Marks (a ∷ regs) (bit_or mask (1 <<< a))
Marks-or a regs mask m r = ground (arith, bit-or r mask (1 <<< a), bit-flag a r, m r)

is_free_iff :
    (regs : List ℕ) (mask r : ℕ)
    → Marks regs mask
    → is_free mask r ≡ (if contains regs r then false else true)
is_free_iff regs mask r m =
    let e : 1 <<< r ≡ 2 ^ r = omega arith in
    rw e (ground (arith, and-two_pow mask r, m r, two_pow_pos r))

-- What each loop gives: a free register of its range, or none is free.
abbrev Picked : List ℕ → ℕ → ℕ → Option ℕ → Type 0
Picked regs lo n (some r) = (lo ≤ r) × (r < lo + n) × (contains regs r ≡ false)
Picked regs lo n none = (k : ℕ) → k < n → contains regs (lo + k) ≡ true

Picked-above :
    (regs : List ℕ) (lo n : ℕ) (o : Option ℕ)
    → contains regs (lo + n) ≡ true
    → Picked regs lo n o
    → Picked regs lo (suc n) o
Picked-above regs lo n (some r) h p = (p.0, omega arith, p.2)
Picked-above regs lo n none h p = λ k below. elim (Bool-cases (k == n)) [
  | inl last ↦ rw ((==_iff k n).0 last) h
  | inr inner ↦ p k (ground arith)
]

Picked-below :
    (regs : List ℕ) (lo n : ℕ) (o : Option ℕ)
    → contains regs lo ≡ true
    → Picked regs (lo + 1) n o
    → Picked regs lo (suc n) o
Picked-below regs lo n (some r) h p = (omega arith, omega arith, p.2)
Picked-below regs lo n none h p = λ k below. elim (Bool-cases (k == 0)) [
  | inl first ↦ let e : lo + k ≡ lo = ground arith in rw e h
  | inr inner ↦ let e : lo + k ≡ lo + 1 + (k - 1) = ground arith in rw e (p (k - 1) (ground arith))
]

pick_down-Picked :
    (regs : List ℕ) (mask n : ℕ) → Marks regs mask → Picked regs 9 n (pick_down mask n)
unfolding pick_down
pick_down-Picked regs mask zero m = λ k h. absurd (omega arith)
pick_down-Picked regs mask (suc n) m =
    rw (is_free_iff regs mask (9 + n) m) (elim (Bool-cases (contains regs (9 + n))) [
      | inl used ↦ rw used (Picked-above regs 9 n _ used (pick_down-Picked regs mask n m))
      | inr free ↦ rw free (omega arith, omega arith, free)
    ])

pick_up-Picked :
    (regs : List ℕ) (mask n : ℕ)
    → n ≤ 12
    → Marks regs mask
    → Picked regs (29 - n) n (pick_up mask n)
unfolding pick_up
pick_up-Picked regs mask zero h m = λ k h. absurd (omega arith)
pick_up-Picked regs mask (suc n) h m =
    let e : 29 - suc n ≡ 28 - n = omega arith in
    let e' : 29 - n ≡ 28 - n + 1 = omega arith in
    rw (is_free_iff regs mask (28 - n) m, e)
      (elim (Bool-cases (contains regs (28 - n))) [
        | inl used ↦ rw used (
            Picked-below regs (28 - n) n _ used
              (rw e' at (pick_up-Picked regs mask n (omega arith) m)))
        | inr free ↦ rw free (omega arith, omega arith, free)
      ])

-- Registers 9 to 28 cannot all be in use.
none_free : (regs : List ℕ) → length regs < 20 → Picked regs 9 8 none → ¬ (Picked regs 17 12 none)
none_free regs short low high = pigeonhole 20 9 regs short λ k below. elim (Bool-cases (ltb k 8)) [
  | inl in_low ↦ low k (ground arith)
  | inr in_high ↦ let e : 9 + k ≡ 17 + (k - 8) = ground arith in rw e (high (k - 8) (ground arith))
]

abbrev pub IsScratch : List ℕ → ℕ → Type 0
IsScratch regs r = (9 ≤ r) × (r ≤ 28) × (contains regs r ≡ false)

IsScratch-of :
    (regs : List ℕ) (low high : Option ℕ)
    → length regs < 20
    → Picked regs 9 8 low
    → Picked regs 17 12 high
    → IsScratch regs (elim low [ some r ↦ r | none ↦ elim high [ some r ↦ r | none ↦ 8 ] ])
IsScratch-of regs (some r) high short p q = (p.0, omega arith, p.2)
IsScratch-of regs none (some r) short p q = (omega arith, omega arith, q.2)
IsScratch-of regs none none short p q = absurd (none_free regs short p q)

-- With fewer than 20 registers in use, `pick_scratch` of their mask is a general register from x9 to
-- x28 that is none of them; the fallback to x8 is not reached.
pub pick_scratch-IsScratch :
    (regs : List ℕ) (mask : ℕ)
    → length regs < 20
    → Marks regs mask
    → IsScratch regs (pick_scratch mask)
unfolding pick_scratch
pick_scratch-IsScratch regs mask short m =
    IsScratch-of regs _ _ short (pick_down-Picked regs mask 8 m)
      (pick_up-Picked regs mask 12 (omega arith) m)
