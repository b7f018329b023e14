-- ===== src/Gate/Flags.antt =====
-- The translations of flags from Darwin to Linux on arm64.
use native.Mathlib.Nat.{pow-suc, div-eq_of_lt}
use machgate.Base.{
  ℕ, zero, suc, ◌%◌, false, ltb, ◌≡◌, refl, bit_and, ◌<◌, ◌^◌, arith, ◌==◌, if◌then◌else◌,
}
use machgate.Base.Bits.{bit, and_mask, two_pow_pos}
use machgate.Base.Bits.Flags.{add_flag, next_flag}

-- Darwin's values are those of the source, Linux's those of the arm64 ABI.
abbrev pub o_accmode : ℕ
o_accmode = 3

unfoldable pub translate_open_flags : ℕ → ℕ
translate_open_flags darwin_flags = add_flag darwin_flags 0x01000000 0x80000 (
    add_flag darwin_flags 0x00100000 0x4000 (
      add_flag darwin_flags 0x00020000 0x100 (
        add_flag darwin_flags 0x00000800 0x80 (
          add_flag darwin_flags 0x00000400 0x200 (
            add_flag darwin_flags 0x00000200 0x40 (
              add_flag darwin_flags 0x00000100 0x8000 (
                add_flag darwin_flags 0x00000008 0x400
                  (add_flag darwin_flags 0x00000004 0x800 (bit_and darwin_flags o_accmode)))))))))

-- MAP_SHARED, MAP_PRIVATE, MAP_FIXED and MAP_ANONYMOUS.
unfoldable pub translate_mmap_flags : ℕ → ℕ
translate_mmap_flags darwin_flags = add_flag darwin_flags 0x1000 0x20 (
    add_flag darwin_flags 0x0010 0x10
      (add_flag darwin_flags 0x0002 0x02 (add_flag darwin_flags 0x0001 0x01 0)))

-- VM_PROT_READ, VM_PROT_WRITE and VM_PROT_EXECUTE.
unfoldable pub native_prot_from_macho : ℕ → ℕ
native_prot_from_macho prot =
    add_flag prot 0x4 0x4 (add_flag prot 0x2 0x2 (add_flag prot 0x1 0x1 0))

access_mode : (f k : ℕ) → bit (bit_and f 3) k ≡ (if ltb k 2 then bit f k else 0)
access_mode f zero = omega (arith, and_mask 2 f)
access_mode f (suc zero) = omega (arith, and_mask 2 f)
access_mode f (suc (suc k)) =
    let mask : bit_and f 3 ≡ f % 4 = and_mask 2 f in
    let above : ltb (suc (suc k)) 2 ≡ false = ground arith in
    let wide : f % 4 < 2 ^ suc (suc k) =
      omega (arith, pow-suc 2 k, pow-suc 2 (suc k), two_pow_pos k) in
    rw (mask, above, div-eq_of_lt wide)

-- Which Darwin bit each Linux bit is made of.
abbrev pub open_flag_source : ℕ → ℕ → ℕ
open_flag_source f k =
    if 19 == k
    then bit f 24
    else if 14 == k
    then bit f 20
    else if 8 == k
    then bit f 17
    else if 7 == k
    then bit f 11
    else if 9 == k
    then bit f 10
    else if 6 == k
    then bit f 9
    else if 15 == k
    then bit f 8
    else if 10 == k
    then bit f 3
    else if 11 == k
    then bit f 2
    else if ltb k 2
    then bit f k
    else 0

-- Every bit of the translated `open` flags is that of the matching Darwin flag, the two low ones those
-- of the access mode, and no other bit is set.
pub translate_open_flags-bit : (f k : ℕ) → bit (translate_open_flags f) k ≡ open_flag_source f k
unfolding translate_open_flags
translate_open_flags-bit f =
    next_flag f 24 19 _ _
      (next_flag f 20 14 _ _
        (next_flag f 17 8 _ _
          (next_flag f 11 7 _ _
            (next_flag f 10 9 _ _
              (next_flag f 9 6 _ _
                (next_flag f 8 15 _ _
                  (next_flag f 3 10 _ _ (next_flag f 2 11 _ _ (access_mode f) refl) refl) refl)
                refl)
              refl)
            refl)
          refl)
        refl)
      refl

abbrev pub mmap_flag_source : ℕ → ℕ → ℕ
mmap_flag_source f k =
    if 5 == k
    then bit f 12
    else if 4 == k
    then bit f 4
    else if 1 == k
    then bit f 1
    else if 0 == k
    then bit f 0
    else 0

zero_bits : (k : ℕ) → bit 0 k ≡ 0
zero_bits k = omega (arith, two_pow_pos k)

abbrev pub prot_source : ℕ → ℕ → ℕ
prot_source prot k =
    if 2 == k then bit prot 2 else if 1 == k then bit prot 1 else if 0 == k then bit prot 0 else 0

-- The protection of a Mach-O segment becomes the native one with the same three bits, and no other bit
-- of the Mach-O word reaches it.
pub native_prot_from_macho-bit :
    (prot k : ℕ) → bit (native_prot_from_macho prot) k ≡ prot_source prot k
unfolding native_prot_from_macho
native_prot_from_macho-bit prot =
    next_flag prot 2 2 _ _
      (next_flag prot 1 1 _ _ (next_flag prot 0 0 0 (λ k. 0) zero_bits refl) refl) refl

-- The translated `mmap` flags have MAP_SHARED, MAP_PRIVATE, MAP_FIXED and MAP_ANONYMOUS exactly where
-- Darwin's are set, and no other bit.
pub translate_mmap_flags-bit : (f k : ℕ) → bit (translate_mmap_flags f) k ≡ mmap_flag_source f k
unfolding translate_mmap_flags
translate_mmap_flags-bit f =
    next_flag f 12 5 _ _
      (next_flag f 4 4 _ _ (next_flag f 1 1 _ _ (next_flag f 0 0 0 (λ k. 0) zero_bits refl) refl)
        refl)
      refl
