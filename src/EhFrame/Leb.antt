-- ===== src/EhFrame/Leb.antt =====
-- The variable-length numbers of src/eh_frame.c. The bytes from a pointer up to the end are a list.
pub mod Laws
use machgate.Base.{
  ℕ, zero, suc, ◌+◌, ◌-◌, ◌*◌, ◌/◌, ◌%◌, ◌^◌, ◌==◌, ltb, leb, if◌then◌else◌, Bool, true, false,
  ◌&&◌, ◌||◌, not, List, [], ◌∷◌, bit_and, bit_or, u64, ◌<<<◌, ◌>>>◌, ℤ, pos, negsuc, shr_ℤ,
  low_bits,
}

-- `ehf_uleb128` for a number of at most 7 bits for each round.
unfoldable pub uleb128_bytes : (rounds : ℕ) → ℕ → List ℕ
uleb128_bytes zero v = []
uleb128_bytes (suc rounds) v =
    let byte = bit_and v 0x7F in
    let rest = uleb128_bytes rounds (v >>> 7) in
    if v >>> 7 == 0 then byte ∷ [] else bit_or byte 0x80 ∷ rest

-- Ten rounds for 64 bits.
unfoldable pub ehf_uleb128 : ℕ → List ℕ
unfolding uleb128_bytes
ehf_uleb128 v = uleb128_bytes 10 v

-- Nothing but the sign is left.
abbrev pub is_sign : ℤ → (byte : ℕ) → Bool
is_sign (pos n) byte = n == 0 && bit_and byte 0x40 == 0
is_sign (negsuc n) byte = n == 0 && not (bit_and byte 0x40 == 0)

unfoldable pub sleb128_bytes : (rounds : ℕ) → ℤ → List ℕ
sleb128_bytes zero v = []
sleb128_bytes (suc rounds) v =
    let byte = low_bits v 7 in
    let rest = sleb128_bytes rounds (shr_ℤ v 7) in
    if is_sign (shr_ℤ v 7) byte then byte ∷ [] else bit_or byte 0x80 ∷ rest

unfoldable pub ehf_sleb128 : ℤ → List ℕ
unfolding sleb128_bytes
ehf_sleb128 v = sleb128_bytes 10 v

-- The loop of `eh_read_uleb128`. A shift by more than 63 bits, which C leaves open, gives 0.
unfoldable pub read_uleb128_from : (result shift : ℕ) → List ℕ → ℕ × List ℕ
read_uleb128_from result shift [] = (result, [])
read_uleb128_from result shift (byte ∷ bytes) =
    let result' = bit_or result (u64 (bit_and byte 0x7F <<< shift)) in
    let rest = read_uleb128_from result' (shift + 7) bytes in
    if bit_and byte 0x80 == 0 then (result', bytes) else rest

unfoldable pub eh_read_uleb128 : List ℕ → ℕ × List ℕ
unfolding read_uleb128_from
eh_read_uleb128 bytes = read_uleb128_from 0 0 bytes

-- An `int64_t` of this bit pattern.
abbrev pub signed64 : ℕ → ℤ
signed64 n = if ltb n (2 ^ 63) then pos n else negsuc (2 ^ 64 - 1 - n)

-- The sign is extended from bit 6 of the last byte.
abbrev pub extend_sign : (result shift byte : ℕ) → ℤ
extend_sign result shift byte =
    if ltb shift 64 && not (bit_and byte 0x40 == 0)
    then signed64 (bit_or result (2 ^ 64 - 2 ^ shift))
    else signed64 result

-- `byte` is the last byte read.
unfoldable pub read_sleb128_from : (result shift byte : ℕ) → List ℕ → ℤ × List ℕ
read_sleb128_from result shift byte [] = (extend_sign result shift byte, [])
read_sleb128_from result shift byte (next ∷ bytes) =
    let result' = bit_or result (u64 (bit_and next 0x7F <<< shift)) in
    let rest = read_sleb128_from result' (shift + 7) next bytes in
    if bit_and next 0x80 == 0 then (extend_sign result' (shift + 7) next, bytes) else rest

-- With no byte at all, the variable that the code tests has no value; 0 here.
unfoldable pub eh_read_sleb128 : List ℕ → ℤ × List ℕ
unfolding read_sleb128_from
eh_read_sleb128 bytes = read_sleb128_from 0 0 0 bytes
