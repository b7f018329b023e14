-- ===== src/EhFrame/Hdr.antt =====
-- The table of `.eh_frame_hdr` in src/eh_frame.c: as `eh_frame_generate_and_register` builds it, and as
-- `eh_frame_register_cached` builds it again from the pairs of the cache. A difference of two addresses is the
-- 64 bits of an `int64_t`.
pub mod Table
pub mod Reads
pub mod Cached
use machgate.Base.{
  ℕ, ◌+◌, ◌-◌, ◌^◌, ltb, leb, if◌then◌else◌, Bool, ◌&&◌, ◌||◌, not, List, [], ◌∷◌, ◌++◌, length,
  map, Option, none, some, u32, u64, le,
}
use machgate.EhFrame.Read.{HdrEntry}

abbrev pub difference : (a b : ℕ) → ℕ
difference a b = u64 (a + 2 ^ 64 - b)

-- Between INT32_MIN and INT32_MAX.
abbrev pub is_int32 : ℕ → Bool
is_int32 d = ltb d (2 ^ 31) || leb (2 ^ 64 - 2 ^ 31) d

abbrev pub behind : List ℕ → Option (List ℕ) → Option (List ℕ)
behind bytes none = none
behind bytes (some rest) = some (bytes ++ rest)

-- The loop over the entries, of which only the two addresses matter.
unfoldable pub eh_frame_table : (datarel_base : ℕ) → List (ℕ × ℕ) → Option (List ℕ)
eh_frame_table datarel_base [] = some []
eh_frame_table datarel_base ((initial_location, fde_ptr) ∷ entries) =
    let initial_rel = difference initial_location datarel_base in
    let fde_rel = difference fde_ptr datarel_base in
    let rest = eh_frame_table datarel_base entries in
    if is_int32 initial_rel && is_int32 fde_rel
    then behind (le 4 (u32 initial_rel) ++ le 4 (u32 fde_rel)) rest
    else none

-- The version, the three encodings, the pointer to the frame and the count.
abbrev pub hdr_start : (hdr frame count : ℕ) → List ℕ
hdr_start hdr frame count =
    1 ∷ 0x1b ∷ 0x03 ∷ 0x3b ∷ (le 4 (u32 (difference frame (hdr + 4))) ++ le 4 (u32 count))

abbrev pub addresses : HdrEntry → ℕ × ℕ
addresses e = (e.initial_location, e.fde_ptr)

-- None, if a pointer does not fit into its 32 bits.
unfoldable pub eh_frame_hdr : (hdr frame : ℕ) → List HdrEntry → Option (List ℕ)
unfolding eh_frame_table
eh_frame_hdr hdr frame entries =
    if is_int32 (difference frame (hdr + 4))
    then behind (hdr_start hdr frame (length entries)) (eh_frame_table hdr (map addresses entries))
    else none

-- The pairs that are kept for the cache: an address and an offset in the frame.
abbrev pub cache_pair : (ehf_buf : ℕ) → HdrEntry → ℕ × ℕ
cache_pair ehf_buf e = (e.initial_location, difference e.fde_ptr ehf_buf)

-- The version, the three encodings, the pointer to the frame, cut to 32 bits, and the count.
abbrev pub cached_start : (hdr_copy eh_frame_copy pair_count : ℕ) → List ℕ
cached_start hdr_copy eh_frame_copy pair_count =
    let eh_frame_rel = u32 (difference eh_frame_copy (hdr_copy + 4)) in
    1 ∷ 0x1b ∷ 0x03 ∷ 0x3b ∷ (le 4 eh_frame_rel ++ le 4 (u32 pair_count))

-- The loop over the pairs; none, if an address does not fit.
unfoldable pub cached_table : (hdr_copy eh_frame_copy : ℕ) → List (ℕ × ℕ) → Option (List ℕ)
cached_table hdr_copy eh_frame_copy [] = some []
cached_table hdr_copy eh_frame_copy ((initial_location, fde_offset) ∷ pairs) =
    let fde_address = u64 (eh_frame_copy + fde_offset) in
    let initial_rel = difference initial_location hdr_copy in
    let fde_rel = difference fde_address hdr_copy in
    let rest = cached_table hdr_copy eh_frame_copy pairs in
    if not (is_int32 initial_rel) || not (is_int32 fde_rel)
    then none
    else behind (le 4 (u32 initial_rel) ++ le 4 (u32 fde_rel)) rest

-- From the cache, the pointer to the frame is not checked.
unfoldable pub cached_hdr : (hdr_copy eh_frame_copy : ℕ) → List (ℕ × ℕ) → Option (List ℕ)
unfolding cached_table
cached_hdr hdr_copy eh_frame_copy pairs =
    behind (cached_start hdr_copy eh_frame_copy (length pairs))
      (cached_table hdr_copy eh_frame_copy pairs)
