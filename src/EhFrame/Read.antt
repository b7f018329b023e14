-- ===== src/EhFrame/Read.antt =====
-- The reader of the program's own `__eh_frame` in src/eh_frame.c. A section is the list of its bytes; what the
-- code would read behind the end of it counts as missing. A pointer into the section is its offset there, and one
-- into the augmentation data of a CIE its offset there; the rest of a CIE is read as the list of the bytes that
-- are left.
pub mod Laws
use machgate.Base.{
  ℕ, zero, suc, ◌+◌, ◌-◌, ◌*◌, ◌%◌, ◌^◌, ◌==◌, ltb, leb, if◌then◌else◌, Bool, true, false, ◌&&◌,
  ◌||◌, not, List, [], ◌∷◌, length, take, drop, Option, none, some, bit_and, u64, unle, field,
}
use machgate.EhFrame.Leb.{eh_read_uleb128, eh_read_sleb128}

-- The value of a signed field of `bits` bits, converted to `uint64_t`.
abbrev pub sign_extended : (bits : ℕ) → ℕ → ℕ
sign_extended bits v = if ltb v (2 ^ (bits - 1)) then v else v + 2 ^ 64 - 2 ^ bits

-- The width in bytes of the format in the low four bits, and whether it is signed.
unfoldable pub format_of : (encoding : ℕ) → Option (ℕ × Bool)
format_of encoding =
    let format = bit_and encoding 0x0F in
    let field_of : ℕ → Bool → Option (ℕ × Bool) = λ k signed. some (k, signed) in
    if format == 0x00 || format == 0x04
    then field_of 8 false
    else if format == 0x02
    then field_of 2 false
    else if format == 0x03
    then field_of 4 false
    else if format == 0x0a
    then field_of 2 true
    else if format == 0x0b
    then field_of 4 true
    else if format == 0x0c
    then field_of 8 true
    else none

-- What stands at an offset, in that width and sign.
abbrev pub value_at : (k : ℕ) (signed : Bool) (bytes : List ℕ) (p : ℕ) → ℕ
value_at k signed bytes p =
    if signed then sign_extended (8 * k) (field k p bytes) else field k p bytes

-- `deref` is the memory, for an indirect pointer, and `bytes` stand at the address `bytes_addr`.
module _ (deref : ℕ → ℕ) (bytes_addr : ℕ) (bytes : List ℕ) where
  abbrev pub pointer_of : (encoding value p : ℕ) → ℕ
  pointer_of encoding value p =
      let based = if bit_and encoding 0x70 == 0x10 then u64 (value + bytes_addr + p) else value in
      if bit_and encoding 0x80 == 0 then based else deref based

  abbrev pub encoded_ptr_as : Option (ℕ × Bool) → (end encoding p : ℕ) → ℕ × ℕ
  encoded_ptr_as none end encoding p = (0, p)
  encoded_ptr_as (some (k, signed)) end encoding p =
      if ltb end (p + k) then (0, p) else (pointer_of encoding (value_at k signed bytes p) p, p + k)

  -- The value and the new offset.
  unfoldable pub eh_read_encoded_ptr : (end encoding p : ℕ) → ℕ × ℕ
  unfolding format_of
  eh_read_encoded_ptr end encoding p =
      if encoding == 0xff then (0, p) else encoded_ptr_as (format_of encoding) end encoding p

  -- The letters behind the `z`, over the augmentation data.
  unfoldable pub fde_encoding_of : (letters : List ℕ) (p : ℕ) → ℕ
  unfolding eh_read_encoded_ptr
  fde_encoding_of [] p = 0
  fde_encoding_of (c ∷ letters) p =
      let aug_end = length bytes in
      let enc = field 1 p bytes in
      let rest =
        fde_encoding_of letters
          (if c == b'L' then p + 1 else (eh_read_encoded_ptr aug_end enc (p + 1)).1) in
      if leb aug_end p
      then 0
      else if c == b'L' || c == b'P'
      then rest
      else if c == b'R'
      then enc
      else 0

abbrev pub encoded_value_as : (bytes : List ℕ) → Option (ℕ × Bool) → (end p : ℕ) → ℕ × ℕ
encoded_value_as bytes none end p = (0, p)
encoded_value_as bytes (some (k, signed)) end p =
    if ltb end (p + k) then (0, p) else (value_at k signed bytes p, p + k)

unfoldable pub eh_read_encoded_value : (bytes : List ℕ) (end encoding p : ℕ) → ℕ × ℕ
unfolding format_of
eh_read_encoded_value bytes end encoding p = encoded_value_as bytes (format_of encoding) end p

-- A string and what follows its zero.
unfoldable pub c_string : List ℕ → Option (List ℕ × List ℕ)
c_string [] = none
c_string (c ∷ p) =
    let rest = c_string p in
    if c == 0 then some ([], p) else elim rest [ none ↦ none | some (s, p') ↦ some (c ∷ s, p') ]

module _ (deref : ℕ → ℕ) (end : ℕ) where
  -- From the code alignment factor on.
  unfoldable pub encoding_behind : (version : ℕ) (aug_str : List ℕ) → List ℕ → ℕ
  unfolding eh_read_uleb128 eh_read_sleb128 fde_encoding_of
  encoding_behind version [] p = 0
  encoding_behind version (z ∷ letters) p =
      let p' = (eh_read_sleb128 (eh_read_uleb128 p).1).1 in
      let p'' = if version == 1 then drop 1 p' else (eh_read_uleb128 p').1 in
      let (aug_len, p3) = eh_read_uleb128 p'' in
      let aug = take aug_len p3 in
      if z == b'z' then fde_encoding_of deref (end - length p3) aug letters 0 else 0

  unfoldable pub parse_cie_fde_encoding : (cie : List ℕ) → ℕ
  unfolding encoding_behind c_string
  parse_cie_fde_encoding cie = elim (drop 4 cie) [
    | [] ↦ 0
    | version ∷ p ↦ elim (c_string p) [
      | none ↦ 0
      | some (aug_str, p') ↦ encoding_behind version aug_str p'
    ]
  ]

unfoldable pub parse_cie_has_z_augmentation : (cie : List ℕ) → Bool
parse_cie_has_z_augmentation cie = elim (drop 5 cie) [ [] ↦ false | c ∷ p ↦ c == b'z' ]

-- `struct hdr_entry`.
pub record HdrEntry : Type 0 where
  pub initial_location : ℕ
  pub address_range : ℕ
  pub fde_ptr : ℕ
  pub cfi_ptr : ℕ
  pub cfi_size : ℕ

-- Past the augmentation data, if the CIE says that there are any, and to the end if they are too long.
abbrev pub behind_augmentation : (has_z : Bool) (section : List ℕ) (end p : ℕ) → ℕ
behind_augmentation has_z section end p =
    let (aug_len, rest) = eh_read_uleb128 (take (end - p) (drop p section)) in
    let behind_length = end - length rest in
    if has_z && ltb p end
    then (if leb aug_len (end - behind_length) then behind_length + aug_len else end)
    else p

abbrev pub with_entry : Option HdrEntry → List HdrEntry → List HdrEntry
with_entry none entries = entries
with_entry (some e) entries = e ∷ entries

module _ (section : List ℕ) where
  -- Where the data of the record at `pos` start and end, if the loop goes on.
  unfoldable pub record_bounds : (pos : ℕ) → Option (ℕ × ℕ)
  record_bounds pos =
      let size = length section in
      let len = field 4 pos section in
      let bounds : Option (ℕ × ℕ) =
        if len == 0xFFFFFFFF
        then (if ltb size (pos + 12)
            then none
            else some (pos + 12, u64 (pos + 12 + field 8 (pos + 4) section)))
        else some (pos + 4, pos + 4 + len) in
      if ltb size (pos + 4) || len == 0 then none else elim bounds [
        | none ↦ none
        | some (start, end) ↦ if ltb size end then none else some (start, end)
      ]

module _ (deref : ℕ → ℕ) (eh_frame : ℕ) (section : List ℕ) where
  unfoldable pub fde_at : (pos start end : ℕ) → Option HdrEntry
  unfolding parse_cie_fde_encoding eh_read_encoded_ptr eh_read_encoded_value
  fde_at pos start end =
      let cie_ptr = field 4 start section in
      let cie_pos = u64 (start + 2 ^ 64 - cie_ptr) in
      let cie = take (field 4 cie_pos section) (drop (cie_pos + 4) section) in
      let encoding = parse_cie_fde_encoding deref (eh_frame + cie_pos + 4 + length cie) cie in
      let (init_loc, p) = eh_read_encoded_ptr deref eh_frame section end encoding (start + 4) in
      let (address_range, p') = eh_read_encoded_value section end encoding p in
      let cfi = behind_augmentation (parse_cie_has_z_augmentation cie) section end p' in
      if cie_ptr == 0 || (leb (length section) cie_pos || init_loc == 0)
      then none
      else some record {
        initial_location = init_loc;
        address_range = address_range;
        fde_ptr = eh_frame + pos;
        cfi_ptr = eh_frame + cfi;
        cfi_size = u64 (end + 2 ^ 64 - cfi);
      }

  -- None, if the rounds do not suffice.
  unfoldable pub parse_fdes_from : (rounds pos : ℕ) → Option (List HdrEntry)
  parse_fdes_from zero pos = none
  parse_fdes_from (suc rounds) pos = elim (record_bounds section pos) [
    | none ↦ some []
    | some (start, end) ↦ elim (parse_fdes_from rounds end) [
      | none ↦ none
      | some entries ↦ some (with_entry (fde_at pos start end) entries)
    ]
  ]

  -- Every record moves the position, unless a 64-bit length leads around the address space.
  unfoldable pub parse_native_eh_frame_fdes : Option (List HdrEntry)
  unfolding parse_fdes_from
  parse_native_eh_frame_fdes = parse_fdes_from (suc (length section)) 0

-- The entry of a function, or the first one that it lies in.
unfoldable pub find_native_fde : List HdrEntry → (initial_location : ℕ) → Option HdrEntry
find_native_fde [] initial_location = none
find_native_fde (e ∷ entries) initial_location =
    if e.initial_location == initial_location
      || (not (e.address_range == 0)
          && (ltb e.initial_location initial_location
              && ltb initial_location (u64 (e.initial_location + e.address_range))))
    then some e
    else find_native_fde entries initial_location

unfoldable pub has_entry_start : List HdrEntry → (initial_location : ℕ) → Bool
has_entry_start [] initial_location = false
has_entry_start (e ∷ entries) initial_location =
    (e.initial_location == initial_location) || has_entry_start entries initial_location
