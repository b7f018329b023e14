-- ===== src/EhFrame/Collect.antt =====
-- `collect_entries` of src/eh_frame.c: the entries of `__unwind_info`, a section given by its bytes; what the
-- code would read behind its end counts as 0.
pub mod Search
pub mod Count
pub mod Small
pub mod Sort
use mathlib.Core.List.{reverse}
use machgate.Base.{
  ℕ, zero, suc, ◌+◌, ◌-◌, ◌*◌, ◌/◌, ◌%◌, ◌^◌, ◌==◌, ltb, leb, if◌then◌else◌, Bool, true, false,
  ◌&&◌, ◌||◌, not, List, [], ◌∷◌, ◌++◌, take, Option, none, some, bit_and, u32, ◌>>>◌, field,
}

-- `struct cu_entry`.
pub record CuEntry : Type 0 where
  pub func_offset : ℕ
  pub func_size : ℕ
  pub encoding : ℕ
  pub lsda_offset : ℕ

-- The binary search, over an array given by its two columns; `hi` is one more than in the code, where it may
-- be -1.
unfoldable pub lsda_search : (key value : ℕ → ℕ) (rounds lo hi func_offset : ℕ) → ℕ
lsda_search key value zero lo hi func_offset = 0
lsda_search key value (suc rounds) lo hi func_offset =
    let mid = (lo + (hi - 1)) / 2 in
    let above = lsda_search key value rounds (mid + 1) hi func_offset in
    let below = lsda_search key value rounds lo mid func_offset in
    if ltb lo hi
    then (if key mid == func_offset
        then value mid
        else if ltb (key mid) func_offset
        then above
        else below)
    else 0

module _ (info : List ℕ) where
  abbrev pub u32_at : ℕ → ℕ
  u32_at offset = field 4 offset info

  abbrev pub u16_at : ℕ → ℕ
  u16_at offset = field 2 offset info

module _ (info : List ℕ) (lsda_start lsda_end : ℕ) where
  abbrev pub lsda_count : ℕ
  lsda_count = u32 (lsda_end + 2 ^ 32 - lsda_start) / 8

  abbrev pub lsda_function : ℕ → ℕ
  lsda_function i = u32_at info (lsda_start + 8 * i)

  abbrev pub lsda_offset_of : ℕ → ℕ
  lsda_offset_of i = u32_at info (lsda_start + 8 * i + 4)

  -- Each round halves what is left, so as many rounds as there are elements are enough.
  unfoldable pub lookup_lsda : (encoding func_offset : ℕ) → ℕ
  unfolding lsda_search
  lookup_lsda encoding func_offset =
      if bit_and encoding 0x40000000 == 0
      then 0
      else lsda_search lsda_function lsda_offset_of lsda_count 0 lsda_count func_offset

  abbrev pub entry_of : (func_offset encoding : ℕ) → CuEntry
  entry_of func_offset encoding = record {
    func_offset = func_offset;
    func_size = 0;
    encoding = encoding;
    lsda_offset = lookup_lsda encoding func_offset;
  }

  module _ (page_offset : ℕ) where
    -- The encoding by its number: those shared by all pages come first.
    unfoldable pub encoding_at : (enc_idx : ℕ) → ℕ
    encoding_at enc_idx =
        let common_count = u32_at info 8 in
        if ltb enc_idx common_count
        then u32_at info (u32_at info 4 + 4 * enc_idx)
        else if ltb (enc_idx - common_count) (u16_at info (page_offset + 10))
        then u32_at info
            (page_offset + u16_at info (page_offset + 8) + 4 * (enc_idx - common_count))
        else 0

    unfoldable pub compressed_entries : (page_func_base i n : ℕ) → List CuEntry
    unfolding encoding_at lookup_lsda
    compressed_entries page_func_base i zero = []
    compressed_entries page_func_base i (suc n) =
        let entry = u32_at info (page_offset + u16_at info (page_offset + 4) + 4 * i) in
        entry_of (u32 (page_func_base + bit_and entry 0x00FFFFFF))
          (encoding_at (bit_and (entry >>> 24) 0xFF))
        ∷ compressed_entries page_func_base (i + 1) n

    unfoldable pub regular_entries : (i n : ℕ) → List CuEntry
    unfolding lookup_lsda
    regular_entries i zero = []
    regular_entries i (suc n) =
        let at = page_offset + u16_at info (page_offset + 4) + 8 * i in
        entry_of (u32_at info at) (u32_at info (at + 4)) ∷ regular_entries (i + 1) n

module _ (info : List ℕ) (unwind_size : ℕ) where
  abbrev pub index_at : (idx : ℕ) → ℕ
  index_at idx = u32_at info 20 + 12 * idx

  -- Whether there is a page, and its two kinds.
  abbrev pub page_exists : (page_offset : ℕ) → Bool
  page_exists page_offset = not (page_offset == 0) && ltb page_offset unwind_size

  abbrev pub is_compressed : (page_offset : ℕ) → Bool
  is_compressed page_offset = u32_at info page_offset == 3

  abbrev pub is_regular : (page_offset : ℕ) → Bool
  is_regular page_offset = u32_at info page_offset == 2

  -- The first pass, over `n` index entries from `idx` on.
  unfoldable pub count_entries : (idx n : ℕ) → ℕ
  count_entries idx zero = 0
  count_entries idx (suc n) =
      let page_offset = u32_at info (index_at idx + 4) in
      (if page_exists page_offset && (is_compressed page_offset || is_regular page_offset)
        then u16_at info (page_offset + 6)
        else 0)
      + count_entries (idx + 1) n

  unfoldable pub page_entries : (idx : ℕ) → List CuEntry
  unfolding compressed_entries regular_entries
  page_entries idx =
      let page_offset = u32_at info (index_at idx + 4) in
      let lsda_start = u32_at info (index_at idx + 8) in
      let lsda_end = u32_at info (index_at (idx + 1) + 8) in
      let entry_count = u16_at info (page_offset + 6) in
      if page_exists page_offset
      then (if is_compressed page_offset
          then compressed_entries info lsda_start lsda_end page_offset (u32_at info (index_at idx))
              0 entry_count
          else if is_regular page_offset
          then regular_entries info lsda_start lsda_end page_offset 0 entry_count
          else [])
      else []

  -- The second pass.
  unfoldable pub pages_entries : (idx n : ℕ) → List CuEntry
  unfolding page_entries
  pages_entries idx zero = []
  pages_entries idx (suc n) = page_entries idx ++ pages_entries (idx + 1) n

-- The elements in front of the hole, the last one first, and `tmp`, which moves down over the larger ones.
unfoldable pub insert_from_right : CuEntry → List CuEntry → List CuEntry
insert_from_right tmp [] = tmp ∷ []
insert_from_right tmp (e ∷ before) =
    if ltb tmp.func_offset e.func_offset then e ∷ insert_from_right tmp before else tmp ∷ e ∷ before

-- The insertion sort; `before` is the sorted part, the last element first.
unfoldable pub insertion_sort : (before : List CuEntry) → List CuEntry → List CuEntry
unfolding insert_from_right
insertion_sort before [] = reverse before
insertion_sort before (e ∷ entries) = insertion_sort (insert_from_right e before) entries

-- Up to the next function; 256 bytes for the last one.
unfoldable pub set_sizes : List CuEntry → List CuEntry
set_sizes [] = []
set_sizes (e ∷ []) = record e { func_size = 256 } ∷ []
set_sizes (e ∷ e' ∷ entries) =
    record e { func_size = u32 (e'.func_offset + 2 ^ 32 - e.func_offset) }
    ∷ set_sizes (e' ∷ entries)

-- None for a version that is not known.
unfoldable pub collect_entries : (info : List ℕ) (unwind_size : ℕ) → Option (List CuEntry)
unfolding count_entries pages_entries insertion_sort set_sizes
collect_entries info unwind_size =
    let pages = u32_at info 24 - 1 in
    let total = count_entries info unwind_size 0 pages in
    if u32_at info 0 == 1
    then some (set_sizes (insertion_sort [] (take total (pages_entries info unwind_size 0 pages))))
    else none
