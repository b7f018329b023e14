-- ===== src/EhFrame/Hdr/Cached.antt =====
-- The header from the cache beside the generated one.
use machgate.Base.{
  ℕ, ◌+◌, ◌-◌, ◌^◌, ◌<◌, ◌≡◌, refl, arith, ap₂, sym, ◌∙◌, true, List, [], ◌∷◌, length, length-map,
  map, u64, subst, Bool, false, ◌&&◌, ◌||◌, not, if◌then◌else◌, Option, none, ◌++◌, u32, le,
}
use machgate.EhFrame.Read.{HdrEntry}
use machgate.EhFrame.Hdr.{
  difference, is_int32, behind, eh_frame_table, hdr_start, addresses, eh_frame_hdr, cache_pair,
  cached_table, cached_hdr,
}
use machgate.EhFrame.Hdr.Table.{IsLow, AreLow, HdrAnswer}
use machgate.EhFrame.Hdr.Reads.{eh_frame_hdr-HdrAnswer}

-- The entry, its FDE moved as the frame is.
abbrev pub moved : (from to : ℕ) → HdrEntry → HdrEntry
moved from to e = record {
  initial_location = e.initial_location;
  address_range = e.address_range;
  fde_ptr = u64 (e.fde_ptr + to + (2 ^ 64 - from));
  cfi_ptr = e.cfi_ptr;
  cfi_size = e.cfi_size;
}

if_not_either :
    (a b : Bool) (x : Option (List ℕ))
    → (if not a || not b then none else x) ≡ (if a && b then x else none)
if_not_either true true x = refl
if_not_either true false x = refl
if_not_either false b x = refl

-- The two loops make the same table.
cached_table-eh_frame_table :
    (from hdr to : ℕ) (entries : List HdrEntry)
    → from < 2 ^ 64
    → cached_table hdr to (map (cache_pair from) entries)
      ≡ eh_frame_table hdr (map addresses (map (moved from to) entries))
unfolding cached_table eh_frame_table
cached_table-eh_frame_table from hdr to [] h = refl
cached_table-eh_frame_table from hdr to (e ∷ entries) h =
    let same : u64 (to + difference e.fde_ptr from) ≡ u64 (e.fde_ptr + to + (2 ^ 64 - from)) =
      omega arith in
    let ih = cached_table-eh_frame_table from hdr to entries h in
    if_not_either (is_int32 (difference e.initial_location hdr))
      (is_int32 (difference (u64 (to + difference e.fde_ptr from)) hdr)) _
    ∙ ap₂
        (λ fde rest.
          if is_int32 (difference e.initial_location hdr) && is_int32 (difference fde hdr)
          then behind
              (le 4 (u32 (difference e.initial_location hdr)) ++ le 4 (u32 (difference fde hdr)))
              rest
          else none)
        same ih

-- From the pairs that were kept of entries, the header of the copied frame is the one that the other loop generates
-- there for the entries, each FDE moved by as much as the frame; if the frame is within reach of the header, the
-- addresses are in the lower half of the address space and there are fewer than 2 ^ 32 entries. So a reader finds
-- the frame, the count, and in order each function and moved FDE, and none is made only if one of them is 2 GB
-- or more away from the header.
pub cached_hdr-moved :
    (ehf_buf hdr_copy eh_frame_copy : ℕ) (entries : List HdrEntry)
    → ehf_buf < 2 ^ 64
    → IsLow (hdr_copy + 4)
    → IsLow eh_frame_copy
    → AreLow (map addresses (map (moved ehf_buf eh_frame_copy) entries))
    → length entries < 2 ^ 32
    → is_int32 (difference eh_frame_copy (hdr_copy + 4)) ≡ true
    → (cached_hdr hdr_copy eh_frame_copy (map (cache_pair ehf_buf) entries)
        ≡ eh_frame_hdr hdr_copy eh_frame_copy (map (moved ehf_buf eh_frame_copy) entries))
      × HdrAnswer hdr_copy eh_frame_copy
          (map (moved ehf_buf eh_frame_copy) entries)
          (cached_hdr hdr_copy eh_frame_copy (map (cache_pair ehf_buf) entries))
unfolding eh_frame_hdr cached_hdr
cached_hdr-moved ehf_buf hdr_copy eh_frame_copy entries h low_hdr low_frame low few fits =
    let all : List HdrEntry = map (moved ehf_buf eh_frame_copy) entries in
    let count : length (map (cache_pair ehf_buf) entries) ≡ length all =
      length-map (cache_pair ehf_buf) entries
      ∙ sym (length-map (moved ehf_buf eh_frame_copy) entries) in
    let same : cached_hdr hdr_copy eh_frame_copy (map (cache_pair ehf_buf) entries)
        ≡ eh_frame_hdr hdr_copy eh_frame_copy all =
      rw fits (
        ap₂ (λ n table. behind (hdr_start hdr_copy eh_frame_copy n) table) count
          (cached_table-eh_frame_table ehf_buf hdr_copy eh_frame_copy entries h)) in
    (
      same,
      subst (HdrAnswer hdr_copy eh_frame_copy all) (sym same) (
          eh_frame_hdr-HdrAnswer hdr_copy eh_frame_copy all low_hdr low_frame low
            (omega (arith, length-map (moved ehf_buf eh_frame_copy) entries))),
    )
