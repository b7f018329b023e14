-- ===== src/EhFrame/Hdr/Reads.antt =====
-- What a reader finds in `.eh_frame_hdr`.
use machgate.Base.{
  ℕ, ◌+◌, ◌^◌, ◌<◌, ◌≡◌, inl, inr, arith, ap, subst, ◌∙◌, Bool-cases, List, ◌++◌, length,
  length-map, map, Option, none, some, u32, le, unle-le,
}
use machgate.EhFrame.Read.{HdrEntry}
use machgate.EhFrame.Hdr.{
  difference, is_int32, behind, eh_frame_table, hdr_start, addresses, eh_frame_hdr,
}
use machgate.EhFrame.Hdr.Table.{
  from_base, read_table, IsNear, IsLow, AreLow, TableAnswer, is_int32-IsNear, IsNear-is_int32,
  from_base-difference, table-TableAnswer, HdrAnswer,
}

module _ (hdr frame : ℕ) (entries : List HdrEntry) (low_hdr : IsLow (hdr + 4))
    (low_frame : IsLow frame) (low : AreLow (map addresses entries))
    (few : length entries < 2 ^ 32) where
  behind-HdrAnswer :
      IsNear (hdr + 4) frame
      → (table : Option (List ℕ)) → TableAnswer hdr (map addresses entries) table
      → HdrAnswer hdr frame entries (behind (hdr_start hdr frame (length entries)) table)
  behind-HdrAnswer near none refused = λ all. refused all.1
  behind-HdrAnswer near (some table) (long, reads) =
      let n = length-map addresses entries in
      let rel = u32 (difference frame (hdr + 4)) in
      record {
        size = omega arith;
        frame_there =
            ap (from_base (hdr + 4))
              (unle-le 4 rel (le 4 (u32 (length entries)) ++ table) (omega arith))
            ∙ from_base-difference (hdr + 4) frame low_hdr low_frame near;
        count_there = omega (arith, unle-le 4 (u32 (length entries)) table (omega arith));
        table_there = subst (λ k. read_table hdr k table ≡ map addresses entries) n reads;
      }

  -- If the addresses are in the lower half of the address space and there are fewer than 2 ^ 32 entries, then a
  -- reader of the header finds the address of the frame, the count, and in order the function and the FDE of
  -- each entry. None is made only if one of these is 2 GB or more away from what it is relative to.
  pub eh_frame_hdr-HdrAnswer : HdrAnswer hdr frame entries (eh_frame_hdr hdr frame entries)
  unfolding eh_frame_hdr
  eh_frame_hdr-HdrAnswer = elim (Bool-cases (is_int32 (difference frame (hdr + 4)))) [
    | inl fits ↦ rw fits (
        behind-HdrAnswer (is_int32-IsNear (hdr + 4) frame low_hdr low_frame fits)
          (eh_frame_table hdr (map addresses entries))
          (table-TableAnswer hdr (map addresses entries) (omega arith) low))
    | inr far ↦
        rw far (λ near. absurd (cc (IsNear-is_int32 (hdr + 4) frame low_hdr low_frame near.0, far)))
  ]
