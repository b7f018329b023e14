-- ===== src/Tests/Headers.antt =====
-- The `.eh_frame_hdr` of src/eh_frame.c at concrete inputs.
use machgate.Base.{refl, arith, ◌≡◌, List, [], ◌∷◌, map}
use machgate.EhFrame.Read.{HdrEntry}
use machgate.EhFrame.Hdr.{eh_frame_hdr, cache_pair, cached_hdr}
use machgate.EhFrame.Hdr.Table.{HdrAnswer}
use machgate.EhFrame.Hdr.Reads.{eh_frame_hdr-HdrAnswer}
use machgate.EhFrame.Hdr.Cached.{moved, cached_hdr-moved}

abbrev first : HdrEntry
first = record {
  initial_location = 0x100000400;
  address_range = 16;
  fde_ptr = 0x100200000;
  cfi_ptr = 0;
  cfi_size = 0;
}

abbrev second : HdrEntry
second = record {
  initial_location = 0x100000410;
  address_range = 32;
  fde_ptr = 0x100200028;
  cfi_ptr = 0;
  cfi_size = 0;
}

eh_frame_hdr-HdrAnswer_example :
    HdrAnswer 0x100300000 0x100200000
      (first ∷ second ∷ [])
      (eh_frame_hdr 0x100300000 0x100200000 (first ∷ second ∷ []))
eh_frame_hdr-HdrAnswer_example =
    eh_frame_hdr-HdrAnswer 0x100300000 0x100200000 (first ∷ second ∷ []) (omega arith) (omega arith)
      ((omega arith, omega arith), ((omega arith, omega arith), tt)) (omega arith)

abbrev moved_entries : List HdrEntry
moved_entries = map (moved 0x100200000 0x100210000) (first ∷ second ∷ [])

cached_hdr-moved_example :
    (cached_hdr 0x100300000 0x100210000 (map (cache_pair 0x100200000) (first ∷ second ∷ []))
      ≡ eh_frame_hdr 0x100300000 0x100210000 moved_entries)
    × HdrAnswer 0x100300000 0x100210000 moved_entries
        (cached_hdr 0x100300000 0x100210000 (map (cache_pair 0x100200000) (first ∷ second ∷ [])))
cached_hdr-moved_example =
    cached_hdr-moved 0x100200000 0x100300000 0x100210000 (first ∷ second ∷ []) (omega arith)
      (omega arith) (omega arith) ((omega arith, omega arith), ((omega arith, omega arith), tt))
      (omega arith) refl
