-- ===== src/Tests/Caches.antt =====
-- A small cache file, published and opened.
use machgate.Base.{◌≡◌, ◌≤◌, refl, arith, ◌⊎◌, ℕ, List, [], ◌∷◌, length, some, none, true, false}
use machgate.Cache.Format.{BinaryStat, header_bytes, decode_header}
use machgate.Cache.File.{
  Opened, handed_out, startup_cache_open, wrote, interrupted, write_all, Io, Disk, Products,
  startup_cache_publish,
}
use machgate.Cache.File.Read.{IsIntact, LiesIn, startup_cache_open-IsIntact}
use machgate.Cache.File.Write.{image, startup_cache_publish_atomic}
use machgate.Cache.File.Published.{
  ProductsFit, published_header, IsCached, image-opens, publish_then_open,
}

abbrev binary : BinaryStat
binary = record { dev = 1; ino = 2; size = 3; mtime_sec = 4; mtime_nsec = 5 }

abbrev products : Products
products = record {
  eh_frame = 7 ∷ 8 ∷ [];
  hdr_pairs = [];
  cie_personality_offset = 1;
  patches = record { text_offset = 16; instruction = 0xd503201f; kind = 1 } ∷ [];
  fde_count = 1;
}

abbrev all_well : Io
all_well = record {
  created = true;
  written = true;
  synced = true;
  closed = true;
  read_back = true;
  reopened = true;
  patched = true;
  synced_again = true;
  closed_again = true;
  renamed = true;
}

abbrev full_disk : Io
full_disk = record all_well { written = false }

abbrev empty_disk : Disk
empty_disk = record { temp = none; final = none }

fits : ProductsFit products
fits = record {
  patches_fit = (omega arith, omega arith, omega arith, tt);
  cie_fits = omega arith;
  fde_fits = omega arith;
  file_fits = omega arith;
}

published : (startup_cache_publish true all_well products binary empty_disk).1 ≡ true
unfolding startup_cache_publish
published = refl

publish_then_open_example :
    (file : List ℕ) × (o : Opened) × ((startup_cache_publish true all_well products binary
        empty_disk).0.final
      ≡ some file)
    × (startup_cache_open true (some file) binary ≡ some o)
    × IsCached products binary file o
publish_then_open_example = publish_then_open all_well products binary empty_disk fits published

startup_cache_publish_atomic_example :
    let (disk', done) = startup_cache_publish true full_disk products binary empty_disk in
    ((done ≡ false) × (disk'.final ≡ none))
    ⊎ ((done ≡ true) × (disk'.final ≡ some (image products binary)) × (disk'.temp ≡ none))
startup_cache_publish_atomic_example =
    startup_cache_publish_atomic true full_disk products binary empty_disk

startup_cache_open-IsIntact_example :
    (true ≡ true)
    × (header_bytes ≤ length (image products binary))
    × IsIntact (decode_header (image products binary)) (image products binary) binary
    × (published_header products binary ≡ decode_header (image products binary))
    × LiesIn (image products binary) (handed_out (published_header products binary))
startup_cache_open-IsIntact_example =
    startup_cache_open-IsIntact true (image products binary) binary
      (handed_out (published_header products binary)) (omega arith)
      (image-opens products binary fits)

short_writes :
    write_all (wrote 1 ∷ interrupted ∷ wrote 2 ∷ []) (1 ∷ 2 ∷ 3 ∷ []) []
    ≡ some (true, 1 ∷ 2 ∷ 3 ∷ [])
unfolding write_all
short_writes = refl
