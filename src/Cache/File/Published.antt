-- ===== src/Cache/File/Published.antt =====
-- What the next open makes of a published file.
use mathlib.Core.List.{append_assoc}
use machgate.Base.{
  ℕ, ◌+◌, ◌*◌, ◌^◌, ◌%◌, ◌<◌, ◌≡◌, refl, arith, sym, ap, ◌∙◌, ==_iff, le→leb, Bool, true, inl, inr,
  List, [], ◌∷◌, ◌++◌, length, take, drop, length-append, take-append, drop-append, some, leb, ◌==◌,
  ◌&&◌, u64, bit_xor,
}
use machgate.Cache.Format.{
  BinaryStat, CacheHeader, header_bytes, patch_bytes, encode_header, decode_header, encode_patches,
  decode_patches, fnv_from, fnv1a64, fill_cache_key, key_matches,
}
use machgate.Cache.Format.Bytes.{
  HeaderFits, decode_header-encode_header, PatchesFit, length-encode_patches,
  decode_patches-encode_patches,
}
use machgate.Cache.File.{
  Opened, total_needed, handed_out, is_intact, check_cache, startup_cache_open, Io, Disk, Products,
  payload_of, first_header, final_header, startup_cache_publish,
}
use machgate.Cache.File.Write.{image, false-true, startup_cache_publish_atomic}

fnv_from-lt : (hash : ℕ) (s : List ℕ) → hash < 2 ^ 64 → fnv_from hash s < 2 ^ 64
unfolding fnv_from
fnv_from-lt hash [] h = h
fnv_from-lt hash (c ∷ s) h = fnv_from-lt (bit_xor hash c * 1099511628211 % 2 ^ 64) s (omega arith)

fnv1a64-lt : (s : List ℕ) → fnv1a64 s < 2 ^ 64
unfolding fnv1a64
fnv1a64-lt s = fnv_from-lt 1469598103934665603 s (omega arith)

-- Sizes and numbers that their fields can hold.
pub record ProductsFit (p : Products) : Type 0 where
  pub patches_fit : PatchesFit p.patches
  pub cie_fits : p.cie_personality_offset < 2 ^ 64
  pub fde_fits : p.fde_count < 2 ^ 32
  pub file_fits :
      length p.eh_frame + length p.hdr_pairs + length p.patches * patch_bytes + header_bytes
      < 2 ^ 64

header-fits :
    (p : Products) (st : BinaryStat)
    → ProductsFit p
    → HeaderFits (final_header (first_header p st) (payload_of p))
header-fits p st f = record {
  magic_fits = omega arith;
  version_fits = omega arith;
  size_fits = omega arith;
  dev_fits = omega arith;
  ino_fits = omega arith;
  file_fits = omega arith;
  sec_fits = omega arith;
  nsec_fits = omega arith;
  unwind_fits = omega arith;
  eh_frame_fits = omega (arith, f.file_fits);
  pairs_fit = omega (arith, f.file_fits);
  count_fits = omega (arith, f.file_fits);
  cie_fits = f.cie_fits;
  fde_fits = f.fde_fits;
  reserved_fits = omega arith;
  checksum_fits = fnv1a64-lt _;
  payload_fits = fnv1a64-lt (payload_of p);
}

length-payload_of :
    (p : Products)
    → length (payload_of p)
      ≡ length p.eh_frame + length p.hdr_pairs + length p.patches * patch_bytes
length-payload_of p = omega (
  arith,
  length-append p.eh_frame (p.hdr_pairs ++ encode_patches p.patches),
  length-append p.hdr_pairs (encode_patches p.patches),
  length-encode_patches p.patches,
)

==_self : (a : ℕ) → (a == a) ≡ true
==_self a = ground arith

key_matches_self : (st : BinaryStat) → key_matches (fill_cache_key st) (fill_cache_key st) ≡ true
key_matches_self st =
    rw
      (
        ==_self (u64 st.dev),
        ==_self (u64 st.ino),
        ==_self (u64 st.size),
        ==_self (u64 st.mtime_sec),
        ==_self (u64 st.mtime_nsec),
      )
      refl

-- The header that is published.
abbrev pub published_header : Products → BinaryStat → CacheHeader
published_header p st = final_header (first_header p st) (payload_of p)

-- The products stand in the file where the pointers lead, and the header is theirs.
pub record IsCached (p : Products) (st : BinaryStat) (file : List ℕ) (o : Opened) : Type 0 where
  pub header : o.header ≡ published_header p st
  pub eh_frame : take (length p.eh_frame) (drop o.eh_frame file) ≡ p.eh_frame
  pub hdr_pairs : take (length p.hdr_pairs) (drop o.hdr_pairs file) ≡ p.hdr_pairs
  pub patches : decode_patches (length p.patches) (drop o.patches file) ≡ p.patches

drop_at : (n : ℕ) (before rest : List ℕ) → n ≡ length before → drop n (before ++ rest) ≡ rest
drop_at n before rest e = ap (λ k. drop k (before ++ rest)) e ∙ drop-append before rest

length-header : (h : CacheHeader) → length (encode_header h) ≡ header_bytes
length-header h = refl

handed_out-IsCached :
    (p : Products) (st : BinaryStat)
    → ProductsFit p
    → IsCached p st (image p st) (handed_out (published_header p st))
handed_out-IsCached p st f =
    let head : List ℕ = encode_header (published_header p st) in
    let tail : List ℕ = encode_patches p.patches in
    let fit = f.file_fits in
    let two : image p st ≡ (head ++ p.eh_frame) ++ (p.hdr_pairs ++ tail) =
      sym (append_assoc head p.eh_frame (p.hdr_pairs ++ tail)) in
    let three : image p st ≡ ((head ++ p.eh_frame) ++ p.hdr_pairs) ++ tail =
      two ∙ sym (append_assoc (head ++ p.eh_frame) p.hdr_pairs tail) in
    let pairs_at : u64 (header_bytes + length p.eh_frame) ≡ length (head ++ p.eh_frame) =
      omega (arith, length-append head p.eh_frame, length-header (published_header p st)) in
    let patches_at : u64 (header_bytes + length p.eh_frame + length p.hdr_pairs)
        ≡ length ((head ++ p.eh_frame) ++ p.hdr_pairs) =
      omega (
        arith,
        length-append (head ++ p.eh_frame) p.hdr_pairs,
        length-append head p.eh_frame,
        length-header (published_header p st),
      ) in
    record {
      header = refl;
      eh_frame =
          ap (take (length p.eh_frame))
            (drop_at header_bytes head (payload_of p) (sym (length-header (published_header p st))))
          ∙ take-append p.eh_frame (p.hdr_pairs ++ tail);
      hdr_pairs =
          ap (λ s. take (length p.hdr_pairs) (drop (u64 (header_bytes + length p.eh_frame)) s)) two
          ∙ ap (take (length p.hdr_pairs))
              (drop_at _ (head ++ p.eh_frame) (p.hdr_pairs ++ tail) pairs_at)
          ∙ take-append p.hdr_pairs tail;
      patches =
          ap
            (λ s.
              decode_patches (length p.patches)
                (drop (u64 (header_bytes + length p.eh_frame + length p.hdr_pairs)) s))
            three
          ∙ ap (decode_patches (length p.patches))
              (drop_at _ ((head ++ p.eh_frame) ++ p.hdr_pairs) tail patches_at)
          ∙ decode_patches-encode_patches p.patches f.patches_fit;
    }

and_true : {a b : Bool} → a ≡ true → b ≡ true → (a && b) ≡ true
and_true ea eb = rw (ea, eb) refl

length-image :
    (p : Products) (st : BinaryStat) → length (image p st) ≡ header_bytes + length (payload_of p)
length-image p st =
    length-append (encode_header (final_header (first_header p st) (payload_of p))) (payload_of p)

total_needed-image :
    (p : Products) (st : BinaryStat)
    → ProductsFit p
    → total_needed (final_header (first_header p st) (payload_of p)) ≡ length (image p st)
total_needed-image p st f = omega (arith, length-image p st, length-payload_of p, f.file_fits)

image_intact :
    (p : Products) (st : BinaryStat)
    → ProductsFit p
    → is_intact (final_header (first_header p st) (payload_of p)) (image p st) st ≡ true
unfolding is_intact
image_intact p st f = and_true refl (
    and_true refl (
      and_true (==_self _) (
        and_true (key_matches_self st) (
          and_true ((==_iff _ _).1 (total_needed-image p st f))
            (==_self (fnv1a64 (payload_of p)))))))

image_checked :
    (p : Products) (st : BinaryStat)
    → ProductsFit p
    → check_cache (final_header (first_header p st) (payload_of p)) (image p st) st
      ≡ some (handed_out (published_header p st))
unfolding check_cache
image_checked p st f = rw (image_intact p st f) refl

-- The published image is opened, for a binary with that stat.
pub image-opens :
    (p : Products) (st : BinaryStat)
    → ProductsFit p
    → startup_cache_open true (some (image p st)) st ≡ some (handed_out (published_header p st))
unfolding startup_cache_open
image-opens p st f =
    let long : leb header_bytes (length (image p st)) ≡ true =
      le→leb _ _ (omega (arith, length-image p st)) in
    let header : decode_header (image p st) ≡ final_header (first_header p st) (payload_of p) =
      decode_header-encode_header (final_header (first_header p st) (payload_of p)) (payload_of p)
        (header-fits p st f) in
    rw long (ap (λ h. check_cache h (image p st) st) header ∙ image_checked p st f)

-- After a successful publication the next open of the file for a binary of the same stat succeeds, and hands out the
-- published header and pointers to where the same frames, pairs and patches stand in the file.
pub publish_then_open :
    (io : Io) (p : Products) (st : BinaryStat) (disk : Disk)
    → ProductsFit p
    → (startup_cache_publish true io p st disk).1 ≡ true
    → (file : List ℕ) × (o : Opened) × ((startup_cache_publish true io p st disk).0.final
        ≡ some file)
      × (startup_cache_open true (some file) st ≡ some o)
      × IsCached p st file o
publish_then_open io p st disk f done = elim (startup_cache_publish_atomic true io p st disk) [
  | inl (failed, same) ↦ absurd (false-true (sym failed ∙ done))
  | inr (ok, final, gone) ↦ (
    image p st,
    handed_out (published_header p st),
    final,
    image-opens p st f,
    handed_out-IsCached p st f,
  )
]
