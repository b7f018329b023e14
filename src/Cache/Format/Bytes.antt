-- ===== src/Cache/Format/Bytes.antt =====
-- What is laid out in bytes is read back.
use machgate.Base.{ℕ, ◌*◌, ◌^◌, ◌<◌, ◌≡◌, refl, arith, List, [], ◌∷◌, ◌++◌, length, unle-le}
use machgate.Cache.Format.{
  CacheHeader, CachePatch, encode_header, decode_header, encode_patches, decode_patches,
  header_bytes, patch_bytes,
}

pub record HeaderFits (h : CacheHeader) : Type 0 where
  pub magic_fits : h.magic < 2 ^ 64
  pub version_fits : h.version < 2 ^ 32
  pub size_fits : h.header_size < 2 ^ 32
  pub dev_fits : h.key.dev < 2 ^ 64
  pub ino_fits : h.key.ino < 2 ^ 64
  pub file_fits : h.key.size < 2 ^ 64
  pub sec_fits : h.key.mtime_sec < 2 ^ 64
  pub nsec_fits : h.key.mtime_nsec < 2 ^ 64
  pub unwind_fits : h.key.has_unwind < 2 ^ 64
  pub eh_frame_fits : h.eh_frame_size < 2 ^ 64
  pub pairs_fit : h.hdr_pairs_size < 2 ^ 64
  pub count_fits : h.patch_count < 2 ^ 64
  pub cie_fits : h.cie_personality_offset < 2 ^ 64
  pub fde_fits : h.fde_count < 2 ^ 32
  pub reserved_fits : h.reserved < 2 ^ 32
  pub checksum_fits : h.checksum < 2 ^ 64
  pub payload_fits : h.payload_checksum < 2 ^ 64

pub length-encode_header : (h : CacheHeader) → length (encode_header h) ≡ header_bytes
length-encode_header h = refl

pub decode_header-encode_header :
    (h : CacheHeader) (rest : List ℕ) → HeaderFits h → decode_header (encode_header h ++ rest) ≡ h
decode_header-encode_header h rest f = λ i. record {
  magic = unle-le 8 h.magic [] f.magic_fits i;
  version = unle-le 4 h.version [] f.version_fits i;
  header_size = unle-le 4 h.header_size [] f.size_fits i;
  key = record {
    dev = unle-le 8 h.key.dev [] f.dev_fits i;
    ino = unle-le 8 h.key.ino [] f.ino_fits i;
    size = unle-le 8 h.key.size [] f.file_fits i;
    mtime_sec = unle-le 8 h.key.mtime_sec [] f.sec_fits i;
    mtime_nsec = unle-le 8 h.key.mtime_nsec [] f.nsec_fits i;
    has_unwind = unle-le 8 h.key.has_unwind [] f.unwind_fits i;
  };
  eh_frame_size = unle-le 8 h.eh_frame_size [] f.eh_frame_fits i;
  hdr_pairs_size = unle-le 8 h.hdr_pairs_size [] f.pairs_fit i;
  patch_count = unle-le 8 h.patch_count [] f.count_fits i;
  cie_personality_offset = unle-le 8 h.cie_personality_offset [] f.cie_fits i;
  fde_count = unle-le 4 h.fde_count [] f.fde_fits i;
  reserved = unle-le 4 h.reserved [] f.reserved_fits i;
  checksum = unle-le 8 h.checksum [] f.checksum_fits i;
  payload_checksum = unle-le 8 h.payload_checksum [] f.payload_fits i;
}

abbrev pub PatchesFit : List CachePatch → Type 0
PatchesFit [] = Unit {0}
PatchesFit (p ∷ patches) =
    (p.text_offset < 2 ^ 64) × (p.instruction < 2 ^ 32) × (p.kind < 2 ^ 32) × PatchesFit patches

pub length-encode_patches :
    (patches : List CachePatch) → length (encode_patches patches) ≡ length patches * patch_bytes
unfolding encode_patches
length-encode_patches [] = refl
length-encode_patches (p ∷ patches) = omega (arith, length-encode_patches patches)

pub decode_patches-encode_patches :
    (patches : List CachePatch)
    → PatchesFit patches
    → decode_patches (length patches) (encode_patches patches) ≡ patches
unfolding encode_patches decode_patches
decode_patches-encode_patches [] f = refl
decode_patches-encode_patches (p ∷ patches) (text, insn, kind, rest) = λ i.
    record {
      text_offset = unle-le 8 p.text_offset [] text i;
      instruction = unle-le 4 p.instruction [] insn i;
      kind = unle-le 4 p.kind [] kind i;
    }
    ∷ decode_patches-encode_patches patches rest i
