-- ===== src/Cache/Format.antt =====
-- The layout of a cache file: `struct startup_cache_header`, the key, the checksum and the patches.
-- Numbers are laid out in little endian, as on the only host.
pub mod Bytes
use machgate.Base.{
  ℕ, zero, suc, ◌+◌, ◌*◌, ◌/◌, ◌%◌, ◌^◌, ◌==◌, Bool, ◌&&◌, List, [], ◌∷◌, ◌++◌, drop, bit_xor, u64,
  le, unle, field,
}

-- `struct stat`, as far as the key needs it.
pub record BinaryStat : Type 0 where
  pub dev : ℕ
  pub ino : ℕ
  pub size : ℕ
  pub mtime_sec : ℕ
  pub mtime_nsec : ℕ

pub record CacheKey : Type 0 where
  pub dev : ℕ
  pub ino : ℕ
  pub size : ℕ
  pub mtime_sec : ℕ
  pub mtime_nsec : ℕ
  pub has_unwind : ℕ

pub record CacheHeader : Type 0 where
  pub magic : ℕ
  pub version : ℕ
  pub header_size : ℕ
  pub key : CacheKey
  pub eh_frame_size : ℕ
  pub hdr_pairs_size : ℕ
  pub patch_count : ℕ
  pub cie_personality_offset : ℕ
  pub fde_count : ℕ
  pub reserved : ℕ
  pub checksum : ℕ
  pub payload_checksum : ℕ

pub record CachePatch : Type 0 where
  pub text_offset : ℕ
  pub instruction : ℕ
  pub kind : ℕ

abbrev pub cache_magic : ℕ
cache_magic = 0x5441474341474348

abbrev pub cache_version : ℕ
cache_version = 1

-- `sizeof` the header and a patch.
abbrev pub header_bytes : ℕ
header_bytes = 120

abbrev pub patch_bytes : ℕ
patch_bytes = 16

abbrev pub encode_key : CacheKey → List ℕ
encode_key k =
    le 8 k.dev
    ++ (le 8 k.ino
        ++ (le 8 k.size ++ (le 8 k.mtime_sec ++ (le 8 k.mtime_nsec ++ le 8 k.has_unwind))))

abbrev pub encode_header : CacheHeader → List ℕ
encode_header h =
    le 8 h.magic
    ++ (le 4 h.version
        ++ (le 4 h.header_size
            ++ (encode_key h.key
                ++ (le 8 h.eh_frame_size
                    ++ (le 8 h.hdr_pairs_size
                        ++ (le 8 h.patch_count
                            ++ (le 8 h.cie_personality_offset
                                ++ (le 4 h.fde_count
                                    ++ (le 4 h.reserved
                                        ++ (le 8 h.checksum ++ le 8 h.payload_checksum))))))))))

abbrev pub decode_header : List ℕ → CacheHeader
decode_header s = record {
  magic = field 8 0 s;
  version = field 4 8 s;
  header_size = field 4 12 s;
  key = record {
    dev = field 8 16 s;
    ino = field 8 24 s;
    size = field 8 32 s;
    mtime_sec = field 8 40 s;
    mtime_nsec = field 8 48 s;
    has_unwind = field 8 56 s;
  };
  eh_frame_size = field 8 64 s;
  hdr_pairs_size = field 8 72 s;
  patch_count = field 8 80 s;
  cie_personality_offset = field 8 88 s;
  fde_count = field 4 96 s;
  reserved = field 4 100 s;
  checksum = field 8 104 s;
  payload_checksum = field 8 112 s;
}

abbrev pub encode_patch : CachePatch → List ℕ
encode_patch p = le 8 p.text_offset ++ (le 4 p.instruction ++ le 4 p.kind)

unfoldable pub encode_patches : List CachePatch → List ℕ
encode_patches [] = []
encode_patches (p ∷ patches) = encode_patch p ++ encode_patches patches

-- The first `n` patches of an array.
unfoldable pub decode_patches : ℕ → List ℕ → List CachePatch
decode_patches zero s = []
decode_patches (suc n) s =
    record { text_offset = field 8 0 s; instruction = field 4 8 s; kind = field 4 12 s }
    ∷ decode_patches n (drop patch_bytes s)

unfoldable pub fnv_from : ℕ → List ℕ → ℕ
fnv_from hash [] = hash
fnv_from hash (c ∷ s) = fnv_from (bit_xor hash c * 1099511628211 % 2 ^ 64) s

unfoldable pub fnv1a64 : List ℕ → ℕ
fnv1a64 s = fnv_from 1469598103934665603 s

abbrev pub fill_cache_key : BinaryStat → CacheKey
fill_cache_key st = record {
  dev = u64 st.dev;
  ino = u64 st.ino;
  size = u64 st.size;
  mtime_sec = u64 st.mtime_sec;
  mtime_nsec = u64 st.mtime_nsec;
  has_unwind = 0;
}

abbrev pub key_matches : CacheKey → CacheKey → Bool
key_matches cached current =
    (cached.dev == current.dev)
    && ((cached.ino == current.ino)
        && ((cached.size == current.size)
            && ((cached.mtime_sec == current.mtime_sec)
                && (cached.mtime_nsec == current.mtime_nsec))))

abbrev pub header_checksum : CacheHeader → ℕ
header_checksum h = fnv1a64 (encode_header (record h { checksum = 0; payload_checksum = 0 }))
