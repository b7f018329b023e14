-- ===== src/Cache/File.antt =====
-- `startup_cache_open` and `startup_cache_publish` of src/startup_cache.c on the file at the path that
-- both build; a file that cannot be opened, measured or mapped is `none`.
pub mod Read
pub mod Write
pub mod Published
use machgate.Base.{
  ℕ, zero, suc, ◌+◌, ◌*◌, ◌^◌, ◌%◌, ◌==◌, leb, if◌then◌else◌, Bool, true, false, ◌&&◌, List, [],
  ◌∷◌, ◌++◌, length, take, drop, Option, none, some, ◌>>=◌, ◌>>◌, guard, u64, u32,
}
use machgate.Cache.Format.{
  BinaryStat, CacheHeader, CachePatch, cache_magic, cache_version, header_bytes, patch_bytes,
  encode_header, decode_header, encode_patches, decode_patches, fnv1a64, fill_cache_key,
  key_matches, header_checksum,
}

-- The header that an open hands out, and the pointers, as offsets from the start of the mapped file.
pub record Opened : Type 0 where
  pub header : CacheHeader
  pub eh_frame : ℕ
  pub hdr_pairs : ℕ
  pub patches : ℕ

abbrev pub total_needed : CacheHeader → ℕ
total_needed h =
    u64 (h.header_size + h.eh_frame_size + h.hdr_pairs_size + u64 (h.patch_count * patch_bytes))

abbrev pub handed_out : CacheHeader → Opened
handed_out h = record {
  header = h;
  eh_frame = h.header_size;
  hdr_pairs = u64 (h.header_size + h.eh_frame_size);
  patches = u64 (h.header_size + h.eh_frame_size + h.hdr_pairs_size);
}

-- The checks on a mapped file with that header, in their order; each failure unmaps it.
unfoldable pub is_intact : CacheHeader → List ℕ → BinaryStat → Bool
is_intact h file st =
    (h.magic == cache_magic)
    && (((h.version == cache_version) && (h.header_size == header_bytes))
        && ((h.checksum == header_checksum h)
            && (key_matches h.key (fill_cache_key st)
                && ((total_needed h == length file)
                    && (fnv1a64 (drop h.header_size file) == h.payload_checksum)))))

unfoldable pub check_cache : CacheHeader → List ℕ → BinaryStat → Option Opened
unfolding is_intact
check_cache h file st = if is_intact h file st then some (handed_out h) else none

unfoldable pub startup_cache_open : (enabled : Bool) → Option (List ℕ) → BinaryStat → Option Opened
startup_cache_open enabled found st = do
  guard enabled
  file ← found
  guard (leb header_bytes (length file))
  check_cache (decode_header file) file st

-- What a kernel answers to `write`.
pub data WriteAnswer : Type 0 where
  wrote : (count : ℕ) → WriteAnswer
  interrupted broke : WriteAnswer

-- The loop of `write_all`, on the kernel's answers: whether it succeeded and what the file has then, or
-- `none` while it waits for another answer.
unfoldable pub write_all : List WriteAnswer → List ℕ → List ℕ → Option (Bool × List ℕ)
write_all answers [] out = some (true, out)
write_all [] (c ∷ s) out = none
write_all (wrote n ∷ answers) (c ∷ s) out =
    write_all answers (drop n (c ∷ s)) (out ++ take n (c ∷ s))
write_all (interrupted ∷ answers) (c ∷ s) out = write_all answers (c ∷ s) out
write_all (broke ∷ answers) (c ∷ s) out = some (false, out)

-- Which of the calls that publish a file succeed. `written` is that of all four `write_all`, `read_back`
-- that the payload was read in full.
pub record Io : Type 0 where
  pub created : Bool
  pub written : Bool
  pub synced : Bool
  pub closed : Bool
  pub read_back : Bool
  pub reopened : Bool
  pub patched : Bool
  pub synced_again : Bool
  pub closed_again : Bool
  pub renamed : Bool

-- The temporary file and the one that is opened.
pub record Disk : Type 0 where
  pub temp : Option (List ℕ)
  pub final : Option (List ℕ)

-- What is to be cached.
pub record Products : Type 0 where
  pub eh_frame : List ℕ
  pub hdr_pairs : List ℕ
  pub cie_personality_offset : ℕ
  pub patches : List CachePatch
  pub fde_count : ℕ

abbrev pub payload_of : Products → List ℕ
payload_of p = p.eh_frame ++ (p.hdr_pairs ++ encode_patches p.patches)

abbrev pub with_checksum : CacheHeader → CacheHeader
with_checksum h = record h { checksum = header_checksum h }

abbrev pub first_header : Products → BinaryStat → CacheHeader
first_header p st = with_checksum (record {
  magic = cache_magic;
  version = cache_version;
  header_size = header_bytes;
  key = fill_cache_key st;
  eh_frame_size = length p.eh_frame;
  hdr_pairs_size = length p.hdr_pairs;
  patch_count = length p.patches;
  cie_personality_offset = p.cie_personality_offset;
  fde_count = p.fde_count;
  reserved = 0;
  checksum = 0;
  payload_checksum = 0;
})

-- The header with which the first one is overwritten.
abbrev pub final_header : CacheHeader → List ℕ → CacheHeader
final_header h payload = with_checksum (record h { payload_checksum = fnv1a64 payload })

-- The unlinking of the temporary file, and the result -1.
abbrev pub unlinked : Disk → Disk × Bool
unlinked disk = (record disk { temp = none }, false)

unfoldable pub startup_cache_publish :
    (enabled : Bool) → Io → Products → BinaryStat → Disk → Disk × Bool
startup_cache_publish enabled io p st disk =
    let h = first_header p st in
    let written = encode_header h ++ payload_of p in
    let payload = drop header_bytes written in
    let image = encode_header (final_header h payload) ++ drop header_bytes written in
    if enabled && io.created
    then (if io.written && (io.synced && io.closed)
        then (if io.read_back && io.reopened
            then (if io.patched && (io.synced_again && (io.closed_again && io.renamed))
                then (record { temp = none; final = some image }, true)
                else unlinked disk)
            else unlinked disk)
        else unlinked disk)
    else (disk, false)
