-- ===== src/Cache/File/Read.antt =====
-- What an open lets through.
use machgate.Base.{
  ◌+◌, ◌*◌, ◌^◌, ◌<◌, subst, leb→le, Bool-cases, inl, inr, ℕ, ◌≤◌, ◌≡◌, refl, arith, sym, ◌∙◌, Bool,
  true, List, length, drop, Option, none, some, some_inj, none-some, guard->>-eq-some, leb, u64, ap,
  ◌>>◌, guard,
}
use machgate.Cache.Format.{
  BinaryStat, CacheHeader, patch_bytes, cache_magic, cache_version, header_bytes, fnv1a64,
  header_checksum, decode_header,
}
use machgate.Cache.File.{
  Opened, total_needed, handed_out, is_intact, check_cache, startup_cache_open,
}

-- The header is of this version, for this binary, and both checksums and the size are right.
pub record IsIntact (h : CacheHeader) (file : List ℕ) (st : BinaryStat) : Type 0 where
  pub is_cache : h.magic ≡ cache_magic
  pub this_version : h.version ≡ cache_version
  pub this_header : h.header_size ≡ header_bytes
  pub dev_same : h.key.dev ≡ u64 st.dev
  pub ino_same : h.key.ino ≡ u64 st.ino
  pub size_same : h.key.size ≡ u64 st.size
  pub sec_same : h.key.mtime_sec ≡ u64 st.mtime_sec
  pub nsec_same : h.key.mtime_nsec ≡ u64 st.mtime_nsec
  pub header_sum : h.checksum ≡ header_checksum h
  pub payload_sum : fnv1a64 (drop header_bytes file) ≡ h.payload_checksum
  pub all_there : total_needed h ≡ length file

is_intact-IsIntact :
    (h : CacheHeader) (file : List ℕ) (st : BinaryStat)
    → is_intact h file st ≡ true
    → IsIntact h file st
unfolding is_intact
is_intact-IsIntact h file st e =
    let size : h.header_size ≡ header_bytes = ground arith in
    record {
      is_cache = ground arith;
      this_version = ground arith;
      this_header = size;
      dev_same = ground arith;
      ino_same = ground arith;
      size_same = ground arith;
      sec_same = ground arith;
      nsec_same = ground arith;
      header_sum = ground arith;
      payload_sum = ground arith;
      all_there = ground arith;
    }

-- The sizes of a header do not add up to more than 64 bits.
abbrev pub SizesFit : CacheHeader → Type 0
SizesFit h =
    h.header_size + h.eh_frame_size + h.hdr_pairs_size + h.patch_count * patch_bytes < 2 ^ 64

-- The parts that the pointers lead to stand one behind the other, from the header to the end of the file.
pub record LiesIn (file : List ℕ) (o : Opened) : Type 0 where
  pub behind_header : o.eh_frame ≡ header_bytes
  pub pairs_behind : o.hdr_pairs ≡ o.eh_frame + o.header.eh_frame_size
  pub patches_behind : o.patches ≡ o.hdr_pairs + o.header.hdr_pairs_size
  pub ends_file : o.patches + o.header.patch_count * patch_bytes ≡ length file

IsIntact-LiesIn :
    (h : CacheHeader) (file : List ℕ) (st : BinaryStat)
    → SizesFit h
    → IsIntact h file st
    → LiesIn file (handed_out h)
IsIntact-LiesIn h file st fit good =
    let size = good.this_header in
    let all = good.all_there in
    record {
      behind_header = size;
      pairs_behind = omega arith;
      patches_behind = omega arith;
      ends_file = omega arith;
    }

check_cache-IsIntact :
    (h : CacheHeader) (file : List ℕ) (st : BinaryStat) (o : Opened)
    → check_cache h file st ≡ some o
    → IsIntact h file st × (o ≡ handed_out h)
unfolding check_cache
check_cache-IsIntact h file st o e = elim (Bool-cases (is_intact h file st)) [
  | inl ok ↦
      let good = is_intact-IsIntact h file st ok in
      let same : check_cache h file st ≡ some (handed_out h) = rw (ok, check_cache) refl in
      (good, sym (some_inj (sym same ∙ e)))
  | inr bad ↦
      let same : check_cache h file st ≡ none = rw (bad, check_cache) refl in
      absurd (none-some (sym same ∙ e))
]

-- If the sizes in the header of a file do not add up to more than 64 bits, an open hands out only what is in an intact
-- file of this version: the header's magic number, version and checksum are right, its key is that of the binary's
-- stat, the payload has the checksum, and the pointers lead to parts of the sizes in the header that stand one behind
-- the other, from the header to the end of the file.
pub startup_cache_open-IsIntact :
    (enabled : Bool) (file : List ℕ) (st : BinaryStat) (o : Opened)
    → SizesFit (decode_header file)
    → startup_cache_open enabled (some file) st ≡ some o
    → (enabled ≡ true)
      × (header_bytes ≤ length file)
      × IsIntact (decode_header file) file st
      × (o.header ≡ decode_header file)
      × LiesIn file o
unfolding startup_cache_open
startup_cache_open-IsIntact enabled file st o fit e =
    let rest : Option Opened = check_cache (decode_header file) file st in
    let (on, e') = guard->>-eq-some enabled (guard (leb header_bytes (length file)) >> rest) e in
    let (long, e'') = guard->>-eq-some (leb header_bytes (length file)) rest e' in
    let (intact, parts) = check_cache-IsIntact (decode_header file) file st o e'' in
    (
      on,
      leb→le header_bytes (length file) long,
      intact,
      ap (λ (q : Opened). q.header) parts,
      subst (LiesIn file) (sym parts) (IsIntact-LiesIn (decode_header file) file st fit intact),
    )
