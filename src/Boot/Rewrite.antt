-- ===== src/Boot/Rewrite.antt =====
-- The rewriting of the main program's code in `main` of src/machgate.c, after the cache is asked: the scan
-- for instructions that the host may lack, or the replay of the patches that an earlier scan recorded.
pub mod Words
pub mod Replay
pub mod Sections
use machgate.Base.{
  ℕ, zero, suc, ◌+◌, ◌-◌, ◌*◌, ◌/◌, ◌^◌, ◌==◌, leb, ltb, if◌then◌else◌, Bool, true, false, ◌&&◌,
  ◌||◌, not, List, [], ◌∷◌, ◌++◌, length, Option, none, some, bit_and, bit_or, u64,
}
use machgate.Cache.Format.{CachePatch}
use machgate.Isa.Patch.{Patched, patch, untouched}

-- `struct section_64`, with the words of its content.
pub record Section : Type 0 where
  pub addr : ℕ
  pub flags : ℕ
  pub words : List ℕ

-- `struct segment_command_64`.
pub record Segment : Type 0 where
  pub is_text : Bool
  pub vmaddr : ℕ
  pub maxprot : ℕ
  pub sections : List Section

abbrev pub patch_rcpc : ℕ
patch_rcpc = 1

abbrev pub patch_tpidrro : ℕ
patch_tpidrro = 2

abbrev pub main_text_patch_max : ℕ
main_text_patch_max = 2 * 1024 * 1024

-- Instructions, or some of them.
abbrev pub has_code : Section → Bool
has_code s = not (bit_and s.flags 0x400 == 0) || not (bit_and s.flags 0x80000000 == 0)

abbrev pub is_executable : Segment → Bool
is_executable seg = not (bit_and seg.maxprot 4 == 0)

unfoldable pub with_code : List Section → List Section
with_code [] = []
with_code (s ∷ sections) = if has_code s then s ∷ with_code sections else with_code sections

-- The sections that the loops over the executable segments do not pass over.
unfoldable pub code_sections : List Segment → List Section
unfolding with_code
code_sections [] = []
code_sections (seg ∷ segments) =
    (if is_executable seg then with_code seg.sections else []) ++ code_sections segments

-- The address of the last __TEXT segment.
unfoldable pub main_text_base : ℕ → List Segment → ℕ
main_text_base base [] = base
main_text_base base (seg ∷ segments) =
    main_text_base (if seg.is_text then seg.vmaddr else base) segments

-- What the loop over the words carries: the patches still to be replayed, those recorded so far if there
-- is memory for them, and the counts.
pub record Rewrites : Type 0 where
  pub replay : List CachePatch
  pub recorded : Option (List CachePatch)
  pub rcpc_fixed : ℕ
  pub tpidr_fixed : ℕ

unfoldable pub record_text_patch : CachePatch → Option (List CachePatch) → Option (List CachePatch)
record_text_patch p none = none
record_text_patch p (some patches) =
    if leb main_text_patch_max (length patches) then some patches else some (patches ++ p ∷ [])

abbrev pub is_ldapr : ℕ → Bool
is_ldapr w = bit_and w 0x3FFFFC00 == 0x38BFC000

abbrev pub to_ldar : ℕ → ℕ
to_ldar w = bit_or (bit_and w 0xC00003FF) 0x08DFFC00

abbrev pub is_tpidrro_read : ℕ → Bool
is_tpidrro_read w = bit_and w 0xFFFFFFE0 == 0xD53BD060

abbrev pub to_tpidr_read : ℕ → ℕ
to_tpidr_read w = bit_or 0xD53BD040 (bit_and w 0x1F)

abbrev pub text_offset : (base a : ℕ) → ℕ
text_offset base a = u64 (a + 2 ^ 64 - base)

unfoldable pub downgrade_rcpc : (offset : ℕ) → ℕ × Rewrites → ℕ × Rewrites
downgrade_rcpc offset (w, r) =
    let p : CachePatch = record {
      text_offset = offset;
      instruction = to_ldar w;
      kind = patch_rcpc;
    } in
    if is_ldapr w
    then (
      to_ldar w,
      record r { recorded = record_text_patch p r.recorded; rcpc_fixed = r.rcpc_fixed + 1 },
    )
    else (w, r)

unfoldable pub rewrite_tpidrro_read : (offset : ℕ) → ℕ × Rewrites → ℕ × Rewrites
rewrite_tpidrro_read offset (w, r) =
    let p : CachePatch = record {
      text_offset = offset;
      instruction = to_tpidr_read w;
      kind = patch_tpidrro;
    } in
    if is_tpidrro_read w
    then (
      to_tpidr_read w,
      record r { recorded = record_text_patch p r.recorded; tpidr_fixed = r.tpidr_fixed + 1 },
    )
    else (w, r)

abbrev pub scan_word : (offset : ℕ) → ℕ → Rewrites → ℕ × Rewrites
scan_word offset w r = rewrite_tpidrro_read offset (downgrade_rcpc offset (w, r))

unfoldable pub skip_before : (offset : ℕ) → List CachePatch → List CachePatch
skip_before offset [] = []
skip_before offset (p ∷ patches) =
    if ltb p.text_offset offset then skip_before offset patches else p ∷ patches

abbrev pub replayed : CachePatch → List CachePatch → Rewrites → ℕ × Rewrites
replayed p patches r =
    if p.kind == patch_rcpc
    then (p.instruction, record r { replay = patches; rcpc_fixed = r.rcpc_fixed + 1 })
    else (p.instruction, record r { replay = patches; tpidr_fixed = r.tpidr_fixed + 1 })

unfoldable pub replay_word : (offset : ℕ) → ℕ → Rewrites → ℕ × Rewrites
unfolding skip_before
replay_word offset w r = elim (skip_before offset r.replay) [
  | [] ↦ (w, record r { replay = [] })
  | (p ∷ patches) ↦
      if p.text_offset == offset
      then replayed p patches r
      else (w, record r { replay = p ∷ patches })
]

-- The words of a section, from the one at `a` on.
unfoldable pub rewrite_words :
    (replaying : Bool) (base a : ℕ) → List ℕ → Rewrites → List ℕ × Rewrites
rewrite_words replaying base a [] r = ([], r)
rewrite_words replaying base a (w ∷ words) r =
    let offset = text_offset base a in
    let (w', r') = if replaying then replay_word offset w r else scan_word offset w r in
    let (words', r'') = rewrite_words replaying base (a + 4) words r' in (w' ∷ words', r'')

-- The code of the sections, the words written to the pool, its cursor, the count of LSE instructions, and
-- what the loop over the words carries.
pub record Rewritten : Type 0 where
  pub code : List (List ℕ)
  pub islands : List ℕ
  pub pool_cur : Option ℕ
  pub lse_total : ℕ
  pub rewrites : Rewrites

-- `isa_emul_patch`, if there is a pool; addresses there are those of words.
abbrev pub patch_lse : (pool_end : ℕ) → Option ℕ → (addr : ℕ) → List ℕ → Patched × Option ℕ
patch_lse pool_end none addr code = (untouched code 0, none)
patch_lse pool_end (some cur) addr code =
    let done = patch pool_end (addr / 4) code cur in (done, some done.island)

unfoldable pub rewrite_sections :
    (replaying : Bool) (base slide pool_end : ℕ) → List Section → Option ℕ → Rewrites → Rewritten
rewrite_sections replaying base slide pool_end [] cur r = record {
  code = [];
  islands = [];
  pool_cur = cur;
  lse_total = 0;
  rewrites = r;
}
rewrite_sections replaying base slide pool_end (s ∷ sections) cur r =
    let addr = u64 (s.addr + slide) in
    let (words, r') = rewrite_words replaying base addr s.words r in
    let (lse, cur') = patch_lse pool_end cur addr words in
    let rest = rewrite_sections replaying base slide pool_end sections cur' r' in
    record {
      code = lse.code ∷ rest.code;
      islands = lse.pool ++ rest.islands;
      pool_cur = rest.pool_cur;
      lse_total = lse.patched + rest.lse_total;
      rewrites = rest.rewrites;
    }

-- The patches of an opened cache are replayed if there are any and the program is not moved; the memory
-- for recorded ones is asked for if there are none.
unfoldable pub rewrite_main :
    (cached : List CachePatch) (slide pool_end : ℕ) → Option ℕ → List Segment → Rewritten
unfolding rewrite_sections main_text_base code_sections
rewrite_main cached slide pool_end pool segments =
    rewrite_sections (not (length cached == 0) && (slide == 0)) (main_text_base 0 segments) slide
      pool_end (code_sections segments) pool
      (record {
        replay = cached;
        recorded = if length cached == 0 then some [] else none;
        rcpc_fixed = 0;
        tpidr_fixed = 0;
      })
