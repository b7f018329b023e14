-- ===== src/Boot/Rewrite/Sections.antt =====
-- The replay of recorded patches over the sections of the program, against the scan that recorded them.
use mathlib.Core.List.{append-nil, append_assoc}
use machgate.Base.{
  ℕ, ◌+◌, ◌*◌, ◌^◌, ◌<◌, ◌≤◌, ◌≡◌, refl, arith, sym, ap, subst, ◌∙◌, Bool, true, false, List, [],
  ◌∷◌, ◌++◌, length, Option, none, some, some_inj, inl, inr, Bool-cases, leb, ◌==◌, if◌then◌else◌,
  u64,
}
use machgate.Cache.Format.{CachePatch}
use machgate.Isa.Patch.{Patched}
use machgate.Boot.Rewrite.{
  Section, Segment, Rewrites, record_text_patch, text_offset, rewrite_words, Rewritten, patch_lse,
  rewrite_sections, rewrite_main, main_text_base, code_sections, main_text_patch_max,
}
use machgate.Boot.Rewrite.Replay.{
  found_word, found_words, counted, recording, record_all, synced, Starts, Starts-le,
  Starts-found_words, replay_words, scan_cons,
}

abbrev found_sections : (base : ℕ) → List Section → List CachePatch
found_sections base [] = []
found_sections base (s ∷ sections) = found_words base s.addr s.words ++ found_sections base sections

-- The sections stand in the order of their addresses from `a` on, none over another, and in the address
-- space.
abbrev pub IsOrdered : (a : ℕ) → List Section → Type 0
IsOrdered a [] = Unit {0}
IsOrdered a (s ∷ sections) =
    (a ≤ s.addr)
    × (s.addr + length s.words * 4 < 2 ^ 64)
    × IsOrdered (s.addr + length s.words * 4) sections

-- Recording.

record_all-append :
    (ps qs : List CachePatch) (kept : Option (List CachePatch))
    → record_all (ps ++ qs) kept ≡ record_all qs (record_all ps kept)
record_all-append [] qs kept = refl
record_all-append (p ∷ ps) qs kept = record_all-append ps qs (record_text_patch p kept)

-- A full list stays as it is.
record_all-full :
    (ps acc : List CachePatch)
    → main_text_patch_max ≤ length acc
    → record_all ps (some acc) ≡ some acc
unfolding record_text_patch
record_all-full [] acc h = refl
record_all-full (p ∷ ps) acc h =
    let full : leb main_text_patch_max (length acc) ≡ true = ground arith in
    rw full (record_all-full ps acc h)

record_all-some :
    (ps acc : List CachePatch) {q : List CachePatch}
    → record_all ps (some acc) ≡ some q
    → length q < main_text_patch_max
    → q ≡ acc ++ ps
unfolding record_text_patch
record_all-some [] acc e lt = sym (some_inj e) ∙ sym (append-nil acc)
record_all-some (p ∷ ps) acc {q} e lt = elim (Bool-cases (leb main_text_patch_max (length acc))) [
  | inl full ↦
      let le : main_text_patch_max ≤ length acc = ground arith in
      let same : record_all (p ∷ ps) (some acc) ≡ some acc = record_all-full (p ∷ ps) acc le in
      let eq : acc ≡ q = some_inj (sym same ∙ e) in absurd (omega (arith, ap length eq))
  | inr room ↦
      let e' : record_all ps (some (acc ++ p ∷ [])) ≡ some q =
        subst (λ (b : Bool). record_all ps (if b then some acc else some (acc ++ p ∷ [])) ≡ some q)
          room e in
      record_all-some ps (acc ++ p ∷ []) e' lt ∙ append_assoc acc (p ∷ []) ps
]

counted-recorded : (w : ℕ) (r : Rewrites) → (counted w r).recorded ≡ r.recorded
counted-recorded w r = ground arith

scan_words-recorded :
    (base a : ℕ) (words : List ℕ) (r : Rewrites)
    → (rewrite_words false base a words r).1.recorded
      ≡ record_all (found_words base a words) r.recorded
unfolding rewrite_words
scan_words-recorded base a [] r = refl
scan_words-recorded base a (w ∷ words) r =
    let found : List CachePatch = found_word (text_offset base a) w in
    let next : Rewrites = counted w (recording found r) in
    ap (λ (t : List ℕ × Rewrites). t.1.recorded) (scan_cons base a w words r)
    ∙ scan_words-recorded base (a + 4) words next
    ∙ ap (record_all (found_words base (a + 4) words)) (counted-recorded w (recording found r))
    ∙ sym (record_all-append found (found_words base (a + 4) words) r.recorded)

-- The sections.

Starts-found_sections :
    (base a : ℕ) (sections : List Section)
    → base ≤ a
    → a < 2 ^ 64
    → IsOrdered a sections
    → Starts (text_offset base a) (found_sections base sections)
Starts-found_sections base a [] h lt o = tt
Starts-found_sections base a (s ∷ sections) h lt o =
    let end : ℕ = s.addr + length s.words * 4 in
    let later : Starts (text_offset base end) (found_sections base sections) =
      Starts-found_sections base end sections (omega arith) o.1 o.2 in
    Starts-le (text_offset base a) (text_offset base s.addr) (found_sections base (s ∷ sections))
      (omega arith)
      (Starts-found_words base s.addr s.words (found_sections base sections) (omega arith) o.1
        later)

abbrev with_rewrites : Rewritten → Rewrites → Rewritten
with_rewrites done r = record done { rewrites = r }

abbrev section_before : Patched → Rewritten → Rewritten
section_before lse rest = record {
  code = lse.code ∷ rest.code;
  islands = lse.pool ++ rest.islands;
  pool_cur = rest.pool_cur;
  lse_total = lse.patched + rest.lse_total;
  rewrites = rest.rewrites;
}

-- What a section adds to the rest.
abbrev section_then :
    (replaying : Bool) (base pool_end : ℕ)
    → List Section
    → Option ℕ
    → (addr : ℕ) → List ℕ × Rewrites
    → Rewritten
section_then replaying base pool_end sections cur addr (words, r) =
    let (lse, cur') = patch_lse pool_end cur addr words in
    section_before lse (rewrite_sections replaying base 0 pool_end sections cur' r)

section_step :
    (replaying : Bool) (base pool_end : ℕ) (s : Section) (sections : List Section) (cur : Option ℕ)
    (r : Rewrites)
    → s.addr < 2 ^ 64
    → rewrite_sections replaying base 0 pool_end (s ∷ sections) cur r
      ≡ section_then replaying base pool_end sections cur s.addr
          (rewrite_words replaying base s.addr s.words r)
unfolding rewrite_sections
section_step replaying base pool_end s sections cur r lt =
    let e : u64 (s.addr + 0) ≡ s.addr = omega arith in
    ap
      (λ addr.
        section_then replaying base pool_end sections cur addr
          (rewrite_words replaying base addr s.words r))
      e

scan_sections-recorded :
    (base a pool_end : ℕ) (sections : List Section) (cur : Option ℕ) (r : Rewrites)
    → IsOrdered a sections
    → (rewrite_sections false base 0 pool_end sections cur r).rewrites.recorded
      ≡ record_all (found_sections base sections) r.recorded
unfolding rewrite_sections
scan_sections-recorded base a pool_end [] cur r o = refl
scan_sections-recorded base a pool_end (s ∷ sections) cur r o =
    let done : List ℕ × Rewrites = rewrite_words false base s.addr s.words r in
    ap (λ (t : Rewritten). t.rewrites.recorded)
      (section_step false base pool_end s sections cur r (omega arith))
    ∙ scan_sections-recorded base (s.addr + length s.words * 4) pool_end sections
        (patch_lse pool_end cur s.addr done.0).1 done.1 o.2
    ∙ ap (record_all (found_sections base sections)) (scan_words-recorded base s.addr s.words r)
    ∙ sym (
        record_all-append (found_words base s.addr s.words) (found_sections base sections)
          r.recorded)

replay_sections :
    (base a pool_end : ℕ) (sections : List Section) (cur : Option ℕ)
    (kept : Option (List CachePatch)) (r : Rewrites)
    → base ≤ a
    → IsOrdered a sections
    → let scanned = rewrite_sections false base 0 pool_end sections cur r in
      rewrite_sections true base 0 pool_end sections cur
        (synced (found_sections base sections) kept r)
      ≡ with_rewrites scanned (synced [] kept scanned.rewrites)
unfolding rewrite_sections
replay_sections base a pool_end [] cur kept r h o = refl
replay_sections base a pool_end (s ∷ sections) cur kept r h o =
    let end : ℕ = s.addr + length s.words * 4 in
    let more : List CachePatch = found_sections base sections in
    let done : List ℕ × Rewrites = rewrite_words false base s.addr s.words r in
    let starts : Starts (text_offset base end) more =
      Starts-found_sections base end sections (omega arith) o.1 o.2 in
    let words = replay_words base s.addr s.words more kept r (omega arith) o.1 starts in
    let lse : Patched × Option ℕ = patch_lse pool_end cur s.addr done.0 in
    section_step true base pool_end s sections cur
      (synced (found_words base s.addr s.words ++ more) kept r) (omega arith)
    ∙ ap (section_then true base pool_end sections cur s.addr) words
    ∙ ap (section_before lse.0)
        (replay_sections base end pool_end sections lse.1 kept done.1 (omega arith) o.2)
    ∙ ap (λ (t : Rewritten). with_rewrites t (synced [] kept t.rewrites))
        (sym (section_step false base pool_end s sections cur r (omega arith)))

-- What the two runs have in common.
abbrev pub SameProgram : Rewritten → Rewritten → Type 0
SameProgram a b =
    (a.code ≡ b.code)
    × (a.islands ≡ b.islands)
    × (a.pool_cur ≡ b.pool_cur)
    × (a.lse_total ≡ b.lse_total)
    × (a.rewrites.rcpc_fixed ≡ b.rewrites.rcpc_fixed)
    × (a.rewrites.tpidr_fixed ≡ b.rewrites.tpidr_fixed)

same_fields :
    {a : Rewritten} (b : Rewritten) (q : Rewrites)
    → q.rcpc_fixed ≡ b.rewrites.rcpc_fixed
    → q.tpidr_fixed ≡ b.rewrites.tpidr_fixed
    → a ≡ with_rewrites b q
    → SameProgram a b
same_fields b q hr ht e = (
  ap (λ (t : Rewritten). t.code) e,
  ap (λ (t : Rewritten). t.islands) e,
  ap (λ (t : Rewritten). t.pool_cur) e,
  ap (λ (t : Rewritten). t.lse_total) e,
  ap (λ (t : Rewritten). t.rewrites.rcpc_fixed) e ∙ hr,
  ap (λ (t : Rewritten). t.rewrites.tpidr_fixed) e ∙ ht,
)

abbrev at_start : Option (List CachePatch) → Rewrites
at_start kept = record { replay = []; recorded = kept; rcpc_fixed = 0; tpidr_fixed = 0 }

replay_main-eq :
    (pool_end : ℕ) (pool : Option ℕ) (segments : List Segment) (p : CachePatch)
    (patches : List CachePatch)
    → rewrite_main (p ∷ patches) 0 pool_end pool segments
      ≡ rewrite_sections true
          (main_text_base 0 segments)
          0
          pool_end
          (code_sections segments)
          pool
          (synced (p ∷ patches) none (at_start (some [])))
unfolding rewrite_main
replay_main-eq pool_end pool segments p patches =
    let full : (length (p ∷ patches) == 0) ≡ false = ground arith in rw full refl

-- If the program is not moved, its code sections stand in the order of their addresses after the start
-- of __TEXT, and a scan of it recorded fewer patches than there is room for, then the replay of these
-- patches makes the same code, the same islands and the same counts of the same program.
pub replay_main :
    (pool_end : ℕ) (pool : Option ℕ) (segments : List Segment) (patches : List CachePatch)
    → IsOrdered (main_text_base 0 segments) (code_sections segments)
    → main_text_base 0 segments < 2 ^ 64
    → (rewrite_main [] 0 pool_end pool segments).rewrites.recorded ≡ some patches
    → length patches < main_text_patch_max
    → SameProgram
        (rewrite_main patches 0 pool_end pool segments)
        (rewrite_main [] 0 pool_end pool segments)
unfolding rewrite_main
replay_main pool_end pool segments [] o lt e room = (refl, refl, refl, refl, refl, refl)
replay_main pool_end pool segments (p ∷ patches) o lt e room =
    let base : ℕ = main_text_base 0 segments in
    let sections : List Section = code_sections segments in
    let start : Rewrites = record {
      replay = [];
      recorded = some [];
      rcpc_fixed = 0;
      tpidr_fixed = 0;
    } in
    let found : p ∷ patches ≡ found_sections base sections =
      record_all-some (found_sections base sections) []
        (sym (scan_sections-recorded base base pool_end sections pool start o) ∙ e) room in
    same_fields (rewrite_main [] 0 pool_end pool segments) _ refl refl (
      replay_main-eq pool_end pool segments p patches
      ∙ ap (λ c. rewrite_sections true base 0 pool_end sections pool (synced c none start)) found
      ∙ replay_sections base base pool_end sections pool none start (omega arith) o)
