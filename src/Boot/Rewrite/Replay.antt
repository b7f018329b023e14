-- ===== src/Boot/Rewrite/Replay.antt =====
-- The replay of recorded patches against the scan that recorded them.
use mathlib.Core.List.{append_assoc}
use machgate.Base.{
  ℕ, ◌+◌, ◌-◌, ◌*◌, ◌^◌, ◌<◌, ◌≤◌, ◌≡◌, refl, arith, sym, ap, subst, ◌∙◌, true, false, List, [],
  ◌∷◌, ◌++◌, length, Option, inl, inr, Bool-cases, ltb, ◌==◌, if◌then◌else◌,
}
use machgate.Cache.Format.{CachePatch}
use machgate.Boot.Rewrite.{
  Rewrites, record_text_patch, is_ldapr, to_ldar, is_tpidrro_read, to_tpidr_read, text_offset,
  downgrade_rcpc, rewrite_tpidrro_read, scan_word, skip_before, replayed, replay_word,
  rewrite_words, patch_rcpc, patch_tpidrro,
}
use machgate.Boot.Rewrite.Words.{ldar_stays}

-- What the scan finds in a word, makes of it and counts.
abbrev pub found_word : (offset : ℕ) → ℕ → List CachePatch
found_word offset w =
    if is_ldapr w
    then record { text_offset = offset; instruction = to_ldar w; kind = patch_rcpc } ∷ []
    else if is_tpidrro_read w
    then record { text_offset = offset; instruction = to_tpidr_read w; kind = patch_tpidrro } ∷ []
    else []

abbrev pub new_word : ℕ → ℕ
new_word w = if is_ldapr w then to_ldar w else if is_tpidrro_read w then to_tpidr_read w else w

abbrev pub counted : ℕ → Rewrites → Rewrites
counted w r =
    if is_ldapr w
    then record r { rcpc_fixed = r.rcpc_fixed + 1 }
    else if is_tpidrro_read w
    then record r { tpidr_fixed = r.tpidr_fixed + 1 }
    else r

abbrev pub record_all : List CachePatch → Option (List CachePatch) → Option (List CachePatch)
record_all [] kept = kept
record_all (p ∷ patches) kept = record_all patches (record_text_patch p kept)

abbrev pub recording : List CachePatch → Rewrites → Rewrites
recording patches r = record r { recorded = record_all patches r.recorded }

pub scan_word-found :
    (offset w : ℕ) (r : Rewrites)
    → scan_word offset w r ≡ (new_word w, counted w (recording (found_word offset w) r))
unfolding downgrade_rcpc rewrite_tpidrro_read
scan_word-found offset w r = elim (Bool-cases (is_ldapr w)) [
  | inl on ↦ rw (on, ldar_stays w) refl
  | inr off ↦ elim (Bool-cases (is_tpidrro_read w)) [
    | inl on ↦ rw (off, on) refl
    | inr none_found ↦ rw (off, none_found) refl
  ]
]

-- A state that replays, with the counts of one that scans.
abbrev pub synced : List CachePatch → Option (List CachePatch) → Rewrites → Rewrites
synced cursor kept r = record {
  replay = cursor;
  recorded = kept;
  rcpc_fixed = r.rcpc_fixed;
  tpidr_fixed = r.tpidr_fixed;
}

abbrev pub Starts : ℕ → List CachePatch → Type 0
Starts offset [] = Unit {0}
Starts offset (p ∷ patches) = offset ≤ p.text_offset

skip_none :
    (offset : ℕ) (p : CachePatch) (more : List CachePatch)
    → offset ≤ p.text_offset
    → skip_before offset (p ∷ more) ≡ p ∷ more
unfolding skip_before
skip_none offset p more h =
    let ahead : ltb p.text_offset offset ≡ false = ground arith in rw ahead refl

replay_later :
    (offset w : ℕ) (more : List CachePatch) (kept : Option (List CachePatch)) (r : Rewrites)
    → Starts (offset + 1) more
    → replay_word offset w (synced more kept r) ≡ (w, synced more kept r)
unfolding replay_word skip_before
replay_later offset w [] kept r h = refl
replay_later offset w (p ∷ more) kept r h =
    let other : (p.text_offset == offset) ≡ false = ground arith in
    rw (replay_word, skip_none offset p more (omega arith), other) refl

replay_now :
    (offset w : ℕ) (p : CachePatch) (more : List CachePatch) (kept : Option (List CachePatch))
    (r : Rewrites)
    → p.text_offset ≡ offset
    → replay_word offset w (synced (p ∷ more) kept r) ≡ replayed p more (synced (p ∷ more) kept r)
unfolding replay_word skip_before
replay_now offset w p more kept r e =
    let same : (p.text_offset == offset) ≡ true = ground arith in
    rw (replay_word, skip_none offset p more (omega arith), same) refl

replay_word-found :
    (offset w : ℕ) (more : List CachePatch) (kept : Option (List CachePatch)) (r : Rewrites)
    → Starts (offset + 1) more
    → replay_word offset w (synced (found_word offset w ++ more) kept r)
      ≡ (new_word w, synced more kept (counted w r))
replay_word-found offset w more kept r h = elim (Bool-cases (is_ldapr w)) [
  | inl on ↦ rw on (replay_now offset w _ more kept r refl)
  | inr off ↦ elim (Bool-cases (is_tpidrro_read w)) [
    | inl on ↦ rw (off, on) (replay_now offset w _ more kept r refl)
    | inr none_found ↦ rw (off, none_found) (replay_later offset w more kept r h)
  ]
]

abbrev pub found_words : (base a : ℕ) → List ℕ → List CachePatch
found_words base a [] = []
found_words base a (w ∷ words) = found_word (text_offset base a) w ++ found_words base (a + 4) words

text_offset-sub : (base a : ℕ) → base ≤ a → a < 2 ^ 64 → text_offset base a ≡ a - base
text_offset-sub base a h lt = omega arith

pub Starts-le : (m n : ℕ) (patches : List CachePatch) → m ≤ n → Starts n patches → Starts m patches
Starts-le m n [] h s = tt
Starts-le m n (p ∷ patches) h s = omega arith

Starts-found_word :
    (offset w : ℕ) (more : List CachePatch)
    → Starts (offset + 1) more
    → Starts offset (found_word offset w ++ more)
Starts-found_word offset w more h = elim (Bool-cases (is_ldapr w)) [
  | inl on ↦ rw on (omega arith)
  | inr off ↦ elim (Bool-cases (is_tpidrro_read w)) [
    | inl on ↦ rw (off, on) (omega arith)
    | inr none_found ↦ rw (off, none_found) (Starts-le offset (offset + 1) more (omega arith) h)
  ]
]

-- The next word's patches are past this word.
Starts-next :
    (base a : ℕ) (patches : List CachePatch)
    → base ≤ a
    → a + 4 < 2 ^ 64
    → Starts (text_offset base (a + 4)) patches
    → Starts (text_offset base a + 1) patches
Starts-next base a patches h lt s = Starts-le _ _ patches (omega arith) s

pub Starts-found_words :
    (base a : ℕ) (words : List ℕ) (rest : List CachePatch)
    → base ≤ a
    → a + length words * 4 < 2 ^ 64
    → Starts (text_offset base (a + length words * 4)) rest
    → Starts (text_offset base a) (found_words base a words ++ rest)
Starts-found_words base a [] rest h lt s =
    Starts-le _ (text_offset base (a + 0 * 4)) rest (omega arith) s
Starts-found_words base a (w ∷ words) rest h lt s =
    let offset : ℕ = text_offset base a in
    let end : a + 4 + length words * 4 ≡ a + length (w ∷ words) * 4 = omega arith in
    let later : Starts (text_offset base (a + 4)) (found_words base (a + 4) words ++ rest) =
      Starts-found_words base (a + 4) words rest (omega arith) (omega arith)
        (subst (λ e. Starts (text_offset base e) rest) (sym end) s) in
    subst (Starts offset)
      (sym (append_assoc (found_word offset w) (found_words base (a + 4) words) rest))
      (Starts-found_word offset w (found_words base (a + 4) words ++ rest)
        (Starts-next base a _ h (omega arith) later))

synced-recording :
    (w : ℕ) (cursor found : List CachePatch) (kept : Option (List CachePatch)) (r : Rewrites)
    → synced cursor kept (counted w r) ≡ synced cursor kept (counted w (recording found r))
synced-recording w cursor found kept r = elim (Bool-cases (is_ldapr w)) [
  | inl on ↦ rw on refl
  | inr off ↦ elim (Bool-cases (is_tpidrro_read w)) [
    | inl on ↦ rw (off, on) refl
    | inr none_found ↦ rw (off, none_found) refl
  ]
]

pub scan_cons :
    (base a w : ℕ) (words : List ℕ) (r : Rewrites)
    → let next = counted w (recording (found_word (text_offset base a) w) r) in
      let rest = rewrite_words false base (a + 4) words next in
      rewrite_words false base a (w ∷ words) r ≡ (new_word w ∷ rest.0, rest.1)
unfolding rewrite_words
scan_cons base a w words r = rw (scan_word-found (text_offset base a) w r) refl

replay_cons :
    (base a w : ℕ) (words : List ℕ) (q : Rewrites)
    → let next = replay_word (text_offset base a) w q in
      let rest = rewrite_words true base (a + 4) words next.1 in
      rewrite_words true base a (w ∷ words) q ≡ (next.0 ∷ rest.0, rest.1)
unfolding rewrite_words
replay_cons base a w words q = refl

pub replay_words :
    (base a : ℕ) (words : List ℕ) (rest : List CachePatch) (kept : Option (List CachePatch))
    (r : Rewrites)
    → base ≤ a
    → a + length words * 4 < 2 ^ 64
    → Starts (text_offset base (a + length words * 4)) rest
    → let scanned = rewrite_words false base a words r in
      rewrite_words true base a words (synced (found_words base a words ++ rest) kept r)
      ≡ (scanned.0, synced rest kept scanned.1)
unfolding rewrite_words
replay_words base a [] rest kept r h lt s = refl
replay_words base a (w ∷ words) rest kept r h lt s =
    let offset : ℕ = text_offset base a in
    let later : List CachePatch = found_words base (a + 4) words ++ rest in
    let next : Rewrites = counted w (recording (found_word offset w) r) in
    let end : a + 4 + length words * 4 ≡ a + length (w ∷ words) * 4 = omega arith in
    let s' : Starts (text_offset base (a + 4 + length words * 4)) rest =
      subst (λ e. Starts (text_offset base e) rest) (sym end) s in
    let starts : Starts (text_offset base (a + 4)) later =
      Starts-found_words base (a + 4) words rest (omega arith) (omega arith) s' in
    let ih = replay_words base (a + 4) words rest kept next (omega arith) (omega arith) s' in
    let word =
      replay_word-found offset w later kept r (Starts-next base a _ h (omega arith) starts) in
    let all : found_words base a (w ∷ words) ++ rest ≡ found_word offset w ++ later =
      append_assoc (found_word offset w) (found_words base (a + 4) words) rest in
    ap (λ c. rewrite_words true base a (w ∷ words) (synced c kept r)) all
    ∙ replay_cons base a w words (synced (found_word offset w ++ later) kept r)
    ∙ ap
        (λ (n : ℕ × Rewrites).
          let t = rewrite_words true base (a + 4) words n.1 in (n.0 ∷ t.0, t.1))
        (word ∙ ap (λ q. (new_word w, q)) (synced-recording w later (found_word offset w) kept r))
    ∙ ap (λ (t : List ℕ × Rewrites). (new_word w ∷ t.0, t.1)) ih
    ∙ ap (λ (t : List ℕ × Rewrites). (t.0, synced rest kept t.1)) (sym (scan_cons base a w words r))
