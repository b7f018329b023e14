-- ===== src/EhFrame/Collect/Small.antt =====
-- The offsets of the collected functions have 32 bits.
use mathlib.Core.List.{reverse, reverse-append, append-nil, append_assoc}
use native.Mathlib.Nat.{pow-suc}
use machgate.Base.{
  ℕ, zero, suc, ◌+◌, ◌*◌, ◌^◌, ◌<◌, arith, sym, ap, subst, ◌∙◌, inl, inr, ◌==◌, ltb, if◌then◌else◌,
  Bool, true, false, Bool-cases, List, [], ◌∷◌, ◌++◌, take, drop, unle, field,
}
use machgate.EhFrame.Collect.{
  CuEntry, u32_at, page_exists, compressed_entries, regular_entries, page_entries, pages_entries,
  insert_from_right, insertion_sort,
}

abbrev pub AreSmall : List CuEntry → Type 0
AreSmall [] = Unit {0}
AreSmall (e ∷ entries) = (e.func_offset < 2 ^ 32) × AreSmall entries

AreSmall-append : (xs ys : List CuEntry) → AreSmall xs → AreSmall ys → AreSmall (xs ++ ys)
AreSmall-append [] ys sx sy = sy
AreSmall-append (e ∷ xs) ys sx sy = (sx.0, AreSmall-append xs ys sx.1 sy)

AreSmall-if :
    (test : Bool) (xs ys : List CuEntry)
    → AreSmall xs
    → AreSmall ys
    → AreSmall (if test then xs else ys)
AreSmall-if true xs ys sx sy = sx
AreSmall-if false xs ys sx sy = sy

pub AreSmall-take : (n : ℕ) (xs : List CuEntry) → AreSmall xs → AreSmall (take n xs)
AreSmall-take zero xs s = tt
AreSmall-take (suc n) [] s = tt
AreSmall-take (suc n) (e ∷ xs) s = (s.0, AreSmall-take n xs s.1)

AreSmall-insert :
    (tmp : CuEntry) (before : List CuEntry)
    → tmp.func_offset < 2 ^ 32
    → AreSmall before
    → AreSmall (insert_from_right tmp before)
unfolding insert_from_right
AreSmall-insert tmp [] h s = (h, tt)
AreSmall-insert tmp (e ∷ before) h s = elim (Bool-cases (ltb tmp.func_offset e.func_offset)) [
  | inl moves ↦ rw moves (s.0, AreSmall-insert tmp before h s.1)
  | inr stays ↦ rw stays (h, s)
]

AreSmall-reverse :
    (before behind : List CuEntry)
    → AreSmall before
    → AreSmall behind
    → AreSmall (reverse before ++ behind)
AreSmall-reverse [] behind s s' = s'
AreSmall-reverse (e ∷ before) behind s s' =
    subst AreSmall
      (sym (
        ap (λ t. t ++ behind) (reverse-append (e ∷ []) before)
        ∙ append_assoc (reverse before) (e ∷ []) behind))
      (AreSmall-reverse before (e ∷ behind) s.1 (s.0, s'))

pub AreSmall-sort :
    (before entries : List CuEntry)
    → AreSmall before
    → AreSmall entries
    → AreSmall (insertion_sort before entries)
unfolding insertion_sort
AreSmall-sort before [] b s =
    subst AreSmall (append-nil (reverse before)) (AreSmall-reverse before [] b tt)
AreSmall-sort before (e ∷ entries) b s =
    AreSmall-sort (insert_from_right e before) entries (AreSmall-insert e before s.0 b) s.1

abbrev pub AreBytes : List ℕ → Type 0
AreBytes [] = Unit {0}
AreBytes (c ∷ s) = (c < 256) × AreBytes s

unle-lt : (k : ℕ) (s : List ℕ) → AreBytes s → unle k s < 256 ^ k
unle-lt zero s b = omega arith
unle-lt (suc k) [] b = omega (arith, pow-suc 256 k, unle-lt k [] tt)
unle-lt (suc k) (c ∷ s) b = omega (arith, pow-suc 256 k, unle-lt k s b.1)

AreBytes-drop : (n : ℕ) (s : List ℕ) → AreBytes s → AreBytes (drop n s)
AreBytes-drop zero s b = b
AreBytes-drop (suc n) [] b = tt
AreBytes-drop (suc n) (c ∷ s) b = AreBytes-drop n s b.1

module _ (info : List ℕ) (bytes : AreBytes info) where
  u32_at-lt : (offset : ℕ) → u32_at info offset < 2 ^ 32
  u32_at-lt offset = unle-lt 4 (drop offset info) (AreBytes-drop offset info bytes)

  module _ (lsda_start lsda_end page_offset : ℕ) where
    AreSmall-compressed :
        (base i n : ℕ) → AreSmall (compressed_entries info lsda_start lsda_end page_offset base i n)
    unfolding compressed_entries
    AreSmall-compressed base i zero = tt
    AreSmall-compressed base i (suc n) = (omega arith, AreSmall-compressed base (i + 1) n)

    AreSmall-regular :
        (i n : ℕ) → AreSmall (regular_entries info lsda_start lsda_end page_offset i n)
    unfolding regular_entries
    AreSmall-regular i zero = tt
    AreSmall-regular i (suc n) = (u32_at-lt _, AreSmall-regular (i + 1) n)

  AreSmall-page : (unwind_size idx : ℕ) → AreSmall (page_entries info unwind_size idx)
  unfolding page_entries
  AreSmall-page unwind_size idx =
      let at : ℕ = u32_at info 20 + 12 * idx in
      let page_offset : ℕ = u32_at info (at + 4) in
      let lsda_start : ℕ = u32_at info (at + 8) in
      let lsda_end : ℕ = u32_at info (u32_at info 20 + 12 * (idx + 1) + 8) in
      let n : ℕ = field 2 (page_offset + 6) info in
      let compressed : List CuEntry =
        compressed_entries info lsda_start lsda_end page_offset (u32_at info at) 0 n in
      let regular : List CuEntry = regular_entries info lsda_start lsda_end page_offset 0 n in
      let second : List CuEntry = if u32_at info page_offset == 2 then regular else [] in
      AreSmall-if (page_exists info unwind_size page_offset)
        (if u32_at info page_offset == 3 then compressed else second) []
        (AreSmall-if (u32_at info page_offset == 3) compressed second
          (AreSmall-compressed lsda_start lsda_end page_offset (u32_at info at) 0 n)
          (AreSmall-if (u32_at info page_offset == 2) regular []
            (AreSmall-regular lsda_start lsda_end page_offset 0 n) tt))
        tt

  pub AreSmall-pages : (unwind_size idx n : ℕ) → AreSmall (pages_entries info unwind_size idx n)
  unfolding pages_entries
  AreSmall-pages unwind_size idx zero = tt
  AreSmall-pages unwind_size idx (suc n) =
      AreSmall-append (page_entries info unwind_size idx) _ (AreSmall-page unwind_size idx)
        (AreSmall-pages unwind_size (idx + 1) n)
