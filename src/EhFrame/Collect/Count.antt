-- ===== src/EhFrame/Collect/Count.antt =====
-- The first pass counts what the second one collects.
use mathlib.Core.List.{append-nil}
use machgate.Base.{
  ℕ, zero, suc, ◌+◌, ◌*◌, ◌≡◌, refl, ap, ap₂, sym, ◌∙◌, ◌==◌, if◌then◌else◌, Bool, true, false,
  ◌&&◌, ◌||◌, List, [], length, length-append, take, take-append, field,
}
use machgate.EhFrame.Collect.{
  CuEntry, u32_at, page_exists, count_entries, compressed_entries, regular_entries, page_entries,
  pages_entries,
}

module _ (info : List ℕ) where
  module _ (lsda_start lsda_end page_offset : ℕ) where
    length-compressed :
        (base i n : ℕ)
        → length (compressed_entries info lsda_start lsda_end page_offset base i n) ≡ n
    unfolding compressed_entries
    length-compressed base i zero = refl
    length-compressed base i (suc n) = ap suc (length-compressed base (i + 1) n)

    length-regular :
        (i n : ℕ) → length (regular_entries info lsda_start lsda_end page_offset i n) ≡ n
    unfolding regular_entries
    length-regular i zero = refl
    length-regular i (suc n) = ap suc (length-regular (i + 1) n)

chosen :
    (there compressed regular : Bool) (xs ys : List CuEntry) (n : ℕ)
    → length xs ≡ n
    → length ys ≡ n
    → length (if there then (if compressed then xs else if regular then ys else []) else [])
      ≡ (if there && (compressed || regular) then n else 0)
chosen false compressed regular xs ys n hx hy = refl
chosen true true regular xs ys n hx hy = hx
chosen true false true xs ys n hx hy = hy
chosen true false false xs ys n hx hy = refl

length-pages :
    (info : List ℕ) (unwind_size idx n : ℕ)
    → length (pages_entries info unwind_size idx n) ≡ count_entries info unwind_size idx n
unfolding pages_entries count_entries page_entries
length-pages info unwind_size idx zero = refl
length-pages info unwind_size idx (suc n) =
    let at : ℕ = u32_at info 20 + 12 * idx in
    let page_offset : ℕ = u32_at info (at + 4) in
    let lsda_start : ℕ = u32_at info (at + 8) in
    let lsda_end : ℕ = u32_at info (u32_at info 20 + 12 * (idx + 1) + 8) in
    let count : ℕ = field 2 (page_offset + 6) info in
    length-append (page_entries info unwind_size idx) (pages_entries info unwind_size (idx + 1) n)
    ∙ ap₂ ◌+◌
        (chosen (page_exists info unwind_size page_offset) (u32_at info page_offset == 3)
          (u32_at info page_offset == 2) _ _ count
          (length-compressed info lsda_start lsda_end page_offset (u32_at info at) 0 count)
          (length-regular info lsda_start lsda_end page_offset 0 count))
        (length-pages info unwind_size (idx + 1) n)

-- All that the second pass finds is taken.
pub take-pages :
    (info : List ℕ) (unwind_size idx n : ℕ)
    → take (count_entries info unwind_size idx n) (pages_entries info unwind_size idx n)
      ≡ pages_entries info unwind_size idx n
take-pages info unwind_size idx n =
    let all : List CuEntry = pages_entries info unwind_size idx n in
    ap (λ k. take k all) (sym (length-pages info unwind_size idx n))
    ∙ ap (take (length all)) (sym (append-nil all))
    ∙ take-append all []
