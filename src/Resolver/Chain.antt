-- ===== src/Resolver/Chain.antt =====
-- The chained fixups of src/resolver.c. `resolve` is the answer of `resolve_import` for an ordinal, an addend and a
-- place; what else it changes is left out. A chain that the rounds do not suffice for gives none.
pub mod Fixed
pub mod Walk
pub mod Layout
pub mod Pages
use machgate.Base.{
  ℕ, zero, suc, ◌+◌, ◌-◌, ◌*◌, ◌/◌, ◌^◌, ◌==◌, ltb, if◌then◌else◌, Bool, true, false, ◌||◌, not,
  List, [], ◌∷◌, Option, none, some, bit_and, bit_or, u64, ◌<<<◌, ◌>>>◌, ℤ, pos, negsuc,
}
use machgate.Memory.{Memory}
use machgate.Memory.Words.{load64, store64}

abbrev pub fixup_ptr_bind : ℕ → ℕ
fixup_ptr_bind raw = bit_and (raw >>> 63) 1

abbrev pub fixup_ptr_next : ℕ → ℕ
fixup_ptr_next raw = bit_and (raw >>> 51) 0xFFF

abbrev pub fixup_bind_ordinal : ℕ → ℕ
fixup_bind_ordinal raw = bit_and raw 0xFFFFFF

abbrev pub fixup_bind_addend : ℕ → ℕ
fixup_bind_addend raw = bit_and (raw >>> 24) 0xFF

abbrev pub fixup_rebase_target : ℕ → ℕ
fixup_rebase_target raw = bit_and raw 0xFFFFFFFFF

abbrev pub fixup_rebase_high8 : ℕ → ℕ
fixup_rebase_high8 raw = bit_and (raw >>> 36) 0xFF

abbrev pub to_int8 : ℕ → ℤ
to_int8 n = if ltb n 128 then pos n else negsuc (255 - n)

pub record ChainState : Type 0 where
  pub memory : Memory
  pub rebases_applied : ℕ

-- The segments' starts: the pointer format, where the segment is, the size of a page, and the start of each page.
pub record SegmentStarts : Type 0 where
  pub pointer_format : ℕ
  pub segment_offset : ℕ
  pub page_size : ℕ
  pub page_start : List ℕ

module _ (mh_addr slide : ℕ) (resolve : (ordinal : ℕ) → (addend : ℤ) → (loc : ℕ) → ℕ) where
  -- An offset from the header, or an address that is slid.
  abbrev pub rebase_value : (is_offset : Bool) (target high8 : ℕ) → ℕ
  rebase_value is_offset target high8 =
      bit_or (u64 ((if is_offset then mh_addr else slide) + target)) (high8 <<< 56)

  abbrev pub fixed : (is_offset : Bool) (raw loc : ℕ) → ℕ
  fixed is_offset raw loc =
      if fixup_ptr_bind raw == 0
      then rebase_value is_offset (fixup_rebase_target raw) (fixup_rebase_high8 raw)
      else resolve (fixup_bind_ordinal raw) (to_int8 (fixup_bind_addend raw)) loc

  abbrev pub fix : (is_offset : Bool) (loc : ℕ) → ChainState → ChainState
  fix is_offset loc st =
      let raw = load64 st.memory loc in
      record {
        memory = store64 st.memory loc (fixed is_offset raw loc);
        rebases_applied =
            if fixup_ptr_bind raw == 0 then st.rebases_applied + 1 else st.rebases_applied;
      }

  unfoldable pub walk_chain : (is_offset : Bool) (rounds loc : ℕ) → ChainState → Option ChainState
  walk_chain is_offset zero loc st = none
  walk_chain is_offset (suc rounds) loc st = elim (fixup_ptr_next (load64 st.memory loc) == 0) [
    | true ↦ some (fix is_offset loc st)
    | false ↦
        walk_chain is_offset rounds (loc + fixup_ptr_next (load64 st.memory loc) * 4)
          (fix is_offset loc st)
  ]

  -- The pages from number `page` on; a page with no fixups has 0xFFFF.
  unfoldable pub walk_pages :
      (is_offset : Bool) (rounds seg_base page_size page : ℕ)
      → List ℕ
      → ChainState
      → Option ChainState
  unfolding walk_chain
  walk_pages is_offset rounds seg_base page_size page [] st = some st
  walk_pages is_offset rounds seg_base page_size page (page_start ∷ starts) st =
      elim (page_start == 0xFFFF) [
        | true ↦ walk_pages is_offset rounds seg_base page_size (page + 1) starts st
        | false ↦ elim (walk_chain is_offset rounds (seg_base + page * page_size + page_start) st) [
          | none ↦ none
          | some st' ↦ walk_pages is_offset rounds seg_base page_size (page + 1) starts st'
        ]
      ]

  -- DYLD_CHAINED_PTR_64 and DYLD_CHAINED_PTR_64_OFFSET; a segment of another format is left out.
  unfoldable pub process_chained_fixups :
      (rounds : ℕ) → List SegmentStarts → ChainState → Option ChainState
  unfolding walk_pages
  process_chained_fixups rounds [] st = some st
  process_chained_fixups rounds (seg ∷ segments) st =
      elim (seg.pointer_format == 2 || seg.pointer_format == 6) [
        | false ↦ process_chained_fixups rounds segments st
        | true ↦
            elim (walk_pages (seg.pointer_format == 6) rounds (mh_addr + seg.segment_offset)
              seg.page_size 0 seg.page_start st) [
                | none ↦ none
                | some st' ↦ process_chained_fixups rounds segments st'
              ]
      ]
