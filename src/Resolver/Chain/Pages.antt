-- ===== src/Resolver/Chain/Pages.antt =====
-- The chains of all pages of all segments.
use machgate.Base.{
  ℕ, ◌+◌, ◌*◌, ◌^◌, ◌<◌, ◌≤◌, ◌≡◌, inl, inr, refl, arith, sym, ap, ◌∙◌, ◌==◌, ◌||◌, Bool,
  Bool-cases, if◌then◌else◌, List, [], ◌∷◌, ◌++◌, Option, none, some, ℤ,
}
use machgate.Memory.{Memory}
use machgate.Memory.Words.{load64}
use machgate.Resolver.Chain.{
  ChainState, SegmentStarts, walk_chain, walk_pages, process_chained_fixups,
}
use machgate.Resolver.Chain.Fixed.{Fixup}
use machgate.Resolver.Chain.Layout.{
  Chain, starts_of, AllAbove, AllAbove-le, IsLaidOut, IsLaidOut-kept, OutsideChains, rebases_of,
}
use machgate.Resolver.Chain.Walk.{IsChain, AllFixed, chain_end, chain_end-le, walk_chain-IsFixed}

-- The chains that the pages from number `page` on start; 0xFFFF starts none.
abbrev pub page_chains : (is_offset : Bool) (seg_base page_size page : ℕ) → List ℕ → List (Bool × ℕ)
page_chains is_offset seg_base page_size page [] = []
page_chains is_offset seg_base page_size page (page_start ∷ starts) =
    let rest = page_chains is_offset seg_base page_size (page + 1) starts in
    if page_start == 0xFFFF
    then rest
    else (is_offset, seg_base + page * page_size + page_start) ∷ rest

-- The chains of the segments in one of the two formats.
abbrev pub image_chains : (mh_addr : ℕ) → List SegmentStarts → List (Bool × ℕ)
image_chains mh_addr [] = []
image_chains mh_addr (seg ∷ segments) =
    let rest = image_chains mh_addr segments in
    if seg.pointer_format == 2 || seg.pointer_format == 6
    then page_chains (seg.pointer_format == 6) (mh_addr + seg.segment_offset) seg.page_size 0
        seg.page_start
      ++ rest
    else rest

abbrev and_then : Option ChainState → (ChainState → Option ChainState) → Option ChainState
and_then first second = elim first [ none ↦ none | some st ↦ second st ]

and_then_with :
    {k : ChainState → Option ChainState} (first : Option ChainState)
    (second third : ChainState → Option ChainState)
    → ((st : ChainState) → k st ≡ and_then (second st) third)
    → and_then first k ≡ and_then (and_then first second) third
and_then_with none second third same = refl
and_then_with (some st) second third same = same st

and_then_same :
    {k k' : ChainState → Option ChainState} (first : Option ChainState)
    → ((st : ChainState) → k st ≡ k' st)
    → and_then first k ≡ and_then first k'
and_then_same none same = refl
and_then_same (some st) same = same st

module _ (mh_addr slide : ℕ) (resolve : (ordinal : ℕ) → (addend : ℤ) → (loc : ℕ) → ℕ) where
  abbrev pub AllChainsFixed : Memory → List Chain → Type 0
  AllChainsFixed m [] = Unit {0}
  AllChainsFixed m (c ∷ chains) =
      AllFixed mh_addr slide resolve c.is_offset m c.start c.first c.rest × AllChainsFixed m chains

  AllFixed-kept :
      (is_offset : Bool) (m0 m m' : Memory) (e loc : ℕ) (f : Fixup) (rest : List (ℕ × Fixup))
      → ((b : ℕ) → b + 8 ≤ e → load64 m' b ≡ load64 m b)
      → chain_end loc rest ≤ e
      → IsChain m0 loc f rest
      → AllFixed mh_addr slide resolve is_offset m loc f rest
      → AllFixed mh_addr slide resolve is_offset m' loc f rest
  AllFixed-kept is_offset m0 m m' e loc f [] same h chain fixed = same loc h ∙ fixed
  AllFixed-kept is_offset m0 m m' e loc f ((gap, g) ∷ rest) same h (here, fits, apart, small, chain)
        (fixed, later) =
      (
        same loc (omega (arith, chain_end-le m0 (loc + gap * 4) g rest chain)) ∙ fixed,
        AllFixed-kept is_offset m0 m m' e (loc + gap * 4) g rest same h chain later,
      )

  -- The chains from a list of starts, one after the other.
  unfoldable walk_all : (rounds : ℕ) → List (Bool × ℕ) → ChainState → Option ChainState
  walk_all rounds [] st = some st
  walk_all rounds ((is_offset, loc) ∷ starts) st =
      elim (walk_chain mh_addr slide resolve is_offset rounds loc st) [
        | none ↦ none
        | some st' ↦ walk_all rounds starts st'
      ]

  walk_pages-walk_all :
      (is_offset : Bool) (rounds seg_base page_size page : ℕ) (pages : List ℕ)
      (starts : List (Bool × ℕ)) (st : ChainState)
      → walk_all rounds (page_chains is_offset seg_base page_size page pages ++ starts) st
        ≡ elim (walk_pages mh_addr slide resolve is_offset rounds seg_base page_size page pages
            st) [ none ↦ none | some st' ↦ walk_all rounds starts st' ]
  unfolding walk_all walk_pages
  walk_pages-walk_all is_offset rounds seg_base page_size page [] starts st = refl
  walk_pages-walk_all is_offset rounds seg_base page_size page (page_start ∷ pages) starts st =
      elim (Bool-cases (page_start == 0xFFFF)) [
        | inl e ↦
            rw e
              (walk_pages-walk_all is_offset rounds seg_base page_size (page + 1) pages starts st)
        | inr e ↦ rw e (
            and_then_with
              (walk_chain mh_addr slide resolve is_offset rounds
                (seg_base + page * page_size + page_start) st)
              (walk_pages mh_addr slide resolve is_offset rounds seg_base page_size (page + 1)
                pages)
              (walk_all rounds starts)
              (λ st'.
                walk_pages-walk_all is_offset rounds seg_base page_size (page + 1) pages starts
                  st'))
      ]

  process_chained_fixups-walk_all :
      (rounds : ℕ) (segments : List SegmentStarts) (st : ChainState)
      → process_chained_fixups mh_addr slide resolve rounds segments st
        ≡ walk_all rounds (image_chains mh_addr segments) st
  unfolding process_chained_fixups walk_all
  process_chained_fixups-walk_all rounds [] st = refl
  process_chained_fixups-walk_all rounds (seg ∷ segments) st =
      elim (Bool-cases (seg.pointer_format == 2 || seg.pointer_format == 6)) [
        | inl e ↦
            rw (process_chained_fixups, e)
              (and_then_same
                  (walk_pages mh_addr slide resolve (seg.pointer_format == 6) rounds
                    (mh_addr + seg.segment_offset) seg.page_size 0 seg.page_start st)
                  (process_chained_fixups-walk_all rounds segments)
                ∙ sym (
                    walk_pages-walk_all (seg.pointer_format == 6) rounds
                      (mh_addr + seg.segment_offset) seg.page_size 0 seg.page_start
                      (image_chains mh_addr segments) st))
        | inr e ↦
            rw (process_chained_fixups, e) (process_chained_fixups-walk_all rounds segments st)
      ]

  module _
      (resolve_fits : (ordinal : ℕ) (addend : ℤ) (loc : ℕ)
        → resolve ordinal addend loc < 2 ^ 64) where
    walk_all-fixed :
        (chains : List Chain) (rounds : ℕ) (st : ChainState)
        → IsLaidOut st.memory rounds chains
        → (st' : ChainState) × (walk_all rounds (starts_of chains) st ≡ some st')
          × AllChainsFixed st'.memory chains
          × (st'.rebases_applied ≡ st.rebases_applied + rebases_of chains)
          × ((x : ℕ) → OutsideChains x chains → st'.memory x ≡ st.memory x)
          × ((b : ℕ) → AllAbove (b + 8) chains → load64 st'.memory b ≡ load64 st.memory b)
    unfolding walk_all
    walk_all-fixed [] rounds st laid =
        (st, refl, tt, omega arith, λ x outside. refl, λ b above. refl)
    walk_all-fixed (c ∷ chains) rounds st (chain, enough, apart, laid) =
        let e : ℕ = chain_end c.start c.rest in
        let (st1, run, all, count, kept, same) =
          walk_chain-IsFixed mh_addr slide resolve c.is_offset resolve_fits c.first c.rest rounds
            c.start st chain enough in
        let laid' =
          IsLaidOut-kept st.memory st1.memory e rounds chains (λ b above. same b (inr above)) apart
            laid in
        let (st2, run', all', count', kept', same') = walk_all-fixed chains rounds st1 laid' in
        (
          st2,
          rw (walk_all, run) run',
          (
            AllFixed-kept c.is_offset st.memory st1.memory st2.memory e c.start c.first c.rest
                (λ b below. same' b (AllAbove-le (b + 8) e chains below apart)) (omega arith) chain
                all,
            all',
          ),
          omega (arith, count, count'),
          λ x (outside, others). kept' x others ∙ kept x outside,
          λ b (below, others). same' b others ∙ same b (inl below),
        )

  -- If the chains that the pages of an image's segments start are laid out as the linker does it, each above the ones
  -- before it, in increasing order and its pointers at least eight bytes apart, and there is a round for each pointer of
  -- a chain, then all of them are walked to their ends. Every place of a chain then holds, by its segment's format, the
  -- header's address or the slide plus the target, with its high byte, or what the import resolves to with the
  -- sign-extended addend; the rebases are counted and no other byte has changed. What an import resolves to fits 64
  -- bits.
  pub process_chained_fixups-AllChainsFixed :
      (segments : List SegmentStarts) (chains : List Chain) (rounds : ℕ) (st : ChainState)
      → ((ordinal : ℕ) (addend : ℤ) (loc : ℕ) → resolve ordinal addend loc < 2 ^ 64)
      → image_chains mh_addr segments ≡ starts_of chains
      → IsLaidOut st.memory rounds chains
      → (st' : ChainState) × (process_chained_fixups mh_addr slide resolve rounds segments st
          ≡ some st')
        × AllChainsFixed st'.memory chains
        × (st'.rebases_applied ≡ st.rebases_applied + rebases_of chains)
        × ((x : ℕ) → OutsideChains x chains → st'.memory x ≡ st.memory x)
  process_chained_fixups-AllChainsFixed segments chains rounds st resolve_fits same laid =
      let (st', run, all, count, kept, _) = walk_all-fixed resolve_fits chains rounds st laid in
      (
        st',
        process_chained_fixups-walk_all rounds segments st
            ∙ ap (λ starts. walk_all rounds starts st) same
            ∙ run,
        all,
        count,
        kept,
      )
