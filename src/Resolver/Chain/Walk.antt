-- ===== src/Resolver/Chain/Walk.antt =====
-- The walk of a chain of pointers as the linker lays it out.
use machgate.Base.{
  ℕ, zero, suc, ◌+◌, ◌*◌, ◌^◌, ◌<◌, ◌≤◌, ◌≡◌, inl, inr, ◌⊎◌, refl, arith, ap, ap₂, ◌∙◌, ne→==_false,
  Bool, if◌then◌else◌, List, [], ◌∷◌, length, some, u64, ◌<<<◌, ℤ,
}
use machgate.Base.Bits.{or-lt}
use machgate.Memory.{Memory}
use machgate.Memory.Words.{
  AreApart, load64, store64, OutsideAll, load64-store64, load64-store64_apart, store64-Outside,
}
use machgate.Resolver.Chain.{fixup_ptr_next, to_int8, ChainState, fix, walk_chain}
use machgate.Resolver.Chain.Fixed.{
  Fixup, rebase, bind, FixupFits, raw_of, rebases, value_of, raw-next, raw-fixed,
}

-- A pointer at a place, and behind it the next ones with their distances in words of four bytes.
abbrev pub IsChain : (m : Memory) (loc : ℕ) → Fixup → List (ℕ × Fixup) → Type 0
IsChain m loc f [] = (load64 m loc ≡ raw_of f 0) × FixupFits f
IsChain m loc f ((gap, g) ∷ rest) =
    (load64 m loc ≡ raw_of f gap)
    × FixupFits f
    × (2 ≤ gap)
    × (gap < 2 ^ 12)
    × IsChain m (loc + gap * 4) g rest

abbrev pub places : (loc : ℕ) → List (ℕ × Fixup) → List ℕ
places loc [] = loc ∷ []
places loc ((gap, g) ∷ rest) = loc ∷ places (loc + gap * 4) rest

abbrev pub rebases_in : Fixup → List (ℕ × Fixup) → ℕ
rebases_in f [] = rebases f
rebases_in f ((gap, g) ∷ rest) = rebases f + rebases_in g rest

abbrev pub chain_end : (loc : ℕ) → List (ℕ × Fixup) → ℕ
chain_end loc [] = loc + 8
chain_end loc ((gap, g) ∷ rest) = chain_end (loc + gap * 4) rest

-- Below or above a chain.
abbrev pub IsClear : (b loc : ℕ) → List (ℕ × Fixup) → Type 0
IsClear b loc rest = (b + 8 ≤ loc) ⊎ (chain_end loc rest ≤ b)

pub chain_end-le :
    (m : Memory) (loc : ℕ) (f : Fixup) (rest : List (ℕ × Fixup))
    → IsChain m loc f rest
    → loc + 8 ≤ chain_end loc rest
chain_end-le m loc f [] chain = omega arith
chain_end-le m loc f ((gap, g) ∷ rest) (here, fits, apart, small, chain) =
    omega (arith, chain_end-le m (loc + gap * 4) g rest chain)

IsClear-rest :
    (m : Memory) (b loc gap : ℕ) (g : Fixup) (rest : List (ℕ × Fixup))
    → 2 ≤ gap
    → IsChain m (loc + gap * 4) g rest
    → IsClear b loc ((gap, g) ∷ rest)
    → IsClear b (loc + gap * 4) rest × AreApart b loc
IsClear-rest m b loc gap g rest apart chain (inl below) = (inl (omega arith), inl below)
IsClear-rest m b loc gap g rest apart chain (inr above) =
    (inr above, inr (omega (arith, chain_end-le m (loc + gap * 4) g rest chain)))

IsChain-store64 :
    (m : Memory) (a v loc : ℕ) (f : Fixup) (rest : List (ℕ × Fixup))
    → a + 8 ≤ loc
    → IsChain m loc f rest
    → IsChain (store64 m a v) loc f rest
IsChain-store64 m a v loc f [] below (here, fits) =
    (load64-store64_apart m a v loc (inr below) ∙ here, fits)
IsChain-store64 m a v loc f ((gap, g) ∷ rest) below (here, fits, apart, small, chain) = (
  load64-store64_apart m a v loc (inr below) ∙ here,
  fits,
  apart,
  small,
  IsChain-store64 m a v (loc + gap * 4) g rest (omega arith) chain,
)

module _ (mh_addr slide : ℕ) (resolve : (ordinal : ℕ) → (addend : ℤ) → (loc : ℕ) → ℕ)
    (is_offset : Bool) where
  abbrev pub AllFixed : (m : Memory) (loc : ℕ) → Fixup → List (ℕ × Fixup) → Type 0
  AllFixed m loc f [] = load64 m loc ≡ value_of mh_addr slide resolve is_offset f loc
  AllFixed m loc f ((gap, g) ∷ rest) =
      (load64 m loc ≡ value_of mh_addr slide resolve is_offset f loc)
      × AllFixed m (loc + gap * 4) g rest

  abbrev counted : Memory → (rebases_applied : ℕ) → ChainState
  counted memory rebases_applied = record { memory = memory; rebases_applied = rebases_applied }

  abbrev put : Fixup → (loc : ℕ) → ChainState → ChainState
  put f loc st = record {
    memory = store64 st.memory loc (value_of mh_addr slide resolve is_offset f loc);
    rebases_applied = st.rebases_applied + rebases f;
  }

  fix-raw :
      (f : Fixup) (gap loc : ℕ) (st : ChainState)
      → load64 st.memory loc ≡ raw_of f gap
      → FixupFits f
      → gap < 2 ^ 12
      → fix mh_addr slide resolve is_offset loc st ≡ put f loc st
  fix-raw (rebase target high8) gap loc st here fits small =
      let (value, kind) =
        raw-fixed mh_addr slide resolve is_offset (rebase target high8) gap loc fits small in
      rw (here, value, kind) refl
  fix-raw (bind ordinal addend) gap loc st here fits small =
      let (value, kind) =
        raw-fixed mh_addr slide resolve is_offset (bind ordinal addend) gap loc fits small in
      rw (here, value, kind)
        (ap (counted (store64 st.memory loc (resolve ordinal (to_int8 addend) loc))) (omega arith))

  walk-last :
      (f : Fixup) (rounds loc : ℕ) (st : ChainState)
      → load64 st.memory loc ≡ raw_of f 0
      → FixupFits f
      → walk_chain mh_addr slide resolve is_offset (suc rounds) loc st ≡ some (put f loc st)
  unfolding walk_chain
  walk-last f rounds loc st here fits =
      let next =
        ap fixup_ptr_next here ∙ raw-next mh_addr slide resolve is_offset f 0 fits (omega arith) in
      rw (walk_chain, next) (ap some (fix-raw f 0 loc st here fits (omega arith)))

  walk-next :
      (f : Fixup) (gap rounds loc : ℕ) (st : ChainState)
      → load64 st.memory loc ≡ raw_of f gap
      → FixupFits f
      → 2 ≤ gap
      → gap < 2 ^ 12
      → walk_chain mh_addr slide resolve is_offset (suc rounds) loc st
        ≡ walk_chain mh_addr slide resolve is_offset rounds (loc + gap * 4) (put f loc st)
  unfolding walk_chain
  walk-next f gap rounds loc st here fits apart small =
      let next =
        ap fixup_ptr_next here ∙ raw-next mh_addr slide resolve is_offset f gap fits small in
      rw (walk_chain, next, ne→==_false gap 0 (omega arith))
        (ap₂ (λ n chained. walk_chain mh_addr slide resolve is_offset rounds (loc + n * 4) chained)
          next (fix-raw f gap loc st here fits small))

  module _
      (resolve_fits : (ordinal : ℕ) (addend : ℤ) (loc : ℕ)
        → resolve ordinal addend loc < 2 ^ 64) where
    value_fits :
        (f : Fixup) (loc : ℕ)
        → FixupFits f
        → value_of mh_addr slide resolve is_offset f loc < 2 ^ 64
    value_fits (rebase target high8) loc (t, h) =
        or-lt 64 (u64 ((if is_offset then mh_addr else slide) + target)) (high8 <<< 56)
          (omega arith) (omega arith)
    value_fits (bind ordinal addend) loc fits = resolve_fits ordinal (to_int8 addend) loc

    -- A chain is walked to its last pointer when there is a round for each: every place of it is fixed, the rebases
    -- are counted, and neither another byte nor a word below or above the chain has changed.
    pub walk_chain-IsFixed :
        (f : Fixup) (rest : List (ℕ × Fixup)) (rounds loc : ℕ) (st : ChainState)
        → IsChain st.memory loc f rest
        → length rest < rounds
        → (st' : ChainState) × (walk_chain mh_addr slide resolve is_offset rounds loc st ≡ some st')
          × AllFixed st'.memory loc f rest
          × (st'.rebases_applied ≡ st.rebases_applied + rebases_in f rest)
          × ((x : ℕ) → OutsideAll x (places loc rest) → st'.memory x ≡ st.memory x)
          × ((b : ℕ) → IsClear b loc rest → load64 st'.memory b ≡ load64 st.memory b)
    walk_chain-IsFixed f rest zero loc st chain enough = absurd (omega arith)
    walk_chain-IsFixed f [] (suc rounds) loc st (here, fits) enough =
        let value = value_of mh_addr slide resolve is_offset f loc in
        (
          put f loc st,
          walk-last f rounds loc st here fits,
          load64-store64 st.memory loc value (value_fits f loc fits),
          refl,
          λ x (outside, _). store64-Outside st.memory loc value x outside,
          λ b clear. load64-store64_apart st.memory loc value b clear,
        )
    walk_chain-IsFixed f ((gap, g) ∷ rest) (suc rounds) loc st (here, fits, apart, small, chain)
          enough =
        let value = value_of mh_addr slide resolve is_offset f loc in
        let later =
          IsChain-store64 st.memory loc value (loc + gap * 4) g rest (omega arith) chain in
        let (st', run, all, count, kept, others) =
          walk_chain-IsFixed g rest rounds (loc + gap * 4) (put f loc st) later (omega arith) in
        (
          st',
          walk-next f gap rounds loc st here fits apart small ∙ run,
          (
            others loc (inl (omega arith))
                ∙ load64-store64 st.memory loc value (value_fits f loc fits),
            all,
          ),
          omega (arith, count),
          λ x (outside, later_outside).
              kept x later_outside ∙ store64-Outside st.memory loc value x outside,
          λ b clear.
              (let (behind, apart_here) =
                  IsClear-rest st.memory b loc gap g rest apart chain clear in
                others b behind ∙ load64-store64_apart st.memory loc value b apart_here),
        )
