-- ===== src/Tests/Chains.antt =====
-- The chained fixups of src/resolver.c at concrete inputs.
use machgate.Base.{ℕ, ◌+◌, ◌≡◌, refl, arith, true, List, [], ◌∷◌, some, ℤ, false}
use machgate.Memory.{store}
use machgate.Memory.Words.{load64, store64}
use machgate.Resolver.Chain.{
  ChainState, SegmentStarts, walk_chain, walk_pages, process_chained_fixups,
}
use machgate.Resolver.Chain.Fixed.{Fixup, rebase, bind, raw_of}
use machgate.Resolver.Chain.Layout.{Chain, IsLaidOut, OutsideChains, rebases_of}
use machgate.Resolver.Chain.Pages.{AllChainsFixed, process_chained_fixups-AllChainsFixed}

abbrev resolve_import : (ordinal : ℕ) (addend : ℤ) (loc : ℕ) → ℕ
resolve_import ordinal addend loc = 0x7000 + ordinal

abbrev chained : List (ℕ × Fixup)
chained = (2, bind 3 0xFF) ∷ (4, rebase 0x2340 0) ∷ []

-- A rebase, a bind eight bytes on, and a rebase sixteen bytes behind it.
abbrev chain_start : ChainState
chain_start = record {
  memory =
      store64
        (store64 (store64 (λ x. 0) 0xC000 (raw_of (rebase 0x1230 0x80) 2)) 0xC008
          (raw_of (bind 3 0xFF) 4))
        0xC018 (raw_of (rebase 0x2340 0) 0);
  rebases_applied = 0;
}

-- A page with the chain, one with none, a segment of another format, and one of addresses.
abbrev segments : List SegmentStarts
segments =
    record {
      pointer_format = 6;
      segment_offset = 0x8000;
      page_size = 0x1000;
      page_start = 0 ∷ 0xFFFF ∷ [];
    }
    ∷ record {
      pointer_format = 1;
      segment_offset = 0x9000;
      page_size = 0x1000;
      page_start = 0 ∷ [];
    }
    ∷ record {
      pointer_format = 2;
      segment_offset = 0xA000;
      page_size = 0x1000;
      page_start = 0xFFFF ∷ 8 ∷ [];
    }
    ∷ []

abbrev chains : List Chain
chains =
    record { is_offset = true; start = 0xC000; first = rebase 0x1230 0x80; rest = chained }
    ∷ record { is_offset = false; start = 0xF008; first = rebase 0x5550 0; rest = [] }
    ∷ []

abbrev image_start : ChainState
image_start = record {
  memory = store64 chain_start.memory 0xF008 (raw_of (rebase 0x5550 0) 0);
  rebases_applied = 0;
}

chains-IsLaidOut : IsLaidOut image_start.memory 3 chains
unfolding store
chains-IsLaidOut = (
  (
    refl,
    (omega arith, omega arith),
    omega arith,
    omega arith,
    (
      refl,
      (omega arith, omega arith),
      omega arith,
      omega arith,
      (refl, (omega arith, omega arith)),
    ),
  ),
  omega arith,
  (omega arith, tt),
  ((refl, (omega arith, omega arith)), omega arith, tt, tt),
)

abbrev always_7003 : (ordinal : ℕ) → (addend : ℤ) → (loc : ℕ) → ℕ
always_7003 ordinal addend loc = 0x7003

process_chained_fixups-AllChainsFixed_example :
    (st' : ChainState) × (process_chained_fixups 0x4000 0x100 always_7003 3 segments image_start
      ≡ some st')
    × AllChainsFixed 0x4000 0x100 always_7003 st'.memory chains
    × (st'.rebases_applied ≡ 0 + rebases_of chains)
    × ((x : ℕ) → OutsideChains x chains → st'.memory x ≡ image_start.memory x)
process_chained_fixups-AllChainsFixed_example =
    process_chained_fixups-AllChainsFixed 0x4000 0x100 always_7003 segments chains 3 image_start
      (λ ordinal addend loc. omega arith) refl chains-IsLaidOut

image_is_fixed :
    (st : ChainState) × (process_chained_fixups 0x4000 0x100 resolve_import 3 segments image_start
      ≡ some st)
    × (load64 st.memory 0xC000 ≡ 0x8000000000005230)
    × (load64 st.memory 0xC008 ≡ 0x7003)
    × (load64 st.memory 0xC018 ≡ 0x6340)
    × (load64 st.memory 0xF008 ≡ 0x5650)
    × (st.rebases_applied ≡ 3)
unfolding process_chained_fixups walk_pages walk_chain store
image_is_fixed = (_, refl, refl, refl, refl, refl, refl)
