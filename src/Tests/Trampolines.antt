-- ===== src/Tests/Trampolines.antt =====
-- src/trampoline.c at concrete inputs.
use machgate.Base.{
  ℕ, inl, ◌⊎◌, ◌≢◌, refl, arith, ◌==◌, ◌≡◌, if◌then◌else◌, true, false, List, [], ◌∷◌, some,
}
use machgate.Trampoline.{
  State, Symbol, Text, override_of, get_stub_island, make_abort_island, get_abort_caller,
  trampoline_patch_overrides,
}
use machgate.Trampoline.Mangling.{occurrences, variant, try_masks, try_mangling_variants}
use machgate.Trampoline.Mangling.Search.{IsVariant, try_mangling_variants-Searched}
use machgate.Trampoline.Overrides.{IsOverridden, overrides-IsOverridden}

abbrev pool : State
pool = record {
  memory = λ x. 0;
  island_pool = 0x200000;
  island_pool_size = 64;
  island_pool_used = 0;
  stub_island_addr = 0;
  abort_caller_addr = 0;
}

abbrev text : Text
text = record { text_patch_base = 0x100000; text_patch_size = 0x1000; slide = 0 }

-- "_f", "g" and "_h"
abbrev symbols : List Symbol
symbols =
    record { n_type = 0x0F; n_value = 0x100100; name = some (b'_' ∷ b'f' ∷ []) }
    ∷ record { n_type = 0x0E; n_value = 0x100200; name = some (b'g' ∷ []) }
    ∷ record { n_type = 0x0F; n_value = 0x100300; name = some (b'_' ∷ b'h' ∷ []) }
    ∷ []

-- There are natives for "f" and "g".
abbrev dlsym : List ℕ → ℕ
dlsym [] = 0
dlsym (c ∷ name) = if c == b'f' then 0x7000 else if c == b'g' then 0x8000 else 0

local_is_skipped :
    override_of text dlsym false
      (record { n_type = 0x0E; n_value = 0x100200; name = some (b'g' ∷ []) })
    ≡ 0
unfolding override_of
local_is_skipped = refl

stub_is_shared :
    let (first, s1) = get_stub_island pool in
    (first ≡ 0x200000) × ((get_stub_island s1).0 ≡ 0x200000) × (s1.island_pool_used ≡ 16)
unfolding get_stub_island
stub_is_shared = (refl, refl, refl)

abort_islands_share_the_caller :
    let (first, s1) = make_abort_island 0x9000 1 pool in
    let (second, s2) = make_abort_island 0x9000 2 s1 in
    (first ≡ 0x200010) × (second ≡ 0x200020) × (s2.abort_caller_addr ≡ 0x200000)
unfolding make_abort_island get_abort_caller
abort_islands_share_the_caller = (refl, refl, refl)

overrides-IsOverridden_example :
    IsOverridden text dlsym true symbols pool
      (trampoline_patch_overrides text dlsym true symbols pool)
unfolding override_of
overrides-IsOverridden_example =
    overrides-IsOverridden text dlsym true symbols pool
      (record {
        is_set = omega arith;
        is_aligned = refl;
        used_is_aligned = refl;
        fits = omega arith;
      })
      (
        λ ne. (
          (omega arith, omega arith, refl, inl (omega arith)),
          omega arith,
          (λ ne'. inl (omega arith), (λ ne'. inl (omega arith), tt)),
        ),
        (
          λ ne. (
            (omega arith, omega arith, refl, inl (omega arith)),
            omega arith,
            (λ ne'. inl (omega arith), tt),
          ),
          (λ ne. absurd (ne refl), tt),
        ),
      )

-- "Ey", and a library that has "Em".
abbrev mangled : List ℕ
mangled = b'E' ∷ b'y' ∷ []

abbrev has_em : List ℕ → ℕ
has_em [] = 0
has_em (c ∷ []) = 0
has_em (c ∷ d ∷ name) = if d == b'm' then 0x7000 else 0

finds_em : try_mangling_variants has_em mangled ≡ 0x7000
unfolding try_mangling_variants try_masks variant occurrences
finds_em = refl

try_mangling_variants-Searched_example :
    (try_mangling_variants has_em mangled ≢ 0
      → (name' : List ℕ) × (IsVariant b'y' b'm' mangled name' ⊎ IsVariant b'm' b'y' mangled name')
        × (has_em name' ≡ try_mangling_variants has_em mangled))
    × (try_mangling_variants has_em mangled ≡ 0
        → occurrences 16 b'y' mangled ≢ 0
        → (name' : List ℕ) → (IsVariant b'y' b'm' mangled name' ⊎ IsVariant b'm' b'y' mangled name')
        → name' ≢ mangled
        → has_em name' ≡ 0)
try_mangling_variants-Searched_example =
    try_mangling_variants-Searched has_em mangled (omega arith) (omega arith)
