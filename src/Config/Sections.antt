-- ===== src/Config/Sections.antt =====
-- A key of a section changes that section alone; and where the keys of a section without a slot go.
use machgate.Base.{ℕ, zero, suc, ◌≡◌, refl, ◌≢◌, arith, ap}
use machgate.Base.{List, [], ◌∷◌, ◌++◌, length, some, get_elem?}
use machgate.Config.Bounds.{length-modify}
use machgate.Config.Text.{Bytes, codes, strip, str_eq, after_prefix, split_at}
use machgate.Config.Load.{
  max_dylib_patches, Config, Section, general, dylib_patch, trampoline, State, modify,
  open_dylib_patch, open_section, set_dylib_patch, set_trampoline, set_general, set_in, assign,
  load_stripped,
}

-- What an assignment in a section leaves alone.
abbrev KeepsOthers : Section → Config → Config → Type 0
KeepsOthers general cfg cfg' =
    (cfg'.trampolines ≡ cfg.trampolines) × (cfg'.dylib_patches ≡ cfg.dylib_patches)
KeepsOthers (dylib_patch i) cfg cfg' =
    (cfg'.dylib_map ≡ cfg.dylib_map)
    × (cfg'.patches ≡ cfg.patches)
    × (cfg'.trampolines ≡ cfg.trampolines)
    × ((j : ℕ) → i ≢ j → get_elem? cfg'.dylib_patches j ≡ get_elem? cfg.dylib_patches j)
    × (length cfg'.dylib_patches ≡ length cfg.dylib_patches)
KeepsOthers (trampoline i) cfg cfg' =
    (cfg'.dylib_map ≡ cfg.dylib_map)
    × (cfg'.patches ≡ cfg.patches)
    × (cfg'.dylib_patches ≡ cfg.dylib_patches)
    × ((j : ℕ) → i ≢ j → get_elem? cfg'.trampolines j ≡ get_elem? cfg.trampolines j)
    × (length cfg'.trampolines ≡ length cfg.trampolines)

get_elem?-modify_ne {ℓ} :
    {A : Type ℓ} (xs : List A) (i j : ℕ) (f : A → A)
    → i ≢ j
    → get_elem? (modify xs i f) j ≡ get_elem? xs j
get_elem?-modify_ne [] i j f h = refl
get_elem?-modify_ne (x ∷ xs) zero zero f h = absurd (h refl)
get_elem?-modify_ne (x ∷ xs) zero (suc j) f h = refl
get_elem?-modify_ne (x ∷ xs) (suc i) zero f h = refl
get_elem?-modify_ne (x ∷ xs) (suc i) (suc j) f h = get_elem?-modify_ne xs i j f (λ e. h (ap suc e))

-- A `key = value` line changes at most the element of the section that it stands in: outside every
-- section the two general paths, inside one that trampoline or dylib patch and nothing else.
set_in-KeepsOthers :
    (section : Section) (key val : Bytes) (cfg : Config)
    → KeepsOthers section cfg (set_in section key val cfg)
unfolding set_in set_general
set_in-KeepsOthers general key val cfg = ground arith
set_in-KeepsOthers (dylib_patch i) key val cfg = (
  refl,
  refl,
  refl,
  λ j h. get_elem?-modify_ne cfg.dylib_patches i j (set_dylib_patch key val) h,
  length-modify cfg.dylib_patches i (set_dylib_patch key val),
)
set_in-KeepsOthers (trampoline i) key val cfg = (
  refl,
  refl,
  refl,
  λ j h. get_elem?-modify_ne cfg.trampolines i j (set_trampoline key val) h,
  length-modify cfg.trampolines i (set_trampoline key val),
)

full_section :
    (name : Bytes) (cfg : Config)
    → length cfg.dylib_patches ≡ max_dylib_patches
    → open_section (codes "dylib_patch." ++ name) cfg ≡ record { cfg = cfg; section = general }
unfolding open_section open_dylib_patch str_eq after_prefix
full_section name cfg full = ground arith

patches_line :
    (val : Bytes) (cfg : Config)
    → assign (codes "patches=" ++ val) (record { cfg = cfg; section = general })
      ≡ record { cfg = record cfg { patches = some (strip val) }; section = general }
unfolding assign split_at set_in set_general str_eq strip
patches_line val cfg = refl

abbrev Lacks : ℕ → Bytes → Type 0
Lacks c [] = Unit {0}
Lacks c (d ∷ s) = (d ≢ c) × Lacks c s

split_at-append :
    (c : ℕ) (s after : Bytes) → Lacks c s → split_at c (s ++ (c ∷ after)) ≡ some (s, after)
unfolding split_at
split_at-append c [] after h = ground arith
split_at-append c (d ∷ s) after h = ground (arith, split_at-append c s after h.1)

-- Once the 8 dylib patches are in use, the `patches` key of a further `[dylib_patch.…]` section is taken
-- for the general one: it replaces the patch file of the main binary, and no dylib patch is added.
overflowing_section-sets-patches :
    (name val after : Bytes) (st : State)
    → length st.cfg.dylib_patches ≡ max_dylib_patches
    → Lacks b']' name
    → let header = codes "[dylib_patch." ++ (name ++ (b']' ∷ after)) in
      let st' = load_stripped (codes "patches=" ++ val) (load_stripped header st) in
      (st'.cfg.patches ≡ some (strip val)) × (st'.cfg.dylib_patches ≡ st.cfg.dylib_patches)
unfolding load_stripped
overflowing_section-sets-patches name val after st full lacks =
    let title : split_at b']' (codes "dylib_patch." ++ (name ++ (b']' ∷ after)))
        ≡ some (codes "dylib_patch." ++ name, after) =
      split_at-append b']' (codes "dylib_patch." ++ name) after (ground arith) in
    rw title (rw (full_section name st.cfg full, patches_line val st.cfg) (refl, refl))
