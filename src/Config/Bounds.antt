-- ===== src/Config/Bounds.antt =====
-- The fixed arrays of `machgate_config_t` are never overrun, and the section pointers stay valid.
use machgate.Base.{ℕ, zero, suc, ◌≤◌, ◌<◌, ◌≡◌, refl, inl, inr, arith, ltb, ap}
use machgate.Base.{List, [], ◌∷◌, ◌++◌, length, length-append, Option, some, none, Option-cases}
use machgate.Base.{Bool-cases, ◌==◌, ◌||◌}
use machgate.Config.Text.{Bytes, codes, strip, str_eq, split_at}
use machgate.Config.Load.{
  max_trampolines, max_prefixes, max_dylib_patches, Trampoline, DylibPatch, Config, Section,
  general, dylib_patch, trampoline, State, new_trampoline, modify, open_trampoline,
  open_dylib_patch, open_section, set_dylib_patch, set_trampoline, set_general, set_in, assign,
  load_stripped, load_line, load_lines, config_load,
}

abbrev pub ShortPrefixes : List Trampoline → Type 0
ShortPrefixes [] = Unit {0}
ShortPrefixes (t ∷ ts) = (length t.prefixes ≤ max_prefixes) × ShortPrefixes ts

-- The arrays fit their declared sizes.
pub record ConfigFits (cfg : Config) : Type 0 where
  pub trampolines_fit : length cfg.trampolines ≤ max_trampolines
  pub dylib_patches_fit : length cfg.dylib_patches ≤ max_dylib_patches
  pub prefixes_fit : ShortPrefixes cfg.trampolines

-- The section pointer points at an element in use.
abbrev pub SectionExists : Section → Config → Type 0
SectionExists general cfg = Unit {0}
SectionExists (dylib_patch i) cfg = i < length cfg.dylib_patches
SectionExists (trampoline i) cfg = i < length cfg.trampolines

pub record IsSound (st : State) : Type 0 where
  pub fits : ConfigFits st.cfg
  pub points : SectionExists st.section st.cfg

pub length-modify {ℓ} :
    {A : Type ℓ} (xs : List A) (i : ℕ) (f : A → A) → length (modify xs i f) ≡ length xs
length-modify [] i f = refl
length-modify (x ∷ xs) zero f = refl
length-modify (x ∷ xs) (suc i) f = ap suc (length-modify xs i f)

ShortPrefixes-append :
    (ts : List Trampoline) (name : Bytes)
    → ShortPrefixes ts
    → ShortPrefixes (ts ++ (new_trampoline name ∷ []))
ShortPrefixes-append [] name h = omega arith
ShortPrefixes-append (t ∷ ts) name h = (h.0, ShortPrefixes-append ts name h.1)

set_trampoline-prefixes :
    (key val : Bytes) (t : Trampoline)
    → length t.prefixes ≤ max_prefixes
    → length (set_trampoline key val t).prefixes ≤ max_prefixes
unfolding set_trampoline
set_trampoline-prefixes key val t h = ground (arith, length-append t.prefixes (val ∷ []))

ShortPrefixes-modify :
    (key val : Bytes) (ts : List Trampoline) (i : ℕ)
    → ShortPrefixes ts
    → ShortPrefixes (modify ts i (set_trampoline key val))
ShortPrefixes-modify key val [] i h = tt
ShortPrefixes-modify key val (t ∷ ts) zero h = (set_trampoline-prefixes key val t h.0, h.1)
ShortPrefixes-modify key val (t ∷ ts) (suc i) h = (h.0, ShortPrefixes-modify key val ts i h.1)

open_trampoline-IsSound :
    (name : Bytes) (cfg : Config) → ConfigFits cfg → IsSound (open_trampoline name cfg)
unfolding open_trampoline
open_trampoline-IsSound name cfg h =
    elim (Bool-cases (ltb (length cfg.trampolines) max_trampolines)) [
      | inl room ↦
          let size = length-append cfg.trampolines (new_trampoline name ∷ []) in
          rw room (record {
            fits = record {
              trampolines_fit = ground arith;
              dylib_patches_fit = h.dylib_patches_fit;
              prefixes_fit = ShortPrefixes-append cfg.trampolines name h.prefixes_fit;
            };
            points = omega arith;
          })
      | inr full ↦ rw full (record { fits = h; points = tt })
    ]

open_dylib_patch-IsSound :
    (name : Bytes) (cfg : Config) → ConfigFits cfg → IsSound (open_dylib_patch name cfg)
unfolding open_dylib_patch
open_dylib_patch-IsSound name cfg h =
    elim (Bool-cases (ltb (length cfg.dylib_patches) max_dylib_patches)) [
      | inl room ↦
          let entry : DylibPatch = record { dylib = name; patches = none } in
          let size = length-append cfg.dylib_patches (entry ∷ []) in
          rw room (record {
            fits = record {
              trampolines_fit = h.trampolines_fit;
              dylib_patches_fit = ground arith;
              prefixes_fit = h.prefixes_fit;
            };
            points = omega arith;
          })
      | inr full ↦ rw full (record { fits = h; points = tt })
    ]

by_prefix-IsSound :
    (cfg : Config) (at_trampoline at_dylib : Option Bytes)
    → ConfigFits cfg
    → IsSound (elim at_trampoline [
      | some name ↦ open_trampoline name cfg
      | none ↦ elim at_dylib [
        | some name ↦ open_dylib_patch name cfg
        | none ↦ record { cfg = cfg; section = general }
      ]
    ])
by_prefix-IsSound cfg (some name) o h = open_trampoline-IsSound name cfg h
by_prefix-IsSound cfg none (some name) h = open_dylib_patch-IsSound name cfg h
by_prefix-IsSound cfg none none h = record { fits = h; points = tt }

open_section-IsSound : (s : Bytes) (cfg : Config) → ConfigFits cfg → IsSound (open_section s cfg)
unfolding open_section
open_section-IsSound s cfg h = elim (Bool-cases (str_eq s (codes "general"))) [
  | inl is_general ↦ rw (is_general, open_section) (record { fits = h; points = tt })
  | inr other ↦ rw (other, open_section) (by_prefix-IsSound cfg _ _ h)
]

set_in-IsSound :
    (section : Section) (key val : Bytes) (cfg : Config)
    → ConfigFits cfg
    → SectionExists section cfg
    → ConfigFits (set_in section key val cfg) × SectionExists section (set_in section key val cfg)
unfolding set_in set_general
set_in-IsSound general key val cfg h p = ground arith
set_in-IsSound (dylib_patch i) key val cfg h p =
    let size = length-modify cfg.dylib_patches i (set_dylib_patch key val) in
    (
      record {
        trampolines_fit = h.trampolines_fit;
        dylib_patches_fit = omega arith;
        prefixes_fit = h.prefixes_fit;
      },
      omega arith,
    )
set_in-IsSound (trampoline i) key val cfg h p =
    let size = length-modify cfg.trampolines i (set_trampoline key val) in
    (
      record {
        trampolines_fit = omega arith;
        dylib_patches_fit = h.dylib_patches_fit;
        prefixes_fit = ShortPrefixes-modify key val cfg.trampolines i h.prefixes_fit;
      },
      omega arith,
    )

assign-IsSound : (s : Bytes) (st : State) → IsSound st → IsSound (assign s st)
unfolding assign
assign-IsSound s st h = elim (Option-cases (split_at b'=' s)) [
  | inl no_eq ↦ rw (no_eq, assign) h
  | inr ((key, val), e) ↦
      let (fits, points) =
        set_in-IsSound st.section (strip key) (strip val) st.cfg h.fits h.points in
      rw (e, assign) (record { fits = fits; points = points })
]

load_stripped-IsSound : (s : Bytes) (st : State) → IsSound st → IsSound (load_stripped s st)
unfolding load_stripped
load_stripped-IsSound [] st h = h
load_stripped-IsSound (c ∷ s) st h = elim (Bool-cases ((c == b'#') || (c == b';'))) [
  | inl comment ↦ rw (comment, load_stripped) h
  | inr other ↦
      rw (other, load_stripped)
        (elim (Bool-cases (c == b'[')) [
          | inl header ↦ rw header (elim (Option-cases (split_at b']' s)) [
            | inl open_ended ↦ rw open_ended h
            | inr ((title, after), e) ↦ rw e (open_section-IsSound title st.cfg h.fits)
          ])
          | inr pair ↦ rw pair (assign-IsSound (c ∷ s) st h)
        ])
]

load_lines-IsSound : (lines : List Bytes) (st : State) → IsSound st → IsSound (load_lines lines st)
unfolding load_lines load_line
load_lines-IsSound [] st h = h
load_lines-IsSound (line ∷ lines) st h =
    load_lines-IsSound lines (load_line line st) (load_stripped-IsSound (strip line) st h)

-- Whatever a file holds, the configuration read from it has at most 8 trampolines with at most 8
-- prefixes each, and at most 8 dylib patches: no array of it is written out of bounds.
pub config_load-ConfigFits : (lines : List Bytes) → ConfigFits (config_load lines)
unfolding config_load
config_load-ConfigFits lines =
    (load_lines-IsSound lines _ (record { fits = omega arith; points = tt })).fits
