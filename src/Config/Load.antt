-- ===== src/Config/Load.antt =====
-- `config_load` of src/config.c, after a successful `fopen`. The file is the list of the buffers that
-- `fgets` fills; the arrays of the configuration are the lists of their first `num_…` elements.
use machgate.Base.{ℕ, zero, suc, ◌==◌, ltb, if◌then◌else◌, Bool, false, ◌||◌, List, [], ◌∷◌}
use machgate.Base.{◌++◌, length, Option, some, none}
use machgate.Config.Text.{Bytes, codes, strip, str_eq, after_prefix, split_at}

abbrev pub max_trampolines : ℕ
max_trampolines = 8

abbrev pub max_prefixes : ℕ
max_prefixes = 8

abbrev pub max_dylib_patches : ℕ
max_dylib_patches = 8

pub record Trampoline : Type 0 where
  pub name : Bytes
  pub lib : Option Bytes
  pub prefixes : List Bytes
  pub init_wrapper : Bool
  pub renderer : Option Bytes
  pub override_lib : Option Bytes
  pub match_local : Bool

pub record DylibPatch : Type 0 where
  pub dylib : Bytes
  pub patches : Option Bytes

pub record Config : Type 0 where
  pub dylib_map : Option Bytes
  pub patches : Option Bytes
  pub trampolines : List Trampoline
  pub dylib_patches : List DylibPatch

-- `cur_dylib_patch` and `cur_tramp`, of which at most one is not null, as indices.
pub data Section : Type 0 where
  general : Section
  dylib_patch : (index : ℕ) → Section
  trampoline : (index : ℕ) → Section

pub record State : Type 0 where
  pub cfg : Config
  pub section : Section

abbrev pub empty_config : Config
empty_config = record { dylib_map = none; patches = none; trampolines = []; dylib_patches = [] }

abbrev pub new_trampoline : Bytes → Trampoline
new_trampoline name = record {
  name = name;
  lib = none;
  prefixes = [];
  init_wrapper = false;
  renderer = none;
  override_lib = none;
  match_local = false;
}

-- A write through a pointer to one element.
abbrev pub modify {ℓ} : {A : Type ℓ} → List A → ℕ → (A → A) → List A
modify [] i f = []
modify (x ∷ xs) zero f = f x ∷ xs
modify (x ∷ xs) (suc i) f = x ∷ modify xs i f

abbrev pub is_true : Bytes → Bool
is_true val = str_eq val (codes "true") || str_eq val (codes "1")

unfoldable pub open_trampoline : Bytes → Config → State
open_trampoline name cfg =
    if ltb (length cfg.trampolines) max_trampolines
    then record {
      cfg = record cfg { trampolines = cfg.trampolines ++ (new_trampoline name ∷ []) };
      section = trampoline (length cfg.trampolines);
    }
    else record { cfg = cfg; section = general }

unfoldable pub open_dylib_patch : Bytes → Config → State
open_dylib_patch name cfg =
    if ltb (length cfg.dylib_patches) max_dylib_patches
    then record {
      cfg = record cfg {
        dylib_patches = cfg.dylib_patches ++ (record { dylib = name; patches = none } ∷ []);
      };
      section = dylib_patch (length cfg.dylib_patches);
    }
    else record { cfg = cfg; section = general }

-- A section header, after its `]` is cut off.
unfoldable pub open_section : Bytes → Config → State
open_section s cfg =
    if str_eq s (codes "general")
    then record { cfg = cfg; section = general }
    else elim (after_prefix (codes "trampoline.") s) [
      | some name ↦ open_trampoline name cfg
      | none ↦ elim (after_prefix (codes "dylib_patch.") s) [
        | some name ↦ open_dylib_patch name cfg
        | none ↦ record { cfg = cfg; section = general }
      ]
    ]

unfoldable pub set_dylib_patch : Bytes → Bytes → DylibPatch → DylibPatch
set_dylib_patch key val dp =
    if str_eq key (codes "patches") then record dp { patches = some val } else dp

unfoldable pub set_trampoline : Bytes → Bytes → Trampoline → Trampoline
set_trampoline key val t =
    if str_eq key (codes "lib")
    then record t { lib = some val }
    else if str_eq key (codes "prefix")
    then (if ltb (length t.prefixes) max_prefixes
        then record t { prefixes = t.prefixes ++ (val ∷ []) }
        else t)
    else if str_eq key (codes "init_wrapper")
    then record t { init_wrapper = is_true val }
    else if str_eq key (codes "renderer")
    then record t { renderer = some val }
    else if str_eq key (codes "override_lib")
    then record t { override_lib = some val }
    else if str_eq key (codes "match_local")
    then record t { match_local = is_true val }
    else t

unfoldable pub set_general : Bytes → Bytes → Config → Config
set_general key val cfg =
    if str_eq key (codes "dylib_map")
    then record cfg { dylib_map = some val }
    else if str_eq key (codes "patches")
    then record cfg { patches = some val }
    else cfg

unfoldable pub set_in : Section → Bytes → Bytes → Config → Config
set_in (dylib_patch i) key val cfg = record cfg {
  dylib_patches = modify cfg.dylib_patches i (set_dylib_patch key val);
}
set_in (trampoline i) key val cfg = record cfg {
  trampolines = modify cfg.trampolines i (set_trampoline key val);
}
set_in general key val cfg = set_general key val cfg

unfoldable pub assign : Bytes → State → State
assign s st = elim (split_at b'=' s) [
  | none ↦ st
  | some (key, val) ↦ record st { cfg = set_in st.section (strip key) (strip val) st.cfg }
]

-- One turn of the loop, on the stripped line.
unfoldable pub load_stripped : Bytes → State → State
load_stripped [] st = st
load_stripped (c ∷ s) st =
    if (c == b'#') || (c == b';')
    then st
    else if c == b'['
    then elim (split_at b']' s) [ none ↦ st | some (title, after) ↦ open_section title st.cfg ]
    else assign (c ∷ s) st

unfoldable pub load_line : Bytes → State → State
load_line line st = load_stripped (strip line) st

unfoldable pub load_lines : List Bytes → State → State
load_lines [] st = st
load_lines (line ∷ lines) st = load_lines lines (load_line line st)

unfoldable pub config_load : List Bytes → Config
config_load lines = (load_lines lines (record { cfg = empty_config; section = general })).cfg
