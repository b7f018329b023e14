-- ===== src/Tests/Configs.antt =====
-- Configuration files: one of two sections, and one with a ninth dylib patch.
use machgate.Base.{◌≡◌, refl, List, [], ◌∷◌, some, none, true, false}
use machgate.Config.Text.{
  Bytes, codes, strip, strip_start, strip_end, str_eq, after_prefix, split_at,
}
use machgate.Config.Load.{Config}
use machgate.Config.Load.{
  empty_config, open_section, open_trampoline, set_in, set_general, set_trampoline, assign,
  load_stripped, load_line, load_lines, config_load,
}
use machgate.Config.Bounds.{ConfigFits, config_load-ConfigFits}

abbrev lines : List Bytes
lines =
    codes "# gate"
    ∷ codes "  [general] "
    ∷ codes "patches = main.json"
    ∷ codes "[trampoline.gl]"
    ∷ codes "lib= libGL.so"
    ∷ codes "prefix=gl"
    ∷ codes "init_wrapper = 1"
    ∷ []

abbrev loaded : Config
loaded = record empty_config {
  patches = some (codes "main.json");
  trampolines =
      record {
        name = codes "gl";
        lib = some (codes "libGL.so");
        prefixes = codes "gl" ∷ [];
        init_wrapper = true;
        renderer = none;
        override_lib = none;
        match_local = false;
      }
      ∷ [];
}

load_run : config_load lines ≡ loaded
unfolding config_load load_lines load_line load_stripped assign set_in set_general set_trampoline
    open_section open_trampoline strip_start strip_end str_eq after_prefix split_at strip
load_run = refl

config_load-ConfigFits_example : ConfigFits (config_load lines)
config_load-ConfigFits_example = config_load-ConfigFits lines
