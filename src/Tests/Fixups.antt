-- ===== src/Tests/Fixups.antt =====
-- The rebases, binds and bound slots of src/resolver.c at concrete inputs.
use machgate.Base.{
  ℕ, ◌≡◌, ◌≢◌, inl, refl, arith, ◌==◌, if◌then◌else◌, List, [], ◌∷◌, ◌++◌, none, some,
}
use machgate.Config.Text.{split_at}
use machgate.EhFrame.Leb.{eh_read_uleb128, ehf_uleb128}
use machgate.Memory.{Memory, store}
use machgate.Memory.Words.{load64, store64}
use machgate.Resolver.Rebase.{Image, RebaseState, finished, out_of_rounds, process_rebases}
use machgate.Resolver.Rebase.Program.{set_segment, rebase_skipping, program_bytes}
use machgate.Resolver.Rebase.Slide.{IsRebased, process_rebases-IsRebased}
use machgate.Resolver.Rebase.Ends.{process_rebases-ends}
use machgate.Resolver.Bind
use machgate.Resolver.Bind.{BindRequest, BindState}
use machgate.Resolver.Bind.Program
use machgate.Resolver.Bind.One.{
  DylibAction, Side, dylib_map, dylib_deferred, Bound, process_all_binds,
}
use machgate.Resolver.Bind.One.Laws.{IsBound}
use machgate.Resolver.Bind.One.Passes.{all_requests, process_all_binds-IsBound}
use machgate.Resolver.Slots.{
  SlotInfo, first_registry, slot_addr_hash, register_bind_slot, resolver_lookup_bind_slot,
}
use machgate.Resolver.Slots.Refines.{registered, learned, lookup-learned}

abbrev image : Image
image = record { segments = 0x1000 ∷ 0x8000 ∷ []; slide = 0x4000 }

abbrev slots_in_file : Memory
slots_in_file = store64 (store64 (λ x. 0) 0xC010 0x1230) 0xC028 0x4560

-- Two words with a word between them, in the second segment.
rebases_are_slid :
    (st : RebaseState) × (process_rebases image (0x21 ∷ 0x10 ∷ 0x80 ∷ 2 ∷ 16 ∷ 0 ∷ []) slots_in_file
      ≡ finished st)
    × (load64 st.memory 0xC010 ≡ 0x5230)
    × (load64 st.memory 0xC028 ≡ 0x8560)
    × (st.rebases_applied ≡ 2)
unfolding process_rebases store eh_read_uleb128
rebases_are_slid = (_, refl, refl, refl, refl)

process_rebases-IsRebased_example :
    (st : RebaseState) × (process_rebases image
        (program_bytes (set_segment 1 0x10 ∷ rebase_skipping 2 16 ∷ []) ++ 0 ∷ [])
        slots_in_file
      ≡ finished st)
    × IsRebased image (set_segment 1 0x10 ∷ rebase_skipping 2 16 ∷ []) slots_in_file st
process_rebases-IsRebased_example =
    process_rebases-IsRebased image (set_segment 1 0x10 ∷ rebase_skipping 2 16 ∷ []) []
      slots_in_file ((omega arith, omega arith), ((omega arith, omega arith), tt))
      ((inl (omega arith), tt), (tt, tt))

-- The last number has no end.
process_rebases-ends_example :
    process_rebases image (0x21 ∷ 0x10 ∷ 0x62 ∷ 0x80 ∷ []) slots_in_file ≢ out_of_rounds
process_rebases-ends_example =
    process_rebases-ends image (0x21 ∷ 0x10 ∷ 0x62 ∷ 0x80 ∷ []) slots_in_file

abbrev dylibs : List DylibAction
dylibs = dylib_map ∷ dylib_deferred ∷ []

abbrev resolve_bind : BindRequest → (addr : ℕ) → Side → ℕ × Side
resolve_bind r addr side = (0x7000, side)

abbrev info : (resolved : ℕ) → SlotInfo
info resolved = record {
  resolved = resolved;
  context = 1;
  sym_name = 2;
  lookup_name = 3;
  dylib_name = 4;
  source_kind = 5;
  source_path = 6;
}

abbrev traced : BindRequest → (stub : ℕ) → SlotInfo
traced r stub = info stub

-- "_f" of a mapped library, then of a deferred one, and a lazy one.
abbrev binds : List Program.Insn
binds =
    Program.set_ordinal_imm 1
    ∷ Program.set_symbol 0 (b'_' ∷ b'f' ∷ [])
    ∷ Program.set_segment 0 0x20
    ∷ Program.bind
    ∷ Program.set_ordinal_imm 2
    ∷ Program.bind_scaled 1
    ∷ []

abbrev lazy_binds : List (List Program.Insn)
lazy_binds =
    (Program.set_segment 1 8
      ∷ Program.set_ordinal_imm 1
      ∷ Program.set_symbol 0 (b'g' ∷ [])
      ∷ Program.bind
      ∷ [])
    ∷ []

abbrev unbound : Bound
unbound = record {
  memory = λ x. 0;
  deferred = [];
  side = record { stubs = 0x9000 ∷ []; binds_stubbed = 0; registry = first_registry };
}

process_all_binds-IsBound_example :
    (st : BindState Bound) × (process_all_binds image dylibs resolve_bind traced
        (Program.program_bytes binds ++ 0 ∷ [])
        (Program.program_bytes [] ++ 0 ∷ [])
        (Program.groups_bytes lazy_binds)
        unbound
      ≡ Bind.finished st)
    × IsBound image dylibs resolve_bind traced (all_requests binds [] lazy_binds) unbound st.bound
process_all_binds-IsBound_example =
    process_all_binds-IsBound image dylibs resolve_bind traced (λ r addr side. omega arith) binds []
      lazy_binds
      (
        omega arith,
        (
          (omega arith, (λ e. omega arith, (λ e. omega arith, tt))),
          ((omega arith, omega arith), (tt, (omega arith, (omega arith, tt)))),
        ),
      )
      tt
      (
        (
          (omega arith, omega arith),
          (omega arith, ((omega arith, (λ e. omega arith, tt)), (tt, tt))),
        ),
        tt,
      )
      [] [] unbound (omega arith)

-- A slot bound twice.
abbrev registrations : List (ℕ × SlotInfo)
registrations = (0x1000, info 30) ∷ (0x2000, info 20) ∷ (0x1000, info 10) ∷ []

lookup-learned_example :
    (resolver_lookup_bind_slot 0x1000 (registered registrations)).0
    ≡ (if 0x1000 == 0 then none else (learned registrations).lookup 0x1000)
lookup-learned_example = lookup-learned registrations 0x1000

last_is_known : (learned registrations).lookup 0x1000 ≡ some (info 30)
last_is_known = refl

-- The deferred bind has the stub, and the registry knows it.
deferred_is_stubbed :
    (st : BindState Bound) × (process_all_binds image dylibs resolve_bind traced
        (Program.program_bytes binds ++ 0 ∷ [])
        []
        (Program.groups_bytes lazy_binds)
        unbound
      ≡ Bind.finished st)
    × (load64 st.bound.memory 0x5020 ≡ 0x7000)
    × (load64 st.bound.memory 0x5028 ≡ 0x9000)
    × ((resolver_lookup_bind_slot 0x5028 st.bound.side.registry).0 ≡ some (info 0x9000))
unfolding process_all_binds eh_read_uleb128 ehf_uleb128 split_at store slot_addr_hash
    register_bind_slot resolver_lookup_bind_slot
deferred_is_stubbed = (_, refl, refl, refl, refl)
