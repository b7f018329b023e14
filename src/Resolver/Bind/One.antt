-- ===== src/Resolver/Bind/One.antt =====
-- `do_bind_one` of src/resolver.c, and the passes with it. `resolve` is `resolve_bind_by_name` for a
-- request and its slot, `traced` the strings that are traced with a deferred bind, and the stubs that
-- `alloc_return0_stub` gives are a list.
pub mod Laws
pub mod Passes
use machgate.Base.{
  ℕ, zero, suc, ◌+◌, ◌-◌, ltb, if◌then◌else◌, Bool, true, false, List, [], ◌∷◌, ◌++◌, length,
  get_elem?, Option, none, some, ℤ, pos, negsuc,
}
use machgate.Memory.{Memory}
use machgate.Memory.Words.{store64}
use machgate.Resolver.Rebase.{Image, slot_of}
use machgate.Resolver.Slots.{SlotInfo, Registry, register_bind_slot}
use machgate.Resolver.Bind.{BindRequest, BindEnd, finished, failed, out_of_rounds, process_binds}

pub data DylibAction : Type 0 where
  dylib_map : DylibAction
  dylib_stub : DylibAction
  dylib_skip : DylibAction
  dylib_macho : DylibAction
  dylib_deferred : DylibAction

abbrev pub is_deferred : Option DylibAction → Bool
is_deferred none = false
is_deferred (some dylib_map) = false
is_deferred (some dylib_stub) = false
is_deferred (some dylib_skip) = false
is_deferred (some dylib_macho) = false
is_deferred (some dylib_deferred) = true

-- The library of an ordinal, which counts from 1.
abbrev pub dylib_at : List DylibAction → ℤ → Option DylibAction
dylib_at dylibs (pos zero) = none
dylib_at dylibs (pos (suc n)) = get_elem? dylibs n
dylib_at dylibs (negsuc n) = none

pub record DeferredBind : Type 0 where
  pub got_slot : ℕ
  pub request : BindRequest

abbrev pub max_deferred_binds : ℕ
max_deferred_binds = 512

-- What a resolution of a symbol changes too.
pub record Side : Type 0 where
  pub stubs : List ℕ
  pub binds_stubbed : ℕ
  pub registry : Registry

pub record Bound : Type 0 where
  pub memory : Memory
  pub deferred : List DeferredBind
  pub side : Side

-- The next stub; 0 when there is none.
abbrev pub next_stub : List ℕ → ℕ
next_stub [] = 0
next_stub (stub ∷ stubs) = stub

abbrev pub later_stubs : List ℕ → List ℕ
later_stubs [] = []
later_stubs (stub ∷ stubs) = stubs

module _ (image : Image) (dylibs : List DylibAction)
    (resolve : BindRequest → (addr : ℕ) → Side → ℕ × Side)
    (traced : BindRequest → (stub : ℕ) → SlotInfo) where
  -- The slot is registered with the stub.
  abbrev pub defer_side : BindRequest → (addr : ℕ) → Side → Side
  defer_side r addr side =
      let stub = next_stub side.stubs in
      record {
        stubs = later_stubs side.stubs;
        binds_stubbed = side.binds_stubbed + 1;
        registry = register_bind_slot addr (traced r stub) side.registry;
      }

  -- A bind past the room for deferred ones keeps the stub.
  abbrev pub defer_bind : BindRequest → (addr : ℕ) → Bound → Bound
  defer_bind r addr s = record {
    memory = store64 s.memory addr (next_stub s.side.stubs);
    deferred =
        if ltb (length s.deferred) max_deferred_binds
        then s.deferred ++ record { got_slot = addr; request = r } ∷ []
        else s.deferred;
    side = defer_side r addr s.side;
  }

  abbrev pub bind_at : Option ℕ → BindRequest → Bound → Bound
  bind_at none r s = s
  bind_at (some addr) r s =
      let (resolved, side) = resolve r addr s.side in
      if is_deferred (dylib_at dylibs r.lib_ordinal)
      then defer_bind r addr s
      else record s { memory = store64 s.memory addr resolved; side = side }

  unfoldable pub do_bind_one : BindRequest → Bound → Bound
  do_bind_one r s = bind_at (slot_of image r.seg_index r.seg_offset) r s

  abbrev pub and_then : (Bound → BindEnd Bound) → BindEnd Bound → BindEnd Bound
  and_then pass (finished st) = pass st.bound
  and_then pass (failed st) = failed st
  and_then pass out_of_rounds = out_of_rounds

  -- The three passes; an empty one is left out.
  unfoldable pub process_all_binds : (binds weak_binds lazy_binds : List ℕ) → Bound → BindEnd Bound
  unfolding do_bind_one process_binds
  process_all_binds binds weak_binds lazy_binds s =
      and_then (process_binds do_bind_one true lazy_binds) (
        and_then (process_binds do_bind_one false weak_binds)
          (process_binds do_bind_one false binds s))
