-- ===== src/Resolver/Bind/One/Passes.antt =====
-- The three passes.
use machgate.Base.{
  ℕ, ◌+◌, ◌^◌, ◌<◌, ◌≤◌, ◌≡◌, sym, subst, ap, ◌∙◌, true, false, List, ◌∷◌, ◌++◌, length,
}
use machgate.Resolver.Rebase.{Image}
use machgate.Resolver.Bind.{BindRequest, BindState, finished, first_cursor, process_binds}
use machgate.Resolver.Bind.Program.{
  Insn, AllFit, AllGroupsFit, program_bytes, groups_bytes, binds_of, groups_binds, bind_all,
}
use machgate.Resolver.Bind.Encoded.{process_binds-program, process_binds-groups, bind_all-append}
use machgate.Resolver.Slots.{SlotInfo}
use machgate.Resolver.Bind.One.{
  DylibAction, Side, max_deferred_binds, Bound, do_bind_one, and_then, process_all_binds,
}
use machgate.Resolver.Bind.One.Laws.{waiting, IsBound, bind_all-IsBound}

-- What the passes bind, in order.
abbrev pub all_requests :
    (binds weak_binds : List Insn) (lazy_binds : List (List Insn)) → List BindRequest
all_requests binds weak_binds lazy_binds =
    binds_of binds first_cursor
    ++ (binds_of weak_binds first_cursor ++ groups_binds lazy_binds first_cursor)

module _ (image : Image) (dylibs : List DylibAction)
    (resolve : BindRequest → (addr : ℕ) → Side → ℕ × Side)
    (traced : BindRequest → (stub : ℕ) → SlotInfo)
    (small : (r : BindRequest) (addr : ℕ) (side : Side) → (resolve r addr side).0 < 2 ^ 64)
    (binds weak_binds : List Insn) (lazy_binds : List (List Insn)) (fit : AllFit binds)
    (weak_fit : AllFit weak_binds) (lazy_fit : AllGroupsFit lazy_binds) where
  -- If the three programs of bind instructions ask for at most as many deferred binds as there is room for, then
  -- their passes end without an error: a slot that no later bind overlaps holds what its symbol resolved to at its
  -- turn; a bind of a deferred library is recorded with its slot, in order; the stubs, the count of stubbed binds and
  -- the registry are what the binds make of them in turn; and no byte outside of the slots is changed.
  pub process_all_binds-IsBound :
      (rest weak_rest : List ℕ) (s : Bound)
      → length s.deferred
          + length (waiting image dylibs resolve traced (all_requests binds weak_binds lazy_binds))
        ≤ max_deferred_binds
      → (st : BindState Bound) × (process_all_binds image dylibs resolve traced
            (program_bytes binds ++ 0 ∷ rest)
            (program_bytes weak_binds ++ 0 ∷ weak_rest)
            (groups_bytes lazy_binds)
            s
          ≡ finished st)
        × IsBound image dylibs resolve traced (all_requests binds weak_binds lazy_binds) s st.bound
  unfolding process_all_binds
  process_all_binds-IsBound rest weak_rest s room =
      let one = do_bind_one image dylibs resolve traced in
      let first : List BindRequest = binds_of binds first_cursor in
      let second : List BindRequest = binds_of weak_binds first_cursor in
      let third : List BindRequest = groups_binds lazy_binds first_cursor in
      let s1 : Bound = bind_all one first s in
      let s2 : Bound = bind_all one second s1 in
      let lazy_pass = process_binds one true (groups_bytes lazy_binds) in
      let weak_pass = process_binds one false (program_bytes weak_binds ++ 0 ∷ weak_rest) in
      let (c, lazy_run) = process_binds-groups one lazy_binds s2 lazy_fit in
      let joined : bind_all one third s2
          ≡ bind_all one (all_requests binds weak_binds lazy_binds) s =
        sym (bind_all-append one first (second ++ third) s ∙ bind_all-append one second third s1) in
      (
        record { cursor = c; bound = bind_all one third s2 },
        ap
              (λ e.
                and_then image dylibs resolve traced lazy_pass
                  (and_then image dylibs resolve traced weak_pass e))
              (process_binds-program one binds rest s fit)
            ∙ ap (and_then image dylibs resolve traced lazy_pass)
                (process_binds-program one weak_binds weak_rest s1 weak_fit)
            ∙ lazy_run,
        subst (IsBound image dylibs resolve traced (all_requests binds weak_binds lazy_binds) s)
            (sym joined)
            (bind_all-IsBound image dylibs resolve traced (all_requests binds weak_binds lazy_binds)
              s small room),
      )
