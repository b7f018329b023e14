-- ===== src/Resolver/Bind/One/Laws.antt =====
-- Every slot is bound.
use mathlib.Core.List.{append_assoc, append-nil}
use machgate.Base.{
  ℕ, ◌+◌, ◌^◌, ◌<◌, ◌≤◌, ◌≡◌, inl, inr, refl, arith, sym, subst, ap, ◌∙◌, Bool, Bool-cases, true,
  false, lt→ltb, List, [], ◌∷◌, ◌++◌, length, length-append, Option, none, some,
}
use machgate.Memory.{Memory}
use machgate.Memory.Words.{
  load64, ApartFromAll, OutsideAll, load64-store64, load64-store64_apart, store64-Outside,
}
use machgate.Resolver.Rebase.{Image, slot_of}
use machgate.Resolver.Rebase.Slide.{with_slot}
use machgate.Resolver.Slots.{SlotInfo}
use machgate.Resolver.Bind.{BindRequest}
use machgate.Resolver.Bind.Program.{bind_all}
use machgate.Resolver.Bind.One.{
  DylibAction, Side, defer_side, is_deferred, dylib_at, DeferredBind, max_deferred_binds, Bound,
  next_stub, bind_at, do_bind_one,
}

module _ (image : Image) (dylibs : List DylibAction)
    (resolve : BindRequest → (addr : ℕ) → Side → ℕ × Side)
    (traced : BindRequest → (stub : ℕ) → SlotInfo) where
  abbrev pub slot : BindRequest → Option ℕ
  slot r = slot_of image r.seg_index r.seg_offset

  abbrev pub waits : BindRequest → Bool
  waits r = is_deferred (dylib_at dylibs r.lib_ordinal)

  abbrev pub slots_of : List BindRequest → List ℕ
  slots_of [] = []
  slots_of (r ∷ binds) = with_slot (slot r) (slots_of binds)

  -- The binds that wait, with their slots.
  abbrev pub waiting_at : Option ℕ → Bool → BindRequest → List DeferredBind → List DeferredBind
  waiting_at (some addr) true r rest = record { got_slot = addr; request = r } ∷ rest
  waiting_at (some addr) false r rest = rest
  waiting_at none b r rest = rest

  abbrev pub waiting : List BindRequest → List DeferredBind
  waiting [] = []
  waiting (r ∷ binds) = waiting_at (slot r) (waits r) r (waiting binds)

  -- What a bind makes of the rest of the state.
  abbrev pub side_at : Option ℕ → Bool → BindRequest → Side → Side
  side_at none b r side = side
  side_at (some addr) true r side = defer_side image dylibs resolve traced r addr side
  side_at (some addr) false r side = (resolve r addr side).1

  abbrev pub side_after : List BindRequest → Side → Side
  side_after [] side = side
  side_after (r ∷ binds) side = side_after binds (side_at (slot r) (waits r) r side)

  abbrev pub IsBoundAt : Memory → Option ℕ → Bool → BindRequest → Side → Type 0
  IsBoundAt m (some addr) false r side = load64 m addr ≡ (resolve r addr side).0
  IsBoundAt m (some addr) true r side = Unit {0}
  IsBoundAt m none b r side = Unit {0}

  abbrev pub IsLast : Option ℕ → List ℕ → Type 0
  IsLast none later = Unit {0}
  IsLast (some addr) later = ApartFromAll addr later

  -- A slot that no later bind overlaps.
  abbrev pub AllBound : Memory → List BindRequest → Side → Type 0
  AllBound m [] side = Unit {0}
  AllBound m (r ∷ binds) side =
      (IsLast (slot r) (slots_of binds) → IsBoundAt m (slot r) (waits r) r side)
      × AllBound m binds (side_at (slot r) (waits r) r side)

  pub record IsBound (binds : List BindRequest) (s s' : Bound) : Type 0 where
    pub all_bound : AllBound s'.memory binds s.side
    pub deferred : s'.deferred ≡ s.deferred ++ waiting binds
    pub side : s'.side ≡ side_after binds s.side
    pub others_kept : (x : ℕ) → OutsideAll x (slots_of binds) → s'.memory x ≡ s.memory x

  abbrev one : BindRequest → Bound → Bound
  one r s = do_bind_one image dylibs resolve traced r s

  abbrev at : Option ℕ → BindRequest → Bound → Bound
  at o r s = bind_at image dylibs resolve traced o r s

  ApartFromAll-rest :
      (o : Option ℕ) (a : ℕ) (slots : List ℕ)
      → ApartFromAll a (with_slot o slots)
      → ApartFromAll a slots
  ApartFromAll-rest none a slots h = h
  ApartFromAll-rest (some b) a slots h = h.1

  OutsideAll-rest :
      (o : Option ℕ) (x : ℕ) (slots : List ℕ)
      → OutsideAll x (with_slot o slots)
      → OutsideAll x slots
  OutsideAll-rest none x slots h = h
  OutsideAll-rest (some b) x slots h = h.1

  at_kept :
      (o : Option ℕ) (r : BindRequest) (s : Bound) (a : ℕ) (slots : List ℕ)
      → ApartFromAll a (with_slot o slots)
      → load64 (at o r s).memory a ≡ load64 s.memory a
  at_kept none r s a slots h = refl
  at_kept (some b) r s a slots h = elim (Bool-cases (waits r)) [
    | inl e ↦ rw e (load64-store64_apart s.memory b (next_stub s.side.stubs) a h.0)
    | inr e ↦ rw e (load64-store64_apart s.memory b (resolve r b s.side).0 a h.0)
  ]

  at-Outside :
      (o : Option ℕ) (r : BindRequest) (s : Bound) (x : ℕ) (slots : List ℕ)
      → OutsideAll x (with_slot o slots)
      → (at o r s).memory x ≡ s.memory x
  at-Outside none r s x slots h = refl
  at-Outside (some b) r s x slots h = elim (Bool-cases (waits r)) [
    | inl e ↦ rw e (store64-Outside s.memory b (next_stub s.side.stubs) x h.0)
    | inr e ↦ rw e (store64-Outside s.memory b (resolve r b s.side).0 x h.0)
  ]

  slot_kept :
      (binds : List BindRequest) (s : Bound) (a : ℕ)
      → ApartFromAll a (slots_of binds)
      → load64 (bind_all one binds s).memory a ≡ load64 s.memory a
  unfolding do_bind_one
  slot_kept [] s a apart = refl
  slot_kept (r ∷ binds) s a apart =
      slot_kept binds (one r s) a (ApartFromAll-rest (slot r) a (slots_of binds) apart)
      ∙ at_kept (slot r) r s a (slots_of binds) apart

  at-side :
      (o : Option ℕ) (b : Bool) (r : BindRequest) (s : Bound)
      → waits r ≡ b
      → (at o r s).side ≡ side_at o b r s.side
  at-side none b r s e = refl
  at-side (some addr) true r s e = rw e refl
  at-side (some addr) false r s e = rw e refl

  all_sides :
      (binds : List BindRequest) (s : Bound) → (bind_all one binds s).side ≡ side_after binds s.side
  unfolding do_bind_one
  all_sides [] s = refl
  all_sides (r ∷ binds) s =
      all_sides binds (one r s) ∙ ap (side_after binds) (at-side (slot r) (waits r) r s refl)

  module _
      (small : (r : BindRequest) (addr : ℕ) (side : Side) → (resolve r addr side).0 < 2 ^ 64) where
    here :
        (o : Option ℕ) (b : Bool) (r : BindRequest) (binds : List BindRequest) (s : Bound)
        → waits r ≡ b
        → IsLast o (slots_of binds)
        → IsBoundAt (bind_all one binds (at o r s)).memory o b r s.side
    here none b r binds s e apart = tt
    here (some addr) true r binds s e apart = tt
    here (some addr) false r binds s e apart =
        let bound : load64 (at (some addr) r s).memory addr ≡ (resolve r addr s.side).0 =
          rw e (load64-store64 s.memory addr (resolve r addr s.side).0 (small r addr s.side)) in
        slot_kept binds (at (some addr) r s) addr apart ∙ bound

    all_bound :
        (binds : List BindRequest) (s : Bound) → AllBound (bind_all one binds s).memory binds s.side
    unfolding do_bind_one
    all_bound [] s = tt
    all_bound (r ∷ binds) s = (
      here (slot r) (waits r) r binds s refl,
      subst (AllBound (bind_all one (r ∷ binds) s).memory binds)
          (at-side (slot r) (waits r) r s refl) (all_bound binds (one r s)),
    )

  at-deferred :
      (o : Option ℕ) (b : Bool) (r : BindRequest) (s : Bound) (rest : List DeferredBind)
      → waits r ≡ b
      → length s.deferred + length (waiting_at o b r rest) ≤ max_deferred_binds
      → (at o r s).deferred ++ rest ≡ s.deferred ++ waiting_at o b r rest
  at-deferred none b r s rest e h = refl
  at-deferred (some addr) false r s rest e h = rw e refl
  at-deferred (some addr) true r s rest e h =
      let d : DeferredBind = record { got_slot = addr; request = r } in
      rw (e, lt→ltb (length s.deferred) max_deferred_binds (omega arith))
        (append_assoc s.deferred (d ∷ []) rest)

  all_deferred :
      (binds : List BindRequest) (s : Bound)
      → length s.deferred + length (waiting binds) ≤ max_deferred_binds
      → (bind_all one binds s).deferred ≡ s.deferred ++ waiting binds
  unfolding do_bind_one
  all_deferred [] s h = sym (append-nil s.deferred)
  all_deferred (r ∷ binds) s h =
      let list = at-deferred (slot r) (waits r) r s (waiting binds) refl h in
      let longer = ap length list in
      all_deferred binds (one r s) (
        omega (
          arith,
          length-append (one r s).deferred (waiting binds),
          length-append s.deferred (waiting (r ∷ binds)),
        ))
      ∙ list

  all_others :
      (binds : List BindRequest) (s : Bound) (x : ℕ)
      → OutsideAll x (slots_of binds)
      → (bind_all one binds s).memory x ≡ s.memory x
  unfolding do_bind_one
  all_others [] s x out = refl
  all_others (r ∷ binds) s x out =
      all_others binds (one r s) x (OutsideAll-rest (slot r) x (slots_of binds) out)
      ∙ at-Outside (slot r) r s x (slots_of binds) out

  pub bind_all-IsBound :
      (binds : List BindRequest) (s : Bound)
      → ((r : BindRequest) (addr : ℕ) (side : Side) → (resolve r addr side).0 < 2 ^ 64)
      → length s.deferred + length (waiting binds) ≤ max_deferred_binds
      → IsBound binds s (bind_all one binds s)
  bind_all-IsBound binds s small room = record {
    all_bound = all_bound small binds s;
    deferred = all_deferred binds s room;
    side = all_sides binds s;
    others_kept = all_others binds s;
  }
