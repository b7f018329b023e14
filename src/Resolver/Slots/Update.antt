-- ===== src/Resolver/Slots/Update.antt =====
-- What registering does to the chains and to what is found.
use machgate.Base.{
  ℕ, suc, ◌<◌, ◌≡◌, ◌⊎◌, ◌==◌, inl, inr, refl, arith, sym, ap, ◌∙◌, if◌then◌else◌, Bool-cases, true,
  false, ne→==_false, List, [], ◌∷◌, ◌++◌, length, Option, none, some,
}
use machgate.Resolver.Slots.{
  SlotInfo, Slot, slot_addr_hash, set_info, Linked, link_into, bind_slot_hash_rebuild, found,
  absent, info_at, Registry, bind_slot_find,
}
use machgate.Resolver.Slots.Walk.{latest, IsLinked, linear, walk-linear, slot_at-suffix}
use mathlib.Core.List.{append_assoc}

-- The entry of an address.
abbrev pub find_slot : List Slot → (slot_addr : ℕ) → Option SlotInfo
find_slot [] a = none
find_slot (s ∷ slots) a = if s.slot_addr == a then some s.info else find_slot slots a

abbrev pub overwrite : (slot_addr : ℕ) → SlotInfo → List Slot → List Slot
overwrite a info [] = []
overwrite a info (s ∷ slots) =
    if s.slot_addr == a then record s { info = info } ∷ slots else s ∷ overwrite a info slots

pub record IsIndexed (l : Linked) : Type 0 where
  pub linked : IsLinked l.0
  pub heads : (b : ℕ) → l.1 b ≡ latest l.0 b

pub link_into-IsIndexed : (s : Slot) (l : Linked) → IsIndexed l → IsIndexed (link_into s l)
link_into-IsIndexed s (slots, buckets) i = record {
  linked = (i.heads (slot_addr_hash s.slot_addr), i.linked);
  heads = λ b. elim (Bool-cases (slot_addr_hash s.slot_addr == b)) [
    | inl e ↦ let e' : (b == slot_addr_hash s.slot_addr) ≡ true = ground arith in rw e (rw e' refl)
    | inr e ↦
        let e' : (b == slot_addr_hash s.slot_addr) ≡ false = ground arith in
        rw e (rw e' (i.heads b))
  ];
}

pub rebuild-IsIndexed : (slots : List Slot) → IsIndexed (bind_slot_hash_rebuild slots)
unfolding bind_slot_hash_rebuild
rebuild-IsIndexed [] = record { linked = tt; heads = λ b. refl }
rebuild-IsIndexed (s ∷ slots) =
    link_into-IsIndexed s (bind_slot_hash_rebuild slots) (rebuild-IsIndexed slots)

pub find_slot-rebuild :
    (slots : List Slot) (a : ℕ)
    → (find_slot (bind_slot_hash_rebuild slots).0 a ≡ find_slot slots a)
      × (length (bind_slot_hash_rebuild slots).0 ≡ length slots)
unfolding bind_slot_hash_rebuild
find_slot-rebuild [] a = (refl, refl)
find_slot-rebuild (s ∷ slots) a =
    let (same, long) = find_slot-rebuild slots a in (rw same refl, ap suc long)

pub bind_slot_find-linear :
    (r : Registry) (a : ℕ) → IsIndexed (r.slots, r.buckets) → bind_slot_find r a ≡ linear r.slots a
unfolding bind_slot_find
bind_slot_find-linear r a i =
    rw (i.heads (slot_addr_hash a))
      (walk-linear [] r.slots a (suc (length r.slots)) i.linked (omega arith))

-- The entry that the search finds.

linear-lt : (slots : List Slot) (a index : ℕ) → linear slots a ≡ found index → index < length slots
linear-lt [] a index e = absurd (cc)
linear-lt (s ∷ slots) a index e = elim (Bool-cases (s.slot_addr == a)) [
  | inl here ↦ let e' : found (length slots) ≡ found index = rw here at e in ground arith
  | inr other ↦
      let e' : linear slots a ≡ found index = rw other at e in
      omega (arith, linear-lt slots a index e')
]

pub info_at-linear :
    (before slots : List Slot) (a : ℕ)
    → info_at (before ++ slots) (linear slots a) ≡ find_slot slots a
info_at-linear before [] a = refl
info_at-linear before (s ∷ slots) a = elim (Bool-cases (s.slot_addr == a)) [
  | inl here ↦ rw here (rw (slot_at-suffix before s slots, info_at) refl)
  | inr other ↦ rw other (
      ap (λ l. info_at l (linear slots a)) (sym (append_assoc before (s ∷ []) slots))
      ∙ info_at-linear (before ++ s ∷ []) slots a)
]

pub linear-cases :
    (slots : List Slot) (a : ℕ)
    → ((linear slots a ≡ absent) × (find_slot slots a ≡ none))
      ⊎ ((index : ℕ) × (old : SlotInfo) × (linear slots a ≡ found index)
          × (find_slot slots a ≡ some old))
linear-cases [] a = inl (refl, refl)
linear-cases (s ∷ slots) a = elim (Bool-cases (s.slot_addr == a)) [
  | inl here ↦ inr (length slots, s.info, rw here refl, rw here refl)
  | inr other ↦ elim (linear-cases slots a) [
    | inl (no_index, no_info) ↦ inl (rw other no_index, rw other no_info)
    | inr (index, old, at, info) ↦ inr (index, old, rw other at, rw other info)
  ]
]

pub set_info-overwrite :
    (slots : List Slot) (a index : ℕ) (info : SlotInfo)
    → linear slots a ≡ found index
    → set_info slots index info ≡ overwrite a info slots
unfolding set_info
set_info-overwrite [] a index info e = refl
set_info-overwrite (s ∷ slots) a index info e = elim (Bool-cases (s.slot_addr == a)) [
  | inl here ↦
      let e' : found (length slots) ≡ found index = rw here at e in
      let last : (index == length slots) ≡ true = ground arith in rw here (rw last refl)
  | inr other ↦
      let e' : linear slots a ≡ found index = rw other at e in
      let before : (index == length slots) ≡ false =
        ne→==_false index (length slots)
          (λ z. absurd (omega (arith, linear-lt slots a index e'))) in
      rw other (rw before (ap (λ l. s ∷ l) (set_info-overwrite slots a index info e')))
]

module _ (a : ℕ) (info : SlotInfo) where
  pub length-overwrite : (slots : List Slot) → length (overwrite a info slots) ≡ length slots
  length-overwrite [] = refl
  length-overwrite (s ∷ slots) = elim (Bool-cases (s.slot_addr == a)) [
    | inl here ↦ rw here refl
    | inr other ↦ rw other (ap suc (length-overwrite slots))
  ]

  latest-overwrite :
      (slots : List Slot) (b : ℕ) → latest (overwrite a info slots) b ≡ latest slots b
  latest-overwrite [] b = refl
  latest-overwrite (s ∷ slots) b = elim (Bool-cases (s.slot_addr == a)) [
    | inl here ↦ rw here refl
    | inr other ↦ rw other (rw (length-overwrite slots, latest-overwrite slots b) refl)
  ]

  IsLinked-overwrite : (slots : List Slot) → IsLinked slots → IsLinked (overwrite a info slots)
  IsLinked-overwrite [] l = tt
  IsLinked-overwrite (s ∷ slots) (next, l) = elim (Bool-cases (s.slot_addr == a)) [
    | inl here ↦ rw here (next, l)
    | inr other ↦ rw other (
      next ∙ sym (latest-overwrite slots (slot_addr_hash s.slot_addr)),
      IsLinked-overwrite slots l,
    )
  ]

  pub overwrite-IsIndexed :
      (slots : List Slot) (buckets : ℕ → Option ℕ)
      → IsIndexed (slots, buckets)
      → IsIndexed (overwrite a info slots, buckets)
  overwrite-IsIndexed slots buckets i = record {
    linked = IsLinked-overwrite slots i.linked;
    heads = λ b. i.heads b ∙ sym (latest-overwrite slots b);
  }

  pub find_slot-overwrite :
      (slots : List Slot) (q : ℕ) {old : SlotInfo}
      → find_slot slots a ≡ some old
      → find_slot (overwrite a info slots) q ≡ (if q == a then some info else find_slot slots q)
  find_slot-overwrite [] q e = absurd (cc)
  find_slot-overwrite (s ∷ slots) q e = elim (Bool-cases (s.slot_addr == a)) [
    | inl here ↦ rw here (ground arith)
    | inr other ↦
        let e' = rw other at e in rw other (ground (arith, find_slot-overwrite slots q e'))
  ]
