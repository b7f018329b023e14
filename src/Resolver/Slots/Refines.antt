-- ===== src/Resolver/Slots/Refines.antt =====
-- The registry is a map with room for a number of addresses.
use machgate.Base.{
  ℕ, ◌+◌, ◌≡◌, ◌==◌, inl, inr, refl, arith, sym, subst, ap, ◌∙◌, leb, if◌then◌else◌, Bool-cases,
  true, false, List, [], ◌∷◌, length, Option, none, some,
}
use machgate.Resolver.Slots.{
  SlotInfo, Slot, bind_slot_registry_max, Registry, first_registry, link_into, with_hash, found,
  absent, info_at, bind_slot_find, update_found, register_bind_slot, resolver_lookup_bind_slot,
}
use machgate.Resolver.Slots.Walk.{linear}
use machgate.Resolver.Slots.Update.{
  find_slot, IsIndexed, link_into-IsIndexed, rebuild-IsIndexed, find_slot-rebuild,
  bind_slot_find-linear, info_at-linear, linear-cases, set_info-overwrite, length-overwrite,
  overwrite-IsIndexed, find_slot-overwrite,
}

-- What is known of each address, and of how many there is something.
pub record Known : Type 0 where
  pub lookup : ℕ → Option SlotInfo
  pub count : ℕ

abbrev pub with_info : (slot_addr : ℕ) → SlotInfo → (ℕ → Option SlotInfo) → ℕ → Option SlotInfo
with_info a info lookup q = if q == a then some info else lookup q

-- A new address is known as long as there is room.
abbrev pub learn_at : (known_before : Option SlotInfo) → (slot_addr : ℕ) → SlotInfo → Known → Known
learn_at (some old) a info k = record k { lookup = with_info a info k.lookup }
learn_at none a info k =
    if leb bind_slot_registry_max k.count
    then k
    else record { lookup = with_info a info k.lookup; count = k.count + 1 }

abbrev pub learn : (slot_addr : ℕ) → SlotInfo → Known → Known
learn a info k = if a == 0 then k else learn_at (k.lookup a) a info k

abbrev pub nothing : Known
nothing = record { lookup = λ q. none; count = 0 }

-- The last one comes first.
abbrev pub registered : List (ℕ × SlotInfo) → Registry
registered [] = first_registry
registered ((a, info) ∷ binds) = register_bind_slot a info (registered binds)

abbrev pub learned : List (ℕ × SlotInfo) → Known
learned [] = nothing
learned ((a, info) ∷ binds) = learn a info (learned binds)

pub record Refines (r : Registry) (k : Known) : Type 0 where
  pub indexed : r.hash_initialized ≡ true → IsIndexed (r.slots, r.buckets)
  pub same : (a : ℕ) → find_slot r.slots a ≡ k.lookup a
  pub counted : length r.slots ≡ k.count

-- The same with the hash in place.
record HasHash (r : Registry) (k : Known) : Type 0 where
  initialized : r.hash_initialized ≡ true
  indexed : IsIndexed (r.slots, r.buckets)
  same : (a : ℕ) → find_slot r.slots a ≡ k.lookup a
  counted : length r.slots ≡ k.count

with_hash-HasHash : (r : Registry) (k : Known) → Refines r k → HasHash (with_hash r) k
unfolding with_hash
with_hash-HasHash r k f = elim (Bool-cases r.hash_initialized) [
  | inl e ↦
      rw e
        (record { initialized = refl; indexed = f.indexed e; same = f.same; counted = f.counted })
  | inr e ↦ rw e (record {
    initialized = refl;
    indexed = rebuild-IsIndexed r.slots;
    same = λ a. (find_slot-rebuild r.slots a).0 ∙ f.same a;
    counted = (find_slot-rebuild r.slots 0).1 ∙ f.counted;
  })
]

HasHash-Refines : (r : Registry) (k : Known) → HasHash r k → Refines r k
HasHash-Refines r k h = record { indexed = λ e. h.indexed; same = h.same; counted = h.counted }

module _ (r : Registry) (k : Known) (a : ℕ) (info : SlotInfo) (h : HasHash r k) where
  new_slot : Slot
  new_slot = record { slot_addr = a; hash_next = none; info = info }

  new-Refines :
      Refines
        (record r {
          slots = (link_into new_slot (r.slots, r.buckets)).0;
          buckets = (link_into new_slot (r.slots, r.buckets)).1;
        })
        (record { lookup = with_info a info k.lookup; count = k.count + 1 })
  unfolding new_slot
  new-Refines = record {
    indexed = λ e. link_into-IsIndexed new_slot (r.slots, r.buckets) h.indexed;
    same = λ q. ground (arith, h.same q);
    counted = let c = h.counted in omega arith;
  }

  absent-Refines : Refines (update_found absent a info r) (learn_at none a info k)
  unfolding new_slot
  absent-Refines = elim (Bool-cases (leb bind_slot_registry_max (length r.slots))) [
    | inl full ↦
        let full' : leb bind_slot_registry_max k.count ≡ true =
          ap (leb bind_slot_registry_max) (sym h.counted) ∙ full in
        rw full (rw full' (HasHash-Refines r k h))
    | inr room ↦
        let room' : leb bind_slot_registry_max k.count ≡ false =
          ap (leb bind_slot_registry_max) (sym h.counted) ∙ room in
        rw room (rw room' new-Refines)
  ]

  found-Refines :
      (index : ℕ) (old : SlotInfo)
      → linear r.slots a ≡ found index
      → find_slot r.slots a ≡ some old
      → Refines (update_found (found index) a info r) (learn_at (some old) a info k)
  found-Refines index old at known = rw (set_info-overwrite r.slots a index info at) (record {
    indexed = λ e. overwrite-IsIndexed a info r.slots r.buckets h.indexed;
    same = λ q.
        find_slot-overwrite a info r.slots q known
        ∙ ap (λ t. if q == a then some info else t) (h.same q);
    counted = length-overwrite a info r.slots ∙ h.counted;
  })

update-Refines :
    (r : Registry) (k : Known) (a : ℕ) (info : SlotInfo)
    → HasHash r k
    → Refines (update_found (bind_slot_find r a) a info r) (learn_at (k.lookup a) a info k)
update-Refines r k a info h = elim (linear-cases r.slots a) [
  | inl (at, unknown) ↦
      let at' : bind_slot_find r a ≡ absent = bind_slot_find-linear r a h.indexed ∙ at in
      let unknown' : k.lookup a ≡ none = sym (h.same a) ∙ unknown in
      subst (λ o. Refines (update_found (bind_slot_find r a) a info r) (learn_at o a info k))
        (sym unknown')
        (subst (λ f. Refines (update_found f a info r) (learn_at none a info k)) (sym at')
          (absent-Refines r k a info h))
  | inr (index, old, at, known) ↦
      let at' : bind_slot_find r a ≡ found index = bind_slot_find-linear r a h.indexed ∙ at in
      let known' : k.lookup a ≡ some old = sym (h.same a) ∙ known in
      subst (λ o. Refines (update_found (bind_slot_find r a) a info r) (learn_at o a info k))
        (sym known')
        (subst (λ f. Refines (update_found f a info r) (learn_at (some old) a info k)) (sym at')
          (found-Refines r k a info h index old at known))
]

register-Refines :
    (r : Registry) (k : Known) (a : ℕ) (info : SlotInfo)
    → Refines r k
    → Refines (register_bind_slot a info r) (learn a info k)
unfolding register_bind_slot
register-Refines r k a info f = elim (Bool-cases (a == 0)) [
  | inl e ↦ rw e f
  | inr e ↦ rw e (update-Refines (with_hash r) k a info (with_hash-HasHash r k f))
]

pub registered-Refines : (binds : List (ℕ × SlotInfo)) → Refines (registered binds) (learned binds)
registered-Refines [] = record { indexed = λ e. absurd (cc); same = λ a. refl; counted = refl }
registered-Refines ((a, info) ∷ binds) =
    register-Refines (registered binds) (learned binds) a info (registered-Refines binds)

-- Whatever was registered, in whatever order, a lookup gives what was last registered at the address, if its first
-- registration came while fewer than 32768 addresses were known; the walk along the hash chain ends. The address 0
-- is never known.
pub lookup-learned :
    (binds : List (ℕ × SlotInfo)) (a : ℕ)
    → (resolver_lookup_bind_slot a (registered binds)).0
      ≡ (if a == 0 then none else (learned binds).lookup a)
unfolding resolver_lookup_bind_slot
lookup-learned binds a =
    let r : Registry = with_hash (registered binds) in
    let h : HasHash r (learned binds) =
      with_hash-HasHash (registered binds) (learned binds) (registered-Refines binds) in
    elim (Bool-cases (a == 0)) [
      | inl zero_addr ↦ rw zero_addr refl
      | inr other ↦ rw other (
          ap (info_at r.slots) (bind_slot_find-linear r a h.indexed)
          ∙ info_at-linear [] r.slots a
          ∙ h.same a)
    ]
