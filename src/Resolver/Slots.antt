-- ===== src/Resolver/Slots.antt =====
-- The registry of bound slots in src/resolver.c, with its hash chains. The array is a list with its last entry in
-- front, an index of -1 is none, and the strings are pointers.
pub mod Walk
pub mod Update
pub mod Refines
use machgate.Base.{
  ℕ, zero, suc, ◌+◌, ◌*◌, ◌/◌, ◌^◌, ◌==◌, ltb, leb, if◌then◌else◌, Bool, true, false, List, [], ◌∷◌,
  length, Option, none, some, bit_and, bit_xor, u64, u32, ◌>>>◌,
}

pub record SlotInfo : Type 0 where
  pub resolved : ℕ
  pub context : ℕ
  pub sym_name : ℕ
  pub lookup_name : ℕ
  pub dylib_name : ℕ
  pub source_kind : ℕ
  pub source_path : ℕ

pub record Slot : Type 0 where
  pub slot_addr : ℕ
  pub hash_next : Option ℕ
  pub info : SlotInfo

abbrev pub bind_slot_registry_max : ℕ
bind_slot_registry_max = 32768

unfoldable pub slot_addr_hash : ℕ → ℕ
slot_addr_hash slot_addr =
    let hash1 = bit_xor slot_addr (slot_addr >>> 33) in
    let hash2 = u64 (hash1 * 0xFF51AFD7ED558CCD) in
    let hash3 = bit_xor hash2 (hash2 >>> 33) in bit_and (u32 hash3) 65535

pub record Registry : Type 0 where
  pub hash_initialized : Bool
  pub slots : List Slot
  pub buckets : ℕ → Option ℕ

-- As it is when the program starts: the buckets are zero.
abbrev pub first_registry : Registry
first_registry = record { hash_initialized = false; slots = []; buckets = λ b. some 0 }

unfoldable pub slot_at : List Slot → (index : ℕ) → Option Slot
slot_at [] index = none
slot_at (s ∷ slots) index = if index == length slots then some s else slot_at slots index

unfoldable pub set_info : List Slot → (index : ℕ) → SlotInfo → List Slot
set_info [] index info = []
set_info (s ∷ slots) index info =
    if index == length slots
    then record s { info = info } ∷ slots
    else s ∷ set_info slots index info

abbrev pub set_bucket : (ℕ → Option ℕ) → (bucket index : ℕ) → ℕ → Option ℕ
set_bucket buckets bucket index = λ b. if b == bucket then some index else buckets b

-- The entry goes in front of the chain of its bucket.
abbrev pub link : (ℕ → Option ℕ) → Slot → Slot
link buckets s = record s { hash_next = buckets (slot_addr_hash s.slot_addr) }

abbrev pub Linked : Type 0
Linked = List Slot × (ℕ → Option ℕ)

abbrev pub link_into : Slot → Linked → Linked
link_into s (slots, buckets) =
    (link buckets s ∷ slots, set_bucket buckets (slot_addr_hash s.slot_addr) (length slots))

unfoldable pub bind_slot_hash_rebuild : List Slot → Linked
bind_slot_hash_rebuild [] = ([], λ b. none)
bind_slot_hash_rebuild (s ∷ slots) = link_into s (bind_slot_hash_rebuild slots)

unfoldable pub with_hash : Registry → Registry
unfolding bind_slot_hash_rebuild
with_hash r =
    let (slots, buckets) = bind_slot_hash_rebuild r.slots in
    if r.hash_initialized
    then r
    else record { hash_initialized = true; slots = slots; buckets = buckets }

pub data Search : Type 0 where
  found : ℕ → Search
  absent : Search
  out_of_rounds : Search

-- The loop of `bind_slot_find` from an index.
unfoldable pub walk : (rounds : ℕ) → List Slot → Option ℕ → (slot_addr : ℕ) → Search
unfolding slot_at
walk rounds slots none slot_addr = absent
walk zero slots (some index) slot_addr = out_of_rounds
walk (suc rounds) slots (some index) slot_addr = elim (slot_at slots index) [
  | none ↦ absent
  | some s ↦ elim (s.slot_addr == slot_addr) [
    | true ↦ found index
    | false ↦ walk rounds slots s.hash_next slot_addr
  ]
]

unfoldable pub bind_slot_find : Registry → (slot_addr : ℕ) → Search
unfolding walk
bind_slot_find r slot_addr =
    walk (suc (length r.slots)) r.slots (r.buckets (slot_addr_hash slot_addr)) slot_addr

abbrev pub update_found : Search → (slot_addr : ℕ) → SlotInfo → Registry → Registry
update_found (found index) slot_addr info r = record r { slots = set_info r.slots index info }
update_found absent slot_addr info r =
    let s : Slot = record { slot_addr = slot_addr; hash_next = none; info = info } in
    let (slots, buckets) = link_into s (r.slots, r.buckets) in
    if leb bind_slot_registry_max (length r.slots)
    then r
    else record r { slots = slots; buckets = buckets }
update_found out_of_rounds slot_addr info r = r

unfoldable pub register_bind_slot : (slot_addr : ℕ) → SlotInfo → Registry → Registry
unfolding with_hash bind_slot_find set_info
register_bind_slot slot_addr info r =
    let r' = with_hash r in
    if slot_addr == 0 then r else update_found (bind_slot_find r' slot_addr) slot_addr info r'

abbrev pub info_at : List Slot → Search → Option SlotInfo
info_at slots (found index) = elim (slot_at slots index) [ none ↦ none | some s ↦ some s.info ]
info_at slots absent = none
info_at slots out_of_rounds = none

-- What is found; the registry is left with its hash.
unfoldable pub resolver_lookup_bind_slot : (slot_addr : ℕ) → Registry → Option SlotInfo × Registry
unfolding with_hash bind_slot_find slot_at
resolver_lookup_bind_slot slot_addr r =
    let r' = with_hash r in
    if slot_addr == 0 then (none, r) else (info_at r'.slots (bind_slot_find r' slot_addr), r')
