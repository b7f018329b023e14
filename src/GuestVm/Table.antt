-- ===== src/GuestVm/Table.antt =====
-- The table of tracked mappings: `guest_vm_track_add`, `guest_vm_lookup` and `guest_vm_forget`.
use machgate.Base.{ℕ, ◌≡◌, refl, arith, ◌==◌, if◌then◌else◌, Bool, true, false, ◌&&◌}
use machgate.Base.{List, [], ◌∷◌, length, Option, some, none, replicate, not, ◌||◌}

pub record Entry : Type 0 where
  pub addr : ℕ
  pub mapped_size : ℕ
  pub used : Bool

abbrev pub track_max : ℕ
track_max = 64

abbrev pub Table : Type 0
Table = List Entry

-- A static array is zeroed.
abbrev pub empty_table : Table
empty_table = replicate track_max (record { addr = 0; mapped_size = 0; used = false })

-- The first unused slot is filled; with none the mapping is not tracked.
unfoldable pub track_add : ℕ → ℕ → Table → Table
track_add addr length [] = []
track_add addr length (e ∷ table) =
    if e.used
    then e ∷ track_add addr length table
    else record { addr = addr; mapped_size = length; used = true } ∷ table

unfoldable pub lookup : ℕ → Table → Option ℕ
lookup addr [] = none
lookup addr (e ∷ table) =
    if e.used && (e.addr == addr) then some e.mapped_size else lookup addr table

unfoldable pub forget : ℕ → Table → Table
forget addr [] = []
forget addr (e ∷ table) =
    if e.used && (e.addr == addr) then record e { used = false } ∷ table else e ∷ forget addr table

-- A slot is free.
abbrev pub has_room : Table → Bool
has_room [] = false
has_room (e ∷ table) = not e.used || has_room table

-- No address is tracked twice.
abbrev pub Unique : Table → Type 0
Unique [] = Unit {0}
Unique (e ∷ table) = (e.used ≡ true → lookup e.addr table ≡ none) × Unique table

pub length-track_add : (a n : ℕ) (t : Table) → length (track_add a n t) ≡ length t
unfolding track_add
length-track_add a n [] = refl
length-track_add a n (e ∷ t) = ground (arith, length-track_add a n t)

pub length-forget : (a : ℕ) (t : Table) → length (forget a t) ≡ length t
unfolding forget
length-forget a [] = refl
length-forget a (e ∷ t) = ground (arith, length-forget a t)

-- A mapping that is not tracked yet is found after it is added, if there is a free slot, and nothing
-- changes if there is none; every other address is looked up as before.
pub lookup-track_add :
    (a n b : ℕ) (t : Table)
    → lookup a t ≡ none
    → lookup b (track_add a n t) ≡ (if has_room t && (a == b) then some n else lookup b t)
unfolding track_add lookup
lookup-track_add a n b [] h = refl
lookup-track_add a n b (e ∷ t) h = ground (arith, lookup-track_add a n b t)

-- Where no address is tracked twice, a forgotten address is no longer found, and every other one is
-- looked up as before.
pub lookup-forget :
    (a b : ℕ) (t : Table) → Unique t → lookup b (forget a t) ≡ (if a == b then none else lookup b t)
unfolding forget lookup
lookup-forget a b [] u = ground arith
lookup-forget a b (e ∷ t) u = ground (arith, lookup-forget a b t u.1)

pub track_add-Unique :
    (a n : ℕ) (t : Table) → lookup a t ≡ none → Unique t → Unique (track_add a n t)
unfolding track_add lookup
track_add-Unique a n [] h u = tt
track_add-Unique a n (e ∷ t) h u =
    ground (arith, track_add-Unique a n t, lookup-track_add a n e.addr t)

pub forget-Unique : (a : ℕ) (t : Table) → Unique t → Unique (forget a t)
unfolding forget
forget-Unique a [] u = tt
forget-Unique a (e ∷ t) u = ground (arith, forget-Unique a t u.1, lookup-forget a e.addr t u.1)
