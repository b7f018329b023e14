-- ===== src/Resolver/Slots/Walk.antt =====
-- The walk along a hash chain finds what a search of the whole array does.
use machgate.Base.{
  ℕ, zero, suc, ◌<◌, ◌≡◌, ◌==◌, inl, inr, refl, arith, subst, ap, ◌∙◌, if◌then◌else◌, Bool-cases,
  false, ==_iff, ne→==_false, List, [], ◌∷◌, ◌++◌, length, length-append, Option, none, some,
}
use mathlib.Core.List.{append_assoc}
use machgate.Resolver.Slots.{Slot, slot_addr_hash, slot_at, Search, found, absent, walk}

-- The last entry of a bucket.
abbrev pub latest : List Slot → (bucket : ℕ) → Option ℕ
latest [] b = none
latest (s ∷ slots) b =
    if slot_addr_hash s.slot_addr == b then some (length slots) else latest slots b

-- Every entry leads to the one before it in its bucket.
abbrev pub IsLinked : List Slot → Type 0
IsLinked [] = Unit {0}
IsLinked (s ∷ slots) = (s.hash_next ≡ latest slots (slot_addr_hash s.slot_addr)) × IsLinked slots

-- A search of the array from its end.
abbrev pub linear : List Slot → (slot_addr : ℕ) → Search
linear [] a = absent
linear (s ∷ slots) a = if s.slot_addr == a then found (length slots) else linear slots a

pub slot_at-suffix :
    (before : List Slot) (s : Slot) (slots : List Slot)
    → slot_at (before ++ s ∷ slots) (length slots) ≡ some s
unfolding slot_at
slot_at-suffix [] s slots = rw ((==_iff (length slots) (length slots)).1 refl) refl
slot_at-suffix (t ∷ before) s slots =
    let later : (length slots == length (before ++ s ∷ slots)) ≡ false =
      ne→==_false _ _ (omega (arith, length-append before (s ∷ slots))) in
    rw later (slot_at-suffix before s slots)

pub walk-linear :
    (before slots : List Slot) (a rounds : ℕ)
    → IsLinked slots
    → length slots < rounds
    → walk rounds (before ++ slots) (latest slots (slot_addr_hash a)) a ≡ linear slots a
unfolding walk
walk-linear before [] a rounds linked h = refl
walk-linear before (s ∷ slots) a zero linked h = absurd (omega arith)
walk-linear before (s ∷ slots) a (suc rounds) (next, linked) h =
    let IH : (k : ℕ)
        → length slots < k
        → walk k (before ++ s ∷ slots) (latest slots (slot_addr_hash a)) a ≡ linear slots a =
      λ k few.
        subst (λ l. walk k l (latest slots (slot_addr_hash a)) a ≡ linear slots a)
          (append_assoc before (s ∷ []) slots)
          (walk-linear (before ++ s ∷ []) slots a k linked few) in
    elim (Bool-cases (slot_addr_hash s.slot_addr == slot_addr_hash a)) [
      | inl same ↦
          let next' : s.hash_next ≡ latest slots (slot_addr_hash a) =
            next ∙ ap (latest slots) ((==_iff _ _).0 same) in
          rw same (
            rw (slot_at-suffix before s slots, walk)
              (elim (Bool-cases (s.slot_addr == a)) [
                | inl here ↦ rw here refl
                | inr other ↦ rw other (
                    ap (λ i. walk rounds (before ++ s ∷ slots) i a) next' ∙ IH rounds (omega arith))
              ]))
      | inr apart ↦
          let other : (s.slot_addr == a) ≡ false =
            ne→==_false s.slot_addr a
              (λ e. absurd (cc ((==_iff _ _).1 (ap slot_addr_hash e), apart))) in
          rw apart (rw other (IH (suc rounds) (omega arith)))
    ]
