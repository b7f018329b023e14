-- ===== src/EhFrame/Collect/Sort.antt =====
-- The entries in the order of their functions, and the sizes that follow from it.
use mathlib.Core.List.Perm
use mathlib.Core.List.{
  reverse, Perm, reverse_perm, perm_middle, reverse-append, append-nil, append_assoc,
}
use machgate.Base.{
  ℕ, ◌+◌, ◌-◌, ◌^◌, ◌<◌, ◌≤◌, ◌≡◌, refl, arith, sym, ap, subst, ◌∙◌, inl, inr, ltb, ltb→lt,
  Bool-cases, List, [], ◌∷◌, ◌++◌, map, take, some,
}
use machgate.EhFrame.Collect.{
  CuEntry, u32_at, count_entries, pages_entries, insert_from_right, insertion_sort, set_sizes,
  collect_entries,
}
use machgate.EhFrame.Collect.Count.{take-pages}
use machgate.EhFrame.Collect.Small.{
  AreSmall, AreBytes, AreSmall-take, AreSmall-sort, AreSmall-pages,
}

-- Permutations.

insert-perm :
    (tmp : CuEntry) (before : List CuEntry) → Perm (insert_from_right tmp before) (tmp ∷ before)
unfolding insert_from_right
insert-perm tmp [] = Perm.refl (tmp ∷ [])
insert-perm tmp (e ∷ before) = elim (Bool-cases (ltb tmp.func_offset e.func_offset)) [
  | inl moves ↦
      rw moves (Perm.trans (Perm.cons e (insert-perm tmp before)) (Perm.swap tmp e before))
  | inr stays ↦ rw stays (Perm.refl (tmp ∷ e ∷ before))
]

sort-perm :
    (before entries : List CuEntry) → Perm (insertion_sort before entries) (before ++ entries)
unfolding insertion_sort
sort-perm before [] = subst (Perm (reverse before)) (sym (append-nil before)) (reverse_perm before)
sort-perm before (e ∷ entries) = Perm.trans (sort-perm (insert_from_right e before) entries) (
    Perm.trans (Perm.append_right entries (insert-perm e before))
      (Perm.symm (perm_middle before entries)))

-- Order.

abbrev Descends : (bound : ℕ) → List CuEntry → Type 0
Descends bound [] = Unit {0}
Descends bound (e ∷ before) = (e.func_offset ≤ bound) × Descends e.func_offset before

abbrev Ascends : (bound : ℕ) → List CuEntry → Type 0
Ascends bound [] = Unit {0}
Ascends bound (e ∷ entries) = (bound ≤ e.func_offset) × Ascends e.func_offset entries

insert-Descends :
    (bound : ℕ) (tmp : CuEntry) (before : List CuEntry)
    → tmp.func_offset ≤ bound
    → Descends bound before
    → Descends bound (insert_from_right tmp before)
unfolding insert_from_right
insert-Descends bound tmp [] h d = (h, tt)
insert-Descends bound tmp (e ∷ before) h d = elim (Bool-cases (ltb tmp.func_offset e.func_offset)) [
  | inl moves ↦
      let below : tmp.func_offset < e.func_offset = ltb→lt _ _ moves in
      rw moves (d.0, insert-Descends e.func_offset tmp before (omega arith) d.1)
  | inr stays ↦
      let above : e.func_offset ≤ tmp.func_offset = ground arith in rw stays (h, (above, d.1))
]

Ascends-le : (a b : ℕ) (entries : List CuEntry) → a ≤ b → Ascends b entries → Ascends a entries
Ascends-le a b [] h s = tt
Ascends-le a b (e ∷ entries) h s = (omega arith, s.1)

reverse-Ascends :
    (bound : ℕ) (before behind : List CuEntry)
    → Descends bound before
    → Ascends bound behind
    → Ascends 0 (reverse before ++ behind)
reverse-Ascends bound [] behind d s = Ascends-le 0 bound behind (omega arith) s
reverse-Ascends bound (e ∷ before) behind d s =
    subst (Ascends 0)
      (sym (
        ap (λ t. t ++ behind) (reverse-append (e ∷ []) before)
        ∙ append_assoc (reverse before) (e ∷ []) behind))
      (reverse-Ascends e.func_offset before (e ∷ behind) d.1
        (omega arith, Ascends-le e.func_offset bound behind d.0 s))

sort-Ascends :
    (before entries : List CuEntry)
    → Descends (2 ^ 32 - 1) before
    → AreSmall entries
    → Ascends 0 (insertion_sort before entries)
unfolding insertion_sort
sort-Ascends before [] d s =
    subst (Ascends 0) (append-nil (reverse before)) (reverse-Ascends _ before [] d tt)
sort-Ascends before (e ∷ entries) d s =
    sort-Ascends (insert_from_right e before) entries (insert-Descends _ e before (omega arith) d)
      s.1

-- Sizes.

abbrev pub unsized : CuEntry → CuEntry
unsized e = record e { func_size = 0 }

-- In the order of their functions, each of which ends where the next one starts; the last one has 256 bytes.
abbrev pub AreTiled : List CuEntry → Type 0
AreTiled [] = Unit {0}
AreTiled (e ∷ []) = e.func_size ≡ 256
AreTiled (e ∷ e' ∷ entries) =
    (e.func_offset + e.func_size ≡ e'.func_offset) × AreTiled (e' ∷ entries)

sizes-AreTiled :
    (bound : ℕ) (entries : List CuEntry)
    → Ascends bound entries
    → AreSmall entries
    → AreTiled (set_sizes entries)
unfolding set_sizes
sizes-AreTiled bound [] a s = tt
sizes-AreTiled bound (e ∷ []) a s = refl
sizes-AreTiled bound (e ∷ e' ∷ []) a s = (omega arith, refl)
sizes-AreTiled bound (e ∷ e' ∷ e'' ∷ entries) a s =
    (omega arith, sizes-AreTiled e.func_offset (e' ∷ e'' ∷ entries) a.1 s.1)

sizes-unsized : (entries : List CuEntry) → map unsized (set_sizes entries) ≡ map unsized entries
unfolding set_sizes
sizes-unsized [] = refl
sizes-unsized (e ∷ []) = refl
sizes-unsized (e ∷ e' ∷ entries) = ap (λ t. unsized e ∷ t) (sizes-unsized (e' ∷ entries))

-- From a section of version 1, the code collects all the entries of its pages and nothing else. They are in
-- the order of their functions, each function ends where the next one starts, and the last has 256 bytes.
pub collect_entries-AreTiled :
    (info : List ℕ) (unwind_size : ℕ)
    → AreBytes info
    → u32_at info 0 ≡ 1
    → (entries : List CuEntry) × (collect_entries info unwind_size ≡ some entries)
      × AreTiled entries
      × Perm
          (map unsized entries)
          (map unsized (pages_entries info unwind_size 0 (u32_at info 24 - 1)))
unfolding collect_entries
collect_entries-AreTiled info unwind_size bytes version =
    let pages : ℕ = u32_at info 24 - 1 in
    let total : ℕ = count_entries info unwind_size 0 pages in
    let all : List CuEntry = pages_entries info unwind_size 0 pages in
    let found : List CuEntry = take total all in
    let sorted : List CuEntry = insertion_sort [] found in
    let small : AreSmall found =
      AreSmall-take total all (AreSmall-pages info bytes unwind_size 0 pages) in
    (
      set_sizes sorted,
      rw version refl,
      sizes-AreTiled 0 sorted (sort-Ascends [] found tt small) (AreSmall-sort [] found tt small),
      subst (λ t. Perm t (map unsized all)) (sym (sizes-unsized sorted))
          (subst (λ t. Perm (map unsized sorted) (map unsized t))
            (take-pages info unwind_size 0 pages) (Perm.map unsized (sort-perm [] found))),
    )
