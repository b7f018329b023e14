-- ===== src/Gate/Pools/Search.antt =====
-- The rounds that the two searches are given are enough.
use machgate.Base.{
  ℕ, zero, suc, ◌+◌, ◌-◌, ◌*◌, ◌/◌, ◌<◌, ◌≤◌, ◌≡◌, refl, arith, List, Option-cases, Bool-cases, inl,
  inr, true, ltb,
}
use machgate.Gate.Pools.{Mmap, Pool, search_step, map_gate_pool_at, search_down, search_up}

module _ (mmap : Mmap) (pools : List Pool) (size bound : ℕ) where
  down_rounds :
      (n m address : ℕ)
      → n ≤ m
      → address < n * search_step
      → search_down mmap pools size bound m address ≡ search_down mmap pools size bound n address
  unfolding search_down
  down_rounds zero m address le h = absurd (omega arith)
  down_rounds (suc n) zero address le h = absurd (omega arith)
  down_rounds (suc n) (suc m) address le h = elim (Bool-cases (ltb address bound)) [
    | inl past ↦ rw past refl
    | inr inside ↦ rw inside (elim (Option-cases (map_gate_pool_at mmap pools address size)) [
      | inr (base, mapped) ↦ rw mapped refl
      | inl unmapped ↦ rw unmapped (elim (Bool-cases (ltb address (bound + search_step))) [
        | inl last ↦ rw last refl
        | inr more ↦ rw more (down_rounds n m (address - search_step) (omega arith) (ground arith))
      ])
    ])
  ]

  up_rounds :
      (n m address : ℕ)
      → n ≤ m
      → bound < address + n * search_step
      → search_up mmap pools size bound m address ≡ search_up mmap pools size bound n address
  unfolding search_up
  up_rounds zero zero address le h = refl
  up_rounds zero (suc m) address le h =
      let past : ltb bound address ≡ true = ground arith in rw past refl
  up_rounds (suc n) zero address le h = absurd (omega arith)
  up_rounds (suc n) (suc m) address le h = elim (Bool-cases (ltb bound address)) [
    | inl past ↦ rw past refl
    | inr inside ↦ rw inside (elim (Option-cases (map_gate_pool_at mmap pools address size)) [
      | inr (base, mapped) ↦ rw mapped refl
      | inl unmapped ↦ rw unmapped (elim (Bool-cases (ltb (bound - address) search_step)) [
        | inl last ↦ rw last refl
        | inr more ↦ rw more (up_rounds n m (address + search_step) (omega arith) (ground arith))
      ])
    ])
  ]

  -- The rounds that the two searches for a free address are given, one more than there are whole steps
  -- in the start and in the maximum, are enough: with any greater number they find the same.
  search_rounds :
      (start m : ℕ)
      → start / search_step < m
      → bound / search_step < m
      → (search_down mmap pools size bound m start
          ≡ search_down mmap pools size bound (start / search_step + 1) start)
        × (search_up mmap pools size bound m start
            ≡ search_up mmap pools size bound (bound / search_step + 1) start)
  search_rounds start m hs hb = (
    down_rounds (start / search_step + 1) m start (omega arith) (omega arith),
    up_rounds (bound / search_step + 1) m start (omega arith) (omega arith),
  )
