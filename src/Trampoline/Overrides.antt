-- ===== src/Trampoline/Overrides.antt =====
-- The overrides of a program.
use machgate.Base.{
  ℕ, zero, suc, ◌+◌, ◌^◌, ◌<◌, ◌≤◌, ◌==◌, ◌≡◌, ◌≢◌, ◌⊎◌, inl, inr, refl, sym, ap, ap₂, subst, ◌∙◌,
  arith, Bool, Bool-cases, true, false, ne→==_false, ==_iff, List, [], ◌∷◌, length, some,
}
use machgate.Memory.{Memory, load, Outside}
use machgate.Trampoline.{
  State, next_island, Symbol, Text, func_addr_of, override_of, write_trampoline,
  trampoline_patch_overrides,
}
use machgate.Trampoline.Laws.{
  call_target, IsTrampoline-calls, IsClose, HasRoom, IsWritten, write_trampoline-IsWritten,
}

load_same :
    (m m' : Memory) (a n : ℕ)
    → ((k : ℕ) → k < n → m' (a + k) ≡ m (a + k))
    → load m' a n ≡ load m a n
load_same m m' a zero same = refl
load_same m m' a (suc n) same =
    ap₂ ◌∷◌ (subst (λ x. m' x ≡ m x) (let e : a + 0 ≡ a = omega arith in e) (same 0 (omega arith)))
      (load_same m m' (a + 1) n (λ k h.
        subst (λ x. m' x ≡ m x) (let e : a + (k + 1) ≡ a + 1 + k = omega arith in e)
          (same (k + 1) (omega arith))))

module _ (text : Text) (dlsym : List ℕ → ℕ) (match_local : Bool) where
  abbrev target_of : Symbol → ℕ
  target_of symbol = override_of text dlsym match_local symbol

  abbrev func_of : Symbol → ℕ
  func_of symbol = func_addr_of text symbol

  abbrev pub AreApart : (func_addr : ℕ) → List Symbol → Type 0
  AreApart func_addr [] = Unit {0}
  AreApart func_addr (symbol ∷ syms) =
      (target_of symbol ≢ 0 → (func_addr + 4 ≤ func_of symbol) ⊎ (func_of symbol + 4 ≤ func_addr))
      × AreApart func_addr syms

  -- The functions with an override are within reach of the pool, and no two overlap.
  abbrev pub AreOverridable : (pool size : ℕ) → List Symbol → Type 0
  AreOverridable pool size [] = Unit {0}
  AreOverridable pool size (symbol ∷ syms) =
      (target_of symbol ≢ 0
        → IsClose pool size (func_of symbol)
          × (target_of symbol < 2 ^ 64)
          × AreApart (func_of symbol) syms)
      × AreOverridable pool size syms

  -- A byte that is in none of these functions.
  abbrev pub IsBeside : (x : ℕ) → List Symbol → Type 0
  IsBeside x [] = Unit {0}
  IsBeside x (symbol ∷ syms) =
      (target_of symbol ≢ 0 → Outside x (func_of symbol) 4) × IsBeside x syms

  abbrev pub AreReplaced : Memory → List Symbol → Type 0
  AreReplaced m [] = Unit {0}
  AreReplaced m (symbol ∷ syms) =
      (target_of symbol ≢ 0 → call_target m (func_of symbol) ≡ some (target_of symbol))
      × AreReplaced m syms

  abbrev pub overridden : List Symbol → ℕ
  overridden [] = 0
  overridden (symbol ∷ syms) = elim (target_of symbol == 0) [
    | true ↦ overridden syms
    | false ↦ 1 + overridden syms
  ]

  func-IsBeside :
      (func_addr k : ℕ) (syms : List Symbol)
      → k < 4
      → AreApart func_addr syms
      → IsBeside (func_addr + k) syms
  func-IsBeside func_addr k [] h apart = tt
  func-IsBeside func_addr k (symbol ∷ syms) h (apart, rest) = (
    λ ne. elim (apart ne) [ inl below ↦ inl (omega arith) | inr above ↦ inr (omega arith) ],
    func-IsBeside func_addr k syms h rest,
  )

  pool-IsBeside :
      (pool size x : ℕ) (syms : List Symbol)
      → pool ≤ x
      → x < pool + size
      → AreOverridable pool size syms
      → IsBeside x syms
  pool-IsBeside pool size x [] above below all = tt
  pool-IsBeside pool size x (symbol ∷ syms) above below (this, rest) = (
    λ ne.
        let (close, _, _) = this ne in
        let (_, _, _, beside) = close in
        elim beside [ inl under ↦ inr (omega arith) | inr over ↦ inl (omega arith) ],
    pool-IsBeside pool size x syms above below rest,
  )

  -- What the loop does.
  pub record IsOverridden (syms : List Symbol) (s : State) (r : ℕ × State) : Type 0 where
    pub all_replaced : AreReplaced r.1.memory syms
    pub count : r.0 ≡ overridden syms
    pub others_kept :
        (x : ℕ)
        → IsBeside x syms
        → ((x < next_island s) ⊎ (s.island_pool + s.island_pool_size ≤ x))
        → r.1.memory x ≡ s.memory x

  skip-IsOverridden :
      (symbol : Symbol) (syms : List Symbol) (s : State) (r : ℕ × State)
      → (target_of symbol == 0) ≡ true
      → IsOverridden syms s r
      → IsOverridden (symbol ∷ syms) s r
  skip-IsOverridden symbol syms s r e rest =
      let zero : target_of symbol ≡ 0 = (==_iff (target_of symbol) 0).0 e in
      record {
        all_replaced = (λ ne. absurd (ne zero), rest.all_replaced);
        count = rw (e, overridden) rest.count;
        others_kept = λ x beside out. rest.others_kept x beside.1 out;
      }

  module _ (symbol : Symbol) (syms : List Symbol) (s s1 : State) (r : ℕ × State)
      (ne : target_of symbol ≢ 0) (room : HasRoom s (length syms + 1))
      (all : AreOverridable s.island_pool s.island_pool_size (symbol ∷ syms))
      (written : IsWritten (func_of symbol) (target_of symbol) s s1)
      (rest : IsOverridden syms s1 r) where
    branch_kept : load r.1.memory (func_of symbol) 4 ≡ load s1.memory (func_of symbol) 4
    branch_kept =
        let (close, _, apart) = all.0 ne in
        let (_, _, _, beside) = close in
        let same_pool = written.same_pool in
        let same_size = written.same_size in
        load_same s1.memory r.1.memory (func_of symbol) 4 (λ k h.
          rest.others_kept (func_of symbol + k) (func-IsBeside (func_of symbol) k syms h apart)
            (elim beside [ inl under ↦ inl (omega arith) | inr over ↦ inr (omega arith) ]))

    island_kept : load r.1.memory (next_island s) 16 ≡ load s1.memory (next_island s) 16
    island_kept =
        let fits = room.fits in
        let same_pool = written.same_pool in
        let used = written.used in
        load_same s1.memory r.1.memory (next_island s) 16 (λ k h.
          rest.others_kept (next_island s + k)
            (pool-IsBeside s.island_pool s.island_pool_size (next_island s + k) syms (omega arith)
              (omega arith) all.1)
            (inl (omega arith)))

    write-IsOverridden : IsOverridden (symbol ∷ syms) s (1 + r.0, r.1)
    write-IsOverridden =
        let (close, small, apart) = all.0 ne in
        let fits = room.fits in
        let same_pool = written.same_pool in
        let same_size = written.same_size in
        let used = written.used in
        let (branch, island) = written.there in
        record {
          all_replaced = (
            λ ne'.
                IsTrampoline-calls r.1.memory (func_of symbol) (target_of symbol) (next_island s)
                  small written.near (branch_kept ∙ branch, island_kept ∙ island),
            rest.all_replaced,
          );
          count = rw (ne→==_false (target_of symbol) 0 ne, overridden) (ap (λ n. 1 + n) rest.count);
          others_kept = λ x beside out. elim out [
            | inl under ↦
                rest.others_kept x beside.1 (inl (omega arith))
                ∙ written.others_kept x (beside.0 ne) (inl under)
            | inr over ↦
                rest.others_kept x beside.1 (inr (omega arith))
                ∙ written.others_kept x (beside.0 ne) (inr (omega arith))
          ];
        }

  HasRoom-next :
      (func_addr native_addr n : ℕ) (s s1 : State)
      → HasRoom s (n + 1)
      → IsWritten func_addr native_addr s s1
      → HasRoom s1 n
  HasRoom-next func_addr native_addr n s s1 room written =
      let set = room.is_set in
      let aligned = room.is_aligned in
      let used_aligned = room.used_is_aligned in
      let fits = room.fits in
      let same_pool = written.same_pool in
      let same_size = written.same_size in
      let used = written.used in
      record {
        is_set = omega arith;
        is_aligned = omega arith;
        used_is_aligned = omega arith;
        fits = omega arith;
      }

  -- If the pool has room for an island for each symbol, and the functions that have an override do not overlap and
  -- are within reach of the pool, then after the loop a call of each of these leads to its override; the result
  -- is their number, and no byte outside of these functions and the free part of the pool is changed.
  pub overrides-IsOverridden :
      (syms : List Symbol) (s : State)
      → HasRoom s (length syms)
      → AreOverridable s.island_pool s.island_pool_size syms
      → IsOverridden syms s (trampoline_patch_overrides text dlsym match_local syms s)
  unfolding trampoline_patch_overrides
  overrides-IsOverridden [] s room all = record {
    all_replaced = tt;
    count = refl;
    others_kept = λ x beside out. refl;
  }
  overrides-IsOverridden (symbol ∷ syms) s room all = elim (Bool-cases (target_of symbol == 0)) [
    | inl e ↦
        let fits = room.fits in
        let set = room.is_set in
        let aligned = room.is_aligned in
        let used_aligned = room.used_is_aligned in
        let fewer : HasRoom s (length syms) = record {
          is_set = set;
          is_aligned = aligned;
          used_is_aligned = used_aligned;
          fits = omega arith;
        } in
        rw (e, trampoline_patch_overrides)
          (skip-IsOverridden symbol syms s
            (trampoline_patch_overrides text dlsym match_local syms s) e
            (overrides-IsOverridden syms s fewer all.1))
    | inr e ↦
        let ne : target_of symbol ≢ 0 = λ z. absurd (cc ((==_iff (target_of symbol) 0).1 z, e)) in
        let room' : HasRoom s (length syms + 1) =
          subst (HasRoom s) (let c : suc (length syms) ≡ length syms + 1 = omega arith in c) room in
        let s1 : State = (write_trampoline (func_of symbol) (target_of symbol) s).1 in
        let (success, written) =
          write_trampoline-IsWritten (func_of symbol) (target_of symbol) (length syms) s room'
            (all.0 ne).0 in
        let all' : AreOverridable s1.island_pool s1.island_pool_size syms =
          subst (λ p. AreOverridable p s1.island_pool_size syms) (sym written.same_pool)
            (subst (λ z. AreOverridable s.island_pool z syms) (sym written.same_size) all.1) in
        let rest =
          overrides-IsOverridden syms s1
            (HasRoom-next (func_of symbol) (target_of symbol) (length syms) s s1 room' written)
            all' in
        rw (e, trampoline_patch_overrides)
          (rw success (
            write-IsOverridden symbol syms s s1
              (trampoline_patch_overrides text dlsym match_local syms s1) ne room' all written
              rest))
  ]
