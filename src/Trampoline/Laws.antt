-- ===== src/Trampoline/Laws.antt =====
-- A written trampoline, run.
use machgate.Base.{
  ℕ, ◌+◌, ◌*◌, ◌/◌, ◌%◌, ◌^◌, ◌<◌, ◌≤◌, ◌==◌, ◌≡◌, ◌⊎◌, inl, inr, refl, ap, subst, ◌∙◌, arith,
  if◌then◌else◌, true, false, ◌&&◌, List, [], ◌++◌, Option, none, some, ℤ, sub_ℕ, shr_ℤ, le, unle,
  unle-le,
}
use machgate.Arm64.{branch_in_range, enc_b}
use machgate.Arm64.Branch.{opcode, byte_target, branch_in_range-reaches}
use machgate.Memory.{
  Memory, store, load, Outside, Holds, Holds-append, store-Outside, load-store, load-store_apart,
}
use machgate.Trampoline.{
  State, has_room, next_island, island_bytes, alloc_island, is_far, b_insn, write_trampoline,
  trampoline_ldr_x16, trampoline_br_x16,
}

abbrev pub word_at : Memory → ℕ → ℕ
word_at m a = unle 4 (load m a 4)

-- Where a processor goes from an LDR of a literal ahead and a BR to its register.
abbrev pub island_target : Memory → ℕ → Option ℕ
island_target m at =
    let ldr = word_at m at in
    let br = word_at m (at + 4) in
    if (ldr / 2 ^ 24 == 0x58) && (br == 0xD61F0000 + ldr % 32 * 32)
    then some (unle 8 (load m (at + 4 * (ldr / 32 % 2 ^ 19)) 8))
    else none

-- Where a call of a function goes that begins with a B to such an island.
abbrev pub call_target : Memory → ℕ → Option ℕ
call_target m func_addr =
    let b = word_at m func_addr in
    if opcode b == 5 then island_target m (byte_target func_addr b) else none

island_target-island :
    (m : Memory) (at native_addr : ℕ)
    → native_addr < 2 ^ 64
    → Holds m at (island_bytes native_addr)
    → island_target m at ≡ some native_addr
island_target-island m at native_addr h holds =
    let (ldr, rest) =
      Holds-append m at (le 4 trampoline_ldr_x16) (le 4 trampoline_br_x16 ++ le 8 native_addr)
        holds in
    let (br, target) = Holds-append m (at + 4) (le 4 trampoline_br_x16) (le 8 native_addr) rest in
    let ldr_word : word_at m at ≡ trampoline_ldr_x16 = ap (unle 4) ldr in
    let br_word : word_at m (at + 4) ≡ trampoline_br_x16 = ap (unle 4) br in
    let at_8 : at + 4 + 4 ≡ at + 8 = omega arith in
    let target' : load m (at + 8) 8 ≡ le 8 native_addr =
      subst (λ a. load m a 8 ≡ le 8 native_addr) at_8 target in
    rw ldr_word (rw br_word (ap some (ap (unle 8) target' ∙ unle-le 8 native_addr [] h)))

is_far-branch_in_range :
    (pc target : ℕ) → is_far (sub_ℕ target pc) ≡ false → branch_in_range (sub_ℕ target pc) ≡ true
unfolding branch_in_range
is_far-branch_in_range pc target h = ground arith

b_insn-enc_b : (offset : ℤ) → b_insn offset ≡ enc_b (shr_ℤ offset 2)
unfolding enc_b
b_insn-enc_b offset = refl

-- A B to an island of the native function.
abbrev pub IsTrampoline : Memory → (func_addr native_addr at : ℕ) → Type 0
IsTrampoline m func_addr native_addr at =
    Holds m func_addr (le 4 (b_insn (sub_ℕ at func_addr))) × Holds m at (island_bytes native_addr)

b_word :
    (func_addr at : ℕ) → is_far (sub_ℕ at func_addr) ≡ false → b_insn (sub_ℕ at func_addr) < 2 ^ 32
b_word func_addr at near =
    let (op, _, _, _) =
      branch_in_range-reaches func_addr at (is_far-branch_in_range func_addr at near) in
    let op' : b_insn (sub_ℕ at func_addr) / 2 ^ 26 ≡ 5 =
      ap (λ w. w / 2 ^ 26) (b_insn-enc_b (sub_ℕ at func_addr)) ∙ op in
    omega arith

pub IsTrampoline-calls :
    (m : Memory) (func_addr native_addr at : ℕ)
    → native_addr < 2 ^ 64
    → is_far (sub_ℕ at func_addr) ≡ false
    → IsTrampoline m func_addr native_addr at
    → call_target m func_addr ≡ some native_addr
IsTrampoline-calls m func_addr native_addr at small near (branch, island) =
    let w : ℕ = b_insn (sub_ℕ at func_addr) in
    let e : word_at m func_addr ≡ enc_b (shr_ℤ (sub_ℕ at func_addr) 2) =
      ap (unle 4) branch
      ∙ unle-le 4 w [] (b_word func_addr at near)
      ∙ b_insn-enc_b (sub_ℕ at func_addr) in
    let (op, target, _, _) =
      branch_in_range-reaches func_addr at (is_far-branch_in_range func_addr at near) in
    rw e (rw op (rw target (island_target-island m at native_addr small island)))

-- The place of the pool, and a function that every island of it can be reached from.
abbrev pub IsClose : (pool size func_addr : ℕ) → Type 0
IsClose pool size func_addr =
    (pool + size ≤ func_addr + 2 ^ 27)
    × (func_addr ≤ pool + 2 ^ 27)
    × (func_addr % 4 ≡ 0)
    × ((func_addr + 4 ≤ pool) ⊎ (pool + size ≤ func_addr))

pub record HasRoom (s : State) (n : ℕ) : Type 0 where
  pub is_set : 0 < s.island_pool
  pub is_aligned : s.island_pool % 4 ≡ 0
  pub used_is_aligned : s.island_pool_used % 4 ≡ 0
  pub fits : s.island_pool_used + 16 * n ≤ s.island_pool_size

-- What a write does: a trampoline to the next island, and nothing beside it.
pub record IsWritten (func_addr native_addr : ℕ) (s s' : State) : Type 0 where
  pub near : is_far (sub_ℕ (next_island s) func_addr) ≡ false
  pub there : IsTrampoline s'.memory func_addr native_addr (next_island s)
  pub others_kept :
      (x : ℕ) → Outside x func_addr 4 → Outside x (next_island s) 16 → s'.memory x ≡ s.memory x
  pub same_pool : s'.island_pool ≡ s.island_pool
  pub same_size : s'.island_pool_size ≡ s.island_pool_size
  pub used : s'.island_pool_used ≡ s.island_pool_used + 16

close-near :
    (pool_at func_addr : ℕ)
    → pool_at < func_addr + 2 ^ 27
    → func_addr ≤ pool_at + 2 ^ 27
    → pool_at % 4 ≡ 0
    → func_addr % 4 ≡ 0
    → is_far (sub_ℕ pool_at func_addr) ≡ false
close-near pool_at func_addr h k a b = ground arith

apart_island :
    (s : State) (n func_addr : ℕ)
    → HasRoom s (n + 1)
    → IsClose s.island_pool s.island_pool_size func_addr
    → (func_addr + 4 ≤ next_island s) ⊎ (next_island s + 16 ≤ func_addr)
apart_island s n func_addr room (_, _, _, inl below) = let h = room.fits in inl (omega arith)
apart_island s n func_addr room (_, _, _, inr above) = let h = room.fits in inr (omega arith)

apart_swapped : (a b : ℕ) → ((a + 4 ≤ b) ⊎ (b + 16 ≤ a)) → (b + 16 ≤ a) ⊎ (a + 4 ≤ b)
apart_swapped a b (inl h) = inr h
apart_swapped a b (inr h) = inl h

pub write_trampoline-IsWritten :
    (func_addr native_addr n : ℕ) (s : State)
    → HasRoom s (n + 1)
    → IsClose s.island_pool s.island_pool_size func_addr
    → ((write_trampoline func_addr native_addr s).0 ≡ true)
      × IsWritten func_addr native_addr s (write_trampoline func_addr native_addr s).1
unfolding write_trampoline alloc_island
write_trampoline-IsWritten func_addr native_addr n s room close =
    let (c1, c2, c3, c4) = close in
    let set = room.is_set in
    let aligned = room.is_aligned in
    let used_aligned = room.used_is_aligned in
    let fits = room.fits in
    let has : has_room s ≡ true = ground arith in
    let at : ℕ = next_island s in
    let set_at : (at == 0) ≡ false = ground arith in
    let near : is_far (sub_ℕ at func_addr) ≡ false =
      close-near at func_addr (omega arith) (omega arith) (omega arith) c3 in
    let apart = apart_island s n func_addr room close in
    let with_island : Memory = store s.memory at (island_bytes native_addr) in
    let b : List ℕ = le 4 (b_insn (sub_ℕ at func_addr)) in
    rw has (
      rw set_at (
        rw near (
          refl,
          record {
            near = near;
            there = (
              load-store with_island func_addr b,
              load-store_apart with_island func_addr b at 16 (apart_swapped func_addr at apart)
                  ∙ load-store s.memory at (island_bytes native_addr),
            );
            others_kept = λ x h k.
                store-Outside with_island func_addr b x h
                ∙ store-Outside s.memory at (island_bytes native_addr) x k;
            same_pool = refl;
            same_size = refl;
            used = refl;
          },
        )))
