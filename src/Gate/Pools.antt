-- ===== src/Gate/Pools.antt =====
-- The pools of src/syscall/syscall_gate.c and the patching of a section. Addresses are those of bytes.
-- `mmap` is a parameter: where the kernel maps, for the pools there are, a wanted address and a size.
pub mod Laws
pub mod Search
pub mod Reach
use machgate.Base.{
  ℕ, zero, suc, ◌+◌, ◌-◌, ◌*◌, ◌/◌, ◌%◌, ◌^◌, ◌==◌, ltb, leb, if◌then◌else◌, ◌||◌, Bool, true,
  false,
}
use machgate.Base.{
  List, [], ◌∷◌, ◌++◌, length, get_elem?, set, Option, some, none, bit_and, sub_ℕ, shr_ℤ,
}
use machgate.Arm64.{enc_b, branch_in_range}
use machgate.Gate.Island.{island_size, emit_island}

pub record Pool : Type 0 where
  pub base : ℕ
  pub size : ℕ
  pub cur : ℕ
  pub end : ℕ

abbrev pub pool_size : ℕ
pool_size = 256 * 1024

abbrev pub max_pools : ℕ
max_pools = 256

abbrev pub search_step : ℕ
search_step = 1024 * 1024

abbrev pub island_bytes : ℕ
island_bytes = island_size * 4

abbrev pub darwin_svc_0x80 : ℕ
darwin_svc_0x80 = 0xD4001001

abbrev pub Mmap : Type 0
Mmap = List Pool → (address size : ℕ) → Option ℕ

unfoldable pub align_down : ℕ → ℕ → ℕ
align_down value alignment = bit_and value (2 ^ 64 - alignment)

unfoldable pub align_up : ℕ → ℕ → ℕ
align_up value alignment = bit_and ((value + alignment - 1) % 2 ^ 64) (2 ^ 64 - alignment)

unfoldable pub register_gate_pool : List Pool → (base size : ℕ) → Option (List Pool)
register_gate_pool pools base size =
    if (base == 0) || ltb size island_bytes
    then none
    else if leb max_pools (length pools)
    then none
    else some
        (pools ++ (record { base = base; size = size; cur = base; end = base + size / 4 * 4 } ∷ []))

abbrev next_index : Option ℕ → Option ℕ
next_index none = none
next_index (some i) = some (suc i)

-- The index of the first pool with room for an island within the reach of the instruction.
unfoldable pub find_gate_pool : (instr : ℕ) → List Pool → Option ℕ
find_gate_pool instr [] = none
find_gate_pool instr (pool ∷ pools) =
    let rest = next_index (find_gate_pool instr pools) in
    if ltb pool.end (pool.cur + island_bytes)
    then rest
    else if branch_in_range (sub_ℕ pool.cur instr)
    then some 0
    else rest

-- Another address than the wanted one is unmapped again.
unfoldable pub map_gate_pool_at : Mmap → List Pool → (address size : ℕ) → Option ℕ
map_gate_pool_at mmap pools address size = elim (mmap pools address size) [
  | none ↦ none
  | some result ↦ if result == address then some result else none
]

-- The two search loops, by the rounds left.
unfoldable pub search_down : Mmap → List Pool → (size minimum rounds address : ℕ) → Option ℕ
search_down mmap pools size minimum zero address = none
search_down mmap pools size minimum (suc rounds) address =
    let rest = search_down mmap pools size minimum rounds (address - search_step) in
    if ltb address minimum then none else elim (map_gate_pool_at mmap pools address size) [
      | some base ↦ some base
      | none ↦ if ltb address (minimum + search_step) then none else rest
    ]

unfoldable pub search_up : Mmap → List Pool → (size maximum rounds address : ℕ) → Option ℕ
search_up mmap pools size maximum zero address = none
search_up mmap pools size maximum (suc rounds) address =
    let rest = search_up mmap pools size maximum rounds (address + search_step) in
    if ltb maximum address then none else elim (map_gate_pool_at mmap pools address size) [
      | some base ↦ some base
      | none ↦ if ltb (maximum - address) search_step then none else rest
    ]

unfoldable pub allocate_gate_pool_below :
    Mmap → List Pool → (instr size page : ℕ) → Option (List Pool)
allocate_gate_pool_below mmap pools instr size page =
    let range = 2 ^ 27 in
    let start = align_down (if ltb size instr then instr - size else page) page in
    let minimum = if ltb range instr then align_up (instr - range) page else page in
    elim (search_down mmap pools size minimum (start / search_step + 1) start) [
      | some base ↦ register_gate_pool pools base size
      | none ↦ elim (map_gate_pool_at mmap pools minimum size) [
        | some base ↦ register_gate_pool pools base size
        | none ↦ none
      ]
    ]

unfoldable pub allocate_gate_pool_above :
    Mmap → List Pool → (instr size page : ℕ) → Option (List Pool)
allocate_gate_pool_above mmap pools instr size page =
    let range = 2 ^ 27 in
    let start = align_up (instr + page) page in
    let maximum = align_down (instr + range - size) page in
    elim (search_up mmap pools size maximum (maximum / search_step + 1) start) [
      | some base ↦ register_gate_pool pools base size
      | none ↦ elim (map_gate_pool_at mmap pools maximum size) [
        | some base ↦ register_gate_pool pools base size
        | none ↦ none
      ]
    ]

-- The page size is `sysconf`'s, or 4096.
unfoldable pub allocate_gate_pool_near :
    Mmap → (page : ℕ) → List Pool → (instr : ℕ) → Option (List Pool)
allocate_gate_pool_near mmap page pools instr =
    let size = align_up pool_size page in
    elim (allocate_gate_pool_below mmap pools instr size page) [
      | some result ↦ some result
      | none ↦ allocate_gate_pool_above mmap pools instr size page
    ]

-- The pools and the index of the one to use.
unfoldable pub choose_pool : Mmap → (page : ℕ) → List Pool → (instr : ℕ) → Option (List Pool × ℕ)
choose_pool mmap page pools instr = elim (find_gate_pool instr pools) [
  | some i ↦ some (pools, i)
  | none ↦ elim (allocate_gate_pool_near mmap page pools instr) [
    | some result ↦ some (result, length result - 1)
    | none ↦ none
  ]
]

pub record PatchedInsn : Type 0 where
  pub pools : List Pool
  pub word : ℕ
  pub at : ℕ
  pub island : List ℕ

unfoldable pub place_gate : (dispatcher instr : ℕ) → List Pool → ℕ → Pool → PatchedInsn
place_gate dispatcher instr pools i pool = record {
  pools = set pools i (record pool { cur = pool.cur + island_bytes });
  word = enc_b (shr_ℤ (sub_ℕ pool.cur instr) 2);
  at = pool.cur;
  island = emit_island dispatcher instr;
}

unfoldable pub patch_instruction :
    Mmap → (page dispatcher : ℕ) → List Pool → (instr : ℕ) → Option PatchedInsn
patch_instruction mmap page dispatcher pools instr = elim (choose_pool mmap page pools instr) [
  | none ↦ none
  | some (pools', i) ↦ elim (get_elem? pools' i) [
    | none ↦ none
    | some pool ↦ some (place_gate dispatcher instr pools' i pool)
  ]
]

-- The code after the loop, the islands with their addresses, the pools, and whether no call failed.
pub record PatchedSection : Type 0 where
  pub code : List ℕ
  pub islands : List (ℕ × List ℕ)
  pub pools : List Pool
  pub patched : ℕ
  pub ok : Bool

abbrev pub gave_up : ℕ → List ℕ → List Pool → PatchedSection
gave_up word code pools = record {
  code = word ∷ code;
  islands = [];
  pools = pools;
  patched = 0;
  ok = false;
}

abbrev pub passed : ℕ → PatchedSection → PatchedSection
passed word rest = record rest { code = word ∷ rest.code }

abbrev pub gated : PatchedInsn → PatchedSection → PatchedSection
gated p rest = record rest {
  code = p.word ∷ rest.code;
  islands = (p.at, p.island) ∷ rest.islands;
  patched = rest.patched + 1;
}

-- The loop from the word at address `instr` on.
unfoldable pub patch_section :
    Mmap → (page dispatcher : ℕ) → List Pool → (instr : ℕ) → List ℕ → PatchedSection
patch_section mmap page dispatcher pools instr [] = record {
  code = [];
  islands = [];
  pools = pools;
  patched = 0;
  ok = true;
}
patch_section mmap page dispatcher pools instr (word ∷ code) =
    let skipped = patch_section mmap page dispatcher pools (instr + 4) code in
    if word == darwin_svc_0x80
    then elim (patch_instruction mmap page dispatcher pools instr) [
      | none ↦ gave_up word code pools
      | some p ↦ gated p (patch_section mmap page dispatcher p.pools (instr + 4) code)
    ]
    else passed word skipped
