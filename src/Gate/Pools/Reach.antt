-- ===== src/Gate/Pools/Reach.antt =====
-- An instruction near a pool with room is redirected to its island there.
use machgate.Base.{ℕ, ◌+◌, ◌≤◌, ◌≡◌, List, true, get_elem?}
use machgate.Base.{some, sub_ℕ}
use machgate.Arm64.{branch_in_range}
use machgate.Gate.Pools.{Pool, island_bytes, find_gate_pool}

-- A pool with room for an island that the instruction reaches.
pub record Serves (instr : ℕ) (pools : List Pool) (i : ℕ) : Type 0 where
  pub pool : Pool
  pub stands : get_elem? pools i ≡ some pool
  pub room : pool.cur + island_bytes ≤ pool.end
  pub near : branch_in_range (sub_ℕ pool.cur instr) ≡ true

-- The pool that a search finds.
pub record Found (instr : ℕ) (pools : List Pool) (j : ℕ) : Type 0 where
  pub index : ℕ
  pub is_found : find_gate_pool instr pools ≡ some index
  pub early : index ≤ j
