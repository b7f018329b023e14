-- ===== src/Isa/Scratch.antt =====
-- `pick_scratch` of src/isa_emul.c.
pub mod Laws
use machgate.Base.{ℕ, zero, suc, ◌+◌, ◌-◌, ◌<<<◌, bit_and, ◌==◌, if◌then◌else◌, Bool}
use machgate.Base.{Option, none, some}

-- `!(exclude_mask & (1U << r))`
abbrev pub is_free : ℕ → ℕ → Bool
is_free exclude_mask r = bit_and exclude_mask (1 <<< r) == 0

-- The two loops, by the rounds left: `r` from `8 + k` down to 9, and from `29 - k` up to 28.
unfoldable pub pick_down : ℕ → ℕ → Option ℕ
pick_down exclude_mask zero = none
pick_down exclude_mask (suc k) =
    let rest = pick_down exclude_mask k in
    if is_free exclude_mask (9 + k) then some (9 + k) else rest

unfoldable pub pick_up : ℕ → ℕ → Option ℕ
pick_up exclude_mask zero = none
pick_up exclude_mask (suc k) =
    let rest = pick_up exclude_mask k in
    if is_free exclude_mask (28 - k) then some (28 - k) else rest

unfoldable pub pick_scratch : ℕ → ℕ
unfolding pick_down pick_up
pick_scratch exclude_mask = elim (pick_down exclude_mask 8) [
  | some r ↦ r
  | none ↦ elim (pick_up exclude_mask 12) [ some r ↦ r | none ↦ 8 ]
]
