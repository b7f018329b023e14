-- ===== src/Trampoline/Mangling.antt =====
-- `try_mangling_variants` of src/trampoline.c: the C++ names of one function on the two systems differ in y and m.
pub mod Search
use machgate.Base.{
  ℕ, zero, suc, ◌+◌, ◌-◌, ◌*◌, ◌/◌, ◌%◌, ◌^◌, ◌<◌, ◌≤◌, ◌==◌, ◌≡◌, ◌≢◌, ◌⊎◌, inl, inr, refl, sym,
  ap, ap₂, ◌∙◌, arith, if◌then◌else◌, Bool-cases, true, false, ne→==_false, ==_iff, List, [], ◌∷◌,
}

-- How many of the first `left` occurrences of a character there are.
unfoldable pub occurrences : (left c : ℕ) → List ℕ → ℕ
occurrences zero c name = 0
occurrences (suc left) c [] = 0
occurrences (suc left) c (x ∷ name) =
    if x == c then suc (occurrences left c name) else occurrences (suc left) c name

-- The occurrences whose bit of the mask is set are replaced, from the lowest bit on.
unfoldable pub variant : (left c d mask : ℕ) → List ℕ → List ℕ
variant zero c d mask name = name
variant (suc left) c d mask [] = []
variant (suc left) c d mask (x ∷ name) =
    if x == c
    then (if mask % 2 == 1 then d else x) ∷ variant left c d (mask / 2) name
    else x ∷ variant (suc left) c d mask name

module _ (dlsym : List ℕ → ℕ) where
  -- The first address among those of `k` masks.
  unfoldable pub try_masks : (c d k mask : ℕ) → List ℕ → ℕ
  unfolding variant
  try_masks c d zero mask name = 0
  try_masks c d (suc k) mask name =
      let rest = try_masks c d k (mask + 1) name in
      let addr = dlsym (variant 16 c d mask name) in if addr == 0 then rest else addr

  unfoldable pub try_mangling_variants : List ℕ → ℕ
  unfolding occurrences try_masks
  try_mangling_variants name =
      let ny = occurrences 16 b'y' name in
      let nm = occurrences 16 b'm' name in
      let forward = try_masks b'y' b'm' (2 ^ ny - 1) 1 name in
      let reverse = try_masks b'm' b'y' (2 ^ nm - 1) 1 name in
      if ny == 0 then 0 else if forward == 0 then reverse else forward
