-- ===== src/EhFrame/Hdr/Table.antt =====
-- What a reader finds in the table.
use machgate.Base.{
  ℕ, zero, suc, ◌+◌, ◌-◌, ◌*◌, ◌^◌, ◌<◌, ◌≤◌, ◌≡◌, ◌⊎◌, inl, inr, refl, arith, ap, ap₂, subst, ◌∙◌,
  leb, true, Bool-cases, List, [], ◌∷◌, ◌++◌, length, map, drop, Option, none, some, u32, u64, le,
  unle, field, unle-le,
}
use machgate.EhFrame.Read.{HdrEntry, sign_extended}
use machgate.EhFrame.Hdr.{difference, is_int32, behind, eh_frame_table, addresses}

-- The address that a signed field of 32 bits gives from a base.
abbrev pub from_base : (base rel : ℕ) → ℕ
from_base base rel = u64 (base + sign_extended 32 rel)

abbrev pub read_table : (base n : ℕ) → List ℕ → List (ℕ × ℕ)
read_table base zero bytes = []
read_table base (suc n) bytes =
    (from_base base (unle 4 bytes), from_base base (field 4 4 bytes))
    ∷ read_table base n (drop 8 bytes)

abbrev pub IsNear : (base address : ℕ) → Type 0
IsNear base address = (base ≤ address + 2 ^ 31) × (address < base + 2 ^ 31)

-- The lower half of the address space, where programs are.
abbrev pub IsLow : ℕ → Type 0
IsLow address = address < 2 ^ 63

abbrev pub AreNear : (base : ℕ) → List (ℕ × ℕ) → Type 0
AreNear base [] = Unit {0}
AreNear base ((a, b) ∷ entries) = (IsNear base a × IsNear base b) × AreNear base entries

abbrev pub AreLow : List (ℕ × ℕ) → Type 0
AreLow [] = Unit {0}
AreLow ((a, b) ∷ entries) = (IsLow a × IsLow b) × AreLow entries

-- The difference, whose sign is that of the 64 bits.
difference_cases :
    (base address : ℕ)
    → IsLow base
    → IsLow address
    → ((base ≤ address) × (difference address base ≡ address - base))
      ⊎ ((address < base) × (difference address base ≡ 2 ^ 64 - (base - address)))
difference_cases base address low_base low_address = elim (Bool-cases (leb base address)) [
  | inl above ↦ let h : base ≤ address = ground arith in inl (h, omega arith)
  | inr below ↦ let h : address < base = ground arith in inr (h, omega arith)
]

pub is_int32-IsNear :
    (base address : ℕ)
    → IsLow base
    → IsLow address
    → is_int32 (difference address base) ≡ true
    → IsNear base address
is_int32-IsNear base address low_base low_address h =
    elim (difference_cases base address low_base low_address) [
      | inl (above, d) ↦
          let small : is_int32 (address - base) ≡ true = subst (λ t. is_int32 t ≡ true) d h in
          (omega arith, ground arith)
      | inr (below, d) ↦
          let large : is_int32 (2 ^ 64 - (base - address)) ≡ true =
            subst (λ t. is_int32 t ≡ true) d h in
          (ground arith, omega arith)
    ]

pub IsNear-is_int32 :
    (base address : ℕ)
    → IsLow base
    → IsLow address
    → IsNear base address
    → is_int32 (difference address base) ≡ true
IsNear-is_int32 base address low_base low_address (h, k) =
    elim (difference_cases base address low_base low_address) [
      | inl (above, d) ↦ rw d (ground arith)
      | inr (below, d) ↦ rw d (ground arith)
    ]

pub from_base-difference :
    (base address : ℕ)
    → IsLow base
    → IsLow address
    → IsNear base address
    → from_base base (u32 (difference address base)) ≡ address
from_base-difference base address low_base low_address (h, k) =
    elim (difference_cases base address low_base low_address) [
      | inl (above, d) ↦ rw d (ground arith)
      | inr (below, d) ↦ rw d (ground arith)
    ]

-- With the table an answer is right: a refused one has a pointer that does not fit, and another reads back.
abbrev pub TableAnswer : (base : ℕ) (entries : List (ℕ × ℕ)) → Option (List ℕ) → Type 0
TableAnswer base entries none = ¬ AreNear base entries
TableAnswer base entries (some bytes) =
    (length bytes ≡ 8 * length entries) × (read_table base (length entries) bytes ≡ entries)

behind-TableAnswer :
    (base a b : ℕ) (entries : List (ℕ × ℕ))
    → IsLow base
    → (IsLow a × IsLow b)
    → (IsNear base a × IsNear base b)
    → (rest : Option (List ℕ)) → TableAnswer base entries rest
    → TableAnswer base
        ((a, b) ∷ entries)
        (behind (le 4 (u32 (difference a base)) ++ le 4 (u32 (difference b base))) rest)
behind-TableAnswer base a b entries low_base low near none refused = λ all. refused all.1
behind-TableAnswer base a b entries low_base (low_a, low_b) (near_a, near_b) (some bytes)
      (long, reads) =
    let rel_a = u32 (difference a base) in
    let rel_b = u32 (difference b base) in
    let read_a : unle 4 (le 4 rel_a ++ (le 4 rel_b ++ bytes)) ≡ rel_a =
      unle-le 4 rel_a (le 4 rel_b ++ bytes) (omega arith) in
    let read_b : unle 4 (le 4 rel_b ++ bytes) ≡ rel_b = unle-le 4 rel_b bytes (omega arith) in
    (
      omega arith,
      ap₂ ◌∷◌
          (ap₂ (λ x y. (x, y))
            (ap (from_base base) read_a ∙ from_base-difference base a low_base low_a near_a)
            (ap (from_base base) read_b ∙ from_base-difference base b low_base low_b near_b))
          reads,
    )

pub table-TableAnswer :
    (base : ℕ) (entries : List (ℕ × ℕ))
    → IsLow base
    → AreLow entries
    → TableAnswer base entries (eh_frame_table base entries)
unfolding eh_frame_table
table-TableAnswer base [] low_base low = (refl, refl)
table-TableAnswer base ((a, b) ∷ entries) low_base ((low_a, low_b), low) =
    let rest = table-TableAnswer base entries low_base low in
    elim (Bool-cases (is_int32 (difference a base))) [
      | inl fits_a ↦ elim (Bool-cases (is_int32 (difference b base))) [
        | inl fits_b ↦ rw fits_a (
            rw fits_b (
              behind-TableAnswer base a b entries low_base (low_a, low_b)
                (
                  is_int32-IsNear base a low_base low_a fits_a,
                  is_int32-IsNear base b low_base low_b fits_b,
                )
                (eh_frame_table base entries) rest))
        | inr far_b ↦
            rw fits_a (
              rw far_b
                (λ near. absurd (cc (IsNear-is_int32 base b low_base low_b near.0.1, far_b))))
      ]
      | inr far_a ↦
          rw far_a (λ near. absurd (cc (IsNear-is_int32 base a low_base low_a near.0.0, far_a)))
    ]

module _ (hdr frame : ℕ) (entries : List HdrEntry) where
  -- The three numbers in front of the table, and the table.
  pub record HdrReads (bytes : List ℕ) : Type 0 where
    pub size : length bytes ≡ 12 + 8 * length entries
    pub frame_there : from_base (hdr + 4) (field 4 4 bytes) ≡ frame
    pub count_there : field 4 8 bytes ≡ length entries
    pub table_there : read_table hdr (length entries) (drop 12 bytes) ≡ map addresses entries

  abbrev pub HdrAnswer : Option (List ℕ) → Type 0
  HdrAnswer none = ¬ (IsNear (hdr + 4) frame × AreNear hdr (map addresses entries))
  HdrAnswer (some bytes) = HdrReads bytes
