-- ===== src/Trampoline/Mangling/Search.antt =====
-- The variants that the search tries are all of them.
use native.Mathlib.Nat.{pow-suc}
use machgate.Base.{
  ℕ, zero, suc, ◌+◌, ◌-◌, ◌*◌, ◌/◌, ◌%◌, ◌^◌, ◌<◌, ◌≤◌, ◌==◌, ◌≡◌, ◌≢◌, ◌⊎◌, inl, inr, refl, sym,
  ap, ap₂, ◌∙◌, arith, if◌then◌else◌, Bool-cases, true, false, ==_iff, List, [], ◌∷◌,
}
use machgate.Trampoline.Mangling.{occurrences, variant, try_masks, try_mangling_variants}

-- The names that differ in some of the characters `c`, which are `d`.
abbrev pub IsVariant : (c d : ℕ) → List ℕ → List ℕ → Type 0
IsVariant c d [] [] = Unit {0}
IsVariant c d [] (x' ∷ name') = ⊥
IsVariant c d (x ∷ name) [] = ⊥
IsVariant c d (x ∷ name) (x' ∷ name') = ((x' ≡ x) ⊎ ((x ≡ c) × (x' ≡ d))) × IsVariant c d name name'

abbrev pub count : (c : ℕ) → List ℕ → ℕ
count c [] = 0
count c (x ∷ name) = if x == c then suc (count c name) else count c name

same-IsVariant : (c d : ℕ) (name : List ℕ) → IsVariant c d name name
same-IsVariant c d [] = tt
same-IsVariant c d (x ∷ name) = (inl refl, same-IsVariant c d name)

variant-IsVariant :
    (left c d mask : ℕ) (name : List ℕ) → IsVariant c d name (variant left c d mask name)
unfolding variant
variant-IsVariant zero c d mask name = same-IsVariant c d name
variant-IsVariant (suc left) c d mask [] = tt
variant-IsVariant (suc left) c d mask (x ∷ name) = elim (Bool-cases (x == c)) [
  | inl e ↦ elim (Bool-cases (mask % 2 == 1)) [
    | inl odd ↦
        rw e (rw odd (inr ((==_iff x c).0 e, refl), variant-IsVariant left c d (mask / 2) name))
    | inr even ↦ rw e (rw even (inl refl, variant-IsVariant left c d (mask / 2) name))
  ]
  | inr e ↦ rw e (inl refl, variant-IsVariant (suc left) c d mask name)
]

variant-zero : (left c d : ℕ) (name : List ℕ) → variant left c d 0 name ≡ name
unfolding variant
variant-zero zero c d name = refl
variant-zero (suc left) c d [] = refl
variant-zero (suc left) c d (x ∷ name) = elim (Bool-cases (x == c)) [
  | inl e ↦ rw e (ap (λ t. x ∷ t) (variant-zero left c d name))
  | inr e ↦ rw e (ap (λ t. x ∷ t) (variant-zero (suc left) c d name))
]

no-IsVariant :
    (c d : ℕ) (name name' : List ℕ) → count c name ≡ 0 → IsVariant c d name name' → name' ≡ name
no-IsVariant c d [] [] none v = refl
no-IsVariant c d [] (x' ∷ name') none v = absurd v
no-IsVariant c d (x ∷ name) [] none v = absurd v
no-IsVariant c d (x ∷ name) (x' ∷ name') none (v, vs) = elim (Bool-cases (x == c)) [
  | inl e ↦ absurd (ground arith)
  | inr e ↦
      let fewer : count c name ≡ 0 = ground arith in
      elim v [
        | inl same ↦ ap₂ ◌∷◌ same (no-IsVariant c d name name' fewer vs)
        | inr (is_c, is_d) ↦ absurd (cc ((==_iff x c).1 is_c, e))
      ]
]

-- The mask that makes a variant.
abbrev Makes : (left c d : ℕ) (name name' : List ℕ) → Type 0
Makes left c d name name' =
    (mask : ℕ) × (mask < 2 ^ occurrences left c name) × (variant left c d mask name ≡ name')

Makes-step :
    (left c d x x' : ℕ) (name name' : List ℕ)
    → (x == c) ≡ true
    → ((x' ≡ x) ⊎ ((x ≡ c) × (x' ≡ d)))
    → Makes left c d name name'
    → Makes (suc left) c d (x ∷ name) (x' ∷ name')
unfolding occurrences variant
Makes-step left c d x x' name name' e (inl same) (mask, small, makes) =
    let half : 2 * mask / 2 ≡ mask = omega arith in
    let even : (2 * mask % 2 == 1) ≡ false = ground arith in
    (
      2 * mask,
      rw e (omega (arith, pow-suc 2 (occurrences left c name))),
      rw e (rw even (ap₂ ◌∷◌ (sym same) (ap (λ k. variant left c d k name) half ∙ makes))),
    )
Makes-step left c d x x' name name' e (inr (is_c, is_d)) (mask, small, makes) =
    let half : (2 * mask + 1) / 2 ≡ mask = omega arith in
    let odd : ((2 * mask + 1) % 2 == 1) ≡ true = ground arith in
    (
      2 * mask + 1,
      rw e (omega (arith, pow-suc 2 (occurrences left c name))),
      rw e (rw odd (ap₂ ◌∷◌ (sym is_d) (ap (λ k. variant left c d k name) half ∙ makes))),
    )

Makes-skip :
    (left c d x x' : ℕ) (name name' : List ℕ)
    → (x == c) ≡ false
    → x' ≡ x
    → Makes (suc left) c d name name'
    → Makes (suc left) c d (x ∷ name) (x' ∷ name')
unfolding occurrences variant
Makes-skip left c d x x' name name' e same (mask, small, makes) =
    let small' : mask < 2 ^ occurrences (suc left) c (x ∷ name) = rw e small in
    let makes' : variant (suc left) c d mask (x ∷ name) ≡ x' ∷ name' =
      rw e (ap₂ ◌∷◌ (sym same) makes) in
    (mask, small', makes')

IsVariant-Makes :
    (left c d : ℕ) (name name' : List ℕ)
    → count c name ≤ left
    → IsVariant c d name name'
    → Makes left c d name name'
unfolding occurrences variant
IsVariant-Makes zero c d name name' few v = (
  0,
  omega arith,
  sym (no-IsVariant c d name name' (let z : count c name ≡ 0 = omega arith in z) v),
)
IsVariant-Makes (suc left) c d [] [] few v = (0, omega arith, refl)
IsVariant-Makes (suc left) c d [] (x' ∷ name') few v = absurd v
IsVariant-Makes (suc left) c d (x ∷ name) [] few v = absurd v
IsVariant-Makes (suc left) c d (x ∷ name) (x' ∷ name') few (v, vs) = elim (Bool-cases (x == c)) [
  | inl e ↦
      let fewer : count c name ≤ left = ground arith in
      Makes-step left c d x x' name name' e v (IsVariant-Makes left c d name name' fewer vs)
  | inr e ↦
      let fewer : count c name ≤ suc left = ground arith in
      let (mask, small, makes) = IsVariant-Makes (suc left) c d name name' fewer vs in
      let same : x' ≡ x = elim v [
        | inl s ↦ s
        | inr (is_c, is_d) ↦ absurd (cc ((==_iff x c).1 is_c, e))
      ] in
      Makes-skip left c d x x' name name' e same (mask, small, makes)
]

module _ (dlsym : List ℕ → ℕ) where
  masks-found :
      (c d k mask : ℕ) (name : List ℕ)
      → try_masks dlsym c d k mask name ≢ 0
      → (i : ℕ) × (dlsym (variant 16 c d i name) ≡ try_masks dlsym c d k mask name)
  unfolding try_masks
  masks-found c d zero mask name ne = absurd (ne refl)
  masks-found c d (suc k) mask name ne = elim (Bool-cases (dlsym (variant 16 c d mask name) == 0)) [
    | inl e ↦
        let (i, found) = masks-found c d k (mask + 1) name (λ z. ne (rw e z)) in (i, rw e found)
    | inr e ↦ (mask, rw e refl)
  ]

  masks-absent :
      (c d k mask : ℕ) (name : List ℕ)
      → try_masks dlsym c d k mask name ≡ 0
      → (i : ℕ) → mask ≤ i
      → i < mask + k
      → dlsym (variant 16 c d i name) ≡ 0
  unfolding try_masks
  masks-absent c d zero mask name none i from to = absurd (omega arith)
  masks-absent c d (suc k) mask name none i from to =
      elim (Bool-cases (dlsym (variant 16 c d mask name) == 0)) [
        | inl e ↦
            let none' : try_masks dlsym c d k (mask + 1) name ≡ 0 = ground arith in
            elim (Bool-cases (i == mask)) [
              | inl at ↦
                  rw ((==_iff i mask).0 at) ((==_iff (dlsym (variant 16 c d mask name)) 0).0 e)
              | inr off ↦ masks-absent c d k (mask + 1) name none' i (ground arith) (omega arith)
            ]
        | inr e ↦ absurd (ground arith)
      ]

  masks-IsVariant :
      (c d : ℕ) (name name' : List ℕ)
      → count c name ≤ 16
      → try_masks dlsym c d (2 ^ occurrences 16 c name - 1) 1 name ≡ 0
      → IsVariant c d name name'
      → name' ≢ name
      → dlsym name' ≡ 0
  masks-IsVariant c d name name' few none v ne =
      let (mask, small, makes) = IsVariant-Makes 16 c d name name' few v in
      let some_bit : mask ≢ 0 =
        λ z. ne (sym makes ∙ ap (λ k. variant 16 c d k name) z ∙ variant-zero 16 c d name) in
      ap dlsym (sym makes)
      ∙ masks-absent c d (2 ^ occurrences 16 c name - 1) 1 name none mask (ground arith)
          (omega arith)

  -- For a name of at most 16 y and 16 m: an address that is found is that of a variant of the name; and if the
  -- name has a y and none is found, then no other name that has m in place of some y, or y in place of some m, has
  -- an address.
  pub try_mangling_variants-Searched :
      (name : List ℕ)
      → count b'y' name ≤ 16
      → count b'm' name ≤ 16
      → (try_mangling_variants dlsym name ≢ 0
          → (name' : List ℕ) × (IsVariant b'y' b'm' name name' ⊎ IsVariant b'm' b'y' name name')
            × (dlsym name' ≡ try_mangling_variants dlsym name))
        × (try_mangling_variants dlsym name ≡ 0
            → occurrences 16 b'y' name ≢ 0
            → (name' : List ℕ) → (IsVariant b'y' b'm' name name' ⊎ IsVariant b'm' b'y' name name')
            → name' ≢ name
            → dlsym name' ≡ 0)
  unfolding try_mangling_variants
  try_mangling_variants-Searched name few_y few_m =
      let forward : ℕ = try_masks dlsym b'y' b'm' (2 ^ occurrences 16 b'y' name - 1) 1 name in
      let reverse : ℕ = try_masks dlsym b'm' b'y' (2 ^ occurrences 16 b'm' name - 1) 1 name in
      elim (Bool-cases (occurrences 16 b'y' name == 0)) [
        | inl e ↦ rw e (
          λ ne. absurd (ne refl),
          λ none has_y. absurd (has_y ((==_iff (occurrences 16 b'y' name) 0).0 e)),
        )
        | inr e ↦ elim (Bool-cases (forward == 0)) [
          | inl z ↦ rw e (
              rw z (
                λ ne.
                    let (i, found) =
                      masks-found b'm' b'y' (2 ^ occurrences 16 b'm' name - 1) 1 name ne in
                    (
                      variant 16 b'm' b'y' i name,
                      inr (variant-IsVariant 16 b'm' b'y' i name),
                      found,
                    ),
                λ none has_y name' v ne. elim v [
                  | inl y ↦ masks-IsVariant b'y' b'm' name name' few_y ((==_iff forward 0).0 z) y ne
                  | inr m ↦ masks-IsVariant b'm' b'y' name name' few_m none m ne
                ],
              ))
          | inr nz ↦ rw e (
              rw nz (
                λ ne.
                    let (i, found) =
                      masks-found b'y' b'm' (2 ^ occurrences 16 b'y' name - 1) 1 name ne in
                    (
                      variant 16 b'y' b'm' i name,
                      inl (variant-IsVariant 16 b'y' b'm' i name),
                      found,
                    ),
                λ none has_y name' v ne. absurd (cc ((==_iff forward 0).1 none, nz)),
              ))
        ]
      ]
