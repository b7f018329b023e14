-- ===== src/EhFrame/Collect/Search.antt =====
-- The binary search for the LSDA of a function.
use native.Mathlib.Decide.{dec_lt}
use machgate.Base.{
  ℕ, zero, suc, ◌+◌, ◌-◌, ◌/◌, ◌<◌, ◌≤◌, ◌≡◌, ◌≢◌, refl, arith, ap, ◌∙◌, ◌⊎◌, inl, inr, ◌==◌, ltb,
  if◌then◌else◌, false, Bool-cases, ==_iff, ne→==_false, lt→ltb, List, bit_and,
}
use machgate.EhFrame.Collect.{lsda_search, lookup_lsda, lsda_function, lsda_offset_of, lsda_count}

-- The first `n` keys grow.
abbrev pub Ascends : (key : ℕ → ℕ) (n : ℕ) → Type 0
Ascends key n = (i j : ℕ) → i < j → j < n → key i < key j

module _ (key value : ℕ → ℕ) (x : ℕ) where
  -- The round of the loop at `mid`.
  round :
      (rounds lo hi : ℕ)
      → lo < hi
      → let mid = (lo + (hi - 1)) / 2 in
        lsda_search key value (suc rounds) lo hi x ≡ (
          if key mid == x
          then value mid
          else if ltb (key mid) x
          then lsda_search key value rounds (mid + 1) hi x
          else lsda_search key value rounds lo mid x)
  unfolding lsda_search
  round rounds lo hi h = rw (lt→ltb lo hi h) refl

  -- Where the key is, if the middle one is another.
  side :
      (n i mid : ℕ)
      → Ascends key n
      → i < n
      → mid < n
      → key i ≡ x
      → ((key mid ≡ x) × (mid ≡ i)) ⊎ ((key mid < x) × (mid < i)) ⊎ ((x < key mid) × (i < mid))
  side n i mid up hi hm e = elim (dec_lt mid i) [
    | yes left ↦ inr (inl (omega (arith, up mid i left hi), left))
    | no right ↦ elim (dec_lt i mid) [
      | yes after ↦ inr (inr (omega (arith, up i mid after hm), after))
      | no before ↦ let same : mid ≡ i = omega arith in inl (ap key same ∙ e, same)
    ]
  ]

  search_hit :
      (rounds lo hi i : ℕ)
      → Ascends key hi
      → hi ≤ lo + rounds
      → lo ≤ i
      → i < hi
      → key i ≡ x
      → lsda_search key value rounds lo hi x ≡ value i
  search_hit zero lo hi i up r h h' e = absurd (omega arith)
  search_hit (suc rounds) lo hi i up r h h' e =
      let mid : ℕ = (lo + (hi - 1)) / 2 in
      round rounds lo hi (omega arith) ∙ elim (side hi i mid up h' (omega arith) e) [
        | inl (found, same) ↦ rw ((==_iff _ _).1 found) (ap value same)
        | inr (inl (below, left)) ↦
            rw (ne→==_false (key mid) x (λ q. absurd (omega arith)), lt→ltb _ _ below)
              (search_hit rounds (mid + 1) hi i up (omega arith) (omega arith) h' e)
        | inr (inr (above, right)) ↦
            let other : ltb (key mid) x ≡ false = ground arith in
            rw (ne→==_false (key mid) x (λ q. absurd (omega arith)), other)
              (search_hit rounds lo mid i (λ a b lt under. up a b lt (omega arith)) (omega arith) h
                right e)
      ]

  search_miss :
      (rounds lo hi : ℕ) → ((i : ℕ) → i < hi → key i ≢ x) → lsda_search key value rounds lo hi x ≡ 0
  unfolding lsda_search
  search_miss zero lo hi none_there = refl
  search_miss (suc rounds) lo hi none_there = elim (dec_lt lo hi) [
    | yes more ↦
        let mid : ℕ = (lo + (hi - 1)) / 2 in
        round rounds lo hi more
        ∙ rw (ne→==_false (key mid) x (none_there mid (omega arith)))
            (elim (Bool-cases (ltb (key mid) x)) [
              | inl below ↦ rw below (search_miss rounds (mid + 1) hi none_there)
              | inr above ↦ rw above (search_miss rounds lo mid (λ i h. none_there i (omega arith)))
            ])
    | no done ↦ let end : ltb lo hi ≡ false = ground arith in rw end refl
  ]

-- If the functions of the LSDA index grow, then for an encoding with an LSDA the search gives the LSDA of
-- the function if it stands in the index, and 0 if it does not.
pub lookup_lsda-finds :
    (info : List ℕ) (lsda_start lsda_end encoding func_offset : ℕ)
    → bit_and encoding 0x40000000 ≢ 0
    → Ascends (lsda_function info lsda_start lsda_end) (lsda_count info lsda_start lsda_end)
    → ((i : ℕ)
        → i < lsda_count info lsda_start lsda_end
        → lsda_function info lsda_start lsda_end i ≡ func_offset
        → lookup_lsda info lsda_start lsda_end encoding func_offset
          ≡ lsda_offset_of info lsda_start lsda_end i)
      × (((i : ℕ)
            → i < lsda_count info lsda_start lsda_end
            → lsda_function info lsda_start lsda_end i ≢ func_offset)
          → lookup_lsda info lsda_start lsda_end encoding func_offset ≡ 0)
unfolding lookup_lsda
lookup_lsda-finds info lsda_start lsda_end encoding func_offset has up =
    let key : ℕ → ℕ = lsda_function info lsda_start lsda_end in
    let value : ℕ → ℕ = lsda_offset_of info lsda_start lsda_end in
    let n : ℕ = lsda_count info lsda_start lsda_end in
    rw (ne→==_false _ _ has) (
      λ i h e. search_hit key value func_offset n 0 n i up (omega arith) (omega arith) h e,
      λ none_there. search_miss key value func_offset n 0 n none_there,
    )
