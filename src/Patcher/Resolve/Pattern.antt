-- ===== src/Patcher/Resolve/Pattern.antt =====
-- The search for a pattern, against the set of its places.
use machgate.Base.{
  ℕ, zero, suc, ◌+◌, ◌-◌, ◌*◌, ◌/◌, ◌<◌, ◌≤◌, ◌≡◌, arith, subst, ◌⊎◌, inl, inr, true, false, List,
  length, Bool-cases, ltb, ◌==◌, ◌||◌,
}
use machgate.Patcher.Resolve.{Memory, matches, scan, pattern_find_unique}

module _ (mem : Memory) (patterns : List (ℕ × ℕ)) (end need : ℕ) where
  -- A word address from `start` on where the pattern stands, with all of it before the end.
  pub record Hit (start a : ℕ) : Type 0 where
    pub steps : ℕ
    pub place : a ≡ start + steps * 4
    pub inside : a + need ≤ end
    pub fits : matches mem patterns a ≡ true

  -- What the search of the places from `start` on may answer: the count up to 2, and the first place.
  pub data Searched (start : ℕ) : ℕ × ℕ → Type 0 where
    absent : (hit : ℕ) → ((a : ℕ) → Hit start a → ⊥) → Searched start (0, hit)
    unique : (a : ℕ) → Hit start a → ((b : ℕ) → Hit start b → b ≡ a) → Searched start (1, a)
    ambiguous : (a b : ℕ) → Hit start a → Hit start b → a < b → Searched start (2, a)

  later : (a b : ℕ) → Hit (a + 4) b → Hit a b
  later a b h = record {
    steps = suc h.steps;
    place = omega arith;
    inside = h.inside;
    fits = h.fits;
  }

  here_or_later : (a b : ℕ) → Hit a b → (b ≡ a) ⊎ Hit (a + 4) b
  here_or_later a b h = split h.steps h.place
    where
      split : (k : ℕ) → b ≡ a + k * 4 → (b ≡ a) ⊎ Hit (a + 4) b
      split zero e = inl (omega arith)
      split (suc k) e =
          inr (record { steps = k; place = omega arith; inside = h.inside; fits = h.fits })

  after : (a b : ℕ) → Hit (a + 4) b → a < b
  after a b h = omega (arith, h.place)

  -- After the first hit the search only asks whether there is another.
  pub data Second (start hit : ℕ) : ℕ × ℕ → Type 0 where
    none_left : ((a : ℕ) → Hit start a → ⊥) → Second start hit (1, hit)
    one_more : (b : ℕ) → Hit start b → Second start hit (2, hit)

  past_end : (a : ℕ) → end < a + need → (b : ℕ) → Hit a b → ⊥
  past_end a h b p = absurd (omega (arith, p.place, p.inside))

  next_place : (a : ℕ) → matches mem patterns a ≡ false → (b : ℕ) → Hit a b → Hit (a + 4) b
  next_place a off b p = elim (here_or_later a b p) [
    | inl here ↦ absurd (clash (subst (λ t. matches mem patterns t ≡ true) here p.fits))
    | inr rest ↦ rest
  ]
    where
      clash : matches mem patterns a ≡ true → ⊥
      clash on = let off' = off in cc

  skip_again :
      {r : ℕ × ℕ} (a hit : ℕ)
      → matches mem patterns a ≡ false
      → Second (a + 4) hit r
      → Second a hit r
  skip_again a hit off (none_left gone) = none_left (λ b p. gone b (next_place a off b p))
  skip_again a hit off (one_more b p) = one_more b (later a b p)

  skip_place :
      {r : ℕ × ℕ} (a : ℕ) → matches mem patterns a ≡ false → Searched (a + 4) r → Searched a r
  skip_place a off (absent hit gone) = absent hit (λ b p. gone b (next_place a off b p))
  skip_place a off (unique b p one) = unique b (later a b p) (λ c q. one c (next_place a off c q))
  skip_place a off (ambiguous b c p q lt) = ambiguous b c (later a b p) (later a c q) lt

  first_place : {r : ℕ × ℕ} (a : ℕ) → Hit a a → Second (a + 4) a r → Searched a r
  first_place a p (none_left gone) =
      unique a p
        (λ b q. elim (here_or_later a b q) [ inl here ↦ here | inr rest ↦ absurd (gone b rest) ])
  first_place a p (one_more b q) = ambiguous a b p (later a b q) (after a b q)

  here : (a : ℕ) → ltb end (a + need) ≡ false → matches mem patterns a ≡ true → Hit a a
  here a inside on = record { steps = 0; place = omega arith; inside = ground arith; fits = on }

  find_again :
      (n a hit : ℕ) → end < a + n * 4 + need → Second a hit (scan mem patterns end need n a 1 hit)
  unfolding scan
  find_again zero a hit h = none_left (past_end a (omega arith))
  find_again (suc n) a hit h = elim (Bool-cases (ltb end (a + need))) [
    | inl past ↦ rw past (none_left (past_end a (ground arith)))
    | inr inside ↦ rw inside (elim (Bool-cases (matches mem patterns a)) [
      | inl on ↦ rw on (one_more a (here a inside on))
      | inr off ↦ rw off (skip_again a hit off (find_again n (a + 4) hit (omega arith)))
    ])
  ]

  searched :
      (n a hit : ℕ) → end < a + n * 4 + need → Searched a (scan mem patterns end need n a 0 hit)
  unfolding scan
  searched zero a hit h = absent hit (past_end a (omega arith))
  searched (suc n) a hit h = elim (Bool-cases (ltb end (a + need))) [
    | inl past ↦ rw past (absent hit (past_end a (ground arith)))
    | inr inside ↦ rw inside (elim (Bool-cases (matches mem patterns a)) [
      | inl on ↦ rw on (first_place a (here a inside on) (find_again n (a + 4) a (omega arith)))
      | inr off ↦ rw off (skip_place a off (searched n (a + 4) hit (omega arith)))
    ])
  ]

-- For a pattern of at least one word, the search counts no place only if the pattern stands nowhere
-- between start and end at a word address counted from the start; one, and gives it, only if it stands
-- there alone; and two only if it stands at two places at least.
pub pattern_find_unique-Searched :
    (mem : Memory) (start end : ℕ) (patterns : List (ℕ × ℕ))
    → 0 < length patterns
    → Searched mem patterns end
        (length patterns * 4)
        start
        (pattern_find_unique mem start end patterns)
unfolding pattern_find_unique
pattern_find_unique-Searched mem start end patterns h =
    let need : ℕ = length patterns * 4 in
    elim (Bool-cases ((need == 0) || (ltb end start || ltb (end - start) need))) [
      | inl none_fits ↦
          rw none_fits (absent 0 (past_end mem patterns end need start (ground arith)))
      | inr some_fit ↦
          rw some_fit
            (searched mem patterns end need ((end - start) / 4 + 1) start 0 (ground arith))
    ]
