-- ===== src/Resolver/Chain/Layout.antt =====
-- Chains one above the other.
use machgate.Base.{ℕ, ◌+◌, ◌*◌, ◌<◌, ◌≤◌, ◌≡◌, arith, ◌∙◌, Bool, List, [], ◌∷◌, length}
use machgate.Memory.{Memory}
use machgate.Memory.Words.{load64, OutsideAll}
use machgate.Resolver.Chain.Fixed.{Fixup}
use machgate.Resolver.Chain.Walk.{IsChain, places, rebases_in, chain_end}

pub record Chain : Type 0 where
  pub is_offset : Bool
  pub start : ℕ
  pub first : Fixup
  pub rest : List (ℕ × Fixup)

abbrev pub starts_of : List Chain → List (Bool × ℕ)
starts_of [] = []
starts_of (c ∷ chains) = (c.is_offset, c.start) ∷ starts_of chains

abbrev pub AllAbove : (a : ℕ) → List Chain → Type 0
AllAbove a [] = Unit {0}
AllAbove a (c ∷ chains) = (a ≤ c.start) × AllAbove a chains

-- Chains that `rounds` are enough for, each above the ones before it.
abbrev pub IsLaidOut : Memory → (rounds : ℕ) → List Chain → Type 0
IsLaidOut m rounds [] = Unit {0}
IsLaidOut m rounds (c ∷ chains) =
    IsChain m c.start c.first c.rest
    × (length c.rest < rounds)
    × AllAbove (chain_end c.start c.rest) chains
    × IsLaidOut m rounds chains

abbrev pub OutsideChains : (x : ℕ) → List Chain → Type 0
OutsideChains x [] = Unit {0}
OutsideChains x (c ∷ chains) = OutsideAll x (places c.start c.rest) × OutsideChains x chains

abbrev pub rebases_of : List Chain → ℕ
rebases_of [] = 0
rebases_of (c ∷ chains) = rebases_in c.first c.rest + rebases_of chains

pub AllAbove-le : (a b : ℕ) (chains : List Chain) → a ≤ b → AllAbove b chains → AllAbove a chains
AllAbove-le a b [] h above = tt
AllAbove-le a b (c ∷ chains) h (here, above) = (omega arith, AllAbove-le a b chains h above)

IsChain-kept :
    (m m' : Memory) (a loc : ℕ) (f : Fixup) (rest : List (ℕ × Fixup))
    → ((b : ℕ) → a ≤ b → load64 m' b ≡ load64 m b)
    → a ≤ loc
    → IsChain m loc f rest
    → IsChain m' loc f rest
IsChain-kept m m' a loc f [] same h (here, fits) = (same loc h ∙ here, fits)
IsChain-kept m m' a loc f ((gap, g) ∷ rest) same h (here, fits, apart, small, chain) = (
  same loc h ∙ here,
  fits,
  apart,
  small,
  IsChain-kept m m' a (loc + gap * 4) g rest same (omega arith) chain,
)

pub IsLaidOut-kept :
    (m m' : Memory) (a rounds : ℕ) (chains : List Chain)
    → ((b : ℕ) → a ≤ b → load64 m' b ≡ load64 m b)
    → AllAbove a chains
    → IsLaidOut m rounds chains
    → IsLaidOut m' rounds chains
IsLaidOut-kept m m' a rounds [] same above laid = tt
IsLaidOut-kept m m' a rounds (c ∷ chains) same (here, above) (chain, enough, apart, laid) = (
  IsChain-kept m m' a c.start c.first c.rest same here chain,
  enough,
  apart,
  IsLaidOut-kept m m' a rounds chains same above laid,
)
