-- ===== src/Memory/Words.antt =====
-- The 64-bit words in a memory of bytes.
use machgate.Base.{
  List, [], ◌∷◌, inl, inr, ℕ, ◌+◌, ◌^◌, ◌<◌, ◌≤◌, ◌≡◌, ◌⊎◌, ap, ◌∙◌, le, unle, unle-le,
}
use machgate.Memory.{Memory, store, load, Outside, store-Outside, load-store, load-store_apart}

abbrev pub load64 : Memory → (a : ℕ) → ℕ
load64 m a = unle 8 (load m a 8)

abbrev pub store64 : Memory → (a v : ℕ) → Memory
store64 m a v = store m a (le 8 v)

abbrev pub AreApart : (a b : ℕ) → Type 0
AreApart a b = (a + 8 ≤ b) ⊎ (b + 8 ≤ a)

pub load64-store64 : (m : Memory) (a v : ℕ) → v < 2 ^ 64 → load64 (store64 m a v) a ≡ v
load64-store64 m a v h = ap (unle 8) (load-store m a (le 8 v)) ∙ unle-le 8 v [] h

pub load64-store64_apart :
    (m : Memory) (a v b : ℕ) → AreApart b a → load64 (store64 m a v) b ≡ load64 m b
load64-store64_apart m a v b h = ap (unle 8) (load-store_apart m a (le 8 v) b 8 h)

pub store64-Outside : (m : Memory) (a v x : ℕ) → Outside x a 8 → store64 m a v x ≡ m x
store64-Outside m a v x h = store-Outside m a (le 8 v) x h

pub swapped : (a b : ℕ) → AreApart a b → AreApart b a
swapped a b (inl below) = inr below
swapped a b (inr above) = inl above

-- Slots of eight bytes that do not overlap.
abbrev pub ApartFromAll : (a : ℕ) → List ℕ → Type 0
ApartFromAll a [] = Unit {0}
ApartFromAll a (b ∷ slots) = AreApart a b × ApartFromAll a slots

abbrev pub AllApart : List ℕ → Type 0
AllApart [] = Unit {0}
AllApart (a ∷ slots) = ApartFromAll a slots × AllApart slots

abbrev pub OutsideAll : (x : ℕ) → List ℕ → Type 0
OutsideAll x [] = Unit {0}
OutsideAll x (a ∷ slots) = Outside x a 8 × OutsideAll x slots
