-- ===== src/Memory.antt =====
-- A memory of bytes, and strings of bytes in it.
pub mod Words
use machgate.Base.{
  ℕ, zero, suc, ◌+◌, ◌<◌, ◌≤◌, ◌≡◌, ◌≢◌, ◌⊎◌, inl, inr, refl, arith, ap₂, subst, ◌∙◌, ◌++◌, ◌==◌,
  if◌then◌else◌, ne→==_false, ==_iff, List, [], ◌∷◌, length,
}

abbrev pub Memory : Type 0
Memory = ℕ → ℕ

abbrev pub put_byte : Memory → (a b : ℕ) → Memory
put_byte m a b = λ x. if x == a then b else m x

-- `memcpy` to `a`.
unfoldable pub store : Memory → (a : ℕ) → List ℕ → Memory
store m a [] = m
store m a (b ∷ bytes) = store (put_byte m a b) (a + 1) bytes

abbrev pub load : Memory → (a n : ℕ) → List ℕ
load m a zero = []
load m a (suc n) = m a ∷ load m (a + 1) n

abbrev pub Outside : (x a n : ℕ) → Type 0
Outside x a n = (x < a) ⊎ (a + n ≤ x)

Outside-rest : (x a n : ℕ) → Outside x a (suc n) → Outside x (a + 1) n
Outside-rest x a n (inl below) = inl (omega arith)
Outside-rest x a n (inr above) = inr (omega arith)

Outside-ne : (x a n : ℕ) → Outside x a (suc n) → x ≢ a
Outside-ne x a n (inl below) e = absurd (omega arith)
Outside-ne x a n (inr above) e = absurd (omega arith)

first_apart : (x n a k : ℕ) → ((x + suc n ≤ a) ⊎ (a + k ≤ x)) → Outside x a k
first_apart x n a k (inl below) = inl (omega arith)
first_apart x n a k (inr above) = inr above

rest_apart : (x n a k : ℕ) → ((x + suc n ≤ a) ⊎ (a + k ≤ x)) → ((x + 1 + n ≤ a) ⊎ (a + k ≤ x + 1))
rest_apart x n a k (inl below) = inl (omega arith)
rest_apart x n a k (inr above) = inr (omega arith)

pub store-Outside :
    (m : Memory) (a : ℕ) (bytes : List ℕ) (x : ℕ)
    → Outside x a (length bytes)
    → store m a bytes x ≡ m x
unfolding store
store-Outside m a [] x h = refl
store-Outside m a (b ∷ bytes) x h =
    store-Outside (put_byte m a b) (a + 1) bytes x (Outside-rest x a (length bytes) h)
    ∙ rw (ne→==_false x a (Outside-ne x a (length bytes) h)) refl

pub load-store :
    (m : Memory) (a : ℕ) (bytes : List ℕ) → load (store m a bytes) a (length bytes) ≡ bytes
unfolding store
load-store m a [] = refl
load-store m a (b ∷ bytes) =
    ap₂ ◌∷◌
      (store-Outside (put_byte m a b) (a + 1) bytes a (inl (omega arith))
        ∙ rw ((==_iff a a).1 refl) refl)
      (load-store (put_byte m a b) (a + 1) bytes)

-- A string beside the stored one.
pub load-store_apart :
    (m : Memory) (a : ℕ) (bytes : List ℕ) (x n : ℕ)
    → ((x + n ≤ a) ⊎ (a + length bytes ≤ x))
    → load (store m a bytes) x n ≡ load m x n
load-store_apart m a bytes x zero h = refl
load-store_apart m a bytes x (suc n) h =
    ap₂ ◌∷◌ (store-Outside m a bytes x (first_apart x n a (length bytes) h))
      (load-store_apart m a bytes (x + 1) n (rest_apart x n a (length bytes) h))

abbrev pub Holds : Memory → (a : ℕ) → List ℕ → Type 0
Holds m a bytes = load m a (length bytes) ≡ bytes

pub Holds-append :
    (m : Memory) (a : ℕ) (xs ys : List ℕ)
    → Holds m a (xs ++ ys)
    → Holds m a xs × Holds m (a + length xs) ys
Holds-append m a [] ys h =
    (refl, subst (λ at. Holds m at ys) (let e : a ≡ a + 0 = omega arith in e) h)
Holds-append m a (x ∷ xs) ys h =
    let first : m a ≡ x = cc in
    let (left, right) =
      Holds-append m (a + 1) xs ys
        (let e : load m (a + 1) (length (xs ++ ys)) ≡ xs ++ ys = cc in e) in
    let at : a + 1 + length xs ≡ a + length (x ∷ xs) = omega arith in
    (ap₂ ◌∷◌ first left, subst (λ at. Holds m at ys) at right)
