-- ===== src/Base/Bytes.antt =====
-- Numbers laid out in little endian, as on the only host.
use Prim.Native.Nat.{ℕ, zero, suc, ◌+◌, ◌*◌, ◌/◌, ◌%◌, ◌^◌, ◌<◌}
use mathlib.Core.Path.{◌≡◌, refl, ap}
use mathlib.Core.List.{List, [], ◌∷◌, ◌++◌}
use native.Mathlib.Nat.{pow-suc}
use native.Mathlib.Omega.{arith}
use machgate.Base.Lists.{length, drop}

-- The `k` bytes of a number.
abbrev pub le : ℕ → ℕ → List ℕ
le zero n = []
le (suc k) n = n % 256 ∷ le k (n / 256)

-- The number that `k` bytes make; a byte past the end counts as 0.
abbrev pub unle : ℕ → List ℕ → ℕ
unle zero s = 0
unle (suc k) [] = 0
unle (suc k) (c ∷ s) = c + 256 * unle k s

-- The field of `k` bytes at an offset.
abbrev pub field : ℕ → ℕ → List ℕ → ℕ
field k at s = unle k (drop at s)

pub unle-le : (k n : ℕ) (rest : List ℕ) → n < 256 ^ k → unle k (le k n ++ rest) ≡ n
unle-le zero n rest h = omega arith
unle-le (suc k) n rest h =
    let high : n / 256 < 256 ^ k = omega (arith, pow-suc 256 k) in
    omega (arith, unle-le k (n / 256) rest high)

pub length-le : (k n : ℕ) → length (le k n) ≡ k
length-le zero n = refl
length-le (suc k) n = ap suc (length-le k (n / 256))
