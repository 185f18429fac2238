-- ===== src/Base/Members.antt =====
-- Lists of numbers as sets: the Boolean test and the removal, in the form that proofs compute with.
use Prim.Native.Nat.{ℕ}
use mathlib.Core.Path.{◌≡◌, refl}
use mathlib.Core.Bool.{Bool, false, ◌||◌}
use mathlib.Core.List.{List, [], ◌∷◌}
use native.Mathlib.Omega.{arith}
use some_go_foolery.Base.Tests.{◌==◌, ==_iff, if◌then◌else◌}

unfoldable pub has : ℕ → List ℕ → Bool
has n [] = false
has n (x ∷ xs) = n == x || has n xs

unfoldable pub without : ℕ → List ℕ → List ℕ
without n [] = []
without n (x ∷ xs) = let rest = without n xs in if n == x then rest else x ∷ rest

has-cons : (m n : ℕ) (xs : List ℕ) → has m (n ∷ xs) ≡ (m == n || has m xs)
unfolding has
has-cons m n xs = refl

pub has-without :
    (m n : ℕ) (xs : List ℕ) → has m (without n xs) ≡ (if n == m then false else has m xs)
unfolding has without
has-without m n [] = ground arith
has-without m n (x ∷ xs) = ground (arith, ==_iff n x, ==_iff n m, ==_iff m x, has-without m n xs)
