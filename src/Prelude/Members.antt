-- ===== src/Prelude/Members.antt =====
-- Lists of distinct numbers.
use Prim.Native.Nat.{ℕ}
use mathlib.Core.Path.{◌≡◌}
use mathlib.Core.Bool.{false}
use mathlib.Core.List.{List, [], ◌∷◌, ◌++◌}
use native.Mathlib.Omega.{arith}
use just_kit.Prelude.Tests.{◌==◌}

abbrev pub NotIn : ℕ → List ℕ → Type 0
NotIn a [] = Unit
NotIn a (x ∷ xs) = ((a == x) ≡ false) × NotIn a xs

abbrev pub Distinct : List ℕ → Type 0
Distinct [] = Unit
Distinct (x ∷ xs) = NotIn x xs × Distinct xs

pub NotIn-append :
    (a b : ℕ) (xs : List ℕ) → NotIn a xs → (a == b) ≡ false → NotIn a (xs ++ (b ∷ []))
NotIn-append a b [] h k = (k, tt)
NotIn-append a b (x ∷ xs) h k = (h.0, NotIn-append a b xs h.1 k)

pub Distinct-append : (a : ℕ) (xs : List ℕ) → NotIn a xs → Distinct xs → Distinct (xs ++ (a ∷ []))
Distinct-append a [] out d = (tt, tt)
Distinct-append a (x ∷ xs) out d =
    (NotIn-append x a xs d.0 (ground (arith, out.0)), Distinct-append a xs out.1 d.1)
