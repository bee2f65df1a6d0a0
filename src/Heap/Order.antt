-- ===== src/Heap/Order.antt =====
-- The order of the heap, and the greatest element.
use just_kit.Prelude.{
  ℕ, zero, suc, ◌<◌, ◌≡◌, true, false, List, arith, length, Bool-cases, inl, inr,
}
use just_kit.Heap.{CompFn, is_negative, is_positive, parent}
use just_kit.Heap.Cells.{at}

-- What the heap asks of the caller's comparison function: it orders the values, up to ties.
pub record IsOrder (comp : CompFn) : Type 0 where
  pub flipped : (x y : ℕ) → is_positive (comp x y) ≡ is_negative (comp y x)
  pub asym : (x y : ℕ) → is_negative (comp x y) ≡ true → is_negative (comp y x) ≡ false
  pub trans :
      (x y z : ℕ)
      → is_negative (comp x y) ≡ false
      → is_negative (comp y z) ≡ false
      → is_negative (comp x z) ≡ false

-- `x` is not below `y`.
abbrev pub Geq : CompFn → ℕ → ℕ → Type 0
Geq comp x y = is_negative (comp x y) ≡ false

-- No child is above its parent.
abbrev pub IsHeap : CompFn → List ℕ → Type 0
IsHeap comp a = (c : ℕ) → 0 < c → c < length a → Geq comp (at a (parent c)) (at a c)

pub Geq-refl : {comp : CompFn} → IsOrder comp → (x : ℕ) → Geq comp x x
Geq-refl {comp} o x = elim (Bool-cases (is_negative (comp x x))) [
  | inl below ↦ o.asym x x below
  | inr level ↦ level
]

top_below :
    (comp : CompFn) (k : ℕ) (a : List ℕ) (i : ℕ)
    → IsOrder comp
    → IsHeap comp a
    → i < k
    → i < length a
    → Geq comp (at a 0) (at a i)
top_below comp zero a i o h f p = absurd (omega arith)
top_below comp (suc k) a zero o h f p = Geq-refl o (at a 0)
top_below comp (suc k) a (suc i) o h f p =
    o.trans (at a 0) (at a (parent (suc i))) (at a (suc i))
      (top_below comp k a (parent (suc i)) o h (omega arith) (omega arith))
      (h (suc i) (omega arith) p)

-- No value is above the top of a heap.
pub top_greatest :
    (comp : CompFn) (a : List ℕ) (i : ℕ)
    → IsOrder comp
    → IsHeap comp a
    → i < length a
    → Geq comp (at a 0) (at a i)
top_greatest comp a i o h p = top_below comp (suc i) a i o h (omega arith) p
