-- ===== src/Heap/Cells.antt =====
-- The cells of the heap's array: those in use hold a value, whatever stands behind them.
use mathlib.Core.List.{Perm}
use mathlib.Core.List.Perm
use just_kit.Prelude.{
  ℕ, zero, suc, ◌<◌, ◌≡◌, refl, ap, ◌∙◌, Option, some, List, [], ◌∷◌, ◌++◌, arith, ok, length,
  get_or, set, length-append, length-set, lt→ltb, ◌==◌, if◌then◌else◌,
}
use just_kit.Heap.{load, store, swap}

abbrev pub live : List ℕ → List (Option ℕ)
live [] = []
live (x ∷ xs) = some x ∷ live xs

-- The value in a cell that is in use.
abbrev pub at : List ℕ → ℕ → ℕ
at a i = get_or a i 0

abbrev pub swapped : List ℕ → ℕ → ℕ → List ℕ
swapped a i j = set (set a i (at a j)) j (at a i)

pub length-live : (a : List ℕ) → length (live a) ≡ length a
length-live [] = refl
length-live (x ∷ a) = ap suc (length-live a)

pub live-append : (a b : List ℕ) → live (a ++ b) ≡ live a ++ live b
live-append [] b = refl
live-append (x ∷ a) b = ap (◌∷◌ (some x)) (live-append a b)

pub load-live :
    (a : List ℕ) (s : List (Option ℕ)) (i : ℕ) → i < length a → load (live a ++ s) i ≡ ok (at a i)
unfolding load
load-live [] s i h = absurd (omega arith)
load-live (x ∷ a) s zero h = refl
load-live (x ∷ a) s (suc i) h = load-live a s i (omega arith)

set-live :
    (a : List ℕ) (s : List (Option ℕ)) (i x : ℕ)
    → i < length a
    → set (live a ++ s) i (some x) ≡ live (set a i x) ++ s
set-live [] s i x h = absurd (omega arith)
set-live (y ∷ a) s zero x h = refl
set-live (y ∷ a) s (suc i) x h = ap (◌∷◌ (some y)) (set-live a s i x (omega arith))

pub store-live :
    (a : List ℕ) (s : List (Option ℕ)) (i x : ℕ)
    → i < length a
    → store (live a ++ s) i x ≡ ok (live (set a i x) ++ s)
unfolding store
store-live a s i x h =
    let inside : i < length (live a ++ s) =
      omega (arith, length-append (live a) s, length-live a) in
    rw (lt→ltb i (length (live a ++ s)) inside, set-live a s i x h)

pub swap-live :
    (a : List ℕ) (s : List (Option ℕ)) (i j : ℕ)
    → i < length a
    → j < length a
    → swap (live a ++ s) i j ≡ ok (live (swapped a i j) ++ s)
unfolding swap
swap-live a s i j p q = rw (
  load-live a s i p,
  load-live a s j q,
  store-live a s i (at a j) p,
  store-live (set a i (at a j)) s j (at a i) (rw length-set q),
)

-- The first cell behind those in use is written by a store at the end.
pub store-end :
    (a : List ℕ) (c : Option ℕ) (s : List (Option ℕ)) (x : ℕ)
    → store (live a ++ (c ∷ s)) (length a) x ≡ ok (live (a ++ (x ∷ [])) ++ s)
unfolding store
store-end a c s x =
    let inside : length a < length (live a ++ (c ∷ s)) =
      omega (arith, length-append (live a) (c ∷ s), length-live a) in
    rw (lt→ltb (length a) (length (live a ++ (c ∷ s))) inside, set-end a)
  where
    set-end : (b : List ℕ) → set (live b ++ (c ∷ s)) (length b) (some x) ≡ live (b ++ (x ∷ [])) ++ s
    set-end [] = refl
    set-end (y ∷ b) = ap (◌∷◌ (some y)) (set-end b)

pub at-set :
    (a : List ℕ) (i j v : ℕ) → i < length a → at (set a i v) j ≡ (if i == j then v else at a j)
at-set [] i j v h = absurd (omega arith)
at-set (x ∷ a) zero zero v h = refl
at-set (x ∷ a) zero (suc j) v h = ground arith
at-set (x ∷ a) (suc i) zero v h = ground arith
at-set (x ∷ a) (suc i) (suc j) v h = ground (arith, at-set a i j v)

pub length-swapped : (a : List ℕ) (i j : ℕ) → length (swapped a i j) ≡ length a
length-swapped a i j = length-set (set a i (at a j)) j (at a i) ∙ length-set a i (at a j)

pub at-swapped :
    (a : List ℕ) (i j c : ℕ)
    → i < length a
    → j < length a
    → at (swapped a i j) c ≡ (if j == c then at a i else if i == c then at a j else at a c)
at-swapped a i j c p q =
    rw (at-set (set a i (at a j)) j c (at a i) (rw length-set q), at-set a i c (at a j) p)

-- A write trades the old value for the new one.
pub traded : (a : List ℕ) (i v : ℕ) → i < length a → Perm (at a i ∷ set a i v) (v ∷ a)
traded [] i v h = absurd (omega arith)
traded (x ∷ a) zero v h = Perm.swap v x a
traded (x ∷ a) (suc i) v h =
    Perm.trans (Perm.swap x _ _)
      (Perm.trans (Perm.cons x (traded a i v (omega arith))) (Perm.swap v x a))

pub swapped-perm : (a : List ℕ) (i j : ℕ) → i < length a → j < length a → Perm (swapped a i j) a
swapped-perm a i j p q =
    let b = set a i (at a j) in
    let same : at b j ≡ at a j = ground (arith, at-set a i j (at a j)) in
    Perm.cons_inv
      (Perm.trans (rw same at (traded b j (at a i) (rw length-set q))) (traded a i (at a j) p))
