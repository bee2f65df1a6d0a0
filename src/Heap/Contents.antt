-- ===== src/Heap/Contents.antt =====
-- What a heap holds, and how realloc keeps it.
use native.Mathlib.Nat.{ℕ_set}
use mathlib.Core.Logic.{∥∥₁_elim}
use mathlib.Core.List.{Perm, Permᴰ, append_assoc, append-nil, perm_middle}
use just_kit.Prelude.{
  ℕ, zero, suc, ◌+◌, ◌<◌, ◌≤◌, ◌≡◌, refl, ap, ◌∙◌, Option, none, List, [], ◌∷◌, ◌++◌, arith, length,
  take, replicate, length-append, length-take, length-replicate,
}
use just_kit.Heap.{CompFn, Heap, realloc}
use just_kit.Heap.Cells.{live, at, length-live}
use just_kit.Heap.Order.{IsHeap}

-- The heap holds the values `a`, in the order of its array, and the array has `size` cells.
pub record Holds (comp : CompFn) (h : Heap) (a : List ℕ) : Type 0 where
  pub spare : List (Option ℕ)
  pub cells : h.tree ≡ live a ++ spare
  pub sized : length h.tree ≡ h.size
  pub counted : h.used ≡ length a
  pub heap : IsHeap comp a

pub used-le-size : {comp : CompFn} {h : Heap} {a : List ℕ} → Holds comp h a → h.used ≤ h.size
used-le-size {a = a} v =
    omega
      (arith, v.sized, v.counted, ap length v.cells, length-append (live a) v.spare, length-live a)

pub at-append : (a b : List ℕ) (i : ℕ) → i < length a → at (a ++ b) i ≡ at a i
at-append [] b i h = absurd (omega arith)
at-append (x ∷ a) b zero h = refl
at-append (x ∷ a) b (suc i) h = at-append a b i (omega arith)

pub snoc : (a : List ℕ) → 0 < length a → (front : List ℕ) × (save : ℕ) × (a ≡ front ++ (save ∷ []))
snoc [] h = absurd (omega arith)
snoc (x ∷ []) h = ([], x, refl)
snoc (x ∷ (y ∷ a)) h =
    let (front, save, e) = snoc (y ∷ a) (omega arith) in (x ∷ front, save, ap (◌∷◌ x) e)

-- realloc keeps the cells in use, where there is room for them.
take_grow :
    (t r : List (Option ℕ)) (n : ℕ)
    → length t ≤ n
    → n ≤ length t + length r
    → (w : List (Option ℕ)) × (take n (t ++ r) ≡ t ++ w) × (length (t ++ w) ≡ n)
take_grow [] r n low high = (take n r, refl, omega (arith, length-take n r))
take_grow (x ∷ t) r zero low high = absurd (omega arith)
take_grow (x ∷ t) r (suc n) low high =
    let (w, e, l) = take_grow t r n (omega arith) (omega arith) in (w, ap (◌∷◌ x) e, ap suc l)

pub realloc-live :
    (b : List ℕ) (s : List (Option ℕ)) (n : ℕ)
    → length b ≤ n
    → (w : List (Option ℕ)) × (realloc n (live b ++ s) ≡ live b ++ w) × (length (live b ++ w) ≡ n)
realloc-live b s n low =
    let (w, e, l) =
      take_grow (live b) (s ++ replicate n none) n (omega (arith, length-live b)) (
        omega
          (arith, length-append s (replicate n none), length-replicate {A = Option ℕ} n none)) in
    (w, ap (take n) (append_assoc (live b) s (replicate n none)) ∙ e, l)

length-permᴰ : {a b : List ℕ} → Permᴰ a b → length a ≡ length b
length-permᴰ Permᴰ.nil = refl
length-permᴰ (Permᴰ.cons _ p) = ap suc (length-permᴰ p)
length-permᴰ (Permᴰ.swap _ _) = refl
length-permᴰ (Permᴰ.trans p q) = length-permᴰ p ∙ length-permᴰ q

pub length-perm : {a b : List ℕ} → Perm a b → length a ≡ length b
length-perm p = ∥∥₁_elim p (ℕ_set _ _) length-permᴰ

pub snoc-perm : (a : List ℕ) (x : ℕ) → Perm (a ++ (x ∷ [])) (x ∷ a)
snoc-perm a x = rw (append-nil a) at (perm_middle {a = x} a [])

-- realloc where the new size has room for the cells in use.
pub grown-Holds :
    (comp : CompFn) (h : Heap) (a : List ℕ) (n : ℕ)
    → Holds comp h a
    → length a ≤ n
    → Holds comp (record h { tree = realloc n h.tree; size = n }) a
grown-Holds comp h a n v low =
    let (w, e, l) = realloc-live a v.spare n low in
    let same = ap (realloc n) v.cells ∙ e in
    record {
      spare = w;
      cells = same;
      sized = ap length same ∙ l;
      counted = v.counted;
      heap = v.heap;
    }

-- The record that a heap is, in terms of its values.
pub heap_eq :
    (h : Heap) {t : List (Option ℕ)} {u : ℕ}
    → h.tree ≡ t
    → h.used ≡ u
    → h ≡ record { tree = t; size = h.size; used = u }
heap_eq h p q = λ i. record { tree = p i; size = h.size; used = q i }
