-- ===== src/Heap/Up.antt =====
-- The loop of `jk_heap_insert`.
use mathlib.Core.List.{Perm}
use mathlib.Core.List.Perm
use just_kit.Prelude.{
  ℕ, zero, suc, ◌<◌, ◌≡◌, ◌≢◌, refl, true, Option, List, ◌++◌, arith, length, Returns, returns,
  Returns-if, Returns-map, ltb, ltb→lt, ltb-false→le,
}
use just_kit.Heap.{CompFn, is_negative, parent, sift_up}
use just_kit.Heap.Cells.{
  live, at, swapped, load-live, swap-live, length-swapped, at-swapped, swapped-perm,
}
use just_kit.Heap.Order.{IsOrder, Geq, IsHeap}

-- Only the edge above `i` may be out of order.
pub record RisingAt (comp : CompFn) (a : List ℕ) (i : ℕ) : Type 0 where
  pub inside : i < length a
  pub edges : (c : ℕ) → 0 < c → c < length a → c ≢ i → Geq comp (at a (parent c)) (at a c)
  pub bridged :
      (c : ℕ) → 0 < c → c < length a → parent c ≡ i → 0 < i → Geq comp (at a (parent i)) (at a c)

-- The cells in use hold a heap of the values `a`.
pub record Heaped (comp : CompFn) (a : List ℕ) (s t : List (Option ℕ)) : Type 0 where
  pub items : List ℕ
  pub cells : t ≡ live items ++ s
  pub heap : IsHeap comp items
  pub perm : Perm items a

swapped-RisingAt :
    (comp : CompFn) (a : List ℕ) (i : ℕ)
    → IsOrder comp
    → RisingAt comp a i
    → 0 < i
    → is_negative (comp (at a (parent i)) (at a i)) ≡ true
    → RisingAt comp (swapped a i (parent i)) (parent i)
swapped-RisingAt comp a i o v pos below =
    let q = parent i in
    let hq : q < length a = omega (arith, v.inside) in
    let cell = λ (c : ℕ). at-swapped a i q c v.inside hq in
    let turned = o.asym (at a q) (at a i) below in
    record {
      inside = omega (arith, length-swapped a i q);
      edges = λ c p r n. ground (
        arith,
        length-swapped a i q,
        cell c,
        cell (parent c),
        turned,
        v.edges c,
        v.bridged c,
        o.trans (at a i) (at a q) (at a c),
      );
      bridged = λ c p r e n. ground (
        arith,
        length-swapped a i q,
        cell c,
        cell (parent q),
        v.edges c,
        v.edges q,
        o.trans (at a (parent q)) (at a q) (at a c),
      );
    }

pub sift_up-Heaped :
    (comp : CompFn) (fuel : ℕ) (a : List ℕ) (s : List (Option ℕ)) (i : ℕ)
    → IsOrder comp
    → RisingAt comp a i
    → i < fuel
    → Returns (Heaped comp a s) (sift_up comp fuel (live a ++ s) i)
unfolding sift_up
sift_up-Heaped comp zero a s i o v enough = absurd (omega arith)
sift_up-Heaped comp (suc fuel) a s i o v enough =
    let q = parent i in
    let hq : q < length a = omega (arith, v.inside) in
    rw (load-live a s q hq, load-live a s i v.inside, swap-live a s i q v.inside hq)
      (Returns-if (ltb 0 i)
        (λ pos.
          Returns-if (is_negative (comp (at a q) (at a i)))
            (λ below.
              let up = ltb→lt 0 i pos in
              Returns-map
                (sift_up-Heaped comp fuel (swapped a i q) s q o
                  (swapped-RisingAt comp a i o v up below) (omega arith))
                λ t h. record {
                  items = h.items;
                  cells = h.cells;
                  heap = h.heap;
                  perm = Perm.trans h.perm (swapped-perm a i q v.inside hq);
                })
            (λ settled. returns (record {
              items = a;
              cells = refl;
              perm = Perm.rfl;
              heap = λ c p r. ground (arith, v.edges c);
            })))
        (λ root.
          let top = ltb-false→le 0 i root in
          returns (record {
            items = a;
            cells = refl;
            perm = Perm.rfl;
            heap = λ c p r. v.edges c p r (omega arith);
          })))
