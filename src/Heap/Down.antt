-- ===== src/Heap/Down.antt =====
-- The loop of `jk_heap_extract`.
use mathlib.Core.List.Perm
use just_kit.Prelude.{
  ℕ, zero, suc, ◌-◌, ◌^◌, ◌<◌, ◌≡◌, ◌≢◌, ◌⊎◌, refl, Option, List, ◌++◌, arith, length, Returns,
  returns, Returns-if, Returns-map, Returns-bind, ltb, ltb→lt, lt→ltb, ltb-false→le, ◌==◌, ==_iff,
  Bool-cases, inl, inr,
}
use just_kit.Heap.{CompFn, is_positive, parent, left, right, sift_down, greater_of}
use just_kit.Heap.Cells.{
  live, at, swapped, load-live, swap-live, length-swapped, at-swapped, swapped-perm,
}
use just_kit.Heap.Order.{IsOrder, Geq, Geq-refl}
use just_kit.Heap.Up.{Heaped}

-- Only the edges below `i` may be out of order.
pub record SinkingAt (comp : CompFn) (a : List ℕ) (i : ℕ) : Type 0 where
  pub inside : i < length a
  pub edges : (c : ℕ) → 0 < c → c < length a → parent c ≢ i → Geq comp (at a (parent c)) (at a c)
  pub bridged :
      (c : ℕ) → 0 < c → c < length a → parent c ≡ i → 0 < i → Geq comp (at a (parent i)) (at a c)

-- `m` is `pos` or `m'`, and no less than either.
record Greater (comp : CompFn) (a : List ℕ) (pos m' m : ℕ) : Type 0 where
  one : (m ≡ m') ⊎ ((m ≡ pos) × (pos < length a))
  first : pos < length a → Geq comp (at a m) (at a pos)
  second : Geq comp (at a m) (at a m')

greater_of-Greater :
    (comp : CompFn) (a : List ℕ) (s : List (Option ℕ)) (pos m' : ℕ)
    → IsOrder comp
    → m' < length a
    → Returns (Greater comp a pos m') (greater_of comp (length a) (live a ++ s) pos m')
unfolding greater_of
greater_of-Greater comp a s pos m' o h =
    Returns-if (ltb pos (length a))
      (λ yes'.
        let inside = ltb→lt pos (length a) yes' in
        rw (load-live a s pos inside, load-live a s m' h)
          (elim (Bool-cases (is_positive (comp (at a pos) (at a m')))) [
            | inl above ↦ rw above (
                returns (record {
                  one = inr (refl, inside);
                  first = λ _. Geq-refl o (at a pos);
                  second =
                      ground (arith, o.flipped (at a pos) (at a m'), o.asym (at a m') (at a pos));
                }))
            | inr level ↦ rw level (
                returns (record {
                  one = inl refl;
                  first = λ _. ground (arith, o.flipped (at a pos) (at a m'));
                  second = Geq-refl o (at a m');
                }))
          ]))
      (λ out.
        let outside = ltb-false→le pos (length a) out in
        returns (record {
          one = inl refl;
          first = λ x. absurd (omega arith);
          second = Geq-refl o (at a m');
        }))

-- `m` is the greatest of `i` and its children.
record Greatest (comp : CompFn) (a : List ℕ) (i m : ℕ) : Type 0 where
  inside : m < length a
  place : (m ≡ i) ⊎ (m ≡ left i) ⊎ (m ≡ right i)
  above : Geq comp (at a m) (at a i)
  children : (c : ℕ) → 0 < c → c < length a → parent c ≡ i → Geq comp (at a m) (at a c)

both-Greatest :
    (comp : CompFn) (a : List ℕ) (i m m' : ℕ)
    → IsOrder comp
    → i < length a
    → Greater comp a (left i) i m'
    → Greater comp a (right i) m' m
    → Greatest comp a i m
both-Greatest comp a i m m' o h g g' = record {
  inside = ground (arith, g.one, g'.one);
  place = ground (arith, g.one, g'.one);
  above = o.trans (at a m) (at a m') (at a i) g'.second g.second;
  children = λ c p q e. elim (Bool-cases (c == left i)) [
    | inl l ↦
        let at_left : c ≡ left i = (==_iff c (left i)).0 l in
        rw at_left (o.trans (at a m) (at a m') (at a (left i)) g'.second (g.first (omega arith)))
    | inr r ↦ let at_right : c ≡ right i = ground arith in rw at_right (g'.first (omega arith))
  ];
}

swapped-SinkingAt :
    (comp : CompFn) (a : List ℕ) (i m : ℕ)
    → SinkingAt comp a i
    → Greatest comp a i m
    → m ≢ i
    → SinkingAt comp (swapped a m i) m
swapped-SinkingAt comp a i m v g moved =
    let cell = λ (c : ℕ). at-swapped a m i c g.inside v.inside in
    record {
      inside = omega (arith, length-swapped a m i, g.inside);
      edges = λ c p q n. ground (
        arith,
        length-swapped a m i,
        cell c,
        cell (parent c),
        g.place,
        g.above,
        g.children c,
        v.edges c,
        v.bridged m,
        g.inside,
      );
      bridged = λ c p q e n.
          ground (arith, length-swapped a m i, cell c, cell (parent m), g.place, v.edges c);
    }

pub sift_down-Heaped :
    (comp : CompFn) (fuel : ℕ) (a : List ℕ) (s : List (Option ℕ)) (i : ℕ)
    → IsOrder comp
    → SinkingAt comp a i
    → length a < 2 ^ 30
    → length a - i < fuel
    → Returns (Heaped comp a s) (sift_down comp (length a) fuel (live a ++ s) i)
unfolding sift_down
sift_down-Heaped comp zero a s i o v small enough = absurd (omega arith)
sift_down-Heaped comp (suc fuel) a s i o v small enough =
    rw (lt→ltb (right i) (2 ^ 31) (omega (arith, v.inside))) (
      Returns-bind (greater_of-Greater comp a s (left i) i o v.inside) λ m' g.
        Returns-bind (greater_of-Greater comp a s (right i) m' o (ground (arith, g.one, v.inside)))
          λ m g'.
            let best = both-Greatest comp a i m m' o v.inside g g' in
            rw (swap-live a s m i best.inside v.inside) (
              Returns-if (m == i)
                (λ stay.
                  let here : m ≡ i = (==_iff m i).0 stay in
                  returns (record {
                    items = a;
                    cells = refl;
                    perm = Perm.rfl;
                    heap = λ c p q. ground (arith, v.edges c, best.children c, here);
                  }))
                (λ move.
                  let moved : m ≢ i = ground arith in
                  Returns-map
                    (rw (length-swapped a m i) at (
                      sift_down-Heaped comp fuel (swapped a m i) s m o
                        (swapped-SinkingAt comp a i m v best moved)
                        (omega (arith, length-swapped a m i))
                        (ground (arith, length-swapped a m i, best.place, best.inside))))
                    λ t h. record {
                      items = h.items;
                      cells = h.cells;
                      heap = h.heap;
                      perm = Perm.trans h.perm (swapped-perm a m i best.inside v.inside);
                    })))
